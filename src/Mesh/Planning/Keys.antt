-- ===== src/Mesh/Planning/Keys.antt =====
-- The keys of the other hosts that `build_plan` (coolify-cli/src/wireguard/plan.rs) compares.
use coold.Prelude.{
  Bool-cases, Option-cases, string_eq, nat_eq, ◌==◌, ==_iff, contains, any, All, lookup, is_empty,
  String, ◌≡◌, refl, ◌∙◌, ◌⊎◌, inl, inr, Bool, false, ◌&&◌, ◌||◌, not, none, some, List, [], ◌∷◌,
  ◌++◌, map, arith,
}
use coold.Mesh.Texts.{insert_text, insert_once, set_of}
use coold.Mesh.State.{Peer, ServerState, MeshState, MeshRequest}
use coold.Mesh.Planning.Hosts.{found_key, other_keys, peer_key_pending, current_keys, desired_keys}

contains-insert_text :
    (t k : String) (us : List String) → contains (insert_text t us) k ≡ (t == k || contains us k)
unfolding insert_text contains
contains-insert_text t k [] = refl
contains-insert_text t k (u ∷ us) = ground (arith, contains-insert_text t k us)

contains-set_of : (k : String) (ts : List String) → contains (set_of ts) k ≡ contains ts k
unfolding set_of insert_once contains
contains-set_of k [] = refl
contains-set_of k (t ∷ ts) = ground (
  arith,
  contains-set_of k ts,
  contains-set_of t ts,
  contains-insert_text t k (set_of ts),
  ==_iff t k,
)

contains-append :
    (k : String) (xs ys : List String) → contains (xs ++ ys) k ≡ (contains xs k || contains ys k)
unfolding contains
contains-append k [] ys = refl
contains-append k (x ∷ xs) ys = ground (arith, contains-append k xs ys)

contains-public_keys :
    (k : String) (peers : List Peer)
    → contains (map (λ (p : Peer). p.public_key) peers) k
      ≡ any (λ (p : Peer). p.public_key == k) peers
unfolding contains any
contains-public_keys k [] = refl
contains-public_keys k (p ∷ peers) = ground (arith, contains-public_keys k peers)

module _ {Net : Type 0} where
  -- The key of a host has been read.
  abbrev pub IsKnown : MeshState Net → String → Type 0
  IsKnown servers p =
      (s : ServerState Net) × (lookup p servers ≡ some s) × (is_empty s.public_key ≡ false)

  -- This is the key of another host.
  abbrev pub is_key_of : MeshState Net → String → String → String → Bool
  is_key_of servers host k p =
      not (p == host) && (elim (lookup p servers) [ none ↦ false | some s ↦ s.public_key == k ])

  -- The keys of all other hosts are known.
  abbrev pub AllKnown : MeshState Net → String → List String → Type 0
  AllKnown servers host hosts = All (λ p. (p ≡ host) ⊎ IsKnown servers p) hosts

  pub peer_key_pending-AllKnown :
      (servers : MeshState Net) (host : String) (hosts : List String)
      → peer_key_pending servers host hosts ≡ false
      → AllKnown servers host hosts
  unfolding peer_key_pending
  peer_key_pending-AllKnown servers host [] h = tt
  peer_key_pending-AllKnown servers host (p ∷ hosts) h = (
    elim (Bool-cases (p == host)) [
      | inl same ↦ inl ((==_iff p host).0 same)
      | inr other ↦ elim (Option-cases (lookup p servers)) [
        | inl miss ↦ absurd (ground (arith, h, other, miss))
        | inr (s, hit) ↦ inr (s, hit, ground (arith, h, other, hit))
      ]
    ],
    peer_key_pending-AllKnown servers host hosts (ground (arith, h)),
  )

  pub AllKnown-peer_key_pending :
      (servers : MeshState Net) (host : String) (hosts : List String)
      → AllKnown servers host hosts
      → peer_key_pending servers host hosts ≡ false
  unfolding peer_key_pending
  AllKnown-peer_key_pending servers host [] a = refl
  AllKnown-peer_key_pending servers host (p ∷ hosts) a =
      let rest = AllKnown-peer_key_pending servers host hosts a.1 in
      elim a.0 [
        | inl same ↦ let equal = (==_iff p host).1 same in ground (arith, rest, equal)
        | inr (s, hit, full) ↦ ground (arith, rest, hit, full)
      ]

  contains-found_key :
      (servers : MeshState Net) (p k : String)
      → IsKnown servers p
      → contains (found_key (lookup p servers)) k
        ≡ (elim (lookup p servers) [ none ↦ false | some s ↦ s.public_key == k ])
  unfolding contains
  contains-found_key servers p k (s, hit, full) = rw (hit, full) (ground arith)

  contains-other_keys :
      (servers : MeshState Net) (host k : String) (hosts : List String)
      → AllKnown servers host hosts
      → contains (other_keys servers host hosts) k ≡ any (λ p. is_key_of servers host k p) hosts
  unfolding other_keys contains any
  contains-other_keys servers host k [] a = refl
  contains-other_keys servers host k (p ∷ hosts) a =
      let rest = contains-other_keys servers host k hosts a.1 in
      elim (Bool-cases (p == host)) [
        | inl same ↦ ground (arith, rest, same)
        | inr other ↦ elim a.0 [
          | inl same ↦ absurd (let equal = (==_iff p host).1 same in ground (arith, equal, other))
          | inr known ↦
              let split =
                contains-append k (found_key (lookup p servers)) (other_keys servers host hosts) in
              let here = contains-found_key servers p k known in
              rw (other, split, here, rest) (ground arith)
        ]
      ]

  -- What the code compares, in terms of the peers and of the hosts.
  pub current_is :
      (state : ServerState Net) (k : String)
      → contains (current_keys state) k ≡ any (λ (p : Peer). p.public_key == k) state.peers
  unfolding current_keys
  current_is state k = contains-set_of k _ ∙ contains-public_keys k state.peers

  pub desired_is :
      (r : MeshRequest Net) (servers : MeshState Net) (host k : String)
      → AllKnown servers host r.hosts
      → contains (desired_keys r servers host) k ≡ any (λ p. is_key_of servers host k p) r.hosts
  unfolding desired_keys
  desired_is r servers host k a = contains-set_of k _ ∙ contains-other_keys servers host k r.hosts a
