-- ===== src/Mesh/Planning/Converged.antt =====
-- When `build_plan` (coolify-cli/src/wireguard/plan.rs) has nothing to do on WireGuard.
use coold.Prelude.{
  Bool-cases, string_eq, nat_eq, ◌==◌, ==_iff, ==_refl, contains, length, filter, any, ℕ, ◌≤◌,
  String, ◌≡◌, refl, sym, ap, ◌∙◌, ◌↔◌, ◌⊎◌, inl, inr, Bool, true, false, not, Option, none, some,
  List, [], ◌∷◌, ◌++◌, map, arith,
}
use coold.Mesh.Intent.{reload_service, remove_peer, PlannedAction}
use coold.Mesh.Texts.{concat, difference}
use coold.Mesh.State.{Peer, ServerState, MeshState, MeshRequest, listen_port_for}
use coold.Mesh.Planning.Hosts.{
  push, push_if, truncate_key, is_ip, peer_key_pending, current_keys, desired_keys, needs_config,
  service_actions, wireguard_actions,
}
use coold.Mesh.Planning.Keys.{
  is_key_of, AllKnown, peer_key_pending-AllKnown, AllKnown-peer_key_pending, current_is, desired_is,
}

append-nil : {A : Type 0} → (xs : List A) → xs ++ [] ≡ xs
append-nil [] = refl
append-nil (x ∷ xs) = ap (λ ys. x ∷ ys) (append-nil xs)

pub append_empty : {A : Type 0} → (xs ys : List A) → (xs ++ ys ≡ []) ↔ ((xs ≡ []) × (ys ≡ []))
append_empty [] ys = (λ h. (refl, h), λ h. h.1)
append_empty (x ∷ xs) ys = (λ h. absurd (ground (arith, h)), λ h. absurd (ground (arith, h.0)))

pub push_if_empty : (b : Bool) (a : PlannedAction) → (push_if b a ≡ []) ↔ (b ≡ false)
unfolding push_if
push_if_empty true a = (λ h. absurd (ground (arith, h)), λ h. absurd (ground (arith, h)))
push_if_empty false a = (λ h. refl, λ h. refl)

-- `any` of what a set lacks, and the difference of the sets.
difference_empty :
    (ts us : List String) → (difference ts us ≡ []) ↔ (any (λ t. not (contains us t)) ts ≡ false)
unfolding filter any
difference_empty [] us = (λ h. refl, λ h. refl)
difference_empty (t ∷ ts) us = ground (arith, difference_empty ts us)

difference_within :
    (ts us : List String)
    → difference ts us ≡ []
    → (k : String) → contains ts k ≡ true
    → contains us k ≡ true
unfolding filter contains
difference_within [] us e k h = absurd (ground (arith, h))
difference_within (t ∷ ts) us e k h = elim (Bool-cases (contains us t)) [
  | inr out ↦ absurd (ground (arith, e, out))
  | inl here ↦ elim (Bool-cases (t == k)) [
    | inl same ↦ rw ((==_iff t k).0 same) at here
    | inr other ↦ difference_within ts us (ground (arith, e, here)) k (ground (arith, h, other))
  ]
]

within-difference :
    (ts us : List String)
    → ((k : String) → contains ts k ≡ true → contains us k ≡ true)
    → difference ts us ≡ []
unfolding filter contains
within-difference [] us h = refl
within-difference (t ∷ ts) us h =
    let here : contains us t ≡ true = h t (ground (arith, ==_refl t)) in
    let rest = within-difference ts us (λ k m. h k (ground (arith, m))) in
    ground (arith, here, rest)

map_empty : (f : String → PlannedAction) (ts : List String) → (map f ts ≡ []) ↔ (ts ≡ [])
map_empty f [] = (λ h. refl, λ h. refl)
map_empty f (t ∷ ts) = (λ h. absurd (ground (arith, h)), λ h. absurd (ground (arith, h)))

is_ip-some : (o : Option ℕ) (ip : ℕ) → (is_ip o ip ≡ true) ↔ (o ≡ some ip)
is_ip-some none ip = (λ h. absurd (ground (arith, h)), λ h. absurd (ground (arith, h)))
is_ip-some (some n) ip =
    (λ h. ap (λ m. some m) ((==_iff n ip).0 h), λ h. (==_iff n ip).1 (ground (arith, h)))

module _ {Net : Type 0} where
  -- What makes WireGuard of a host settled: it is installed, has its keys and runs with the address
  -- that the plan gives it; its peers are exactly the other hosts, whose keys are all known; and with
  -- more than one host it listens at the desired port.
  pub record IsSettled (r : MeshRequest Net) (servers : MeshState Net) (host : String) (mgmt_ip : ℕ)
      (state : ServerState Net) : Type 0 where
    pub present : state.installed ≡ true
    pub keyed : state.keys_exist ≡ true
    pub running : state.active ≡ true
    pub addressed : state.wireguard_mgmt_ip ≡ some mgmt_ip
    pub known : AllKnown servers host r.hosts
    pub matched :
        (k : String)
        → any (λ (p : Peer). p.public_key == k) state.peers
          ≡ any (λ p. is_key_of servers host k p) r.hosts
    pub listening : (length r.hosts ≤ 1) ⊎ (state.listen_port ≡ listen_port_for r host)

  service_actions_empty :
      (r : MeshRequest Net) (host : String) (active config : Bool)
      → (service_actions r host active config ≡ []) ↔ ((active ≡ true) × (config ≡ false))
  unfolding service_actions
  service_actions_empty r host true config = ground (
    arith,
    push_if_empty config (
        push host "" reload_service
          (concat ("systemctl reload wg-quick@" ∷ r.interface ∷ " (config changed)" ∷ []))),
  )
  service_actions_empty r host false config =
      (λ h. absurd (ground (arith, h)), λ h. absurd (ground (arith, h)))

  -- The six parts of what is planned on WireGuard are empty.
  record AreEmpty (r : MeshRequest Net) (servers : MeshState Net) (host : String) (mgmt_ip : ℕ)
      (state : ServerState Net) : Type 0 where
    present : state.installed ≡ true
    keyed : state.keys_exist ≡ true
    added : difference (desired_keys r servers host) (current_keys state) ≡ []
    removed : difference (current_keys state) (desired_keys r servers host) ≡ []
    written : needs_config r servers host mgmt_ip state ≡ false
    running : state.active ≡ true

  wireguard_actions_empty :
      (r : MeshRequest Net) (servers : MeshState Net) (host : String) (mgmt_ip : ℕ)
      (state : ServerState Net)
      → (wireguard_actions r servers host mgmt_ip state ≡ [])
        ↔ AreEmpty r servers host mgmt_ip state
  unfolding wireguard_actions
  wireguard_actions_empty r servers host mgmt_ip state = (there, back)
    where
      there :
          wireguard_actions r servers host mgmt_ip state ≡ []
          → AreEmpty r servers host mgmt_ip state
      there h =
          let (a, h₁) = (append_empty _ _).0 h in
          let (b, h₂) = (append_empty _ _).0 h₁ in
          let (c, h₃) = (append_empty _ _).0 h₂ in
          let (d, h₄) = (append_empty _ _).0 h₃ in
          let (e, f) = (append_empty _ _).0 h₄ in
          record {
            present = ground (arith, (push_if_empty _ _).0 a);
            keyed = ground (arith, (push_if_empty _ _).0 b);
            added = (map_empty _ _).0 c;
            removed = (map_empty _ _).0 d;
            written = (push_if_empty _ _).0 e;
            running = ((service_actions_empty r host _ _).0 f).0;
          }

      back :
          AreEmpty r servers host mgmt_ip state
          → wireguard_actions r servers host mgmt_ip state ≡ []
      back e = (append_empty _ _).1 (
        (push_if_empty (not state.installed) _).1 (ground (arith, e.present)),
        (append_empty _ _).1 (
          (push_if_empty (not state.keys_exist) _).1 (ground (arith, e.keyed)),
          (append_empty _ _).1 (
            (map_empty _ _).1 e.added,
            (append_empty _ _).1 (
              (map_empty _ _).1 e.removed,
              (append_empty _ _).1 (
                (push_if_empty _ _).1 e.written,
                (service_actions_empty r host _ _).1 (e.running, e.written),
              ),
            ),
          ),
        ),
      )

  needs_config-false :
      (r : MeshRequest Net) (servers : MeshState Net) (host : String) (mgmt_ip : ℕ)
      (state : ServerState Net)
      → (needs_config r servers host mgmt_ip state ≡ false) ↔ (
          (is_ip state.wireguard_mgmt_ip mgmt_ip ≡ true)
          × (any (λ k. not (contains (current_keys state) k)) (desired_keys r servers host) ≡ false)
          × (peer_key_pending servers host r.hosts ≡ false)
          × (state.keys_exist ≡ true)
          × (state.installed ≡ true)
          × ((length r.hosts ≤ 1) ⊎ (state.listen_port ≡ listen_port_for r host)))
  unfolding needs_config
  needs_config-false r servers host mgmt_ip state = (
    λ h. (
      ground (arith, h),
      ground (arith, h),
      ground (arith, h),
      ground (arith, h),
      ground (arith, h),
      ground (arith, h),
    ),
    λ (a, b, c, d, e, f). ground (arith, a, b, c, d, e, f),
  )

  -- There is nothing to do on WireGuard of a host exactly if it is installed, has its keys and runs
  -- with the address that the plan gives it, the key of every other host is known, the keys of its
  -- peers are exactly those of the other hosts, and with more than one host it listens at the desired
  -- port.
  pub wireguard_actions-IsSettled :
      (r : MeshRequest Net) (servers : MeshState Net) (host : String) (mgmt_ip : ℕ)
      (state : ServerState Net)
      → (wireguard_actions r servers host mgmt_ip state ≡ [])
        ↔ IsSettled r servers host mgmt_ip state
  wireguard_actions-IsSettled r servers host mgmt_ip state = (there, back)
    where
      there :
          wireguard_actions r servers host mgmt_ip state ≡ []
          → IsSettled r servers host mgmt_ip state
      there h =
          let e = (wireguard_actions_empty r servers host mgmt_ip state).0 h in
          let (address, _, known, _, _, listening) =
            (needs_config-false r servers host mgmt_ip state).0 e.written in
          record {
            present = e.present;
            keyed = e.keyed;
            running = e.running;
            addressed = (is_ip-some state.wireguard_mgmt_ip mgmt_ip).0 address;
            known = peer_key_pending-AllKnown servers host r.hosts known;
            matched = λ k.
                (let here = difference_within _ _ e.removed k in
                  let there = difference_within _ _ e.added k in
                  let same : contains (current_keys state) k
                      ≡ contains (desired_keys r servers host) k =
                    ground (arith, here, there) in
                  sym (current_is state k)
                  ∙ same
                  ∙ desired_is r servers host k
                      (peer_key_pending-AllKnown servers host r.hosts known));
            listening = listening;
          }

      back :
          IsSettled r servers host mgmt_ip state
          → wireguard_actions r servers host mgmt_ip state ≡ []
      back v =
          let same : (k : String)
              → contains (current_keys state) k ≡ contains (desired_keys r servers host) k =
            λ k. current_is state k ∙ v.matched k ∙ sym (desired_is r servers host k v.known) in
          let added =
            within-difference (desired_keys r servers host) (current_keys state)
              (λ k h. same k ∙ h) in
          let removed =
            within-difference (current_keys state) (desired_keys r servers host)
              (λ k h. sym (same k) ∙ h) in
          let address = (is_ip-some state.wireguard_mgmt_ip mgmt_ip).1 v.addressed in
          let complete =
            (difference_empty (desired_keys r servers host) (current_keys state)).0 added in
          (wireguard_actions_empty r servers host mgmt_ip state).1 (record {
            present = v.present;
            keyed = v.keyed;
            added = added;
            removed = removed;
            written = (needs_config-false r servers host mgmt_ip state).1 (
              address,
              complete,
              AllKnown-peer_key_pending servers host r.hosts v.known,
              v.keyed,
              v.present,
              v.listening,
            );
            running = v.running;
          })

  -- On a host that is settled but for peers that are no longer wanted (no peer is missing, and the
  -- keys of all other hosts are known), the plan names these peers, and neither writes the
  -- configuration nor reloads the service.
  pub wireguard_actions_stale :
      (r : MeshRequest Net) (servers : MeshState Net) (host : String) (mgmt_ip : ℕ)
      (state : ServerState Net)
      → state.installed ≡ true
      → state.keys_exist ≡ true
      → state.active ≡ true
      → state.wireguard_mgmt_ip ≡ some mgmt_ip
      → peer_key_pending servers host r.hosts ≡ false
      → state.listen_port ≡ listen_port_for r host
      → difference (desired_keys r servers host) (current_keys state) ≡ []
      → wireguard_actions r servers host mgmt_ip state
        ≡ map
            (λ key. push host "" remove_peer (truncate_key key))
            (difference (current_keys state) (desired_keys r servers host))
  unfolding wireguard_actions push_if service_actions
  wireguard_actions_stale r servers host mgmt_ip state a b c d e f added =
      let complete =
        (difference_empty (desired_keys r servers host) (current_keys state)).0 added in
      let address = (is_ip-some state.wireguard_mgmt_ip mgmt_ip).1 d in
      let plain : needs_config r servers host mgmt_ip state ≡ false =
        (needs_config-false r servers host mgmt_ip state).1 (address, complete, e, b, a, inr f) in
      rw (plain, added, a, b, c) (append-nil _)
