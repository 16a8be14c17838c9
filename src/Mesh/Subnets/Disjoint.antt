-- ===== src/Mesh/Subnets/Disjoint.antt =====
-- The subnets that `allocate` (coolify-cli/src/wireguard/subnet.rs) has given so far.
use coold.Prelude.{
  Bool-cases, string_eq, nat_eq, contains, Map, insert, ℕ, ◌≤◌, String, ◌≡◌, refl, sym, inl, inr,
  false, List, [], ◌∷◌, arith,
}
use coold.Mesh.Addresses.Distinct.{
  NodupIps, AllUsed, insert-NodupIps, insert-AllUsed, unused-IsFresh,
}
use coold.Mesh.Subnets.{NetLibrary, Subnets, take_net, misplaced, keep_net, keep_nets}
use coold.Mesh.Subnets.Laws.{NetLaws}

module _ (lib : NetLibrary) where
  open lib use {Net, network, broadcast, prefix_len, holds, new_net}

  -- The first addresses of the subnets.
  unfoldable pub networks_of : Map String Net → Map String ℕ
  networks_of [] = []
  networks_of ((host, net) ∷ m) = (host, network net) ∷ networks_of m

  -- A subnet of the right size whose first address is in the pool.
  abbrev pub IsPlaced : Net → ℕ → Net → Type 0
  IsPlaced pool prefix net =
      (prefix_len net ≡ prefix) × (network pool ≤ network net) × (network net ≤ broadcast pool)

  abbrev pub AllPlaced : Net → ℕ → Map String Net → Type 0
  AllPlaced pool prefix [] = Unit
  AllPlaced pool prefix ((_, net) ∷ m) = IsPlaced pool prefix net × AllPlaced pool prefix m

  insert-networks_of :
      (host : String) (net : Net) (m : Map String Net)
      → networks_of (insert host net m) ≡ insert host (network net) (networks_of m)
  unfolding networks_of insert
  insert-networks_of host net [] = refl
  insert-networks_of host net ((j, w) ∷ m) = ground (arith, insert-networks_of host net m)

  insert-AllPlaced :
      (pool : Net) (prefix : ℕ) (net : Net) (host : String) (m : Map String Net)
      → IsPlaced pool prefix net
      → AllPlaced pool prefix m
      → AllPlaced pool prefix (insert host net m)
  unfolding insert
  insert-AllPlaced pool prefix net host [] u a = (u, tt)
  insert-AllPlaced pool prefix net host ((j, w) ∷ m) u a =
      ground (arith, insert-AllPlaced pool prefix net host m u a.1)

  -- Every subnet is placed, its first address is on the list of the used ones, and none is there
  -- twice.
  pub record IsLaidOut (pool : Net) (prefix : ℕ) (s : Subnets Net) : Type 0 where
    pub placed : AllPlaced pool prefix s.result
    pub listed : AllUsed s.used (networks_of s.result)
    pub distinct : NodupIps (networks_of s.result)

  pub take_net-IsLaidOut :
      (pool : Net) (prefix : ℕ) (host : String) (net : Net) (s : Subnets Net)
      → IsPlaced pool prefix net
      → contains s.used (network net) ≡ false
      → IsLaidOut pool prefix s
      → IsLaidOut pool prefix (take_net lib host (network net) net s)
  take_net-IsLaidOut pool prefix host net s u n v =
      let eq = sym (insert-networks_of host net s.result) in
      let fresh = unused-IsFresh (network net) s.used (networks_of s.result) n v.listed in
      record {
        placed = insert-AllPlaced pool prefix net host s.result u v.placed;
        listed =
            rw eq at (insert-AllUsed (network net) s.used host (networks_of s.result) v.listed);
        distinct =
            rw eq at (insert-NodupIps (network net) host (networks_of s.result) fresh v.distinct);
      }

  misplaced-IsPlaced :
      (pool : Net) (prefix : ℕ) (net : Net)
      → NetLaws lib pool prefix
      → misplaced lib pool prefix net ≡ false
      → IsPlaced pool prefix net
  unfolding misplaced
  misplaced-IsPlaced pool prefix net laws h =
      let inside = laws.holds_lem (network net) in
      let right : prefix_len net ≡ prefix = ground (arith, h) in
      (right, ground (arith, inside, h), ground (arith, inside, h))

  keep_net-IsLaidOut :
      (pool : Net) (prefix : ℕ) (hosts : List String) (host : String) (net : Net) (s : Subnets Net)
      → NetLaws lib pool prefix
      → IsLaidOut pool prefix s
      → IsLaidOut pool prefix (keep_net lib pool prefix hosts host net s)
  unfolding keep_net
  keep_net-IsLaidOut pool prefix hosts host net s laws v = elim (Bool-cases (contains hosts host)) [
    | inr other ↦ rw (other, keep_net) v
    | inl ours ↦ elim (Bool-cases (misplaced lib pool prefix net)) [
      | inl bad ↦
          rw (ours, bad, keep_net)
            (record { placed = v.placed; listed = v.listed; distinct = v.distinct })
      | inr good ↦ elim (Bool-cases (contains s.used (network net))) [
        | inl twice ↦
            rw (ours, good, twice, keep_net)
              (record { placed = v.placed; listed = v.listed; distinct = v.distinct })
        | inr once ↦
            rw (ours, good, once, keep_net)
              (take_net-IsLaidOut pool prefix host net s
                (misplaced-IsPlaced pool prefix net laws good) once v)
      ]
    ]
  ]

  pub keep_nets-IsLaidOut :
      (pool : Net) (prefix : ℕ) (hosts : List String) (existing : Map String Net) (s : Subnets Net)
      → NetLaws lib pool prefix
      → IsLaidOut pool prefix s
      → IsLaidOut pool prefix (keep_nets lib pool prefix hosts existing s)
  unfolding keep_nets
  keep_nets-IsLaidOut pool prefix hosts [] s laws v = v
  keep_nets-IsLaidOut pool prefix hosts ((host, net) ∷ existing) s laws v =
      keep_nets-IsLaidOut pool prefix hosts existing (keep_net lib pool prefix hosts host net s)
        laws (keep_net-IsLaidOut pool prefix hosts host net s laws v)
