-- ===== src/Mesh/Subnets/Allocated.antt =====
-- What `allocate` (coolify-cli/src/wireguard/subnet.rs) gives.
use native.Mathlib.Decide.{dec_lt}
use coold.Prelude.{
  ltb, Bool-cases, Option-cases, string_eq, nat_eq, ◌==◌, ==_refl, contains, length, All, Map,
  lookup, contains_key, NodupKeys, lookup-insert, Result, ok, err, ℕ, suc, ◌+◌, ◌≤◌, ◌<◌, String,
  ◌≡◌, refl, ◌∙◌, ◌⊎◌, inl, inr, true, false, ◌||◌, none, some, List, [], ◌∷◌, arith,
}
use coold.Prelude.Counting.{
  AllDistinct, all_on_itself, IsCounted, insert-IsCounted, IsCounted-room, nothing-AllNew,
}
use coold.Mesh.Addresses.{u32_max, first_duplicate}
use coold.Mesh.Addresses.Distinct.{NodupIps, IsFresh}
use coold.Mesh.Subnets.{
  NetLibrary, SubnetError, invalid_prefix, subnets_exhausted, host_twice, Subnets, step_of, Found,
  found, full, search_subnet, take_net, keep_nets, assign_nets, nothing_yet, allocate,
}
use coold.Mesh.Subnets.Laws.{NetLaws, PoolLaws, PoolLaws-NetLaws, AreDisjoint}
use coold.Mesh.Subnets.Steps.{step_apart, search_subnet_ends, step_of_positive}
use coold.Mesh.Subnets.Disjoint.{
  networks_of, IsPlaced, AllPlaced, IsLaidOut, take_net-IsLaidOut, keep_nets-IsLaidOut,
}
use coold.Mesh.Subnets.Counted.{AreTooMany, IsFull-AreTooMany, keep_nets-IsCounted}
use coold.Mesh.Addresses.Names.{IsTwice, first_duplicate-IsTwice, first_duplicate-AllDistinct}

module _ (lib : NetLibrary) where
  open lib use {Net, network, broadcast, prefix_len, holds, new_net}

  -- Every name has a subnet.
  abbrev pub AllHave : List String → Map String Net → Type 0
  AllHave hosts m = All (λ host. contains_key host m ≡ true) hosts

  -- A subnet of the right size, all of it in the pool.
  abbrev pub IsInside : Net → ℕ → Net → Type 0
  IsInside pool prefix net =
      (prefix_len net ≡ prefix) × (network pool ≤ network net) × (broadcast net ≤ broadcast pool)

  -- A subnet that has no address in common with any of a map.
  abbrev pub IsApart : Net → Map String Net → Type 0
  IsApart net [] = Unit
  IsApart net ((_, other) ∷ m) = AreDisjoint lib net other × IsApart net m

  -- Every subnet is inside the pool, and no two have an address in common.
  abbrev pub AreSubnets : Net → ℕ → Map String Net → Type 0
  AreSubnets pool prefix [] = Unit
  AreSubnets pool prefix ((_, net) ∷ m) =
      IsInside pool prefix net × (IsApart net m × AreSubnets pool prefix m)

  apart_of_different :
      (pool : Net) (prefix : ℕ) (a b : Net)
      → NetLaws lib pool prefix
      → prefix_len a ≡ prefix
      → prefix_len b ≡ prefix
      → (network a == network b) ≡ false
      → AreDisjoint lib a b
  apart_of_different pool prefix a b laws p q d =
      let end_a = laws.last a p in
      let end_b = laws.last b q in
      let even_a = laws.aligned a p in
      let even_b = laws.aligned b q in
      elim (dec_lt (network a) (network b)) [
        | yes below ↦
            let gap = step_apart (step_of prefix) (network a) (network b) even_a even_b below in
            inl (omega (arith, gap, end_a))
        | no other ↦
            let above : network b < network a = ground (arith, other, d) in
            let gap = step_apart (step_of prefix) (network b) (network a) even_b even_a above in
            inr (omega (arith, gap, end_b))
      ]

  IsPlaced-IsInside :
      (pool : Net) (prefix : ℕ) (net : Net)
      → NetLaws lib pool prefix
      → IsPlaced lib pool prefix net
      → IsInside pool prefix net
  IsPlaced-IsInside pool prefix net laws (p, above, below) =
      let gap =
        step_apart (step_of prefix) (network net) (broadcast pool + 1) (laws.aligned net p)
          laws.pool_end (omega (arith, below)) in
      let end = laws.last net p in (p, above, omega (arith, gap, end))

  fresh-IsApart :
      (pool : Net) (prefix : ℕ) (net : Net) (m : Map String Net)
      → NetLaws lib pool prefix
      → prefix_len net ≡ prefix
      → AllPlaced lib pool prefix m
      → IsFresh (network net) (networks_of lib m)
      → IsApart net m
  unfolding networks_of
  fresh-IsApart pool prefix net [] laws p a f = tt
  fresh-IsApart pool prefix net ((_, other) ∷ m) laws p a f = (
    apart_of_different pool prefix net other laws p a.0.0 f.0,
    fresh-IsApart pool prefix net m laws p a.1 f.1,
  )

  placed-AreSubnets :
      (pool : Net) (prefix : ℕ) (m : Map String Net)
      → NetLaws lib pool prefix
      → AllPlaced lib pool prefix m
      → NodupIps (networks_of lib m)
      → AreSubnets pool prefix m
  unfolding networks_of
  placed-AreSubnets pool prefix [] laws a d = tt
  placed-AreSubnets pool prefix ((_, net) ∷ m) laws a d = (
    IsPlaced-IsInside pool prefix net laws a.0,
    (
      fresh-IsApart pool prefix net m laws a.0.0 a.1 d.0,
      placed-AreSubnets pool prefix m laws a.1 d.1,
    ),
  )

  abbrev subnet_search : Net → ℕ → Subnets Net → Found
  subnet_search pool prefix s =
      search_subnet (suc (suc (broadcast pool))) (broadcast pool) s.used (step_of prefix)
        (network pool)

  assign_nets_kept :
      (pool : Net) (prefix : ℕ) (k : String) (hosts : List String) (s : Subnets Net) (net : Net)
      → lookup k s.result ≡ some net
      → assign_nets lib pool prefix (k ∷ hosts) s ≡ assign_nets lib pool prefix hosts s
  unfolding assign_nets
  assign_nets_kept pool prefix k hosts s net h = rw (h, assign_nets) refl

  assign_nets_full :
      (pool : Net) (prefix : ℕ) (k : String) (hosts : List String) (s : Subnets Net)
      → lookup k s.result ≡ none
      → subnet_search pool prefix s ≡ full
      → assign_nets lib pool prefix (k ∷ hosts) s ≡ err subnets_exhausted
  unfolding assign_nets
  assign_nets_full pool prefix k hosts s h e = rw (h, e, assign_nets) refl

  assign_nets_new :
      (pool : Net) (prefix : ℕ) (k : String) (hosts : List String) (s : Subnets Net) (n : ℕ)
      (net : Net)
      → lookup k s.result ≡ none
      → subnet_search pool prefix s ≡ found n
      → new_net n prefix ≡ some net
      → assign_nets lib pool prefix (k ∷ hosts) s
        ≡ assign_nets lib pool prefix hosts (take_net lib k n net s)
  unfolding assign_nets
  assign_nets_new pool prefix k hosts s n net h e new = rw (h, e, new, assign_nets) refl

  take_net_has :
      (host k : String) (n : ℕ) (net : Net) (s : Subnets Net)
      → contains_key host s.result ≡ true
      → contains_key host (take_net lib k n net s).result ≡ true
  unfolding contains_key
  take_net_has host k n net s h = ground (arith, h, lookup-insert k host net s.result)

  take_net_serves :
      (k : String) (n : ℕ) (net : Net) (s : Subnets Net)
      → contains_key k (take_net lib k n net s).result ≡ true
  unfolding contains_key
  take_net_serves k n net s = ground (arith, lookup-insert k k net s.result, ==_refl k)

  -- How the allocation may end, once the prefix and the names are found to be in order.
  abbrev pub Allocated :
      Net → ℕ → ℕ → List String → Map String Net → Result SubnetError (Subnets Net) → Type 0
  Allocated pool prefix total hosts before r =
      ((r ≡ err subnets_exhausted)
        × AreTooMany (network pool) (broadcast pool) (step_of prefix) total)
      ⊎ ((s : Subnets Net) × (r ≡ ok s)
          × IsLaidOut lib pool prefix s
          × AllHave hosts s.result
          × ((host : String) → contains_key host before ≡ true → contains_key host s.result ≡ true))

  assign_nets_finish :
      (pool : Net) (prefix : ℕ) (all_hosts hosts : List String) (s : Subnets Net)
      → NetLaws lib pool prefix
      → broadcast pool + step_of prefix ≤ u32_max
      → All (λ k. contains all_hosts k ≡ true) hosts
      → IsCounted all_hosts s.result s.used
      → IsLaidOut lib pool prefix s
      → Allocated pool prefix
          (length all_hosts)
          hosts
          s.result
          (assign_nets lib pool prefix hosts s)
  assign_nets_finish pool prefix all_hosts [] s laws b a c v =
      inr (s, unfold assign_nets in refl, v, tt, λ host has. has)
  assign_nets_finish pool prefix all_hosts (k ∷ hosts) s laws b a c v =
      elim (Option-cases (lookup k s.result)) [
        | inr (net, hit) ↦
            let has : contains_key k s.result ≡ true = unfold contains_key in ground (arith, hit) in
            served s (assign_nets_kept pool prefix k hosts s net hit) has (λ host h. h)
              (assign_nets_finish pool prefix all_hosts hosts s laws b a.1 c v)
        | inl miss ↦
            elim (search_subnet_ends (suc (broadcast pool)) (broadcast pool) s.used (step_of prefix)
              (network pool) (step_of_positive prefix) b laws.pool_start (omega arith)) [
                | inl (past, all) ↦
                    let room = IsCounted-room all_hosts k s.result s.used a.0 miss c in
                    inl (
                      assign_nets_full pool prefix k hosts s miss past,
                      IsFull-AreTooMany (network pool) (broadcast pool) (step_of prefix)
                          (length all_hosts) s.used (step_of_positive prefix) room all,
                    )
                | inr (n, hit, after, before, unused, even) ↦
                    let (net, new, size, start) = laws.made n (omega (arith, before, b)) even in
                    let placed : IsPlaced lib pool prefix net =
                      (size, (rw start after), (rw start before)) in
                    let fresh : contains s.used (network net) ≡ false = rw start unused in
                    served (take_net lib k n net s)
                      (assign_nets_new pool prefix k hosts s n net miss hit new)
                      (take_net_serves k n net s) (λ host h. take_net_has host k n net s h)
                      (assign_nets_finish pool prefix all_hosts hosts (take_net lib k n net s) laws
                        b a.1 (insert-IsCounted all_hosts k net n s.result s.used a.0 miss c)
                        (rw start at (take_net-IsLaidOut lib pool prefix k net s placed fresh v)))
              ]
      ]
    where
      served :
          (s' : Subnets Net)
          → assign_nets lib pool prefix (k ∷ hosts) s ≡ assign_nets lib pool prefix hosts s'
          → contains_key k s'.result ≡ true
          → ((host : String)
              → contains_key host s.result ≡ true
              → contains_key host s'.result ≡ true)
          → Allocated pool prefix
              (length all_hosts)
              hosts
              s'.result
              (assign_nets lib pool prefix hosts s')
          → Allocated pool prefix
              (length all_hosts)
              (k ∷ hosts)
              s.result
              (assign_nets lib pool prefix (k ∷ hosts) s)
      served s' step has keeps (inl (past, few)) = inl (step ∙ past, few)
      served s' step has keeps (inr (t, done, sound, rest, kept)) =
          inr (t, step ∙ done, sound, (kept k has, rest), λ host h. kept host (keeps host h))

  -- How `allocate` may end, in the order of its checks.
  abbrev pub AllocateEnds : Net → ℕ → List String → Result SubnetError (Subnets Net) → Type 0
  AllocateEnds pool prefix hosts r =
      (((prefix < prefix_len pool) ⊎ (32 < prefix)) × (r ≡ err invalid_prefix))
      ⊎ ((h : String) × IsTwice h hosts × (r ≡ err (host_twice h)))
      ⊎ ((r ≡ err subnets_exhausted)
          × AreTooMany (network pool) (broadcast pool) (step_of prefix) (length hosts))
      ⊎ ((s : Subnets Net) × (r ≡ ok s)
          × AllDistinct hosts
          × AllHave hosts s.result
          × AreSubnets pool prefix s.result)

  allocate_checked :
      (pool : Net) (prefix : ℕ) (existing : Map String Net) (hosts : List String)
      → ltb prefix (prefix_len pool) || ltb 32 prefix ≡ false
      → first_duplicate hosts [] ≡ none
      → allocate lib pool prefix existing hosts
        ≡ assign_nets lib pool prefix hosts
            (keep_nets lib pool prefix hosts existing (nothing_yet lib))
  unfolding allocate
  allocate_checked pool prefix existing hosts g d = rw (g, d, allocate) refl

  misfit :
      (pool : Net) (prefix : ℕ)
      → ltb prefix (prefix_len pool) || ltb 32 prefix ≡ true
      → (prefix < prefix_len pool) ⊎ (32 < prefix)
  misfit pool prefix h = elim (dec_lt 32 prefix) [
    | yes long ↦ inr long
    | no short ↦ inl (ground (arith, h, short))
  ]

  -- For a pool of 32-bit addresses that leaves room for one step after its end, and a library for
  -- networks that keeps its laws, whatever subnets exist, at most one for a name: a prefix that does
  -- not fit the pool is an error, and so is a name that occurs twice; if not, either the pool has no
  -- room for a subnet for each name, or every name gets a subnet of this prefix, each of them inside
  -- the pool and no two with an address in common. The search never runs out of fuel.
  pub allocate_lem :
      (pool : Net) (prefix : ℕ) (existing : Map String Net) (hosts : List String)
      → PoolLaws lib pool prefix
      → broadcast pool + step_of prefix ≤ u32_max
      → NodupKeys existing
      → AllocateEnds pool prefix hosts (allocate lib pool prefix existing hosts)
  unfolding allocate networks_of
  allocate_lem pool prefix existing hosts any_laws b once =
      elim (Bool-cases (ltb prefix (prefix_len pool) || ltb 32 prefix)) [
        | inl bad ↦ inl (misfit pool prefix bad, rw (bad, allocate) refl)
        | inr good ↦ elim (Option-cases (first_duplicate hosts [])) [
          | inr (h, twice) ↦
              inr (inl (h, first_duplicate-IsTwice hosts h twice, rw (good, twice, allocate) refl))
          | inl distinct ↦
              let laws =
                PoolLaws-NetLaws lib pool prefix (ground (arith, good)) (ground (arith, good))
                  any_laws in
              let start : IsLaidOut lib pool prefix (nothing_yet lib) = record {
                placed = tt;
                listed = tt;
                distinct = tt;
              } in
              let none_yet : IsCounted hosts (nothing_yet lib).result (nothing_yet lib).used =
                record { asked = tt; single = tt; counted = omega arith } in
              let kept = keep_nets lib pool prefix hosts existing (nothing_yet lib) in
              let counted =
                keep_nets-IsCounted lib pool prefix hosts existing (nothing_yet lib) once
                  (nothing-AllNew existing) none_yet in
              let sound =
                keep_nets-IsLaidOut lib pool prefix hosts existing (nothing_yet lib) laws start in
              let step = allocate_checked pool prefix existing hosts good distinct in
              elim (assign_nets_finish pool prefix hosts hosts kept laws b (all_on_itself hosts)
                counted sound) [
                  | inl (past, few) ↦ inr (inr (inl (step ∙ past, few)))
                  | inr (s, done, sound', all, _) ↦ inr (
                      inr (
                        inr (
                          s,
                          step ∙ done,
                          first_duplicate-AllDistinct hosts distinct,
                          all,
                          placed-AreSubnets pool prefix s.result laws sound'.placed sound'.distinct,
                        )))
                ]
        ]
      ]
