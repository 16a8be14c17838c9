-- ===== src/Mesh/Addresses/Assigned.antt =====
-- What `allocate_mgmt_ips` (coolify-cli/src/wireguard/subnet.rs) gives.
use coold.Prelude.{
  Option-cases, string_eq, nat_eq, ==_refl, contains, length, All, Map, lookup, contains_key,
  NodupKeys, lookup-insert, ℕ, suc, ◌+◌, ◌≤◌, ◌<◌, String, ◌≡◌, refl, sym, ◌∙◌, ◌⊎◌, inl, inr, true,
  false, none, some, List, [], ◌∷◌, arith,
}
use coold.Prelude.Counting.{
  AllDistinct, all_on_itself, steps_on_list, IsCounted, insert-IsCounted, IsCounted-room,
  nothing-AllNew,
}
use coold.Mesh.Addresses.{
  Pool, u32_max, saturating_add, duplicate_host, pool_exhausted, out_of_fuel, Allocation,
  first_duplicate, take_ip, keep_existing, Search, free, no_address, no_fuel, search, Outcome,
  allocated, failed, assign, allocate_mgmt_ips,
}
use coold.Mesh.Addresses.Distinct.{IsUsable, IsSound, take_ip-IsSound, keep_existing-IsSound}
use coold.Mesh.Addresses.Searched.{saturating_add_small, search_ends}
use coold.Mesh.Addresses.Names.{IsTwice, first_duplicate-IsTwice, first_duplicate-AllDistinct}
use coold.Mesh.Addresses.Counted.{keep_existing-IsCounted}

-- Every host has an address.
abbrev pub AllServed : List String → Map String ℕ → Type 0
AllServed hosts m = All (λ host. contains_key host m ≡ true) hosts

-- How the allocation may end, once the names of the hosts are found to be distinct: with an
-- address for each of `hosts`, or because the usable addresses of the pool are fewer than `total`.
abbrev pub Finished : Pool → ℕ → List String → Outcome → Type 0
Finished pool total hosts r =
    ((r ≡ failed pool_exhausted) × (pool.broadcast ≤ pool.network + total))
    ⊎ ((s : Allocation) × (r ≡ allocated s) × IsSound pool s × AllServed hosts s.result)

abbrev first_search : Pool → Allocation → Search
first_search pool s =
    search (suc pool.broadcast) pool.broadcast s.used (saturating_add pool.network 1)

Search-cases : (r : Search) → (r ≡ no_address) ⊎ (r ≡ no_fuel) ⊎ ((m : ℕ) × (r ≡ free m))
Search-cases (free m) = inr (inr (m, refl))
Search-cases no_address = inl refl
Search-cases no_fuel = inr (inl refl)

assign_kept :
    (pool : Pool) (k : String) (hosts : List String) (s : Allocation) (ip : ℕ)
    → lookup k s.result ≡ some ip
    → assign pool (k ∷ hosts) s ≡ assign pool hosts s
unfolding assign
assign_kept pool k hosts s ip h = rw (h, assign) refl

-- A host without an address, by how the search ends.
assign_new :
    (pool : Pool) (k : String) (hosts : List String) (s : Allocation)
    → lookup k s.result ≡ none
    → assign pool (k ∷ hosts) s ≡ (elim (first_search pool s) [
      | free n ↦ assign pool hosts (take_ip k n s)
      | no_address ↦ failed pool_exhausted
      | no_fuel ↦ failed out_of_fuel
    ])
unfolding assign search
assign_new pool k hosts s h = rw (h, assign) refl

take_ip_has :
    (host k : String) (n : ℕ) (s : Allocation)
    → contains_key host s.result ≡ true
    → contains_key host (take_ip k n s).result ≡ true
unfolding contains_key
take_ip_has host k n s h = ground (arith, h, lookup-insert k host n s.result)

take_ip_serves :
    (k : String) (n : ℕ) (s : Allocation) → contains_key k (take_ip k n s).result ≡ true
unfolding contains_key
take_ip_serves k n s = ground (arith, lookup-insert k k n s.result, ==_refl k)

assign_has :
    (pool : Pool) (hosts : List String) (s t : Allocation) (host : String)
    → assign pool hosts s ≡ allocated t
    → contains_key host s.result ≡ true
    → contains_key host t.result ≡ true
assign_has pool [] s t host e h = unfold assign in ground (arith, e, h)
assign_has pool (k ∷ hosts) s t host e h = elim (Option-cases (lookup k s.result)) [
  | inr (ip, hit) ↦ assign_has pool hosts s t host (sym (assign_kept pool k hosts s ip hit) ∙ e) h
  | inl miss ↦
      let new = sym (assign_new pool k hosts s miss) ∙ e in
      elim (Search-cases (first_search pool s)) [
        | inl full ↦ absurd (ground (arith, new, full))
        | inr (inl stuck) ↦ absurd (ground (arith, new, stuck))
        | inr (inr (n, found)) ↦
            assign_has pool hosts (take_ip k n s) t host (rw found at new)
              (take_ip_has host k n s h)
      ]
]

first_search_ends :
    (pool : Pool) (s : Allocation)
    → pool.broadcast ≤ u32_max
    → pool.network < pool.broadcast
    → (first_search pool s ≡ no_address) × (pool.broadcast ≤ pool.network + 1 + length s.used)
      ⊎ ((m : ℕ) × (first_search pool s ≡ free m) × IsUsable pool m × (contains s.used m ≡ false))
first_search_ends pool s b w =
    let start = saturating_add_small pool.network (omega (arith, b, w)) in
    elim (search_ends pool.broadcast pool.broadcast s.used (saturating_add pool.network 1) b
      (omega arith)) [
        | inl (full, (c, past, all)) ↦
            let most = steps_on_list _ 1 c s.used (omega arith) all in
            inl (full, omega (arith, past, start, most))
        | inr (m, found, after, before, unused) ↦
            inr (m, found, (omega (arith, after, start), before), unused)
      ]

assign_finishes :
    (pool : Pool) (all_hosts hosts : List String) (s : Allocation)
    → pool.broadcast ≤ u32_max
    → pool.network < pool.broadcast
    → All (λ k. contains all_hosts k ≡ true) hosts
    → IsCounted all_hosts s.result s.used
    → IsSound pool s
    → Finished pool (length all_hosts) hosts (assign pool hosts s)
assign_finishes pool all_hosts [] s b w a c v = inr (s, unfold assign in refl, v, tt)
assign_finishes pool all_hosts (k ∷ hosts) s b w a c v = elim (Option-cases (lookup k s.result)) [
  | inr (ip, hit) ↦
      let has : contains_key k s.result ≡ true = unfold contains_key in ground (arith, hit) in
      served s (assign_kept pool k hosts s ip hit) has
        (assign_finishes pool all_hosts hosts s b w a.1 c v)
  | inl miss ↦ elim (first_search_ends pool s b w) [
    | inl (full, few) ↦
        let room = IsCounted-room all_hosts k s.result s.used a.0 miss c in
        inl (assign_new pool k hosts s miss ∙ (rw full refl), omega (arith, few, room))
    | inr (n, found, usable, unused) ↦
        served (take_ip k n s) (assign_new pool k hosts s miss ∙ (rw found refl))
          (take_ip_serves k n s)
          (assign_finishes pool all_hosts hosts (take_ip k n s) b w a.1
            (insert-IsCounted all_hosts k n n s.result s.used a.0 miss c)
            (take_ip-IsSound pool k n s usable unused v))
  ]
]
  where
    served :
        (s' : Allocation)
        → assign pool (k ∷ hosts) s ≡ assign pool hosts s'
        → contains_key k s'.result ≡ true
        → Finished pool (length all_hosts) hosts (assign pool hosts s')
        → Finished pool (length all_hosts) (k ∷ hosts) (assign pool (k ∷ hosts) s)
    served s' step has (inl (full, few)) = inl (step ∙ full, few)
    served s' step has (inr (t, done, sound, rest)) =
        inr (t, step ∙ done, sound, (assign_has pool hosts s' t k done has, rest))

-- For a pool of 32-bit addresses that has more than one, and whatever addresses exist, at most one
-- for a host: the allocation fails for a host that is named twice. If all names are different, it
-- fails only if the pool has fewer usable addresses than there are hosts, and if it does not fail,
-- every host gets an address, all of them strictly inside the pool and no two the same. The search
-- never runs out of fuel.
pub allocate_mgmt_ips_lem :
    (pool : Pool) (existing : Map String ℕ) (hosts : List String)
    → pool.broadcast ≤ u32_max
    → pool.network < pool.broadcast
    → NodupKeys existing
    → ((h : String) × IsTwice h hosts
        × (allocate_mgmt_ips pool existing hosts ≡ failed (duplicate_host h)))
      ⊎ (AllDistinct hosts
          × Finished pool (length hosts) hosts (allocate_mgmt_ips pool existing hosts))
unfolding allocate_mgmt_ips
allocate_mgmt_ips_lem pool existing hosts b w once =
    elim (Option-cases (first_duplicate hosts [])) [
      | inr (h, twice) ↦
          inl (h, first_duplicate-IsTwice hosts h twice, rw (twice, allocate_mgmt_ips) refl)
      | inl distinct ↦
          let start : Allocation = record { result = []; used = []; warnings = [] } in
          let sound : IsSound pool start = record { usable = tt; listed = tt; distinct = tt } in
          let none_yet : IsCounted hosts start.result start.used = record {
            asked = tt;
            single = tt;
            counted = omega arith;
          } in
          inr (
            first_duplicate-AllDistinct hosts distinct,
            rw (distinct, allocate_mgmt_ips)
                (assign_finishes pool hosts hosts (keep_existing pool hosts existing start) b w
                  (all_on_itself hosts)
                  (keep_existing-IsCounted pool hosts existing start once (nothing-AllNew existing)
                    none_yet)
                  (keep_existing-IsSound pool hosts existing start sound)),
          )
    ]
