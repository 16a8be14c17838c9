-- ===== src/Mesh/Subnets/Namespaces.antt =====
-- What `allocate_namespaced` (coolify-cli/src/wireguard/subnet.rs) gives.
use coold.Prelude.{
  if◌then◌else◌, Bool-cases, Option-cases, and_then, string_eq, nat_eq, ◌==◌, ==_iff, contains,
  length, Map, lookup, insert, contains_key, HasKey, lookup-insert, sort_by_key,
  sort_by_key-NodupKeys, Result, ok, err, ℕ, ◌+◌, ◌*◌, ◌≤◌, ◌<◌, String, ◌≡◌, refl, ◌∙◌, ◌⊎◌, inl,
  inr, true, ◌&&◌, Option, none, some, List, [], ◌∷◌, ◌++◌, map, arith,
}
use coold.Prelude.Counting.{AllDistinct}
use coold.Mesh.Addresses.Names.{IsTwice, first_duplicate-IsTwice, first_duplicate-AllDistinct}
use coold.Mesh.Addresses.{u32_max, first_duplicate}
use coold.Mesh.Subnets.{
  NetLibrary, SubnetWarning, SubnetError, invalid_prefix, subnets_exhausted, host_twice,
  namespace_twice, Subnets, step_of, allocate, net_key, existing_at, collect_existing, keys_of,
  or_default, insert_at, spread_hosts, spread, allocate_namespaced,
}
use coold.Mesh.Subnets.Laws.{PoolLaws}
use coold.Mesh.Subnets.Counted.{AreTooMany, collect_existing-NodupKeys, length-keys_of}
use coold.Mesh.Subnets.Allocated.{AllHave, AreSubnets, allocate_lem}

pub contains_key-HasKey :
    {A : Type 0} → (k : String) (m : Map String A) → contains_key k m ≡ true → HasKey k m
unfolding contains_key
contains_key-HasKey k m h = elim (Option-cases (lookup k m)) [
  | inl miss ↦ absurd (ground (arith, h, miss))
  | inr hit ↦ hit
]

module _ (lib : NetLibrary) where
  open lib use {Net, network, broadcast, prefix_len}

  abbrev Table : Type 0
  Table = Map String (Map String Net)

  lookup-or_default :
      (o : Option (Map String Net)) (h : String)
      → lookup h (or_default lib o) ≡ and_then o (λ m. lookup h m)
  unfolding lookup
  lookup-or_default none h = refl
  lookup-or_default (some m) h = refl

  existing_at-insert_at :
      (ns h : String) (net : Net) (out : Table) (ns' h' : String)
      → existing_at lib (insert_at lib ns h net out) ns' h'
        ≡ (if ns == ns' && h == h' then some net else existing_at lib out ns' h')
  existing_at-insert_at ns h net out ns' h' =
      let outer = lookup-insert ns ns' (insert h net (or_default lib (lookup ns out))) out in
      let inner = lookup-insert h h' net (or_default lib (lookup ns out)) in
      let before = lookup-or_default (lookup ns out) h' in
      elim (Bool-cases (ns == ns')) [
        | inl same ↦
            let eq = (==_iff ns ns').0 same in rw (outer, same) (inner ∙ (rw (before, eq) refl))
        | inr other ↦ rw (outer, other) refl
      ]

  -- A table after the loops: what they have filled is as in `flat`, the rest as before.
  abbrev pub Filled : Map String Net → List String → List String → Table → Table → Type 0
  Filled flat namespaces hosts out out' =
      (ns h : String)
      → existing_at lib out' ns h ≡ (
          if contains namespaces ns && contains hosts h
          then lookup (net_key lib ns h) flat
          else existing_at lib out ns h)

  spread_hosts_next :
      (flat : Map String Net) (ns h : String) (hosts : List String) (out : Table) (net : Net)
      → lookup (net_key lib ns h) flat ≡ some net
      → spread_hosts lib flat ns (h ∷ hosts) out
        ≡ spread_hosts lib flat ns hosts (insert_at lib ns h net out)
  unfolding spread_hosts
  spread_hosts_next flat ns h hosts out net e = rw (e, spread_hosts) refl

  spread_hosts_lem :
      (flat : Map String Net) (ns : String) (hosts : List String) (out : Table)
      → AllHave lib (map (λ h. net_key lib ns h) hosts) flat
      → (out' : Table) × (spread_hosts lib flat ns hosts out ≡ some out')
        × Filled flat (ns ∷ []) hosts out out'
  unfolding contains spread_hosts
  spread_hosts_lem flat ns [] out all = (out, refl, λ ns' h'. ground arith)
  spread_hosts_lem flat ns (h ∷ hosts) out all =
      let (net, hit) = contains_key-HasKey (net_key lib ns h) flat all.0 in
      let (out', done, filled) =
        spread_hosts_lem flat ns hosts (insert_at lib ns h net out) all.1 in
      (out', spread_hosts_next flat ns h hosts out net hit ∙ done, go net hit out' filled)
    where
      go :
          (net : Net)
          → lookup (net_key lib ns h) flat ≡ some net
          → (out' : Table) → Filled flat (ns ∷ []) hosts (insert_at lib ns h net out) out'
          → Filled flat (ns ∷ []) (h ∷ hosts) out out'
      go net hit out' filled ns' h' =
          let eq = filled ns' h' in
          let new = existing_at-insert_at ns h net out ns' h' in
          elim (Bool-cases (ns == ns')) [
            | inr other ↦ ground (arith, eq, new, other)
            | inl same ↦ elim (Bool-cases (h == h')) [
              | inr other ↦ ground (arith, eq, new, same, other)
              | inl also ↦
                  let hit' : lookup (net_key lib ns' h') flat ≡ some net =
                    rw ((==_iff ns ns').0 same, (==_iff h h').0 also) at hit in
                  ground (arith, eq, new, same, also, hit')
            ]
          ]

  spread_next :
      (flat : Map String Net) (ns : String) (namespaces hosts : List String) (out out' : Table)
      → spread_hosts lib flat ns hosts out ≡ some out'
      → spread lib flat (ns ∷ namespaces) hosts out ≡ spread lib flat namespaces hosts out'
  unfolding spread
  spread_next flat ns namespaces hosts out out' e = rw (e, spread) refl

  pub AllHave-split :
      (xs ys : List String) (m : Map String Net)
      → AllHave lib (xs ++ ys) m
      → AllHave lib xs m × AllHave lib ys m
  AllHave-split [] ys m all = (tt, all)
  AllHave-split (x ∷ xs) ys m all =
      let (left, right) = AllHave-split xs ys m all.1 in ((all.0, left), right)

  spread_lem :
      (flat : Map String Net) (namespaces hosts : List String) (out : Table)
      → AllHave lib (keys_of lib namespaces hosts) flat
      → (out' : Table) × (spread lib flat namespaces hosts out ≡ some out')
        × Filled flat namespaces hosts out out'
  unfolding contains spread keys_of
  spread_lem flat [] hosts out all = (out, refl, λ ns h. refl)
  spread_lem flat (ns ∷ namespaces) hosts out all =
      let (here, later) =
        AllHave-split (map (λ h. net_key lib ns h) hosts) (keys_of lib namespaces hosts) flat all in
      let (middle, first, filled) = spread_hosts_lem flat ns hosts out here in
      let (out', done, rest) = spread_lem flat namespaces hosts middle later in
      (
        out',
        spread_next flat ns namespaces hosts out middle first ∙ done,
        λ ns' h'. (let eq = filled ns' h' in let eq' = rest ns' h' in ground (arith, eq, eq')),
      )

  -- The table for all hosts of all namespaces, from a map whose subnets are in order.
  abbrev pub IsTable :
      Net → ℕ → List String → List String → Map String Net → Map String (Map String Net) → Type 0
  IsTable pool prefix namespaces hosts flat out =
      AreSubnets lib pool prefix flat
      × AllHave lib (keys_of lib namespaces hosts) flat
      × AllDistinct (keys_of lib namespaces hosts)
      × Filled flat namespaces hosts [] out

  -- Why a table is refused: the prefix does not fit, two pairs of a namespace and a host have one
  -- name, or the pool has no room for all pairs.
  abbrev pub IsRefusal : Net → ℕ → List String → List String → SubnetError → Type 0
  IsRefusal pool prefix namespaces hosts invalid_prefix = (prefix < prefix_len pool) ⊎ (32 < prefix)
  IsRefusal pool prefix namespaces hosts (host_twice k) = IsTwice k (keys_of lib namespaces hosts)
  IsRefusal pool prefix namespaces hosts subnets_exhausted =
      AreTooMany (network pool) (broadcast pool) (step_of prefix) (length namespaces * length hosts)
  IsRefusal pool prefix namespaces hosts (namespace_twice ns) = IsTwice ns namespaces
  IsRefusal pool prefix namespaces hosts _ = ⊥

  -- How `allocate_namespaced` may end.
  abbrev pub NamespacedEnds :
      Net
      → ℕ
      → List String
      → List String
      → Result SubnetError (Map String (Map String Net) × List SubnetWarning)
      → Type 0
  NamespacedEnds pool prefix namespaces hosts r =
      ((e : SubnetError) × (r ≡ err e) × IsRefusal pool prefix namespaces hosts e)
      ⊎ ((flat : Map String Net) × (out : Map String (Map String Net)) × (warnings : List
            SubnetWarning)
          × (r ≡ ok (out, warnings))
          × AllDistinct namespaces
          × IsTable pool prefix namespaces hosts flat out)

  allocate_namespaced_checked :
      (pool : Net) (prefix : ℕ) (existing : Table) (namespaces hosts : List String)
      (s : Subnets Net) (out : Table)
      → first_duplicate namespaces [] ≡ none
      → allocate lib pool prefix
          (sort_by_key (collect_existing lib existing namespaces hosts []))
          (keys_of lib namespaces hosts)
        ≡ ok s
      → spread lib s.result namespaces hosts [] ≡ some out
      → allocate_namespaced lib pool prefix existing namespaces hosts ≡ ok (out, s.warnings)
  unfolding allocate_namespaced
  allocate_namespaced_checked pool prefix existing namespaces hosts s out d a e =
      rw (d, a, e, allocate_namespaced) refl

  -- For a pool of 32-bit addresses that leaves room for one step after its end, and a library for
  -- networks that keeps its laws, whatever subnets exist: the code refuses a namespace that occurs
  -- twice, a prefix that does not fit the pool, and two pairs of a namespace and a host with one
  -- name; and it refuses a pool as exhausted only if fewer subnets of this prefix fit in it than
  -- there are pairs. Else it gives a table that has a subnet for every host of every namespace and
  -- for nothing else: the one under the name of the pair in a map whose subnets have this prefix,
  -- lie inside the pool and are without an address in common. No two pairs then have the same name,
  -- and the code never panics on a missing one.
  pub allocate_namespaced_lem :
      (pool : Net) (prefix : ℕ) (existing : Map String (Map String Net))
      (namespaces hosts : List String)
      → PoolLaws lib pool prefix
      → broadcast pool + step_of prefix ≤ u32_max
      → NamespacedEnds pool prefix namespaces hosts
          (allocate_namespaced lib pool prefix existing namespaces hosts)
  unfolding allocate_namespaced
  allocate_namespaced_lem pool prefix existing namespaces hosts laws b =
      elim (Option-cases (first_duplicate namespaces [])) [
        | inr (ns, twice) ↦ inl (
          namespace_twice ns,
          rw (twice, allocate_namespaced) refl,
          first_duplicate-IsTwice namespaces ns twice,
        )
        | inl distinct ↦
            let found = collect_existing lib existing namespaces hosts [] in
            let old = sort_by_key found in
            let once =
              sort_by_key-NodupKeys found
                (collect_existing-NodupKeys lib existing namespaces hosts [] tt) in
            elim (allocate_lem lib pool prefix old (keys_of lib namespaces hosts) laws b once) [
              | inl (why, bad) ↦
                  inl (invalid_prefix, rw (distinct, bad, allocate_namespaced) refl, why)
              | inr (inl (k, twice, bad)) ↦
                  inl (host_twice k, rw (distinct, bad, allocate_namespaced) refl, twice)
              | inr (inr (inl (bad, few))) ↦ inl (
                subnets_exhausted,
                rw (distinct, bad, allocate_namespaced) refl,
                rw (length-keys_of lib namespaces hosts) at few,
              )
              | inr (inr (inr (s, done, single, all, apart))) ↦
                  let (out, spread_done, filled) = spread_lem s.result namespaces hosts [] all in
                  inr (
                    s.result,
                    out,
                    s.warnings,
                    allocate_namespaced_checked pool prefix existing namespaces hosts s out distinct
                        done spread_done,
                    first_duplicate-AllDistinct namespaces distinct,
                    (apart, all, single, filled),
                  )
            ]
      ]
