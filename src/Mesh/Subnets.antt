-- ===== src/Mesh/Subnets.antt =====
-- `allocate` and `allocate_namespaced` of coolify-cli/src/wireguard/subnet.rs: the container subnets
-- of the hosts of a mesh. The crate for networks (`ipnet`) is the parameter `NetLibrary`; the search
-- for a free subnet runs on fuel; the texts of errors and warnings are constructors.
pub mod Laws
pub mod Steps
pub mod Disjoint
pub mod Counted
pub mod Allocated
pub mod Namespaces
use Prim.Native.String.{◌++◌ as append}
use mathlib.Core.List
use coold.Prelude.{
  ltb, leb, if◌then◌else◌, Bool-cases, Option-cases, and_then, Eq, String-discrete, string_eq,
  nat_eq, ◌==◌, ==_iff, ==_refl, contains, length, length-append, filter, any, length-filter-le,
  All, Map, lookup, insert, remove, contains_key, HasKey, NodupKeys, lookup-insert, lookup-remove,
  insert-NodupKeys, remove-NodupKeys, remove_absent, length-insert, length-remove-le, map_laws,
  str_leb, insert_sorted, sort_by_key, lookup-sort_by_key, sort_by_key-NodupKeys, Result, ok, err,
  ◌>>=◌, Result-cases, ok_or, ok_only, is_empty, strip_prefix, starts_with, strip_suffix, ends_with,
  contains_text, is_whitespace, trim_is_empty, trim_start, trim_end, trim, trim_slashes,
  utf8_length, byte_length, all_chars, is_alphanumeric, take_until, take_until_text, after_text,
  after_last, ℕ, zero, suc, ◌+◌, ◌-◌, ◌*◌, ◌/◌, ◌%◌, ◌^◌, ◌≤◌, ◌<◌, min, String, ◌≡◌, refl, sym, ap,
  ◌∙◌, ◌≢◌, ◌↔◌, ◌⊎◌, inl, inr, ite, if_pos, if_neg, Bool, true, false, ◌&&◌, ◌||◌, not, Option,
  none, some, List, [], ◌∷◌, ◌++◌, map, arith,
}
use coold.Mesh.Addresses.{u32_max, saturating_add, first_duplicate}

-- `Ipv4Net`: the first and the last address of a network, the length of its prefix, `contains`, and
-- `new`.
pub record NetLibrary : Type 1 where
  pub Net : Type 0
  pub network : Net → ℕ
  pub broadcast : Net → ℕ
  pub prefix_len : Net → ℕ
  pub holds : Net → ℕ → Bool
  pub new_net : ℕ → ℕ → Option Net

pub data SubnetReason : Type 0 where
  not_in_pool duplicate_subnet : SubnetReason

pub record SubnetWarning : Type 0 where
  pub host : String
  pub reason : SubnetReason

pub data SubnetError : Type 0 where
  invalid_prefix subnets_exhausted not_a_prefix no_more_fuel key_missing : SubnetError
  host_twice namespace_twice : String → SubnetError

-- The local variables `result`, `used` and `warnings`.
pub record Subnets (Net : Type 0) : Type 0 where
  pub result : Map String Net
  pub used : List ℕ
  pub warnings : List SubnetWarning

-- `1u32.checked_shl(32 - prefix).unwrap_or(1)`
unfoldable pub step_of : ℕ → ℕ
step_of prefix = if prefix == 0 then 1 else 2 ^ (32 - prefix)

pub data Found : Type 0 where
  found : ℕ → Found
  full no_fuel : Found

-- The inner `loop`.
unfoldable pub search_subnet : ℕ → ℕ → List ℕ → ℕ → ℕ → Found
unfolding saturating_add
search_subnet zero last used step n = no_fuel
search_subnet (suc fuel) last used step n =
    let rest = search_subnet fuel last used step (saturating_add n step) in
    if ltb last n then full else if not (contains used n) then found n else rest

module _ (lib : NetLibrary) where
  open lib use {Net, network, broadcast, prefix_len, holds, new_net}

  abbrev pub note : String → SubnetReason → Subnets Net → Subnets Net
  note host reason s = record s {
    warnings = s.warnings ++ (record { host = host; reason = reason } ∷ []);
  }

  abbrev pub take_net : String → ℕ → Net → Subnets Net → Subnets Net
  take_net host n net s = record s { result = insert host net s.result; used = n ∷ s.used }

  unfoldable pub misplaced : Net → ℕ → Net → Bool
  misplaced pool prefix net = not (prefix_len net == prefix) || not (holds pool (network net))

  -- One round of the loop over what exists.
  unfoldable pub keep_net : Net → ℕ → List String → String → Net → Subnets Net → Subnets Net
  unfolding misplaced contains
  keep_net pool prefix hosts host net s =
      if not (contains hosts host)
      then s
      else if misplaced pool prefix net
      then note host not_in_pool s
      else if contains s.used (network net)
      then note host duplicate_subnet s
      else take_net host (network net) net s

  unfoldable pub keep_nets : Net → ℕ → List String → Map String Net → Subnets Net → Subnets Net
  unfolding keep_net
  keep_nets pool prefix hosts [] s = s
  keep_nets pool prefix hosts ((host, net) ∷ existing) s =
      keep_nets pool prefix hosts existing (keep_net pool prefix hosts host net s)

  -- The loop over the hosts.
  unfoldable pub assign_nets :
      Net → ℕ → List String → Subnets Net → Result SubnetError (Subnets Net)
  unfolding search_subnet step_of
  assign_nets pool prefix [] s = ok s
  assign_nets pool prefix (host ∷ hosts) s = elim (lookup host s.result) [
    | some _ ↦ assign_nets pool prefix hosts s
    | none ↦
        elim (search_subnet (suc (suc (broadcast pool))) (broadcast pool) s.used (step_of prefix)
          (network pool)) [
            | full ↦ err subnets_exhausted
            | no_fuel ↦ err no_more_fuel
            | found n ↦ elim (new_net n prefix) [
              | none ↦ err not_a_prefix
              | some net ↦ assign_nets pool prefix hosts (take_net host n net s)
            ]
          ]
  ]

  abbrev pub nothing_yet : Subnets Net
  nothing_yet = record { result = []; used = []; warnings = [] }

  unfoldable pub allocate :
      Net → ℕ → Map String Net → List String → Result SubnetError (Subnets Net)
  unfolding first_duplicate keep_nets assign_nets
  allocate pool prefix existing hosts =
      if ltb prefix (prefix_len pool) || ltb 32 prefix
      then err invalid_prefix
      else (elim (first_duplicate hosts []) [
        | some h ↦ err (host_twice h)
        | none ↦ assign_nets pool prefix hosts (keep_nets pool prefix hosts existing nothing_yet)
      ])

  -- `format!("{ns}/{h}")`
  abbrev pub net_key : String → String → String
  net_key ns h = append ns (append "/" h)

  abbrev pub existing_at : Map String (Map String Net) → String → String → Option Net
  existing_at existing ns h = and_then (lookup ns existing) (λ m. lookup h m)

  -- The loops over the hosts of a namespace, and over the namespaces, that fill `all_existing`.
  unfoldable pub collect_hosts :
      Map String (Map String Net) → String → List String → Map String Net → Map String Net
  collect_hosts existing ns [] m = m
  collect_hosts existing ns (h ∷ hosts) m =
      collect_hosts existing ns hosts
        (elim (existing_at existing ns h) [ none ↦ m | some net ↦ insert (net_key ns h) net m ])

  unfoldable pub collect_existing :
      Map String (Map String Net) → List String → List String → Map String Net → Map String Net
  unfolding collect_hosts
  collect_existing existing [] hosts m = m
  collect_existing existing (ns ∷ namespaces) hosts m =
      collect_existing existing namespaces hosts (collect_hosts existing ns hosts m)

  unfoldable pub keys_of : List String → List String → List String
  keys_of [] hosts = []
  keys_of (ns ∷ namespaces) hosts = map (λ h. net_key ns h) hosts ++ keys_of namespaces hosts

  -- `out.entry(ns).or_default().insert(h, net)`
  abbrev pub or_default : Option (Map String Net) → Map String Net
  or_default none = []
  or_default (some m) = m

  abbrev pub insert_at :
      String → String → Net → Map String (Map String Net) → Map String (Map String Net)
  insert_at ns h net out = insert ns (insert h net (or_default (lookup ns out))) out

  -- The loops that fill `out`; `none` is where `flat[&key]` would panic.
  unfoldable pub spread_hosts :
      Map String Net
      → String
      → List String
      → Map String (Map String Net)
      → Option (Map String (Map String Net))
  spread_hosts flat ns [] out = some out
  spread_hosts flat ns (h ∷ hosts) out = elim (lookup (net_key ns h) flat) [
    | none ↦ none
    | some net ↦ spread_hosts flat ns hosts (insert_at ns h net out)
  ]

  unfoldable pub spread :
      Map String Net
      → List String
      → List String
      → Map String (Map String Net)
      → Option (Map String (Map String Net))
  unfolding spread_hosts
  spread flat [] hosts out = some out
  spread flat (ns ∷ namespaces) hosts out = elim (spread_hosts flat ns hosts out) [
    | none ↦ none
    | some out' ↦ spread flat namespaces hosts out'
  ]

  -- A `BTreeMap` is read in the order of its keys.
  unfoldable pub allocate_namespaced :
      Net
      → ℕ
      → Map String (Map String Net)
      → List String
      → List String
      → Result SubnetError (Map String (Map String Net) × List SubnetWarning)
  unfolding first_duplicate collect_existing sort_by_key keys_of allocate spread
  allocate_namespaced pool prefix existing namespaces hosts = elim (first_duplicate namespaces []) [
    | some ns ↦ err (namespace_twice ns)
    | none ↦
        elim (allocate pool prefix (sort_by_key (collect_existing existing namespaces hosts []))
          (keys_of namespaces hosts)) [
            | err e ↦ err e
            | ok s ↦ elim (spread s.result namespaces hosts []) [
              | none ↦ err key_missing
              | some out ↦ ok (out, s.warnings)
            ]
          ]
  ]
