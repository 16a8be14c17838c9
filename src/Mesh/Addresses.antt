-- ===== src/Mesh/Addresses.antt =====
-- `allocate_mgmt_ips` of coolify-cli/src/wireguard/subnet.rs: the management addresses of the hosts
-- of a mesh. An address is the number that `u32::from` gives. A network (`Ipv4Net`) is known by its
-- first and its last address. The search for a free address runs on fuel; the texts of errors and
-- warnings are constructors.
pub mod Distinct
pub mod Searched
pub mod Names
pub mod Counted
pub mod Assigned
use coold.Prelude.{
  ltb, leb, if◌then◌else◌, Bool-cases, Option-cases, and_then, Eq, String-discrete, string_eq,
  nat_eq, ◌==◌, ==_iff, ==_refl, contains, length, length-append, filter, any, length-filter-le,
  All, Map, lookup, insert, remove, contains_key, HasKey, NodupKeys, lookup-insert, lookup-remove,
  insert-NodupKeys, remove-NodupKeys, remove_absent, length-insert, length-remove-le, map_laws,
  str_leb, insert_sorted, sort_by_key, lookup-sort_by_key, sort_by_key-NodupKeys, Result, ok, err,
  ◌>>=◌, Result-cases, ok_or, ok_only, is_empty, strip_prefix, starts_with, strip_suffix, ends_with,
  contains_text, is_whitespace, trim_is_empty, trim_start, trim_end, trim, trim_slashes,
  utf8_length, byte_length, all_chars, is_alphanumeric, take_until, take_until_text, after_text,
  after_last, ℕ, zero, suc, ◌+◌, ◌-◌, ◌*◌, ◌/◌, ◌%◌, ◌^◌, ◌≤◌, ◌<◌, min, String, ◌≡◌, refl, sym, ap,
  ◌∙◌, ◌≢◌, ◌↔◌, ◌⊎◌, inl, inr, ite, if_pos, if_neg, Bool, true, false, ◌&&◌, ◌||◌, not, Option,
  none, some, List, [], ◌∷◌, ◌++◌, map, arith,
}

pub record Pool : Type 0 where
  pub network : ℕ
  pub broadcast : ℕ

abbrev pub u32_max : ℕ
u32_max = 4294967295

unfoldable pub saturating_add : ℕ → ℕ → ℕ
saturating_add a b = if leb (a + b) u32_max then a + b else u32_max

pub data Reason : Type 0 where
  not_usable duplicate_ip : Reason

pub record Warning : Type 0 where
  pub host : String
  pub reason : Reason

pub data AllocateError : Type 0 where
  duplicate_host : String → AllocateError
  pool_exhausted out_of_fuel : AllocateError

-- The local variables `result`, `used` and `warnings`.
pub record Allocation : Type 0 where
  pub result : Map String ℕ
  pub used : List ℕ
  pub warnings : List Warning

unfoldable pub first_duplicate : List String → List String → Option String
first_duplicate [] seen = none
first_duplicate (h ∷ hosts) seen =
    let rest = first_duplicate hosts (h ∷ seen) in if contains seen h then some h else rest

-- `raw == base || raw == broadcast || !pool.contains(ip)`
unfoldable pub unusable : Pool → ℕ → Bool
unusable pool raw =
    raw == pool.network
    || (raw == pool.broadcast || not (leb pool.network raw && leb raw pool.broadcast))

abbrev pub warn : String → Reason → Allocation → Allocation
warn host reason s = record s {
  warnings = s.warnings ++ record { host = host; reason = reason } ∷ [];
}

abbrev pub take_ip : String → ℕ → Allocation → Allocation
take_ip host raw s = record s { result = insert host raw s.result; used = raw ∷ s.used }

-- One round of the loop over what exists.
unfoldable pub keep : Pool → List String → String → ℕ → Allocation → Allocation
unfolding unusable
keep pool hosts host ip s =
    if not (contains hosts host)
    then s
    else if unusable pool ip
    then warn host not_usable s
    else if contains s.used ip
    then warn host duplicate_ip s
    else take_ip host ip s

unfoldable pub keep_existing : Pool → List String → Map String ℕ → Allocation → Allocation
unfolding keep
keep_existing pool hosts [] s = s
keep_existing pool hosts ((host, ip) ∷ existing) s =
    keep_existing pool hosts existing (keep pool hosts host ip s)

pub data Search : Type 0 where
  free : ℕ → Search
  no_address no_fuel : Search

-- The inner `loop`.
unfoldable pub search : ℕ → ℕ → List ℕ → ℕ → Search
unfolding saturating_add
search zero broadcast used n = no_fuel
search (suc fuel) broadcast used n =
    let rest = search fuel broadcast used (saturating_add n 1) in
    if leb broadcast n then no_address else if not (contains used n) then free n else rest

pub data Outcome : Type 0 where
  allocated : Allocation → Outcome
  failed : AllocateError → Outcome

-- The loop over the hosts.
unfoldable pub assign : Pool → List String → Allocation → Outcome
unfolding saturating_add
assign pool [] s = allocated s
assign pool (host ∷ hosts) s = elim (lookup host s.result) [
  | some _ ↦ assign pool hosts s
  | none ↦
      elim (search (suc pool.broadcast) pool.broadcast s.used (saturating_add pool.network 1)) [
        | free n ↦ assign pool hosts (take_ip host n s)
        | no_address ↦ failed pool_exhausted
        | no_fuel ↦ failed out_of_fuel
      ]
]

unfoldable pub allocate_mgmt_ips : Pool → Map String ℕ → List String → Outcome
unfolding first_duplicate keep_existing assign
allocate_mgmt_ips pool existing hosts = elim (first_duplicate hosts []) [
  | some h ↦ failed (duplicate_host h)
  | none ↦
      assign pool hosts
        (keep_existing pool hosts existing (record { result = []; used = []; warnings = [] }))
]
