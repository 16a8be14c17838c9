-- ===== src/Agent/Dns.antt =====
-- The DNS server of the agent, coold/src/dns: the zone logic of resolver.rs and the bind loop of
-- server.rs. The crate `hickory` (names, the answer of the upstream) and Corrosion are parameters.
-- A text is lowered by `to_lowercase`; a duration is a number of milliseconds.
pub mod Zone
use coold.Prelude.{
  ltb, leb, if◌then◌else◌, Bool-cases, Option-cases, and_then, Eq, String-discrete, string_eq,
  nat_eq, ◌==◌, ==_iff, ==_refl, contains, length, length-append, filter, any, length-filter-le,
  All, Map, lookup, insert, remove, contains_key, HasKey, NodupKeys, lookup-insert, lookup-remove,
  insert-NodupKeys, remove-NodupKeys, remove_absent, length-insert, length-remove-le, map_laws,
  str_leb, insert_sorted, sort_by_key, lookup-sort_by_key, sort_by_key-NodupKeys, Result, ok, err,
  ◌>>=◌, Result-cases, ok_or, ok_only, is_empty, strip_prefix, starts_with, strip_suffix, ends_with,
  contains_text, is_whitespace, trim_is_empty, trim_start, trim_end, trim, trim_slashes,
  utf8_length, byte_length, all_chars, is_alphanumeric, take_until, take_until_text, after_text,
  after_last, ℕ, zero, suc, ◌+◌, ◌-◌, ◌*◌, ◌/◌, ◌%◌, ◌^◌, ◌≤◌, ◌<◌, min, String, ◌≡◌, refl, sym, ap,
  ◌∙◌, ◌≢◌, ◌↔◌, ◌⊎◌, inl, inr, ite, if_pos, if_neg, Bool, true, false, ◌&&◌, ◌||◌, not, Option,
  none, some, List, [], ◌∷◌, ◌++◌, map, arith,
}

abbrev pub positive_ttl : ℕ
positive_ttl = 5

-- Names: whether one lies in another's zone, how many labels one has, and its labels from the left,
-- lowered.
pub record NameLibrary (Name : Type 0) : Type 0 where
  pub zone_of : Name → Name → Bool
  pub num_labels : Name → ℕ
  pub labels : Name → List String

pub data IpAddr : Type 0 where
  v4 v6 : ℕ → IpAddr

pub data RecordType : Type 0 where
  type_a other_type : RecordType

pub data ResponseCode : Type 0 where
  refused serv_fail nx_domain : ResponseCode

-- `op_code() == Query` and `message_type() == Query`, and the query.
pub record Request (Name : Type 0) : Type 0 where
  pub is_query_op : Bool
  pub is_query_message : Bool
  pub name : Name
  pub query_type : RecordType

-- A record of this zone, or one that the upstream gave.
pub data Record (Name R : Type 0) : Type 0 where
  a_record : Name → ℕ → ℕ → Record Name R
  forwarded : R → Record Name R

-- What is sent: `error_msg` with a code, or a reply without an error, whether its header says that it
-- is authoritative, and its answers.
pub data Response (Name R : Type 0) : Type 0 where
  failure : ResponseCode → Response Name R
  reply : Bool → List (Record Name R) → Response Name R

unfoldable pub send_code : {Name R : Type 0} → ResponseCode → Response Name R
send_code code = failure code

unfoldable pub send_empty : {Name R : Type 0} → Response Name R
send_empty = reply true []

-- `filter_map(|s| IpAddr::from_str(&s).ok())`
unfoldable pub parse_all : (String → Option IpAddr) → List String → List IpAddr
parse_all from_str [] = []
parse_all from_str (s ∷ ss) =
    let rest = parse_all from_str ss in elim (from_str s) [ none ↦ rest | some ip ↦ ip ∷ rest ]

-- `CorrosionBackend::lookup`
unfoldable pub backend_lookup :
    (String → String → Result String (List String))
    → (String → Option IpAddr)
    → String
    → String
    → Result String (List IpAddr)
unfolding parse_all
backend_lookup query_ips_by_name from_str container_name namespace =
    elim (query_ips_by_name container_name namespace) [
      | err e ↦ err e
      | ok ips ↦ ok (parse_all from_str ips)
    ]

-- The records of the addresses of version 4.
unfoldable pub records_of : {Name R : Type 0} → Name → List IpAddr → List (Record Name R)
records_of name [] = []
records_of name (v4 ip ∷ ips) = a_record name positive_ttl ip ∷ records_of name ips
records_of name (v6 ip ∷ ips) = records_of name ips

-- An answer with these records; without one it is `send_empty`.
abbrev pub answer_of : {Name R : Type 0} → List (Record Name R) → Response Name R
answer_of [] = reply true []
answer_of (r ∷ records) = reply true (r ∷ records)

module _ {Name R : Type 0} (lib : NameLibrary Name) (zone : Name)
    (backend : String → String → Result String (List IpAddr))
    (upstream : Name → RecordType → Result String (List R)) where
  open lib use {zone_of, num_labels, labels}

  abbrev two_labels : List String → Option (String × String)
  two_labels (container ∷ namespace ∷ _) =
      if is_empty container || is_empty namespace then none else some (container, namespace)
  two_labels _ = none

  unfoldable pub container_and_namespace : Name → Option (String × String)
  container_and_namespace query_name =
      if not (zone_of zone query_name)
      then none
      else if ltb (num_labels query_name - num_labels zone) 2
      then none
      else two_labels (labels query_name)

  unfoldable pub answer_internal : Request Name → String → String → Response Name R
  unfolding send_code send_empty records_of
  answer_internal request container namespace = elim (backend container namespace) [
    | err _ ↦ send_code serv_fail
    | ok ips ↦ elim request.query_type [
      | other_type ↦ send_empty
      | type_a ↦ elim ips [
        | [] ↦ send_code nx_domain
        | ip ∷ more ↦ answer_of (records_of request.name (ip ∷ more))
      ]
    ]
  ]

  unfoldable pub answer_forwarded : Request Name → Response Name R
  unfolding send_code
  answer_forwarded request = elim (upstream request.name request.query_type) [
    | err _ ↦ send_code serv_fail
    | ok records ↦ reply false (map forwarded records)
  ]

  unfoldable pub handle_request : Request Name → Response Name R
  unfolding container_and_namespace answer_internal answer_forwarded send_code
  handle_request request =
      if not request.is_query_op || not request.is_query_message
      then send_code refused
      else if zone_of zone request.name
      then (elim (container_and_namespace request.name) [
        | some (container, namespace) ↦ answer_internal request container namespace
        | none ↦ send_code nx_domain
      ])
      else answer_forwarded request

abbrev pub backoff_start : ℕ
backoff_start = 1000

abbrev pub backoff_max : ℕ
backoff_max = 30000

-- The kinds of `io::Error` among the causes of an error.
pub data IoKind : Type 0 where
  addr_not_available addr_in_use network_unreachable other_io another_kind : IoKind

unfoldable pub is_retryable_kind : IoKind → Bool
is_retryable_kind addr_not_available = true
is_retryable_kind addr_in_use = true
is_retryable_kind network_unreachable = true
is_retryable_kind other_io = true
is_retryable_kind another_kind = false

unfoldable pub is_retryable_io : List IoKind → Bool
unfolding any is_retryable_kind
is_retryable_io chain = any is_retryable_kind chain

-- `run_for_gateway`: the delays after attempts that end with these errors, and whether the loop goes
-- on after them.
unfoldable pub run_for_gateway : List (List IoKind) → ℕ → List ℕ × Bool
unfolding is_retryable_io
run_for_gateway [] backoff = ([], true)
run_for_gateway (chain ∷ chains) backoff =
    let next = if leb (backoff * 2) backoff_max then backoff * 2 else backoff_max in
    let (delays, goes_on) = run_for_gateway chains next in
    if is_retryable_io chain then (backoff ∷ delays, goes_on) else ([], false)
