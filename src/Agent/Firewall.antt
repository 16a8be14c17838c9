-- ===== src/Agent/Firewall.antt =====
-- The firewall of a host, coold/src/grpc/handlers.rs: the rules file, the two snapshots and the
-- chains of the kernel. The commands that change the kernel (`iptables`, `nft`), Corrosion, Podman
-- and the parser of addresses are the parameter `Outside`; how each write of a file goes is an
-- argument. An error is its text.
pub mod Calls
pub mod Saved
pub mod Refines
pub mod History
use Prim.Native.String.{◌++◌ as append}
use coold.Prelude.{
  ltb, leb, if◌then◌else◌, Bool-cases, Option-cases, and_then, Eq, String-discrete, string_eq,
  nat_eq, ◌==◌, ==_iff, ==_refl, contains, length, length-append, filter, any, length-filter-le,
  All, Map, lookup, insert, remove, contains_key, HasKey, NodupKeys, lookup-insert, lookup-remove,
  insert-NodupKeys, remove-NodupKeys, remove_absent, length-insert, length-remove-le, map_laws,
  str_leb, insert_sorted, sort_by_key, lookup-sort_by_key, sort_by_key-NodupKeys, Result, ok, err,
  ◌>>=◌, Result-cases, ok_or, ok_only, is_empty, strip_prefix, starts_with, strip_suffix, ends_with,
  contains_text, is_whitespace, trim_is_empty, trim_start, trim_end, trim, trim_slashes,
  utf8_length, byte_length, all_chars, is_alphanumeric, take_until, take_until_text, after_text,
  after_last, ℕ, zero, suc, ◌+◌, ◌-◌, ◌*◌, ◌/◌, ◌%◌, ◌^◌, ◌≤◌, ◌<◌, min, String, ◌≡◌, refl, sym, ap,
  ◌∙◌, ◌≢◌, ◌↔◌, ◌⊎◌, inl, inr, ite, if_pos, if_neg, Bool, true, false, ◌&&◌, ◌||◌, not, Option,
  none, some, List, [], ◌∷◌, ◌++◌, map, arith,
}
use coold.Flux.Routing.Messages.{FirewallRule}
use coold.Agent.Rules.{
  digit, digits, to_string, add_digit, parse_digits, parse_u32, push, split, first_code, lines,
  join, rule_line, render_firewall_state, cidr, iptables_line, render_iptables_snapshot, nft_line,
  render_nft_snapshot, rule_of, rule_of_fields, parse_firewall_rule_line, parse_rules,
}

abbrev pub firewall_state_path : String
firewall_state_path = "/etc/coolify/firewall-rules.tsv"

abbrev pub firewall_allow_rules_path : String
firewall_allow_rules_path = "/etc/coolify/allow.rules"

abbrev pub firewall_bridge_allow_rules_path : String
firewall_bridge_allow_rules_path = "/etc/coolify/allow.nft"

-- A host with the kernel's chains `K`.
pub record Firewall (K : Type 0) : Type 0 where
  pub files : List (String × String)
  pub kernel : K

pub record EndpointOwnerCheck : Type 0 where
  pub host_mgmt_ip : String
  pub strict : Bool

-- How a write goes: well, or the file is not opened, or what is left of it is cut short.
pub data Written : Type 0 where
  written not_opened : Written
  cut_short : String → Written

-- How the directory is made and the files are read and written.
pub record Disk : Type 0 where
  pub dir_made : Bool
  pub readable : Bool
  pub write : String → Written

pub record Outside (K : Type 0) : Type 0 where
  -- a program with its arguments, which may read the files
  pub command : List String → List (String × String) → K → K × Result String String
  pub query_ips_by_name_owned : String → String → Option String → Result String (List String)
  pub container_ip : String → String → Result String String
  pub is_ipv4 : String → Bool

-- `with_context`
abbrev pub with_context : {A : Type 0} → String → Result String A → Result String A
with_context what (ok a) = ok a
with_context what (err e) = err (append what (append ": " e))

unfoldable pub validate_firewall_rule : FirewallRule → Result String FirewallRule
validate_firewall_rule rule =
    if is_empty rule.id
    then err "firewall rule id is required"
    else if is_empty rule.namespace || (is_empty rule.src || is_empty rule.dst)
    then err "firewall rule namespace, src, and dst are required"
    else if not (rule.proto == "tcp" || rule.proto == "udp")
    then err (append "unsupported firewall protocol: " rule.proto)
    else if rule.port == 0 || ltb 65535 rule.port
    then err "firewall port must be between 1 and 65535"
    else ok rule

unfoldable pub dst_owner : EndpointOwnerCheck → Option String
dst_owner check = if check.strict then some check.host_mgmt_ip else none

-- `trim_end_matches("/32")` takes the suffix off as often as it is there, `fuel` times at most.
unfoldable pub trim_suffixes : ℕ → String → String
unfolding strip_suffix
trim_suffixes zero s = s
trim_suffixes (suc fuel) s = elim (strip_suffix "/32" s) [
  | none ↦ s
  | some kept ↦ trim_suffixes fuel kept
]

unfoldable pub firewall_endpoint_ip : String → String → List String → Result String (Option String)
firewall_endpoint_ip value namespace [] = ok none
firewall_endpoint_ip value namespace (ip ∷ []) = ok (some ip)
firewall_endpoint_ip value namespace (_ ∷ _ ∷ _) = err (
    append "firewall endpoint "
      (append value (append " in namespace " (append namespace " resolved to multiple IPs"))))

unfoldable pub load_firewall_rules :
    {K : Type 0} → Disk → Firewall K → Result String (List FirewallRule)
unfolding lines parse_rules lookup
load_firewall_rules disk s = elim (lookup firewall_state_path s.files) [
  | none ↦ ok []
  | some content ↦
      if disk.readable then ok (parse_rules (lines content)) else err "read Coolify firewall rules"
]

-- `fs::write`: the files, and whether it went well.
unfoldable pub write_file :
    Disk → String → String → List (String × String) → List (String × String) × Bool
unfolding insert
write_file disk path content files = elim (disk.write path) [
  | written ↦ (insert path content files, true)
  | not_opened ↦ (files, false)
  | cut_short kept ↦ (insert path kept files, false)
]

unfoldable pub save_firewall_rules :
    {K : Type 0} → Disk → List FirewallRule → Firewall K → Firewall K × Result String Bool
unfolding write_file render_firewall_state render_iptables_snapshot render_nft_snapshot
save_firewall_rules disk rules s =
    let (f, first) = write_file disk firewall_state_path (render_firewall_state rules) s.files in
    let (g, second) =
      write_file disk firewall_allow_rules_path (render_iptables_snapshot rules) f in
    let (h, third) =
      write_file disk firewall_bridge_allow_rules_path (render_nft_snapshot rules) g in
    if not disk.dir_made
    then (s, err "create Coolify config directory")
    else if not first
    then (record s { files = f }, err "write Coolify firewall state")
    else if not second
    then (record s { files = g }, err "write Coolify iptables allow snapshot")
    else if not third
    then (record s { files = h }, err "write Coolify bridge allow snapshot")
    else (record s { files = h }, ok true)

unfoldable pub firewall_iptables_insert_args : FirewallRule → List String
unfolding cidr to_string
firewall_iptables_insert_args rule =
    "-I"
    ∷ "COOLIFY-ALLOW"
    ∷ "1"
    ∷ "-s"
    ∷ cidr rule.src
    ∷ "-d"
    ∷ cidr rule.dst
    ∷ "-p"
    ∷ rule.proto
    ∷ "--dport"
    ∷ to_string rule.port
    ∷ "-m"
    ∷ "comment"
    ∷ "--comment"
    ∷ append "coolify-fw:" rule.id
    ∷ "-j"
    ∷ "ACCEPT"
    ∷ []

unfoldable pub firewall_nft_add_args : FirewallRule → List String
unfolding to_string
firewall_nft_add_args rule =
    "add"
    ∷ "rule"
    ∷ "bridge"
    ∷ "coolify_bridge"
    ∷ "coolify_allow"
    ∷ "meta"
    ∷ "protocol"
    ∷ "ip"
    ∷ "ip"
    ∷ "saddr"
    ∷ rule.src
    ∷ "ip"
    ∷ "daddr"
    ∷ rule.dst
    ∷ rule.proto
    ∷ "dport"
    ∷ to_string rule.port
    ∷ "accept"
    ∷ []

-- The text before the first slash is an address.
unfoldable pub is_ip_or_cidr : (String → Bool) → String → Bool
unfolding take_until
is_ip_or_cidr is_ipv4 value = is_ipv4 (take_until (λ c. c == b'/') value)
