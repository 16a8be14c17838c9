-- ===== src/Agent/Rules.antt =====
-- The files of the firewall, coold/src/grpc/handlers.rs: the table of the rules, how a line of it
-- is read, and the snapshots for iptables and nft. A text is split as `str::lines`, `split` and
-- `parse::<u32>` do.
pub mod Lines
pub mod Printed
use Prim.Native.Char.{Char, code}
use Prim.Native.String
use Prim.Native.String.{◌++◌ as append}
use coold.Prelude.{
  ltb, leb, if◌then◌else◌, Bool-cases, Option-cases, and_then, Eq, String-discrete, string_eq,
  nat_eq, ◌==◌, ==_iff, ==_refl, contains, length, length-append, filter, any, length-filter-le,
  All, Map, lookup, insert, remove, contains_key, HasKey, NodupKeys, lookup-insert, lookup-remove,
  insert-NodupKeys, remove-NodupKeys, remove_absent, length-insert, length-remove-le, map_laws,
  str_leb, insert_sorted, sort_by_key, lookup-sort_by_key, sort_by_key-NodupKeys, Result, ok, err,
  ◌>>=◌, Result-cases, ok_or, ok_only, is_empty, strip_prefix, starts_with, strip_suffix, ends_with,
  contains_text, is_whitespace, trim_is_empty, trim_start, trim_end, trim, trim_slashes,
  utf8_length, byte_length, all_chars, is_alphanumeric, take_until, take_until_text, after_text,
  after_last, ℕ, zero, suc, ◌+◌, ◌-◌, ◌*◌, ◌/◌, ◌%◌, ◌^◌, ◌≤◌, ◌<◌, min, String, ◌≡◌, refl, sym, ap,
  ◌∙◌, ◌≢◌, ◌↔◌, ◌⊎◌, inl, inr, ite, if_pos, if_neg, Bool, true, false, ◌&&◌, ◌||◌, not, Option,
  none, some, List, [], ◌∷◌, ◌++◌, map, arith,
}
use coold.Flux.Routing.Messages.{FirewallRule}

-- The digits of a number, `fuel` at most.
unfoldable pub digit : ℕ → String
digit d =
    if d == 0
    then "0"
    else if d == 1
    then "1"
    else if d == 2
    then "2"
    else if d == 3
    then "3"
    else if d == 4
    then "4"
    else if d == 5
    then "5"
    else if d == 6
    then "6"
    else if d == 7
    then "7"
    else if d == 8
    then "8"
    else "9"

unfoldable pub digits : ℕ → ℕ → String
unfolding digit
digits zero n = ""
digits (suc fuel) n =
    let rest = digits fuel (n / 10) in if ltb n 10 then digit n else append rest (digit (n % 10))

-- `u32::to_string`, which has ten digits at most
unfoldable pub to_string : ℕ → String
unfolding digits
to_string n = digits 10 n

-- One more digit, unless the number no longer fits a `u32`.
unfoldable pub add_digit : ℕ → ℕ → Option ℕ
add_digit acc c =
    if leb 48 c && (leb c 57 && ltb (acc * 10 + (c - 48)) (2 ^ 32))
    then some (acc * 10 + (c - 48))
    else none

unfoldable pub parse_digits : ℕ → String → Option ℕ
unfolding add_digit
parse_digits acc String.[] = some acc
parse_digits acc (String.◌∷◌ c s) = elim (add_digit acc (code c)) [
  | none ↦ none
  | some next ↦ parse_digits next s
]

-- `parse::<u32>()`, which takes a leading `+`.
unfoldable pub parse_u32 : String → Option ℕ
unfolding parse_digits
parse_u32 String.[] = none
parse_u32 (String.◌∷◌ c s) =
    if code c == b'+' && not (is_empty s) then parse_digits 0 s else parse_digits 0 (String.◌∷◌ c s)

-- The character in front of the first of the pieces.
unfoldable pub push : Char → List String → List String
push c [] = String.◌∷◌ c String.[] ∷ []
push c (l ∷ ls) = String.◌∷◌ c l ∷ ls

-- `split(sep).collect()`
unfoldable pub split : ℕ → String → List String
unfolding push
split sep String.[] = "" ∷ []
split sep (String.◌∷◌ c s) =
    let rest = split sep s in if code c == sep then "" ∷ rest else push c rest

-- The code of the first character.
unfoldable pub first_code : String → ℕ
first_code String.[] = 0
first_code (String.◌∷◌ c s) = code c

-- `lines()`: a newline ends a line and takes one carriage return before it.
unfoldable pub lines : String → List String
unfolding push first_code
lines String.[] = []
lines (String.◌∷◌ c s) =
    let rest = lines s in
    if code c == 10
    then "" ∷ rest
    else if code c == 13 && first_code s == 10
    then rest
    else push c rest

-- `join("\n")`
unfoldable pub join : List String → String
join [] = ""
join (l ∷ []) = l
join (l ∷ m ∷ ls) = append l (append "\n" (join (m ∷ ls)))

unfoldable pub rule_line : FirewallRule → String
unfolding to_string
rule_line rule = append rule.id (
    append "\t" (
      append rule.namespace (
        append "\t" (
          append rule.src (
            append "\t" (
              append rule.dst
                (append "\t" (append rule.proto (append "\t" (to_string rule.port))))))))))

unfoldable pub render_firewall_state : List FirewallRule → String
unfolding join rule_line
render_firewall_state rules = append (join (map rule_line rules)) "\n"

unfoldable pub cidr : String → String
unfolding contains_text
cidr value = if contains_text "/" value then value else append value "/32"

unfoldable pub iptables_line : FirewallRule → String
unfolding cidr to_string
iptables_line rule = append "-A COOLIFY-ALLOW -s " (
    append (cidr rule.src) (
      append " -d " (
        append (cidr rule.dst) (
          append " -p " (
            append rule.proto (
              append " --dport " (
                append (to_string rule.port)
                  (append " -m comment --comment coolify-fw:" (append rule.id " -j ACCEPT")))))))))

unfoldable pub render_iptables_snapshot : List FirewallRule → String
unfolding join iptables_line
render_iptables_snapshot rules =
    append (join ("*filter" ∷ (map iptables_line rules ++ ("COMMIT" ∷ [])))) "\n"

unfoldable pub nft_line : FirewallRule → String
unfolding to_string
nft_line rule = append "add rule bridge coolify_bridge coolify_allow meta protocol ip ip saddr " (
    append rule.src (
      append " ip daddr " (
        append rule.dst (
          append " "
            (append rule.proto (append " dport " (append (to_string rule.port) " accept")))))))

unfoldable pub render_nft_snapshot : List FirewallRule → String
unfolding join nft_line
render_nft_snapshot rules = append (join (map nft_line rules)) "\n"

-- The rule of these fields, if the last one is a port.
unfoldable pub rule_of : String → String → String → String → String → String → Option FirewallRule
unfolding parse_u32
rule_of id namespace src dst proto port = elim (parse_u32 port) [
  | none ↦ none
  | some number ↦ some (record {
    id = id;
    namespace = namespace;
    src = src;
    dst = dst;
    proto = proto;
    port = number;
  })
]

-- Six fields, or five where the line has no id.
unfoldable pub rule_of_fields : List String → Option FirewallRule
unfolding rule_of
rule_of_fields (a ∷ b ∷ c ∷ d ∷ e ∷ f ∷ []) = rule_of a b c d e f
rule_of_fields (a ∷ b ∷ c ∷ d ∷ e ∷ []) = rule_of "" a b c d e
rule_of_fields _ = none

unfoldable pub parse_firewall_rule_line : String → Option FirewallRule
unfolding split rule_of_fields
parse_firewall_rule_line line = rule_of_fields (split b'\t' line)

-- `filter_map(parse_firewall_rule_line).collect()`
unfoldable pub parse_rules : List String → List FirewallRule
unfolding parse_firewall_rule_line
parse_rules [] = []
parse_rules (line ∷ ls) =
    let rest = parse_rules ls in
    elim (parse_firewall_rule_line line) [ none ↦ rest | some rule ↦ rule ∷ rest ]
