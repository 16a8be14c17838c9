-- ===== src/Agent/Rules/Printed.antt =====
-- Numbers and rules survive being printed and read again: `render_firewall_state` and
-- `parse_firewall_rule_line` of coold/src/grpc/handlers.rs.
use Prim.Native.Char.{Char, code, char}
use Prim.Native.String.{◌++◌ as append}
use native.Mathlib.Decide.{dec_lt, ℕ_discrete}
use text.Mathlib.TextLemmas.{append_assoc}
use coold.Prelude.{
  leb, Option-cases, string_eq, nat_eq, All, all_chars, ℕ, zero, suc, ◌+◌, ◌*◌, ◌/◌, ◌%◌, ◌^◌, ◌≤◌,
  ◌<◌, String, ◌≡◌, refl, ap, ◌∙◌, inl, inr, true, Option, none, some, List, [], ◌∷◌, map, arith,
}
use coold.Flux.Routing.Messages.{FirewallRule}
use coold.Agent.Rules.{
  digit, digits, to_string, add_digit, parse_digits, parse_u32, split, first_code, lines, join,
  rule_line, render_firewall_state, rule_of, rule_of_fields, parse_firewall_rule_line, parse_rules,
}
use coold.Agent.Rules.Lines.{
  is_plain_char, is_line_char, plain_is_line, append-nil, append-cons, all_chars-append,
  split_field, split_last, lines_line,
}

-- A number of this many digits at most.
abbrev Fits : ℕ → ℕ → Type 0
Fits zero n = n < 1
Fits (suc f) n = Fits f (n / 10)

then_parse : Option ℕ → String → Option ℕ
then_parse none s = none
then_parse (some v) s = parse_digits v s

parse_digits-append :
    (acc : ℕ) (s t : String) → parse_digits acc (append s t) ≡ then_parse (parse_digits acc s) t
unfolding parse_digits then_parse
parse_digits-append acc String.[] t = rw (append-nil t) refl
parse_digits-append acc (String.◌∷◌ c s) t =
    rw (append-cons c s t) (elim (Option-cases (add_digit acc (code c))) [
      | inl full ↦ ground arith
      | inr (v, fine) ↦ ground (arith, parse_digits-append v s t)
    ])

-- The character of a digit.
digit_char : (d : ℕ) → d < 10 → (c : Char) × (digit d ≡ String.◌∷◌ c String.[]) × (code c ≡ 48 + d)
unfolding digit ℕ_discrete
digit_char zero small = (char 48 tt, refl, refl)
digit_char (suc zero) small = (char 49 tt, refl, refl)
digit_char (suc (suc zero)) small = (char 50 tt, refl, refl)
digit_char (suc (suc (suc zero))) small = (char 51 tt, refl, refl)
digit_char (suc (suc (suc (suc zero)))) small = (char 52 tt, refl, refl)
digit_char (suc (suc (suc (suc (suc zero))))) small = (char 53 tt, refl, refl)
digit_char (suc (suc (suc (suc (suc (suc zero)))))) small = (char 54 tt, refl, refl)
digit_char (suc (suc (suc (suc (suc (suc (suc zero))))))) small = (char 55 tt, refl, refl)
digit_char (suc (suc (suc (suc (suc (suc (suc (suc zero)))))))) small = (char 56 tt, refl, refl)
digit_char (suc (suc (suc (suc (suc (suc (suc (suc (suc zero))))))))) small =
    (char 57 tt, refl, refl)
digit_char (suc (suc (suc (suc (suc (suc (suc (suc (suc (suc n)))))))))) small =
    absurd (omega arith)

parse_digits-digit :
    (v d : ℕ) → d < 10 → v * 10 + d < 2 ^ 32 → parse_digits v (digit d) ≡ some (v * 10 + d)
parse_digits-digit v d small fits =
    let (c, one, number) = digit_char d small in
    rw one (unfold parse_digits add_digit in ground arith)

digits_small : (f n : ℕ) → n < 10 → digits (suc f) n ≡ digit n
digits_small f n one = unfold digits in ground arith

digits_large : (f n : ℕ) → 10 ≤ n → digits (suc f) n ≡ append (digits f (n / 10)) (digit (n % 10))
digits_large f n more = unfold digits in ground arith

parse_digits-digits : (f n : ℕ) → Fits f n → n < 2 ^ 32 → parse_digits 0 (digits f n) ≡ some n
unfolding then_parse
parse_digits-digits zero n fits small = unfold digits parse_digits in ground arith
parse_digits-digits (suc f) n fits small = elim (dec_lt n 10) [
  | yes one ↦
      rw (digits_small f n one)
        (parse_digits-digit 0 n one (omega arith) ∙ ap (λ (k : ℕ). some k) (omega arith))
  | no more ↦
      rw
        (
          digits_large f n (omega arith),
          parse_digits-append 0 (digits f (n / 10)) (digit (n % 10)),
          parse_digits-digits f (n / 10) fits (omega arith),
        )
        (parse_digits-digit (n / 10) (n % 10) (omega arith) (omega arith)
          ∙ ap (λ (k : ℕ). some k) (omega arith))
]

-- The characters of a number are digits, and there is one.
IsPrinted : String → Type 0
IsPrinted s =
    (all_chars is_plain_char s ≡ true)
    × (c : Char) × (t : String) × (s ≡ String.◌∷◌ c t)
    × (leb 48 (code c) ≡ true)

IsPrinted-digit : (d : ℕ) → d < 10 → IsPrinted (digit d)
unfolding IsPrinted
IsPrinted-digit d small =
    let (c, one, number) = digit_char d small in
    rw one (unfold all_chars is_plain_char in ground arith, c, String.[], refl, ground arith)

IsPrinted-append : (s t : String) → IsPrinted s → IsPrinted t → IsPrinted (append s t)
unfolding IsPrinted
IsPrinted-append s t (plain, c, r, e, high) (plain', _, _, _, _) = (
  rw (all_chars-append is_plain_char s t) (ground arith),
  c,
  append r t,
  rw e (append-cons c r t),
  high,
)

IsPrinted-digits : (f n : ℕ) → IsPrinted (digits (suc f) n)
unfolding digits
IsPrinted-digits zero n = elim (dec_lt n 10) [
  | yes one ↦ rw (digits_small 0 n one) (IsPrinted-digit n one)
  | no more ↦
      rw (digits_large 0 n (omega arith), digits, append-nil (digit (n % 10)))
        (IsPrinted-digit (n % 10) (omega arith))
]
IsPrinted-digits (suc f) n = elim (dec_lt n 10) [
  | yes one ↦ rw (digits_small (suc f) n one) (IsPrinted-digit n one)
  | no more ↦ rw (digits_large (suc f) n (omega arith)) (
      IsPrinted-append (digits (suc f) (n / 10)) (digit (n % 10)) (IsPrinted-digits f (n / 10))
        (IsPrinted-digit (n % 10) (omega arith)))
]

-- A `u32` is read back from its printed form.
parse_u32-to_string : (n : ℕ) → n < 2 ^ 32 → parse_u32 (to_string n) ≡ some n
unfolding IsPrinted to_string
parse_u32-to_string n small =
    let (_, c, t, e, high) = IsPrinted-digits 9 n in
    let read = parse_digits-digits 10 n (omega arith) small in
    rw e (unfold parse_u32 in ground (arith, rw e at read))

plain-to_string : (n : ℕ) → all_chars is_plain_char (to_string n) ≡ true
unfolding IsPrinted to_string
plain-to_string n = (IsPrinted-digits 9 n).0

-- The fields of a rule have no tab, newline or carriage return, and its port is a `u32`.
abbrev pub IsPlain : FirewallRule → Type 0
IsPlain rule =
    (all_chars is_plain_char rule.id ≡ true)
    × (all_chars is_plain_char rule.namespace ≡ true)
    × (all_chars is_plain_char rule.src ≡ true)
    × (all_chars is_plain_char rule.dst ≡ true)
    × (all_chars is_plain_char rule.proto ≡ true)
    × (rule.port < 2 ^ 32)

parse_firewall_rule_line-rule_line :
    (rule : FirewallRule) → IsPlain rule → parse_firewall_rule_line (rule_line rule) ≡ some rule
unfolding parse_firewall_rule_line rule_line rule_of_fields rule_of
parse_firewall_rule_line-rule_line rule (id, namespace, src, dst, proto, port) =
    rw
      (
        split_field rule.id _ id,
        split_field rule.namespace _ namespace,
        split_field rule.src _ src,
        split_field rule.dst _ dst,
        split_field rule.proto _ proto,
        split_last (to_string rule.port) (plain-to_string rule.port),
        rule_of_fields,
        rule_of,
        parse_u32-to_string rule.port port,
      )
      refl

line_field :
    (s t : String)
    → all_chars is_plain_char s ≡ true
    → all_chars is_line_char (append s (append "\t" t)) ≡ all_chars is_line_char t
unfolding all_chars is_line_char ℕ_discrete
line_field s t plain =
    rw
      (
        all_chars-append is_line_char s (append "\t" t),
        plain_is_line s plain,
        all_chars-append is_line_char "\t" t,
      )
      refl

all_chars-rule_line :
    (rule : FirewallRule) → IsPlain rule → all_chars is_line_char (rule_line rule) ≡ true
unfolding rule_line
all_chars-rule_line rule (id, namespace, src, dst, proto, port) =
    line_field rule.id _ id
    ∙ line_field rule.namespace _ namespace
    ∙ line_field rule.src _ src
    ∙ line_field rule.dst _ dst
    ∙ line_field rule.proto _ proto
    ∙ plain_is_line (to_string rule.port) (plain-to_string rule.port)

-- The lines of a text that was joined.
lines-join :
    (rule : FirewallRule) (rules : List FirewallRule)
    → All IsPlain (rule ∷ rules)
    → lines (append (join (map rule_line (rule ∷ rules))) "\n") ≡ map rule_line (rule ∷ rules)
unfolding join lines
lines-join rule [] (plain, _) = lines_line (rule_line rule) "" (all_chars-rule_line rule plain)
lines-join rule (next ∷ rules) (plain, rest) =
    rw
      (
        append_assoc (rule_line rule) (append "\n" (join (map rule_line (next ∷ rules)))) "\n",
        append_assoc "\n" (join (map rule_line (next ∷ rules))) "\n",
        lines_line (rule_line rule) (append (join (map rule_line (next ∷ rules))) "\n")
            (all_chars-rule_line rule plain),
      )
      (ap (◌∷◌ (rule_line rule)) (lines-join next rules rest))

parse_rules-rule_line :
    (rules : List FirewallRule) → All IsPlain rules → parse_rules (map rule_line rules) ≡ rules
unfolding parse_rules
parse_rules-rule_line [] plain = refl
parse_rules-rule_line (rule ∷ rules) (plain, rest) =
    ground (arith, parse_firewall_rule_line-rule_line rule plain, parse_rules-rule_line rules rest)

-- The table of the rules is read back as it was written, whatever the rules, as long as no field
-- has a tab, a newline or a carriage return and every port is a `u32`.
pub parse_rules-render_firewall_state :
    (rules : List FirewallRule)
    → All IsPlain rules
    → parse_rules (lines (render_firewall_state rules)) ≡ rules
unfolding render_firewall_state parse_rules
parse_rules-render_firewall_state [] plain =
    unfold join lines parse_firewall_rule_line rule_of_fields split first_code ℕ_discrete in refl
parse_rules-render_firewall_state (rule ∷ rules) plain =
    rw (render_firewall_state, lines-join rule rules plain)
      (parse_rules-rule_line (rule ∷ rules) plain)
