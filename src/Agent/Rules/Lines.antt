-- ===== src/Agent/Rules/Lines.antt =====
-- Splitting what was joined: lemmas on the text functions of the rules files
-- (coold/src/grpc/handlers.rs).
use Prim.Native.Char.{Char, char}
use Prim.Native.String.append.{nil, cons}
use Prim.Native.String.{◌++◌ as append}
use native.Mathlib.Decide.{ℕ_discrete}
use coold.Prelude.{
  string_eq, nat_eq, ◌==◌, all_chars, ℕ, String, ◌≡◌, refl, ap, ◌∙◌, Bool, true, ◌&&◌, ◌||◌, not,
  [], ◌∷◌, arith,
}
use coold.Agent.Rules.{push, split, first_code, lines}

-- No tab, newline or carriage return.
unfoldable pub is_plain_char : ℕ → Bool
is_plain_char c = not (c == 9 || (c == 10 || c == 13))

abbrev pub tab : Char
tab = char 9 tt

abbrev pub newline : Char
newline = char 10 tt

-- No newline or carriage return.
unfoldable pub is_line_char : ℕ → Bool
is_line_char c = not (c == 10 || c == 13)

pub plain_is_line :
    (s : String) → all_chars is_plain_char s ≡ true → all_chars is_line_char s ≡ true
unfolding all_chars is_plain_char is_line_char
plain_is_line String.[] plain = refl
plain_is_line (String.◌∷◌ c s) plain = ground (arith, plain_is_line s (ground arith))

pub append-nil : (t : String) → append "" t ≡ t
append-nil t = nil t

pub append-cons : (c : Char) (s t : String) → append (String.◌∷◌ c s) t ≡ String.◌∷◌ c (append s t)
append-cons c s t = cons c s t

append-tab : (t : String) → append "\t" t ≡ String.◌∷◌ tab t
append-tab t = append-cons tab "" t ∙ ap (String.◌∷◌ tab) (append-nil t)

append-newline : (t : String) → append "\n" t ≡ String.◌∷◌ newline t
append-newline t = append-cons newline "" t ∙ ap (String.◌∷◌ newline) (append-nil t)

pub all_chars-append :
    (p : ℕ → Bool) (s t : String) → all_chars p (append s t) ≡ (all_chars p s && all_chars p t)
unfolding all_chars
all_chars-append p String.[] t = rw (append-nil t) refl
all_chars-append p (String.◌∷◌ c s) t =
    rw (append-cons c s t) (ground (arith, all_chars-append p s t))

-- A field before a tab is split off.
pub split_field :
    (s t : String)
    → all_chars is_plain_char s ≡ true
    → split 9 (append s (append "\t" t)) ≡ s ∷ split 9 t
unfolding all_chars is_plain_char split push ℕ_discrete
split_field String.[] t plain = rw (append-nil (append "\t" t), append-tab t) refl
split_field (String.◌∷◌ c s) t plain =
    rw (append-cons c s (append "\t" t)) (ground (arith, split_field s t (ground arith)))

-- The last field.
pub split_last : (s : String) → all_chars is_plain_char s ≡ true → split 9 s ≡ s ∷ []
unfolding all_chars is_plain_char split push
split_last String.[] plain = refl
split_last (String.◌∷◌ c s) plain = ground (arith, split_last s (ground arith))

-- A line before a newline is split off.
pub lines_line :
    (s t : String)
    → all_chars is_line_char s ≡ true
    → lines (append s (append "\n" t)) ≡ s ∷ lines t
unfolding all_chars is_line_char lines push first_code ℕ_discrete
lines_line String.[] t fine = rw (append-nil (append "\n" t), append-newline t) refl
lines_line (String.◌∷◌ c s) t fine =
    rw (append-cons c s (append "\n" t)) (ground (arith, lines_line s t (ground arith)))
