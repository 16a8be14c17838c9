-- ===== src/Prelude/Text.antt =====
-- The methods of `str` that the parts share. A text is a sequence of characters; where the source
-- counts bytes, `byte_length` counts those of UTF-8.
use Prim.Native.Char.{code}
use Prim.Native.Nat.{ℕ, ◌+◌}
use Prim.Native.String.{String}
use mathlib.Core.Bool.{Bool, true, false, ◌&&◌, ◌||◌}
use mathlib.Core.Option.{Option, none, some}
use mathlib.Core.List.{[], ◌∷◌}
use coold.Prelude.Tests.{ltb, leb, if◌then◌else◌}
use coold.Prelude.Equality.{◌==◌, contains, string_eq, nat_eq}

abbrev pub is_empty : String → Bool
is_empty s = s == ""

-- `strip_prefix`
unfoldable pub strip_prefix : String → String → Option String
strip_prefix String.[] s = some s
strip_prefix (String.◌∷◌ c p) String.[] = none
strip_prefix (String.◌∷◌ c p) (String.◌∷◌ d s) =
    let rest = strip_prefix p s in if code c == code d then rest else none

-- `starts_with`
unfoldable pub starts_with : String → String → Bool
starts_with String.[] s = true
starts_with (String.◌∷◌ c p) String.[] = false
starts_with (String.◌∷◌ c p) (String.◌∷◌ d s) =
    let rest = starts_with p s in if code c == code d then rest else false

-- `strip_suffix`
unfoldable pub strip_suffix : String → String → Option String
strip_suffix p String.[] = if p == "" then some "" else none
strip_suffix p (String.◌∷◌ c s) =
    let rest = strip_suffix p s in
    if String.◌∷◌ c s == p
    then some ""
    else elim rest [ none ↦ none | some kept ↦ some (String.◌∷◌ c kept) ]

-- `ends_with`
unfoldable pub ends_with : String → String → Bool
unfolding strip_suffix
ends_with p s = elim (strip_suffix p s) [ none ↦ false | some _ ↦ true ]

-- `contains`, of a text
unfoldable pub contains_text : String → String → Bool
unfolding starts_with
contains_text pattern String.[] = starts_with pattern String.[]
contains_text pattern (String.◌∷◌ c s) =
    let rest = contains_text pattern s in
    if starts_with pattern (String.◌∷◌ c s) then true else rest

-- `char::is_whitespace`: the code points with the property White_Space.
unfoldable pub is_whitespace : ℕ → Bool
unfolding contains
is_whitespace c =
    (leb 9 c && leb c 13)
    || (contains (32 ∷ 133 ∷ 160 ∷ 5760 ∷ 8232 ∷ 8233 ∷ 8239 ∷ 8287 ∷ 12288 ∷ []) c
        || (leb 8192 c && leb c 8202))

-- `s.trim().is_empty()`
unfoldable pub trim_is_empty : String → Bool
unfolding is_whitespace
trim_is_empty String.[] = true
trim_is_empty (String.◌∷◌ c s) = if is_whitespace (code c) then trim_is_empty s else false

unfoldable pub trim_start : String → String
unfolding is_whitespace
trim_start String.[] = String.[]
trim_start (String.◌∷◌ c s) =
    let rest = trim_start s in if is_whitespace (code c) then rest else String.◌∷◌ c s

unfoldable pub trim_end : String → String
unfolding is_whitespace
trim_end String.[] = String.[]
trim_end (String.◌∷◌ c s) =
    let rest = trim_end s in
    if is_whitespace (code c) && is_empty rest then String.[] else String.◌∷◌ c rest

unfoldable pub trim : String → String
unfolding trim_start trim_end
trim s = trim_end (trim_start s)

-- `trim_start_matches('/')`
unfoldable pub trim_slashes : String → String
trim_slashes String.[] = String.[]
trim_slashes (String.◌∷◌ c s) =
    let rest = trim_slashes s in if code c == b'/' then rest else String.◌∷◌ c s

-- How many bytes a character takes in UTF-8.
unfoldable pub utf8_length : ℕ → ℕ
utf8_length c = if ltb c 128 then 1 else if ltb c 2048 then 2 else if ltb c 65536 then 3 else 4

-- `len`
unfoldable pub byte_length : String → ℕ
unfolding utf8_length
byte_length String.[] = 0
byte_length (String.◌∷◌ c s) = utf8_length (code c) + byte_length s

-- `chars().all`
unfoldable pub all_chars : (ℕ → Bool) → String → Bool
all_chars p String.[] = true
all_chars p (String.◌∷◌ c s) = let rest = all_chars p s in if p (code c) then rest else false

-- `is_ascii_alphanumeric`
unfoldable pub is_alphanumeric : ℕ → Bool
is_alphanumeric c =
    (leb b'a' c && leb c b'z') || ((leb b'A' c && leb c b'Z') || (leb b'0' c && leb c b'9'))

-- What comes before the first character that passes the test, or everything.
unfoldable pub take_until : (ℕ → Bool) → String → String
take_until p String.[] = String.[]
take_until p (String.◌∷◌ c s) =
    let rest = take_until p s in if p (code c) then String.[] else String.◌∷◌ c rest

-- What comes before the first occurrence of the pattern, or everything.
unfoldable pub take_until_text : String → String → String
unfolding starts_with
take_until_text pattern String.[] = String.[]
take_until_text pattern (String.◌∷◌ c s) =
    let rest = take_until_text pattern s in
    if starts_with pattern (String.◌∷◌ c s) then String.[] else String.◌∷◌ c rest

-- What comes after the first occurrence of the pattern.
unfoldable pub after_text : String → String → Option String
unfolding strip_prefix
after_text pattern String.[] = strip_prefix pattern String.[]
after_text pattern (String.◌∷◌ c s) =
    let rest = after_text pattern s in
    elim (strip_prefix pattern (String.◌∷◌ c s)) [ some found ↦ some found | none ↦ rest ]

-- What comes after the last occurrence of the character.
unfoldable pub after_last : ℕ → String → Option String
after_last b String.[] = none
after_last b (String.◌∷◌ c s) = elim (after_last b s) [
  | some found ↦ some found
  | none ↦ if code c == b then some s else none
]
