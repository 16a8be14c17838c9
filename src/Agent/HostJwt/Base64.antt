-- ===== src/Agent/HostJwt/Base64.antt =====
-- The decoder of coold/src/grpc/host_jwt.rs against RFC 4648.
use Prim.Native.Char.{Char, code}
use coold.Prelude.{
  leb, if◌then◌else◌, string_eq, nat_eq, All, ℕ, ◌+◌, ◌-◌, ◌*◌, ◌/◌, ◌%◌, ◌<◌, String, Option, none,
  some, List, [], ◌∷◌,
}
use coold.Agent.HostJwt.{sextet, shift_in, high_byte}

-- The values of the characters, if all are of the alphabet.
unfoldable pub sextets : String → Option (List ℕ)
sextets String.[] = some []
sextets (String.◌∷◌ c s) = elim (sextet (code c)) [
  | none ↦ none
  | some value ↦ elim (sextets s) [ none ↦ none | some values ↦ some (value ∷ values) ]
]

-- RFC 4648: four values of six bits are three bytes; two are one, and three are two.
unfoldable pub bytes_of : List ℕ → List ℕ
bytes_of (a ∷ b ∷ c ∷ d ∷ values) =
    (a * 4 + b / 16) ∷ (b % 16 * 16 + c / 4) ∷ (c % 4 * 64 + d) ∷ bytes_of values
bytes_of (a ∷ b ∷ c ∷ []) = (a * 4 + b / 16) ∷ (b % 16 * 16 + c / 4) ∷ []
bytes_of (a ∷ b ∷ []) = (a * 4 + b / 16) ∷ []
bytes_of (a ∷ []) = []
bytes_of [] = []

-- The loop, on values.
decode_values : ℕ → ℕ → List ℕ → List ℕ
decode_values buffer bits [] = []
decode_values buffer bits (value ∷ values) =
    let next = shift_in buffer value in
    let rest = decode_values next (if leb 8 (bits + 6) then bits + 6 - 8 else bits + 6) values in
    if leb 8 (bits + 6) then high_byte next (bits + 6 - 8) ∷ rest else rest

on_values : (List ℕ → List ℕ) → Option (List ℕ) → Option (List ℕ)
on_values f none = none
on_values f (some values) = some (f values)

abbrev IsSmall : ℕ → Type 0
IsSmall value = value < 64

abbrev AreSmall : Option (List ℕ) → Type 0
AreSmall none = Unit
AreSmall (some values) = All IsSmall values
