-- ===== src/Agent/HostJwt.antt =====
-- The rotation of the host's token, coold/src/grpc/host_jwt.rs. `sub_of_json` is what `serde_json`
-- finds as the text `sub` of an object; an error is a constructor in place of its text.
pub mod Base64
pub mod Rotation
use Prim.Native.Char.{code}
use Prim.Native.String
use coold.Prelude.{
  ltb, leb, if◌then◌else◌, Bool-cases, Option-cases, and_then, Eq, String-discrete, string_eq,
  nat_eq, ◌==◌, ==_iff, ==_refl, contains, length, length-append, filter, any, length-filter-le,
  All, Map, lookup, insert, remove, contains_key, HasKey, NodupKeys, lookup-insert, lookup-remove,
  insert-NodupKeys, remove-NodupKeys, remove_absent, length-insert, length-remove-le, map_laws,
  str_leb, insert_sorted, sort_by_key, lookup-sort_by_key, sort_by_key-NodupKeys, Result, ok, err,
  ◌>>=◌, Result-cases, ok_or, ok_only, is_empty, strip_prefix, starts_with, strip_suffix, ends_with,
  contains_text, is_whitespace, trim_is_empty, trim_start, trim_end, trim, trim_slashes,
  utf8_length, byte_length, all_chars, is_alphanumeric, take_until, take_until_text, after_text,
  after_last, ℕ, zero, suc, ◌+◌, ◌-◌, ◌*◌, ◌/◌, ◌%◌, ◌^◌, ◌≤◌, ◌<◌, min, String, ◌≡◌, refl, sym, ap,
  ◌∙◌, ◌≢◌, ◌↔◌, ◌⊎◌, inl, inr, ite, if_pos, if_neg, Bool, true, false, ◌&&◌, ◌||◌, not, Option,
  none, some, List, [], ◌∷◌, ◌++◌, map, arith,
}
use coold.Agent.Rules.{split}

-- A byte of the alphabet. A character that is not ASCII has no byte in it, so it has no value.
unfoldable pub sextet : ℕ → Option ℕ
sextet byte =
    if leb b'A' byte && leb byte b'Z'
    then some (byte - b'A')
    else if leb b'a' byte && leb byte b'z'
    then some (byte - b'a' + 26)
    else if leb b'0' byte && leb byte b'9'
    then some (byte - b'0' + 52)
    else if byte == b'-'
    then some 62
    else if byte == b'_'
    then some 63
    else none

-- `(buffer << 6) | sextet`, in 32 bits
unfoldable pub shift_in : ℕ → ℕ → ℕ
shift_in buffer value = buffer * 64 % 2 ^ 32 + value

-- `(buffer >> bits) as u8`
unfoldable pub high_byte : ℕ → ℕ → ℕ
high_byte buffer bits = buffer / 2 ^ bits % 256

-- The loop, from a buffer and the number of its bits that are not out yet.
unfoldable pub decode_from : ℕ → ℕ → String → Option (List ℕ)
unfolding sextet shift_in high_byte
decode_from buffer bits String.[] = some []
decode_from buffer bits (String.◌∷◌ c s) = elim (sextet (code c)) [
  | none ↦ none
  | some value ↦
      let next = shift_in buffer value in
      let rest = decode_from next (if leb 8 (bits + 6) then bits + 6 - 8 else bits + 6) s in
      if leb 8 (bits + 6)
      then (elim rest [ none ↦ none | some out ↦ some (high_byte next (bits + 6 - 8) ∷ out) ])
      else rest
]

unfoldable pub base64url_decode : String → Option (List ℕ)
unfolding decode_from
base64url_decode input = decode_from 0 0 input

pub data TokenError : Type 0 where
  empty_token not_three_segments bad_base64 other_host not_written : TokenError

-- The decoded payload of a token in three segments that are not empty.
unfoldable pub payload_of : List String → Result TokenError (List ℕ)
unfolding base64url_decode
payload_of (header ∷ payload ∷ signature ∷ []) =
    if is_empty header || (is_empty payload || is_empty signature)
    then err not_three_segments
    else do
      _ ← ok_or (base64url_decode header) bad_base64
      decoded ← ok_or (base64url_decode payload) bad_base64
      _ ← ok_or (base64url_decode signature) bad_base64
      ok decoded
payload_of _ = err not_three_segments

-- The file of the token: its mode, and its text if it can be read.
pub record TokenFile : Type 0 where
  pub metadata : Option ℕ
  pub contents : Option String

-- A regular file with the permissions 0600.
abbrev pub private_file : ℕ
private_file = 33152

-- `io` is whether every step of the write goes well, the rename being the last one.
unfoldable pub write_host_jwt_atomic :
    Bool → String → TokenFile → TokenFile × Result TokenError Bool
write_host_jwt_atomic io jwt file =
    if io
    then (record { metadata = some private_file; contents = some jwt }, ok true)
    else (file, err not_written)

module _ (sub_of_json : List ℕ → Option String) where
  unfoldable pub validate_and_extract_sub : String → Result TokenError (Option String)
  unfolding payload_of split
  validate_and_extract_sub jwt =
      if is_empty jwt
      then err empty_token
      else do decoded ← payload_of (split b'.' jwt); ok (sub_of_json decoded)

  abbrev flatten : Result TokenError (Option String) → Option String
  flatten (ok sub) = sub
  flatten (err _) = none

  unfoldable pub current_host_sub : TokenFile → Option String
  unfolding validate_and_extract_sub trim
  current_host_sub file = elim file.contents [
    | none ↦ none
    | some raw ↦ flatten (validate_and_extract_sub (trim raw))
  ]

  -- Both subjects are known and they differ.
  unfoldable pub differ : Option String → Option String → Bool
  differ none current = false
  differ (some new) none = false
  differ (some new) (some current) = not (current == new)

  unfoldable pub apply_host_jwt : Bool → String → TokenFile → TokenFile × Result TokenError Bool
  unfolding validate_and_extract_sub current_host_sub differ write_host_jwt_atomic trim
  apply_host_jwt io new_jwt file = elim (validate_and_extract_sub (trim new_jwt)) [
    | err e ↦ (file, err e)
    | ok new_sub ↦
        if differ new_sub (current_host_sub file)
        then (file, err other_host)
        else write_host_jwt_atomic io (trim new_jwt) file
  ]
