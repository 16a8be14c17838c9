-- ===== src/Tests/Rotation.antt =====
-- A token that is pushed to a host (coold/src/grpc/host_jwt.rs).
use coold.Prelude.{
  if◌then◌else◌, String-discrete, string_eq, nat_eq, ◌==◌, contains, ok, is_whitespace, trim_start,
  trim_end, trim, ℕ, String, ◌≡◌, refl, true, Option, none, some, List, [], ◌∷◌,
}
use coold.Agent.Rules.{split, push}
use coold.Agent.HostJwt.{
  sextet, shift_in, high_byte, decode_from, base64url_decode, payload_of, TokenFile, private_file,
  write_host_jwt_atomic, validate_and_extract_sub, current_host_sub, differ, apply_host_jwt,
}

decoded_hi : base64url_decode "aGk_" ≡ some (104 ∷ 105 ∷ 63 ∷ [])
unfolding base64url_decode decode_from sextet shift_in high_byte native.Mathlib.Decide.ℕ_discrete
decoded_hi = refl

-- The subject is the host that the first byte names.
abbrev sub_of : List ℕ → Option String
sub_of [] = none
sub_of (byte ∷ bytes) = if byte == 104 then some "host-a" else some "host-b"

abbrev installed_token : TokenFile
installed_token = record { metadata = some private_file; contents = some "e30.aGk.c2ln" }

rotated :
    apply_host_jwt sub_of true " e30.aGk_.c2ln\n" installed_token
    ≡ (record { metadata = some private_file; contents = some "e30.aGk_.c2ln" }, ok true)
unfolding apply_host_jwt validate_and_extract_sub payload_of current_host_sub differ
    write_host_jwt_atomic split push trim trim_start trim_end is_whitespace contains
    base64url_decode decode_from sextet shift_in high_byte String-discrete
    native.Mathlib.Decide.ℕ_discrete
rotated = refl
