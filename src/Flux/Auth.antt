-- ===== src/Flux/Auth.antt =====
-- flux/src/auth.rs: the keys, the checks of a host's token, and the binding of a token to the
-- host that presents it. The token library (`jsonwebtoken`) is the parameter `JwtLibrary`; an
-- address is a value of a parameter `Ip`, read from text by `parse_ip`.
pub mod Binding
pub mod Verified
use coold.Prelude.{
  ltb, leb, if◌then◌else◌, Bool-cases, Option-cases, and_then, Eq, String-discrete, string_eq,
  nat_eq, ◌==◌, ==_iff, ==_refl, contains, length, length-append, filter, any, length-filter-le,
  All, Map, lookup, insert, remove, contains_key, HasKey, NodupKeys, lookup-insert, lookup-remove,
  insert-NodupKeys, remove-NodupKeys, remove_absent, length-insert, length-remove-le, map_laws,
  str_leb, insert_sorted, sort_by_key, lookup-sort_by_key, sort_by_key-NodupKeys, Result, ok, err,
  ◌>>=◌, Result-cases, ok_or, ok_only, is_empty, strip_prefix, starts_with, strip_suffix, ends_with,
  contains_text, is_whitespace, trim_is_empty, trim_start, trim_end, trim, trim_slashes,
  utf8_length, byte_length, all_chars, is_alphanumeric, take_until, take_until_text, after_text,
  after_last, ℕ, zero, suc, ◌+◌, ◌-◌, ◌*◌, ◌/◌, ◌%◌, ◌^◌, ◌≤◌, ◌<◌, min, String, ◌≡◌, refl, sym, ap,
  ◌∙◌, ◌≢◌, ◌↔◌, ◌⊎◌, inl, inr, ite, if_pos, if_neg, Bool, true, false, ◌&&◌, ◌||◌, not, Option,
  none, some, List, [], ◌∷◌, ◌++◌, map, arith,
}

abbrev pub default_kid : String
default_kid = "flux-default"

-- `jsonwebtoken::Algorithm`
pub data Algorithm : Type 0 where
  hs256 hs384 hs512 es256 es384 rs256 rs384 rs512 ps256 ps384 ps512 ed_dsa : Algorithm

pub record Header : Type 0 where
  pub alg : Algorithm
  pub kid : Option String

-- The fields of `Validation` that the source sets.
pub record Validation : Type 0 where
  pub algorithm : Algorithm
  pub aud : String
  pub leeway : ℕ

pub record Claims : Type 0 where
  pub sub : String
  pub caps : List String
  pub exp : ℕ
  pub jti : Option String
  pub team_id : Option String

pub record JwtLibrary : Type 1 where
  pub Key : Type 0
  pub decode_header : String → Option Header
  pub from_ec_pem : String → Option Key
  pub from_rsa_pem : String → Option Key
  pub decode : String → Key → Validation → Option Claims

pub record VerifiedJwt : Type 0 where
  pub host_id : String
  pub caps : List String
  pub exp : ℕ
  pub team_id : Option String

pub record JwtKeys : Type 0 where
  pub default_pem : String
  pub by_kid : Map String String

pub data KeyKind : Type 0 where
  ec rsa : KeyKind

-- One constructor for each message that `verify_jwt` fails with.
pub data AuthError : Type 0 where
  header_parse load_pubkey verification_failed : AuthError
  unknown_kid : String → AuthError
  alg_not_allowed : Algorithm → AuthError
  lifetime_exceeds : ℕ → ℕ → AuthError
  jti_revoked : String → AuthError

unfoldable pub resolve : JwtKeys → Option String → Result AuthError String
resolve keys none = ok keys.default_pem
resolve keys (some k) =
    if k == default_kid then ok keys.default_pem else ok_or (lookup k keys.by_kid) (unknown_kid k)

unfoldable pub seconds_until_expiry : ℕ → ℕ → ℕ
seconds_until_expiry exp now = exp - now

unfoldable pub token_expired : ℕ → ℕ → Bool
token_expired exp now = leb exp now

unfoldable pub lifetime_within_clamp : ℕ → ℕ → ℕ → Bool
unfolding seconds_until_expiry
lifetime_within_clamp exp now max_lifetime_secs =
    if max_lifetime_secs == 0 then true else leb (seconds_until_expiry exp now) max_lifetime_secs

unfoldable pub alg_allowed : KeyKind → Algorithm → Bool
alg_allowed ec es256 = true
alg_allowed ec es384 = true
alg_allowed rsa rs256 = true
alg_allowed rsa rs384 = true
alg_allowed rsa rs512 = true
alg_allowed rsa ps256 = true
alg_allowed rsa ps384 = true
alg_allowed rsa ps512 = true
alg_allowed _ _ = false

abbrev pub leeway_secs : ℕ
leeway_secs = 60

abbrev pub validation_of : Algorithm → Validation
validation_of alg = record { algorithm = alg; aud = "coold"; leeway = leeway_secs }

-- The checks of `verify_jwt` after the signature: the lifetime clamp and the denylist.
unfoldable pub accept_claims : Claims → (String → Bool) → ℕ → ℕ → Result AuthError VerifiedJwt
unfolding lifetime_within_clamp
accept_claims claims is_revoked now max_lifetime_secs =
    let accepted : Result AuthError VerifiedJwt = ok (record {
      host_id = claims.sub;
      caps = claims.caps;
      exp = claims.exp;
      team_id = claims.team_id;
    }) in
    if not (lifetime_within_clamp claims.exp now max_lifetime_secs)
    then err (lifetime_exceeds (seconds_until_expiry claims.exp now) max_lifetime_secs)
    else elim claims.jti [
      | none ↦ accepted
      | some jti ↦ if is_revoked jti then err (jti_revoked jti) else accepted
    ]

module _ (lib : JwtLibrary) where
  open lib use {Key, decode_header, from_ec_pem, from_rsa_pem, decode}

  -- The key of a PEM text, and its kind.
  unfoldable pub load_key : String → Result AuthError (Key × KeyKind)
  load_key pem = elim (from_ec_pem pem) [
    | some k ↦ ok (k, ec)
    | none ↦ elim (from_rsa_pem pem) [ some k ↦ ok (k, rsa) | none ↦ err load_pubkey ]
  ]

  -- The algorithm is checked against the kind of the key, and then the library decodes.
  unfoldable pub decode_with : String → Header → Key × KeyKind → Result AuthError Claims
  unfolding alg_allowed
  decode_with token header (key, kind) =
      if not (alg_allowed kind header.alg)
      then err (alg_not_allowed header.alg)
      else ok_or (decode token key (validation_of header.alg)) verification_failed

  unfoldable pub verify_jwt :
      String → JwtKeys → (String → Bool) → ℕ → ℕ → Result AuthError VerifiedJwt
  unfolding resolve load_key decode_with accept_claims
  verify_jwt token keys is_revoked now max_lifetime_secs = do
    header ← ok_or (decode_header token) header_parse
    pem ← resolve keys header.kid
    loaded ← load_key pem
    claims ← decode_with token header loaded
    accept_claims claims is_revoked now max_lifetime_secs

unfoldable pub team_id_satisfied : Option String → Bool → Bool
unfolding trim_is_empty
team_id_satisfied team_id required =
    if not required
    then true
    else elim team_id [ none ↦ false | some team ↦ not (trim_is_empty team) ]
