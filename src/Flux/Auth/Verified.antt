-- ===== src/Flux/Auth/Verified.antt =====
-- What `verify_jwt` (flux/src/auth.rs) has established of a token that it accepts.
use coold.Prelude.{
  Bool-cases, Option-cases, string_eq, nat_eq, ok, Result-cases, ℕ, ◌+◌, ◌≤◌, String, ◌≡◌, ap, ◌⊎◌,
  inl, inr, Bool, true, false, Option, none, some, arith,
}
use coold.Flux.Auth.{
  Algorithm, es256, es384, rs256, rs384, rs512, ps256, ps384, ps512, Header, Claims, JwtLibrary,
  VerifiedJwt, JwtKeys, KeyKind, ec, rsa, resolve, seconds_until_expiry, alg_allowed, validation_of,
  accept_claims, load_key, decode_with, verify_jwt,
}

module _ (lib : JwtLibrary) where
  open lib use {Key, decode_header, from_ec_pem, from_rsa_pem, decode}

  -- The algorithms that may sign for a key: elliptic curves with an EC key, RSA with an RSA key.
  abbrev pub Fits : KeyKind → Algorithm → Type 0
  Fits ec alg = (alg ≡ es256) ⊎ (alg ≡ es384)
  Fits rsa alg =
      (alg ≡ rs256) ⊎ (alg ≡ rs384) ⊎ (alg ≡ rs512) ⊎ (alg ≡ ps256) ⊎ (alg ≡ ps384) ⊎ (alg ≡ ps512)

  alg_allowed-Fits :
      (kind : KeyKind) (alg : Algorithm) → alg_allowed kind alg ≡ true → Fits kind alg
  unfolding alg_allowed
  alg_allowed-Fits ec alg h = ground arith
  alg_allowed-Fits rsa alg h = ground arith

  abbrev pub is_denied : (String → Bool) → Option String → Bool
  is_denied is_revoked none = false
  is_denied is_revoked (some jti) = is_revoked jti

  -- The evidence behind an accepted token.
  pub record Grounds (token : String) (keys : JwtKeys) (is_revoked : String → Bool) (now max : ℕ)
      (v : VerifiedJwt) : Type 0 where
    pub header : Header
    pub pem : String
    pub key : Key
    pub kind : KeyKind
    pub claims : Claims
    pub parsed : decode_header token ≡ some header
    pub chosen : resolve keys header.kid ≡ ok pem
    pub loaded : load_key lib pem ≡ ok (key, kind)
    pub fits : Fits kind header.alg
    pub signed : decode token key (validation_of header.alg) ≡ some claims
    pub clamped : (max ≡ 0) ⊎ (claims.exp ≤ now + max)
    pub live : is_denied is_revoked claims.jti ≡ false
    pub subject : v.host_id ≡ claims.sub
    pub granted : v.caps ≡ claims.caps
    pub expiry : v.exp ≡ claims.exp
    pub tenant : v.team_id ≡ claims.team_id

  accept_claims_grounds :
      (claims : Claims) (is_revoked : String → Bool) (now max : ℕ) (v : VerifiedJwt)
      → accept_claims claims is_revoked now max ≡ ok v
      → ((max ≡ 0) ⊎ (claims.exp ≤ now + max))
        × (is_denied is_revoked claims.jti ≡ false)
        × (v ≡ record {
          host_id = claims.sub;
          caps = claims.caps;
          exp = claims.exp;
          team_id = claims.team_id;
        })
  unfolding accept_claims seconds_until_expiry
  accept_claims_grounds claims is_revoked now max v h = (ground arith, ground arith, ground arith)

  decode_with_grounds :
      (token : String) (header : Header) (key : Key) (kind : KeyKind) (claims : Claims)
      → decode_with lib token header (key, kind) ≡ ok claims
      → Fits kind header.alg × (decode token key (validation_of header.alg) ≡ some claims)
  unfolding decode_with
  decode_with_grounds token header key kind claims h =
      elim (Bool-cases (alg_allowed kind header.alg)) [
        | inl allowed ↦ (alg_allowed-Fits kind header.alg allowed, ground arith)
        | inr refused ↦ absurd (ground arith)
      ]

  pub verify_jwt-Grounds :
      (token : String) (keys : JwtKeys) (is_revoked : String → Bool) (now max : ℕ) (v : VerifiedJwt)
      → verify_jwt lib token keys is_revoked now max ≡ ok v
      → Grounds token keys is_revoked now max v
  unfolding verify_jwt
  verify_jwt-Grounds token keys is_revoked now max v h = elim (Option-cases (decode_header token)) [
    | inl miss ↦ absurd (ground arith)
    | inr (header, p) ↦ elim (Result-cases (resolve keys header.kid)) [
      | inr (e, q) ↦ absurd (ground arith)
      | inl (pem, q) ↦ elim (Result-cases (load_key lib pem)) [
        | inr (e, r) ↦ absurd (ground arith)
        | inl ((key, kind), r) ↦ elim (Result-cases (decode_with lib token header (key, kind))) [
          | inr (e, d) ↦ absurd (ground arith)
          | inl (claims, d) ↦
              let (fits, signed) = decode_with_grounds token header key kind claims d in
              let (clamped, live, result) =
                accept_claims_grounds claims is_revoked now max v (ground arith) in
              record {
                header = header;
                pem = pem;
                key = key;
                kind = kind;
                claims = claims;
                parsed = p;
                chosen = q;
                loaded = r;
                fits = fits;
                signed = signed;
                clamped = clamped;
                live = live;
                subject = ap (λ (x : VerifiedJwt). x.host_id) result;
                granted = ap (λ (x : VerifiedJwt). x.caps) result;
                expiry = ap (λ (x : VerifiedJwt). x.exp) result;
                tenant = ap (λ (x : VerifiedJwt). x.team_id) result;
              }
        ]
      ]
    ]
  ]
