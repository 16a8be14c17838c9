-- ===== src/Flux/Revocation/Leeway.antt =====
-- The sweep of the denylist (flux/src/revocation.rs) against the leeway of the token's expiry
-- (flux/src/auth.rs).
use coold.Prelude.{
  string_eq, nat_eq, lookup, NodupKeys, ok, err, ℕ, ◌≤◌, String, ◌≡◌, Bool, true, false, some,
  arith,
}
use coold.Flux.Auth.{
  Header, Claims, JwtLibrary, JwtKeys, KeyKind, jti_revoked, resolve, alg_allowed, validation_of,
  accept_claims, load_key, decode_with, verify_jwt,
}
use coold.Flux.Revocation.{RevocationStore, still_counts, is_revoked, prune}
use coold.Flux.Revocation.Durability.{lookup-prune}

module _ (lib : JwtLibrary) where
  open lib use {Key, decode_header, decode}

  -- A token that is on the denylist with its own expiry, where that has passed and the library
  -- still accepts the token within its leeway, is refused before the sweep of the denylist and
  -- accepted after it.
  pub sweep_revives_token :
      (token pem jti : String) (keys : JwtKeys) (header : Header) (key : Key) (kind : KeyKind)
      (claims : Claims) (s : RevocationStore) (io : Bool) (now max : ℕ)
      → decode_header token ≡ some header
      → resolve keys header.kid ≡ ok pem
      → load_key lib pem ≡ ok (key, kind)
      → alg_allowed kind header.alg ≡ true
      → decode token key (validation_of header.alg) ≡ some claims
      → claims.jti ≡ some jti
      → claims.exp ≤ now
      → NodupKeys s.inner
      → lookup jti s.inner ≡ some (some claims.exp)
      → (verify_jwt lib token keys (is_revoked s) now max ≡ err (jti_revoked jti))
        × (verify_jwt lib token keys (is_revoked (prune io now s).0) now max
            ≡ ok (record {
              host_id = claims.sub;
              caps = claims.caps;
              exp = claims.exp;
              team_id = claims.team_id;
            }))
  unfolding verify_jwt decode_with accept_claims
  sweep_revives_token token pem jti keys header key kind claims s io now max p q r a d j past dup
        h =
      (ground (arith, revoked_before), ground (arith, revoked_after))
    where
      revoked_before : is_revoked s jti ≡ true
      revoked_before = unfold is_revoked in ground arith

      revoked_after : is_revoked (prune io now s).0 jti ≡ false
      revoked_after =
          unfold is_revoked still_counts in ground (arith, lookup-prune io now jti s dup)
