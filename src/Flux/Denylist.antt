-- ===== src/Flux/Denylist.antt =====
-- The endpoints of the denylist in flux/src/unix_bridge.rs: `revoke_token`, `unrevoke_token` and
-- `list_revocations`. `io` is whether a write of the denylist goes well.
use coold.Prelude.{
  if◌then◌else◌, string_eq, nat_eq, contains_key, lookup-insert, trim_is_empty, ℕ, String, ◌≡◌,
  Bool, true, false, Option, none, some, List, arith,
}
use coold.Flux.Revocation.{
  RevocationEntry, RevocationStore, list, persist, revoke, is_revoked, unrevoke,
}

-- What is answered, with the fields of the JSON body.
pub data Answer : Type 0 where
  revoked : String → Answer
  unrevoked : String → Bool → Answer
  -- the status and the text
  refused : ℕ → String → Answer

unfoldable pub revoke_token : Bool → String → Option ℕ → RevocationStore → RevocationStore × Answer
unfolding trim_is_empty revoke
revoke_token io jti expires_at s =
    let (s', written) = revoke io jti expires_at s in
    if trim_is_empty jti
    then (s, refused 400 "jti is required")
    else if written
    then (s', revoked jti)
    else (s', refused 500 "failed to persist revocation")

unfoldable pub unrevoke_token : Bool → String → RevocationStore → RevocationStore × Answer
unfolding unrevoke
unrevoke_token io jti s =
    let (s', removed) = unrevoke io jti s in
    elim removed [
      | some was_there ↦ (s', unrevoked jti was_there)
      | none ↦ (s', refused 500 "failed to persist revocation")
    ]

unfoldable pub list_revocations : RevocationStore → List RevocationEntry
unfolding list
list_revocations s = list s

-- A revocation that is not blank is in force at once, even if it could not be written, when the
-- caller gets an error.
revoke_token_lem :
    (io : Bool) (jti : String) (expires_at : Option ℕ) (s : RevocationStore)
    → trim_is_empty jti ≡ false
    → is_revoked (revoke_token io jti expires_at s).0 jti ≡ true
unfolding is_revoked revoke_token revoke persist contains_key
revoke_token_lem io jti expires_at s filled =
    ground (arith, lookup-insert jti jti expires_at s.inner)
