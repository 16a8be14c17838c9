-- ===== src/Tests/Maps.antt =====
-- The capabilities, the denylist, the pending map and the map of streams on small inputs
-- (flux/src/main.rs, flux/src/revocation.rs, flux/src/state.rs).
use coold.Prelude.{
  if◌then◌else◌, String-discrete, string_eq, nat_eq, ◌==◌, lookup, ℕ, String, ◌≡◌, refl, true, none,
  some, List, [], ◌∷◌, arith,
}
use coold.Flux.Revocation.{RevocationStore, revoke}
use coold.Flux.Revocation.Durability.{still, restart, revoke_durable}
use coold.Flux.Pending.{coold_kind, Pending, fresh_entry, drain_expired}
use coold.Flux.Pending.Bounds.{
  Call, insert_call, park_call, deliver_call, drain_call, IsValid, calls, calls-IsValid,
}
use coold.Flux.Pending.Expiry.{left_of, reported_of, drain_expired_exact}

abbrev denied : RevocationStore
denied = record { inner = ("old", some 10) ∷ ("forever", none) ∷ []; path = true; file = none }

abbrev the_jti : String
the_jti = "new"

revoke_durable_example :
    (lookup "new" (revoke true "new" (some 50) denied).0.inner
      ≡ (if the_jti == the_jti then some (some 50) else lookup "new" denied.inner))
    × ((revoke true "new" (some 50) denied).1 ≡ true)
    × (lookup "new" (restart 20 (revoke true "new" (some 50) denied).0).inner
        ≡ still 20 (if the_jti == the_jti then some (some 50) else lookup "new" denied.inner))
unfolding lookup String-discrete
revoke_durable_example = revoke_durable true "new" (some 50) 20 "new" denied (refl, (refl, tt)) refl

abbrev busy : Pending ℕ
busy = ("r1", fresh_entry "h1" coold_kind 0) ∷ ("r2", fresh_entry "h2" coold_kind 90) ∷ []

abbrev traffic : List (Call ℕ)
traffic =
    insert_call "r3" "h1" coold_kind 95
    ∷ park_call "r1" 4
    ∷ deliver_call "r1" 5 96
    ∷ drain_call 60 100
    ∷ []

busy-IsValid : IsValid 2 busy
unfolding lookup String-discrete
busy-IsValid = record { within = omega arith; distinct = (refl, (refl, tt)) }

calls-IsValid_example : IsValid 2 (calls 2 traffic busy)
calls-IsValid_example = calls-IsValid 2 traffic busy busy-IsValid

drain_expired_exact_example :
    (lookup "r1" (drain_expired 60 100 busy).0 ≡ left_of 60 100 (lookup "r1" busy))
    × (lookup "r1" (drain_expired 60 100 busy).1 ≡ reported_of 60 100 (lookup "r1" busy))
drain_expired_exact_example = drain_expired_exact 60 100 "r1" busy busy-IsValid.distinct
