-- ===== src/Flux/Revocation/Durability.antt =====
-- The denylist (flux/src/revocation.rs) across writes, restarts and sweeps.
use coold.Prelude.{
  if◌then◌else◌, string_eq, nat_eq, ◌==◌, Map, lookup, insert, NodupKeys, lookup-insert,
  insert-NodupKeys, sort_by_key, lookup-sort_by_key, sort_by_key-NodupKeys, ℕ, String, ◌≡◌, refl,
  ap, ◌∙◌, Bool, true, false, Option, none, some, [], ◌∷◌, map, arith,
}
use coold.Flux.Revocation.{
  RevocationStore, still_counts, collect, load, list, persist, revoke, retain, prune,
}

-- What a lookup becomes when entries that are past are dropped.
abbrev pub still : ℕ → Option (Option ℕ) → Option (Option ℕ)
still now none = none
still now (some exp) = if still_counts now exp then some exp else none

lookup-collect :
    (now : ℕ) (j : String) (l : Map String (Option ℕ)) (m : Map String (Option ℕ))
    → NodupKeys l
    → lookup j (collect now (map (λ (jti, exp). record { jti = jti; expires_at = exp }) l) m)
      ≡ (elim (still now (lookup j l)) [ none ↦ lookup j m | some exp ↦ some exp ])
unfolding lookup collect
lookup-collect now j [] m d = refl
lookup-collect now j ((k, v) ∷ l) m d = ground (
  arith,
  lookup-collect now j l (insert k v m) d.1,
  lookup-collect now j l m d.1,
  lookup-insert k j v m,
)

lookup-retain :
    (now : ℕ) (j : String) (m : Map String (Option ℕ))
    → NodupKeys m
    → lookup j (retain now m) ≡ still now (lookup j m)
unfolding lookup retain
lookup-retain now j [] d = refl
lookup-retain now j ((k, v) ∷ m) d =
    ground (arith, lookup-retain now j m d.1, lookup-retain now k m d.1)

-- The store that a restart loads at time `now` from what `s` has on disk.
abbrev pub restart : ℕ → RevocationStore → RevocationStore
restart now s = load now s.file

reload :
    (now : ℕ) (j : String) (s : RevocationStore)
    → NodupKeys s.inner
    → s.path ≡ true
    → lookup j (restart now (persist true s).0).inner ≡ still now (lookup j s.inner)
unfolding persist load list
reload now j s d p = rw p (
    rw (lookup-collect now j (sort_by_key s.inner) [] (sort_by_key-NodupKeys s.inner d))
      (rw (lookup-sort_by_key j s.inner d) (unfold lookup in ground arith)))

-- `revoke` on a store with a file and no id twice, on both outcomes of the write. In memory the id is revoked
-- either way and no other id changes. If the write went well, a store that restarts at any time
-- `now` holds exactly the entries, the new one included, whose `expires_at` is not past; if it
-- failed, the caller is told, and the store that restarts is the one that would have without the call.
pub revoke_durable :
    (io : Bool) (jti : String) (exp : Option ℕ) (now : ℕ) (j : String) (s : RevocationStore)
    → NodupKeys s.inner
    → s.path ≡ true
    → (lookup j (revoke io jti exp s).0.inner ≡ (if jti == j then some exp else lookup j s.inner))
      × ((revoke io jti exp s).1 ≡ io)
      × (lookup j (restart now (revoke io jti exp s).0).inner ≡ (
          if io
          then still now (if jti == j then some exp else lookup j s.inner)
          else lookup j (restart now s).inner))
unfolding revoke
revoke_durable true jti exp now j s d p = (
  rw p (lookup-insert jti j exp s.inner),
  ground arith,
  reload now j (record s { inner = insert jti exp s.inner }) (insert-NodupKeys jti exp s.inner d) p
      ∙ ap (still now) (lookup-insert jti j exp s.inner),
)
revoke_durable false jti exp now j s d p =
    (rw p (lookup-insert jti j exp s.inner), ground arith, rw (p, persist) refl)

-- On a store with no id twice, the sweep of the denylist drops from memory exactly the entries
-- that are past, whether or not its write goes well; the others stay as they are.
pub lookup-prune :
    (io : Bool) (now : ℕ) (j : String) (s : RevocationStore)
    → NodupKeys s.inner
    → lookup j (prune io now s).0.inner ≡ still now (lookup j s.inner)
unfolding prune
lookup-prune io now j s d = ground (arith, lookup-retain now j s.inner d)
