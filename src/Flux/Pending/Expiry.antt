-- ===== src/Flux/Pending/Expiry.antt =====
-- What `Pending::drain_expired` of flux/src/state.rs removes and reports.
use coold.Prelude.{
  ltb, if◌then◌else◌, string_eq, nat_eq, contains, length, lookup, remove, NodupKeys, lookup-remove,
  remove-NodupKeys, length-remove-le, ℕ, ◌-◌, ◌≤◌, String, ◌≡◌, refl, ◌∙◌, Bool, false, Option,
  none, some, List, [], ◌∷◌, arith,
}
use mathlib.Core.Option
use coold.Flux.Pending.{
  waiting, landed, PendingEntry, PendingSnapshot, Pending, snapshot_of, is_expired, expired_ids,
  remove_all, drain_expired,
}

module _ {Body : Type 0} where
  abbrev expired_at : ℕ → ℕ → Option (PendingEntry Body) → Bool
  expired_at t now none = false
  expired_at t now (some e) = is_expired t now e

  expired_ids-absent :
      (t now : ℕ) (j : String) (p : Pending Body)
      → lookup j p ≡ none
      → contains (expired_ids t now p) j ≡ false
  unfolding lookup expired_ids contains
  expired_ids-absent t now j [] h = refl
  expired_ids-absent t now j ((k, e) ∷ p) h = ground (arith, expired_ids-absent t now j p)

  contains-expired_ids :
      (t now : ℕ) (j : String) (p : Pending Body)
      → NodupKeys p
      → contains (expired_ids t now p) j ≡ expired_at t now (lookup j p)
  unfolding lookup expired_ids contains
  contains-expired_ids t now j [] d = refl
  contains-expired_ids t now j ((k, e) ∷ p) d =
      ground (arith, contains-expired_ids t now j p d.1, expired_ids-absent t now j p)

  lookup-remove_all :
      (j : String) (ids : List String) (p : Pending Body)
      → lookup j (remove_all ids p).0 ≡ (if contains ids j then none else lookup j p)
  unfolding remove_all contains
  lookup-remove_all j [] p = refl
  lookup-remove_all j (id ∷ ids) p =
      ground (arith, lookup-remove_all j ids (remove id p), lookup-remove id j p)

  reported-remove_all :
      (j : String) (ids : List String) (p : Pending Body)
      → lookup j (remove_all ids p).1
        ≡ (if contains ids j then Option.map snapshot_of (lookup j p) else none)
  unfolding remove_all contains lookup
  reported-remove_all j [] p = refl
  reported-remove_all j (id ∷ ids) p =
      ground (arith, reported-remove_all j ids (remove id p), lookup-remove id j p)

  -- What is to be left of an entry, and what is to be reported of it: an entry that waits goes once
  -- it is `t` old, a landed one at its `until`.
  abbrev pub left_of : ℕ → ℕ → Option (PendingEntry Body) → Option (PendingEntry Body)
  left_of t now none = none
  left_of t now (some e) = elim e.state [
    | waiting _ ↦ if ltb (now - e.started_at) t then some e else none
    | landed _ until ↦ if ltb now until then some e else none
  ]

  abbrev pub reported_of : ℕ → ℕ → Option (PendingEntry Body) → Option PendingSnapshot
  reported_of t now none = none
  reported_of t now (some e) = elim e.state [
    | waiting _ ↦ if ltb (now - e.started_at) t then none else some (snapshot_of e)
    | landed _ until ↦ if ltb now until then none else some (snapshot_of e)
  ]

  left_of-is_expired :
      (t now : ℕ) (e : PendingEntry Body)
      → left_of t now (some e) ≡ (if is_expired t now e then none else some e)
  unfolding is_expired
  left_of-is_expired t now e = ground arith

  reported_of-is_expired :
      (t now : ℕ) (e : PendingEntry Body)
      → reported_of t now (some e) ≡ (if is_expired t now e then some (snapshot_of e) else none)
  unfolding is_expired
  reported_of-is_expired t now e = ground arith

  drained :
      (t now : ℕ) (o : Option (PendingEntry Body))
      → ((if expired_at t now o then none else o) ≡ left_of t now o)
        × ((if expired_at t now o then Option.map snapshot_of o else none) ≡ reported_of t now o)
  drained t now none = (refl, refl)
  drained t now (some e) =
      (ground (arith, left_of-is_expired t now e), ground (arith, reported_of-is_expired t now e))

  -- On a map with no id twice, `drain_expired` leaves every entry that has not expired, removes every entry that has, and
  -- reports exactly the removed ones, each with its host and kind. An entry that waits has
  -- expired once it is `coold_timeout` old, a landed one at its `until`.
  pub drain_expired_exact :
      (t now : ℕ) (j : String) (p : Pending Body)
      → NodupKeys p
      → (lookup j (drain_expired t now p).0 ≡ left_of t now (lookup j p))
        × (lookup j (drain_expired t now p).1 ≡ reported_of t now (lookup j p))
  unfolding drain_expired
  drain_expired_exact t now j p d =
      let (left, reported) = drained t now (lookup j p) in
      let found = contains-expired_ids t now j p d in
      (
        (lookup-remove_all j (expired_ids t now p) p ∙ (rw found refl)) ∙ left,
        (reported-remove_all j (expired_ids t now p) p ∙ (rw found refl)) ∙ reported,
      )

  remove_all-length :
      (ids : List String) (p : Pending Body) → length (remove_all ids p).0 ≤ length p
  unfolding remove_all
  remove_all-length [] p = omega arith
  remove_all-length (id ∷ ids) p =
      ground (arith, remove_all-length ids (remove id p), length-remove-le id p)

  pub length-drain_expired-le :
      (t now : ℕ) (p : Pending Body) → length (drain_expired t now p).0 ≤ length p
  unfolding drain_expired
  length-drain_expired-le t now p = remove_all-length (expired_ids t now p) p

  remove_all-NodupKeys :
      (ids : List String) (p : Pending Body) → NodupKeys p → NodupKeys (remove_all ids p).0
  unfolding remove_all
  remove_all-NodupKeys [] p d = d
  remove_all-NodupKeys (id ∷ ids) p d =
      ground (arith, remove_all-NodupKeys ids (remove id p) (remove-NodupKeys id p d))

  pub drain_expired-NodupKeys :
      (t now : ℕ) (p : Pending Body) → NodupKeys p → NodupKeys (drain_expired t now p).0
  unfolding drain_expired
  drain_expired-NodupKeys t now p = remove_all-NodupKeys (expired_ids t now p) p
