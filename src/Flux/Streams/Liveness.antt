-- ===== src/Flux/Streams/Liveness.antt =====
-- What the liveness marks of `Streams` (flux/src/state.rs) mean.
use mathlib.Core.Option
use coold.Prelude.{
  if◌then◌else◌, string_eq, nat_eq, contains, lookup, NodupKeys, ℕ, String, ◌≡◌, refl, true, false,
  none, some, [], ◌∷◌, arith,
}
use coold.Flux.Streams.{StreamEntry, Streams, is_stale, mark_stale_entries, stale_hosts}

module _ {Tx : Type 0} where
  -- What a sweep does to one entry.
  abbrev pub swept : ℕ → ℕ → StreamEntry Tx → StreamEntry Tx
  swept timeout now e = if is_stale timeout now e then record e { reachable = false } else e

  pub lookup-mark_stale_entries :
      (timeout now : ℕ) (h : String) (s : Streams Tx)
      → lookup h (mark_stale_entries timeout now s) ≡ Option.map (swept timeout now) (lookup h s)
  unfolding lookup mark_stale_entries
  lookup-mark_stale_entries timeout now h [] = ground arith
  lookup-mark_stale_entries timeout now h ((k, f) ∷ s) =
      ground (arith, lookup-mark_stale_entries timeout now h s)

  -- the host is reported
  abbrev pub Reported : ℕ → ℕ → String → Streams Tx → Type 0
  Reported timeout now h s = contains (stale_hosts timeout now s) h ≡ true

  reported-absent :
      (timeout now : ℕ) (h : String) (s : Streams Tx)
      → lookup h s ≡ none
      → contains (stale_hosts timeout now s) h ≡ false
  unfolding lookup stale_hosts contains
  reported-absent timeout now h [] p = refl
  reported-absent timeout now h ((k, f) ∷ s) p = ground (arith, reported-absent timeout now h s)

  pub stale_hosts-lookup :
      (timeout now : ℕ) (h : String) (s : Streams Tx)
      → NodupKeys s
      → contains (stale_hosts timeout now s) h
        ≡ (elim (lookup h s) [ none ↦ false | some e ↦ is_stale timeout now e ])
  unfolding lookup stale_hosts contains
  stale_hosts-lookup timeout now h [] d = refl
  stale_hosts-lookup timeout now h ((k, f) ∷ s) d =
      ground (arith, stale_hosts-lookup timeout now h s d.1, reported-absent timeout now h s)

  pub mark_stale_entries-NodupKeys :
      (timeout now : ℕ) (s : Streams Tx)
      → NodupKeys s
      → NodupKeys (mark_stale_entries timeout now s)
  unfolding mark_stale_entries
  mark_stale_entries-NodupKeys timeout now [] d = tt
  mark_stale_entries-NodupKeys timeout now ((k, f) ∷ s) d = (
    rw (lookup-mark_stale_entries timeout now k s, d.0) refl,
    mark_stale_entries-NodupKeys timeout now s d.1,
  )
