-- ===== src/Flux/Streams/Reports.antt =====
-- The heartbeat loop over `Streams` (flux/src/state.rs, `coold_heartbeat` of flux/src/main.rs): how
-- often a host is reported as unreachable.
use coold.Prelude.{
  if◌then◌else◌, Option-cases, string_eq, nat_eq, ◌==◌, contains, lookup, NodupKeys, lookup-insert,
  lookup-remove, insert-NodupKeys, remove-NodupKeys, ℕ, ◌+◌, ◌-◌, ◌≤◌, String, ◌≡◌, ◌↔◌, inl, inr,
  true, none, some, List, [], ◌∷◌, arith,
}
use coold.Flux.Streams.{
  StreamHandle, StreamEntry, Streams, entry_of, insert_stream, update_capabilities, remove_stream,
  touch, is_stale, mark_stale_entries, stale_hosts,
}
use coold.Flux.Streams.Liveness.{
  lookup-mark_stale_entries, Reported, stale_hosts-lookup, mark_stale_entries-NodupKeys,
}

-- The calls that other parts make on the shared map, in any order.
pub data Event (Tx : Type 0) : Type 0 where
  connect : String → StreamHandle Tx → ℕ → Event Tx
  recap : String → List String → Event Tx
  disconnect : String → Event Tx
  pong : String → ℕ → Event Tx
  sweep : ℕ → ℕ → Event Tx

module _ {Tx : Type 0} where
  unfoldable pub step : Event Tx → Streams Tx → Streams Tx
  unfolding insert_stream update_capabilities remove_stream touch
  step (connect h handle now) s = insert_stream h handle now s
  step (recap h caps) s = update_capabilities h caps s
  step (disconnect h) s = remove_stream h s
  step (pong h now) s = (touch h now s).0
  step (sweep timeout now) s = mark_stale_entries timeout now s

  pub step-NodupKeys : (v : Event Tx) (s : Streams Tx) → NodupKeys s → NodupKeys (step v s)
  unfolding step
  step-NodupKeys (connect h handle now) s d = insert-NodupKeys h _ s d
  step-NodupKeys (recap h caps) s d = elim (Option-cases (lookup h s)) [
    | inl miss ↦ rw (miss, update_capabilities) d
    | inr (e, hit) ↦ rw (hit, update_capabilities) (insert-NodupKeys h _ s d)
  ]
  step-NodupKeys (disconnect h) s d = remove-NodupKeys h s d
  step-NodupKeys (pong h now) s d = elim (Option-cases (lookup h s)) [
    | inl miss ↦ ground arith
    | inr (e, hit) ↦
        ground
          (arith, hit, insert-NodupKeys h (record e { last_seen_at = now; reachable = true }) s d)
  ]
  step-NodupKeys (sweep timeout now) s d = mark_stale_entries-NodupKeys timeout now s d

  -- 1 if the host is connected and taken to be reachable
  unfoldable pub alive : String → Streams Tx → ℕ
  alive h s = elim (lookup h s) [ none ↦ 0 | some e ↦ if e.reachable then 1 else 0 ]

  -- 1 if the event reports the host as unreachable
  unfoldable pub reports : String → Event Tx → Streams Tx → ℕ
  reports h (sweep timeout now) s = if contains (stale_hosts timeout now s) h then 1 else 0
  reports h _ s = 0

  -- 1 if the event connects the host, or is a pong for which `touch` says that it is back
  unfoldable pub revivals : String → Event Tx → Streams Tx → ℕ
  revivals h (connect k handle now) s = if k == h then 1 else 0
  revivals h (pong k now) s = if k == h then (if (touch k now s).1 then 1 else 0) else 0
  revivals h _ s = 0

  step_balance :
      (h : String) (v : Event Tx) (s : Streams Tx)
      → NodupKeys s
      → reports h v s + alive h (step v s) ≤ alive h s + revivals h v s
  unfolding step alive reports revivals is_stale
  step_balance h (connect k handle now) s d =
      ground (arith, lookup-insert k h (entry_of handle now) s)
  step_balance h (recap k caps) s d = elim (Option-cases (lookup k s)) [
    | inl miss ↦ rw (miss, update_capabilities) (omega arith)
    | inr (e, hit) ↦
        rw (hit, update_capabilities)
          (ground (arith, hit, lookup-insert k h (record e { caps = caps }) s))
  ]
  step_balance h (disconnect k) s d = ground (arith, lookup-remove k h s)
  step_balance h (pong k now) s d = elim (Option-cases (lookup k s)) [
    | inl miss ↦ rw (miss, touch) (ground arith)
    | inr (e, hit) ↦
        rw (hit, touch)
          (ground
            (arith, hit, lookup-insert k h (record e { last_seen_at = now; reachable = true }) s))
  ]
  step_balance h (sweep timeout now) s d =
      ground
        (arith, lookup-mark_stale_entries timeout now h s, stale_hosts-lookup timeout now h s d)

  unfoldable pub run : List (Event Tx) → Streams Tx → Streams Tx
  unfolding step
  run [] s = s
  run (v ∷ vs) s = run vs (step v s)

  unfoldable pub count_reports : String → List (Event Tx) → Streams Tx → ℕ
  unfolding step reports
  count_reports h [] s = 0
  count_reports h (v ∷ vs) s = reports h v s + count_reports h vs (step v s)

  unfoldable pub count_revivals : String → List (Event Tx) → Streams Tx → ℕ
  unfolding step revivals
  count_revivals h [] s = 0
  count_revivals h (v ∷ vs) s = revivals h v s + count_revivals h vs (step v s)

  -- Over any sequence of calls, from a map with no host twice, a host is reported as unreachable at most once for each time that
  -- it connects or comes back, and once more if it was reachable at the start.
  reports-le-revivals :
      (h : String) (vs : List (Event Tx)) (s : Streams Tx)
      → NodupKeys s
      → count_reports h vs s + alive h (run vs s) ≤ alive h s + count_revivals h vs s
  unfolding run count_reports count_revivals
  reports-le-revivals h [] s d = omega arith
  reports-le-revivals h (v ∷ vs) s d =
      omega
        (arith, step_balance h v s d, reports-le-revivals h vs (step v s) (step-NodupKeys v s d))

  -- On a map with no host twice, a sweep reports a host exactly if it is connected, was reachable, and was last heard of
  -- `timeout` or longer ago.
  sweep_exact :
      (timeout now : ℕ) (h : String) (s : Streams Tx)
      → NodupKeys s
      → (Reported timeout now h s) ↔ (
          (e : StreamEntry Tx) × (lookup h s ≡ some e)
          × (e.reachable ≡ true)
          × (timeout ≤ now - e.last_seen_at))
  unfolding is_stale
  sweep_exact timeout now h s d = (
    λ r. elim (Option-cases (lookup h s)) [
      | inl miss ↦ absurd (ground (arith, stale_hosts-lookup timeout now h s d))
      | inr (e, hit) ↦ (
        e,
        hit,
        ground (arith, stale_hosts-lookup timeout now h s d),
        ground (arith, stale_hosts-lookup timeout now h s d),
      )
    ],
    λ (e, hit, r, t). ground (arith, stale_hosts-lookup timeout now h s d),
  )
