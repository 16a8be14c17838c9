-- ===== src/Agent/Client/Backoff.antt =====
-- The delays of the reconnection loop (`run` of coold/src/grpc/client.rs).
use coold.Prelude.{
  string_eq, nat_eq, All, Result-cases, ℕ, ◌≤◌, ◌≡◌, ◌⊎◌, inl, inr, List, [], ◌∷◌, arith,
}
use coold.Agent.Dial.{load_host_jwt, resolve_flux_url}
use coold.Agent.Client.{
  initial_reconnect_backoff, next_backoff_after_delay, backoff_after_clean_stream_close,
  retry_delay_for_error, Served, closed, failed, Surroundings, connect_and_serve, after_served,
  turn, turns,
}

-- A back-off is between a second and a minute.
abbrev pub IsBackoff : ℕ → Type 0
IsBackoff b = (1000 ≤ b) × (b ≤ 60000)

-- A delay is at least a second, and at most a minute or else a quarter of an hour.
abbrev pub IsDelay : ℕ → Type 0
IsDelay d = (1000 ≤ d) × ((d ≤ 60000) ⊎ (d ≡ 900000))

next_backoff_after_delay-IsBackoff : (d : ℕ) → 1000 ≤ d → IsBackoff (next_backoff_after_delay d)
next_backoff_after_delay-IsBackoff d low =
    unfold next_backoff_after_delay in (ground arith, ground arith)

after_served-IsBackoff :
    (served : Served) (b : ℕ)
    → IsBackoff b
    → IsDelay (after_served served b).0 × IsBackoff (after_served served b).1
after_served-IsBackoff (closed connected_for) b (low, high) =
    unfold after_served backoff_after_clean_stream_close in
    ground (arith, next_backoff_after_delay-IsBackoff b low)
after_served-IsBackoff (failed chain) b (low, high) =
    unfold after_served retry_delay_for_error in
    ground (
      arith,
      next_backoff_after_delay-IsBackoff b low,
      next_backoff_after_delay-IsBackoff 900000 (omega arith),
    )

waits-IsBackoff : (b : ℕ) → IsBackoff b → IsDelay b × IsBackoff (next_backoff_after_delay b)
waits-IsBackoff b (low, high) = ((low, inl high), next_backoff_after_delay-IsBackoff b low)

turn-IsBackoff :
    (env : Surroundings) (b : ℕ) → IsBackoff b → IsDelay (turn env b).0 × IsBackoff (turn env b).1
unfolding turn
turn-IsBackoff env b valid = elim (Result-cases (load_host_jwt env.metadata env.contents)) [
  | inr (e, refused) ↦ rw (refused, turn) (waits-IsBackoff b valid)
  | inl (jwt, token) ↦
      elim (Result-cases (resolve_flux_url env.post env.assignment_url env.flux_url jwt)) [
        | inr (e, unresolved) ↦ rw (token, unresolved, turn) (waits-IsBackoff b valid)
        | inl (url, found) ↦
            rw (token, found, turn) (after_served-IsBackoff (connect_and_serve env url jwt) b valid)
      ]
]

turns-IsBackoff :
    (envs : List Surroundings) (b : ℕ)
    → IsBackoff b
    → All IsDelay (turns envs b).0 × IsBackoff (turns envs b).1
unfolding turns
turns-IsBackoff [] b valid = (_, valid)
turns-IsBackoff (env ∷ envs) b valid =
    let (delay, next) = turn-IsBackoff env b valid in
    let (delays, last) = turns-IsBackoff envs (turn env b).1 next in ((delay, delays), last)

-- Whatever the agent meets, turn after turn, it never reconnects in less than a second: each
-- delay is between a second and a minute or is a quarter of an hour, and its back-off stays between
-- a second and a minute.
pub turns_bounded :
    (envs : List Surroundings)
    → All IsDelay (turns envs initial_reconnect_backoff).0
      × IsBackoff (turns envs initial_reconnect_backoff).1
turns_bounded envs = turns-IsBackoff envs 1000 (omega arith, omega arith)
