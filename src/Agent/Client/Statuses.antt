-- ===== src/Agent/Client/Statuses.antt =====
-- The task that forwards status updates to flux (`connect_and_serve` of coold/src/grpc/client.rs),
-- and what `run` does before its loop.
use coold.Prelude.{
  if◌then◌else◌, string_eq, nat_eq, ok, err, ℕ, String, ◌≡◌, refl, ap, Bool, true, false, ◌&&◌,
  ◌||◌, Option, none, some, List, [], ◌∷◌,
}
use coold.Agent.Sync.{ResourceStatusUpdate}
use coold.Agent.Dial.{DialError, load_host_jwt}

-- What the broadcast channel gives: an update, or that some were skipped, or its end.
pub data Received : Type 0 where
  update : ResourceStatusUpdate → Received
  lagged : ℕ → Received
  closed : Received

-- The updates that are sent, and whether a resync is requested. `send` is whether the stream takes
-- the update; the task ends at the first one that it does not take.
unfoldable pub forward_statuses :
    (ResourceStatusUpdate → Bool) → List Received → List ResourceStatusUpdate × Bool
forward_statuses send [] = ([], false)
forward_statuses send (update u ∷ received) =
    let (sent, resync) = forward_statuses send received in
    if send u then (u ∷ sent, resync) else ([], false)
forward_statuses send (lagged skipped ∷ received) =
    let (sent, resync) = forward_statuses send received in (sent, true)
forward_statuses send (closed ∷ received) = ([], false)

-- The updates of what was received, and whether some were skipped.
updates_of : List Received → List ResourceStatusUpdate
updates_of [] = []
updates_of (update u ∷ received) = u ∷ updates_of received
updates_of (lagged skipped ∷ received) = updates_of received
updates_of (closed ∷ received) = []

some_skipped : List Received → Bool
some_skipped [] = false
some_skipped (update u ∷ received) = some_skipped received
some_skipped (lagged skipped ∷ received) = true
some_skipped (closed ∷ received) = false

-- While the stream takes everything, each update that was received is sent, in order, and a resync
-- is requested exactly if some were skipped.
forward_statuses_lem :
    (received : List Received)
    → forward_statuses (λ u. true) received ≡ (updates_of received, some_skipped received)
unfolding forward_statuses updates_of some_skipped
forward_statuses_lem [] = refl
forward_statuses_lem (update u ∷ received) =
    ap (λ (r : List ResourceStatusUpdate × Bool). (u ∷ r.0, r.1)) (forward_statuses_lem received)
forward_statuses_lem (lagged skipped ∷ received) =
    ap (λ (r : List ResourceStatusUpdate × Bool). (r.0, true)) (forward_statuses_lem received)
forward_statuses_lem (closed ∷ received) = refl

-- The start of `run`: nothing to do, a token that cannot be used, or the loop.
pub data Started : Type 0 where
  disabled looping : Started
  refused : DialError → Started

-- `is_none`
abbrev is_none : Option String → Bool
is_none none = true
is_none (some _) = false

unfoldable pub start : Bool → Option String → Option String → Option ℕ → Option String → Started
unfolding load_host_jwt
start grpc_disabled flux_url assignment_url metadata contents =
    if grpc_disabled || (is_none flux_url && is_none assignment_url)
    then disabled
    else (elim (load_host_jwt metadata contents) [ err e ↦ refused e | ok _ ↦ looping ])
