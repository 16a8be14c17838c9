-- ===== src/Flux/Bridge/Dispatch.antt =====
-- What the dispatch handler (flux/src/unix_bridge.rs) leaves pending, and how that is answered.
use coold.Prelude.{
  if◌then◌else◌, Option-cases, string_eq, nat_eq, ◌==◌, lookup, insert, lookup-insert,
  lookup-remove, ℕ, String, ◌≡◌, refl, inl, inr, Option, none, some, [], ◌∷◌, arith,
}
use coold.Flux.Streams.{Streams}
use coold.Flux.Pending.{coold_kind, waiting, PendingEntry, Pending, fresh_entry}
use coold.Flux.Pending.Lookup.{lookup-deliver, sent-deliver}
use coold.Flux.Envelope.{DispatchEnvelope, ResponseBody}
use coold.Flux.Routing.Messages.{ServerMsg}
use coold.Flux.Routing.{RouteOutcome, send_coold, push_error, route_coold}
use coold.Flux.Routing.Outcomes.{route_coold_sends}
use coold.Flux.Session.{deliver_response}
use coold.Flux.Bridge.{
  SendResult, Progress, replied, forwarded, forward, park_and_forward, enqueue, coold_dispatch,
}

module _ {Tx Json : Type 0} (try_send : Tx → ServerMsg → SendResult) where
  -- The entry of a dispatch that waits for its answer on `rx`.
  abbrev pub waiting_entry : String → ℕ → ℕ → PendingEntry (ResponseBody Json)
  waiting_entry target now rx = record {
    host_id = target;
    kind = coold_kind;
    started_at = now;
    state = waiting (rx ∷ []);
  }

  -- What a handler that started from `p` leaves at `j`, by how it went on.
  abbrev pub left_at :
      String
      → String
      → String
      → ℕ
      → Pending (ResponseBody Json)
      → Progress Json
      → Option (PendingEntry (ResponseBody Json))
  left_at j id target now p r = elim r [
    | replied _ ↦ lookup j p
    | forwarded rx _ ↦ if id == j then some (waiting_entry target now rx) else lookup j p
  ]

  forward-left_at :
      (j : String) (later : Streams Tx) (id target : String) (msg : ServerMsg) (now rx : ℕ)
      (p q : Pending (ResponseBody Json))
      → lookup id p ≡ none
      → lookup j q ≡ (if id == j then some (waiting_entry target now rx) else lookup j p)
      → lookup j (forward try_send later id target msg rx q).0
        ≡ left_at j id target now p (forward try_send later id target msg rx q).1
  unfolding forward
  forward-left_at j later id target msg now rx p q fresh at = ground (arith, lookup-remove id j q)

  park_and_forward_fresh :
      (later : Streams Tx) (id target : String) (msg : ServerMsg) (now rx : ℕ)
      (q : Pending (ResponseBody Json))
      → lookup id q ≡ some (fresh_entry target coold_kind now)
      → park_and_forward try_send later id target msg rx q
        ≡ forward try_send later id target msg rx (insert id (waiting_entry target now rx) q)
  park_and_forward_fresh later id target msg now rx q h = unfold park_and_forward in ground arith

  park_and_forward-left_at :
      (j : String) (later : Streams Tx) (id target : String) (msg : ServerMsg) (now rx : ℕ)
      (p q : Pending (ResponseBody Json))
      → lookup id p ≡ none
      → q ≡ insert id (fresh_entry target coold_kind now) p
      → lookup j (park_and_forward try_send later id target msg rx q).0
        ≡ left_at j id target now p (park_and_forward try_send later id target msg rx q).1
  park_and_forward-left_at j later id target msg now rx p q fresh e =
      let new : PendingEntry (ResponseBody Json) = fresh_entry target coold_kind now in
      rw
        (park_and_forward_fresh later id target msg now rx q
          (ground (arith, lookup-insert id id new p)))
        (forward-left_at j later id target msg now rx p (insert id (waiting_entry target now rx) q)
          fresh
          (ground
            (arith, lookup-insert id j (waiting_entry target now rx) q, lookup-insert id j new p)))

  enqueue-left_at :
      (j : String) (later : Streams Tx) (max now rx : ℕ) (id target : String) (msg : ServerMsg)
      (p : Pending (ResponseBody Json))
      → lookup j (enqueue try_send later max now rx id target msg p).0
        ≡ left_at j id target now p (enqueue try_send later max now rx id target msg p).1
  unfolding enqueue
  enqueue-left_at j later max now rx id target msg p = elim (Option-cases (lookup id p)) [
    | inr (e, hit) ↦ ground arith
    | inl fresh ↦ ground (
      arith,
      park_and_forward-left_at j later id target msg now rx p
          (insert id (fresh_entry target coold_kind now) p) fresh refl,
    )
  ]

  -- Where a dispatch is answered at once, the pending dispatches are what they were; where its
  -- command was forwarded, they are what they were and the new one, which waits for its answer on
  -- the handler's channel.
  pub dispatch_leaves :
      (j : String) (streams later : Streams Tx) (max now rx : ℕ) (env : DispatchEnvelope)
      (p : Pending (ResponseBody Json))
      → lookup j (coold_dispatch try_send streams later max now rx env p).0
        ≡ left_at j env.request_id env.host_id now p
            (coold_dispatch try_send streams later max now rx env p).1
  dispatch_leaves j streams later max now rx env p = go (route_coold streams env) refl
    where
      go :
          (o : RouteOutcome)
          → route_coold streams env ≡ o
          → lookup j (coold_dispatch try_send streams later max now rx env p).0
            ≡ left_at j env.request_id env.host_id now p
                (coold_dispatch try_send streams later max now rx env p).1
      go (push_error code message) e = unfold coold_dispatch in ground arith
      go (send_coold target msg) e =
          let (_, _, _, to, _, _) = route_coold_sends streams env target msg e in
          unfold coold_dispatch in
          ground (arith, to, enqueue-left_at j later max now rx env.request_id target msg p)

  -- A forwarded command is answered: the first response that arrives for its request id goes out
  -- on the handler's channel and nowhere else, its entry is gone, and the other ids are as they were
  -- before the dispatch.
  pub dispatch_answered :
      (streams later : Streams Tx) (max now rx ch t : ℕ) (env : DispatchEnvelope) (msg : ServerMsg)
      (p : Pending (ResponseBody Json)) (body : ResponseBody Json) (j : String)
      → (coold_dispatch try_send streams later max now rx env p).1 ≡ forwarded ch msg
      → ((deliver_response env.request_id
            (some body)
            t
            (coold_dispatch try_send streams later max now rx env p).0).1
          ≡ (ch, body) ∷ [])
        × (lookup j
              (deliver_response env.request_id
                (some body)
                t
                (coold_dispatch try_send streams later max now rx env p).0).0
            ≡ (if env.request_id == j then none else lookup j p))
  dispatch_answered streams later max now rx ch t env msg p body j h =
      let q = (coold_dispatch try_send streams later max now rx env p).0 in
      let at = dispatch_leaves env.request_id streams later max now rx env p in
      unfold deliver_response in
      (
        ground (arith, h, at, sent-deliver env.request_id body t q),
        ground (
          arith,
          h,
          at,
          dispatch_leaves j streams later max now rx env p,
          lookup-deliver env.request_id j body t q,
        ),
      )
