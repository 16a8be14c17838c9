-- ===== src/System/Roundtrip.antt =====
-- A dispatch from end to end: `coold_dispatch` (flux/src/unix_bridge.rs) forwards a command, the
-- agent (coold/src/grpc) answers it, and flux hands the answer to the handler that waits.
use coold.Prelude.{
  Option-cases, string_eq, nat_eq, ℕ, String, ◌≡◌, refl, sym, ap, ◌∙◌, ◌≢◌, ◌⊎◌, inl, inr, some, [],
  ◌∷◌, map, arith,
}
use coold.Flux.Streams.{Streams}
use coold.Flux.Pending.{
  coold_kind, ParkResult, parked, already_landed, not_found, InsertOutcome, inserted, duplicate,
  at_capacity, Pending, insert_waiting, park,
}
use coold.Flux.Envelope.{DispatchEnvelope, ResponseBody, error_body, CommandPayload, command_kind}
use coold.Flux.Routing.Messages
use coold.Flux.Routing.Messages.{ServerMsg, ServerCommand, command_of}
use coold.Flux.Routing.{RouteOutcome, send_coold, push_error, route_coold}
use coold.Flux.Routing.Outcomes.{route_coold_built}
use coold.Flux.Replies.{JsonLibrary, ProtoResponse, try_from_proto, body_json}
use coold.Flux.Session.{deliver_response}
use coold.Flux.Bridge.{SendResult, forwarded, forward, park_and_forward, enqueue, coold_dispatch}
use coold.Flux.Bridge.Dispatch.{dispatch_answered}
use coold.Agent.Handlers.{Host, command_type, response_body_type}
use coold.Agent.Handlers.Commands.{handle}
use coold.Agent.Handlers.Answers.{handle_answers}
use coold.Agent.Client.{response, on_server_msg}

-- What went out is the message that was routed.
module _ {Tx Json : Type 0} (try_send : Tx → ServerMsg → SendResult) where
  forward_msg :
      (later : Streams Tx) (id target : String) (msg m : ServerMsg) (rx ch : ℕ)
      (p : Pending (ResponseBody Json))
      → (forward try_send later id target msg rx p).1 ≡ forwarded ch m
      → msg ≡ m
  forward_msg later id target msg m rx ch p h = unfold forward in ground arith

  park_and_forward_msg :
      (later : Streams Tx) (id target : String) (msg m : ServerMsg) (rx ch : ℕ)
      (p : Pending (ResponseBody Json))
      → (park_and_forward try_send later id target msg rx p).1 ≡ forwarded ch m
      → msg ≡ m
  park_and_forward_msg later id target msg m rx ch p h = go (park id rx p).1 refl
    where
      go : (r : ParkResult (ResponseBody Json)) → (park id rx p).1 ≡ r → msg ≡ m
      go (parked c) e =
          forward_msg later id target msg m c ch (park id rx p).0
            (unfold park_and_forward in ground arith)
      go (already_landed b) e = unfold park_and_forward in ground arith
      go not_found e = unfold park_and_forward in ground arith

  enqueue_msg :
      (later : Streams Tx) (max now rx ch : ℕ) (id target : String) (msg m : ServerMsg)
      (p : Pending (ResponseBody Json))
      → (enqueue try_send later max now rx id target msg p).1 ≡ forwarded ch m
      → msg ≡ m
  enqueue_msg later max now rx ch id target msg m p h =
      go (insert_waiting id target coold_kind max now p).1 refl
    where
      go : (r : InsertOutcome) → (insert_waiting id target coold_kind max now p).1 ≡ r → msg ≡ m
      go inserted e =
          park_and_forward_msg later id target msg m rx ch
            (insert_waiting id target coold_kind max now p).0 (unfold enqueue in ground arith)
      go duplicate e = unfold enqueue in ground arith
      go at_capacity e = unfold enqueue in ground arith

  -- A forwarded message carries the dispatch's request id and command.
  forwarded_built :
      (streams later : Streams Tx) (max now rx ch : ℕ) (env : DispatchEnvelope) (msg : ServerMsg)
      (p : Pending (ResponseBody Json))
      → (coold_dispatch try_send streams later max now rx env p).1 ≡ forwarded ch msg
      → msg ≡ record { request_id = env.request_id; command = some (command_of env.command) }
  forwarded_built streams later max now rx ch env msg p h = go (route_coold streams env) refl
    where
      go :
          (o : RouteOutcome)
          → route_coold streams env ≡ o
          → msg ≡ record { request_id = env.request_id; command = some (command_of env.command) }
      go (push_error code text) e = absurd (unfold coold_dispatch in ground arith)
      go (send_coold target routed) e =
          sym (
            enqueue_msg later max now rx ch env.request_id target routed msg p
              (unfold coold_dispatch in ground arith))
          ∙ route_coold_built streams env target routed e

command_of-ping : (c : CommandPayload) → command_of c ≢ Messages.ping
unfolding command_of
command_of-ping (CommandPayload.images_pull _) h = cc
command_of-ping _ h = cc

command_type-command_of : (c : CommandPayload) → command_type (command_of c) ≡ command_kind c
unfolding command_of command_type command_kind
command_type-command_of (CommandPayload.images_pull _) = refl
command_type-command_of _ = refl

on_server_msg-handle :
    {S : Type 0} (host : Host S) (id : String) (command : ServerCommand) (s : S)
    → command ≢ Messages.ping
    → (on_server_msg host (record { request_id = id; command = some command }) s).1
      ≡ map response (handle host id command s).1
unfolding on_server_msg
on_server_msg-handle host id Messages.ping s n = absurd (n refl)
on_server_msg-handle host id _ s n = refl

try_from_proto-body :
    (json : JsonLibrary) (resp : ProtoResponse)
    → (body : ResponseBody json.Json) × (try_from_proto json resp ≡ some body)
try_from_proto-body json resp = elim (Option-cases resp.body) [
  | inl absent ↦ (error_body 500 "empty response body", unfold try_from_proto in ground arith)
  | inr (body, present) ↦ (body_json json body, unfold try_from_proto in ground arith)
]

-- A command that was forwarded to an agent is answered, whatever the host does: the agent sends
-- exactly one response, under the dispatch's request id, with a body of the command's kind or an
-- error; flux can turn it into JSON, and hands that to the channel of the handler that waits, and to
-- nothing else.
pub dispatch_roundtrip :
    {S Tx : Type 0} (json : JsonLibrary) (host : Host S) (try_send : Tx → ServerMsg → SendResult)
    (streams later : Streams Tx) (max now rx ch t : ℕ) (env : DispatchEnvelope) (msg : ServerMsg)
    (p : Pending (ResponseBody json.Json)) (s : S)
    → (coold_dispatch try_send streams later max now rx env p).1 ≡ forwarded ch msg
    → (resp : ProtoResponse) × (body : ResponseBody json.Json) × ((on_server_msg host msg s).1
        ≡ response resp ∷ [])
      × (resp.request_id ≡ env.request_id)
      × ((response_body_type resp.body ≡ command_kind env.command)
          ⊎ (response_body_type resp.body ≡ "error"))
      × (try_from_proto json resp ≡ some body)
      × ((deliver_response resp.request_id
            (some body)
            t
            (coold_dispatch try_send streams later max now rx env p).0).1
          ≡ (ch, body) ∷ [])
dispatch_roundtrip json host try_send streams later max now rx ch t env msg p s h =
    let (resp, sent, id, kind) =
      handle_answers host env.request_id (command_of env.command) s (command_of-ping env.command) in
    let (body, made) = try_from_proto-body json resp in
    let (delivered, _) =
      dispatch_answered try_send streams later max now rx ch t env msg p body "" h in
    (
      resp,
      body,
      rw (forwarded_built try_send streams later max now rx ch env msg p h) (
          on_server_msg-handle host env.request_id (command_of env.command) s
            (command_of-ping env.command)
          ∙ ap (map response) sent),
      id,
      rw (command_type-command_of env.command) at kind,
      made,
      rw id delivered,
    )
