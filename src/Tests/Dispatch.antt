-- ===== src/Tests/Dispatch.antt =====
-- A command from the control plane to a host and back (flux/src/routing.rs,
-- flux/src/unix_bridge.rs, flux/src/state.rs).
use coold.Prelude.{
  if◌then◌else◌, String-discrete, string_eq, nat_eq, ◌==◌, contains, lookup, insert, contains_key,
  ℕ, String, ◌≡◌, refl, ◌⊎◌, true, false, none, some, List, [], ◌∷◌, arith,
}
use coold.Flux.Streams.{StreamHandle, Streams, entry_of, get_stream, get_tx}
use coold.Flux.Pending.{
  coold_kind, Pending, fresh_entry, insert_waiting, park_look, park_first, park_second, park,
  deliver,
}
use coold.Flux.Pending.Lookup.{deliver_once}
use coold.Flux.Pending.Race.{Actor, parker, deliverer, run_turns}
use coold.Flux.Pending.Race.Outcome.{Answered, start, no_lost_response}
use coold.Flux.Envelope
use coold.Flux.Routing.Messages
use coold.Flux.Routing.{
  send_coold, push_error, required_capability, not_authorized_text, route_to, route_coold,
}
use coold.Flux.Routing.Outcomes.{
  payload_of, payload_of-command_of, route_coold_sends, route_coold_refuses,
}
use coold.Flux.Session.{deliver_response}
use coold.Flux.Bridge.{
  SendResult, send_ok, forwarded, forward, park_and_forward, enqueue, coold_dispatch,
}
use coold.Flux.Bridge.Dispatch.{left_at, dispatch_leaves, dispatch_answered}

abbrev pub handle : StreamHandle ℕ
handle = record {
  tx = 7;
  caps = "images.list" ∷ [];
  advertised_caps = "images.list" ∷ "coold.logs" ∷ [];
}

abbrev pub streams : Streams ℕ
streams = ("h1", entry_of handle 5) ∷ []

abbrev pub request : String → Envelope.CommandPayload → Envelope.DispatchEnvelope
request id command = record { host_id = "h1"; request_id = id; command = command }

abbrev pub message : Messages.ServerMsg
message = record { request_id = "r1"; command = some (Messages.command_of Envelope.images_list) }

routed : route_coold streams (request "r1" Envelope.images_list) ≡ send_coold "h1" message
unfolding route_coold route_to get_stream required_capability contains lookup String-discrete
routed = refl

abbrev the_host : String
the_host = "h1"

route_coold_sends_example :
    (stream : StreamHandle ℕ) × (get_stream streams "h1" ≡ some stream)
    × (contains stream.caps (Envelope.command_kind Envelope.images_list) ≡ true)
    × (the_host ≡ the_host)
    × (message.request_id ≡ message.request_id)
    × (payload_of message.command ≡ some Envelope.images_list)
route_coold_sends_example =
    route_coold_sends streams (request "r1" Envelope.images_list) "h1" message routed

abbrev forbidden : ℕ
forbidden = 403

refused :
    route_coold streams (request "r2" (Envelope.coold_logs 10))
    ≡ push_error 403 (not_authorized_text "coold.logs")
unfolding route_coold route_to get_stream required_capability contains lookup String-discrete
refused = refl

route_coold_refuses_example :
    ((forbidden ≡ 404) × (get_stream streams "h1" ≡ none))
    ⊎ ((stream : StreamHandle ℕ) × (get_stream streams "h1" ≡ some stream)
        × (contains stream.caps (Envelope.command_kind (Envelope.coold_logs 10)) ≡ false)
        × (((forbidden ≡ 403)
              × (contains stream.advertised_caps (Envelope.command_kind (Envelope.coold_logs 10))
                  ≡ true))
            ⊎ ((forbidden ≡ 501)
                × (contains stream.advertised_caps (Envelope.command_kind (Envelope.coold_logs 10))
                    ≡ false))))
route_coold_refuses_example =
    route_coold_refuses streams (request "r2" (Envelope.coold_logs 10)) 403
      (not_authorized_text "coold.logs") refused

payload_of-command_of_example :
    payload_of (some (Messages.command_of (Envelope.containers_logs "c1" 100 true false)))
    ≡ some (Envelope.containers_logs "c1" 100 true false)
payload_of-command_of_example = payload_of-command_of (Envelope.containers_logs "c1" 100 true false)

abbrev pub always : ℕ → Messages.ServerMsg → SendResult
always tx msg = send_ok

abbrev pub idle : Pending (Envelope.ResponseBody ℕ)
idle = []

pub went_out :
    (coold_dispatch always streams streams 10 100 3 (request "r1" Envelope.images_list) idle).1
    ≡ forwarded 3 message
unfolding coold_dispatch enqueue park_and_forward forward route_coold route_to get_stream get_tx
    required_capability contains lookup insert insert_waiting contains_key park park_first park_look
    park_second String-discrete native.Mathlib.Decide.ℕ_discrete
went_out = refl

abbrev the_id : String
the_id = "r1"

dispatch_answered_example :
    ((deliver_response "r1"
        (some (Envelope.ok_body 5))
        200
        (coold_dispatch always streams streams 10 100 3
          (request "r1" Envelope.images_list)
          idle).0).1
      ≡ (3, Envelope.ok_body 5) ∷ [])
    × (lookup "r1"
          (deliver_response "r1"
            (some (Envelope.ok_body 5))
            200
            (coold_dispatch always streams streams 10 100 3
              (request "r1" Envelope.images_list)
              idle).0).0
        ≡ (if the_id == the_id then none else lookup the_id idle))
dispatch_answered_example =
    dispatch_answered always streams streams 10 100 3 3 200 (request "r1" Envelope.images_list)
      message idle (Envelope.ok_body 5) "r1" went_out

dispatch_leaves_example :
    lookup "r1"
      (coold_dispatch always streams streams 10 100 3 (request "r1" Envelope.images_list) idle).0
    ≡ left_at always "r1" "r1" "h1" 100 idle
        (coold_dispatch always streams streams 10 100 3 (request "r1" Envelope.images_list) idle).1
dispatch_leaves_example =
    dispatch_leaves always "r1" streams streams 10 100 3 (request "r1" Envelope.images_list) idle

abbrev waiting_map : Pending ℕ
waiting_map = ("r1", fresh_entry "h1" coold_kind 0) ∷ []

abbrev interleaved : List Actor
interleaved = parker ∷ deliverer ∷ parker ∷ deliverer ∷ []

no_lost_response_example :
    Answered "r1" 3 5 9 (run_turns "r1" 3 5 9 interleaved (start "r1" 3 5 9 waiting_map))
    × (lookup "r1" (run_turns "r1" 3 5 9 interleaved (start "r1" 3 5 9 waiting_map)).pending ≡ none)
unfolding lookup String-discrete
no_lost_response_example =
    no_lost_response "r1" 3 5 9 interleaved waiting_map (fresh_entry "h1" coold_kind 0) refl refl
      (omega arith) (omega arith)

deliver_once_example : (deliver "r1" 6 10 (deliver "r1" 5 9 waiting_map).0).1 ≡ []
deliver_once_example = deliver_once "r1" 5 6 9 10 waiting_map
