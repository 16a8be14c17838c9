-- ===== src/Flux/Bridge.antt =====
-- The dispatch handler of flux/src/unix_bridge.rs: `coold_dispatch`, `await_coold`, `coold_err` and
-- `code_to_status`. The JSON values and the host's command channel are parameters: `try_send`
-- says what the channel makes of a message. `later` is the map of streams when the handler comes
-- back to it, since other tasks may have changed it after the routing.
pub mod Dispatch
use coold.Prelude.{
  ltb, leb, if◌then◌else◌, Bool-cases, Option-cases, and_then, Eq, String-discrete, string_eq,
  nat_eq, ◌==◌, ==_iff, ==_refl, contains, length, length-append, filter, any, length-filter-le,
  All, Map, lookup, insert, remove, contains_key, HasKey, NodupKeys, lookup-insert, lookup-remove,
  insert-NodupKeys, remove-NodupKeys, remove_absent, length-insert, length-remove-le, map_laws,
  str_leb, insert_sorted, sort_by_key, lookup-sort_by_key, sort_by_key-NodupKeys, Result, ok, err,
  ◌>>=◌, Result-cases, ok_or, ok_only, is_empty, strip_prefix, starts_with, strip_suffix, ends_with,
  contains_text, is_whitespace, trim_is_empty, trim_start, trim_end, trim, trim_slashes,
  utf8_length, byte_length, all_chars, is_alphanumeric, take_until, take_until_text, after_text,
  after_last, ℕ, zero, suc, ◌+◌, ◌-◌, ◌*◌, ◌/◌, ◌%◌, ◌^◌, ◌≤◌, ◌<◌, min, String, ◌≡◌, refl, sym, ap,
  ◌∙◌, ◌≢◌, ◌↔◌, ◌⊎◌, inl, inr, ite, if_pos, if_neg, Bool, true, false, ◌&&◌, ◌||◌, not, Option,
  none, some, List, [], ◌∷◌, ◌++◌, map, arith,
}
use coold.Flux.Streams.{
  StreamHandle, StreamEntry, Streams, new, entry_of, insert_stream, update_capabilities,
  remove_stream, handle_of, get_stream, get_tx, len, touch, ping_targets, is_stale,
  mark_stale_entries, stale_hosts,
}
use coold.Flux.Pending.{
  PendingKind, coold_kind, landed_ttl, PendingState, waiting, landed, PendingEntry, PendingSnapshot,
  ParkResult, parked, already_landed, not_found, InsertOutcome, inserted, duplicate, at_capacity,
  Pending, fresh_entry, insert_waiting, snapshot_of, remove_pending, get_pending, park_look,
  park_first, park_second, park, fan_out, deliver_first, deliver_second, deliver, is_expired,
  expired_ids, remove_all, drain_expired,
}
use coold.Flux.Envelope.{DispatchEnvelope, ResponseBody, ok_body, error_body, ResponseEnvelope}
use coold.Flux.Routing.Messages.{ServerMsg}
use coold.Flux.Routing.{
  RouteOutcome, send_coold, push_error, required_capability, not_authorized_text,
  not_supported_text, route_to, route_coold,
}

pub data SendResult : Type 0 where
  send_ok send_full send_closed : SendResult

pub record HttpReply (Json : Type 0) : Type 0 where
  pub status : ℕ
  pub envelope : ResponseEnvelope Json

unfoldable pub code_to_status : ℕ → ℕ
code_to_status code = if leb 400 code && leb code 599 then code else 500

-- What the wait for the answer ends with.
pub data Awaited (Json : Type 0) : Type 0 where
  answer : ResponseBody Json → Awaited Json
  sink_dropped timed_out : Awaited Json

module _ {Json : Type 0} where
  unfoldable pub coold_err : String → ℕ → String → HttpReply Json
  unfolding code_to_status
  coold_err request_id code message = record {
    status = code_to_status code;
    envelope = record { request_id = request_id; body = error_body code message };
  }

  unfoldable pub await_coold : String → Awaited Json → HttpReply Json
  unfolding coold_err
  await_coold request_id (answer body) = record {
    status = 200;
    envelope = record { request_id = request_id; body = body };
  }
  await_coold request_id sink_dropped = coold_err request_id 504 "dispatch timeout"
  await_coold request_id timed_out = coold_err request_id 504 "dispatch timeout"

-- Where the handler stands after the part that does not wait: it has answered, or it has forwarded
-- the message and waits on its channel.
pub data Progress (Json : Type 0) : Type 0 where
  replied : HttpReply Json → Progress Json
  forwarded : ℕ → ServerMsg → Progress Json

module _ {Tx Json : Type 0} where
  -- From `get_tx` on.
  unfoldable pub forward :
      (Tx → ServerMsg → SendResult)
      → Streams Tx
      → String
      → String
      → ServerMsg
      → ℕ
      → Pending (ResponseBody Json)
      → Pending (ResponseBody Json) × Progress Json
  unfolding remove_pending coold_err get_tx
  forward try_send later request_id target msg rx p = elim (get_tx later target) [
    | none ↦
        ((remove_pending request_id p).0, replied (coold_err request_id 503 "host stream gone"))
    | some tx ↦ elim (try_send tx msg) [
      | send_ok ↦ (p, forwarded rx msg)
      | send_full ↦ (
        (remove_pending request_id p).0,
        replied (coold_err request_id 503 "host command queue full"),
      )
      | send_closed ↦ (
        (remove_pending request_id p).0,
        replied (coold_err request_id 503 "host stream send failed"),
      )
    ]
  ]

  -- From `park` on.
  unfoldable pub park_and_forward :
      (Tx → ServerMsg → SendResult)
      → Streams Tx
      → String
      → String
      → ServerMsg
      → ℕ
      → Pending (ResponseBody Json)
      → Pending (ResponseBody Json) × Progress Json
  unfolding park forward coold_err
  park_and_forward try_send later request_id target msg rx p =
      let (q, result) = park request_id rx p in
      elim result [
        | parked ch ↦ forward try_send later request_id target msg ch q
        | already_landed _ ↦
            (q, replied (coold_err request_id 500 "pending state lost after insert"))
        | not_found ↦ (q, replied (coold_err request_id 500 "pending state lost after insert"))
      ]

  -- From `insert_waiting` on.
  unfoldable pub enqueue :
      (Tx → ServerMsg → SendResult)
      → Streams Tx
      → ℕ
      → ℕ
      → ℕ
      → String
      → String
      → ServerMsg
      → Pending (ResponseBody Json)
      → Pending (ResponseBody Json) × Progress Json
  unfolding insert_waiting park_and_forward coold_err
  enqueue try_send later max now rx request_id target msg p =
      let (q, outcome) = insert_waiting request_id target coold_kind max now p in
      elim outcome [
        | inserted ↦ park_and_forward try_send later request_id target msg rx q
        | duplicate ↦ (q, replied (coold_err request_id 409 "request_id already in flight"))
        | at_capacity ↦ (q, replied (coold_err request_id 503 "flux at pending-dispatch capacity"))
      ]

  unfoldable pub coold_dispatch :
      (Tx → ServerMsg → SendResult)
      → Streams Tx
      → Streams Tx
      → ℕ
      → ℕ
      → ℕ
      → DispatchEnvelope
      → Pending (ResponseBody Json)
      → Pending (ResponseBody Json) × Progress Json
  coold_dispatch try_send streams later max now rx env p = elim (route_coold streams env) [
    | send_coold target msg ↦ enqueue try_send later max now rx env.request_id target msg p
    | push_error code message ↦ (p, replied (coold_err env.request_id code message))
  ]
