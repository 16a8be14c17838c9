-- ===== src/Flux/Session/Reconnect.antt =====
-- A host that reconnects before its old stream ends (`FluxAgent::stream` in flux/src/main.rs).
use coold.Prelude.{
  string_eq, nat_eq, lookup, lookup-remove, ℕ, String, ◌≡◌, none, List, [], ◌∷◌, arith,
}
use coold.Flux.Envelope.{DispatchEnvelope}
use coold.Flux.Routing.{push_error, route_coold}
use coold.Flux.Session.{
  Admitted, Hub, Inbound, response, pong, open_stream, on_inbound, close_stream,
}

module _ {Tx Body : Type 0} where
  -- The loop of a stream over what arrives, each with its time.
  unfoldable pub inbound_all : String → List (Inbound Body × ℕ) → Hub Tx Body → Hub Tx Body
  unfolding on_inbound
  inbound_all host_id [] hub = hub
  inbound_all host_id ((m, now) ∷ ms) hub = inbound_all host_id ms (on_inbound host_id m now hub).0

  on_inbound_absent :
      (host : String) (m : Inbound Body) (now : ℕ) (hub : Hub Tx Body)
      → lookup host hub.streams ≡ none
      → lookup host (on_inbound host m now hub).0.streams ≡ none
  unfolding on_inbound
  on_inbound_absent host (response id body) now hub h = h
  on_inbound_absent host pong now hub h = ground (arith, h)
  on_inbound_absent host _ now hub h = h

  inbound_all_absent :
      (host : String) (ms : List (Inbound Body × ℕ)) (hub : Hub Tx Body)
      → lookup host hub.streams ≡ none
      → lookup host (inbound_all host ms hub).streams ≡ none
  unfolding inbound_all
  inbound_all_absent host [] hub h = h
  inbound_all_absent host ((m, now) ∷ ms) hub h =
      inbound_all_absent host ms (on_inbound host m now hub).0 (on_inbound_absent host m now hub h)

  -- A host opens a new stream, and then its old one ends. From then on, whatever the new stream
  -- sends, every command for the host is refused as if it were not connected.
  pub reconnect_lost :
      (new_session : Admitted) (tx : Tx) (now : ℕ) (hub : Hub Tx Body)
      (ms : List (Inbound Body × ℕ)) (env : DispatchEnvelope)
      → env.host_id ≡ new_session.host_id
      → route_coold
          (inbound_all new_session.host_id ms
            (close_stream new_session.host_id (open_stream new_session tx now hub))).streams
          env
        ≡ push_error 404 "host not connected"
  unfolding route_coold close_stream
  reconnect_lost new_session tx now hub ms env e =
      let host = new_session.host_id in
      let closed : Hub Tx Body = close_stream host (open_stream new_session tx now hub) in
      ground (
        arith,
        e,
        inbound_all_absent host ms closed
            (ground (arith, lookup-remove host host (open_stream new_session tx now hub).streams)),
      )
