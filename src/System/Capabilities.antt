-- ===== src/System/Capabilities.antt =====
-- What flux sends to an agent: `route_coold` (flux/src/routing.rs) on a stream whose `Hello` is the
-- agent's (coold/src/grpc/client.rs).
use coold.Prelude.{
  if◌then◌else◌, String-discrete, string_eq, nat_eq, contains, String, ◌≡◌, refl, Bool, true, ◌&&◌,
  ◌||◌, some, List, arith,
}
use coold.Flux.Capabilities.{contains_wildcard_profile, effective_capabilities, contains-filter}
use coold.Flux.Streams.{StreamHandle, Streams, get_stream}
use coold.Flux.Envelope.{CommandPayload, DispatchEnvelope, command_kind}
use coold.Flux.Routing.Messages.{command_of}
use coold.Flux.Routing.{
  send_coold, push_error, required_capability, not_authorized_text, route_to, route_coold,
}
use coold.Flux.Routing.Outcomes.{required_capability-command_kind}
use coold.Agent.Client.{primitive_capabilities}

-- The agent announces a capability for every command that can be dispatched.
primitive_capabilities_complete :
    (c : CommandPayload) → contains primitive_capabilities (required_capability c) ≡ true
unfolding primitive_capabilities required_capability contains String-discrete
primitive_capabilities_complete (CommandPayload.images_pull _) = refl
primitive_capabilities_complete _ = refl

-- The capabilities of an agent's stream, by the token's.
authorized_kind :
    (jwt_caps : List String) (allow_wildcard : Bool) (c : CommandPayload)
    → contains
        (effective_capabilities primitive_capabilities jwt_caps allow_wildcard)
        (required_capability c)
      ≡ ((allow_wildcard && contains_wildcard_profile jwt_caps)
          || contains jwt_caps (command_kind c))
authorized_kind jwt_caps allow_wildcard c =
    unfold effective_capabilities in
    ground (
      arith,
      contains-filter (λ d. contains jwt_caps d) (required_capability c) primitive_capabilities,
      primitive_capabilities_complete c,
      required_capability-command_kind c,
    )

-- A dispatch to a connected agent is sent exactly if the agent's token lists the command's kind,
-- or lists a wildcard profile where those are allowed; every other one is refused with 403, never as
-- not supported.
pub agent_dispatched :
    {Tx : Type 0} (streams : Streams Tx) (env : DispatchEnvelope) (stream : StreamHandle Tx)
    (jwt_caps : List String) (allow_wildcard : Bool)
    → get_stream streams env.host_id ≡ some stream
    → stream.advertised_caps ≡ primitive_capabilities
    → stream.caps ≡ effective_capabilities primitive_capabilities jwt_caps allow_wildcard
    → route_coold streams env ≡ (
        if (allow_wildcard && contains_wildcard_profile jwt_caps)
          || contains jwt_caps (command_kind env.command)
        then send_coold env.host_id
            (record { request_id = env.request_id; command = some (command_of env.command) })
        else push_error 403 (not_authorized_text (command_kind env.command)))
agent_dispatched streams env stream jwt_caps allow_wildcard found advertised authorized =
    unfold route_coold route_to in
    ground (
      arith,
      found,
      advertised,
      authorized,
      authorized_kind jwt_caps allow_wildcard env.command,
      primitive_capabilities_complete env.command,
      required_capability-command_kind env.command,
    )
