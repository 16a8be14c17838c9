-- ===== src/Tests/System.antt =====
-- A dispatch through flux and the agent of a host, and the agent's reconnections.
use coold.Prelude.{
  if◌then◌else◌, String-discrete, string_eq, nat_eq, contains, any, All, lookup, ok, err,
  strip_prefix, starts_with, is_whitespace, trim_start, trim_end, trim, take_until, take_until_text,
  after_text, after_last, ℕ, ◌+◌, String, ◌≡◌, refl, ◌⊎◌, true, false, ◌&&◌, ◌||◌, Option, none,
  some, List, [], ◌∷◌,
}
use coold.Flux.Streams.{StreamHandle, Streams, entry_of, get_stream}
use coold.Flux.Capabilities.{contains_wildcard_profile, effective_capabilities}
use coold.Flux.Envelope
use coold.Flux.Envelope.{ResponseBody, command_kind}
use coold.Flux.Routing.Messages
use coold.Flux.Routing.{send_coold, push_error, not_authorized_text, route_coold}
use coold.Flux.Replies.{pos, images_list_resp, ProtoResponse, JsonLibrary, try_from_proto}
use coold.Flux.Session.{deliver_response}
use coold.Flux.Bridge.{coold_dispatch}
use coold.Agent.Handlers
use coold.Agent.Handlers.Commands
use coold.Agent.Handlers.{Host, Op, response_body_type}
use coold.Agent.Dial.{
  is_insecure, load_host_jwt, not_sent, resolve_flux_url, require_flux_tls, without_scheme,
  flux_tls_domain, pinned, flux_tls_config,
}
use coold.Agent.Client.{
  initial_reconnect_backoff, next_backoff_after_delay, backoff_after_clean_stream_close,
  unauthenticated, is_permanent, retry_delay_for_error, Served, closed, failed, Surroundings,
  connect_and_serve, after_served, turn, turns, primitive_capabilities, response, on_server_msg,
}
use coold.Agent.Client.Backoff.{IsBackoff, IsDelay, turns_bounded}
use coold.Agent.Client.Dialled.{DialsSafely, turn_safe}
use coold.System.Capabilities.{agent_dispatched}
use coold.System.Roundtrip.{dispatch_roundtrip}
use coold.Tests.Dispatch.{streams, request, message, always, idle, went_out}

-- A host that counts what it is asked.
abbrev counted : {A : Type 0} → A → Op ℕ A
counted a n = (n + 1, ok a)

abbrev failing : {A : Type 0} → Op ℕ A
failing n = (n + 1, err "no such thing")

abbrev host : Host ℕ
host = record {
  pull_image = λ _. failing;
  list_images = counted [];
  delete_image = λ _ _. counted "";
  mesh_network_gateway = λ _ _. ok "10.210.0.1";
  create_container = λ _. counted "c1";
  start_container = λ _. counted "";
  stop_container = λ _ _. counted "";
  restart_container = λ _ _. counted "";
  delete_container = λ _ _. counted "";
  inspect_container_json = λ _. counted "{}";
  list_containers = counted [];
  inspect_container = λ _ _. err "gone";
  container_logs = λ _. counted "";
  exec_container = λ _ _. counted (pos 0, "");
  run_healthcheck = λ _. counted "";
  journal = λ _. counted "";
  tables_json = λ _. counted "";
  install_caddy = λ _. counted "";
  stop_caddy_ingress = counted "";
  firewall_allow = λ _. counted ("", "");
  firewall_revoke = λ _. failing;
  firewall_list = λ _. counted [];
  firewall_reconcile = counted "";
  apply_host_jwt = λ _. counted true;
}

abbrev json : JsonLibrary
json = record {
  Json = ℕ;
  object = λ _. 1;
  text = λ _. 2;
  texts = λ _. 3;
  number = λ _. 4;
  boolean = λ _. 5;
  null = 6;
  to_value = λ _. some 7;
  from_str = λ _. none;
}

dispatch_roundtrip_example :
    (resp : ProtoResponse) × (body : ResponseBody ℕ) × ((on_server_msg host message 0).1
      ≡ response resp ∷ [])
    × (resp.request_id ≡ "r1")
    × ((response_body_type resp.body ≡ command_kind Envelope.images_list)
        ⊎ (response_body_type resp.body ≡ "error"))
    × (try_from_proto json resp ≡ some body)
    × ((deliver_response resp.request_id
          (some body)
          200
          (coold_dispatch always streams streams 10 100 3
            (request "r1" Envelope.images_list)
            idle).0).1
        ≡ (3, body) ∷ [])
dispatch_roundtrip_example =
    dispatch_roundtrip json host always streams streams 10 100 3 3 200
      (request "r1" Envelope.images_list) message idle 0 went_out

-- The answer of this host.
answered :
    (on_server_msg host message 0)
    ≡ (1, response (record { request_id = "r1"; body = some (images_list_resp []) }) ∷ [])
unfolding on_server_msg Commands.handle Commands.body_for Commands.on_images_list Handlers.body_of
    Messages.command_of
answered = refl

abbrev token_caps : List String
token_caps = "images.list" ∷ []

abbrev agent_stream : StreamHandle ℕ
agent_stream = record {
  tx = 7;
  caps = effective_capabilities primitive_capabilities token_caps false;
  advertised_caps = primitive_capabilities;
}

abbrev agents : Streams ℕ
agents = ("h1", entry_of agent_stream 5) ∷ []

there : get_stream agents "h1" ≡ some agent_stream
unfolding get_stream lookup String-discrete
there = refl

agent_dispatched_example : route_coold agents (request "r1" (Envelope.coold_logs 10)) ≡ (
    if (false && contains_wildcard_profile token_caps)
      || contains token_caps (command_kind (Envelope.coold_logs 10))
    then send_coold "h1" (record {
      request_id = "r1";
      command = some (Messages.command_of (Envelope.coold_logs 10));
    })
    else push_error 403 (not_authorized_text (command_kind (Envelope.coold_logs 10))))
agent_dispatched_example =
    agent_dispatched agents (request "r1" (Envelope.coold_logs 10)) agent_stream token_caps false
      there refl refl

abbrev around : Option String → Served → Surroundings
around contents served = record {
  metadata = some 33152;
  contents = contents;
  assignment_url = none;
  flux_url = some "https://flux.example:7443/agent";
  post = λ _ _. not_sent;
  pin = pinned "PEM";
  serve = λ _ _ _. served;
}

abbrev met : List Surroundings
met =
    around none (closed 0)
    ∷ around (some " a.b.c\n") (failed (unauthenticated ∷ []))
    ∷ around (some "a.b.c") (closed 40000)
    ∷ []

delays_met : turns met 1000 ≡ (1000 ∷ 900000 ∷ 1000 ∷ [], 1000)
unfolding turns turn load_host_jwt is_insecure trim trim_start trim_end is_whitespace
    resolve_flux_url connect_and_serve flux_tls_config require_flux_tls flux_tls_domain
    without_scheme after_text take_until_text take_until after_last strip_prefix starts_with
    after_served contains any backoff_after_clean_stream_close retry_delay_for_error is_permanent
    next_backoff_after_delay String-discrete native.Mathlib.Decide.ℕ_discrete
delays_met = refl

turns_bounded_example :
    All IsDelay (turns met initial_reconnect_backoff).0
    × IsBackoff (turns met initial_reconnect_backoff).1
turns_bounded_example = turns_bounded met

turn_safe_example : DialsSafely (around (some "a.b.c") (closed 40000)) 2000
turn_safe_example = turn_safe (around (some "a.b.c") (closed 40000)) 2000
