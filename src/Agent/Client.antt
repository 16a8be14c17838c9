-- ===== src/Agent/Client.antt =====
-- The agent's connection to flux, coold/src/grpc/client.rs: the reconnection loop `run` with its
-- back-off, the capabilities that it announces, and what it does with each message. A duration is a
-- number of milliseconds. The gRPC library and the network are the argument `serve`.
pub mod Backoff
pub mod Dialled
pub mod Statuses
use coold.Prelude.{
  ltb, leb, if◌then◌else◌, Bool-cases, Option-cases, and_then, Eq, String-discrete, string_eq,
  nat_eq, ◌==◌, ==_iff, ==_refl, contains, length, length-append, filter, any, length-filter-le,
  All, Map, lookup, insert, remove, contains_key, HasKey, NodupKeys, lookup-insert, lookup-remove,
  insert-NodupKeys, remove-NodupKeys, remove_absent, length-insert, length-remove-le, map_laws,
  str_leb, insert_sorted, sort_by_key, lookup-sort_by_key, sort_by_key-NodupKeys, Result, ok, err,
  ◌>>=◌, Result-cases, ok_or, ok_only, is_empty, strip_prefix, starts_with, strip_suffix, ends_with,
  contains_text, is_whitespace, trim_is_empty, trim_start, trim_end, trim, trim_slashes,
  utf8_length, byte_length, all_chars, is_alphanumeric, take_until, take_until_text, after_text,
  after_last, ℕ, zero, suc, ◌+◌, ◌-◌, ◌*◌, ◌/◌, ◌%◌, ◌^◌, ◌≤◌, ◌<◌, min, String, ◌≡◌, refl, sym, ap,
  ◌∙◌, ◌≢◌, ◌↔◌, ◌⊎◌, inl, inr, ite, if_pos, if_neg, Bool, true, false, ◌&&◌, ◌||◌, not, Option,
  none, some, List, [], ◌∷◌, ◌++◌, map, arith,
}
use coold.Flux.Routing.Messages
use coold.Flux.Routing.Messages.{ServerMsg, ServerCommand}
use coold.Flux.Session.{Hello}
use coold.Flux.Replies.{ProtoResponse}
use coold.Agent.Handlers.{Host}
use coold.Agent.Handlers.Commands.{handle}
use coold.Agent.Dial.{
  DialError, not_found, unreadable, empty_token, insecure_perms, post_failed, undecoded,
  empty_flux_url, no_url, bad_status, pin_unreadable, https_without_pin, permission_bits,
  is_insecure, load_host_jwt, Assignment, not_sent, responded, is_success, text_or_default,
  assigned_url, resolve_flux_url, lower, lower_starts_with, require_flux_tls, ends_authority,
  unwrap_or, without_scheme, flux_tls_domain, PinFile, pinned, no_pin, pin_error, FluxTls,
  flux_tls_config,
}

abbrev pub initial_reconnect_backoff : ℕ
initial_reconnect_backoff = 1000

abbrev pub max_reconnect_backoff : ℕ
max_reconnect_backoff = 60000

abbrev pub stable_stream_reset_after : ℕ
stable_stream_reset_after = 30000

abbrev pub permanent_rejection_retry_delay : ℕ
permanent_rejection_retry_delay = 900000

unfoldable pub next_backoff_after_delay : ℕ → ℕ
next_backoff_after_delay delay =
    if leb (delay * 2) max_reconnect_backoff then delay * 2 else max_reconnect_backoff

-- The delay now, and the next back-off.
unfoldable pub backoff_after_clean_stream_close : ℕ → ℕ → ℕ × ℕ
unfolding next_backoff_after_delay
backoff_after_clean_stream_close connected_for current_backoff =
    if leb stable_stream_reset_after connected_for
    then (initial_reconnect_backoff, initial_reconnect_backoff)
    else (current_backoff, next_backoff_after_delay current_backoff)

-- A cause in the chain of an error: a gRPC status of one of the four codes that are permanent, one
-- of another code, or something else.
pub data Cause : Type 0 where
  unauthenticated permission_denied invalid_argument failed_precondition : Cause
  other_status other_cause : Cause

unfoldable pub is_permanent : Cause → Bool
is_permanent unauthenticated = true
is_permanent permission_denied = true
is_permanent invalid_argument = true
is_permanent failed_precondition = true
is_permanent other_status = false
is_permanent other_cause = false

unfoldable pub retry_delay_for_error : List Cause → ℕ → ℕ
unfolding any is_permanent
retry_delay_for_error chain current_backoff =
    if any is_permanent chain then permanent_rejection_retry_delay else current_backoff

-- How `connect_and_serve` ends: the stream was closed cleanly after a time, or an error.
pub data Served : Type 0 where
  closed : ℕ → Served
  failed : List Cause → Served

-- What one turn of the loop meets.
pub record Surroundings : Type 0 where
  pub metadata : Option ℕ
  pub contents : Option String
  pub assignment_url : Option String
  pub flux_url : Option String
  pub post : String → String → Assignment
  pub pin : PinFile
  -- the URL, the token and the pin that are dialled with
  pub serve : String → String → Option FluxTls → Served

-- `connect_and_serve`; a refusal of the TLS settings has no status among its causes.
unfoldable pub connect_and_serve : Surroundings → String → String → Served
unfolding flux_tls_config
connect_and_serve env url jwt = elim (flux_tls_config url env.pin) [
  | err _ ↦ failed (other_cause ∷ [])
  | ok tls ↦ env.serve url jwt tls
]

-- The delay after an attempt to connect, and the next back-off.
unfoldable pub after_served : Served → ℕ → ℕ × ℕ
unfolding backoff_after_clean_stream_close retry_delay_for_error next_backoff_after_delay
after_served (closed connected_for) backoff = backoff_after_clean_stream_close connected_for backoff
after_served (failed chain) backoff = (
  retry_delay_for_error chain backoff,
  next_backoff_after_delay (retry_delay_for_error chain backoff),
)

-- One turn of the loop: the delay that it sleeps, and the next back-off.
unfoldable pub turn : Surroundings → ℕ → ℕ × ℕ
unfolding load_host_jwt resolve_flux_url connect_and_serve after_served next_backoff_after_delay
turn env backoff = elim (load_host_jwt env.metadata env.contents) [
  | err _ ↦ (backoff, next_backoff_after_delay backoff)
  | ok jwt ↦ elim (resolve_flux_url env.post env.assignment_url env.flux_url jwt) [
    | err _ ↦ (backoff, next_backoff_after_delay backoff)
    | ok url ↦ after_served (connect_and_serve env url jwt) backoff
  ]
]

-- The delays of the turns of `run`, from a back-off, and the back-off at the end.
unfoldable pub turns : List Surroundings → ℕ → List ℕ × ℕ
unfolding turn
turns [] backoff = ([], backoff)
turns (env ∷ envs) backoff =
    let (delay, next) = turn env backoff in
    let (delays, last) = turns envs next in (delay ∷ delays, last)

unfoldable pub primitive_capabilities : List String
primitive_capabilities =
    "images.pull" ∷ "images.list" ∷ "images.delete" ∷ "containers.create" ∷ "containers.start"
    ∷ "containers.stop" ∷ "containers.restart" ∷ "containers.delete" ∷ "containers.inspect"
    ∷ "containers.list" ∷ "containers.logs" ∷ "containers.exec" ∷ "containers.healthcheck.run"
    ∷ "ingress.apply" ∷ "ingress.stop" ∷ "firewall.allow" ∷ "firewall.revoke" ∷ "firewall.list"
    ∷ "firewall.reconcile" ∷ "coold.logs" ∷ "corrosion.tables" ∷ "host.jwt.set" ∷ []

-- The `Hello` of `connect_and_serve`.
unfoldable pub hello : String → String → Hello
unfolding primitive_capabilities
hello host_mgmt_ip version = record {
  host_mgmt_ip = host_mgmt_ip;
  coold_version = version;
  schema_min = 1;
  schema_max = 1;
  capabilities = primitive_capabilities;
}

-- What the agent sends for a message.
pub data ClientMsg : Type 0 where
  pong : String → ClientMsg
  response : ProtoResponse → ClientMsg

-- The loop's body for a message of flux, with the task that it spawns run to its end.
unfoldable pub on_server_msg : {S : Type 0} → Host S → ServerMsg → S → S × List ClientMsg
unfolding handle
on_server_msg host msg s = elim msg.command [
  | none ↦ (s, [])
  | some command ↦ elim command [
    | Messages.ping ↦ (s, pong msg.request_id ∷ [])
    | other ↦ let (s', sent) = handle host msg.request_id other s in (s', map response sent)
  ]
]
