-- ===== src/Flux/Session.antt =====
-- One agent stream: `FluxAgent::stream` and `deliver_response` of `grpc_server` in
-- flux/src/main.rs. The token library and the reading of addresses are parameters; what is
-- published to the control plane and logged is not modelled.
pub mod Admission
pub mod Reconnect
use coold.Prelude.{
  ltb, leb, if◌then◌else◌, Bool-cases, Option-cases, and_then, Eq, String-discrete, string_eq,
  nat_eq, ◌==◌, ==_iff, ==_refl, contains, length, length-append, filter, any, length-filter-le,
  All, Map, lookup, insert, remove, contains_key, HasKey, NodupKeys, lookup-insert, lookup-remove,
  insert-NodupKeys, remove-NodupKeys, remove_absent, length-insert, length-remove-le, map_laws,
  str_leb, insert_sorted, sort_by_key, lookup-sort_by_key, sort_by_key-NodupKeys, Result, ok, err,
  ◌>>=◌, Result-cases, ok_or, ok_only, is_empty, strip_prefix, starts_with, strip_suffix, ends_with,
  contains_text, is_whitespace, trim_is_empty, trim_start, trim_end, trim, trim_slashes,
  utf8_length, byte_length, all_chars, is_alphanumeric, take_until, take_until_text, after_text,
  after_last, ℕ, zero, suc, ◌+◌, ◌-◌, ◌*◌, ◌/◌, ◌%◌, ◌^◌, ◌≤◌, ◌<◌, min, String, ◌≡◌, refl, sym, ap,
  ◌∙◌, ◌≢◌, ◌↔◌, ◌⊎◌, inl, inr, ite, if_pos, if_neg, Bool, true, false, ◌&&◌, ◌||◌, not, Option,
  none, some, List, [], ◌∷◌, ◌++◌, map, arith,
}
use coold.Flux.Streams.{
  StreamHandle, StreamEntry, Streams, new, entry_of, insert_stream, update_capabilities,
  remove_stream, handle_of, get_stream, get_tx, len, touch, ping_targets, is_stale,
  mark_stale_entries, stale_hosts,
}
use coold.Flux.Pending.{
  PendingKind, coold_kind, landed_ttl, PendingState, waiting, landed, PendingEntry, PendingSnapshot,
  ParkResult, parked, already_landed, not_found, InsertOutcome, inserted, duplicate, at_capacity,
  Pending, fresh_entry, insert_waiting, snapshot_of, remove_pending, get_pending, park_look,
  park_first, park_second, park, fan_out, deliver_first, deliver_second, deliver, is_expired,
  expired_ids, remove_all, drain_expired,
}
use coold.Flux.Capabilities.{
  capability_profile_authorizes_all, contains_wildcard_profile, effective_capabilities,
  missing_capabilities, flux_schema_min, flux_schema_max, schema_overlaps, contains-filter,
  effective_capabilities_strict,
}
use coold.Flux.Auth.{
  default_kid, Algorithm, hs256, hs384, hs512, es256, es384, rs256, rs384, rs512, ps256, ps384,
  ps512, ed_dsa, Header, Validation, Claims, JwtLibrary, VerifiedJwt, JwtKeys, KeyKind, ec, rsa,
  AuthError, header_parse, load_pubkey, verification_failed, unknown_kid, alg_not_allowed,
  lifetime_exceeds, jti_revoked, resolve, seconds_until_expiry, token_expired,
  lifetime_within_clamp, alg_allowed, leeway_secs, validation_of, accept_claims, load_key,
  decode_with, verify_jwt, team_id_satisfied,
}
use coold.Flux.Auth.Binding.{decide_host_binding}
use coold.Flux.Envelope.{ResponseBody}

-- The settings that a session reads.
pub record Config : Type 0 where
  pub max_token_lifetime_secs : ℕ
  pub require_team_id : Bool
  pub require_host_binding : Bool
  pub allow_wildcard_capabilities : Bool

pub record Hello : Type 0 where
  pub host_mgmt_ip : String
  pub coold_version : String
  pub schema_min : ℕ
  pub schema_max : ℕ
  pub capabilities : List String

-- What the first read of the stream gives.
pub data FirstMessage : Type 0 where
  hello_message : Hello → FirstMessage
  other_message no_message read_failure : FirstMessage

-- The gRPC status of a rejection.
pub data Status : Type 0 where
  unauthenticated invalid_argument failed_precondition read_error : Status

unfoldable pub bearer : Option String → Result Status String
unfolding strip_prefix
bearer none = err unauthenticated
bearer (some value) = ok_or (strip_prefix "Bearer " value) unauthenticated

unfoldable pub read_hello : FirstMessage → Result Status Hello
read_hello (hello_message h) = ok h
read_hello other_message = err invalid_argument
read_hello no_message = err invalid_argument
read_hello read_failure = err read_error

abbrev pub or_status {ℓ} : {E A : Type ℓ} {S : Type ℓ} → Result E A → S → Result S A
or_status (ok a) s = ok a
or_status (err e) s = err s

abbrev pub require : Bool → Status → Result Status Bool
require true s = ok true
require false s = err s

-- What a stream that is let in is registered with.
pub record Admitted : Type 0 where
  pub host_id : String
  pub caps : List String
  pub advertised_caps : List String
  pub exp : ℕ
  pub team_id : Option String

module _ {Ip : Type 0} ⦃same : Eq Ip⦄ (parse_ip : String → Option Ip) (lib : JwtLibrary) where
  -- The checks of `stream`, in order, up to the entry in the map of streams.
  unfoldable pub admit :
      Config
      → JwtKeys
      → (String → Bool)
      → ℕ
      → Option String
      → Option Ip
      → FirstMessage
      → Result Status Admitted
  admit config keys is_revoked now authorization peer_ip first = do
    jwt ← bearer authorization
    verified ←
        or_status (verify_jwt lib jwt keys is_revoked now config.max_token_lifetime_secs)
          unauthenticated
    _ ← require (team_id_satisfied verified.team_id config.require_team_id) unauthenticated
    hello ← read_hello first
    _ ←
        require (schema_overlaps hello.schema_min hello.schema_max flux_schema_min flux_schema_max)
          failed_precondition
    _ ←
        or_status
          (decide_host_binding parse_ip verified.host_id hello.host_mgmt_ip peer_ip
            config.require_host_binding)
          unauthenticated
    ok (record {
      host_id = verified.host_id;
      caps =
          effective_capabilities hello.capabilities verified.caps
            config.allow_wildcard_capabilities;
      advertised_caps = hello.capabilities;
      exp = verified.exp;
      team_id = verified.team_id;
    })

-- The two shared maps.
pub record Hub (Tx Body : Type 0) : Type 0 where
  pub streams : Streams Tx
  pub pending : Pending Body

-- What the loop of the stream selects: a message, the end or an error of the stream, or `expiry`.
-- A response carries what `ResponseBody::try_from_proto` made of it.
pub data Inbound (Body : Type 0) : Type 0 where
  response : String → Option Body → Inbound Body
  resource_status pong duplicate_hello empty_message : Inbound Body
  stream_end stream_error token_expiry : Inbound Body

pub data DisconnectReason : Type 0 where
  stream_closed_reason stream_error_reason token_expired_reason : DisconnectReason

module _ {Body : Type 0} where
  unfoldable pub deliver_response :
      String → Option Body → ℕ → Pending Body → Pending Body × List (ℕ × Body)
  unfolding get_pending deliver
  deliver_response request_id body now p = elim (get_pending p request_id) [
    | none ↦ (p, [])
    | some _ ↦ elim body [ none ↦ (p, []) | some b ↦ deliver request_id b now p ]
  ]

module _ {Tx Body : Type 0} where
  -- `self.streams.insert` of `stream`
  unfoldable pub open_stream : Admitted → Tx → ℕ → Hub Tx Body → Hub Tx Body
  unfolding insert_stream
  open_stream a tx now hub = record hub {
    streams =
        insert_stream a.host_id
          (record { tx = tx; caps = a.caps; advertised_caps = a.advertised_caps }) now hub.streams;
  }

  -- One round of the loop: the maps, what was sent to parked handlers, and the reason to leave.
  unfoldable pub on_inbound :
      String
      → Inbound Body
      → ℕ
      → Hub Tx Body
      → Hub Tx Body × List (ℕ × Body) × Option DisconnectReason
  unfolding deliver_response touch
  on_inbound host_id (response request_id body) now hub =
      let (p, sent) = deliver_response request_id body now hub.pending in
      (record hub { pending = p }, sent, none)
  on_inbound host_id pong now hub =
      (record hub { streams = (touch host_id now hub.streams).0 }, [], none)
  on_inbound host_id stream_end now hub = (hub, [], some stream_closed_reason)
  on_inbound host_id stream_error now hub = (hub, [], some stream_error_reason)
  on_inbound host_id token_expiry now hub = (hub, [], some token_expired_reason)
  on_inbound host_id _ now hub = (hub, [], none)

  -- After the loop: `streams.remove`
  unfoldable pub close_stream : String → Hub Tx Body → Hub Tx Body
  unfolding remove_stream
  close_stream host_id hub = record hub { streams = remove_stream host_id hub.streams }
