-- ===== src/Tests/Tokens.antt =====
-- A token, a host that presents it, and its stream (flux/src/auth.rs, flux/src/main.rs).
use Prim.Native.String.{◌++◌ as append}
use coold.Prelude.{
  if◌then◌else◌, String-discrete, string_eq, nat_eq, ◌==◌, contains, filter, lookup, ok, err,
  strip_prefix, ℕ, String, ◌≡◌, refl, ◌↔◌, Bool, true, false, ◌&&◌, Option, none, some, List, [],
  ◌∷◌, arith,
}
use coold.Flux.Streams.{StreamHandle, Streams, entry_of, get_stream}
use coold.Flux.Capabilities.{contains_wildcard_profile, effective_capabilities, schema_overlaps}
use coold.Flux.Auth.{
  es256, Header, Claims, JwtLibrary, VerifiedJwt, JwtKeys, ec, jti_revoked, resolve,
  seconds_until_expiry, lifetime_within_clamp, alg_allowed, accept_claims, load_key, decode_with,
  verify_jwt, team_id_satisfied,
}
use coold.Flux.Auth.Binding.{decide_host_binding, Accepted, Binds, decide_host_binding_enforced}
use coold.Flux.Auth.Verified.{Grounds}
use coold.Flux.Revocation.{RevocationStore, is_revoked, prune}
use coold.Flux.Revocation.Leeway.{sweep_revives_token}
use coold.Flux.Envelope
use coold.Flux.Routing.Messages
use coold.Flux.Routing.{send_coold, push_error, required_capability, route_to, route_coold}
use coold.Flux.Session.{
  Config, Hello, hello_message, bearer, read_hello, Admitted, admit, Hub, Inbound, pong,
  open_stream, close_stream,
}
use coold.Flux.Session.Admission.{Evidence, admit-Evidence, authorized_dispatch}
use coold.Flux.Session.Reconnect.{inbound_all, reconnect_lost}

abbrev the_header : Header
the_header = record { alg = es256; kid = none }

abbrev the_claims : Claims
the_claims = record {
  sub = "10.0.0.1";
  caps = "containers.list" ∷ "images.pull" ∷ [];
  exp = 1000;
  jti = some "j1";
  team_id = none;
}

-- A library that knows one token, signed with one key.
abbrev one_token : JwtLibrary
one_token = record {
  Key = String;
  decode_header = λ token. if token == "token" then some the_header else none;
  from_ec_pem = λ pem. some pem;
  from_rsa_pem = λ pem. none;
  decode =
      λ token key validation. if token == "token" && key == "pem" then some the_claims else none;
}

abbrev the_keys : JwtKeys
the_keys = record { default_pem = "pem"; by_kid = [] }

abbrev the_verified : VerifiedJwt
the_verified = record {
  host_id = "10.0.0.1";
  caps = "containers.list" ∷ "images.pull" ∷ [];
  exp = 1000;
  team_id = none;
}

abbrev nobody : String → Bool
nobody jti = false

abbrev one_address : String → Option ℕ
one_address s = if s == "10.0.0.1" then some 1 else none

decide_host_binding_enforced_example :
    Accepted one_address (decide_host_binding one_address "10.0.0.1" "liar" (some 1) true)
    ↔ Binds one_address "10.0.0.1" "liar" (some 1) (one_address "10.0.0.1")
decide_host_binding_enforced_example =
    decide_host_binding_enforced one_address "10.0.0.1" "liar" (some 1)

abbrev strict : Config
strict = record {
  max_token_lifetime_secs = 600;
  require_team_id = false;
  require_host_binding = true;
  allow_wildcard_capabilities = false;
}

abbrev the_hello : Hello
the_hello = record {
  host_mgmt_ip = "10.0.0.1";
  coold_version = "1";
  schema_min = 1;
  schema_max = 1;
  capabilities = "containers.list" ∷ "firewall.allow" ∷ [];
}

abbrev the_session : Admitted
the_session = record {
  host_id = "10.0.0.1";
  caps = "containers.list" ∷ [];
  advertised_caps = "containers.list" ∷ "firewall.allow" ∷ [];
  exp = 1000;
  team_id = none;
}

let_in :
    admit one_address one_token strict the_keys nobody 500
      (some "Bearer token")
      (some 1)
      (hello_message the_hello)
    ≡ ok the_session
unfolding admit bearer strip_prefix verify_jwt resolve load_key decode_with accept_claims
    lifetime_within_clamp seconds_until_expiry alg_allowed lookup team_id_satisfied read_hello
    schema_overlaps decide_host_binding effective_capabilities contains_wildcard_profile filter
    contains String-discrete native.Mathlib.Decide.ℕ_discrete
let_in = refl

admit-Evidence_example :
    Evidence one_address one_token strict the_keys nobody 500
      (some "Bearer token")
      (some 1)
      (hello_message the_hello)
      the_session
admit-Evidence_example =
    admit-Evidence one_address one_token strict the_keys nobody 500 (some "Bearer token") (some 1)
      (hello_message the_hello) the_session let_in

abbrev list_request : Envelope.DispatchEnvelope
list_request = record {
  host_id = "10.0.0.1";
  request_id = "r1";
  command = Envelope.containers_list;
}

abbrev the_handle : StreamHandle ℕ
the_handle = record {
  tx = 7;
  caps = the_session.caps;
  advertised_caps = the_session.advertised_caps;
}

abbrev one_stream : Streams ℕ
one_stream = ("10.0.0.1", entry_of the_handle 5) ∷ []

abbrev list_message : Messages.ServerMsg
list_message = record {
  request_id = "r1";
  command = some (Messages.command_of Envelope.containers_list);
}

sent : route_coold one_stream list_request ≡ send_coold "10.0.0.1" list_message
unfolding route_coold route_to get_stream required_capability contains lookup String-discrete
sent = refl

found :
    get_stream one_stream "10.0.0.1"
    ≡ some
        (record { tx = 7; caps = the_session.caps; advertised_caps = the_session.advertised_caps })
unfolding get_stream lookup String-discrete
found = refl

authorized_dispatch_example :
    (jwt : String) × (v : VerifiedJwt) × (hello : Hello) × (some "Bearer token"
      ≡ some (append "Bearer " jwt))
    × Grounds one_token jwt the_keys nobody 500 600 v
    × (hello_message the_hello ≡ hello_message hello)
    × (contains v.caps "containers.list" ≡ true)
    × (contains hello.capabilities "containers.list" ≡ true)
unfolding Envelope.command_kind
authorized_dispatch_example =
    authorized_dispatch one_address one_token strict the_keys nobody 500 (some "Bearer token")
      (some 1) (hello_message the_hello) the_session 7 one_stream list_request "10.0.0.1"
      list_message refl let_in found refl sent

abbrev the_hub : Hub ℕ ℕ
the_hub = record { streams = one_stream; pending = [] }

abbrev later_messages : List (Inbound ℕ × ℕ)
later_messages = (pong, 8) ∷ []

reconnect_lost_example :
    route_coold
      (inbound_all the_session.host_id later_messages
        (close_stream the_session.host_id (open_stream the_session 9 7 the_hub))).streams
      list_request
    ≡ push_error 404 "host not connected"
reconnect_lost_example = reconnect_lost the_session 9 7 the_hub later_messages list_request refl

abbrev denylist : RevocationStore
denylist = record { inner = ("j1", some 1000) ∷ []; path = true; file = none }

sweep_revives_token_example :
    (verify_jwt one_token "token" the_keys (is_revoked denylist) 1000 600 ≡ err (jti_revoked "j1"))
    × (verify_jwt one_token "token" the_keys (is_revoked (prune true 1000 denylist).0) 1000 600
        ≡ ok the_verified)
unfolding resolve load_key alg_allowed lookup String-discrete
sweep_revives_token_example =
    sweep_revives_token one_token "token" "pem" "j1" the_keys the_header "pem" ec the_claims
      denylist true 1000 600 refl refl refl refl refl refl (omega arith) (refl, tt) refl
