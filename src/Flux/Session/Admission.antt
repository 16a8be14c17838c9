-- ===== src/Flux/Session/Admission.antt =====
-- What a stream that flux lets in has shown (`FluxAgent::stream` in flux/src/main.rs).
use Prim.Native.Char.{code}
use text.Mathlib.TextEquality.{Char-path}
use text.Mathlib.TextLemmas.{nil-append, cons-append}
use Prim.Native.String.{◌++◌ as append}
use mathlib.Core.Path.{ap₂}
use coold.Prelude.{
  Bool-cases, Option-cases, Eq, string_eq, nat_eq, ◌==◌, ==_iff, contains, Result, ok, err,
  Result-cases, strip_prefix, trim_is_empty, ℕ, ◌≤◌, String, ◌≡◌, refl, sym, ap, ◌∙◌, ◌⊎◌, inl, inr,
  Bool, true, false, Option, none, some, arith,
}
use coold.Flux.Streams.{StreamHandle, Streams, get_stream}
use coold.Flux.Capabilities.{
  effective_capabilities, flux_schema_min, flux_schema_max, schema_overlaps,
  effective_capabilities_strict,
}
use coold.Flux.Auth.{JwtLibrary, VerifiedJwt, JwtKeys, verify_jwt, team_id_satisfied}
use coold.Flux.Auth.Binding.{decide_host_binding, decide_host_binding_enforced, Accepted, Binds}
use coold.Flux.Auth.Verified.{Grounds, verify_jwt-Grounds}
use coold.Flux.Envelope
use coold.Flux.Routing.Messages
use coold.Flux.Routing.{send_coold, route_coold}
use coold.Flux.Routing.Outcomes.{route_coold_sends}
use coold.Flux.Session.{
  Config, Hello, FirstMessage, hello_message, other_message, no_message, read_failure, Status,
  bearer, read_hello, or_status, require, Admitted, admit,
}

require-true : (b : Bool) (s : Status) {r : Bool} → require b s ≡ ok r → b ≡ true
require-true true s h = refl
require-true false s h = cc

Status-cases :
    {E A : Type 0} (r : Result E A) (s : Status) {a : A} → or_status r s ≡ ok a → r ≡ ok a
Status-cases (ok a) s h = ground arith
Status-cases (err e) s h = cc

read_hello-ok :
    (first : FirstMessage) {hello : Hello}
    → read_hello first ≡ ok hello
    → first ≡ hello_message hello
unfolding read_hello
read_hello-ok (hello_message h) e = ground arith
read_hello-ok other_message e = cc
read_hello-ok no_message e = cc
read_hello-ok read_failure e = cc

strip_prefix-append :
    (p s : String) {rest : String} → strip_prefix p s ≡ some rest → s ≡ append p rest
unfolding strip_prefix
strip_prefix-append String.[] s {rest} h =
    let same : s ≡ rest = ground (arith, h) in same ∙ sym (nil-append rest)
strip_prefix-append (String.◌∷◌ c p) String.[] {rest} h = absurd (ground (arith, h))
strip_prefix-append (String.◌∷◌ c p) (String.◌∷◌ d s) {rest} h =
    elim (Bool-cases (code c == code d)) [
      | inr other ↦ absurd (ground (arith, h, other))
      | inl same ↦
          let tail = strip_prefix-append p s (ground (arith, h, same)) in
          let first : c ≡ d = Char-path c d ((==_iff (code c) (code d)).0 same) in
          ap₂ String.◌∷◌ (sym first) tail ∙ sym (cons-append c p rest)
    ]

bearer-append :
    (authorization : Option String) (jwt : String)
    → bearer authorization ≡ ok jwt
    → authorization ≡ some (append "Bearer " jwt)
unfolding bearer
bearer-append none jwt h = absurd (ground (arith, h))
bearer-append (some value) jwt h = elim (Option-cases (strip_prefix "Bearer " value)) [
  | inl miss ↦ absurd (ground (arith, h, miss))
  | inr (rest, hit) ↦
      let same : rest ≡ jwt = ground (arith, h, hit) in
      ap (λ v. some v) (rw same at (strip_prefix-append "Bearer " value hit))
]

-- A tenant that is not blank, where one is required.
abbrev pub HasTenant : Bool → Option String → Type 0
HasTenant required team_id =
    (required ≡ false) ⊎ ((team : String) × (team_id ≡ some team) × (trim_is_empty team ≡ false))

-- Neither range of schema versions lies wholly above the other.
abbrev pub SpeaksAlike : Hello → Type 0
SpeaksAlike hello = (hello.schema_min ≤ flux_schema_max) × (flux_schema_min ≤ hello.schema_max)

team_id_satisfied-HasTenant :
    (team_id : Option String) (required : Bool)
    → team_id_satisfied team_id required ≡ true
    → HasTenant required team_id
unfolding team_id_satisfied
team_id_satisfied-HasTenant team_id false h = inl refl
team_id_satisfied-HasTenant none true h = absurd (ground (arith, h))
team_id_satisfied-HasTenant (some team) true h = inr (team, refl, ground (arith, h))

schema_overlaps-SpeaksAlike :
    (hello : Hello)
    → schema_overlaps hello.schema_min hello.schema_max flux_schema_min flux_schema_max ≡ true
    → SpeaksAlike hello
unfolding schema_overlaps
schema_overlaps-SpeaksAlike hello h = (ground (arith, h), ground (arith, h))

module _ {Ip : Type 0} ⦃same : Eq Ip⦄ (parse_ip : String → Option Ip) (lib : JwtLibrary) where
  bound_of :
      (required : Bool) (sub advertised : String) (peer : Option Ip)
      → Accepted parse_ip (decide_host_binding parse_ip sub advertised peer required)
      → (required ≡ false) ⊎ Binds parse_ip sub advertised peer (parse_ip sub)
  bound_of false sub advertised peer accepted = inl refl
  bound_of true sub advertised peer accepted =
      inr ((decide_host_binding_enforced parse_ip sub advertised peer).0 accepted)

  -- The evidence behind a stream that is let in.
  pub record Evidence (config : Config) (keys : JwtKeys) (is_revoked : String → Bool) (now : ℕ)
      (authorization : Option String) (peer_ip : Option Ip) (first : FirstMessage) (a : Admitted)
      : Type 0 where
    pub jwt : String
    pub verified : VerifiedJwt
    pub hello : Hello
    pub presented : authorization ≡ some (append "Bearer " jwt)
    pub checked : Grounds lib jwt keys is_revoked now config.max_token_lifetime_secs verified
    pub tenant : HasTenant config.require_team_id verified.team_id
    pub greeted : first ≡ hello_message hello
    pub compatible : SpeaksAlike hello
    pub bound :
        (config.require_host_binding ≡ false)
        ⊎ Binds parse_ip verified.host_id hello.host_mgmt_ip peer_ip (parse_ip verified.host_id)
    pub result : a ≡ record {
      host_id = verified.host_id;
      caps =
          effective_capabilities hello.capabilities verified.caps
            config.allow_wildcard_capabilities;
      advertised_caps = hello.capabilities;
      exp = verified.exp;
      team_id = verified.team_id;
    }

  -- A stream is let in only with a header that is `Bearer ` and a token, on the grounds on
  -- which `verify_jwt` accepts a token, with a tenant that is not
  -- blank where one is required, a Hello first, and a schema range that begins no later than flux's
  -- ends and ends no earlier than flux's begins. Where the binding is enforced, the peer has the
  -- address that the token's subject spells, or, if there is no peer or no such address, the Hello
  -- repeats the subject. The stream is registered under the token's subject, with the capabilities that token and Hello give.
  pub admit-Evidence :
      (config : Config) (keys : JwtKeys) (is_revoked : String → Bool) (now : ℕ)
      (authorization : Option String) (peer_ip : Option Ip) (first : FirstMessage) (a : Admitted)
      → admit parse_ip lib config keys is_revoked now authorization peer_ip first ≡ ok a
      → Evidence config keys is_revoked now authorization peer_ip first a
  unfolding admit
  admit-Evidence config keys is_revoked now authorization peer_ip first a h =
      elim (Result-cases (bearer authorization)) [
        | inr (e, p) ↦ absurd (ground arith)
        | inl (jwt, p) ↦
            elim (Result-cases
              (verify_jwt lib jwt keys is_revoked now config.max_token_lifetime_secs)) [
                | inr (e, q) ↦ absurd (ground arith)
                | inl (verified, q) ↦
                    elim (Bool-cases (team_id_satisfied verified.team_id config.require_team_id)) [
                      | inr t ↦ absurd (ground arith)
                      | inl t ↦ elim (Result-cases (read_hello first)) [
                        | inr (e, r) ↦ absurd (ground arith)
                        | inl (hello, r) ↦ after_hello jwt verified hello p q t r
                      ]
                    ]
              ]
      ]
    where
      after_hello :
          (jwt : String) (verified : VerifiedJwt) (hello : Hello)
          → bearer authorization ≡ ok jwt
          → verify_jwt lib jwt keys is_revoked now config.max_token_lifetime_secs ≡ ok verified
          → team_id_satisfied verified.team_id config.require_team_id ≡ true
          → read_hello first ≡ ok hello
          → Evidence config keys is_revoked now authorization peer_ip first a
      after_hello jwt verified hello p q t r =
          elim (Bool-cases
            (schema_overlaps hello.schema_min hello.schema_max flux_schema_min flux_schema_max)) [
              | inr s ↦ absurd (ground arith)
              | inl s ↦
                  elim (Result-cases (
                    decide_host_binding parse_ip verified.host_id hello.host_mgmt_ip peer_ip
                      config.require_host_binding)) [
                        | inr (e, b) ↦ absurd (ground arith)
                        | inl (binding, b) ↦ record {
                          jwt = jwt;
                          verified = verified;
                          hello = hello;
                          presented = bearer-append authorization jwt p;
                          checked =
                              verify_jwt-Grounds lib jwt keys is_revoked now
                                config.max_token_lifetime_secs verified q;
                          tenant =
                              team_id_satisfied-HasTenant verified.team_id config.require_team_id t;
                          greeted = read_hello-ok first r;
                          compatible = schema_overlaps-SpeaksAlike hello s;
                          bound =
                              bound_of config.require_host_binding verified.host_id
                                hello.host_mgmt_ip peer_ip (binding, b);
                          result = ground arith;
                        }
                      ]
            ]

  -- With the wildcard escape hatch off, take a stream that was let in and registered, and any
  -- command that is sent to its host while that registration stands. Then the token of the
  -- header was signed
  -- for a claim set that lists the command's capability by name, and the host advertised it.
  pub authorized_dispatch :
      {Tx : Type 0} (config : Config) (keys : JwtKeys) (is_revoked : String → Bool) (now : ℕ)
      (authorization : Option String) (peer_ip : Option Ip) (first : FirstMessage) (a : Admitted)
      (tx : Tx) (streams : Streams Tx) (env : Envelope.DispatchEnvelope) (host : String)
      (msg : Messages.ServerMsg)
      → config.allow_wildcard_capabilities ≡ false
      → admit parse_ip lib config keys is_revoked now authorization peer_ip first ≡ ok a
      → get_stream streams a.host_id
        ≡ some (record { tx = tx; caps = a.caps; advertised_caps = a.advertised_caps })
      → env.host_id ≡ a.host_id
      → route_coold streams env ≡ send_coold host msg
      → (jwt : String) × (v : VerifiedJwt) × (hello : Hello) × (authorization
          ≡ some (append "Bearer " jwt))
        × Grounds lib jwt keys is_revoked now config.max_token_lifetime_secs v
        × (first ≡ hello_message hello)
        × (contains v.caps (Envelope.command_kind env.command) ≡ true)
        × (contains hello.capabilities (Envelope.command_kind env.command) ≡ true)
  authorized_dispatch {Tx} config keys is_revoked now authorization peer_ip first a tx streams env
        host msg strict let_in registered same_host sent =
      let ev = admit-Evidence config keys is_revoked now authorization peer_ip first a let_in in
      let (stream, hit, held, to, id, carried) = route_coold_sends streams env host msg sent in
      let both = both_hold ev.verified ev.hello stream ev.result hit held in
      (ev.jwt, ev.verified, ev.hello, ev.presented, ev.checked, ev.greeted, both.0, both.1)
    where
      both_hold :
          (v : VerifiedJwt) (hello : Hello) (stream : StreamHandle Tx)
          → a ≡ record {
            host_id = v.host_id;
            caps =
                effective_capabilities hello.capabilities v.caps config.allow_wildcard_capabilities;
            advertised_caps = hello.capabilities;
            exp = v.exp;
            team_id = v.team_id;
          }
          → get_stream streams env.host_id ≡ some stream
          → contains stream.caps (Envelope.command_kind env.command) ≡ true
          → (contains v.caps (Envelope.command_kind env.command) ≡ true)
            × (contains hello.capabilities (Envelope.command_kind env.command) ≡ true)
      both_hold v hello stream built hit held = ground (
        arith,
        effective_capabilities_strict hello.capabilities v.caps (Envelope.command_kind env.command),
      )
