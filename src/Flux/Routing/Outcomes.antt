-- ===== src/Flux/Routing/Outcomes.antt =====
-- What `route_coold` (flux/src/routing.rs) decides, and what its message carries.
use coold.Prelude.{
  Bool-cases, Option-cases, string_eq, nat_eq, contains, ℕ, String, ◌≡◌, refl, sym, ap, ◌∙◌, ◌⊎◌,
  inl, inr, true, false, Option, none, some, List, [], ◌∷◌, map, arith,
}
use coold.Flux.Streams.{StreamHandle, Streams, get_stream}
use coold.Flux.Envelope
use coold.Flux.Routing.Messages
use coold.Flux.Routing.{send_coold, push_error, required_capability, route_to, route_coold}

port_of : Messages.ProtoPortMapping → Envelope.PortMapping
port_of port = record {
  host_ip = port.host_ip;
  host_port = port.host_port;
  container_port = port.container_port;
  protocol = port.protocol;
}

app_of : Messages.ProtoIngressAppConfig → Envelope.IngressAppConfig
app_of app = record { name = app.name; config = app.config }

create_of : Messages.ContainersCreateReq → Envelope.ContainersCreate
unfolding port_of
create_of c = record {
  name = c.name;
  image = c.image;
  command = c.command;
  env = c.env;
  networks = c.networks;
  volumes = c.volumes;
  ports = map port_of c.ports;
  dns = c.dns;
  dns_search = c.dns_search;
  network_aliases = c.network_aliases;
  restart_policy = c.restart_policy;
  privileged = c.privileged;
  network_mode = c.network_mode;
  capabilities = c.capabilities;
}

-- The command that a message stands for; a ping and an empty message stand for none.
unfoldable pub payload_of : Option Messages.ServerCommand → Option Envelope.CommandPayload
unfolding create_of app_of
payload_of none = none
payload_of (some Messages.ping) = none
payload_of (some (Messages.images_pull reference)) = some (Envelope.images_pull reference)
payload_of (some Messages.images_list) = some Envelope.images_list
payload_of (some (Messages.images_delete reference force)) =
    some (Envelope.images_delete reference force)
payload_of (some (Messages.containers_create c)) = some (Envelope.containers_create (create_of c))
payload_of (some (Messages.containers_start id)) = some (Envelope.containers_start id)
payload_of (some (Messages.containers_stop r)) =
    some (Envelope.containers_stop r.id r.timeout_seconds)
payload_of (some (Messages.containers_restart id timeout)) =
    some (Envelope.containers_restart id timeout)
payload_of (some (Messages.containers_delete id force)) = some (Envelope.containers_delete id force)
payload_of (some (Messages.containers_inspect id)) = some (Envelope.containers_inspect id)
payload_of (some Messages.containers_list) = some Envelope.containers_list
payload_of (some (Messages.containers_logs r)) =
    some (Envelope.containers_logs r.id r.tail r.stdout r.stderr)
payload_of (some (Messages.containers_exec id command)) = some (Envelope.containers_exec id command)
payload_of (some (Messages.containers_healthcheck_run id)) =
    some (Envelope.containers_healthcheck_run id)
payload_of (some (Messages.ingress_apply r)) =
    some (Envelope.apply_ingress r.kind r.config (map app_of r.apps) r.mesh_network)
payload_of (some (Messages.ingress_stop kind)) = some (Envelope.stop_ingress kind)
payload_of (some (Messages.firewall_allow none)) = none
payload_of (some (Messages.firewall_allow (some r))) =
    some (Envelope.firewall_allow r.id r.namespace r.src r.dst r.proto r.port)
payload_of (some (Messages.firewall_revoke id)) = some (Envelope.firewall_revoke id)
payload_of (some (Messages.firewall_list namespace)) = some (Envelope.firewall_list namespace)
payload_of (some Messages.firewall_reconcile) = some Envelope.firewall_reconcile
payload_of (some (Messages.coold_logs tail)) = some (Envelope.coold_logs tail)
payload_of (some (Messages.corrosion_tables limit)) = some (Envelope.corrosion_tables limit)
payload_of (some (Messages.host_jwt_set jwt)) = some (Envelope.host_jwt_set jwt)

map-port_of :
    (ports : List Envelope.PortMapping) → map port_of (map Messages.proto_port ports) ≡ ports
unfolding port_of
map-port_of [] = refl
map-port_of (p ∷ ports) = ap (◌∷◌ p) (map-port_of ports)

map-app_of :
    (apps : List Envelope.IngressAppConfig) → map app_of (map Messages.proto_app apps) ≡ apps
unfolding app_of
map-app_of [] = refl
map-app_of (a ∷ apps) = ap (◌∷◌ a) (map-app_of apps)

create_of-create_req : (c : Envelope.ContainersCreate) → create_of (Messages.create_req c) ≡ c
unfolding create_of Messages.create_req
create_of-create_req c = λ i. record c { ports = map-port_of c.ports i }

-- The message that carries a command determines it: every field arrives, in its place.
pub payload_of-command_of :
    (c : Envelope.CommandPayload) → payload_of (some (Messages.command_of c)) ≡ some c
payload_of-command_of (Envelope.containers_create c) =
    unfold payload_of Messages.command_of in
    ap (λ d. some (Envelope.containers_create d)) (create_of-create_req c)
payload_of-command_of (Envelope.apply_ingress kind config apps mesh) =
    unfold payload_of Messages.command_of in
    ap (λ d. some (Envelope.apply_ingress kind config d mesh)) (map-app_of apps)
payload_of-command_of _ = unfold payload_of Messages.command_of in refl

-- The capability that routing asks for is the command's own name.
pub required_capability-command_kind :
    (c : Envelope.CommandPayload) → required_capability c ≡ Envelope.command_kind c
unfolding required_capability Envelope.command_kind
required_capability-command_kind (Envelope.images_pull r) = refl
required_capability-command_kind _ = refl

module _ {Tx : Type 0} where
  route_to_sends :
      (stream : StreamHandle Tx) (env : Envelope.DispatchEnvelope) (host : String)
      (msg : Messages.ServerMsg)
      → route_to stream env ≡ send_coold host msg
      → (contains stream.caps (required_capability env.command) ≡ true)
        × (env.host_id ≡ host)
        × (msg ≡ record {
          request_id = env.request_id;
          command = some (Messages.command_of env.command);
        })
  unfolding route_to
  route_to_sends stream env host msg h =
      elim (Bool-cases (contains stream.caps (required_capability env.command))) [
        | inl held ↦ (held, ground arith, ground arith)
        | inr lacked ↦ absurd (ground arith)
      ]

  -- A command is sent on only if its host is connected and its stream holds the command's
  -- capability; it goes to the host that was named, under the request id that was given, and the
  -- message carries exactly the command.
  pub route_coold_sends :
      (streams : Streams Tx) (env : Envelope.DispatchEnvelope) (host : String)
      (msg : Messages.ServerMsg)
      → route_coold streams env ≡ send_coold host msg
      → (stream : StreamHandle Tx) × (get_stream streams env.host_id ≡ some stream)
        × (contains stream.caps (Envelope.command_kind env.command) ≡ true)
        × (host ≡ env.host_id)
        × (msg.request_id ≡ env.request_id)
        × (payload_of msg.command ≡ some env.command)
  route_coold_sends streams env host msg h = elim (Option-cases (get_stream streams env.host_id)) [
    | inl miss ↦ absurd (unfold route_coold in ground arith)
    | inr (stream, hit) ↦
        let (held, to, built) =
          route_to_sends stream env host msg (unfold route_coold in ground arith) in
        (
          stream,
          hit,
          rw (required_capability-command_kind env.command) at held,
          sym to,
          ap (λ (m : Messages.ServerMsg). m.request_id) built,
          ap (λ (m : Messages.ServerMsg). payload_of m.command) built
              ∙ payload_of-command_of env.command,
        )
  ]

  pub route_coold_built :
      (streams : Streams Tx) (env : Envelope.DispatchEnvelope) (host : String)
      (msg : Messages.ServerMsg)
      → route_coold streams env ≡ send_coold host msg
      → msg
        ≡ record { request_id = env.request_id; command = some (Messages.command_of env.command) }
  route_coold_built streams env host msg h = elim (Option-cases (get_stream streams env.host_id)) [
    | inl absent ↦ absurd (unfold route_coold in ground arith)
    | inr (stream, hit) ↦
        let (_, _, built) =
          route_to_sends stream env host msg (unfold route_coold in ground arith) in
        built
  ]

  -- A refusal says why: it is a 404 and the host is not connected; or the host's stream lacks the
  -- capability that has the name of the command, and it is a 403 although the host advertised that, or
  -- a 501 because it did not.
  pub route_coold_refuses :
      (streams : Streams Tx) (env : Envelope.DispatchEnvelope) (code : ℕ) (text : String)
      → route_coold streams env ≡ push_error code text
      → ((code ≡ 404) × (get_stream streams env.host_id ≡ none))
        ⊎ ((stream : StreamHandle Tx) × (get_stream streams env.host_id ≡ some stream)
            × (contains stream.caps (Envelope.command_kind env.command) ≡ false)
            × (((code ≡ 403)
                  × (contains stream.advertised_caps (Envelope.command_kind env.command) ≡ true))
                ⊎ ((code ≡ 501)
                    × (contains stream.advertised_caps (Envelope.command_kind env.command)
                        ≡ false))))
  unfolding route_coold
  route_coold_refuses streams env code text h =
      let name = required_capability-command_kind env.command in
      elim (Option-cases (get_stream streams env.host_id)) [
        | inl miss ↦ inl (ground arith, miss)
        | inr (stream, hit) ↦ inr (
          stream,
          hit,
          rw name at (refused stream (ground arith)).0,
          rw name at (refused stream (ground arith)).1,
        )
      ]
    where
      refused :
          (stream : StreamHandle Tx)
          → route_to stream env ≡ push_error code text
          → (contains stream.caps (required_capability env.command) ≡ false)
            × (((code ≡ 403)
                  × (contains stream.advertised_caps (required_capability env.command) ≡ true))
                ⊎ ((code ≡ 501)
                    × (contains stream.advertised_caps (required_capability env.command) ≡ false)))
      refused stream e =
          elim (Bool-cases (contains stream.advertised_caps (required_capability env.command))) [
            | inl had ↦
                (unfold route_to in ground arith, inl (unfold route_to in ground arith, had))
            | inr lacked ↦
                (unfold route_to in ground arith, inr (unfold route_to in ground arith, lacked))
          ]
