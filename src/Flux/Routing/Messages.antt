-- ===== src/Flux/Routing/Messages.antt =====
-- The messages that flux sends to coold (proto/agent.proto), and the translation of a command
-- into one: the second half of `route_coold` in flux/src/routing.rs.
use coold.Prelude.{string_eq, nat_eq, ℕ, String, Bool, Option, some, List, map}
use coold.Flux.Envelope
use coold.Flux.Envelope.{CommandPayload}

pub record ProtoPortMapping : Type 0 where
  pub host_ip : String
  pub host_port : ℕ
  pub container_port : ℕ
  pub protocol : String

pub record ProtoIngressAppConfig : Type 0 where
  pub name : String
  pub config : String

pub record FirewallRule : Type 0 where
  pub id : String
  pub namespace : String
  pub src : String
  pub dst : String
  pub proto : String
  pub port : ℕ

pub record ContainersCreateReq : Type 0 where
  pub name : String
  pub image : String
  pub command : List String
  pub env : List String
  pub networks : List String
  pub volumes : List String
  pub ports : List ProtoPortMapping
  pub dns : List String
  pub dns_search : List String
  pub network_aliases : List String
  pub restart_policy : String
  pub privileged : Bool
  pub network_mode : String
  pub capabilities : List String

pub record ContainersStopReq : Type 0 where
  pub id : String
  pub timeout_seconds : ℕ

pub record ContainersLogsReq : Type 0 where
  pub id : String
  pub tail : ℕ
  pub stdout : Bool
  pub stderr : Bool

pub record ApplyIngressReq : Type 0 where
  pub kind : String
  pub config : String
  pub apps : List ProtoIngressAppConfig
  pub mesh_network : String

-- `server_msg::Command`, with the fields of its request messages.
pub data ServerCommand : Type 0 where
  ping : ServerCommand
  images_pull : String → ServerCommand
  images_list : ServerCommand
  images_delete : String → Bool → ServerCommand
  containers_create : ContainersCreateReq → ServerCommand
  containers_start : String → ServerCommand
  containers_stop : ContainersStopReq → ServerCommand
  containers_restart : String → ℕ → ServerCommand
  containers_delete : String → Bool → ServerCommand
  containers_inspect : String → ServerCommand
  containers_list : ServerCommand
  containers_logs : ContainersLogsReq → ServerCommand
  containers_exec : String → List String → ServerCommand
  containers_healthcheck_run : String → ServerCommand
  ingress_apply : ApplyIngressReq → ServerCommand
  ingress_stop : String → ServerCommand
  firewall_allow : Option FirewallRule → ServerCommand
  firewall_revoke : String → ServerCommand
  firewall_list : String → ServerCommand
  firewall_reconcile : ServerCommand
  coold_logs : ℕ → ServerCommand
  corrosion_tables : ℕ → ServerCommand
  host_jwt_set : String → ServerCommand

pub record ServerMsg : Type 0 where
  pub request_id : String
  pub command : Option ServerCommand

abbrev pub proto_port : Envelope.PortMapping → ProtoPortMapping
proto_port port = record {
  host_ip = port.host_ip;
  host_port = port.host_port;
  container_port = port.container_port;
  protocol = port.protocol;
}

abbrev pub proto_app : Envelope.IngressAppConfig → ProtoIngressAppConfig
proto_app app = record { name = app.name; config = app.config }

unfoldable pub create_req : Envelope.ContainersCreate → ContainersCreateReq
create_req c = record {
  name = c.name;
  image = c.image;
  command = c.command;
  env = c.env;
  networks = c.networks;
  volumes = c.volumes;
  ports = map proto_port c.ports;
  dns = c.dns;
  dns_search = c.dns_search;
  network_aliases = c.network_aliases;
  restart_policy = c.restart_policy;
  privileged = c.privileged;
  network_mode = c.network_mode;
  capabilities = c.capabilities;
}

-- The `match env.command` of `route_coold`.
unfoldable pub command_of : CommandPayload → ServerCommand
unfolding create_req
command_of (CommandPayload.images_pull reference) = images_pull reference
command_of CommandPayload.images_list = images_list
command_of (CommandPayload.images_delete reference force) = images_delete reference force
command_of (CommandPayload.containers_create c) = containers_create (create_req c)
command_of (CommandPayload.containers_start id) = containers_start id
command_of (CommandPayload.containers_stop id timeout_seconds) =
    containers_stop (record { id = id; timeout_seconds = timeout_seconds })
command_of (CommandPayload.containers_restart id timeout_seconds) =
    containers_restart id timeout_seconds
command_of (CommandPayload.containers_delete id force) = containers_delete id force
command_of (CommandPayload.containers_inspect id) = containers_inspect id
command_of CommandPayload.containers_list = containers_list
command_of (CommandPayload.containers_logs id tail stdout stderr) =
    containers_logs (record { id = id; tail = tail; stdout = stdout; stderr = stderr })
command_of (CommandPayload.containers_exec id command) = containers_exec id command
command_of (CommandPayload.containers_healthcheck_run id) = containers_healthcheck_run id
command_of (CommandPayload.apply_ingress kind config apps mesh_network) = ingress_apply (record {
  kind = kind;
  config = config;
  apps = map proto_app apps;
  mesh_network = mesh_network;
})
command_of (CommandPayload.stop_ingress kind) = ingress_stop kind
command_of (CommandPayload.firewall_allow id namespace src dst proto port) = firewall_allow (
    some
      (record { id = id; namespace = namespace; src = src; dst = dst; proto = proto; port = port }))
command_of (CommandPayload.firewall_revoke id) = firewall_revoke id
command_of (CommandPayload.firewall_list namespace) = firewall_list namespace
command_of CommandPayload.firewall_reconcile = firewall_reconcile
command_of (CommandPayload.coold_logs tail) = coold_logs tail
command_of (CommandPayload.corrosion_tables limit) = corrosion_tables limit
command_of (CommandPayload.host_jwt_set jwt) = host_jwt_set jwt
