-- ===== src/Flux/Envelope.antt =====
-- flux/src/envelope.rs: the commands that the control plane dispatches, and the answers it gets.
-- JSON values are a parameter.
use coold.Prelude.{string_eq, nat_eq, ℕ, String, Bool, List}

pub record PortMapping : Type 0 where
  pub host_ip : String
  pub host_port : ℕ
  pub container_port : ℕ
  pub protocol : String

pub record IngressAppConfig : Type 0 where
  pub name : String
  pub config : String

-- The fields of `CommandPayload::ContainersCreate`.
pub record ContainersCreate : Type 0 where
  pub name : String
  pub image : String
  pub command : List String
  pub env : List String
  pub networks : List String
  pub volumes : List String
  pub ports : List PortMapping
  pub dns : List String
  pub dns_search : List String
  pub network_aliases : List String
  pub restart_policy : String
  pub privileged : Bool
  pub network_mode : String
  pub capabilities : List String

pub data CommandPayload : Type 0 where
  images_pull : String → CommandPayload
  images_list : CommandPayload
  images_delete : String → Bool → CommandPayload
  containers_create : ContainersCreate → CommandPayload
  containers_start : String → CommandPayload
  containers_stop : String → ℕ → CommandPayload
  containers_restart : String → ℕ → CommandPayload
  containers_delete : String → Bool → CommandPayload
  containers_inspect : String → CommandPayload
  containers_list : CommandPayload
  containers_logs : String → ℕ → Bool → Bool → CommandPayload
  containers_exec : String → List String → CommandPayload
  containers_healthcheck_run : String → CommandPayload
  -- kind, config, apps, mesh_network
  apply_ingress : String → String → List IngressAppConfig → String → CommandPayload
  stop_ingress : String → CommandPayload
  -- id, namespace, src, dst, proto, port
  firewall_allow : String → String → String → String → String → ℕ → CommandPayload
  firewall_revoke : String → CommandPayload
  firewall_list : String → CommandPayload
  firewall_reconcile : CommandPayload
  coold_logs : ℕ → CommandPayload
  corrosion_tables : ℕ → CommandPayload
  host_jwt_set : String → CommandPayload

pub record DispatchEnvelope : Type 0 where
  pub host_id : String
  pub request_id : String
  pub command : CommandPayload

-- `CommandPayload::kind`
unfoldable pub command_kind : CommandPayload → String
command_kind (images_pull _) = "images.pull"
command_kind images_list = "images.list"
command_kind (images_delete _ _) = "images.delete"
command_kind (containers_create _) = "containers.create"
command_kind (containers_start _) = "containers.start"
command_kind (containers_stop _ _) = "containers.stop"
command_kind (containers_restart _ _) = "containers.restart"
command_kind (containers_delete _ _) = "containers.delete"
command_kind (containers_inspect _) = "containers.inspect"
command_kind containers_list = "containers.list"
command_kind (containers_logs _ _ _ _) = "containers.logs"
command_kind (containers_exec _ _) = "containers.exec"
command_kind (containers_healthcheck_run _) = "containers.healthcheck.run"
command_kind (apply_ingress _ _ _ _) = "ingress.apply"
command_kind (stop_ingress _) = "ingress.stop"
command_kind (firewall_allow _ _ _ _ _ _) = "firewall.allow"
command_kind (firewall_revoke _) = "firewall.revoke"
command_kind (firewall_list _) = "firewall.list"
command_kind firewall_reconcile = "firewall.reconcile"
command_kind (coold_logs _) = "coold.logs"
command_kind (corrosion_tables _) = "corrosion.tables"
command_kind (host_jwt_set _) = "host.jwt.set"

pub data ResponseBody (Json : Type 0) : Type 0 where
  ok_body : Json → ResponseBody Json
  error_body : ℕ → String → ResponseBody Json

pub record ResponseEnvelope (Json : Type 0) : Type 0 where
  pub request_id : String
  pub body : ResponseBody Json
