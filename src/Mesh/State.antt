-- ===== src/Mesh/State.antt =====
-- coolify-cli/src/wireguard/state.rs: what a probe finds on the hosts of a mesh, and what is desired
-- of it. A `BTreeMap` is a list of entries in the order of the keys; an address is a number.
-- `DesiredMesh` is the record of Mesh/Intent.antt, with the fields that only the plan reads around it.
use coold.Prelude.{
  and_then, string_eq, nat_eq, ◌==◌, contains, Map, lookup, take_until, ℕ, String, Bool, false,
  Option, none, some, List, [], ◌∷◌, ◌++◌,
}
use coold.Mesh.Texts.{sort_texts}
use coold.Mesh.Intent.{DesiredMesh}
use coold.Mesh.Subnets.{NetLibrary, insert_at}
use coold.Mesh.Services.Coold.{FluxConfig}

pub record Peer : Type 0 where
  pub public_key : String
  pub endpoint : String
  pub allowed_ips : List String
  pub persistent_keepalive : ℕ

pub record NamespaceServerState (Net : Type 0) : Type 0 where
  pub namespace : String
  pub network_exists : Bool
  pub container_subnet : Option Net
  pub dns_enabled : Bool
  pub label : String

pub record ServerState (Net : Type 0) : Type 0 where
  pub installed : Bool
  pub keys_exist : Bool
  pub public_key : String
  pub wireguard_mgmt_ip : Option ℕ
  pub listen_port : ℕ
  pub active : Bool
  pub peers : List Peer
  pub podman_installed : Bool
  pub podman_socket_active : Bool
  pub namespaces : Map String (NamespaceServerState Net)
  pub ip_forward_enabled : Bool
  pub firewall_active : Bool
  pub default_deny_active : Bool
  pub firewall_unit_sha256 : String
  pub nft_available : Bool
  pub corrosion_installed : Bool
  pub corrosion_active : Bool
  pub corrosion_config_hash : String
  pub corrosion_schema_exists : Bool
  pub corrosion_schema_sha256 : String
  pub coold_installed : Bool
  pub coold_active : Bool
  pub corrosion_version : String
  pub coold_version : String
  pub coold_unit_sha256 : String

-- `ServerState::default()`
abbrev pub unknown_server : {Net : Type 0} → ServerState Net
unknown_server = record {
  installed = false;
  keys_exist = false;
  public_key = "";
  wireguard_mgmt_ip = none;
  listen_port = 0;
  active = false;
  peers = [];
  podman_installed = false;
  podman_socket_active = false;
  namespaces = [];
  ip_forward_enabled = false;
  firewall_active = false;
  default_deny_active = false;
  firewall_unit_sha256 = "";
  nft_available = false;
  corrosion_installed = false;
  corrosion_active = false;
  corrosion_config_hash = "";
  corrosion_schema_exists = false;
  corrosion_schema_sha256 = "";
  coold_installed = false;
  coold_active = false;
  corrosion_version = "";
  coold_version = "";
  coold_unit_sha256 = "";
}

-- `servers` of `MeshState`
abbrev pub MeshState : Type 0 → Type 0
MeshState Net = Map String (ServerState Net)

pub record TlsPair : Type 0 where
  pub cert_pem : String
  pub key_pem : String

-- `DesiredMesh`; `desired` has the fields that the intents read.
pub record MeshRequest (Net : Type 0) : Type 0 where
  pub desired : DesiredMesh
  pub hosts : List String
  pub interface : String
  pub mgmt_pool : Net
  pub container_pool : Net
  pub container_prefix : ℕ
  pub listen_port : ℕ
  pub listen_port_overrides : Map String ℕ
  pub endpoint_overrides : Map String String
  pub install_podman : Bool
  pub namespaces : List String
  pub default_deny_containers : Bool
  pub install_coold : Bool
  pub corrosion_gossip_port : ℕ
  pub corrosion_api_port : ℕ
  pub coold_sha256 : Option String
  pub corrosion_sha256 : Option String
  pub corrosion_gossip_tls : Option TlsPair
  pub flux_tls : Option TlsPair
  pub flux_tls_url : Option String

abbrev ip_entry : String → Option ℕ → Map String ℕ
ip_entry h none = []
ip_entry h (some ip) = (h, ip) ∷ []

module _ {Net : Type 0} where
  unfoldable pub assigned_mgmt_ips : MeshState Net → Map String ℕ
  assigned_mgmt_ips [] = []
  assigned_mgmt_ips ((h, s) ∷ servers) = ip_entry h s.wireguard_mgmt_ip ++ assigned_mgmt_ips servers

  unfoldable pub is_node : MeshRequest Net → String → Bool
  unfolding contains
  is_node r host = contains r.desired.nodes host

  unfoldable pub coold_flux_config : MeshRequest Net → Option FluxConfig
  coold_flux_config r = and_then r.flux_tls_url (λ url. some (record {
    url = url;
    jwt_path = "/etc/coolify/host-jwt";
    tls_pin_path = some "/etc/coolify/flux.pin";
  }))

  unfoldable pub sorted_namespaces : MeshRequest Net → List String
  unfolding sort_texts
  sorted_namespaces r = sort_texts r.namespaces

  unfoldable pub listen_port_for : MeshRequest Net → String → ℕ
  unfolding lookup
  listen_port_for r host = elim (lookup host r.listen_port_overrides) [
    | some port ↦ port
    | none ↦ r.listen_port
  ]

  -- The host without what follows its first colon, unless it is overridden.
  unfoldable pub endpoint_for : MeshRequest Net → String → String
  unfolding lookup take_until
  endpoint_for r host = elim (lookup host r.endpoint_overrides) [
    | some endpoint ↦ endpoint
    | none ↦ take_until (λ c. c == 58) host
  ]

module _ (lib : NetLibrary) where
  open lib use {Net}

  abbrev add_subnet :
      String → String → Option Net → Map String (Map String Net) → Map String (Map String Net)
  add_subnet host ns none out = out
  add_subnet host ns (some net) out = insert_at lib ns host net out

  -- The loops over the namespaces of a server, and over the servers.
  unfoldable pub assigned_of :
      String
      → Map String (NamespaceServerState Net)
      → Map String (Map String Net)
      → Map String (Map String Net)
  assigned_of host [] out = out
  assigned_of host ((ns, st) ∷ namespaces) out =
      assigned_of host namespaces (add_subnet host ns st.container_subnet out)

  unfoldable pub assigned_from :
      MeshState Net → Map String (Map String Net) → Map String (Map String Net)
  unfolding assigned_of
  assigned_from [] out = out
  assigned_from ((host, s) ∷ servers) out =
      assigned_from servers (assigned_of host s.namespaces out)

  abbrev pub assigned_container_subnets : MeshState Net → Map String (Map String Net)
  assigned_container_subnets servers = assigned_from servers []
