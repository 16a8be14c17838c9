-- ===== src/Mesh/Phases/Second.antt =====
-- The second phase of coolify-cli/src/wireguard/apply.rs: WireGuard, networks and the firewall.
use coold.Prelude.{
  if◌then◌else◌, and_then, string_eq, nat_eq, ◌==◌, Map, lookup, is_empty, ℕ, String, Bool, ◌&&◌,
  ◌||◌, Option, some, List, [], ◌∷◌, ◌++◌, map,
}
use coold.Mesh.Intent.{
  write_config, enable_service, reload_service, create_podman_network, recreate_podman_network,
  install_firewall, PlannedAction,
}
use coold.Mesh.Subnets.{NetLibrary, existing_at}
use coold.Mesh.Texts.{concat}
use coold.Mesh.Config.{PeerConfig, write_config_command}
use coold.Mesh.Firewall.{install_firewall_command}
use coold.Mesh.State.{
  MeshState, MeshRequest, is_node, sorted_namespaces, listen_port_for, endpoint_for,
}
use coold.Mesh.Planning.Hosts.{PlanLibrary, state_of}
use coold.Mesh.Planning.Nodes.{podman_network_for, host_subnets, machine_ip}
use coold.Mesh.Phases.{Step, action_type_eq, should_run, step_if, or_panic}

module _ (lib : NetLibrary) (print : PlanLibrary lib) where
  open lib use {Net}
  open print use {show_net, show_ip}

  abbrev peer_subnets :
      MeshRequest Net → Map String (Map String Net) → String → Option (List (String × Net))
  peer_subnets r subnets p =
      if is_node r p then host_subnets lib print subnets p (sorted_namespaces r) else some []

  -- `mgmt[p]` and `subnets[ns][p]` of a peer whose key is known.
  unfoldable pub peer_config :
      MeshRequest Net
      → Map String ℕ
      → Map String (Map String Net)
      → String
      → String
      → Option PeerConfig
  unfolding endpoint_for lookup host_subnets
  peer_config r mgmt subnets p public_key = and_then (lookup p mgmt) (λ mgmt_ip.
      and_then (peer_subnets r subnets p) (λ nets. some (record {
        endpoint = endpoint_for r p;
        public_key = public_key;
        mgmt_ip = show_ip mgmt_ip;
        container_subnets = map (λ (e : String × Net). show_net e.1) nets;
      })))

  -- The loop that collects the peers of a host.
  unfoldable pub peer_configs :
      MeshRequest Net
      → MeshState Net
      → Map String ℕ
      → Map String (Map String Net)
      → String
      → List String
      → Option (List PeerConfig)
  unfolding peer_config lookup
  peer_configs r fresh mgmt subnets host [] = some []
  peer_configs r fresh mgmt subnets host (p ∷ hosts) =
      let rest = peer_configs r fresh mgmt subnets host hosts in
      let s = state_of fresh p in
      if p == host || is_empty s.public_key
      then rest
      else and_then (peer_config r mgmt subnets p s.public_key)
          (λ peer. and_then rest (λ peers. some (peer ∷ peers)))

  unfoldable pub service_command : String → Bool → String
  unfolding concat
  service_command interface active =
      if active
      then concat (
          "systemctl restart wg-quick@" ∷ interface ∷ " 2>&1 || wg syncconf " ∷ interface
          ∷ " <(wg-quick strip " ∷ interface ∷ ") 2>&1" ∷ [])
      else concat ("systemctl enable --now wg-quick@" ∷ interface ∷ " 2>&1" ∷ [])

  unfoldable pub network_command : Bool → String → Net → String
  unfolding concat podman_network_for
  network_command recreate ns net_ =
      let net = podman_network_for ns in
      let sn = show_net net_ in
      let gw = show_ip (machine_ip lib print net_) in
      if recreate
      then concat (
          "podman network rm -f " ∷ net
          ∷ " 2>&1 && podman network create --driver bridge --disable-dns --label io.coolify.managed=true --label io.coolify.namespace="
          ∷ ns ∷ " --subnet=" ∷ sn ∷ " --gateway=" ∷ gw ∷ " " ∷ net ∷ [])
      else concat (
          "podman network exists " ∷ net
          ∷ " 2>/dev/null && echo 'network exists, skipping' || podman network create --driver bridge --disable-dns --label io.coolify.managed=true --label io.coolify.namespace="
          ∷ ns ∷ " --subnet=" ∷ sn ∷ " --gateway=" ∷ gw ∷ " " ∷ net ∷ [])

  -- The loop over the namespaces.
  unfoldable pub network_steps :
      List PlannedAction → Map String (Map String Net) → String → List String → List Step
  unfolding should_run step_if network_command
  network_steps planned subnets host [] = []
  network_steps planned subnets host (ns ∷ names) =
      let create = should_run planned host create_podman_network ns in
      let recreate = should_run planned host recreate_podman_network ns in
      step_if (create || recreate)
        (if recreate then recreate_podman_network else create_podman_network) ns
        (and_then (existing_at lib subnets ns host) (λ net. some (network_command recreate ns net)))
      ++ network_steps planned subnets host names

  -- What follows the service, on a node.
  unfoldable pub podman_steps :
      MeshRequest Net → Map String (Map String Net) → List PlannedAction → String → List Step
  unfolding network_steps sorted_namespaces step_if should_run host_subnets install_firewall_command
  podman_steps r subnets planned host =
      network_steps planned subnets host (sorted_namespaces r)
      ++ step_if (should_run planned host install_firewall "") install_firewall "" (
          and_then (host_subnets lib print subnets host (sorted_namespaces r)) (λ nets. some (
            install_firewall_command r.interface (map (λ (e : String × Net). show_net e.1) nets)
              r.default_deny_containers)))

  unfoldable pub phase2 :
      MeshRequest Net
      → MeshState Net
      → Map String ℕ
      → Map String (Map String Net)
      → List PlannedAction
      → String
      → List Step
  unfolding or_panic peer_configs step_if should_run write_config_command listen_port_for
      service_command is_node podman_steps
  phase2 r fresh mgmt subnets planned host =
      let active = (state_of fresh host).active in
      let svc_action = if active then reload_service else enable_service in
      or_panic (peer_configs r fresh mgmt subnets host r.hosts) (λ peers.
        step_if (should_run planned host write_config "") write_config "" (
          and_then (lookup host mgmt) (λ mgmt_ip.
            some
              (write_config_command r.interface (show_ip mgmt_ip) (listen_port_for r host) peers)))
        ++ (step_if (should_run planned host svc_action "") svc_action ""
              (some (service_command r.interface active))
            ++ (if is_node r host && r.install_podman
                then podman_steps r subnets planned host
                else [])))
