-- ===== src/Mesh/Planning/Nodes.antt =====
-- What `build_plan` (coolify-cli/src/wireguard/plan.rs) plans for a node: the parts of the loop's body
-- on Podman and the firewall, and on Corrosion and coold.
use coold.Prelude.{
  if◌then◌else◌, and_then, string_eq, nat_eq, ◌==◌, length, Map, lookup, is_empty, ℕ, ◌+◌, String,
  Bool, true, false, ◌&&◌, ◌||◌, not, Option, none, some, List, [], ◌∷◌, ◌++◌, map,
}
use coold.Agent.Rules.{to_string}
use coold.Mesh.Intent.{
  install_podman, enable_podman_socket, enable_ip_forward, create_podman_network,
  recreate_podman_network, install_firewall, install_corrosion, install_coold,
  write_corrosion_config, write_corrosion_schema, install_corrosion_service, install_coold_service,
  PlannedAction,
}
use coold.Mesh.Subnets.{NetLibrary, existing_at}
use coold.Mesh.Texts.{concat}
use coold.Mesh.Firewall.{firewall_service_unit}
use coold.Mesh.Services.Corrosion.{config_bytes, coolify_schema_sql}
use coold.Mesh.Services.Coold.{service_unit}
use coold.Mesh.State.{
  NamespaceServerState, ServerState, MeshRequest, coold_flux_config, sorted_namespaces,
}
use coold.Mesh.Planning.Hosts.{PlanLibrary, push, push_if}

unfoldable pub binary_version_drift : String → Bool → String → Bool
binary_version_drift want installed have =
    not installed
    || (is_empty have || ((want == "nightly" || want == "latest") || not (have == want)))

-- `podman_network_for` of coolify-cli/src/meshnet.rs
unfoldable pub podman_network_for : String → String
unfolding concat
podman_network_for ns = concat ("coolify-" ∷ ns ∷ "-mesh" ∷ [])

module _ (lib : NetLibrary) (print : PlanLibrary lib) where
  open lib use {Net, network}
  open print use {show_net, same_net, show_ip, sha256_hex}

  -- `subnets[ns][host]` for every namespace; `none` is the panic of an index.
  unfoldable pub host_subnets :
      Map String (Map String Net) → String → List String → Option (List (String × Net))
  host_subnets subnets host [] = some []
  host_subnets subnets host (ns ∷ names) =
      let rest = host_subnets subnets host names in
      and_then (existing_at lib subnets ns host)
        (λ want. and_then rest (λ others. some ((ns, want) ∷ others)))

  -- `machine_ip`
  abbrev pub machine_ip : Net → ℕ
  machine_ip net = network net + 1

  abbrev pub is_net : Option Net → Net → Bool
  is_net none want = false
  is_net (some net) want = same_net net want

  abbrev pub network_drifts : NamespaceServerState Net → String → Net → Bool
  network_drifts s ns want =
      s.dns_enabled || (not (is_net s.container_subnet want) || not (s.label == ns))

  -- One round of the loop over the namespaces.
  unfoldable pub network_actions :
      String → String → Net → Option (NamespaceServerState Net) → List PlannedAction
  unfolding podman_network_for push_if concat
  network_actions host ns want nss =
      let net_name = podman_network_for ns in
      let create = push host ns create_podman_network (
        concat
          (net_name ∷ " subnet=" ∷ show_net want ∷ " gateway=" ∷ show_ip (machine_ip want) ∷ [])) in
      elim nss [
        | none ↦ create ∷ []
        | some s ↦
            if not s.network_exists
            then create ∷ []
            else push_if (network_drifts s ns want)
                (push host ns recreate_podman_network (concat (net_name ∷ " — drift" ∷ [])))
      ]

  unfoldable pub networks_actions :
      String → ServerState Net → List (String × Net) → List PlannedAction
  unfolding network_actions lookup
  networks_actions host state [] = []
  networks_actions host state ((ns, want) ∷ nets) =
      network_actions host ns want (lookup ns state.namespaces) ++ networks_actions host state nets

  -- The unit that the firewall of a host should have.
  unfoldable pub wanted_firewall : MeshRequest Net → List (String × Net) → String
  unfolding firewall_service_unit
  wanted_firewall r nets =
      firewall_service_unit r.interface (map (λ (e : String × Net). show_net e.1) nets)
        r.default_deny_containers

  abbrev pub same_bool : Bool → Bool → Bool
  same_bool true b = b
  same_bool false b = not b

  unfoldable pub firewall_actions :
      MeshRequest Net → String → ServerState Net → List (String × Net) → List PlannedAction
  unfolding wanted_firewall push_if concat to_string
  firewall_actions r host state nets =
      push_if
        (not state.firewall_active
          || (not (same_bool state.default_deny_active r.default_deny_containers)
              || not (state.firewall_unit_sha256 == sha256_hex (wanted_firewall r nets))))
        (push host "" install_firewall (
          concat (
            "coolify-mesh-fw.service ("
            ∷ r.interface
            ∷ ", "
            ∷ to_string (length nets)
            ∷ " namespace(s), default-deny="
            ∷ (if r.default_deny_containers then "true" else "false")
            ∷ ")"
            ∷ [])))

  unfoldable pub podman_actions :
      MeshRequest Net
      → Map String (Map String Net)
      → String
      → ServerState Net
      → Option (List PlannedAction)
  unfolding push_if sorted_namespaces host_subnets networks_actions firewall_actions
  podman_actions r subnets host state =
      and_then (host_subnets subnets host (sorted_namespaces r)) (λ nets. some (
        push_if (not state.podman_installed) (push host "" install_podman "podman not installed")
        ++ (push_if (not state.podman_socket_active)
              (push host "" enable_podman_socket "systemctl enable --now podman.socket")
            ++ (push_if (not state.ip_forward_enabled)
                  (push host "" enable_ip_forward "net.ipv4.ip_forward=1")
                ++ (networks_actions host state nets ++ firewall_actions r host state nets)))))

  -- The management addresses of the other nodes.
  unfoldable pub other_ips : Map String ℕ → String → List String → List ℕ
  unfolding lookup
  other_ips mgmt host [] = []
  other_ips mgmt host (h ∷ nodes) =
      let rest = other_ips mgmt host nodes in
      if h == host then rest else elim (lookup h mgmt) [ none ↦ rest | some ip ↦ ip ∷ rest ]

  abbrev pub is_some : {A : Type 0} → Option A → Bool
  is_some none = false
  is_some (some _) = true

  unfoldable pub wanted_corrosion : MeshRequest Net → Map String ℕ → String → ℕ → Option String
  unfolding config_bytes other_ips
  wanted_corrosion r mgmt host mgmt_ip =
      config_bytes show_ip mgmt_ip r.corrosion_gossip_port r.corrosion_api_port
        (other_ips mgmt host r.desired.nodes) (is_some r.corrosion_gossip_tls)

  unfoldable pub wanted_coold : MeshRequest Net → ℕ → List (String × Net) → String
  unfolding service_unit podman_network_for coold_flux_config
  wanted_coold r mgmt_ip nets =
      service_unit (show_ip mgmt_ip)
        (map
          (λ (e : String × Net). record {
            name = e.0;
            network = podman_network_for e.0;
            bridge_gateway = show_ip (machine_ip e.1);
          })
          nets)
        (coold_flux_config r)

  unfoldable pub schema_actions : String → ServerState Net → List PlannedAction
  unfolding push_if
  schema_actions host state =
      let drift = not (state.corrosion_schema_sha256 == sha256_hex coolify_schema_sql) in
      push_if (not state.corrosion_schema_exists || drift) (
        push host "" write_corrosion_schema (
          if drift && not (is_empty state.corrosion_schema_sha256)
          then "/etc/corrosion/schemas/coolify.sql [schema drift — DB will be reset]"
          else "/etc/corrosion/schemas/coolify.sql"))

  -- What is pushed, once the texts of the configuration and of the unit are known.
  unfoldable pub coold_drift_actions :
      MeshRequest Net → String → ℕ → ServerState Net → String → String → ℕ → ℕ → List PlannedAction
  unfolding binary_version_drift push_if schema_actions concat to_string
  coold_drift_actions r host mgmt_ip state cfg coold_unit peers names =
      let corrosion_drift =
        binary_version_drift r.desired.corrosion_version state.corrosion_installed
          state.corrosion_version in
      let coold_drift =
        binary_version_drift r.desired.coold_version state.coold_installed state.coold_version in
      let cfg_drift = not (state.corrosion_config_hash == sha256_hex cfg) in
      let schema_drift = not (state.corrosion_schema_sha256 == sha256_hex coolify_schema_sql) in
      let coold_unit_drift = not (state.coold_unit_sha256 == sha256_hex coold_unit) in
      push_if corrosion_drift (
        push host "" install_corrosion (
          concat ("corrosion " ∷ r.desired.corrosion_version ∷ " → /usr/local/bin/corrosion" ∷ [])))
      ++ (push_if coold_drift (
            push host "" install_coold
              (concat ("coold " ∷ r.desired.coold_version ∷ " → /usr/local/bin/coold" ∷ [])))
          ++ (push_if cfg_drift (
                push host "" write_corrosion_config
                  (concat ("/etc/corrosion/config.toml (peers=" ∷ to_string peers ∷ ")" ∷ [])))
              ++ (schema_actions host state
                  ++ (push_if
                        (not state.corrosion_active
                          || (cfg_drift || (corrosion_drift || schema_drift)))
                        (push host "" install_corrosion_service "systemctl enable --now corrosion")
                      ++ push_if
                          (not state.coold_active
                            || (cfg_drift || (coold_drift || coold_unit_drift)))
                          (push host "" install_coold_service (
                            concat (
                              "systemctl enable --now coold (mgmt="
                              ∷ show_ip mgmt_ip
                              ∷ ", namespaces="
                              ∷ to_string names
                              ∷ ")"
                              ∷ [])))))))

  unfoldable pub coold_actions :
      MeshRequest Net
      → Map String ℕ
      → Map String (Map String Net)
      → String
      → ℕ
      → ServerState Net
      → Option (List PlannedAction)
  unfolding sorted_namespaces host_subnets other_ips wanted_corrosion wanted_coold
      coold_drift_actions
  coold_actions r mgmt subnets host mgmt_ip state =
      and_then (wanted_corrosion r mgmt host mgmt_ip) (λ cfg.
        and_then (host_subnets subnets host (sorted_namespaces r)) (λ nets. some (
          coold_drift_actions r host mgmt_ip state cfg (wanted_coold r mgmt_ip nets)
            (length (other_ips mgmt host r.desired.nodes)) (length nets))))
