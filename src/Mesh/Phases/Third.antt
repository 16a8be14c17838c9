-- ===== src/Mesh/Phases/Third.antt =====
-- The third phase of coolify-cli/src/wireguard/apply.rs: Corrosion and coold.
use coold.Prelude.{
  if◌then◌else◌, and_then, string_eq, nat_eq, ◌==◌, Map, lookup, ℕ, String, Option, none, some,
  List, [], ◌∷◌, ◌++◌, map,
}
use coold.Mesh.Intent.{
  install_corrosion, install_coold, write_corrosion_config, write_corrosion_schema,
  install_corrosion_service, install_coold_service, PlannedAction,
}
use coold.Mesh.Subnets.{NetLibrary}
use coold.Mesh.Texts.{concat, heredoc}
use coold.Mesh.Services.Corrosion.{
  config_bytes, coolify_schema_sql, gossip_tls_cert_path, gossip_tls_key_path, gossip_tls_dir,
  install_command as install_corrosion_command, service_unit as corrosion_unit,
}
use coold.Mesh.Services.Coold.{
  CooldNamespace, mesh_dns_anchor_unit, mesh_dns_resolver_unit, mesh_dns_anchor_service,
  mesh_dns_resolver_service, install_command as install_coold_command, service_unit as coold_unit,
}
use coold.Mesh.State.{TlsPair, MeshRequest, coold_flux_config, sorted_namespaces}
use coold.Mesh.Planning.Hosts.{PlanLibrary}
use coold.Mesh.Planning.Nodes.{podman_network_for, host_subnets, machine_ip, is_some}
use coold.Mesh.Phases.{Step, action_type_eq, should_run, step_if, or_panic}

module _ (lib : NetLibrary) (print : PlanLibrary lib) where
  open lib use {Net}
  open print use {show_net, show_ip}

  -- `mgmt[h]` of the other nodes.
  unfoldable pub node_ips : Map String ℕ → String → List String → Option (List ℕ)
  unfolding lookup
  node_ips mgmt host [] = some []
  node_ips mgmt host (h ∷ nodes) =
      let rest = node_ips mgmt host nodes in
      if h == host
      then rest
      else and_then (lookup h mgmt) (λ ip. and_then rest (λ ips. some (ip ∷ ips)))

  unfoldable pub tls_provision : Option TlsPair → String
  unfolding concat heredoc
  tls_provision none = ""
  tls_provision (some tls) = concat (
      "mkdir -p "
      ∷ gossip_tls_dir
      ∷ " && "
      ∷ heredoc gossip_tls_cert_path tls.cert_pem "0644"
      ∷ " && "
      ∷ heredoc gossip_tls_key_path tls.key_pem "0600"
      ∷ " && "
      ∷ [])

  unfoldable pub flux_pin_of : Option TlsPair → String
  unfolding concat heredoc
  flux_pin_of none = ""
  flux_pin_of (some tls) =
      concat (heredoc "/etc/coolify/flux.pin" tls.cert_pem "0644" ∷ " && " ∷ [])

  unfoldable pub corrosion_config_command :
      MeshRequest Net → Map String ℕ → String → List ℕ → Option String
  unfolding config_bytes tls_provision concat heredoc lookup
  corrosion_config_command r mgmt host peers = and_then (lookup host mgmt) (λ mgmt_ip.
      and_then
        (config_bytes show_ip mgmt_ip r.corrosion_gossip_port r.corrosion_api_port peers
          (is_some lib print r.corrosion_gossip_tls))
        (λ cfg.
          let provision = tls_provision r.corrosion_gossip_tls in
          some (
            concat (
              "mkdir -p /etc/corrosion && "
              ∷ provision
              ∷ heredoc "/etc/corrosion/config.toml" cfg "0644"
              ∷ []))))

  unfoldable pub coold_service_command :
      MeshRequest Net → Map String ℕ → Map String (Map String Net) → String → Option String
  unfolding host_subnets sorted_namespaces podman_network_for flux_pin_of concat heredoc
      mesh_dns_anchor_unit mesh_dns_resolver_unit coold_unit coold_flux_config lookup
  coold_service_command r mgmt subnets host =
      and_then (host_subnets lib print subnets host (sorted_namespaces r)) (λ nets.
        and_then (lookup host mgmt) (λ mgmt_ip.
          let ns : List CooldNamespace =
            map
              (λ (e : String × Net). record {
                name = e.0;
                network = podman_network_for e.0;
                bridge_gateway = show_ip (machine_ip lib print e.1);
              })
              nets in
          let flux_pin = flux_pin_of r.flux_tls in
          some (
            concat (
              "mkdir -p /etc/coolify /data/coolify && "
              ∷ flux_pin
              ∷ "rm -f /etc/systemd/resolved.conf.d/coolify-internal.conf && "
              ∷ heredoc "/etc/systemd/system/coolify-mesh-dns-anchor.service"
                  (mesh_dns_anchor_unit ns) "0644"
              ∷ " && "
              ∷ heredoc "/etc/systemd/system/coolify-mesh-dns-resolver.service"
                  (mesh_dns_resolver_unit ns) "0644"
              ∷ " && "
              ∷ heredoc "/etc/systemd/system/coold.service"
                  (coold_unit (show_ip mgmt_ip) ns (coold_flux_config r)) "0644"
              ∷ " && systemctl daemon-reload && systemctl enable --now "
              ∷ mesh_dns_anchor_service
              ∷ " "
              ∷ mesh_dns_resolver_service
              ∷ " coold"
              ∷ []))))

  unfoldable pub phase3 :
      MeshRequest Net
      → Map String ℕ
      → Map String (Map String Net)
      → List PlannedAction
      → String
      → List Step
  unfolding or_panic step_if should_run node_ips corrosion_config_command concat heredoc
      corrosion_unit coold_service_command install_corrosion_command install_coold_command
  phase3 r mgmt subnets planned host =
      step_if (should_run planned host install_corrosion "") install_corrosion ""
        (some (install_corrosion_command r.desired.corrosion_version r.corrosion_sha256))
      ++ (step_if (should_run planned host install_coold "") install_coold ""
            (some (install_coold_command r.desired.coold_version r.coold_sha256))
          ++ or_panic (node_ips mgmt host r.desired.nodes) (λ peers.
            step_if (should_run planned host write_corrosion_config "") write_corrosion_config ""
              (corrosion_config_command r mgmt host peers)
            ++ (step_if (should_run planned host write_corrosion_schema "") write_corrosion_schema
                  ""
                  (some (
                    concat (
                      "mkdir -p /etc/corrosion/schemas && "
                      ∷ heredoc "/etc/corrosion/schemas/coolify.sql" coolify_schema_sql "0644"
                      ∷ [])))
                ++ (step_if (should_run planned host install_corrosion_service "")
                      install_corrosion_service ""
                      (some (
                        concat (
                          heredoc "/etc/systemd/system/corrosion.service"
                            (corrosion_unit r.interface) "0644"
                          ∷ " && systemctl daemon-reload && systemctl enable --now corrosion"
                          ∷ [])))
                    ++ step_if (should_run planned host install_coold_service "")
                        install_coold_service "" (coold_service_command r mgmt subnets host)))))
