-- ===== src/Mesh/Services/Coold.antt =====
-- coolify-cli/src/services/coold.rs. An address is the text that it is printed as.
use coold.Prelude.{string_eq, nat_eq, String, Option, none, some, List, [], ◌∷◌, map}
use coold.Mesh.Texts.{concat, join_with}
use coold.Mesh.Services.{checksum_verify_snippet}

abbrev pub default_coold_dns_zone : String
default_coold_dns_zone = "coolify.internal"

abbrev pub mesh_dns_anchor_service : String
mesh_dns_anchor_service = "coolify-mesh-dns-anchor.service"

abbrev pub mesh_dns_resolver_service : String
mesh_dns_resolver_service = "coolify-mesh-dns-resolver.service"

abbrev pub mesh_dns_anchor_image : String
mesh_dns_anchor_image = "docker.io/library/alpine:3.20"

pub record CooldNamespace : Type 0 where
  pub name : String
  pub network : String
  pub bridge_gateway : String

pub record FluxConfig : Type 0 where
  pub url : String
  pub jwt_path : String
  pub tls_pin_path : Option String

unfoldable pub namespaces_env_value : List CooldNamespace → String
unfolding concat join_with
namespaces_env_value ns = join_with "," (
    map (λ (n : CooldNamespace). concat (n.name ∷ ":" ∷ n.network ∷ ":" ∷ n.bridge_gateway ∷ []))
      ns)

-- `namespaces.is_empty()`
abbrev pub unless_empty : List CooldNamespace → String → String
unless_empty [] t = ""
unless_empty (_ ∷ _) t = t

unfoldable pub hardening_directives : String
unfolding concat
hardening_directives = concat (
    "NoNewPrivileges=yes\n" ∷ "ProtectSystem=strict\n" ∷ "ProtectHome=yes\n" ∷ "PrivateTmp=yes\n"
    ∷ "ReadWritePaths=/etc/coolify /data/coolify /var/lib/containers\n"
    ∷ "ReadWritePaths=-/run/containers -/run/netavark -/run/libpod\n" ∷ [])

unfoldable pub pin_env_of : Option String → String
unfolding concat
pin_env_of none = ""
pin_env_of (some p) = concat ("Environment=COOLIFY_COOLD_FLUX_TLS_PIN_PATH=" ∷ p ∷ "\n" ∷ [])

unfoldable pub flux_env_of : Option FluxConfig → String
unfolding concat pin_env_of
flux_env_of none = ""
flux_env_of (some s) =
    let pin_env = pin_env_of s.tls_pin_path in
    concat (
      "Environment=COOLIFY_COOLD_FLUX_URL=" ∷ s.url ∷ "\nEnvironment=COOLIFY_COOLD_HOST_JWT_PATH="
      ∷ s.jwt_path ∷ "\n" ∷ pin_env ∷ [])

unfoldable pub service_unit : String → List CooldNamespace → Option FluxConfig → String
unfolding concat namespaces_env_value flux_env_of hardening_directives
service_unit mgmt_ip namespaces flux =
    let ns_env = unless_empty namespaces (
      concat (
        "Environment=COOLIFY_COOLD_NAMESPACES="
        ∷ namespaces_env_value namespaces
        ∷ "\nEnvironment=COOLIFY_COOLD_DNS_ZONE="
        ∷ default_coold_dns_zone
        ∷ "\n"
        ∷ [])) in
    let flux_env = flux_env_of flux in
    let mesh_dns_units =
      unless_empty namespaces
        (concat (" " ∷ mesh_dns_anchor_service ∷ " " ∷ mesh_dns_resolver_service ∷ [])) in
    concat (
      "[Unit]\nDescription=Coolify host agent\nWants=corrosion.service" ∷ mesh_dns_units
      ∷ "\nAfter=corrosion.service network-online.target podman.socket coolify-mesh-fw.service"
      ∷ mesh_dns_units ∷ "\n\n[Service]\nEnvironment=COOLIFY_COOLD_HOST_MGMT_IP=" ∷ mgmt_ip ∷ "\n"
      ∷ ns_env ∷ flux_env
      ∷ "ExecStart=/usr/local/bin/coold\nAmbientCapabilities=CAP_NET_BIND_SERVICE CAP_NET_ADMIN CAP_NET_RAW\n"
      ∷ hardening_directives
      ∷ "Restart=on-failure\nRestartSec=2s\n\n[Install]\nWantedBy=multi-user.target\n" ∷ [])

unfoldable pub mesh_dns_anchor_container_name : String → String
unfolding concat
mesh_dns_anchor_container_name namespace = concat ("coolify-mesh-dns-anchor-" ∷ namespace ∷ [])

unfoldable pub mesh_dns_anchor_unit : List CooldNamespace → String
unfolding concat join_with mesh_dns_anchor_container_name
mesh_dns_anchor_unit namespaces =
    let starts = join_with "; " (
      map
        (λ (namespace : CooldNamespace).
          (let name = mesh_dns_anchor_container_name namespace.name in
            concat (
              "podman run -d --replace --name " ∷ name ∷ " --network " ∷ namespace.network
              ∷ " --label io.coolify.managed=true --label io.coolify.role=mesh-dns-anchor --label io.coolify.namespace="
              ∷ namespace.name ∷ " " ∷ mesh_dns_anchor_image ∷ " sleep infinity >/dev/null" ∷ [])))
        namespaces) in
    let stops = join_with "; " (
      map
        (λ (namespace : CooldNamespace).
          (concat (
            "podman rm -f "
            ∷ mesh_dns_anchor_container_name namespace.name
            ∷ " >/dev/null 2>&1 || true"
            ∷ [])))
        namespaces) in
    concat (
      "[Unit]\nDescription=Coolify mesh DNS anchor containers\nAfter=network-online.target podman.socket\nRequires=podman.socket\n\n[Service]\nType=oneshot\nRemainAfterExit=yes\nExecStart=/bin/sh -eu -c '"
      ∷ starts ∷ "'\nExecStop=/bin/sh -c '" ∷ stops ∷ "'\n\n[Install]\nWantedBy=multi-user.target\n"
      ∷ [])

unfoldable pub mesh_dns_resolver_unit : List CooldNamespace → String
unfolding concat join_with
mesh_dns_resolver_unit namespaces =
    let commands = join_with "; " (
      map
        (λ (namespace : CooldNamespace).
          (concat (
            "iface=$(podman network inspect " ∷ namespace.network
            ∷ " --format '{{.NetworkInterface}}' 2>/dev/null || true); if [ -n \"$iface\" ]; then resolvectl dns \"$iface\" "
            ∷ namespace.bridge_gateway ∷ " || true; resolvectl domain \"$iface\" '~"
            ∷ default_coold_dns_zone
            ∷ "' || true; resolvectl default-route \"$iface\" false || true; fi" ∷ [])))
        namespaces) in
    concat (
      "[Unit]\nDescription=Configure Coolify mesh DNS resolver\nAfter=systemd-resolved.service "
      ∷ mesh_dns_anchor_service ∷ "\nWants=systemd-resolved.service " ∷ mesh_dns_anchor_service
      ∷ "\n\n[Service]\nType=oneshot\nExecStart=/bin/sh -eu -c 'command -v resolvectl >/dev/null 2>&1 || exit 0; "
      ∷ commands ∷ "'\n\n[Install]\nWantedBy=multi-user.target\n" ∷ [])

unfoldable pub install_command : String → Option String → String
unfolding concat checksum_verify_snippet
install_command version sha256 =
    let verify = checksum_verify_snippet "$DLDIR/coold.tar.gz" "$URL" "coold" sha256 in
    concat (
      "set -e\nDEBIAN_FRONTEND=noninteractive apt-get update -qq 2>/dev/null\nDEBIAN_FRONTEND=noninteractive apt-get install -y -o Dpkg::Options::=\"--force-confold\" ca-certificates curl tar 2>&1 >/dev/null\nARCH_RAW=$(uname -m)\ncase \"$ARCH_RAW\" in\n  x86_64)  ARCH=amd64 ;;\n  aarch64) ARCH=arm64 ;;\n  *) echo \"unsupported arch: $ARCH_RAW\" >&2; exit 1 ;;\nesac\nURL=\"https://github.com/coollabsio/coold/releases/download/"
      ∷ version
      ∷ "/coold-linux-${ARCH}.tar.gz\"\nDLDIR=$(mktemp -d)\ntrap 'rm -rf \"$DLDIR\"' EXIT\ncurl -fsSL --retry 3 --max-time 120 -o \"$DLDIR/coold.tar.gz\" \"$URL\"\n"
      ∷ verify
      ∷ "\ntar -xzf \"$DLDIR/coold.tar.gz\" -C \"$DLDIR\"\ntest -f \"$DLDIR/coold\" || { echo \"coold binary not found in tarball\" >&2; exit 1; }\ninstall -m 0755 \"$DLDIR/coold\" /usr/local/bin/coold.tmp\nmv /usr/local/bin/coold.tmp /usr/local/bin/coold\necho '"
      ∷ version ∷ "' > /usr/local/bin/coold.version" ∷ [])
