-- ===== src/Mesh/Services/Corrosion.antt =====
-- coolify-cli/src/services/corrosion.rs. An address is the text that it is printed as.
use coold.Prelude.{
  leb, if◌then◌else◌, string_eq, nat_eq, ◌==◌, ℕ, String, Bool, Option, none, some, List, [], ◌∷◌,
  map,
}
use coold.Agent.Rules.{to_string}
use coold.Mesh.Texts.{concat, join_with}
use coold.Mesh.Services.{checksum_verify_snippet}

abbrev pub coolify_schema_sql : String
coolify_schema_sql =
    "CREATE TABLE service_endpoints (\n    container_id    TEXT NOT NULL DEFAULT '' PRIMARY KEY,\n    container_name  TEXT NOT NULL DEFAULT '',\n    namespace       TEXT NOT NULL DEFAULT '',\n    host_mgmt_ip    TEXT NOT NULL DEFAULT '',\n    container_ip    TEXT NOT NULL DEFAULT '',\n    state           TEXT NOT NULL DEFAULT '',\n    health          TEXT NOT NULL DEFAULT 'unknown',\n    updated_at      INTEGER NOT NULL DEFAULT 0\n);\n"

abbrev pub gossip_tls_dir : String
gossip_tls_dir = "/etc/corrosion/tls"

abbrev pub gossip_tls_cert_path : String
gossip_tls_cert_path = "/etc/corrosion/tls/gossip.pem"

abbrev pub gossip_tls_key_path : String
gossip_tls_key_path = "/etc/corrosion/tls/gossip.key"

unfoldable pub gossip_tls_toml : String
unfolding concat
gossip_tls_toml = concat (
    "plaintext = false\n[gossip.tls]\ncert_file = \"" ∷ gossip_tls_cert_path ∷ "\"\nkey_file = \""
    ∷ gossip_tls_key_path ∷ "\"\ninsecure = true" ∷ [])

-- The texts of the peers come sorted by their addresses.
unfoldable pub config_text : String → ℕ → ℕ → List String → Bool → String
unfolding concat join_with gossip_tls_toml to_string
config_text bind_addr gossip_port api_port sorted gossip_tls =
    let bootstrap =
      join_with ", "
        (map (λ p. concat ("\"" ∷ p ∷ ":" ∷ to_string gossip_port ∷ "\"" ∷ [])) sorted) in
    let gossip_auth = if gossip_tls then gossip_tls_toml else "plaintext = true" in
    concat (
      "# generated by coolify — do not edit\n[db]\npath = \"/var/lib/corrosion/corrosion.db\"\nschema_paths = [\"/etc/corrosion/schemas\"]\n\n[gossip]\naddr = \""
      ∷ bind_addr
      ∷ ":"
      ∷ to_string gossip_port
      ∷ "\"\nbootstrap = ["
      ∷ bootstrap
      ∷ "]\n"
      ∷ gossip_auth
      ∷ "\n\n[api]\naddr = \"127.0.0.1:"
      ∷ to_string api_port
      ∷ "\"\n\n[admin]\npath = \"/var/run/corrosion/admin.sock\"\n"
      ∷ [])

unfoldable pub insert_number : ℕ → List ℕ → List ℕ
insert_number n [] = n ∷ []
insert_number n (m ∷ ms) = let rest = insert_number n ms in if leb n m then n ∷ m ∷ ms else m ∷ rest

unfoldable pub sort_numbers : List ℕ → List ℕ
unfolding insert_number
sort_numbers [] = []
sort_numbers (n ∷ ns) = insert_number n (sort_numbers ns)

-- `none` is the panic of `assert_mesh_bind`, at 0.0.0.0.
unfoldable pub config_bytes : (ℕ → String) → ℕ → ℕ → ℕ → List ℕ → Bool → Option String
unfolding config_text sort_numbers
config_bytes show_ip bind_addr gossip_port api_port peers gossip_tls =
    if bind_addr == 0
    then none
    else some (
        config_text (show_ip bind_addr) gossip_port api_port
          (map (λ p. show_ip p) (sort_numbers peers)) gossip_tls)

unfoldable pub install_command : String → Option String → String
unfolding concat checksum_verify_snippet
install_command version sha256 =
    let verify = checksum_verify_snippet "$DLDIR/corrosion.tar.gz" "$URL" "corrosion" sha256 in
    concat (
      "set -e\nDEBIAN_FRONTEND=noninteractive apt-get update -qq 2>/dev/null\nDEBIAN_FRONTEND=noninteractive apt-get install -y -o Dpkg::Options::=\"--force-confold\" ca-certificates curl tar 2>&1 >/dev/null\nARCH_RAW=$(uname -m)\ncase \"$ARCH_RAW\" in\n  x86_64)  ARCH=x86_64-unknown-linux-gnu ;;\n  aarch64) ARCH=aarch64-unknown-linux-gnu ;;\n  *) echo \"unsupported arch: $ARCH_RAW\" >&2; exit 1 ;;\nesac\nURL=\"https://github.com/superfly/corrosion/releases/download/"
      ∷ version
      ∷ "/corrosion-${ARCH}.tar.gz\"\nDLDIR=$(mktemp -d)\ntrap 'rm -rf \"$DLDIR\"' EXIT\ncurl -fsSL --retry 3 --max-time 120 -o \"$DLDIR/corrosion.tar.gz\" \"$URL\"\n"
      ∷ verify
      ∷ "\ntar -xzf \"$DLDIR/corrosion.tar.gz\" -C \"$DLDIR\"\ntest -f \"$DLDIR/corrosion\" || { echo \"corrosion binary not found in tarball\" >&2; exit 1; }\ninstall -m 0755 \"$DLDIR/corrosion\" /usr/local/bin/corrosion.tmp\nmv /usr/local/bin/corrosion.tmp /usr/local/bin/corrosion\necho '"
      ∷ version ∷ "' > /usr/local/bin/corrosion.version" ∷ [])

unfoldable pub service_unit : String → String
unfolding concat
service_unit iface = concat (
    "[Unit]\nDescription=Corrosion agent\nAfter=network-online.target wg-quick@" ∷ iface
    ∷ ".service\nWants=network-online.target\nRequires=wg-quick@" ∷ iface
    ∷ ".service\n\n[Service]\nExecStart=/usr/local/bin/corrosion agent --config /etc/corrosion/config.toml\nRestart=on-failure\nRestartSec=2s\nStateDirectory=corrosion\nWorkingDirectory=/var/lib/corrosion\n\n[Install]\nWantedBy=multi-user.target\n"
    ∷ [])
