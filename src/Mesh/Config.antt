-- ===== src/Mesh/Config.antt =====
-- coolify-cli/src/wireguard/config.rs: the file and the commands of WireGuard. An address or a subnet
-- is the text that it is printed as.
use coold.Prelude.{
  leb, if◌then◌else◌, and_then, string_eq, nat_eq, after_last, ℕ, String, Option, none, some, List,
  [], ◌∷◌, map,
}
use coold.Agent.Rules.{to_string, parse_u32}
use coold.Mesh.Texts.{concat, join_with}

pub record PeerConfig : Type 0 where
  pub endpoint : String
  pub public_key : String
  pub mgmt_ip : String
  pub container_subnets : List String

abbrev pub genkey_command : String
genkey_command =
    "mkdir -p /etc/wireguard && (umask 077; wg genkey | tee /etc/wireguard/privatekey | wg pubkey | tee /etc/wireguard/publickey) && chmod 600 /etc/wireguard/privatekey"

unfoldable pub allowed_ips_line : PeerConfig → String
unfolding concat join_with
allowed_ips_line p = join_with ", " (concat (p.mgmt_ip ∷ "/32" ∷ []) ∷ p.container_subnets)

-- `parse::<u16>()`
abbrev pub parse_u16 : String → Option ℕ
parse_u16 s = and_then (parse_u32 s) (λ n. if leb n 65535 then some n else none)

-- `parse::<u16>` of what stands after the last colon
unfoldable pub endpoint_addr : String → ℕ → String
unfolding concat after_last to_string
endpoint_addr endpoint listen_port =
    let with_port = concat (endpoint ∷ ":" ∷ to_string listen_port ∷ []) in
    elim (and_then (after_last 58 endpoint) (λ port. parse_u16 port)) [
      | some _ ↦ endpoint
      | none ↦ with_port
    ]

-- What the loop over the peers writes.
unfoldable pub peer_commands : ℕ → PeerConfig → String
unfolding concat endpoint_addr allowed_ips_line
peer_commands listen_port p = concat (
    "echo \"\"; echo \"[Peer]\"; echo \"# "
    ∷ p.endpoint
    ∷ "\"; echo \"PublicKey = "
    ∷ p.public_key
    ∷ "\"; echo \"AllowedIPs = "
    ∷ allowed_ips_line p
    ∷ "\"; echo \"Endpoint = "
    ∷ endpoint_addr p.endpoint listen_port
    ∷ "\"; echo \"PersistentKeepalive = 25\"; "
    ∷ [])

unfoldable pub write_config_command : String → String → ℕ → List PeerConfig → String
unfolding concat peer_commands to_string
write_config_command iface mgmt_ip listen_port peers = concat (
    concat (
      "PRIVKEY=$(cat /etc/wireguard/privatekey) && mkdir -p /etc/wireguard && { echo \"[Interface]\"; echo \"Address = "
      ∷ mgmt_ip
      ∷ "/32\"; echo \"ListenPort = "
      ∷ to_string listen_port
      ∷ "\"; echo \"PrivateKey = $PRIVKEY\"; "
      ∷ [])
    ∷ concat (map (λ (p : PeerConfig). peer_commands listen_port p) peers)
    ∷ concat (
        "} > /etc/wireguard/" ∷ iface ∷ ".conf.tmp && chmod 600 /etc/wireguard/" ∷ iface
        ∷ ".conf.tmp && mv /etc/wireguard/" ∷ iface ∷ ".conf.tmp /etc/wireguard/" ∷ iface ∷ ".conf"
        ∷ [])
    ∷ [])

-- What the loop of `render_config` writes.
unfoldable pub peer_section : ℕ → PeerConfig → String
unfolding concat endpoint_addr allowed_ips_line
peer_section listen_port p = concat (
    "\n[Peer]\n# "
    ∷ p.endpoint
    ∷ "\nPublicKey = "
    ∷ p.public_key
    ∷ "\nAllowedIPs = "
    ∷ allowed_ips_line p
    ∷ "\nEndpoint = "
    ∷ endpoint_addr p.endpoint listen_port
    ∷ "\nPersistentKeepalive = 25\n"
    ∷ [])

unfoldable pub render_config : String → ℕ → List PeerConfig → String
unfolding concat peer_section to_string
render_config mgmt_ip listen_port peers = concat (
    concat (
      "[Interface]\nAddress = "
      ∷ mgmt_ip
      ∷ "/32\nListenPort = "
      ∷ to_string listen_port
      ∷ "\nPrivateKey = __PRIVKEY__\n"
      ∷ [])
    ∷ concat (map (λ (p : PeerConfig). peer_section listen_port p) peers)
    ∷ [])
