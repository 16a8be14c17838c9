-- ===== src/Mesh/Firewall.antt =====
-- coolify-cli/src/wireguard/firewall.rs: the systemd unit with the firewall's rules, the scaffold of
-- the table for bridges, and the command that installs both. A subnet is the text that it is printed
-- as.
use coold.Prelude.{if◌then◌else◌, string_eq, nat_eq, String, Bool, List, [], ◌∷◌, map}
use coold.Mesh.Texts.{concat, join_with, sort_texts}

abbrev pub allow_rules_path : String
allow_rules_path = "/etc/coolify/allow.rules"

abbrev pub bridge_table_name : String
bridge_table_name = "coolify_bridge"

abbrev pub bridge_allow_rules_path : String
bridge_allow_rules_path = "/etc/coolify/allow.nft"

abbrev pub bridge_scaffold_path : String
bridge_scaffold_path = "/etc/coolify/bridge-fw.nft"

abbrev firewall_unit_path : String
firewall_unit_path = "/etc/systemd/system/coolify-mesh-fw.service"

abbrev firewall_service_name : String
firewall_service_name = "coolify-mesh-fw.service"

-- What the first loop writes of a subnet.
unfoldable pub masquerade_rules : String → String → String
unfolding concat
masquerade_rules iface sn = concat (
    concat (
      "ExecStart=/bin/sh -c \"/usr/sbin/iptables -t nat -C POSTROUTING -s " ∷ sn ∷ " -o " ∷ iface
      ∷ " -j RETURN 2>/dev/null || /usr/sbin/iptables -t nat -I POSTROUTING -s " ∷ sn ∷ " -o "
      ∷ iface ∷ " -j RETURN\"\n" ∷ [])
    ∷ concat (
        "ExecStart=/bin/sh -c \"nft list chain inet netavark POSTROUTING >/dev/null 2>&1 && (nft list chain inet netavark POSTROUTING | grep -F 'ip saddr "
        ∷ sn ∷ " oifname \\\"" ∷ iface
        ∷ "\\\" accept' >/dev/null 2>&1 || nft insert rule inet netavark POSTROUTING ip saddr " ∷ sn
        ∷ " oifname \\\"" ∷ iface ∷ "\\\" accept) || true\"\n" ∷ [])
    ∷ [])

-- What the loops of the default deny write of a subnet.
unfoldable pub drop_accept_rules : String → String
unfolding concat
drop_accept_rules sn = concat (
    "ExecStart=/bin/sh -c \"/usr/sbin/iptables -D FORWARD -s " ∷ sn
    ∷ " -j ACCEPT 2>/dev/null || true\"\nExecStart=/bin/sh -c \"/usr/sbin/iptables -D FORWARD -d "
    ∷ sn ∷ " -j ACCEPT 2>/dev/null || true\"\n" ∷ [])

unfoldable pub deny_chains : String
unfolding concat
deny_chains = concat (
    "\nExecStart=/bin/sh -c \"/usr/sbin/iptables -N COOLIFY-ALLOW 2>/dev/null || true\"\nExecStart=/bin/sh -c \"/usr/sbin/iptables -N COOLIFY-INTRA 2>/dev/null || true\"\nExecStart=/usr/sbin/iptables -F COOLIFY-INTRA\nExecStart=/usr/sbin/iptables -A COOLIFY-INTRA -j COOLIFY-ALLOW\nExecStart=/usr/sbin/iptables -A COOLIFY-INTRA -j DROP\nExecStart=/bin/sh -c \"[ -s "
    ∷ allow_rules_path
    ∷ " ] && /usr/sbin/iptables -F COOLIFY-ALLOW && /usr/sbin/iptables-restore --noflush < "
    ∷ allow_rules_path
    ∷ " || true\"\nExecStart=/bin/sh -c \"/usr/sbin/iptables -C FORWARD -m conntrack --ctstate ESTABLISHED,RELATED -j ACCEPT 2>/dev/null || /usr/sbin/iptables -I FORWARD 1 -m conntrack --ctstate ESTABLISHED,RELATED -j ACCEPT\"\n"
    ∷ [])

unfoldable pub intra_rules : String → String
unfolding concat
intra_rules sn = concat (
    "ExecStart=/bin/sh -c \"/usr/sbin/iptables -C FORWARD -d " ∷ sn
    ∷ " -j COOLIFY-INTRA 2>/dev/null || /usr/sbin/iptables -A FORWARD -d " ∷ sn
    ∷ " -j COOLIFY-INTRA\"\nExecStart=/bin/sh -c \"/usr/sbin/iptables -C FORWARD -s " ∷ sn
    ∷ " -j COOLIFY-INTRA 2>/dev/null || /usr/sbin/iptables -A FORWARD -s " ∷ sn
    ∷ " -j COOLIFY-INTRA\"\n" ∷ [])

unfoldable pub bridge_commands : String
unfolding concat
bridge_commands = concat (
    "ExecStart=/bin/sh -c \"nft list table bridge " ∷ bridge_table_name
    ∷ " >/dev/null 2>&1 || nft add table bridge " ∷ bridge_table_name
    ∷ "\"\nExecStart=/bin/sh -c \"nft add chain bridge " ∷ bridge_table_name
    ∷ " coolify_allow '{ }' 2>/dev/null || true\"\nExecStart=/bin/sh -c \"nft delete chain bridge "
    ∷ bridge_table_name
    ∷ " forward 2>/dev/null || true\"\nExecStart=/bin/sh -c \"nft delete chain bridge "
    ∷ bridge_table_name ∷ " coolify_intra 2>/dev/null || true\"\nExecStart=/bin/sh -c \"nft -f "
    ∷ bridge_scaffold_path ∷ "\"\nExecStart=/bin/sh -c \"[ -s " ∷ bridge_allow_rules_path
    ∷ " ] && nft -f " ∷ bridge_allow_rules_path ∷ " || true\"\n" ∷ [])

unfoldable pub tear_down : String
unfolding concat
tear_down = concat (
    "# Tear down default-deny scaffold from prior run.\nExecStart=/bin/sh -c \"/usr/sbin/iptables -F COOLIFY-INTRA 2>/dev/null || true\"\nExecStart=/bin/sh -c \"/usr/sbin/iptables -X COOLIFY-INTRA 2>/dev/null || true\"\nExecStart=/bin/sh -c \"nft delete table bridge "
    ∷ bridge_table_name ∷ " 2>/dev/null || true\"\n" ∷ [])

unfoldable pub accept_rules : String → String
unfolding concat
accept_rules sn = concat (
    "ExecStart=/bin/sh -c \"/usr/sbin/iptables -C FORWARD -s " ∷ sn
    ∷ " -j ACCEPT 2>/dev/null || /usr/sbin/iptables -I FORWARD -s " ∷ sn
    ∷ " -j ACCEPT\"\nExecStart=/bin/sh -c \"/usr/sbin/iptables -C FORWARD -d " ∷ sn
    ∷ " -j ACCEPT 2>/dev/null || /usr/sbin/iptables -I FORWARD -d " ∷ sn ∷ " -j ACCEPT\"\n" ∷ [])

unfoldable pub firewall_service_unit : String → List String → Bool → String
unfolding concat masquerade_rules drop_accept_rules deny_chains intra_rules bridge_commands
    tear_down accept_rules
firewall_service_unit iface container_subnets default_deny = concat (
    concat (
      "[Unit]\nDescription=Coolify mesh firewall rules\nAfter=wg-quick@" ∷ iface
      ∷ ".service network-online.target\nWants=network-online.target\n\n[Service]\nType=oneshot\nRemainAfterExit=yes\n\n"
      ∷ [])
    ∷ concat (map (λ sn. masquerade_rules iface sn) container_subnets)
    ∷ (if default_deny
        then concat (
            "# Remove blanket ACCEPT from prior mode-A run.\n"
            ∷ concat (map (λ sn. drop_accept_rules sn) container_subnets)
            ∷ deny_chains
            ∷ concat (map (λ sn. intra_rules sn) container_subnets)
            ∷ bridge_commands
            ∷ [])
        else concat (tear_down ∷ concat (map (λ sn. accept_rules sn) container_subnets) ∷ []))
    ∷ "\n[Install]\nWantedBy=multi-user.target\n"
    ∷ [])

unfoldable pub render_bridge_scaffold : List String → String
unfolding concat join_with sort_texts
render_bridge_scaffold subnets =
    let set = concat ("{ " ∷ join_with ", " (sort_texts subnets) ∷ " }" ∷ []) in
    concat (
      "# Managed by coolify — do not edit manually.\nadd table bridge " ∷ bridge_table_name
      ∷ "\nadd chain bridge " ∷ bridge_table_name ∷ " coolify_intra\nflush chain bridge "
      ∷ bridge_table_name ∷ " coolify_intra\nadd rule bridge " ∷ bridge_table_name
      ∷ " coolify_intra jump coolify_allow\nadd rule bridge " ∷ bridge_table_name
      ∷ " coolify_intra drop\nadd chain bridge " ∷ bridge_table_name
      ∷ " forward { type filter hook forward priority -200; policy accept; }\nflush chain bridge "
      ∷ bridge_table_name ∷ " forward\nadd rule bridge " ∷ bridge_table_name
      ∷ " forward meta protocol != ip accept\nadd rule bridge " ∷ bridge_table_name
      ∷ " forward ct state established,related accept\nadd rule bridge " ∷ bridge_table_name
      ∷ " forward ip saddr " ∷ set ∷ " jump coolify_intra\nadd rule bridge " ∷ bridge_table_name
      ∷ " forward ip daddr " ∷ set ∷ " jump coolify_intra\n" ∷ [])

unfoldable pub install_firewall_command : String → List String → Bool → String
unfolding concat firewall_service_unit render_bridge_scaffold
install_firewall_command iface subnets default_deny =
    let unit = firewall_service_unit iface subnets default_deny in
    concat (
      concat (
        "cat > " ∷ firewall_unit_path ∷ ".tmp <<'COOLIFY_FW_EOF'\n" ∷ unit ∷ "COOLIFY_FW_EOF\nmv "
        ∷ firewall_unit_path ∷ ".tmp " ∷ firewall_unit_path ∷ " && mkdir -p /etc/coolify && " ∷ [])
      ∷ (if default_deny
          then (let scaffold = render_bridge_scaffold subnets in
              concat (
                "cat > " ∷ bridge_scaffold_path ∷ ".tmp <<'COOLIFY_BR_EOF'\n" ∷ scaffold
                ∷ "COOLIFY_BR_EOF\nmv " ∷ bridge_scaffold_path ∷ ".tmp " ∷ bridge_scaffold_path
                ∷ " && " ∷ []))
          else concat ("rm -f " ∷ bridge_scaffold_path ∷ " && " ∷ []))
      ∷ concat (
          "systemctl daemon-reload && systemctl enable " ∷ firewall_service_name
          ∷ " && systemctl restart " ∷ firewall_service_name ∷ [])
      ∷ [])
