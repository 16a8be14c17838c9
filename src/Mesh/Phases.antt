-- ===== src/Mesh/Phases.antt =====
-- coolify-cli/src/wireguard/apply.rs: what a phase would run on a host, in order, with the first phase. A step is
-- a command with the action that it carries out; a step without a command, and `panics`, are where an
-- index of the source is missing.
pub mod Second
pub mod Third
use coold.Prelude.{
  ltb, leb, if◌then◌else◌, Bool-cases, Option-cases, and_then, Eq, String-discrete, string_eq,
  nat_eq, ◌==◌, ==_iff, ==_refl, contains, length, length-append, filter, any, length-filter-le,
  All, Map, lookup, insert, remove, contains_key, HasKey, NodupKeys, lookup-insert, lookup-remove,
  insert-NodupKeys, remove-NodupKeys, remove_absent, length-insert, length-remove-le, map_laws,
  str_leb, insert_sorted, sort_by_key, lookup-sort_by_key, sort_by_key-NodupKeys, Result, ok, err,
  ◌>>=◌, Result-cases, ok_or, ok_only, is_empty, strip_prefix, starts_with, strip_suffix, ends_with,
  contains_text, is_whitespace, trim_is_empty, trim_start, trim_end, trim, trim_slashes,
  utf8_length, byte_length, all_chars, is_alphanumeric, take_until, take_until_text, after_text,
  after_last, ℕ, zero, suc, ◌+◌, ◌-◌, ◌*◌, ◌/◌, ◌%◌, ◌^◌, ◌≤◌, ◌<◌, min, String, ◌≡◌, refl, sym, ap,
  ◌∙◌, ◌≢◌, ◌↔◌, ◌⊎◌, inl, inr, ite, if_pos, if_neg, Bool, true, false, ◌&&◌, ◌||◌, not, Option,
  none, some, List, [], ◌∷◌, ◌++◌, map, arith,
}
use coold.Mesh.Intent.{
  ActionType, install_wg, gen_key_pair, allocate_mgmt_ip, allocate_container_subnet, write_config,
  enable_service, reload_service, add_peer, remove_peer, install_podman, enable_podman_socket,
  enable_ip_forward, create_podman_network, recreate_podman_network, install_firewall,
  install_corrosion, install_coold, write_corrosion_config, write_corrosion_schema,
  install_corrosion_service, install_coold_service, PlannedAction, SkipReason, extend_replace,
  extend_version_bump, extend_wipe, upgrade_peer_refresh, upgrade_other, SkippedAction, Plan,
  Intent, bootstrap, extend, upgrade, Category, safe_always, peer_refresh, destructive_replace,
  version_bump, wipe_db, schema_first_write, DesiredMesh, resets_db, categorize, IntentError,
  no_new_nodes, not_in_nodes, nightly_version, first_unlisted, validate_intent, installs_service,
  decide_extend, decide_upgrade, decide, partition, filter_by_intent,
}
use coold.Mesh.Texts.{
  concat, join_with, insert_text, sort_texts, insert_once, set_of, difference, heredoc,
}
use coold.Mesh.Config.{genkey_command}
use coold.Mesh.State.{
  Peer, NamespaceServerState, ServerState, unknown_server, MeshState, TlsPair, MeshRequest,
  assigned_mgmt_ips, is_node, coold_flux_config, sorted_namespaces, listen_port_for, endpoint_for,
  assigned_of, assigned_from, assigned_container_subnets,
}
use coold.Mesh.Planning.Hosts.{
  PlanLibrary, push, push_if, first_chars, truncate_key, is_ip, state_of, found_key, key_missing,
  other_keys, peer_key_pending, current_keys, desired_keys, needs_config, service_actions,
  wireguard_actions,
}

abbrev apt_wg : String
apt_wg =
    "DEBIAN_FRONTEND=noninteractive apt-get update -qq 2>/dev/null && DEBIAN_FRONTEND=noninteractive apt-get install -y -o Dpkg::Options::=\"--force-confold\" wireguard wireguard-tools 2>&1"

abbrev apt_podman : String
apt_podman =
    "DEBIAN_FRONTEND=noninteractive apt-get update -qq 2>/dev/null && DEBIAN_FRONTEND=noninteractive apt-get install -y -o Dpkg::Options::=\"--force-confold\" podman nftables 2>&1"

abbrev enable_podman : String
enable_podman = "systemctl enable --now podman.socket 2>&1"

abbrev enable_forwarding : String
enable_forwarding =
    "sysctl -w net.ipv4.ip_forward=1 && mkdir -p /etc/sysctl.d && echo 'net.ipv4.ip_forward=1' > /etc/sysctl.d/99-coolify-mesh.conf"

pub data Step : Type 0 where
  runs : ActionType → String → Option String → Step
  panics : Step

unfoldable pub ActionType-discrete : Discrete ActionType
ActionType-discrete = hlevel

instance abbrev pub action_type_eq : Eq ActionType
action_type_eq = record { dec = ActionType-discrete }

unfoldable pub should_run : List PlannedAction → String → ActionType → String → Bool
unfolding any
should_run actions host action_type namespace =
    any
      (λ (a : PlannedAction).
        a.host == host
        && (a.action_type == action_type && (is_empty namespace || a.namespace == namespace)))
      actions

-- A `step` under a condition.
unfoldable pub step_if : Bool → ActionType → String → Option String → List Step
step_if b action_type ns cmd = if b then runs action_type ns cmd ∷ [] else []

-- The steps that need a value which an index may miss.
unfoldable pub or_panic : {A : Type 0} → Option A → (A → List Step) → List Step
or_panic none f = panics ∷ []
or_panic (some a) f = f a

module _ {Net : Type 0} where
  unfoldable pub phase1 : MeshRequest Net → MeshState Net → List PlannedAction → String → List Step
  unfolding step_if should_run is_node
  phase1 r servers planned host =
      let st = state_of servers host in
      let podman = is_node r host && r.install_podman in
      step_if (not st.installed && should_run planned host install_wg "") install_wg ""
        (some apt_wg)
      ++ (step_if (not st.keys_exist && should_run planned host gen_key_pair "") gen_key_pair ""
            (some genkey_command)
          ++ (step_if
                (podman && (not st.podman_installed && should_run planned host install_podman ""))
                install_podman "" (some apt_podman)
              ++ (step_if
                    (podman
                      && (not st.podman_socket_active
                          && should_run planned host enable_podman_socket ""))
                    enable_podman_socket "" (some enable_podman)
                  ++ step_if
                      (podman
                        && (not st.ip_forward_enabled
                            && should_run planned host enable_ip_forward ""))
                      enable_ip_forward "" (some enable_forwarding))))
