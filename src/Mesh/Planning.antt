-- ===== src/Mesh/Planning.antt =====
-- coolify-cli/src/wireguard/plan.rs: the actions that bring the hosts of a mesh to what is desired.
-- What the code prints of addresses and networks, the equality of networks and the hash are the
-- parameter `PlanLibrary`. `BuiltPlan` is `Plan`; its `plan` has the fields that the intents change.
pub mod Hosts
pub mod Nodes
pub mod Keys
pub mod Converged
pub mod Services
pub mod Total
pub mod Ends
pub mod Scope
use coold.Prelude.{
  ltb, leb, if◌then◌else◌, Bool-cases, Option-cases, and_then, Eq, String-discrete, string_eq,
  nat_eq, ◌==◌, ==_iff, ==_refl, contains, length, length-append, filter, any, length-filter-le,
  All, Map, lookup, insert, remove, contains_key, HasKey, NodupKeys, lookup-insert, lookup-remove,
  insert-NodupKeys, remove-NodupKeys, remove_absent, length-insert, length-remove-le, map_laws,
  str_leb, insert_sorted, sort_by_key, lookup-sort_by_key, sort_by_key-NodupKeys, Result, ok, err,
  ◌>>=◌, Result-cases, ok_or, ok_only, is_empty, strip_prefix, starts_with, strip_suffix, ends_with,
  contains_text, is_whitespace, trim_is_empty, trim_start, trim_end, trim, trim_slashes,
  utf8_length, byte_length, all_chars, is_alphanumeric, take_until, take_until_text, after_text,
  after_last, ℕ, zero, suc, ◌+◌, ◌-◌, ◌*◌, ◌/◌, ◌%◌, ◌^◌, ◌≤◌, ◌<◌, min, String, ◌≡◌, refl, sym, ap,
  ◌∙◌, ◌≢◌, ◌↔◌, ◌⊎◌, inl, inr, ite, if_pos, if_neg, Bool, true, false, ◌&&◌, ◌||◌, not, Option,
  none, some, List, [], ◌∷◌, ◌++◌, map, arith,
}
use coold.Agent.Rules.{to_string}
use coold.Mesh.Intent.{
  ActionType, install_wg, gen_key_pair, allocate_mgmt_ip, allocate_container_subnet, write_config,
  enable_service, reload_service, add_peer, remove_peer, install_podman, enable_podman_socket,
  enable_ip_forward, create_podman_network, recreate_podman_network, install_firewall,
  install_corrosion, install_coold, write_corrosion_config, write_corrosion_schema,
  install_corrosion_service, install_coold_service, PlannedAction, SkipReason, extend_replace,
  extend_version_bump, extend_wipe, upgrade_peer_refresh, upgrade_other, SkippedAction, Plan,
  Intent, bootstrap, extend, upgrade, Category, safe_always, peer_refresh, destructive_replace,
  version_bump, wipe_db, schema_first_write, DesiredMesh, resets_db, categorize, IntentError,
  no_new_nodes, not_in_nodes, nightly_version, first_unlisted, validate_intent, installs_service,
  decide_extend, decide_upgrade, decide, partition, filter_by_intent,
}
use coold.Mesh.Addresses.{Pool, Warning, AllocateError, allocated, failed, allocate_mgmt_ips}
use coold.Mesh.Subnets.{NetLibrary, SubnetError, SubnetWarning, allocate_namespaced, existing_at}
use coold.Mesh.Texts.{
  concat, join_with, insert_text, sort_texts, insert_once, set_of, difference, heredoc,
}
use coold.Mesh.State.{
  Peer, NamespaceServerState, ServerState, unknown_server, MeshState, TlsPair, MeshRequest,
  assigned_mgmt_ips, is_node, coold_flux_config, sorted_namespaces, listen_port_for, endpoint_for,
  assigned_of, assigned_from, assigned_container_subnets,
}
use coold.Mesh.Planning.Hosts.{
  PlanLibrary, push, push_if, first_chars, truncate_key, is_ip, state_of, found_key, key_missing,
  other_keys, peer_key_pending, current_keys, desired_keys, needs_config, service_actions,
  wireguard_actions,
}
use coold.Mesh.Planning.Nodes.{
  binary_version_drift, podman_network_for, host_subnets, machine_ip, is_net, network_drifts,
  network_actions, networks_actions, wanted_firewall, same_bool, firewall_actions, podman_actions,
  other_ips, is_some, wanted_corrosion, wanted_coold, schema_actions, coold_drift_actions,
  coold_actions,
}

pub data PlanError : Type 0 where
  deny_needs_podman coold_needs_podman no_namespace : PlanError
  intent_refused : IntentError → PlanError
  nft_missing : String → PlanError
  mgmt_refused : AllocateError → PlanError
  subnets_refused : SubnetError → PlanError
  entry_missing : PlanError

pub record BuiltPlan (Net : Type 0) : Type 0 where
  pub plan : Plan
  pub mgmt_assignments : Map String ℕ
  pub subnet_assignments : Map String (Map String Net)
  pub mgmt_warnings : List Warning
  pub subnet_warnings : List SubnetWarning

abbrev pub no_items : {A : Type 0} → List A → Bool
no_items [] = true
no_items (_ ∷ _) = false

-- The loop over the nodes, and the whole of what is checked first; `none` is `Ok`.
unfoldable pub first_without_nft :
    {Net : Type 0} → Bool → MeshState Net → List String → Option PlanError
unfolding lookup
first_without_nft deny servers [] = none
first_without_nft deny servers (host ∷ nodes) =
    let rest = first_without_nft deny servers nodes in
    elim (lookup host servers) [
      | none ↦ rest
      | some s ↦ if deny && not s.nft_available then some (nft_missing host) else rest
    ]

unfoldable pub check_request : {Net : Type 0} → MeshRequest Net → MeshState Net → Option PlanError
unfolding first_without_nft validate_intent
check_request r servers =
    let nodes = r.desired.nodes in
    if not (no_items nodes) && (r.default_deny_containers && not r.install_podman)
    then some deny_needs_podman
    else if not (no_items nodes) && (r.install_coold && not r.install_podman)
    then some coold_needs_podman
    else if not (no_items nodes) && (r.install_podman && no_items r.namespaces)
    then some no_namespace
    else (elim (validate_intent r.desired) [
      | some e ↦ some (intent_refused e)
      | none ↦ first_without_nft r.default_deny_containers servers nodes
    ])

module _ (lib : NetLibrary) (print : PlanLibrary lib) where
  open lib use {Net, network, broadcast}

  -- One round of the loop over the hosts; `none` is where the code would panic.
  unfoldable pub host_actions :
      MeshRequest Net
      → MeshState Net
      → Map String ℕ
      → Map String (Map String Net)
      → String
      → Option (List PlannedAction)
  unfolding wireguard_actions podman_actions coold_actions is_node lookup
  host_actions r servers mgmt subnets host =
      let state = state_of servers host in
      and_then (lookup host mgmt) (λ mgmt_ip.
        and_then
          (if is_node r host && r.install_podman
            then podman_actions lib print r subnets host state
            else some [])
          (λ podman.
            and_then
              (if is_node r host && r.install_coold
                then coold_actions lib print r mgmt subnets host mgmt_ip state
                else some [])
              (λ coold.
                some (wireguard_actions r servers host mgmt_ip state ++ (podman ++ coold)))))

  -- The loop over the hosts.
  unfoldable pub all_actions :
      MeshRequest Net
      → MeshState Net
      → Map String ℕ
      → Map String (Map String Net)
      → List String
      → Option (List PlannedAction)
  unfolding host_actions
  all_actions r servers mgmt subnets [] = some []
  all_actions r servers mgmt subnets (host ∷ hosts) =
      let rest = all_actions r servers mgmt subnets hosts in
      and_then (host_actions r servers mgmt subnets host)
        (λ these. and_then rest (λ others. some (these ++ others)))

  abbrev pub built :
      MeshRequest Net
      → Map String ℕ
      → Map String (Map String Net)
      → List Warning
      → List SubnetWarning
      → List PlannedAction
      → BuiltPlan Net
  built r mgmt subnets mgmt_warnings subnet_warnings actions = record {
    plan = filter_by_intent (record { actions = actions; skipped = [] }) r.desired;
    mgmt_assignments = mgmt;
    subnet_assignments = subnets;
    mgmt_warnings = mgmt_warnings;
    subnet_warnings = subnet_warnings;
  }

  -- What follows the two allocations.
  unfoldable pub finish_plan :
      MeshRequest Net
      → MeshState Net
      → Map String ℕ
      → Map String (Map String Net)
      → List Warning
      → List SubnetWarning
      → Result PlanError (BuiltPlan Net)
  unfolding all_actions filter_by_intent
  finish_plan r servers mgmt subnets mgmt_warnings subnet_warnings =
      elim (all_actions r servers mgmt subnets r.hosts) [
        | none ↦ err entry_missing
        | some actions ↦ ok (built r mgmt subnets mgmt_warnings subnet_warnings actions)
      ]

  abbrev pub mgmt_pool_of : MeshRequest Net → Pool
  mgmt_pool_of r = record { network = network r.mgmt_pool; broadcast = broadcast r.mgmt_pool }

  unfoldable pub build_plan : MeshRequest Net → MeshState Net → Result PlanError (BuiltPlan Net)
  unfolding check_request allocate_mgmt_ips assigned_mgmt_ips allocate_namespaced assigned_from
      finish_plan
  build_plan r servers = elim (check_request r servers) [
    | some e ↦ err e
    | none ↦ elim (allocate_mgmt_ips (mgmt_pool_of r) (assigned_mgmt_ips servers) r.hosts) [
      | failed e ↦ err (mgmt_refused e)
      | allocated mgmt ↦
          elim (allocate_namespaced lib r.container_pool r.container_prefix
            (assigned_container_subnets lib servers) r.namespaces r.desired.nodes) [
              | err e ↦ err (subnets_refused e)
              | ok nets ↦ finish_plan r servers mgmt.result nets.0 mgmt.warnings nets.1
            ]
    ]
  ]
