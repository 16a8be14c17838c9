-- ===== src/Mesh/Apply.antt =====
-- `apply_mesh` of coolify-cli/src/wireguard/apply.rs. What a command gives on a host is the parameter
-- `Runner`: it may depend on the commands that were run there before. The hosts of one phase share
-- nothing, so their runs stand one after another, in place of `for_each_server`; a probe of the hosts
-- (`reconstruct`) is a parameter too, which may depend on all that was run.
pub mod Planned
pub mod Allowed
use coold.Prelude.{
  ltb, leb, if◌then◌else◌, Bool-cases, Option-cases, and_then, Eq, String-discrete, string_eq,
  nat_eq, ◌==◌, ==_iff, ==_refl, contains, length, length-append, filter, any, length-filter-le,
  All, Map, lookup, insert, remove, contains_key, HasKey, NodupKeys, lookup-insert, lookup-remove,
  insert-NodupKeys, remove-NodupKeys, remove_absent, length-insert, length-remove-le, map_laws,
  str_leb, insert_sorted, sort_by_key, lookup-sort_by_key, sort_by_key-NodupKeys, Result, ok, err,
  ◌>>=◌, Result-cases, ok_or, ok_only, is_empty, strip_prefix, starts_with, strip_suffix, ends_with,
  contains_text, is_whitespace, trim_is_empty, trim_start, trim_end, trim, trim_slashes,
  utf8_length, byte_length, all_chars, is_alphanumeric, take_until, take_until_text, after_text,
  after_last, ℕ, zero, suc, ◌+◌, ◌-◌, ◌*◌, ◌/◌, ◌%◌, ◌^◌, ◌≤◌, ◌<◌, min, String, ◌≡◌, refl, sym, ap,
  ◌∙◌, ◌≢◌, ◌↔◌, ◌⊎◌, inl, inr, ite, if_pos, if_neg, Bool, true, false, ◌&&◌, ◌||◌, not, Option,
  none, some, List, [], ◌∷◌, ◌++◌, map, arith,
}
use coold.Mesh.Intent.{
  ActionType, install_wg, gen_key_pair, allocate_mgmt_ip, allocate_container_subnet, write_config,
  enable_service, reload_service, add_peer, remove_peer, install_podman, enable_podman_socket,
  enable_ip_forward, create_podman_network, recreate_podman_network, install_firewall,
  install_corrosion, install_coold, write_corrosion_config, write_corrosion_schema,
  install_corrosion_service, install_coold_service, PlannedAction, SkipReason, extend_replace,
  extend_version_bump, extend_wipe, upgrade_peer_refresh, upgrade_other, SkippedAction, Plan,
  Intent, bootstrap, extend, upgrade, Category, safe_always, peer_refresh, destructive_replace,
  version_bump, wipe_db, schema_first_write, DesiredMesh, resets_db, categorize, IntentError,
  no_new_nodes, not_in_nodes, nightly_version, first_unlisted, validate_intent, installs_service,
  decide_extend, decide_upgrade, decide, partition, filter_by_intent,
}
use coold.Mesh.Addresses.{AllocateError, allocated, failed, allocate_mgmt_ips}
use coold.Mesh.Subnets.{NetLibrary, SubnetError, allocate_namespaced}
use coold.Mesh.Texts.{
  concat, join_with, insert_text, sort_texts, insert_once, set_of, difference, heredoc,
}
use coold.Mesh.State.{
  Peer, NamespaceServerState, ServerState, unknown_server, MeshState, TlsPair, MeshRequest,
  assigned_mgmt_ips, is_node, coold_flux_config, sorted_namespaces, listen_port_for, endpoint_for,
  assigned_of, assigned_from, assigned_container_subnets,
}
use coold.Mesh.Planning.{PlanError, BuiltPlan, build_plan, mgmt_pool_of}
use coold.Mesh.Planning.Hosts.{
  PlanLibrary, push, push_if, first_chars, truncate_key, is_ip, state_of, found_key, key_missing,
  other_keys, peer_key_pending, current_keys, desired_keys, needs_config, service_actions,
  wireguard_actions,
}
use coold.Mesh.Phases.{
  Step, runs, panics, ActionType-discrete, action_type_eq, should_run, step_if, or_panic, phase1,
}
use coold.Mesh.Phases.Second.{
  peer_config, peer_configs, service_command, network_command, network_steps, podman_steps, phase2,
}
use coold.Mesh.Phases.Third.{
  node_ips, tls_provision, flux_pin_of, corrosion_config_command, coold_service_command, phase3,
}

-- `Runner::run`: a host, the commands that were run on it, and the next one.
abbrev pub Runner : Type 0
Runner = String → List String → String → Result String String

pub record ActionResult : Type 0 where
  pub action : PlannedAction
  pub succeeded : Bool

pub data RunError : Type 0 where
  command_failed : String → RunError
  index_panic : RunError

-- What a phase has done on a host: the results that it has pushed, the commands that it has run, and
-- the error that has ended it.
pub record HostRun : Type 0 where
  pub results : List ActionResult
  pub commands : List String
  pub error : Option RunError

abbrev result_of : String → ActionType → String → Bool → ActionResult
result_of host action_type ns succeeded = record {
  action = push host ns action_type "";
  succeeded = succeeded;
}

-- The calls of `step`, each with `?`.
unfoldable pub run_steps : Runner → String → List String → List Step → HostRun
run_steps run host seen [] = record { results = []; commands = []; error = none }
run_steps run host seen (panics ∷ steps) = record {
  results = [];
  commands = [];
  error = some index_panic;
}
run_steps run host seen (runs action_type ns none ∷ steps) = record {
  results = [];
  commands = [];
  error = some index_panic;
}
run_steps run host seen (runs action_type ns (some cmd) ∷ steps) =
    let rest = run_steps run host (seen ++ (cmd ∷ [])) steps in
    elim (run host seen cmd) [
      | err e ↦ record {
        results = result_of host action_type ns false ∷ [];
        commands = cmd ∷ [];
        error = some (command_failed e);
      }
      | ok _ ↦ record {
        results = result_of host action_type ns true ∷ rest.results;
        commands = cmd ∷ rest.commands;
        error = rest.error;
      }
    ]

-- `?` on the result of a host.
abbrev pub has_failed : HostRun → Bool
has_failed r = elim r.error [ none ↦ false | some _ ↦ true ]

-- `for_each_server`: every host runs its steps, whatever the others do.
unfoldable pub run_phase :
    Runner → Map String (List String) → (String → List Step) → List String → Map String HostRun
unfolding run_steps lookup
run_phase run history steps [] = []
run_phase run history steps (host ∷ hosts) =
    let seen : List String = elim (lookup host history) [ none ↦ [] | some cmds ↦ cmds ] in
    (host, run_steps run host seen (steps host)) ∷ run_phase run history steps hosts

-- What has been run on each host after a phase.
unfoldable pub add_history :
    Map String (List String) → Map String HostRun → Map String (List String)
unfolding insert lookup
add_history history [] = history
add_history history ((host, r) ∷ done) =
    let seen : List String = elim (lookup host history) [ none ↦ [] | some cmds ↦ cmds ] in
    add_history (insert host (seen ++ r.commands) history) done

-- The loop over the results of a phase: those of a host that succeeded, or one error.
unfoldable pub collect_results : ActionType → Map String HostRun → List ActionResult
collect_results action_type [] = []
collect_results action_type ((host, r) ∷ done) =
    (if has_failed r then result_of host action_type "" false ∷ [] else r.results)
    ++ collect_results action_type done

unfoldable pub any_failed : Map String HostRun → Bool
any_failed [] = false
any_failed ((_, r) ∷ done) = has_failed r || any_failed done

pub data ApplyError : Type 0 where
  not_planned : PlanError → ApplyError
  phase1_failed phase2_failed phase3_failed : ApplyError
  probe_failed : String → ApplyError
  mgmt_not_allocated : AllocateError → ApplyError
  subnets_not_allocated : SubnetError → ApplyError

-- The result of `apply_mesh`, with what it has run.
pub record Applied : Type 0 where
  pub history : Map String (List String)
  pub outcome : Result ApplyError (List ActionResult)

module _ (lib : NetLibrary) (print : PlanLibrary lib) where
  open lib use {Net}

  -- After the second phase.
  unfoldable pub apply_last :
      Runner
      → MeshRequest Net
      → Map String ℕ
      → Map String (Map String Net)
      → List PlannedAction
      → Map String (List String)
      → List ActionResult
      → Map String HostRun
      → Applied
  unfolding any_failed collect_results add_history run_phase phase3
  apply_last run r mgmt subnets planned history all p2 =
      let history2 = add_history history p2 in
      let all2 = all ++ collect_results write_config p2 in
      if any_failed p2
      then record { history = history2; outcome = err phase2_failed }
      else if not r.install_coold
      then record { history = history2; outcome = ok all2 }
      else (let p3 =
            run_phase run history2 (λ host. phase3 lib print r mgmt subnets planned host)
              r.desired.nodes in
          let history3 = add_history history2 p3 in
          if any_failed p3
          then record { history = history3; outcome = err phase3_failed }
          else record {
            history = history3;
            outcome = ok (all2 ++ collect_results install_coold p3);
          })

  -- After the first phase.
  unfoldable pub apply_rest :
      Runner
      → (Map String (List String) → Result String (MeshState Net))
      → MeshRequest Net
      → List PlannedAction
      → Map String (List String)
      → List ActionResult
      → Applied
  unfolding allocate_mgmt_ips assigned_mgmt_ips allocate_namespaced assigned_from run_phase phase2
      apply_last
  apply_rest run probe r planned history all = elim (probe history) [
    | err e ↦ record { history = history; outcome = err (probe_failed e) }
    | ok fresh ↦
        elim (allocate_mgmt_ips (mgmt_pool_of lib print r) (assigned_mgmt_ips fresh) r.hosts) [
          | failed e ↦ record { history = history; outcome = err (mgmt_not_allocated e) }
          | allocated mgmt ↦
              elim (allocate_namespaced lib r.container_pool r.container_prefix
                (assigned_container_subnets lib fresh) r.namespaces r.desired.nodes) [
                  | err e ↦ record { history = history; outcome = err (subnets_not_allocated e) }
                  | ok nets ↦ apply_last run r mgmt.result nets.0 planned history all (
                      run_phase run history
                        (λ host. phase2 lib print r fresh mgmt.result nets.0 planned host) r.hosts)
                ]
        ]
  ]

  unfoldable pub apply_mesh :
      Runner
      → (Map String (List String) → Result String (MeshState Net))
      → MeshRequest Net
      → MeshState Net
      → Applied
  unfolding build_plan run_phase phase1 collect_results any_failed add_history apply_rest
  apply_mesh run probe r servers = elim (build_plan lib print r servers) [
    | err e ↦ record { history = []; outcome = err (not_planned e) }
    | ok built ↦
        let planned = built.plan.actions in
        let p1 = run_phase run [] (λ host. phase1 r servers planned host) r.hosts in
        let history1 = add_history [] p1 in
        if any_failed p1
        then record { history = history1; outcome = err phase1_failed }
        else apply_rest run probe r planned history1 (collect_results install_wg p1)
  ]
