-- ===== src/Tests/Planning.antt =====
-- A mesh of two hosts that is planned and applied (coolify-cli/src/wireguard).
use coold.Prelude.{
  String-discrete, string_eq, nat_eq, ◌==◌, contains, filter, All, Map, lookup, str_leb, ℕ, String,
  ◌≡◌, refl, ◌↔◌, true, false, none, some, List, [], ◌∷◌, ◌++◌, map, arith,
}
use coold.Mesh.Intent.{
  install_wg, gen_key_pair, write_config, enable_service, remove_peer, PlannedAction, Plan, extend,
  filter_by_intent,
}
use coold.Mesh.Subnets.{step_of}
use coold.Mesh.State.{Peer, ServerState, unknown_server, MeshState, MeshRequest, listen_port_for}
use coold.Mesh.Planning.{all_actions, build_plan}
use coold.Mesh.Planning.Hosts.{
  PlanLibrary, push, truncate_key, peer_key_pending, current_keys, desired_keys, wireguard_actions,
}
use coold.Mesh.Planning.Nodes.{coold_drift_actions}
use coold.Mesh.Planning.Converged.{IsSettled, wireguard_actions-IsSettled, wireguard_actions_stale}
use coold.Mesh.Planning.Services.{IsDeployed, coold_drift_actions-IsDeployed}
use coold.Mesh.Planning.Ends.{PlanEnds, build_plan_lem}
use coold.Mesh.Planning.Scope.{IsDue, all_actions-AreDue}
use coold.Mesh.Phases.{action_type_eq, phase1}
use coold.Mesh.Phases.Second.{phase2}
use coold.Mesh.Phases.Third.{phase3}
use coold.Mesh.Apply.Allowed.{IsAllowed, phases-AreAllowed}
use coold.Tests.Subnets.{nets, pool, nets_laws, start_of}
use coold.Mesh.Texts.{insert_text, insert_once, set_of, difference}

abbrev printing : PlanLibrary nets
printing = record {
  show_net = λ net. "10.0.0.0/30";
  same_net = λ a b. start_of a == start_of b;
  show_ip = λ ip. "100.64.0.1";
  sha256_hex = λ text. text;
}

-- 100.64.0.0/29
abbrev mgmt_pool : ℕ × ℕ
mgmt_pool = (1681915904, 29)

abbrev wanted : MeshRequest (ℕ × ℕ)
wanted = record {
  desired = record {
    nodes = "node" ∷ [];
    coold_version = "v1";
    corrosion_version = "v1";
    intent = extend;
    new_nodes = "node" ∷ [];
    allow_replace = false;
    allow_nightly = false;
  };
  hosts = "hub" ∷ "node" ∷ [];
  interface = "wg0";
  mgmt_pool = mgmt_pool;
  container_pool = pool;
  container_prefix = 30;
  listen_port = 51820;
  listen_port_overrides = [];
  endpoint_overrides = [];
  install_podman = true;
  namespaces = "default" ∷ [];
  default_deny_containers = false;
  install_coold = true;
  corrosion_gossip_port = 8787;
  corrosion_api_port = 8080;
  coold_sha256 = none;
  corrosion_sha256 = none;
  corrosion_gossip_tls = none;
  flux_tls = none;
  flux_tls_url = none;
}

build_plan_lem_example : PlanEnds nets printing wanted [] (build_plan nets printing wanted [])
unfolding native.Mathlib.Decide.ℕ_discrete
build_plan_lem_example =
    build_plan_lem nets printing wanted [] nets_laws (unfold step_of in omega arith)
      (unfold step_of in omega arith) (unfold step_of in omega arith) tt

abbrev peer_of : String → Peer
peer_of key = record {
  public_key = key;
  endpoint = "";
  allowed_ips = [];
  persistent_keepalive = 25;
}

-- A hub that is settled but for the peers that it has.
abbrev hub_with : List Peer → ServerState (ℕ × ℕ)
hub_with peers = record unknown_server {
  installed = true;
  keys_exist = true;
  public_key = "hub key";
  wireguard_mgmt_ip = some 1681915905;
  listen_port = 51820;
  active = true;
  peers = peers;
}

abbrev node_state : ServerState (ℕ × ℕ)
node_state = record unknown_server { public_key = "node key" }

abbrev known : List Peer → MeshState (ℕ × ℕ)
known peers = ("hub", hub_with peers) ∷ ("node", node_state) ∷ []

abbrev one_peer : List Peer
one_peer = peer_of "node key" ∷ []

wireguard_actions-IsSettled_example :
    (wireguard_actions wanted (known one_peer) "hub" 1681915905 (hub_with one_peer) ≡ [])
    ↔ IsSettled wanted (known one_peer) "hub" 1681915905 (hub_with one_peer)
wireguard_actions-IsSettled_example =
    wireguard_actions-IsSettled wanted (known one_peer) "hub" 1681915905 (hub_with one_peer)

abbrev two_peers : List Peer
two_peers = peer_of "node key" ∷ peer_of "gone key" ∷ []

wireguard_actions_stale_example :
    wireguard_actions wanted (known two_peers) "hub" 1681915905 (hub_with two_peers)
    ≡ map
        (λ key. push "hub" "" remove_peer (truncate_key key))
        (difference
          (current_keys (hub_with two_peers))
          (desired_keys wanted (known two_peers) "hub"))
unfolding peer_key_pending desired_keys current_keys listen_port_for
    native.Mathlib.Decide.ℕ_discrete String-discrete lookup set_of insert_once contains filter
    insert_text str_leb
wireguard_actions_stale_example =
    wireguard_actions_stale wanted (known two_peers) "hub" 1681915905 (hub_with two_peers) refl refl
      refl refl refl refl refl

coold_drift_actions-IsDeployed_example :
    (coold_drift_actions nets printing wanted "node" 1681915906 node_state "cfg" "unit" 0 1 ≡ [])
    ↔ IsDeployed nets printing wanted node_state "cfg" "unit"
coold_drift_actions-IsDeployed_example =
    coold_drift_actions-IsDeployed nets printing wanted "node" 1681915906 node_state "cfg" "unit" 0
      1

abbrev addresses : Map String ℕ
addresses = ("hub", 1681915905) ∷ ("node", 1681915906) ∷ []

abbrev hub_actions : List PlannedAction
hub_actions =
    push "hub" "" install_wg "wireguard not installed"
    ∷ push "hub" "" gen_key_pair "missing /etc/wireguard/privatekey"
    ∷ push "hub" "" write_config "wg0.conf (1 peer(s))"
    ∷ push "hub" "" enable_service "systemctl enable --now wg-quick@wg0"
    ∷ []

all_actions-AreDue_example : All (IsDue nets printing wanted ("hub" ∷ [])) hub_actions
unfolding all_actions native.Mathlib.Decide.ℕ_discrete String-discrete filter
all_actions-AreDue_example =
    all_actions-AreDue nets printing wanted [] addresses [] ("hub" ∷ []) hub_actions refl

abbrev drafted : Plan
drafted = record { actions = hub_actions; skipped = [] }

phases-AreAllowed_example : All (IsAllowed wanted.desired hub_actions "hub") (
    phase1 wanted [] (filter_by_intent drafted wanted.desired).actions "hub"
    ++ (phase2 nets printing wanted
          (known one_peer)
          addresses
          []
          (filter_by_intent drafted wanted.desired).actions
          "hub"
        ++ phase3 nets printing wanted addresses []
            (filter_by_intent drafted wanted.desired).actions
            "hub"))
phases-AreAllowed_example =
    phases-AreAllowed nets printing wanted [] (known one_peer) addresses [] drafted "hub"
