-- ===== src/Mesh/Planning/Scope.antt =====
-- For which hosts `build_plan` (coolify-cli/src/wireguard/plan.rs) plans what.
use coold.Prelude.{
  if◌then◌else◌, Bool-cases, and_then, string_eq, nat_eq, ◌==◌, ==_refl, contains, length, All, Map,
  lookup, ℕ, String, ◌≡◌, refl, inl, inr, Bool, true, false, ◌&&◌, ◌||◌, not, Option, none, some,
  List, [], ◌∷◌, ◌++◌, map, arith,
}
use coold.Mesh.Intent.{
  ActionType, install_podman, enable_podman_socket, enable_ip_forward, create_podman_network,
  recreate_podman_network, install_firewall, install_corrosion, install_coold,
  write_corrosion_config, write_corrosion_schema, install_corrosion_service, install_coold_service,
  PlannedAction,
}
use coold.Mesh.Subnets.{NetLibrary}
use coold.Mesh.Services.Corrosion.{coolify_schema_sql}
use coold.Mesh.Texts.{difference}
use coold.Mesh.State.{
  NamespaceServerState, ServerState, MeshState, MeshRequest, is_node, sorted_namespaces,
}
use coold.Mesh.Planning.{host_actions, all_actions}
use coold.Mesh.Planning.Hosts.{
  PlanLibrary, push_if, state_of, current_keys, desired_keys, needs_config, service_actions,
  wireguard_actions,
}
use coold.Mesh.Planning.Nodes.{
  binary_version_drift, host_subnets, network_drifts, network_actions, networks_actions,
  wanted_firewall, same_bool, firewall_actions, podman_actions, other_ips, wanted_corrosion,
  wanted_coold, schema_actions, coold_drift_actions, coold_actions,
}

-- Which flag the actions of a type wait on.
pub data Layer : Type 0 where
  on_wireguard on_podman on_coold : Layer

unfoldable pub layer_of : ActionType → Layer
layer_of install_podman = on_podman
layer_of enable_podman_socket = on_podman
layer_of enable_ip_forward = on_podman
layer_of create_podman_network = on_podman
layer_of recreate_podman_network = on_podman
layer_of install_firewall = on_podman
layer_of install_corrosion = on_coold
layer_of install_coold = on_coold
layer_of write_corrosion_config = on_coold
layer_of write_corrosion_schema = on_coold
layer_of install_corrosion_service = on_coold
layer_of install_coold_service = on_coold
layer_of _ = on_wireguard

All-append :
    {A : Type 0} → (P : A → Type 0) (xs ys : List A) → All P xs → All P ys → All P (xs ++ ys)
All-append P [] ys a b = b
All-append P (x ∷ xs) ys a b = (a.0, All-append P xs ys a.1 b)

All-weaken :
    {A : Type 0} → (P Q : A → Type 0) (xs : List A) → ((x : A) → P x → Q x) → All P xs → All Q xs
All-weaken P Q [] f a = tt
All-weaken P Q (x ∷ xs) f a = (f x a.0, All-weaken P Q xs f a.1)

push_if-All :
    (P : PlannedAction → Type 0) (b : Bool) (a : PlannedAction) → P a → All P (push_if b a)
unfolding push_if
push_if-All P true a h = (h, tt)
push_if-All P false a h = tt

map-All :
    (P : PlannedAction → Type 0) (f : String → PlannedAction) (ts : List String)
    → ((t : String) → P (f t))
    → All P (map f ts)
map-All P f [] h = tt
map-All P f (t ∷ ts) h = (h t, map-All P f ts h)

All-some :
    {A : Type 0} → (P : A → Type 0) (xs ys : List A) → some xs ≡ some ys → All P xs → All P ys
All-some P xs ys e a = let eq : xs ≡ ys = ground (arith, e) in rw eq at a

and_then-some :
    {A B : Type 0}
    → (o : Option A) (f : A → Option B) (b : B) → and_then o f ≡ some b
    → (a : A) × (o ≡ some a) × (f a ≡ some b)
and_then-some none f b e = absurd (ground (arith, e))
and_then-some (some a) f b e = (a, refl, e)

module _ (Net : Type 0) where
  -- Whether a host takes part in a layer.
  abbrev pub takes_part : MeshRequest Net → String → Layer → Bool
  takes_part r host on_wireguard = true
  takes_part r host on_podman = is_node r host && r.install_podman
  takes_part r host on_coold = is_node r host && r.install_coold

  -- An action for this host, of a layer in which it takes part.
  abbrev pub IsFor : MeshRequest Net → String → PlannedAction → Type 0
  IsFor r host a = (a.host ≡ host) × (takes_part r host (layer_of a.action_type) ≡ true)

  wireguard_actions-IsFor :
      (r : MeshRequest Net) (servers : MeshState Net) (host : String) (ip : ℕ) (s : ServerState Net)
      → All (IsFor r host) (wireguard_actions r servers host ip s)
  unfolding wireguard_actions layer_of
  wireguard_actions-IsFor r servers host ip s =
      let P = IsFor r host in
      All-append P _ _ (push_if-All P (not s.installed) _ (refl, refl)) (
        All-append P _ _ (push_if-All P (not s.keys_exist) _ (refl, refl)) (
          All-append P _ _
            (map-All P _ (difference (desired_keys r servers host) (current_keys s))
              (λ k. (refl, refl)))
            (All-append P _ _
              (map-All P _ (difference (current_keys s) (desired_keys r servers host))
                (λ k. (refl, refl)))
              (All-append P _ _ (push_if-All P (needs_config r servers host ip s) _ (refl, refl))
                (service s.active (needs_config r servers host ip s))))))
    where
      service : (active config : Bool) → All (IsFor r host) (service_actions r host active config)
      service true config = push_if-All (IsFor r host) config _ (refl, refl)
      service false config = ((refl, refl), tt)

module _ (lib : NetLibrary) (print : PlanLibrary lib) where
  open lib use {Net}

  network_actions-IsFor :
      (r : MeshRequest Net) (host ns : String) (want : Net)
      (nss : Option (NamespaceServerState Net))
      → is_node r host && r.install_podman ≡ true
      → All (IsFor Net r host) (network_actions lib print host ns want nss)
  unfolding network_actions layer_of
  network_actions-IsFor r host ns want none g = ((refl, g), tt)
  network_actions-IsFor r host ns want (some s) g = elim (Bool-cases s.network_exists) [
    | inl here ↦
        rw here (push_if-All (IsFor Net r host) (network_drifts lib print s ns want) _ (refl, g))
    | inr gone ↦ rw gone ((refl, g), tt)
  ]

  networks_actions-IsFor :
      (r : MeshRequest Net) (host : String) (s : ServerState Net) (nets : List (String × Net))
      → is_node r host && r.install_podman ≡ true
      → All (IsFor Net r host) (networks_actions lib print host s nets)
  unfolding networks_actions
  networks_actions-IsFor r host s [] g = tt
  networks_actions-IsFor r host s ((ns, want) ∷ nets) g =
      All-append (IsFor Net r host) _ _
        (network_actions-IsFor r host ns want (lookup ns s.namespaces) g)
        (networks_actions-IsFor r host s nets g)

  firewall_actions-IsFor :
      (r : MeshRequest Net) (host : String) (s : ServerState Net) (nets : List (String × Net))
      → is_node r host && r.install_podman ≡ true
      → All (IsFor Net r host) (firewall_actions lib print r host s nets)
  unfolding firewall_actions layer_of
  firewall_actions-IsFor r host s nets g =
      push_if-All (IsFor Net r host)
        (not s.firewall_active
          || (not (same_bool lib print s.default_deny_active r.default_deny_containers)
              || not
                  (s.firewall_unit_sha256 == print.sha256_hex (wanted_firewall lib print r nets))))
        _ (refl, g)

  podman_actions-IsFor :
      (r : MeshRequest Net) (subnets : Map String (Map String Net)) (host : String)
      (s : ServerState Net) (actions : List PlannedAction)
      → is_node r host && r.install_podman ≡ true
      → podman_actions lib print r subnets host s ≡ some actions
      → All (IsFor Net r host) actions
  unfolding podman_actions layer_of
  podman_actions-IsFor r subnets host s actions g e =
      let (nets, _, made) =
        and_then-some (host_subnets lib print subnets host (sorted_namespaces r)) _ actions e in
      let P = IsFor Net r host in
      All-some P _ actions made (
        All-append P _ _ (push_if-All P (not s.podman_installed) _ (refl, g)) (
          All-append P _ _ (push_if-All P (not s.podman_socket_active) _ (refl, g)) (
            All-append P _ _ (push_if-All P (not s.ip_forward_enabled) _ (refl, g)) (
              All-append P _ _ (networks_actions-IsFor r host s nets g)
                (firewall_actions-IsFor r host s nets g)))))

  coold_drift_actions-IsFor :
      (r : MeshRequest Net) (host : String) (ip : ℕ) (s : ServerState Net) (cfg unit : String)
      (peers names : ℕ)
      → is_node r host && r.install_coold ≡ true
      → All (IsFor Net r host) (coold_drift_actions lib print r host ip s cfg unit peers names)
  unfolding coold_drift_actions schema_actions layer_of
  coold_drift_actions-IsFor r host ip s cfg unit peers names g =
      let P = IsFor Net r host in
      let corrosion_drift =
        binary_version_drift r.desired.corrosion_version s.corrosion_installed
          s.corrosion_version in
      let coold_drift =
        binary_version_drift r.desired.coold_version s.coold_installed s.coold_version in
      let cfg_drift = not (s.corrosion_config_hash == print.sha256_hex cfg) in
      let schema_drift = not (s.corrosion_schema_sha256 == print.sha256_hex coolify_schema_sql) in
      let unit_drift = not (s.coold_unit_sha256 == print.sha256_hex unit) in
      All-append P _ _ (push_if-All P corrosion_drift _ (refl, g)) (
        All-append P _ _ (push_if-All P coold_drift _ (refl, g)) (
          All-append P _ _ (push_if-All P cfg_drift _ (refl, g)) (
            All-append P _ _
              (push_if-All P (not s.corrosion_schema_exists || schema_drift) _ (refl, g))
              (All-append P _ _
                (push_if-All P
                  (not s.corrosion_active || (cfg_drift || (corrosion_drift || schema_drift))) _
                  (refl, g))
                (push_if-All P (not s.coold_active || (cfg_drift || (coold_drift || unit_drift))) _
                  (refl, g))))))

  coold_actions-IsFor :
      (r : MeshRequest Net) (mgmt : Map String ℕ) (subnets : Map String (Map String Net))
      (host : String) (ip : ℕ) (s : ServerState Net) (actions : List PlannedAction)
      → is_node r host && r.install_coold ≡ true
      → coold_actions lib print r mgmt subnets host ip s ≡ some actions
      → All (IsFor Net r host) actions
  unfolding coold_actions
  coold_actions-IsFor r mgmt subnets host ip s actions g e =
      let (cfg, _, rest) = and_then-some (wanted_corrosion lib print r mgmt host ip) _ actions e in
      let (nets, _, made) =
        and_then-some (host_subnets lib print subnets host (sorted_namespaces r)) _ actions rest in
      All-some (IsFor Net r host) _ actions made (
        coold_drift_actions-IsFor r host ip s cfg (wanted_coold lib print r ip nets)
          (length (other_ips lib print mgmt host r.desired.nodes)) (length nets) g)

  if_part :
      (r : MeshRequest Net) (host : String) (b : Bool) (o : Option (List PlannedAction))
      (actions : List PlannedAction)
      → (b ≡ true → o ≡ some actions → All (IsFor Net r host) actions)
      → (if b then o else some []) ≡ some actions
      → All (IsFor Net r host) actions
  if_part r host true o actions f e = f refl e
  if_part r host false o actions f e = All-some (IsFor Net r host) [] actions e tt

  host_actions-IsFor :
      (r : MeshRequest Net) (servers : MeshState Net) (mgmt : Map String ℕ)
      (subnets : Map String (Map String Net)) (host : String) (actions : List PlannedAction)
      → host_actions lib print r servers mgmt subnets host ≡ some actions
      → All (IsFor Net r host) actions
  unfolding host_actions
  host_actions-IsFor r servers mgmt subnets host actions e =
      let P = IsFor Net r host in
      let state = state_of servers host in
      let (ip, _, e₁) = and_then-some (lookup host mgmt) _ actions e in
      let (podman, one, e₂) =
        and_then-some
          (if is_node r host && r.install_podman
            then podman_actions lib print r subnets host state
            else some [])
          _ actions e₁ in
      let (coold_part, two, made) =
        and_then-some
          (if is_node r host && r.install_coold
            then coold_actions lib print r mgmt subnets host ip state
            else some [])
          _ actions e₂ in
      All-some P _ actions made (
        All-append P _ _ (wireguard_actions-IsFor Net r servers host ip state) (
          All-append P podman coold_part
            (if_part r host (is_node r host && r.install_podman)
              (podman_actions lib print r subnets host state) podman
              (λ g e. podman_actions-IsFor r subnets host state podman g e) one)
            (if_part r host (is_node r host && r.install_coold)
              (coold_actions lib print r mgmt subnets host ip state) coold_part
              (λ g e. coold_actions-IsFor r mgmt subnets host ip state coold_part g e) two)))

  -- An action for a desired host, of a layer in which it takes part.
  abbrev pub IsDue : MeshRequest Net → List String → PlannedAction → Type 0
  IsDue r hosts a =
      (contains hosts a.host ≡ true) × (takes_part Net r a.host (layer_of a.action_type) ≡ true)

  -- Every action that is planned is for one of the hosts, and those on Podman and on coold only for
  -- nodes, and only if they are to be installed.
  pub all_actions-AreDue :
      (r : MeshRequest Net) (servers : MeshState Net) (mgmt : Map String ℕ)
      (subnets : Map String (Map String Net)) (hosts : List String) (actions : List PlannedAction)
      → all_actions lib print r servers mgmt subnets hosts ≡ some actions
      → All (IsDue r hosts) actions
  unfolding all_actions contains
  all_actions-AreDue r servers mgmt subnets [] actions e = All-some (IsDue r []) [] actions e tt
  all_actions-AreDue r servers mgmt subnets (host ∷ hosts) actions e =
      let (these, one, e₁) =
        and_then-some (host_actions lib print r servers mgmt subnets host) _ actions e in
      let (others, two, made) =
        and_then-some (all_actions lib print r servers mgmt subnets hosts) _ actions e₁ in
      All-some (IsDue r (host ∷ hosts)) _ actions made (
        All-append (IsDue r (host ∷ hosts)) _ _
          (All-weaken (IsFor Net r host) (IsDue r (host ∷ hosts)) these here
            (host_actions-IsFor r servers mgmt subnets host these one))
          (All-weaken (IsDue r hosts) (IsDue r (host ∷ hosts)) others
            (λ a d. (ground (arith, d.0), d.1))
            (all_actions-AreDue r servers mgmt subnets hosts others two)))
    where
      here : (a : PlannedAction) → IsFor Net r host a → IsDue r (host ∷ hosts) a
      here a (same, part) =
          ((let eq = ==_refl host in rw same (ground (arith, eq))), (rw same part))
