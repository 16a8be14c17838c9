-- ===== src/Mesh/Apply/Planned.antt =====
-- That what coolify-cli/src/wireguard/apply.rs runs on a host is planned for it.
use coold.Prelude.{
  if◌then◌else◌, Bool-cases, string_eq, nat_eq, All, Map, ℕ, String, ◌≡◌, refl, inl, inr, Bool,
  true, false, ◌&&◌, ◌||◌, not, Option, none, some, List, [], ◌∷◌, ◌++◌, arith,
}
use coold.Mesh.Intent.{
  ActionType, install_wg, gen_key_pair, write_config, enable_service, reload_service,
  install_podman, enable_podman_socket, enable_ip_forward, create_podman_network,
  recreate_podman_network, install_firewall, install_corrosion, install_coold,
  write_corrosion_config, write_corrosion_schema, install_corrosion_service, install_coold_service,
  PlannedAction,
}
use coold.Mesh.Subnets.{NetLibrary}
use coold.Mesh.State.{MeshState, MeshRequest, is_node, sorted_namespaces}
use coold.Mesh.Planning.Hosts.{PlanLibrary, state_of}
use coold.Mesh.Phases.{Step, runs, panics, action_type_eq, should_run, step_if, or_panic, phase1}
use coold.Mesh.Phases.Second.{peer_configs, network_steps, podman_steps, phase2}
use coold.Mesh.Phases.Third.{node_ips, phase3}

-- A step whose action the plan has for this host and, if it is about one, this namespace.
abbrev pub IsPlanned : List PlannedAction → String → Step → Type 0
IsPlanned planned host (runs action_type ns cmd) = should_run planned host action_type ns ≡ true
IsPlanned planned host panics = Unit

pub append-All :
    {A : Type 0} → (P : A → Type 0) (xs ys : List A) → All P xs → All P ys → All P (xs ++ ys)
append-All P [] ys a b = b
append-All P (x ∷ xs) ys a b = (a.0, append-All P xs ys a.1 b)

step_if-IsPlanned :
    (planned : List PlannedAction) (host : String) (b : Bool) (action_type : ActionType)
    (ns : String) (cmd : Option String)
    → (b ≡ true → should_run planned host action_type ns ≡ true)
    → All (IsPlanned planned host) (step_if b action_type ns cmd)
unfolding step_if
step_if-IsPlanned planned host true action_type ns cmd h = (h refl, tt)
step_if-IsPlanned planned host false action_type ns cmd h = tt

or_panic-All :
    {A : Type 0}
    → (planned : List PlannedAction) (host : String) (o : Option A) (f : A → List Step)
    → ((a : A) → All (IsPlanned planned host) (f a))
    → All (IsPlanned planned host) (or_panic o f)
unfolding or_panic
or_panic-All planned host none f h = (tt, tt)
or_panic-All planned host (some a) f h = h a

if-All :
    {A : Type 0}
    → (P : A → Type 0) (b : Bool) (xs : List A) → All P xs
    → All P (if b then xs else [])
if-All P true xs a = a
if-All P false xs a = tt

module _ {Net : Type 0} where
  pub phase1-AllPlanned :
      (r : MeshRequest Net) (servers : MeshState Net) (planned : List PlannedAction) (host : String)
      → All (IsPlanned planned host) (phase1 r servers planned host)
  unfolding phase1
  phase1-AllPlanned r servers planned host =
      let P = IsPlanned planned host in
      let st = state_of servers host in
      let podman = is_node r host && r.install_podman in
      let S = step_if-IsPlanned planned host in
      append-All P _ _
        (S (not st.installed && should_run planned host install_wg "") install_wg "" _
          (λ h. ground (arith, h)))
        (append-All P _ _
          (S (not st.keys_exist && should_run planned host gen_key_pair "") gen_key_pair "" _
            (λ h. ground (arith, h)))
          (append-All P _ _
            (S (podman && (not st.podman_installed && should_run planned host install_podman ""))
              install_podman "" _ (λ h. ground (arith, h)))
            (append-All P _ _
              (S
                (podman
                  && (not st.podman_socket_active
                      && should_run planned host enable_podman_socket ""))
                enable_podman_socket "" _ (λ h. ground (arith, h)))
              (S
                (podman
                  && (not st.ip_forward_enabled && should_run planned host enable_ip_forward ""))
                enable_ip_forward "" _ (λ h. ground (arith, h))))))

module _ (lib : NetLibrary) (print : PlanLibrary lib) where
  open lib use {Net}
  open print use {show_net, show_ip}

  network_steps-AllPlanned :
      (planned : List PlannedAction) (subnets : Map String (Map String Net)) (host : String)
      (names : List String)
      → All (IsPlanned planned host) (network_steps lib print planned subnets host names)
  unfolding network_steps
  network_steps-AllPlanned planned subnets host [] = tt
  network_steps-AllPlanned planned subnets host (ns ∷ names) =
      let create = should_run planned host create_podman_network ns in
      let recreate = should_run planned host recreate_podman_network ns in
      append-All (IsPlanned planned host) _ _
        (step_if-IsPlanned planned host (create || recreate)
          (if recreate then recreate_podman_network else create_podman_network) ns _ (chosen ns))
        (network_steps-AllPlanned planned subnets host names)
    where
      chosen :
          (ns : String)
          → should_run planned host create_podman_network ns
              || should_run planned host recreate_podman_network ns
            ≡ true
          → should_run planned host
              (if should_run planned host recreate_podman_network ns
                then recreate_podman_network
                else create_podman_network)
              ns
            ≡ true
      chosen ns h = elim (Bool-cases (should_run planned host recreate_podman_network ns)) [
        | inl again ↦ rw again again
        | inr fresh ↦ rw fresh (ground (arith, h, fresh))
      ]

  podman_steps-AllPlanned :
      (r : MeshRequest Net) (subnets : Map String (Map String Net)) (planned : List PlannedAction)
      (host : String)
      → All (IsPlanned planned host) (podman_steps lib print r subnets planned host)
  unfolding podman_steps
  podman_steps-AllPlanned r subnets planned host =
      append-All (IsPlanned planned host) _ _
        (network_steps-AllPlanned planned subnets host (sorted_namespaces r))
        (step_if-IsPlanned planned host (should_run planned host install_firewall "")
          install_firewall "" _ (λ h. h))

  pub phase2-AllPlanned :
      (r : MeshRequest Net) (fresh : MeshState Net) (mgmt : Map String ℕ)
      (subnets : Map String (Map String Net)) (planned : List PlannedAction) (host : String)
      → All (IsPlanned planned host) (phase2 lib print r fresh mgmt subnets planned host)
  unfolding phase2
  phase2-AllPlanned r fresh mgmt subnets planned host =
      let P = IsPlanned planned host in
      let S = step_if-IsPlanned planned host in
      let svc = if (state_of fresh host).active then reload_service else enable_service in
      or_panic-All planned host (peer_configs lib print r fresh mgmt subnets host r.hosts) _
        (λ peers.
          append-All P _ _ (S (should_run planned host write_config "") write_config "" _ (λ h. h))
            (append-All P _ _ (S (should_run planned host svc "") svc "" _ (λ h. h)) (
              if-All P (is_node r host && r.install_podman) _
                (podman_steps-AllPlanned r subnets planned host))))

  pub phase3-AllPlanned :
      (r : MeshRequest Net) (mgmt : Map String ℕ) (subnets : Map String (Map String Net))
      (planned : List PlannedAction) (host : String)
      → All (IsPlanned planned host) (phase3 lib print r mgmt subnets planned host)
  unfolding phase3
  phase3-AllPlanned r mgmt subnets planned host =
      let P = IsPlanned planned host in
      let S : (t : ActionType) (cmd : Option String)
          → All P (step_if (should_run planned host t "") t "" cmd) =
        λ t cmd. step_if-IsPlanned planned host (should_run planned host t "") t "" cmd (λ h. h) in
      append-All P _ _ (S install_corrosion _) (
        append-All P _ _ (S install_coold _) (
          or_panic-All planned host (node_ips lib print mgmt host r.desired.nodes) _ (λ peers.
            append-All P _ _ (S write_corrosion_config _) (
              append-All P _ _ (S write_corrosion_schema _)
                (append-All P _ _ (S install_corrosion_service _) (S install_coold_service _))))))
