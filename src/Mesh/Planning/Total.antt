-- ===== src/Mesh/Planning/Total.antt =====
-- That `build_plan` (coolify-cli/src/wireguard/plan.rs) finds every entry that it indexes.
use coold.Prelude.{
  if◌then◌else◌, Bool-cases, and_then, string_eq, nat_eq, ◌==◌, ==_iff, ==_refl, contains, Map,
  lookup, contains_key, ℕ, ◌<◌, String, ◌≡◌, refl, sym, ◌∙◌, inl, inr, Bool, true, false, ◌&&◌,
  ◌||◌, Option, some, List, [], ◌∷◌, map, arith,
}
use coold.Mesh.Intent.{PlannedAction}
use coold.Mesh.Addresses.{Pool}
use coold.Mesh.Addresses.Distinct.{AllUsable, IsUsable}
use coold.Mesh.Addresses.Assigned.{AllServed}
use coold.Mesh.Subnets.{NetLibrary, net_key, existing_at, keys_of}
use coold.Mesh.Subnets.Allocated.{AllHave}
use coold.Mesh.Subnets.Namespaces.{Filled, contains_key-HasKey, AllHave-split}
use coold.Mesh.Services.Corrosion.{config_bytes}
use coold.Mesh.Texts.{insert_text, sort_texts}
use coold.Mesh.State.{ServerState, MeshState, MeshRequest, is_node, sorted_namespaces}
use coold.Mesh.Planning.{host_actions, all_actions}
use coold.Mesh.Planning.Hosts.{PlanLibrary, state_of}
use coold.Mesh.Planning.Nodes.{
  host_subnets, podman_actions, other_ips, is_some, wanted_corrosion, coold_actions,
}

contains-insert_text :
    (t : String) (us : List String) (k : String)
    → contains (insert_text t us) k ≡ (t == k || contains us k)
unfolding insert_text contains
contains-insert_text t [] k = refl
contains-insert_text t (u ∷ us) k = ground (arith, contains-insert_text t us k)

contains-sort_texts : (ts : List String) (k : String) → contains (sort_texts ts) k ≡ contains ts k
unfolding sort_texts contains
contains-sort_texts [] k = refl
contains-sort_texts (t ∷ ts) k =
    ground (arith, contains-insert_text t (sort_texts ts) k, contains-sort_texts ts k)

lookup-IsUsable :
    (pool : Pool) (h : String) (m : Map String ℕ) (ip : ℕ)
    → AllUsable pool m
    → lookup h m ≡ some ip
    → IsUsable pool ip
unfolding lookup
lookup-IsUsable pool h [] ip a e = absurd (ground (arith, e))
lookup-IsUsable pool h ((j, w) ∷ m) ip a e = elim (Bool-cases (j == h)) [
  | inl same ↦ let eq : w ≡ ip = ground (arith, e, same) in rw eq at a.0
  | inr other ↦ lookup-IsUsable pool h m ip a.1 (ground (arith, e, other))
]

module _ (lib : NetLibrary) where
  open lib use {Net, network, broadcast}

  AllHave-key :
      (ns h : String) (hosts : List String) (flat : Map String Net)
      → AllHave lib (map (λ k. net_key lib ns k) hosts) flat
      → contains hosts h ≡ true
      → contains_key (net_key lib ns h) flat ≡ true
  unfolding contains
  AllHave-key ns h [] flat a e = absurd (ground (arith, e))
  AllHave-key ns h (k ∷ hosts) flat a e = elim (Bool-cases (k == h)) [
    | inl same ↦ rw ((==_iff k h).0 same) at a.0
    | inr other ↦ AllHave-key ns h hosts flat a.1 (ground (arith, e, other))
  ]

  AllHave-keys_of :
      (ns h : String) (namespaces hosts : List String) (flat : Map String Net)
      → AllHave lib (keys_of lib namespaces hosts) flat
      → contains namespaces ns ≡ true
      → contains hosts h ≡ true
      → contains_key (net_key lib ns h) flat ≡ true
  unfolding contains keys_of
  AllHave-keys_of ns h [] hosts flat a e f = absurd (ground (arith, e))
  AllHave-keys_of ns h (n ∷ namespaces) hosts flat a e f =
      let (here, later) =
        AllHave-split lib (map (λ k. net_key lib n k) hosts) (keys_of lib namespaces hosts) flat
          a in
      elim (Bool-cases (n == ns)) [
        | inl same ↦ AllHave-key ns h hosts flat (rw ((==_iff n ns).0 same) at here) f
        | inr other ↦ AllHave-keys_of ns h namespaces hosts flat later (ground (arith, e, other)) f
      ]

  -- A table with an entry for every host of every namespace.
  abbrev pub IsComplete : Map String (Map String Net) → List String → List String → Type 0
  IsComplete out namespaces hosts =
      (ns h : String)
      → contains namespaces ns ≡ true
      → contains hosts h ≡ true
      → (net : Net) × (existing_at lib out ns h ≡ some net)

  pub Filled-IsComplete :
      (flat : Map String Net) (out : Map String (Map String Net)) (namespaces hosts : List String)
      → AllHave lib (keys_of lib namespaces hosts) flat
      → Filled lib flat namespaces hosts [] out
      → IsComplete out namespaces hosts
  Filled-IsComplete flat out namespaces hosts all filled ns h a b =
      let (net, hit) =
        contains_key-HasKey (net_key lib ns h) flat
          (AllHave-keys_of ns h namespaces hosts flat all a b) in
      let eq = filled ns h in (net, eq ∙ (rw (a, b) hit))

  host_subnets_found :
      (print : PlanLibrary lib) (subnets : Map String (Map String Net)) (host : String)
      (names : List String)
      → ((ns : String)
          → contains names ns ≡ true
          → (net : Net) × (existing_at lib subnets ns host ≡ some net))
      → (nets : List (String × Net)) × (host_subnets lib print subnets host names ≡ some nets)
  unfolding host_subnets contains
  host_subnets_found print subnets host [] all = ([], refl)
  host_subnets_found print subnets host (ns ∷ names) all =
      let (net, hit) = all ns (ground (arith, ==_refl ns)) in
      let (nets, rest) =
        host_subnets_found print subnets host names (λ k m. all k (ground (arith, m))) in
      ((ns, net) ∷ nets, rw (hit, rest) refl)

and_then_found :
    {A B : Type 0}
    → (o : Option A) (f : A → Option B) (a : A) → o ≡ some a
    → (b : B) × (f a ≡ some b)
    → (b : B) × (and_then o f ≡ some b)
and_then_found o f a e (b, q) = (b, rw e q)

module _ (lib : NetLibrary) (print : PlanLibrary lib) where
  open lib use {Net, network, broadcast}

  abbrev Found : Option (List PlannedAction) → Type 0
  Found o = (actions : List PlannedAction) × (o ≡ some actions)

  config_bytes_found :
      (ip gossip api : ℕ) (peers : List ℕ) (tls : Bool)
      → 0 < ip
      → (t : String) × (config_bytes print.show_ip ip gossip api peers tls ≡ some t)
  unfolding config_bytes
  config_bytes_found ip gossip api peers tls h =
      let some_ip : (ip == 0) ≡ false = ground (arith, h) in rw some_ip (_, refl)

  names_found :
      (r : MeshRequest Net) (subnets : Map String (Map String Net)) (host : String)
      → is_node r host ≡ true
      → IsComplete lib subnets r.namespaces r.desired.nodes
      → (nets : List (String × Net)) × (host_subnets lib print subnets host (sorted_namespaces r)
          ≡ some nets)
  unfolding sorted_namespaces is_node
  names_found r subnets host node complete =
      host_subnets_found lib print subnets host (sort_texts r.namespaces)
        (λ ns m. complete ns host (sym (contains-sort_texts r.namespaces ns) ∙ m) node)

  podman_actions_found :
      (r : MeshRequest Net) (subnets : Map String (Map String Net)) (host : String)
      (state : ServerState Net)
      → is_node r host ≡ true
      → IsComplete lib subnets r.namespaces r.desired.nodes
      → Found (podman_actions lib print r subnets host state)
  unfolding podman_actions
  podman_actions_found r subnets host state node complete =
      let (nets, hit) = names_found r subnets host node complete in
      and_then_found _ _ nets hit (_, refl)

  coold_actions_found :
      (r : MeshRequest Net) (mgmt : Map String ℕ) (subnets : Map String (Map String Net))
      (host : String) (ip : ℕ) (state : ServerState Net)
      → is_node r host ≡ true
      → 0 < ip
      → IsComplete lib subnets r.namespaces r.desired.nodes
      → Found (coold_actions lib print r mgmt subnets host ip state)
  unfolding coold_actions wanted_corrosion
  coold_actions_found r mgmt subnets host ip state node positive complete =
      let (nets, hit) = names_found r subnets host node complete in
      let (cfg, made) =
        config_bytes_found ip r.corrosion_gossip_port r.corrosion_api_port
          (other_ips lib print mgmt host r.desired.nodes) (is_some lib print r.corrosion_gossip_tls)
          positive in
      and_then_found _ _ cfg made (and_then_found _ _ nets hit (_, refl))

  if_found :
      (b : Bool) (o : Option (List PlannedAction))
      → (b ≡ true → Found o)
      → Found (if b then o else some [])
  if_found true o f = f refl
  if_found false o f = ([], refl)

  host_actions_found :
      (r : MeshRequest Net) (servers : MeshState Net) (pool : Pool) (mgmt : Map String ℕ)
      (subnets : Map String (Map String Net)) (host : String)
      → contains_key host mgmt ≡ true
      → AllUsable pool mgmt
      → IsComplete lib subnets r.namespaces r.desired.nodes
      → Found (host_actions lib print r servers mgmt subnets host)
  unfolding host_actions
  host_actions_found r servers pool mgmt subnets host here usable complete =
      let (ip, hit) = contains_key-HasKey host mgmt here in
      let inside = lookup-IsUsable pool host mgmt ip usable hit in
      let state = state_of servers host in
      let (podman, one) =
        if_found (is_node r host && r.install_podman)
          (podman_actions lib print r subnets host state)
          (λ h. podman_actions_found r subnets host state (ground (arith, h)) complete) in
      let (coold, two) =
        if_found (is_node r host && r.install_coold)
          (coold_actions lib print r mgmt subnets host ip state)
          (λ h.
            coold_actions_found r mgmt subnets host ip state (ground (arith, h))
              (omega (arith, inside)) complete) in
      and_then_found _ _ ip hit
        (and_then_found _ _ podman one (and_then_found _ _ coold two (_, refl)))

  pub all_actions_found :
      (r : MeshRequest Net) (servers : MeshState Net) (pool : Pool) (mgmt : Map String ℕ)
      (subnets : Map String (Map String Net)) (hosts : List String)
      → AllServed hosts mgmt
      → AllUsable pool mgmt
      → IsComplete lib subnets r.namespaces r.desired.nodes
      → Found (all_actions lib print r servers mgmt subnets hosts)
  unfolding all_actions
  all_actions_found r servers pool mgmt subnets [] served usable complete = ([], refl)
  all_actions_found r servers pool mgmt subnets (host ∷ hosts) served usable complete =
      let (these, one) =
        host_actions_found r servers pool mgmt subnets host served.0 usable complete in
      let (others, two) =
        all_actions_found r servers pool mgmt subnets hosts served.1 usable complete in
      and_then_found _ _ these one (and_then_found _ _ others two (_, refl))
