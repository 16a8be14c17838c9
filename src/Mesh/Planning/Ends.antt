-- ===== src/Mesh/Planning/Ends.antt =====
-- How `build_plan` (coolify-cli/src/wireguard/plan.rs) may end.
use coold.Prelude.{
  Option-cases, string_eq, nat_eq, length, Map, lookup, NodupKeys, Result, ok, err, ◌+◌, ◌≤◌, ◌<◌,
  String, ◌≡◌, refl, ◌⊎◌, inl, inr, none, some, List, [], ◌∷◌, arith,
}
use coold.Mesh.Addresses.Names.{IsTwice}
use coold.Mesh.Addresses.{
  Pool, u32_max, AllocateError, Allocation, allocated, allocate_mgmt_ips, duplicate_host,
  pool_exhausted,
}
use coold.Mesh.Addresses.Distinct.{AllUsable, IsSound, NodupIps}
use coold.Mesh.Addresses.Assigned.{AllServed, allocate_mgmt_ips_lem}
use coold.Mesh.Subnets.{NetLibrary, SubnetWarning, SubnetError, step_of, allocate_namespaced}
use coold.Mesh.Subnets.Laws.{PoolLaws}
use coold.Mesh.Subnets.Namespaces.{IsRefusal, allocate_namespaced_lem}
use coold.Mesh.State.{MeshState, MeshRequest, assigned_mgmt_ips, assigned_container_subnets}
use coold.Mesh.Planning.{
  PlanError, mgmt_refused, subnets_refused, BuiltPlan, check_request, built, finish_plan,
  mgmt_pool_of, build_plan,
}
use coold.Mesh.Planning.Hosts.{PlanLibrary}
use coold.Mesh.Planning.Total.{IsComplete, Filled-IsComplete, all_actions_found}

assigned_mgmt_ips-none :
    {Net : Type 0}
    → (k : String) (servers : MeshState Net) → lookup k servers ≡ none
    → lookup k (assigned_mgmt_ips servers) ≡ none
unfolding lookup assigned_mgmt_ips
assigned_mgmt_ips-none k [] h = refl
assigned_mgmt_ips-none k ((j, s) ∷ servers) h = elim (Option-cases s.wireguard_mgmt_ip) [
  | inl bare ↦ rw bare (assigned_mgmt_ips-none k servers (ground (arith, h)))
  | inr (ip, has) ↦ rw has (ground (arith, h, assigned_mgmt_ips-none k servers))
]

assigned_mgmt_ips-NodupKeys :
    {Net : Type 0}
    → (servers : MeshState Net) → NodupKeys servers
    → NodupKeys (assigned_mgmt_ips servers)
unfolding assigned_mgmt_ips
assigned_mgmt_ips-NodupKeys [] d = tt
assigned_mgmt_ips-NodupKeys ((j, s) ∷ servers) d = elim (Option-cases s.wireguard_mgmt_ip) [
  | inl bare ↦ rw bare (assigned_mgmt_ips-NodupKeys servers d.1)
  | inr (ip, has) ↦
      rw has (assigned_mgmt_ips-none j servers d.0, assigned_mgmt_ips-NodupKeys servers d.1)
]

-- Why the addresses are refused: a host is named twice, or the pool has fewer usable addresses than
-- there are hosts.
abbrev pub IsMgmtRefusal : Pool → List String → AllocateError → Type 0
IsMgmtRefusal pool hosts (duplicate_host h) = IsTwice h hosts
IsMgmtRefusal pool hosts pool_exhausted = pool.broadcast ≤ pool.network + length hosts
IsMgmtRefusal pool hosts _ = ⊥

module _ (lib : NetLibrary) (print : PlanLibrary lib) where
  open lib use {Net, network, broadcast}

  -- How `build_plan` may end, in the order of its checks.
  abbrev pub PlanEnds : MeshRequest Net → MeshState Net → Result PlanError (BuiltPlan Net) → Type 0
  PlanEnds r servers result =
      ((e : PlanError) × (check_request r servers ≡ some e) × (result ≡ err e))
      ⊎ ((e : AllocateError) × (result ≡ err (mgmt_refused e))
          × IsMgmtRefusal (mgmt_pool_of lib print r) r.hosts e)
      ⊎ ((e : SubnetError) × (result ≡ err (subnets_refused e))
          × IsRefusal lib r.container_pool r.container_prefix r.namespaces r.desired.nodes e)
      ⊎ ((p : BuiltPlan Net) × (result ≡ ok p)
          × AllServed r.hosts p.mgmt_assignments
          × AllUsable (mgmt_pool_of lib print r) p.mgmt_assignments
          × NodupIps p.mgmt_assignments
          × IsComplete lib p.subnet_assignments r.namespaces r.desired.nodes)

  abbrev old_subnets :
      MeshRequest Net
      → MeshState Net
      → Result SubnetError (Map String (Map String Net) × List SubnetWarning)
  old_subnets r servers =
      allocate_namespaced lib r.container_pool r.container_prefix
        (assigned_container_subnets lib servers) r.namespaces r.desired.nodes

  build_plan_finish :
      (r : MeshRequest Net) (servers : MeshState Net) (s : Allocation)
      (nets : Map String (Map String Net) × List SubnetWarning)
      → check_request r servers ≡ none
      → allocate_mgmt_ips (mgmt_pool_of lib print r) (assigned_mgmt_ips servers) r.hosts
        ≡ allocated s
      → old_subnets r servers ≡ ok nets
      → build_plan lib print r servers
        ≡ finish_plan lib print r servers s.result nets.0 s.warnings nets.1
  unfolding build_plan
  build_plan_finish r servers s nets a b c = rw (a, b, c, build_plan) refl

  finish_plan_found :
      (r : MeshRequest Net) (servers : MeshState Net) (s : Allocation)
      (nets : Map String (Map String Net) × List SubnetWarning)
      → IsSound (mgmt_pool_of lib print r) s
      → AllServed r.hosts s.result
      → IsComplete lib nets.0 r.namespaces r.desired.nodes
      → PlanEnds r servers (finish_plan lib print r servers s.result nets.0 s.warnings nets.1)
  unfolding finish_plan
  finish_plan_found r servers s nets sound served complete =
      let (actions, done) =
        all_actions_found lib print r servers (mgmt_pool_of lib print r) s.result nets.0 r.hosts
          served sound.usable complete in
      let plan = built lib print r s.result nets.0 s.warnings nets.1 actions in
      inr (
        inr
          (inr (plan, rw (done, finish_plan) refl, served, sound.usable, sound.distinct, complete)))

  -- For pools of 32-bit addresses, of which that for management has more than one and that for
  -- containers leaves room for one step after its end, servers of which none is listed twice, and a
  -- library for networks that keeps its laws: the plan fails only for what is checked first, for a
  -- name that occurs twice, for a prefix that does not fit, for more hosts than usable addresses of
  -- the pool, or for more pairs of a namespace and a node than subnets of the pool. If not, there is
  -- a plan, in which every host has an address inside the pool, all of them different, and every node
  -- has a subnet for every namespace. So no index that the code takes is missing.
  pub build_plan_lem :
      (r : MeshRequest Net) (servers : MeshState Net)
      → PoolLaws lib r.container_pool r.container_prefix
      → broadcast r.container_pool + step_of r.container_prefix ≤ u32_max
      → broadcast r.mgmt_pool ≤ u32_max
      → network r.mgmt_pool < broadcast r.mgmt_pool
      → NodupKeys servers
      → PlanEnds r servers (build_plan lib print r servers)
  unfolding build_plan
  build_plan_lem r servers laws b c d once = elim (Option-cases (check_request r servers)) [
    | inr (e, bad) ↦ inl (e, bad, rw (bad, build_plan) refl)
    | inl fine ↦
        elim (allocate_mgmt_ips_lem (mgmt_pool_of lib print r) (assigned_mgmt_ips servers) r.hosts c
          d (assigned_mgmt_ips-NodupKeys servers once)) [
            | inl (h, twice, bad) ↦
                inr (inl (duplicate_host h, rw (fine, bad, build_plan) refl, twice))
            | inr (_, inl (past, few)) ↦
                inr (inl (pool_exhausted, rw (fine, past, build_plan) refl, few))
            | inr (_, inr (s, done, sound, served)) ↦
                elim (allocate_namespaced_lem lib r.container_pool r.container_prefix
                  (assigned_container_subnets lib servers) r.namespaces r.desired.nodes laws b) [
                    | inl (e, bad, why) ↦
                        inr (inr (inl (e, rw (fine, done, bad, build_plan) refl, why)))
                    | inr (flat, out, warnings, made, _, (_, all, _, filled)) ↦
                        rw (build_plan_finish r servers s (out, warnings) fine done made) (
                          finish_plan_found r servers s (out, warnings) sound served
                            (Filled-IsComplete lib flat out r.namespaces r.desired.nodes all
                              filled))
                  ]
          ]
  ]
