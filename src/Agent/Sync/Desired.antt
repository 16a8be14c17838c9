-- ===== src/Agent/Sync/Desired.antt =====
-- What `desired_endpoints` (coold/src/sync.rs) gathers, as an argument of `diff`.
use coold.Prelude.{
  Option-cases, string_eq, nat_eq, contains, All, Map, lookup, insert, NodupKeys, insert-NodupKeys,
  String, ◌≡◌, refl, inl, inr, true, Option, none, some, List, [], ◌∷◌, map, arith,
}
use coold.Agent.Model.{Endpoint, container_status_eq, endpoint_eq}
use coold.Agent.Model.Converges.{IsKeyed}
use coold.Agent.Podman.{NetworkEntry, ContainerInspect, Container, NamespaceConfig}
use coold.Agent.Sync.{
  network_to_ns, endpoint_of, add_network, collect_networks, add_container, collect_endpoints,
  desired_endpoints,
}

insert-IsKeyed :
    {V : Type 0} (key : V → String) (v : V) (m : Map String V)
    → IsKeyed key m
    → IsKeyed key (insert (key v) v m)
unfolding insert
insert-IsKeyed key v [] k = (refl, tt)
insert-IsKeyed key v ((j, w) ∷ m) k = ground (arith, insert-IsKeyed key v m k.1)

insert-All :
    {V : Type 0} (P : String × V → Type 0) (k : String) (v : V) (m : Map String V)
    → P (k, v)
    → All P m
    → All P (insert k v m)
unfolding insert
insert-All P k v [] p h = (p, tt)
insert-All P k v ((j, w) ∷ m) p h = ground (arith, insert-All P k v m p h.1)

-- an entry that a map of endpoints may hold
pub record IsOwn (host_mgmt_ip : String) (namespaces : List NamespaceConfig) (e : Endpoint)
    : Type 0 where
  pub host : e.host_mgmt_ip ≡ host_mgmt_ip
  pub managed : contains (map (λ (n : NamespaceConfig). n.name) namespaces) e.namespace ≡ true

-- A well-formed map of endpoints of this host.
pub record IsReady (host_mgmt_ip : String) (namespaces : List NamespaceConfig)
    (m : Map String Endpoint) : Type 0 where
  pub keyed : IsKeyed (λ (e : Endpoint). e.container_id) m
  pub distinct : NodupKeys m
  pub own : All (λ (j, e). IsOwn host_mgmt_ip namespaces e) m

network_to_ns-managed :
    (namespaces : List NamespaceConfig) (net ns : String)
    → lookup net (network_to_ns namespaces) ≡ some ns
    → contains (map (λ (n : NamespaceConfig). n.name) namespaces) ns ≡ true
unfolding lookup network_to_ns contains
network_to_ns-managed [] net ns h = cc
network_to_ns-managed (n ∷ namespaces) net ns h =
    ground (arith, network_to_ns-managed namespaces net ns)

module _ (to_lowercase : String → String) (namespaces : List NamespaceConfig)
    (host_mgmt_ip : String) where
  insert-IsReady :
      (e : Endpoint) (m : Map String Endpoint)
      → IsOwn host_mgmt_ip namespaces e
      → IsReady host_mgmt_ip namespaces m
      → IsReady host_mgmt_ip namespaces (insert e.container_id e m)
  insert-IsReady e m o r = record {
    keyed = insert-IsKeyed (λ (x : Endpoint). x.container_id) e m r.keyed;
    distinct = insert-NodupKeys e.container_id e m r.distinct;
    own = insert-All (λ (j, f). IsOwn host_mgmt_ip namespaces f) e.container_id e m o r.own;
  }

  add_network-IsReady :
      (c : Container) (inspect : ContainerInspect) (net_name : String) (entry : NetworkEntry)
      (out : Map String Endpoint)
      → IsReady host_mgmt_ip namespaces out
      → IsReady host_mgmt_ip namespaces (
          add_network to_lowercase
            (network_to_ns namespaces)
            host_mgmt_ip
            c
            inspect
            net_name
            entry
            out)
  unfolding add_network
  add_network-IsReady c inspect net_name entry out r =
      elim (Option-cases (lookup net_name (network_to_ns namespaces))) [
        | inl other ↦ rw (other, add_network) r
        | inr (ns, mine) ↦ elim (Option-cases (lookup c.id out)) [
          | inr (existing, hit) ↦ rw (mine, hit, add_network) r
          | inl miss ↦
              rw (mine, miss, add_network)
                (insert-IsReady (endpoint_of to_lowercase host_mgmt_ip c inspect ns entry) out
                  (record {
                    host = refl;
                    managed = network_to_ns-managed namespaces net_name ns mine;
                  })
                  r)
        ]
      ]

  collect_networks-IsReady :
      (c : Container) (inspect : ContainerInspect) (networks : Map String NetworkEntry)
      (out : Map String Endpoint)
      → IsReady host_mgmt_ip namespaces out
      → IsReady host_mgmt_ip namespaces (
          collect_networks to_lowercase
            (network_to_ns namespaces)
            host_mgmt_ip
            c
            inspect
            networks
            out)
  unfolding collect_networks
  collect_networks-IsReady c inspect [] out r = r
  collect_networks-IsReady c inspect ((net_name, entry) ∷ networks) out r =
      let next = add_network-IsReady c inspect net_name entry out r in
      let rest = collect_networks-IsReady c inspect networks _ next in rest

  add_container-IsReady :
      (inspect : Option ContainerInspect) (c : Container) (out : Map String Endpoint)
      → IsReady host_mgmt_ip namespaces out
      → IsReady host_mgmt_ip namespaces
          (add_container to_lowercase (network_to_ns namespaces) host_mgmt_ip inspect c out)
  unfolding add_container
  add_container-IsReady none c out r = r
  add_container-IsReady (some i) c out r = elim (Option-cases i.networks) [
    | inl absent ↦ rw (absent, add_container) r
    | inr (networks, shown) ↦
        rw (shown, add_container) (collect_networks-IsReady c i networks out r)
  ]

  collect_endpoints-IsReady :
      (inspect : String → Option ContainerInspect) (containers : List Container)
      (out : Map String Endpoint)
      → IsReady host_mgmt_ip namespaces out
      → IsReady host_mgmt_ip namespaces (
          collect_endpoints to_lowercase
            (network_to_ns namespaces)
            host_mgmt_ip
            inspect
            containers
            out)
  unfolding collect_endpoints
  collect_endpoints-IsReady inspect [] out r = r
  collect_endpoints-IsReady inspect (c ∷ containers) out r =
      let next = add_container-IsReady (inspect c.id) c out r in
      let rest = collect_endpoints-IsReady inspect containers _ next in rest

  -- Whatever Podman shows, the endpoints gathered stand under their own container ids, no id
  -- twice, and each names this host and one of the managed namespaces.
  pub desired_endpoints-IsReady :
      (inspect : String → Option ContainerInspect) (containers : List Container)
      → IsReady host_mgmt_ip namespaces
          (desired_endpoints to_lowercase namespaces host_mgmt_ip inspect containers)
  unfolding desired_endpoints lookup
  desired_endpoints-IsReady inspect containers =
      collect_endpoints-IsReady inspect containers []
        (record { keyed = tt; distinct = tt; own = tt })
