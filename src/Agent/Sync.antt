-- ===== src/Agent/Sync.antt =====
-- coold/src/sync.rs: what the agent reads from Podman, and one round of its status reports.
-- Podman's answers (Agent/Podman) are arguments: the list of containers, and what
-- inspecting each gives, if anything. `str::to_lowercase` is a parameter. A `HashMap` is read in
-- the order of its list here, which the program does not fix.
pub mod Desired
pub mod Snapshot
pub mod Removals
pub mod Once
pub mod Settles
use Prim.Native.Char.{code}
use Prim.Native.String
use mathlib.Core.Option
use coold.Prelude.{
  ltb, leb, if◌then◌else◌, Bool-cases, Option-cases, and_then, Eq, String-discrete, string_eq,
  nat_eq, ◌==◌, ==_iff, ==_refl, contains, length, length-append, filter, any, length-filter-le,
  All, Map, lookup, insert, remove, contains_key, HasKey, NodupKeys, lookup-insert, lookup-remove,
  insert-NodupKeys, remove-NodupKeys, remove_absent, length-insert, length-remove-le, map_laws,
  str_leb, insert_sorted, sort_by_key, lookup-sort_by_key, sort_by_key-NodupKeys, Result, ok, err,
  ◌>>=◌, Result-cases, ok_or, ok_only, is_empty, strip_prefix, starts_with, strip_suffix, ends_with,
  contains_text, is_whitespace, trim_is_empty, trim_start, trim_end, trim, trim_slashes,
  utf8_length, byte_length, all_chars, is_alphanumeric, take_until, take_until_text, after_text,
  after_last, ℕ, zero, suc, ◌+◌, ◌-◌, ◌*◌, ◌/◌, ◌%◌, ◌^◌, ◌≤◌, ◌<◌, min, String, ◌≡◌, refl, sym, ap,
  ◌∙◌, ◌≢◌, ◌↔◌, ◌⊎◌, inl, inr, ite, if_pos, if_neg, Bool, true, false, ◌&&◌, ◌||◌, not, Option,
  none, some, List, [], ◌∷◌, ◌++◌, map, arith,
}
use coold.Agent.Model.{
  ContainerStatus, Endpoint, ContainerStatus-discrete, Endpoint-discrete, container_status_eq,
  endpoint_eq, Delta, upsert, delete, upserts, deletes, diff_maps, diff, diff_container_statuses,
}
use coold.Agent.Podman.{
  NetworkEntry, ContainerState, ContainerInspect, Container, NamespaceConfig, non_empty, or_else,
  unwrap_or, first,
}

-- `network_to_ns`; a later namespace of the same network wins, as in `collect`
unfoldable pub network_to_ns : List NamespaceConfig → Map String String
network_to_ns [] = []
network_to_ns (n ∷ namespaces) =
    let rest = network_to_ns namespaces in
    elim (lookup n.network rest) [ some _ ↦ rest | none ↦ (n.network, n.name) ∷ rest ]

module _ (to_lowercase : String → String) where
  unfoldable pub status_name : Option ContainerInspect → Container → String
  unfolding trim_slashes
  status_name inspect c =
      unwrap_or
        (or_else (non_empty (Option.map (λ i. trim_slashes i.name) inspect))
          (non_empty (Option.map trim_slashes (first c.names))))
        c.id

  unfoldable pub status_state : Option ContainerInspect → Container → String
  status_state inspect c =
      let state =
        unwrap_or
          (non_empty (Option.map (λ s. to_lowercase s.status) (and_then inspect (λ i. i.state))))
          (to_lowercase c.state) in
      if is_empty state then "unknown" else state

  unfoldable pub status_of : Option ContainerInspect → Container → ContainerStatus
  unfolding status_name status_state
  status_of inspect c = record {
    container_id = c.id;
    container_name = status_name inspect c;
    image = c.image;
    state = status_state inspect c;
  }

  -- The loop of `desired_container_statuses`.
  unfoldable pub collect_statuses :
      (String → Option ContainerInspect)
      → List Container
      → Map String ContainerStatus
      → Map String ContainerStatus
  unfolding status_of
  collect_statuses inspect [] out = out
  collect_statuses inspect (c ∷ containers) out =
      collect_statuses inspect containers (insert c.id (status_of (inspect c.id) c) out)

  unfoldable pub desired_container_statuses :
      (String → Option ContainerInspect) → List Container → Map String ContainerStatus
  unfolding collect_statuses
  desired_container_statuses inspect containers = collect_statuses inspect containers []

  unfoldable pub endpoint_name : ContainerInspect → Container → String
  unfolding trim_slashes
  endpoint_name inspect c =
      if not (is_empty inspect.name)
      then trim_slashes inspect.name
      else unwrap_or (Option.map trim_slashes (first c.names)) c.id

  unfoldable pub endpoint_state : ContainerInspect → String
  endpoint_state inspect = unwrap_or (Option.map (λ s. to_lowercase s.status) inspect.state) ""

  unfoldable pub endpoint_health : ContainerInspect → String
  endpoint_health inspect =
      unwrap_or (non_empty (Option.map to_lowercase (and_then inspect.state (λ s. s.health))))
        "unknown"

  abbrev pub endpoint_of : String → Container → ContainerInspect → String → NetworkEntry → Endpoint
  endpoint_of host_mgmt_ip c inspect ns entry = record {
    container_id = c.id;
    container_name = endpoint_name inspect c;
    namespace = ns;
    host_mgmt_ip = host_mgmt_ip;
    container_ip = entry.ip_address;
    state = endpoint_state inspect;
    health = endpoint_health inspect;
  }

  -- One round of the loop over the networks of a container.
  unfoldable pub add_network :
      Map String String
      → String
      → Container
      → ContainerInspect
      → String
      → NetworkEntry
      → Map String Endpoint
      → Map String Endpoint
  unfolding endpoint_name endpoint_state endpoint_health
  add_network network_to_ns host_mgmt_ip c inspect net_name entry out =
      elim (lookup net_name network_to_ns) [
        | none ↦ out
        | some ns ↦ elim (lookup c.id out) [
          | some existing ↦ out
          | none ↦ insert c.id (endpoint_of host_mgmt_ip c inspect ns entry) out
        ]
      ]

  unfoldable pub collect_networks :
      Map String String
      → String
      → Container
      → ContainerInspect
      → Map String NetworkEntry
      → Map String Endpoint
      → Map String Endpoint
  unfolding add_network
  collect_networks network_to_ns host_mgmt_ip c inspect [] out = out
  collect_networks network_to_ns host_mgmt_ip c inspect ((net_name, entry) ∷ networks) out =
      collect_networks network_to_ns host_mgmt_ip c inspect networks
        (add_network network_to_ns host_mgmt_ip c inspect net_name entry out)

  -- One round of the loop of `desired_endpoints`.
  unfoldable pub add_container :
      Map String String
      → String
      → Option ContainerInspect
      → Container
      → Map String Endpoint
      → Map String Endpoint
  unfolding collect_networks
  add_container network_to_ns host_mgmt_ip none c out = out
  add_container network_to_ns host_mgmt_ip (some i) c out = elim i.networks [
    | none ↦ out
    | some networks ↦ collect_networks network_to_ns host_mgmt_ip c i networks out
  ]

  unfoldable pub collect_endpoints :
      Map String String
      → String
      → (String → Option ContainerInspect)
      → List Container
      → Map String Endpoint
      → Map String Endpoint
  unfolding add_container
  collect_endpoints network_to_ns host_mgmt_ip inspect [] out = out
  collect_endpoints network_to_ns host_mgmt_ip inspect (c ∷ containers) out =
      collect_endpoints network_to_ns host_mgmt_ip inspect containers
        (add_container network_to_ns host_mgmt_ip (inspect c.id) c out)

  unfoldable pub desired_endpoints :
      List NamespaceConfig
      → String
      → (String → Option ContainerInspect)
      → List Container
      → Map String Endpoint
  unfolding network_to_ns collect_endpoints
  desired_endpoints namespaces host_mgmt_ip inspect containers =
      collect_endpoints (network_to_ns namespaces) host_mgmt_ip inspect containers []

pub record ResourceStatusUpdate : Type 0 where
  pub resource_type : String
  pub host_id : String
  pub container_id : String
  pub container_name : String
  pub status : String
  pub status_message : String

unfoldable pub update_of : String → Delta ContainerStatus → ResourceStatusUpdate
update_of host_mgmt_ip (upsert status) = record {
  resource_type = "container";
  host_id = host_mgmt_ip;
  container_id = status.container_id;
  container_name = status.container_name;
  status = status.state;
  status_message = "Container state received from coold.";
}
update_of host_mgmt_ip (delete container_id) = record {
  resource_type = "container";
  host_id = host_mgmt_ip;
  container_id = container_id;
  container_name = "";
  status = "removed";
  status_message = "Container removed from coold host.";
}

-- `container_resource_status_updates_from_deltas`
unfoldable pub updates_from_deltas :
    String → List (Delta ContainerStatus) → List ResourceStatusUpdate
unfolding update_of
updates_from_deltas host_mgmt_ip deltas = map (update_of host_mgmt_ip) deltas

-- `emit` may have a state of its own, as a Rust `FnMut`.
module _ {S : Type 0} (emit : S → ResourceStatusUpdate → S × Bool) where
  -- Whether every update was taken.
  unfoldable pub emit_all : S → List ResourceStatusUpdate → S × Bool
  emit_all s [] = (s, true)
  emit_all s (u ∷ updates) =
      let (s', taken) = emit s u in
      let (s'', rest) = emit_all s' updates in (s'', if taken then rest else false)

  -- The new snapshot, the state of `emit`, and the deltas.
  unfoldable pub reconcile_container_status_snapshot :
      Map String ContainerStatus
      → Map String ContainerStatus
      → Bool
      → String
      → S
      → Map String ContainerStatus × S × List (Delta ContainerStatus)
  unfolding diff_container_statuses updates_from_deltas emit_all
  reconcile_container_status_snapshot snapshot all_containers force_resync host_mgmt_ip s =
      let base : Map String ContainerStatus = if force_resync then [] else snapshot in
      let deltas = diff_container_statuses all_containers base in
      elim deltas [
        | [] ↦ (base, s, [])
        | d ∷ ds ↦
            let (s', all_emitted) = emit_all s (updates_from_deltas host_mgmt_ip (d ∷ ds)) in
            (if all_emitted then all_containers else base, s', d ∷ ds)
      ]
