-- ===== src/Tests/Agent.antt =====
-- A host with a few containers, and what its agent reports (coold/src/model.rs,
-- coold/src/sync.rs).
use coold.Prelude.{
  if◌then◌else◌, String-discrete, string_eq, nat_eq, All, Map, lookup, NodupKeys, ok, ℕ, zero, suc,
  String, ◌≡◌, refl, Bool, true, false, Option, none, some, List, [], ◌∷◌, ◌++◌,
}
use coold.Agent.Model.{ContainerStatus, Endpoint, container_status_eq, endpoint_eq, diff}
use coold.Agent.Model.Converges.{apply_deltas, IsKeyed, IsNeeded, diff_lem}
use coold.Agent.Podman.{ContainerInspect, Container, NamespaceConfig}
use coold.Agent.Sync.{
  desired_endpoints, ResourceStatusUpdate, update_of, updates_from_deltas, emit_all,
}
use coold.Agent.Sync.Once.{Readings, SyncState, reconcile_once}
use coold.Agent.Sync.Settles.{batches, reconcile_once_lem}
use coold.Agent.Sync.Snapshot.{base_of, all_taken, first_round, next_round, reconcile_retries}
use coold.Agent.Sync.Removals.{present, forced_resync_drops_removals}

abbrev endpoint : String → String → Endpoint
endpoint id state = record {
  container_id = id;
  container_name = "web";
  namespace = "default";
  host_mgmt_ip = "10.0.0.1";
  container_ip = "10.210.0.2";
  state = state;
  health = "unknown";
}

abbrev shown : Map String Endpoint
shown = ("c1", endpoint "c1" "running") ∷ ("c2", endpoint "c2" "running") ∷ []

abbrev recorded : Map String Endpoint
recorded = ("c1", endpoint "c1" "exited") ∷ ("c3", endpoint "c3" "running") ∷ []

diff_lem_example :
    ((j : String)
      → lookup j (apply_deltas (λ e. e.container_id) (diff shown recorded) recorded)
        ≡ lookup j shown)
    × All (IsNeeded (λ e. e.container_id) shown recorded) (diff shown recorded)
unfolding lookup String-discrete
diff_lem_example = diff_lem shown recorded (refl, (refl, tt)) (refl, (refl, tt))

abbrev status : String → String → ContainerStatus
status id state = record {
  container_id = id;
  container_name = "web";
  image = "nginx";
  state = state;
}

abbrev now_there : Map String ContainerStatus
now_there = ("c1", status "c1" "running") ∷ ("c2", status "c2" "running") ∷ []

abbrev before : Map String ContainerStatus
before = ("c1", status "c1" "exited") ∷ ("c3", status "c3" "running") ∷ []

now_there-IsKeyed : IsKeyed (λ s. s.container_id) now_there
now_there-IsKeyed = (refl, (refl, tt))

now_there-NodupKeys : NodupKeys now_there
unfolding lookup String-discrete
now_there-NodupKeys = (refl, (refl, tt))

abbrev unchanged : String → String
unchanged s = s

abbrev namespaces : List NamespaceConfig
namespaces = record { name = "default"; network = "coolify-mesh-default" } ∷ []

abbrev container : Container
container = record { id = "c1"; names = "/web" ∷ []; image = "nginx"; state = "running" }

abbrev inspected : String → Option ContainerInspect
inspected id = some (record {
  id = id;
  name = "/web";
  networks = some (("coolify-mesh-default", record { ip_address = "10.210.0.2" }) ∷ []);
  state = some (record { status = "running"; health = none });
})

-- A channel with room for `s` updates.
abbrev bounded : ℕ → ResourceStatusUpdate → ℕ × Bool
bounded zero u = (0, false)
bounded (suc s) u = (s, true)

abbrev readings : Readings
readings = record {
  all_containers = some (container ∷ []);
  inspect_all = inspected;
  mesh_containers = some (container ∷ []);
  inspect_mesh = inspected;
  recorded = some recorded;
  committed = true;
  now_ms = 1700000000000;
}

abbrev empty_state : SyncState ℕ
empty_state = record { snapshot = []; resync = true; subscribers = 3; sent = [] }

abbrev seen : Map String Endpoint
seen = desired_endpoints unchanged namespaces "10.0.0.1" inspected (container ∷ [])

reconcile_once_lem_example :
    ((n : ℕ) × ((reconcile_once bounded unchanged namespaces "10.0.0.1" readings empty_state).1
        ≡ ok n))
    × ((reconcile_once bounded unchanged namespaces "10.0.0.1" readings empty_state).0.sent
        ≡ [] ++ batches 1700000000000 (diff seen recorded))
    × ((reconcile_once bounded unchanged namespaces "10.0.0.1" readings empty_state).0.resync
        ≡ false)
    × ((j : String)
        → lookup j (apply_deltas (λ e. e.container_id) (diff seen recorded) recorded)
          ≡ lookup j seen)
    × All (IsNeeded (λ e. e.container_id) seen recorded) (diff seen recorded)
reconcile_once_lem_example =
    reconcile_once_lem bounded unchanged namespaces "10.0.0.1" readings empty_state (container ∷ [])
      (container ∷ []) recorded refl refl refl refl

reconcile_retries_example :
    let round = first_round bounded "10.0.0.1" before now_there false 1 in
    ((j : String)
      → lookup j round.0 ≡ (
          if all_taken bounded "10.0.0.1" 1 round.2
          then lookup j now_there
          else lookup j (base_of bounded "10.0.0.1" false before)))
    × ((next_round bounded "10.0.0.1" now_there round).2
        ≡ (if all_taken bounded "10.0.0.1" 1 round.2 then [] else round.2))
reconcile_retries_example =
    reconcile_retries bounded "10.0.0.1" before now_there false 1 now_there-IsKeyed
      now_there-NodupKeys

forced_resync_drops_removals_example :
    let round = first_round bounded "10.0.0.1" before now_there true 9 in
    (updates_from_deltas "10.0.0.1" round.2 ≡ present "10.0.0.1" now_there)
    × ((next_round bounded "10.0.0.1" now_there round).2 ≡ [])
unfolding emit_all update_of
forced_resync_drops_removals_example =
    forced_resync_drops_removals bounded "10.0.0.1" before now_there 9 now_there-IsKeyed
      now_there-NodupKeys refl
