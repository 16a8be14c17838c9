-- ===== src/Agent/Sync/Once.antt =====
-- `reconcile_once` of coold/src/sync.rs, with the request for a resync and the statements that it
-- sends to Corrosion. What one call meets is the record `Readings`: the two lists that Podman gives,
-- what inspecting each container gives, what Corrosion has recorded, and whether the transaction goes
-- well; `none` is a request that failed.
use coold.Prelude.{
  if◌then◌else◌, string_eq, nat_eq, length, Map, Result, ok, err, ℕ, ◌+◌, String, Bool, true, false,
  Option, none, some, List, [], ◌∷◌, ◌++◌, map,
}
use coold.Agent.Model.{
  ContainerStatus, Endpoint, container_status_eq, endpoint_eq, Delta, upsert, delete, diff,
}
use coold.Agent.Podman.{ContainerInspect, Container, NamespaceConfig}
use coold.Agent.Sync.{
  desired_container_statuses, desired_endpoints, ResourceStatusUpdate,
  reconcile_container_status_snapshot,
}

pub data Value : Type 0 where
  text : String → Value
  millis : ℕ → Value

pub record Statement : Type 0 where
  pub query : String
  pub params : List Value

abbrev pub upsert_query : String
upsert_query =
    "INSERT INTO service_endpoints (container_id, container_name, namespace, host_mgmt_ip, container_ip, state, health, updated_at) VALUES (?, ?, ?, ?, ?, ?, ?, ?) ON CONFLICT(container_id) DO UPDATE SET container_name = excluded.container_name, namespace      = excluded.namespace, host_mgmt_ip   = excluded.host_mgmt_ip, container_ip   = excluded.container_ip, state          = excluded.state, health         = excluded.health, updated_at     = excluded.updated_at"

abbrev pub delete_query : String
delete_query = "DELETE FROM service_endpoints WHERE container_id = ?"

-- One round of the loop.
unfoldable pub statement_of : ℕ → Delta Endpoint → Statement
statement_of now_ms (upsert ep) = record {
  query = upsert_query;
  params =
      text ep.container_id
      ∷ text ep.container_name
      ∷ text ep.namespace
      ∷ text ep.host_mgmt_ip
      ∷ text ep.container_ip
      ∷ text ep.state
      ∷ text ep.health
      ∷ millis now_ms
      ∷ [];
}
statement_of now_ms (delete container_id) = record {
  query = delete_query;
  params = text container_id ∷ [];
}

unfoldable pub build_statements : ℕ → List (Delta Endpoint) → List Statement
unfolding statement_of
build_statements now_ms deltas = map (λ d. statement_of now_ms d) deltas

pub record Readings : Type 0 where
  pub all_containers : Option (List Container)
  pub inspect_all : String → Option ContainerInspect
  pub mesh_containers : Option (List Container)
  pub inspect_mesh : String → Option ContainerInspect
  pub recorded : Option (Map String Endpoint)
  pub committed : Bool
  pub now_ms : ℕ

pub data SyncError : Type 0 where
  statuses_not_fetched podman_not_fetched corrosion_not_fetched not_committed : SyncError

-- The snapshot, the request for a resync, the subscribers of the status updates, and the
-- transactions that have been sent.
pub record SyncState (S : Type 0) : Type 0 where
  pub snapshot : Map String ContainerStatus
  pub resync : Bool
  pub subscribers : S
  pub sent : List (List Statement)

-- `ResyncSignal::request`
abbrev pub request_resync : {S : Type 0} → SyncState S → SyncState S
request_resync s = record s { resync = true }

-- What is done with the deltas.
unfoldable pub write_deltas :
    {S : Type 0}
    → Readings
    → SyncState S
    → ℕ
    → List (Delta Endpoint)
    → SyncState S × Result SyncError ℕ
unfolding build_statements
write_deltas w s statuses [] = (s, ok statuses)
write_deltas w s statuses (d ∷ ds) =
    let s' = record s { sent = s.sent ++ (build_statements w.now_ms (d ∷ ds) ∷ []) } in
    if w.committed then (s', ok (length (d ∷ ds) + statuses)) else (s', err not_committed)

module _ {S : Type 0} (emit : S → ResourceStatusUpdate → S × Bool) (to_lowercase : String → String)
    (namespaces : List NamespaceConfig) (host_mgmt_ip : String) where
  -- The first half: the statuses.
  unfoldable pub report_statuses : Readings → SyncState S → List Container → SyncState S × ℕ
  unfolding reconcile_container_status_snapshot desired_container_statuses
  report_statuses w s containers =
      let (snapshot', subscribers', deltas) =
        reconcile_container_status_snapshot emit s.snapshot
          (desired_container_statuses to_lowercase w.inspect_all containers) s.resync host_mgmt_ip
          s.subscribers in
      (
        record { snapshot = snapshot'; resync = false; subscribers = subscribers'; sent = s.sent },
        length deltas,
      )

  -- The second half: the endpoints.
  unfoldable pub record_endpoints : Readings → SyncState S × ℕ → SyncState S × Result SyncError ℕ
  unfolding desired_endpoints diff write_deltas
  record_endpoints w (s, statuses) = elim w.mesh_containers [
    | none ↦ (s, err podman_not_fetched)
    | some containers ↦ elim w.recorded [
      | none ↦ (s, err corrosion_not_fetched)
      | some current ↦ write_deltas w s statuses (
          diff (desired_endpoints to_lowercase namespaces host_mgmt_ip w.inspect_mesh containers)
            current)
    ]
  ]

  unfoldable pub reconcile_once : Readings → SyncState S → SyncState S × Result SyncError ℕ
  unfolding report_statuses record_endpoints
  reconcile_once w s = elim w.all_containers [
    | none ↦ (s, err statuses_not_fetched)
    | some containers ↦ record_endpoints w (report_statuses w s containers)
  ]

  -- Rounds one after another, as the events of Podman and the ticks of the interval cause them.
  unfoldable pub rounds : List Readings → SyncState S → SyncState S
  unfolding reconcile_once
  rounds [] s = s
  rounds (w ∷ ws) s = rounds ws (reconcile_once w s).0

-- How a task of the agent may end.
pub data TaskEnd : Type 0 where
  returned : TaskEnd
  task_failed task_panicked : String → TaskEnd

pub data TaskError : Type 0 where
  exited_unexpectedly : String → TaskError
  failed_with panicked_with : String → String → TaskError

-- Every end of a task is an error.
unfoldable pub propagate : String → TaskEnd → TaskError
propagate task returned = exited_unexpectedly task
propagate task (task_failed e) = failed_with task e
propagate task (task_panicked e) = panicked_with task e
