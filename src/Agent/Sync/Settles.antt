-- ===== src/Agent/Sync/Settles.antt =====
-- What `reconcile_once` (coold/src/sync.rs) writes to Corrosion.
use coold.Prelude.{
  Bool-cases, string_eq, nat_eq, length, All, Map, lookup, ok, ℕ, ◌+◌, String, ◌≡◌, refl, sym, ap,
  ◌∙◌, inl, inr, Bool, true, false, some, List, [], ◌∷◌, ◌++◌, map, arith,
}
use coold.Agent.Model.{Endpoint, container_status_eq, endpoint_eq, Delta, upsert, delete, diff}
use coold.Agent.Model.Converges.{apply_deltas, IsNeeded, diff_lem}
use coold.Agent.Podman.{Container, NamespaceConfig}
use coold.Agent.Sync.{desired_endpoints, ResourceStatusUpdate}
use coold.Agent.Sync.Desired.{desired_endpoints-IsReady}
use coold.Agent.Sync.Once.{
  text, millis, Statement, upsert_query, delete_query, statement_of, build_statements, Readings,
  SyncState, write_deltas, report_statuses, record_endpoints, reconcile_once,
}

-- The statement for a delta: the endpoint's row is written whole, or removed by its key.
abbrev pub expected : ℕ → Delta Endpoint → Statement
expected now_ms (upsert ep) = record {
  query = upsert_query;
  params =
      map (λ t. text t)
        (ep.container_id ∷ ep.container_name ∷ ep.namespace ∷ ep.host_mgmt_ip ∷ ep.container_ip
          ∷ ep.state ∷ ep.health ∷ [])
      ++ (millis now_ms ∷ []);
}
expected now_ms (delete container_id) = record {
  query = delete_query;
  params = text container_id ∷ [];
}

build_statements-expected :
    (now_ms : ℕ) (ds : List (Delta Endpoint))
    → build_statements now_ms ds ≡ map (λ e. expected now_ms e) ds
unfolding build_statements statement_of
build_statements-expected now_ms [] = refl
build_statements-expected now_ms (upsert ep ∷ ds) =
    ap (λ ss. expected now_ms (upsert ep) ∷ ss) (build_statements-expected now_ms ds)
build_statements-expected now_ms (delete id ∷ ds) =
    ap (λ ss. expected now_ms (delete id) ∷ ss) (build_statements-expected now_ms ds)

-- The transactions for some deltas: none, or one with a statement for each.
abbrev pub batches : ℕ → List (Delta Endpoint) → List (List Statement)
batches now_ms [] = []
batches now_ms (d ∷ ds) = map (λ e. expected now_ms e) (d ∷ ds) ∷ []

append_nothing : {A : Type 0} → (xs : List A) → xs ++ [] ≡ xs
append_nothing [] = refl
append_nothing (x ∷ xs) = ap (λ ys. x ∷ ys) (append_nothing xs)

write_deltas-batches :
    {S : Type 0}
    → (w : Readings) (s : SyncState S) (n : ℕ) (ds : List (Delta Endpoint))
    → (write_deltas w s n ds).0.sent ≡ s.sent ++ batches w.now_ms ds
unfolding write_deltas
write_deltas-batches w s n [] = sym (append_nothing s.sent)
write_deltas-batches w s n (d ∷ ds) =
    let eq = sym (build_statements-expected w.now_ms (d ∷ ds)) in
    rw eq (elim (Bool-cases w.committed) [ inl done ↦ rw done refl | inr lost ↦ rw lost refl ])

write_deltas_ends :
    {S : Type 0}
    → (w : Readings) (s : SyncState S) (n : ℕ) (ds : List (Delta Endpoint)) → w.committed ≡ true
    → (write_deltas w s n ds).1 ≡ ok (length ds + n)
unfolding write_deltas
write_deltas_ends w s n [] c = ap (λ k. ok k) (omega arith)
write_deltas_ends w s n (d ∷ ds) c = rw c refl

write_deltas_resync :
    {S : Type 0}
    → (w : Readings) (s : SyncState S) (n : ℕ) (ds : List (Delta Endpoint))
    → (write_deltas w s n ds).0.resync ≡ s.resync
unfolding write_deltas
write_deltas_resync w s n [] = refl
write_deltas_resync w s n (d ∷ ds) = elim (Bool-cases w.committed) [
  | inl done ↦ rw done refl
  | inr lost ↦ rw lost refl
]

module _ {S : Type 0} (emit : S → ResourceStatusUpdate → S × Bool) (to_lowercase : String → String)
    (namespaces : List NamespaceConfig) (host_mgmt_ip : String) where
  abbrev seen_endpoints : Readings → List Container → Map String Endpoint
  seen_endpoints w containers =
      desired_endpoints to_lowercase namespaces host_mgmt_ip w.inspect_mesh containers

  abbrev reported : Readings → SyncState S → List Container → SyncState S × ℕ
  reported w s containers = report_statuses emit to_lowercase namespaces host_mgmt_ip w s containers

  reconcile_once_writes :
      (w : Readings) (s : SyncState S) (all_of containers : List Container)
      (current : Map String Endpoint)
      → w.all_containers ≡ some all_of
      → w.mesh_containers ≡ some containers
      → w.recorded ≡ some current
      → reconcile_once emit to_lowercase namespaces host_mgmt_ip w s
        ≡ write_deltas w
            (reported w s all_of).0
            (reported w s all_of).1
            (diff (seen_endpoints w containers) current)
  unfolding reconcile_once record_endpoints
  reconcile_once_writes w s all_of containers current a b c = rw (a, b, c) refl

  -- If Podman and Corrosion answer and the transaction goes well, a round succeeds and settles the
  -- request for a resync. It sends one transaction with a statement for each difference between the
  -- endpoints that Podman shows and those that Corrosion has recorded, which writes the whole row of
  -- an endpoint or removes the row, and none if there is no difference. Each of the differences is
  -- needed, and applied to what is recorded they leave what Podman shows.
  pub reconcile_once_lem :
      (w : Readings) (s : SyncState S) (all_of containers : List Container)
      (current : Map String Endpoint)
      → w.all_containers ≡ some all_of
      → w.mesh_containers ≡ some containers
      → w.recorded ≡ some current
      → w.committed ≡ true
      → ((n : ℕ) × ((reconcile_once emit to_lowercase namespaces host_mgmt_ip w s).1 ≡ ok n))
        × ((reconcile_once emit to_lowercase namespaces host_mgmt_ip w s).0.sent
            ≡ s.sent ++ batches w.now_ms (diff (seen_endpoints w containers) current))
        × ((reconcile_once emit to_lowercase namespaces host_mgmt_ip w s).0.resync ≡ false)
        × ((j : String)
            → lookup j (
                apply_deltas
                  (λ e. e.container_id)
                  (diff (seen_endpoints w containers) current)
                  current)
              ≡ lookup j (seen_endpoints w containers))
        × All
            (IsNeeded (λ e. e.container_id) (seen_endpoints w containers) current)
            (diff (seen_endpoints w containers) current)
  unfolding report_statuses
  reconcile_once_lem w s all_of containers current a b c d =
      let ready =
        desired_endpoints-IsReady to_lowercase namespaces host_mgmt_ip w.inspect_mesh containers in
      let ds = diff (seen_endpoints w containers) current in
      let (converges, needed) =
        diff_lem (seen_endpoints w containers) current ready.keyed ready.distinct in
      let eq = reconcile_once_writes w s all_of containers current a b c in
      let before = (reported w s all_of).0 in
      let count = (reported w s all_of).1 in
      (
        (length ds + count, ap (λ p. p.1) eq ∙ write_deltas_ends w before count ds d),
        ap (λ p. p.0.sent) eq ∙ write_deltas-batches w before count ds,
        ap (λ p. p.0.resync) eq ∙ write_deltas_resync w before count ds,
        converges,
        needed,
      )
