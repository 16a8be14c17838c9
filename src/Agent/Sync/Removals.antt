-- ===== src/Agent/Sync/Removals.antt =====
-- What a forced round of `reconcile_container_status_snapshot` (coold/src/sync.rs) reports: the
-- round that follows a reconnection to flux.
use coold.Prelude.{
  string_eq, nat_eq, Map, NodupKeys, String, ◌≡◌, refl, sym, ap, ◌∙◌, inl, inr, Bool, true, List,
  [], map,
}
use coold.Agent.Model.{
  ContainerStatus, container_status_eq, endpoint_eq, upsert, diff_container_statuses,
}
use coold.Agent.Model.Converges.{IsKeyed}
use coold.Agent.Sync.{ResourceStatusUpdate, update_of, updates_from_deltas, emit_all}
use coold.Agent.Sync.Snapshot.{
  diff_maps_empty, List-cases, emit_all-each_taken, round_quiet, round_news, first_round,
  next_round, reconcile_retries,
}

-- The updates of a map of containers, one each.
abbrev pub present : String → Map String ContainerStatus → List ResourceStatusUpdate
present host_mgmt_ip all_containers =
    map (update_of host_mgmt_ip) (map (λ (id, status). upsert status) all_containers)

module _ {S : Type 0} (emit : S → ResourceStatusUpdate → S × Bool) (host_mgmt_ip : String) where
  forced_deltas :
      (snapshot all_containers : Map String ContainerStatus) (s : S)
      → (first_round emit host_mgmt_ip snapshot all_containers true s).2
        ≡ map (λ (id, status). upsert status) all_containers
  forced_deltas snapshot all_containers s =
      elim (List-cases (diff_container_statuses all_containers [])) [
        | inl quiet ↦
            rw (round_quiet emit host_mgmt_ip snapshot all_containers true s quiet)
              (rw (← quiet) (unfold diff_container_statuses in diff_maps_empty all_containers))
        | inr (x, xs, news) ↦
            rw (round_news emit host_mgmt_ip snapshot all_containers true s x xs news)
              (rw (← news) (unfold diff_container_statuses in diff_maps_empty all_containers))
      ]

  -- Where each container on the host stands under its own id, no id twice, and the updates of
  -- the present containers would all be taken: a forced round reports these containers and
  -- nothing else, whatever the snapshot held, so not that one of the snapshot is gone; and the
  -- next round, not forced and with the same containers, has no deltas.
  pub forced_resync_drops_removals :
      (snapshot all_containers : Map String ContainerStatus) (s : S)
      → IsKeyed (λ s. s.container_id) all_containers
      → NodupKeys all_containers
      → (emit_all emit s (present host_mgmt_ip all_containers)).1 ≡ true
      → let round = first_round emit host_mgmt_ip snapshot all_containers true s in
        (updates_from_deltas host_mgmt_ip round.2 ≡ present host_mgmt_ip all_containers)
        × ((next_round emit host_mgmt_ip all_containers round).2 ≡ [])
  forced_resync_drops_removals snapshot all_containers s k d taken =
      let sent : updates_from_deltas host_mgmt_ip
            (first_round emit host_mgmt_ip snapshot all_containers true s).2
          ≡ present host_mgmt_ip all_containers =
        rw (forced_deltas snapshot all_containers s) (unfold updates_from_deltas in refl) in
      let all =
        sym (emit_all-each_taken emit host_mgmt_ip s _)
        ∙ ap (λ us. (emit_all emit s us).1) sent
        ∙ taken in
      (
        sent,
        rw ((reconcile_retries emit host_mgmt_ip snapshot all_containers true s k d).1, all) refl,
      )
