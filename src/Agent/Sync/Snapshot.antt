-- ===== src/Agent/Sync/Snapshot.antt =====
-- What `reconcile_container_status_snapshot` (coold/src/sync.rs) keeps for the next round.
use coold.Prelude.{
  if◌then◌else◌, Bool-cases, Eq, string_eq, nat_eq, ==_iff, ==_refl, Map, lookup, contains_key,
  NodupKeys, String, ◌≡◌, refl, sym, ◌⊎◌, inl, inr, Bool, true, false, ◌&&◌, none, some, List, [],
  ◌∷◌, map, arith,
}
use coold.Agent.Model.{
  ContainerStatus, container_status_eq, endpoint_eq, Delta, upsert, upserts, deletes, diff_maps,
  diff_container_statuses,
}
use coold.Agent.Model.Converges.{apply_deltas, IsKeyed, diff_container_statuses_lem}
use coold.Agent.Sync.{
  ResourceStatusUpdate, updates_from_deltas, emit_all, reconcile_container_status_snapshot,
}

module _ {V : Type 0} ⦃e : Eq V⦄ where
  -- `m` holds all of a list of entries
  abbrev Listed : Map String V → Map String V → Type 0
  Listed m [] = Unit
  Listed m ((k, v) ∷ part) = (lookup k m ≡ some v) × Listed m part

  upserts-Listed : (m part : Map String V) → Listed m part → upserts part m ≡ []
  unfolding upserts
  upserts-Listed m [] l = refl
  upserts-Listed m ((k, v) ∷ part) l = ground (arith, l.0, ==_refl v, upserts-Listed m part l.1)

  weaken-Listed :
      (k : String) (v : V) (m part : Map String V)
      → lookup k part ≡ none
      → Listed m part
      → Listed ((k, v) ∷ m) part
  unfolding lookup
  weaken-Listed k v m [] fresh l = tt
  weaken-Listed k v m ((j, w) ∷ part) fresh l =
      (ground (arith, l.0, ==_iff k j), weaken-Listed k v m part (ground (arith)) l.1)

  self-Listed : (m : Map String V) → NodupKeys m → Listed m m
  unfolding lookup
  self-Listed [] d = tt
  self-Listed ((k, v) ∷ m) d =
      (ground (arith, ==_refl k), weaken-Listed k v m m d.0 (self-Listed m d.1))

  deletes-Listed : (m part : Map String V) → Listed m part → deletes m part ≡ []
  unfolding deletes contains_key
  deletes-Listed m [] l = refl
  deletes-Listed m ((k, v) ∷ part) l = ground (arith, l.0, deletes-Listed m part l.1)

  -- Nothing is to be done about a map that is as desired.
  pub diff_maps_self : (m : Map String V) → NodupKeys m → diff_maps m m ≡ []
  unfolding diff_maps
  diff_maps_self m d =
      let l = self-Listed m d in ground (arith, upserts-Listed m m l, deletes-Listed m m l)

  -- All of a map is news to an empty one.
  pub diff_maps_empty : (m : Map String V) → diff_maps m [] ≡ map (λ (k, v). upsert v) m
  unfolding diff_maps upserts deletes lookup
  diff_maps_empty [] = refl
  diff_maps_empty ((k, v) ∷ m) = ground (arith, diff_maps_empty m)

pub List-cases {ℓ} :
    {A : Type ℓ} (xs : List A) → (xs ≡ []) ⊎ ((x : A) × (ys : List A) × (xs ≡ x ∷ ys))
List-cases [] = inl refl
List-cases (x ∷ ys) = inr (x, ys, refl)

module _ {S : Type 0} (emit : S → ResourceStatusUpdate → S × Bool) (host_mgmt_ip : String) where
  -- what the round compares with
  abbrev pub base_of : Bool → Map String ContainerStatus → Map String ContainerStatus
  base_of force_resync snapshot = if force_resync then [] else snapshot

  -- Each update is taken, by a channel that has been given those before it.
  unfoldable pub each_taken : S → List ResourceStatusUpdate → Bool
  each_taken s [] = true
  each_taken s (u ∷ updates) = (emit s u).1 && each_taken (emit s u).0 updates

  -- Whether the updates for the given deltas are all taken.
  abbrev pub all_taken : S → List (Delta ContainerStatus) → Bool
  all_taken s deltas = each_taken s (updates_from_deltas host_mgmt_ip deltas)

  pub emit_all-each_taken :
      (s : S) (updates : List ResourceStatusUpdate)
      → (emit_all emit s updates).1 ≡ each_taken s updates
  unfolding emit_all each_taken
  emit_all-each_taken s [] = refl
  emit_all-each_taken s (u ∷ updates) = ground (arith, emit_all-each_taken (emit s u).0 updates)

  -- A round without news changes nothing.
  pub round_quiet :
      (snapshot all_containers : Map String ContainerStatus) (force_resync : Bool) (s : S)
      → diff_container_statuses all_containers (base_of force_resync snapshot) ≡ []
      → reconcile_container_status_snapshot emit snapshot all_containers force_resync host_mgmt_ip s
        ≡ (base_of force_resync snapshot, s, [])
  unfolding reconcile_container_status_snapshot
  round_quiet snapshot all_containers force_resync s q =
      rw (q, reconcile_container_status_snapshot) refl

  pub round_news :
      (snapshot all_containers : Map String ContainerStatus) (force_resync : Bool) (s : S)
      (d : Delta ContainerStatus) (ds : List (Delta ContainerStatus))
      → diff_container_statuses all_containers (base_of force_resync snapshot) ≡ d ∷ ds
      → reconcile_container_status_snapshot emit snapshot all_containers force_resync host_mgmt_ip s
        ≡ (
          if all_taken s (d ∷ ds) then all_containers else base_of force_resync snapshot,
          (emit_all emit s (updates_from_deltas host_mgmt_ip (d ∷ ds))).0,
          d ∷ ds,
        )
  unfolding reconcile_container_status_snapshot
  round_news snapshot all_containers force_resync s d ds q =
      let taken = emit_all-each_taken s (updates_from_deltas host_mgmt_ip (d ∷ ds)) in
      rw (q, reconcile_container_status_snapshot, sym taken) refl

  all_taken_none : (s : S) → all_taken s [] ≡ true
  unfolding each_taken updates_from_deltas
  all_taken_none s = refl

  -- Where there is no news, the base shows the containers.
  lookup-base :
      (all_containers base : Map String ContainerStatus)
      → IsKeyed (λ s. s.container_id) all_containers
      → NodupKeys all_containers
      → diff_container_statuses all_containers base ≡ []
      → (j : String) → lookup j base ≡ lookup j all_containers
  unfolding apply_deltas
  lookup-base all_containers base k d quiet j =
      let shown = (diff_container_statuses_lem all_containers base k d).0 j in rw (quiet) at shown

  -- The rounds of an event and of the next tick, the host's containers being the same.
  abbrev pub Round : Type 0
  Round = Map String ContainerStatus × S × List (Delta ContainerStatus)

  abbrev pub first_round :
      Map String ContainerStatus → Map String ContainerStatus → Bool → S → Round
  first_round snapshot all_containers force_resync s =
      reconcile_container_status_snapshot emit snapshot all_containers force_resync host_mgmt_ip s

  abbrev pub next_round : Map String ContainerStatus → Round → Round
  next_round all_containers (snapshot, s, _) =
      reconcile_container_status_snapshot emit snapshot all_containers false host_mgmt_ip s

  -- A round after which the containers stay as they are, each under its own id and no id twice: if the updates for its deltas were all
  -- taken, the snapshot shows the containers, and the next round, not forced, has no deltas; if
  -- one was not taken, the snapshot shows what it showed (nothing, if the round was forced), and
  -- the next round has the same deltas again.
  pub reconcile_retries :
      (snapshot all_containers : Map String ContainerStatus) (force_resync : Bool) (s : S)
      → IsKeyed (λ s. s.container_id) all_containers
      → NodupKeys all_containers
      → let deltas = (first_round snapshot all_containers force_resync s).2 in
        ((j : String)
          → lookup j (first_round snapshot all_containers force_resync s).0 ≡ (
              if all_taken s deltas
              then lookup j all_containers
              else lookup j (base_of force_resync snapshot)))
        × ((next_round all_containers (first_round snapshot all_containers force_resync s)).2
            ≡ (if all_taken s deltas then [] else deltas))
  reconcile_retries snapshot all_containers force_resync s k d =
      elim (List-cases (diff_container_statuses all_containers (base_of force_resync snapshot))) [
        | inl quiet ↦
            let base = base_of force_resync snapshot in
            rw
              (
                round_quiet snapshot all_containers force_resync s quiet,
                round_quiet base all_containers false s quiet,
                all_taken_none s,
              )
              (lookup-base all_containers base k d quiet, refl)
        | inr (x, xs, news) ↦ elim (Bool-cases (all_taken s (x ∷ xs))) [
          | inl taken ↦
              let same : diff_container_statuses all_containers all_containers ≡ [] =
                unfold diff_container_statuses in diff_maps_self all_containers d in
              rw
                (
                  round_news snapshot all_containers force_resync s x xs news,
                  taken,
                  round_quiet all_containers all_containers false _ same,
                )
                (λ j. refl, refl)
          | inr held ↦
              rw
                (
                  round_news snapshot all_containers force_resync s x xs news,
                  held,
                  round_news (base_of force_resync snapshot) all_containers false _ x xs news,
                )
                (λ j. refl, refl)
        ]
      ]
