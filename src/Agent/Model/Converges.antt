-- ===== src/Agent/Model/Converges.antt =====
-- The deltas of `diff` (coold/src/model.rs), applied to what is recorded.
use coold.Prelude.{
  if◌then◌else◌, Eq, string_eq, nat_eq, ◌==◌, All, Map, lookup, insert, remove, NodupKeys,
  lookup-insert, lookup-remove, String, ◌≡◌, refl, ◌≢◌, Option, none, some, List, [], ◌∷◌, ◌++◌,
  arith,
}
use coold.Agent.Model.{
  ContainerStatus, Endpoint, container_status_eq, endpoint_eq, Delta, upsert, delete, upserts,
  deletes, diff_maps, diff, diff_container_statuses,
}

module _ {V : Type 0} (key : V → String) where
  -- What a delta asks of a table whose primary key is the container id.
  unfoldable pub apply_delta : Delta V → Map String V → Map String V
  apply_delta (upsert v) m = insert (key v) v m
  apply_delta (delete id) m = remove id m

  unfoldable pub apply_deltas : List (Delta V) → Map String V → Map String V
  unfolding apply_delta
  apply_deltas [] m = m
  apply_deltas (d ∷ ds) m = apply_deltas ds (apply_delta d m)

  -- Every value stands under its own id.
  abbrev pub IsKeyed : Map String V → Type 0
  IsKeyed [] = Unit
  IsKeyed ((k, v) ∷ m) = (key v ≡ k) × IsKeyed m

  apply_deltas-append :
      (ds es : List (Delta V)) (m : Map String V)
      → apply_deltas (ds ++ es) m ≡ apply_deltas es (apply_deltas ds m)
  unfolding apply_deltas
  apply_deltas-append [] es m = refl
  apply_deltas-append (d ∷ ds) es m = apply_deltas-append ds es (apply_delta d m)

module _ {V : Type 0} ⦃e : Eq V⦄ (key : V → String) where
  -- What the upserts leave at `j`.
  abbrev after_upserts : String → Map String V → Map String V → Map String V → Option V
  after_upserts j desired current m = elim (lookup j desired) [
    | none ↦ lookup j m
    | some v ↦ elim (lookup j current) [
      | none ↦ some v
      | some existing ↦ if existing == v then lookup j m else some v
    ]
  ]

  lookup-upserts :
      (j : String) (desired current m : Map String V)
      → IsKeyed key desired
      → NodupKeys desired
      → lookup j (apply_deltas key (upserts desired current) m) ≡ after_upserts j desired current m
  unfolding lookup upserts apply_deltas
  lookup-upserts j [] current m k d = refl
  lookup-upserts j ((id, v) ∷ desired) current m k d = ground (
    arith,
    lookup-upserts j desired current (insert id v m) k.1 d.1,
    lookup-upserts j desired current m k.1 d.1,
    lookup-insert id j v m,
  )

  lookup-deletes :
      (j : String) (desired current m : Map String V)
      → lookup j (apply_deltas key (deletes desired current) m) ≡ (elim (lookup j desired) [
        | some _ ↦ lookup j m
        | none ↦ elim (lookup j current) [ none ↦ lookup j m | some _ ↦ none ]
      ])
  unfolding lookup deletes apply_deltas
  lookup-deletes j desired [] m = ground arith
  lookup-deletes j desired ((id, v) ∷ current) m = ground (
    arith,
    lookup-deletes j desired current (remove id m),
    lookup-deletes j desired current m,
    lookup-remove id j m,
  )

  diff_maps_converges :
      (j : String) (desired current : Map String V)
      → IsKeyed key desired
      → NodupKeys desired
      → lookup j (apply_deltas key (diff_maps desired current) current) ≡ lookup j desired
  unfolding diff_maps
  diff_maps_converges j desired current k d =
      let mid : Map String V = apply_deltas key (upserts desired current) current in
      rw (apply_deltas-append key (upserts desired current) (deletes desired current) current) (
        ground (
          arith,
          lookup-deletes j desired current mid,
          lookup-upserts j desired current current k d,
        ))

  -- A delta is worth sending: it sets an id to a value that is not recorded there, or it deletes
  -- an id that is recorded and not desired.
  abbrev pub IsNeeded : Map String V → Map String V → Delta V → Type 0
  IsNeeded desired current (upsert v) = lookup (key v) current ≢ some v
  IsNeeded desired current (delete id) = (lookup id desired ≡ none) × (lookup id current ≢ none)

  All-append :
      (P : Delta V → Type 0) (ds es : List (Delta V)) → All P ds → All P es → All P (ds ++ es)
  All-append P [] es a b = b
  All-append P (d ∷ ds) es a b = (a.0, All-append P ds es a.1 b)

  upserts-IsNeeded :
      (desired current whole : Map String V)
      → IsKeyed key desired
      → All (IsNeeded whole current) (upserts desired current)
  unfolding upserts
  upserts-IsNeeded [] current whole k = tt
  upserts-IsNeeded ((id, v) ∷ desired) current whole k =
      ground (arith, upserts-IsNeeded desired current whole k.1)

  All-map :
      {P Q : String × V → Type 0} (m : Map String V)
      → ((p : String × V) → P p → Q p)
      → All P m
      → All Q m
  All-map [] f h = tt
  All-map (p ∷ m) f h = (f p h.0, All-map m f h.1)

  found_behind :
      (k : String) (w : V) (m : Map String V) (p : String × V)
      → lookup p.0 m ≢ none
      → lookup p.0 ((k, w) ∷ m) ≢ none
  unfolding lookup
  found_behind k w m p h = ground arith

  keys_found : (m : Map String V) → All (λ (p : String × V). lookup p.0 m ≢ none) m
  unfolding lookup
  keys_found [] = tt
  keys_found ((k, v) ∷ m) = (ground arith, All-map m (found_behind k v m) (keys_found m))

  deletes-IsNeeded :
      (desired current whole : Map String V)
      → All (λ (p : String × V). lookup p.0 whole ≢ none) current
      → All (IsNeeded desired whole) (deletes desired current)
  unfolding deletes
  deletes-IsNeeded desired [] whole h = tt
  deletes-IsNeeded desired ((id, v) ∷ current) whole h =
      ground (arith, deletes-IsNeeded desired current whole h.1)

  diff_maps-IsNeeded :
      (desired current : Map String V)
      → IsKeyed key desired
      → All (IsNeeded desired current) (diff_maps desired current)
  unfolding diff_maps
  diff_maps-IsNeeded desired current k =
      All-append (IsNeeded desired current) (upserts desired current) (deletes desired current)
        (upserts-IsNeeded desired current desired k)
        (deletes-IsNeeded desired current current (keys_found current))

-- Where each endpoint that Podman shows stands under its own id, and no id twice, the deltas,
-- applied to what Corrosion holds, leave exactly what Podman shows; and each of them is needed:
-- it sets an endpoint that is not recorded as it is, or deletes one that is recorded and gone.
pub diff_lem :
    (desired current : Map String Endpoint)
    → IsKeyed (λ e. e.container_id) desired
    → NodupKeys desired
    → ((j : String)
        → lookup j (apply_deltas (λ e. e.container_id) (diff desired current) current)
          ≡ lookup j desired)
      × All (IsNeeded (λ e. e.container_id) desired current) (diff desired current)
unfolding diff
diff_lem desired current k d =
    (λ j. diff_maps_converges _ j desired current k d, diff_maps-IsNeeded _ desired current k)

-- Where each container on the host stands under its own id, and no id twice, the status deltas,
-- applied to the last snapshot, leave exactly the containers on the host; and each of them is
-- needed: it sets a status that the snapshot does not show, or deletes one that is gone.
pub diff_container_statuses_lem :
    (desired current : Map String ContainerStatus)
    → IsKeyed (λ s. s.container_id) desired
    → NodupKeys desired
    → ((j : String)
        → lookup j
            (apply_deltas (λ s. s.container_id) (diff_container_statuses desired current) current)
          ≡ lookup j desired)
      × All
          (IsNeeded (λ s. s.container_id) desired current)
          (diff_container_statuses desired current)
unfolding diff_container_statuses
diff_container_statuses_lem desired current k d =
    (λ j. diff_maps_converges _ j desired current k d, diff_maps-IsNeeded _ desired current k)
