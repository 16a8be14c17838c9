-- ===== src/Flux/Pending/Lookup.antt =====
-- What the operations of `Pending` (flux/src/state.rs) leave at each request id.
use coold.Prelude.{
  if◌then◌else◌, Option-cases, and_then, string_eq, nat_eq, ◌==◌, lookup, insert, lookup-insert,
  lookup-remove, ℕ, ◌+◌, String, ◌≡◌, refl, ◌⊎◌, inl, inr, Option, none, some, List, [], ◌∷◌, ◌++◌,
  map, arith,
}
use coold.Flux.Pending.{
  landed_ttl, PendingState, waiting, landed, PendingEntry, Pending, park, deliver,
}

module _ {Body : Type 0} where
  -- `deliver`, seen from the entry of its id
  abbrev pub after_deliver : Body → ℕ → PendingEntry Body → Option (PendingEntry Body)
  after_deliver body now e = elim e.state [
    | waiting sinks ↦ elim sinks [
      | [] ↦ some (record e { state = landed body (now + landed_ttl) })
      | _ ∷ _ ↦ none
    ]
    | landed _ _ ↦ some (record e { state = landed body (now + landed_ttl) })
  ]

  pub lookup-deliver :
      (id j : String) (body : Body) (now : ℕ) (p : Pending Body)
      → lookup j (deliver id body now p).0
        ≡ (if id == j then and_then (lookup id p) (after_deliver body now) else lookup j p)
  unfolding deliver
  lookup-deliver id j body now p = elim (Option-cases (lookup id p)) [
    | inl miss ↦ ground (arith, miss)
    | inr (e, hit) ↦
        let q : PendingEntry Body = record e { state = landed body (now + landed_ttl) } in
        ground (arith, hit, lookup-insert id j q p, lookup-remove id j (insert id q p))
  ]

  -- what `deliver` sends
  abbrev pub sent_by : Body → PendingEntry Body → List (ℕ × Body)
  sent_by body e = elim e.state [
    | waiting sinks ↦ map (λ sink. (sink, body)) sinks
    | landed _ _ ↦ []
  ]

  pub sent-deliver :
      (id : String) (body : Body) (now : ℕ) (p : Pending Body)
      → (deliver id body now p).1 ≡ (elim (lookup id p) [ none ↦ [] | some e ↦ sent_by body e ])
  unfolding deliver
  sent-deliver id body now p = ground arith

  -- A response is sent at most once: once `deliver` has run, a second one for the same id sends
  -- nothing, whatever the entry was before.
  pub deliver_once :
      (id : String) (b c : Body) (now later : ℕ) (p : Pending Body)
      → (deliver id c later (deliver id b now p).0).1 ≡ []
  deliver_once id b c now later p =
      ground (arith, sent-deliver id c later (deliver id b now p).0, lookup-deliver id id b now p)

  -- `park`, seen from the entry of its id
  abbrev pub after_park : ℕ → PendingEntry Body → Option (PendingEntry Body)
  after_park rx e = elim e.state [
    | waiting sinks ↦ some (record e { state = waiting (sinks ++ rx ∷ []) })
    | landed _ _ ↦ none
  ]

  pub lookup-park :
      (id j : String) (rx : ℕ) (p : Pending Body)
      → lookup j (park id rx p).0
        ≡ (if id == j then and_then (lookup id p) (after_park rx) else lookup j p)
  unfolding park
  lookup-park id j rx p = elim (Option-cases (lookup id p)) [
    | inl miss ↦ ground (arith, miss)
    | inr (e, hit) ↦ elim (state_cases e.state) [
      | inl (sinks, q) ↦
          ground
            (arith, hit, q, lookup-insert id j (record e { state = waiting (sinks ++ rx ∷ []) }) p)
      | inr (body, until, q) ↦ ground (arith, hit, q, lookup-remove id j p)
    ]
  ]
    where
      state_cases :
          (s : PendingState Body)
          → ((sinks : List ℕ) × (s ≡ waiting sinks))
            ⊎ ((body : Body) × (until : ℕ) × (s ≡ landed body until))
      state_cases (waiting sinks) = inl (sinks, refl)
      state_cases (landed body until) = inr (body, until, refl)
