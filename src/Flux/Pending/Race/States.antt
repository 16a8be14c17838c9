-- ===== src/Flux/Pending/Race/States.antt =====
-- The worlds that the race of `park` and `deliver` (flux/src/state.rs) passes through.
use coold.Prelude.{
  Option-cases, string_eq, nat_eq, lookup, remove, lookup-insert, lookup-remove, ℕ, ◌+◌, String,
  ◌≡◌, refl, inl, inr, true, false, Option, none, some, [], ◌∷◌, ◌++◌, map, arith,
}
use coold.Flux.Pending.{
  landed_ttl, PendingState, waiting, landed, PendingEntry, parked, already_landed, not_found,
  Pending, park_first, deliver_first,
}
use coold.Flux.Pending.Race.{
  to_look, looked, park_done, to_fan_out, fanned_out, deliver_done, World, park_turn, deliver_turn,
}

module _ {Body : Type 0} (id : String) where
  -- The state of the entry of the id.
  unfoldable pub view : Pending Body → Option (PendingState Body)
  view p = elim (lookup id p) [ none ↦ none | some e ↦ some e.state ]

  pub view-remove : (p : Pending Body) → view (remove id p) ≡ none
  unfolding view
  view-remove p = ground (arith, lookup-remove id id p)

  pub view_of-state :
      (p : Pending Body) (e : PendingEntry Body)
      → lookup id p ≡ some e
      → e.state ≡ waiting []
      → view p ≡ some (waiting [])
  unfolding view
  view_of-state p e h s = ground arith

  pub lookup_of-view : (p : Pending Body) → view p ≡ none → lookup id p ≡ none
  unfolding view
  lookup_of-view p h = ground arith

module _ {Body : Type 0} (id : String) (rx : ℕ) (body : Body) (now : ℕ) where
  pub view-park_first :
      (p : Pending Body)
      → (view id (park_first id rx p).0 ≡ (elim (view id p) [
        | none ↦ none
        | some state ↦ elim state [
          | waiting sinks ↦ some (waiting (sinks ++ rx ∷ []))
          | landed b until ↦ some (landed b until)
        ]
      ]))
        × ((park_first id rx p).1 ≡ (elim (view id p) [
          | none ↦ not_found
          | some state ↦ elim state [ waiting _ ↦ parked rx | landed b _ ↦ already_landed b ]
        ]))
  unfolding view park_first
  view-park_first p = elim (Option-cases (lookup id p)) [
    | inl miss ↦ ground (arith, miss)
    | inr (e, hit) ↦ go e hit (e.state) refl
  ]
    where
      go :
          (e : PendingEntry Body)
          → lookup id p ≡ some e
          → (s : PendingState Body) → e.state ≡ s
          → (view id (park_first id rx p).0 ≡ (elim (view id p) [
            | none ↦ none
            | some state ↦ elim state [
              | waiting sinks ↦ some (waiting (sinks ++ rx ∷ []))
              | landed b until ↦ some (landed b until)
            ]
          ]))
            × ((park_first id rx p).1 ≡ (elim (view id p) [
              | none ↦ not_found
              | some state ↦ elim state [ waiting _ ↦ parked rx | landed b _ ↦ already_landed b ]
            ]))
      go e hit (waiting sinks) q =
          ground
            (arith, hit, q, lookup-insert id id (record e { state = waiting (sinks ++ rx ∷ []) }) p)
      go e hit (landed b until) q = ground (arith, hit, q)

  pub view-deliver_first :
      (p : Pending Body)
      → (view id (deliver_first id body now p).0
          ≡ (elim (view id p) [ none ↦ none | some _ ↦ some (landed body (now + landed_ttl)) ]))
        × ((deliver_first id body now p).2 ≡ (elim (view id p) [
          | none ↦ []
          | some state ↦ elim state [
            | waiting sinks ↦ map (λ sink. (sink, body)) sinks
            | landed _ _ ↦ []
          ]
        ]))
        × ((deliver_first id body now p).1 ≡ (elim (view id p) [
          | none ↦ false
          | some state ↦ elim state [
            | waiting sinks ↦ elim sinks [ [] ↦ false | _ ∷ _ ↦ true ]
            | landed _ _ ↦ false
          ]
        ]))
  unfolding view deliver_first
  view-deliver_first p = elim (Option-cases (lookup id p)) [
    | inl miss ↦ ground (arith, miss)
    | inr (e, hit) ↦
        ground
          (arith, hit, lookup-insert id id (record e { state = landed body (now + landed_ttl) }) p)
  ]

  abbrev pub At : World Body → PendingState Body → Type 0
  At w state = view id w.pending ≡ some state

  abbrev pub Landed : World Body → Type 0
  Landed w = At w (landed body (now + landed_ttl))

  abbrev pub Gone : World Body → Type 0
  Gone w = view id w.pending ≡ none

  -- The worlds that the race passes through.
  pub data Reached (w : World Body) : Type 0 where
    fresh : w.park_phase ≡ to_look → w.deliver_phase ≡ to_fan_out → At w (waiting []) → Reached w
    park_1 :
        w.park_phase ≡ looked (parked rx)
        → w.deliver_phase ≡ to_fan_out
        → At w (waiting (rx ∷ []))
        → Reached w
    park_2 :
        w.park_phase ≡ park_done (parked rx)
        → w.deliver_phase ≡ to_fan_out
        → At w (waiting (rx ∷ []))
        → Reached w
    early_1 : w.park_phase ≡ to_look → w.deliver_phase ≡ fanned_out false [] → Landed w → Reached w
    early_2 : w.park_phase ≡ to_look → w.deliver_phase ≡ deliver_done [] → Landed w → Reached w
    claimed_1 :
        w.park_phase ≡ looked (already_landed body)
        → w.deliver_phase ≡ fanned_out false []
        → Landed w
        → Reached w
    claimed_2 :
        w.park_phase ≡ looked (already_landed body)
        → w.deliver_phase ≡ deliver_done []
        → Landed w
        → Reached w
    claimed_3 :
        w.park_phase ≡ park_done (already_landed body)
        → w.deliver_phase ≡ fanned_out false []
        → Gone w
        → Reached w
    claimed_4 :
        w.park_phase ≡ park_done (already_landed body)
        → w.deliver_phase ≡ deliver_done []
        → Gone w
        → Reached w
    sent_1 :
        w.park_phase ≡ looked (parked rx)
        → w.deliver_phase ≡ fanned_out true ((rx, body) ∷ [])
        → Landed w
        → Reached w
    sent_2 :
        w.park_phase ≡ looked (parked rx)
        → w.deliver_phase ≡ deliver_done ((rx, body) ∷ [])
        → Gone w
        → Reached w
    sent_3 :
        w.park_phase ≡ park_done (parked rx)
        → w.deliver_phase ≡ fanned_out true ((rx, body) ∷ [])
        → Landed w
        → Reached w
    sent_4 :
        w.park_phase ≡ park_done (parked rx)
        → w.deliver_phase ≡ deliver_done ((rx, body) ∷ [])
        → Gone w
        → Reached w

  pub park_turn-Reached : (w : World Body) → Reached w → Reached (park_turn id rx body now w)
  unfolding park_turn
  park_turn-Reached w (fresh p d a) =
      park_1 (ground (arith, view-park_first w.pending)) (ground arith)
        (ground (arith, view-park_first w.pending))
  park_turn-Reached w (park_1 p d a) = park_2 (ground arith) (ground arith) (ground arith)
  park_turn-Reached w (park_2 p d a) = park_2 (ground arith) (ground arith) (ground arith)
  park_turn-Reached w (early_1 p d a) =
      claimed_1 (ground (arith, view-park_first w.pending)) (ground arith)
        (ground (arith, view-park_first w.pending))
  park_turn-Reached w (early_2 p d a) =
      claimed_2 (ground (arith, view-park_first w.pending)) (ground arith)
        (ground (arith, view-park_first w.pending))
  park_turn-Reached w (claimed_1 p d a) =
      claimed_3 (ground arith) (ground arith) (ground (arith, view-remove id w.pending))
  park_turn-Reached w (claimed_2 p d a) =
      claimed_4 (ground arith) (ground arith) (ground (arith, view-remove id w.pending))
  park_turn-Reached w (claimed_3 p d a) = claimed_3 (ground arith) (ground arith) (ground arith)
  park_turn-Reached w (claimed_4 p d a) = claimed_4 (ground arith) (ground arith) (ground arith)
  park_turn-Reached w (sent_1 p d a) = sent_3 (ground arith) (ground arith) (ground arith)
  park_turn-Reached w (sent_2 p d a) = sent_4 (ground arith) (ground arith) (ground arith)
  park_turn-Reached w (sent_3 p d a) = sent_3 (ground arith) (ground arith) (ground arith)
  park_turn-Reached w (sent_4 p d a) = sent_4 (ground arith) (ground arith) (ground arith)

  pub deliver_turn-Reached : (w : World Body) → Reached w → Reached (deliver_turn id rx body now w)
  unfolding deliver_turn
  deliver_turn-Reached w (fresh p d a) =
      early_1 (ground arith) (ground (arith, view-deliver_first w.pending))
        (ground (arith, view-deliver_first w.pending))
  deliver_turn-Reached w (park_1 p d a) =
      sent_1 (ground arith) (ground (arith, view-deliver_first w.pending))
        (ground (arith, view-deliver_first w.pending))
  deliver_turn-Reached w (park_2 p d a) =
      sent_3 (ground arith) (ground (arith, view-deliver_first w.pending))
        (ground (arith, view-deliver_first w.pending))
  deliver_turn-Reached w (early_1 p d a) = early_2 (ground arith) (ground arith) (ground arith)
  deliver_turn-Reached w (early_2 p d a) = early_2 (ground arith) (ground arith) (ground arith)
  deliver_turn-Reached w (claimed_1 p d a) = claimed_2 (ground arith) (ground arith) (ground arith)
  deliver_turn-Reached w (claimed_2 p d a) = claimed_2 (ground arith) (ground arith) (ground arith)
  deliver_turn-Reached w (claimed_3 p d a) = claimed_4 (ground arith) (ground arith) (ground arith)
  deliver_turn-Reached w (claimed_4 p d a) = claimed_4 (ground arith) (ground arith) (ground arith)
  deliver_turn-Reached w (sent_1 p d a) =
      sent_2 (ground arith) (ground arith) (ground (arith, view-remove id w.pending))
  deliver_turn-Reached w (sent_2 p d a) = sent_2 (ground arith) (ground arith) (ground arith)
  deliver_turn-Reached w (sent_3 p d a) =
      sent_4 (ground arith) (ground arith) (ground (arith, view-remove id w.pending))
  deliver_turn-Reached w (sent_4 p d a) = sent_4 (ground arith) (ground arith) (ground arith)
