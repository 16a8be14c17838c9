-- ===== src/Flux/Pending/Race/Outcome.antt =====
-- The end of the race of `park` and `deliver` (flux/src/state.rs).
use coold.Prelude.{
  string_eq, nat_eq, lookup, ℕ, suc, ◌-◌, ◌≤◌, String, ◌≡◌, refl, ◌⊎◌, inl, inr, none, some, List,
  [], ◌∷◌, arith,
}
use coold.Flux.Pending.{waiting, PendingEntry, parked, already_landed, Pending}
use coold.Flux.Pending.Race.{
  to_look, looked, park_done, to_fan_out, fanned_out, deliver_done, World, Actor, parker, deliverer,
  park_turn, deliver_turn, run_turns,
}
use coold.Flux.Pending.Race.States.{
  view, view_of-state, lookup_of-view, Reached, fresh, park_1, park_2, early_1, early_2, claimed_1,
  claimed_2, claimed_3, claimed_4, sent_1, sent_2, sent_3, sent_4, park_turn-Reached,
  deliver_turn-Reached,
}

-- How many critical sections are left.
abbrev park_left : {Body : Type 0} → World Body → ℕ
park_left w = elim w.park_phase [ to_look ↦ 2 | looked _ ↦ 1 | park_done _ ↦ 0 ]

abbrev deliver_left : {Body : Type 0} → World Body → ℕ
deliver_left w = elim w.deliver_phase [ to_fan_out ↦ 2 | fanned_out _ _ ↦ 1 | deliver_done _ ↦ 0 ]

-- How often an actor is scheduled.
abbrev pub turns_of_parker : List Actor → ℕ
turns_of_parker [] = 0
turns_of_parker (parker ∷ turns) = suc (turns_of_parker turns)
turns_of_parker (deliverer ∷ turns) = turns_of_parker turns

abbrev pub turns_of_deliverer : List Actor → ℕ
turns_of_deliverer [] = 0
turns_of_deliverer (parker ∷ turns) = turns_of_deliverer turns
turns_of_deliverer (deliverer ∷ turns) = suc (turns_of_deliverer turns)

module _ {Body : Type 0} (id : String) (rx : ℕ) (body : Body) (now : ℕ) where
  park_turn-left :
      (w : World Body)
      → (park_left (park_turn id rx body now w) ≡ park_left w - 1)
        × (deliver_left (park_turn id rx body now w) ≡ deliver_left w)
  unfolding park_turn
  park_turn-left w = ground arith

  deliver_turn-left :
      (w : World Body)
      → (park_left (deliver_turn id rx body now w) ≡ park_left w)
        × (deliver_left (deliver_turn id rx body now w) ≡ deliver_left w - 1)
  unfolding deliver_turn
  deliver_turn-left w = ground arith

  run_turns-Reached :
      (turns : List Actor) (w : World Body)
      → Reached id rx body now w
      → Reached id rx body now (run_turns id rx body now turns w)
  unfolding run_turns
  run_turns-Reached [] w r = r
  run_turns-Reached (parker ∷ turns) w r =
      run_turns-Reached turns (park_turn id rx body now w) (park_turn-Reached id rx body now w r)
  run_turns-Reached (deliverer ∷ turns) w r =
      run_turns-Reached turns (deliver_turn id rx body now w)
        (deliver_turn-Reached id rx body now w r)

  run_turns-left :
      (turns : List Actor) (w : World Body)
      → (park_left (run_turns id rx body now turns w) ≡ park_left w - turns_of_parker turns)
        × (deliver_left (run_turns id rx body now turns w)
            ≡ deliver_left w - turns_of_deliverer turns)
  unfolding run_turns
  run_turns-left [] w = omega arith
  run_turns-left (parker ∷ turns) w =
      omega (arith, park_turn-left w, run_turns-left turns (park_turn id rx body now w))
  run_turns-left (deliverer ∷ turns) w =
      omega (arith, deliver_turn-left w, run_turns-left turns (deliver_turn id rx body now w))

  -- The handler has its answer, on its channel or from `park`, exactly once.
  abbrev pub Answered : World Body → Type 0
  Answered w =
      ((w.park_phase ≡ park_done (parked rx)) × (w.deliver_phase ≡ deliver_done ((rx, body) ∷ [])))
      ⊎ ((w.park_phase ≡ park_done (already_landed body)) × (w.deliver_phase ≡ deliver_done []))

  Reached-Answered :
      (w : World Body)
      → Reached id rx body now w
      → park_left w ≡ 0
      → deliver_left w ≡ 0
      → Answered w × (view id w.pending ≡ none)
  Reached-Answered w (sent_4 p d g) _ _ = (inl (p, d), g)
  Reached-Answered w (claimed_4 p d g) _ _ = (inr (p, d), g)
  Reached-Answered w (fresh p d g) l m = absurd (ground arith)
  Reached-Answered w (park_1 p d g) l m = absurd (ground arith)
  Reached-Answered w (park_2 p d g) l m = absurd (ground arith)
  Reached-Answered w (early_1 p d g) l m = absurd (ground arith)
  Reached-Answered w (early_2 p d g) l m = absurd (ground arith)
  Reached-Answered w (claimed_1 p d g) l m = absurd (ground arith)
  Reached-Answered w (claimed_2 p d g) l m = absurd (ground arith)
  Reached-Answered w (claimed_3 p d g) l m = absurd (ground arith)
  Reached-Answered w (sent_1 p d g) l m = absurd (ground arith)
  Reached-Answered w (sent_2 p d g) l m = absurd (ground arith)
  Reached-Answered w (sent_3 p d g) l m = absurd (ground arith)

  abbrev pub start : Pending Body → World Body
  start p = record { pending = p; park_phase = to_look; deliver_phase = to_fan_out }

  -- While a dispatch waits with nobody parked, let one handler park on it and one response arrive,
  -- their critical sections interleaved in any order. Once both have run to their ends, the
  -- handler has the response exactly once, on its channel or as the result of `park`, and the
  -- entry is gone.
  pub no_lost_response :
      (turns : List Actor) (p : Pending Body) (e : PendingEntry Body)
      → lookup id p ≡ some e
      → e.state ≡ waiting []
      → 2 ≤ turns_of_parker turns
      → 2 ≤ turns_of_deliverer turns
      → Answered (run_turns id rx body now turns (start p))
        × (lookup id (run_turns id rx body now turns (start p)).pending ≡ none)
  no_lost_response turns p e h s a b =
      let w = run_turns id rx body now turns (start p) in
      let (answered, gone) =
        Reached-Answered w
          (run_turns-Reached turns (start p) (fresh refl refl (view_of-state id p e h s)))
          (omega (arith, run_turns-left turns (start p)))
          (omega (arith, run_turns-left turns (start p))) in
      (answered, lookup_of-view id w.pending gone)
