-- ===== src/Flux/Pending/Race.antt =====
-- The race of a parking handler and an arriving response on `Pending` (flux/src/state.rs). Each
-- of `park` and `deliver` is two critical sections, and the two run in any interleaving.
pub mod States
pub mod Outcome
use coold.Prelude.{
  ltb, leb, if◌then◌else◌, Bool-cases, Option-cases, and_then, Eq, String-discrete, string_eq,
  nat_eq, ◌==◌, ==_iff, ==_refl, contains, length, length-append, filter, any, length-filter-le,
  All, Map, lookup, insert, remove, contains_key, HasKey, NodupKeys, lookup-insert, lookup-remove,
  insert-NodupKeys, remove-NodupKeys, remove_absent, length-insert, length-remove-le, map_laws,
  str_leb, insert_sorted, sort_by_key, lookup-sort_by_key, sort_by_key-NodupKeys, Result, ok, err,
  ◌>>=◌, Result-cases, ok_or, ok_only, is_empty, strip_prefix, starts_with, strip_suffix, ends_with,
  contains_text, is_whitespace, trim_is_empty, trim_start, trim_end, trim, trim_slashes,
  utf8_length, byte_length, all_chars, is_alphanumeric, take_until, take_until_text, after_text,
  after_last, ℕ, zero, suc, ◌+◌, ◌-◌, ◌*◌, ◌/◌, ◌%◌, ◌^◌, ◌≤◌, ◌<◌, min, String, ◌≡◌, refl, sym, ap,
  ◌∙◌, ◌≢◌, ◌↔◌, ◌⊎◌, inl, inr, ite, if_pos, if_neg, Bool, true, false, ◌&&◌, ◌||◌, not, Option,
  none, some, List, [], ◌∷◌, ◌++◌, map, arith,
}
use coold.Flux.Pending.{
  PendingKind, coold_kind, landed_ttl, PendingState, waiting, landed, PendingEntry, PendingSnapshot,
  ParkResult, parked, already_landed, not_found, InsertOutcome, inserted, duplicate, at_capacity,
  Pending, fresh_entry, insert_waiting, snapshot_of, remove_pending, get_pending, park_look,
  park_first, park_second, park, fan_out, deliver_first, deliver_second, deliver, is_expired,
  expired_ids, remove_all, drain_expired,
}

pub data ParkPhase (Body : Type 0) : Type 0 where
  to_look : ParkPhase Body
  looked : ParkResult Body → ParkPhase Body
  park_done : ParkResult Body → ParkPhase Body

pub data DeliverPhase (Body : Type 0) : Type 0 where
  to_fan_out : DeliverPhase Body
  fanned_out : Bool → List (ℕ × Body) → DeliverPhase Body
  deliver_done : List (ℕ × Body) → DeliverPhase Body

pub record World (Body : Type 0) : Type 0 where
  pub pending : Pending Body
  pub park_phase : ParkPhase Body
  pub deliver_phase : DeliverPhase Body

pub data Actor : Type 0 where
  parker deliverer : Actor

module _ {Body : Type 0} (id : String) (rx : ℕ) (body : Body) (now : ℕ) where
  -- The next critical section of `park`.
  unfoldable pub park_turn : World Body → World Body
  unfolding park_first park_second
  park_turn w = elim w.park_phase [
    | to_look ↦
        let (q, result) = park_first id rx w.pending in
        record w { pending = q; park_phase = looked result }
    | looked result ↦ record w {
      pending = park_second id result w.pending;
      park_phase = park_done result;
    }
    | park_done result ↦ w
  ]

  -- The next critical section of `deliver`.
  unfoldable pub deliver_turn : World Body → World Body
  unfolding deliver_first deliver_second
  deliver_turn w = elim w.deliver_phase [
    | to_fan_out ↦
        let (q, live, sent) = deliver_first id body now w.pending in
        record w { pending = q; deliver_phase = fanned_out live sent }
    | fanned_out live sent ↦ record w {
      pending = deliver_second id live w.pending;
      deliver_phase = deliver_done sent;
    }
    | deliver_done sent ↦ w
  ]

  unfoldable pub turn : Actor → World Body → World Body
  unfolding park_turn deliver_turn
  turn parker w = park_turn w
  turn deliverer w = deliver_turn w

  unfoldable pub run_turns : List Actor → World Body → World Body
  unfolding turn
  run_turns [] w = w
  run_turns (a ∷ turns) w = run_turns turns (turn a w)
