-- ===== src/Flux/Pending.antt =====
-- `Pending` of flux/src/state.rs: the dispatches that wait for an answer. Times are numbers of
-- nanoseconds; `now` is what `Instant::now()` returned. A one-shot channel is known by a number:
-- `park` is given a fresh one, and `deliver` returns what it sends on which channel. `Body` is the
-- type `ResponseData`.
pub mod Lookup
pub mod Race
pub mod Expiry
pub mod Bounds
use mathlib.Core.Option
use coold.Prelude.{
  ltb, leb, if◌then◌else◌, Bool-cases, Option-cases, and_then, Eq, String-discrete, string_eq,
  nat_eq, ◌==◌, ==_iff, ==_refl, contains, length, length-append, filter, any, length-filter-le,
  All, Map, lookup, insert, remove, contains_key, HasKey, NodupKeys, lookup-insert, lookup-remove,
  insert-NodupKeys, remove-NodupKeys, remove_absent, length-insert, length-remove-le, map_laws,
  str_leb, insert_sorted, sort_by_key, lookup-sort_by_key, sort_by_key-NodupKeys, Result, ok, err,
  ◌>>=◌, Result-cases, ok_or, ok_only, is_empty, strip_prefix, starts_with, strip_suffix, ends_with,
  contains_text, is_whitespace, trim_is_empty, trim_start, trim_end, trim, trim_slashes,
  utf8_length, byte_length, all_chars, is_alphanumeric, take_until, take_until_text, after_text,
  after_last, ℕ, zero, suc, ◌+◌, ◌-◌, ◌*◌, ◌/◌, ◌%◌, ◌^◌, ◌≤◌, ◌<◌, min, String, ◌≡◌, refl, sym, ap,
  ◌∙◌, ◌≢◌, ◌↔◌, ◌⊎◌, inl, inr, ite, if_pos, if_neg, Bool, true, false, ◌&&◌, ◌||◌, not, Option,
  none, some, List, [], ◌∷◌, ◌++◌, map, arith,
}

pub data PendingKind : Type 0 where
  coold_kind : PendingKind

-- `LANDED_TTL_SECS`, in nanoseconds
abbrev pub landed_ttl : ℕ
landed_ttl = 30 * 10 ^ 9

pub data PendingState (Body : Type 0) : Type 0 where
  waiting : List ℕ → PendingState Body
  landed : Body → ℕ → PendingState Body

pub record PendingEntry (Body : Type 0) : Type 0 where
  pub host_id : String
  pub kind : PendingKind
  pub started_at : ℕ
  pub state : PendingState Body

pub record PendingSnapshot : Type 0 where
  pub host_id : String
  pub kind : PendingKind

pub data ParkResult (Body : Type 0) : Type 0 where
  parked : ℕ → ParkResult Body
  already_landed : Body → ParkResult Body
  not_found : ParkResult Body

pub data InsertOutcome : Type 0 where
  inserted duplicate at_capacity : InsertOutcome

abbrev pub Pending : Type 0 → Type 0
Pending Body = Map String (PendingEntry Body)

module _ {Body : Type 0} where
  abbrev pub fresh_entry : String → PendingKind → ℕ → PendingEntry Body
  fresh_entry host_id kind now = record {
    host_id = host_id;
    kind = kind;
    started_at = now;
    state = waiting [];
  }

  unfoldable pub insert_waiting :
      String → String → PendingKind → ℕ → ℕ → Pending Body → Pending Body × InsertOutcome
  unfolding contains_key
  insert_waiting request_id host_id kind max now p =
      if leb max (length p)
      then (p, at_capacity)
      else if contains_key request_id p
      then (p, duplicate)
      else (insert request_id (fresh_entry host_id kind now) p, inserted)

  abbrev pub snapshot_of : PendingEntry Body → PendingSnapshot
  snapshot_of e = record { host_id = e.host_id; kind = e.kind }

  unfoldable pub remove_pending : String → Pending Body → Pending Body × Option PendingSnapshot
  remove_pending request_id p = (remove request_id p, Option.map snapshot_of (lookup request_id p))

  unfoldable pub get_pending : Pending Body → String → Option PendingSnapshot
  get_pending p request_id = Option.map snapshot_of (lookup request_id p)

  -- `park` is two critical sections: the look at the entry, and the removal of a landed one.
  unfoldable pub park_look :
      String → ℕ → PendingEntry Body → Pending Body → Pending Body × ParkResult Body
  park_look request_id rx entry p = elim entry.state [
    | waiting sinks ↦
        (insert request_id (record entry { state = waiting (sinks ++ rx ∷ []) }) p, parked rx)
    | landed body until ↦ (p, already_landed body)
  ]

  unfoldable pub park_first : String → ℕ → Pending Body → Pending Body × ParkResult Body
  unfolding park_look
  park_first request_id rx p = elim (lookup request_id p) [
    | none ↦ (p, not_found)
    | some entry ↦ park_look request_id rx entry p
  ]

  unfoldable pub park_second : String → ParkResult Body → Pending Body → Pending Body
  park_second request_id (parked rx) p = p
  park_second request_id (already_landed body) p = remove request_id p
  park_second request_id not_found p = p

  unfoldable pub park : String → ℕ → Pending Body → Pending Body × ParkResult Body
  unfolding park_first park_second
  park request_id rx p =
      let (q, result) = park_first request_id rx p in (park_second request_id result q, result)

  -- `deliver` is two critical sections too: the fan-out, and the removal after a live one.
  unfoldable pub fan_out :
      String → Body → ℕ → PendingEntry Body → Pending Body → Pending Body × Bool × List (ℕ × Body)
  fan_out request_id body now entry p =
      let q = insert request_id (record entry { state = landed body (now + landed_ttl) }) p in
      elim entry.state [
        | waiting sinks ↦
            (q, elim sinks [ [] ↦ false | _ ∷ _ ↦ true ], map (λ sink. (sink, body)) sinks)
        | landed _ _ ↦ (q, false, [])
      ]

  unfoldable pub deliver_first :
      String → Body → ℕ → Pending Body → Pending Body × Bool × List (ℕ × Body)
  unfolding fan_out
  deliver_first request_id body now p = elim (lookup request_id p) [
    | none ↦ (p, false, [])
    | some entry ↦ fan_out request_id body now entry p
  ]

  unfoldable pub deliver_second : String → Bool → Pending Body → Pending Body
  deliver_second request_id live p = if live then remove request_id p else p

  -- The new map, and what was sent.
  unfoldable pub deliver : String → Body → ℕ → Pending Body → Pending Body × List (ℕ × Body)
  unfolding deliver_first deliver_second
  deliver request_id body now p =
      let (q, live, sent) = deliver_first request_id body now p in
      (deliver_second request_id live q, sent)

  -- The filter of `drain_expired`; `duration_since` is zero where the clock is behind.
  unfoldable pub is_expired : ℕ → ℕ → PendingEntry Body → Bool
  is_expired coold_timeout now e = elim e.state [
    | waiting _ ↦ leb coold_timeout (now - e.started_at)
    | landed _ until ↦ leb until now
  ]

  unfoldable pub expired_ids : ℕ → ℕ → Pending Body → List String
  expired_ids coold_timeout now [] = []
  expired_ids coold_timeout now ((id, e) ∷ p) =
      let rest = expired_ids coold_timeout now p in
      if is_expired coold_timeout now e then id ∷ rest else rest

  -- The `filter_map` over the expired keys: what each removal returned.
  unfoldable pub remove_all :
      List String → Pending Body → Pending Body × List (String × PendingSnapshot)
  remove_all [] p = (p, [])
  remove_all (id ∷ ids) p =
      let rest = remove_all ids (remove id p) in
      elim (lookup id p) [ none ↦ rest | some e ↦ (rest.0, (id, snapshot_of e) ∷ rest.1) ]

  unfoldable pub drain_expired :
      ℕ → ℕ → Pending Body → Pending Body × List (String × PendingSnapshot)
  unfolding is_expired expired_ids remove_all
  drain_expired coold_timeout now p = remove_all (expired_ids coold_timeout now p) p
