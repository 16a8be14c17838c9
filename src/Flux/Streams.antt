-- ===== src/Flux/Streams.antt =====
-- `Streams` of flux/src/state.rs: the connected hosts. An `Instant` is a number of nanoseconds,
-- read by the caller and passed as `now`; a channel's sender is a value of a parameter `Tx`.
pub mod Liveness
pub mod Reports
use coold.Prelude.{
  ltb, leb, if◌then◌else◌, Bool-cases, Option-cases, and_then, Eq, String-discrete, string_eq,
  nat_eq, ◌==◌, ==_iff, ==_refl, contains, length, length-append, filter, any, length-filter-le,
  All, Map, lookup, insert, remove, contains_key, HasKey, NodupKeys, lookup-insert, lookup-remove,
  insert-NodupKeys, remove-NodupKeys, remove_absent, length-insert, length-remove-le, map_laws,
  str_leb, insert_sorted, sort_by_key, lookup-sort_by_key, sort_by_key-NodupKeys, Result, ok, err,
  ◌>>=◌, Result-cases, ok_or, ok_only, is_empty, strip_prefix, starts_with, strip_suffix, ends_with,
  contains_text, is_whitespace, trim_is_empty, trim_start, trim_end, trim, trim_slashes,
  utf8_length, byte_length, all_chars, is_alphanumeric, take_until, take_until_text, after_text,
  after_last, ℕ, zero, suc, ◌+◌, ◌-◌, ◌*◌, ◌/◌, ◌%◌, ◌^◌, ◌≤◌, ◌<◌, min, String, ◌≡◌, refl, sym, ap,
  ◌∙◌, ◌≢◌, ◌↔◌, ◌⊎◌, inl, inr, ite, if_pos, if_neg, Bool, true, false, ◌&&◌, ◌||◌, not, Option,
  none, some, List, [], ◌∷◌, ◌++◌, map, arith,
}
use mathlib.Core.Option

pub record StreamHandle (Tx : Type 0) : Type 0 where
  pub tx : Tx
  pub caps : List String
  pub advertised_caps : List String

pub record StreamEntry (Tx : Type 0) : Type 0 where
  pub tx : Tx
  pub caps : List String
  pub advertised_caps : List String
  pub last_seen_at : ℕ
  pub reachable : Bool

abbrev pub Streams : Type 0 → Type 0
Streams Tx = Map String (StreamEntry Tx)

module _ {Tx : Type 0} where
  abbrev pub new : Streams Tx
  new = []

  -- `Streams::insert`, by value: the entry of a fresh handle
  abbrev pub entry_of : StreamHandle Tx → ℕ → StreamEntry Tx
  entry_of handle now = record {
    tx = handle.tx;
    caps = handle.caps;
    advertised_caps = handle.advertised_caps;
    last_seen_at = now;
    reachable = true;
  }

  unfoldable pub insert_stream : String → StreamHandle Tx → ℕ → Streams Tx → Streams Tx
  insert_stream host_id handle now streams = insert host_id (entry_of handle now) streams

  unfoldable pub update_capabilities : String → List String → Streams Tx → Streams Tx
  update_capabilities host_id caps streams = elim (lookup host_id streams) [
    | none ↦ streams
    | some entry ↦ insert host_id (record entry { caps = caps }) streams
  ]

  unfoldable pub remove_stream : String → Streams Tx → Streams Tx
  remove_stream host_id streams = remove host_id streams

  abbrev pub handle_of : StreamEntry Tx → StreamHandle Tx
  handle_of e = record { tx = e.tx; caps = e.caps; advertised_caps = e.advertised_caps }

  unfoldable pub get_stream : Streams Tx → String → Option (StreamHandle Tx)
  get_stream streams host_id = Option.map handle_of (lookup host_id streams)

  unfoldable pub get_tx : Streams Tx → String → Option Tx
  get_tx streams host_id = Option.map (λ e. e.tx) (lookup host_id streams)

  unfoldable pub len : Streams Tx → ℕ
  len streams = length streams

  -- The new map, and whether the host was unreachable before.
  unfoldable pub touch : String → ℕ → Streams Tx → Streams Tx × Bool
  touch host_id now streams = elim (lookup host_id streams) [
    | none ↦ (streams, false)
    | some entry ↦ (
      insert host_id (record entry { last_seen_at = now; reachable = true }) streams,
      not entry.reachable,
    )
  ]

  unfoldable pub ping_targets : Streams Tx → List (String × Tx)
  ping_targets streams = map (λ (host_id, e). (host_id, e.tx)) streams

  -- The test of `mark_stale`; `duration_since` is zero where the clock is behind.
  unfoldable pub is_stale : ℕ → ℕ → StreamEntry Tx → Bool
  is_stale timeout now entry = entry.reachable && leb timeout (now - entry.last_seen_at)

  -- The map that the closure of `mark_stale` leaves behind.
  unfoldable pub mark_stale_entries : ℕ → ℕ → Streams Tx → Streams Tx
  mark_stale_entries timeout now [] = []
  mark_stale_entries timeout now ((host_id, entry) ∷ rest) =
      (host_id, if is_stale timeout now entry then record entry { reachable = false } else entry)
      ∷ mark_stale_entries timeout now rest

  -- The hosts that `mark_stale` reports, before they are sorted.
  unfoldable pub stale_hosts : ℕ → ℕ → Streams Tx → List String
  stale_hosts timeout now [] = []
  stale_hosts timeout now ((host_id, entry) ∷ rest) =
      let reported = stale_hosts timeout now rest in
      if is_stale timeout now entry then host_id ∷ reported else reported
