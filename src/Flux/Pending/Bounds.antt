-- ===== src/Flux/Pending/Bounds.antt =====
-- The capacity of `Pending` (flux/src/state.rs) over any sequence of calls, each run to its end.
use coold.Prelude.{
  Option-cases, string_eq, nat_eq, length, lookup, insert, remove, NodupKeys, insert-NodupKeys,
  remove-NodupKeys, length-insert, length-remove-le, ℕ, ◌+◌, ◌≤◌, String, ◌≡◌, refl, inl, inr, some,
  List, [], ◌∷◌, ◌++◌, arith,
}
use coold.Flux.Pending.{
  PendingKind, landed_ttl, PendingState, waiting, landed, PendingEntry, Pending, fresh_entry,
  insert_waiting, remove_pending, park, deliver, drain_expired,
}
use coold.Flux.Pending.Expiry.{length-drain_expired-le, drain_expired-NodupKeys}

pub data Call (Body : Type 0) : Type 0 where
  insert_call : String → String → PendingKind → ℕ → Call Body
  remove_call : String → Call Body
  park_call : String → ℕ → Call Body
  deliver_call : String → Body → ℕ → Call Body
  drain_call : ℕ → ℕ → Call Body

module _ {Body : Type 0} (max : ℕ) where
  unfoldable pub call : Call Body → Pending Body → Pending Body
  unfolding insert_waiting remove_pending park deliver drain_expired
  call (insert_call id host kind now) p = (insert_waiting id host kind max now p).0
  call (remove_call id) p = (remove_pending id p).0
  call (park_call id rx) p = (park id rx p).0
  call (deliver_call id body now) p = (deliver id body now p).0
  call (drain_call timeout now) p = (drain_expired timeout now p).0

  -- Within the capacity, and no id twice.
  pub record IsValid (p : Pending Body) : Type 0 where
    pub within : length p ≤ max
    pub distinct : NodupKeys p

  replace-IsValid :
      (id : String) (e f : PendingEntry Body) (p : Pending Body)
      → lookup id p ≡ some e
      → IsValid p
      → IsValid (insert id f p)
  replace-IsValid id e f p h v = record {
    within = ground (arith, length-insert id f p);
    distinct = insert-NodupKeys id f p v.distinct;
  }

  remove-IsValid : (id : String) (p : Pending Body) → IsValid p → IsValid (remove id p)
  remove-IsValid id p v = record {
    within = omega (arith, length-remove-le id p);
    distinct = remove-NodupKeys id p v.distinct;
  }

  insert_waiting-IsValid :
      (id host : String) (kind : PendingKind) (now : ℕ) (p : Pending Body)
      → IsValid p
      → IsValid (insert_waiting id host kind max now p).0
  unfolding insert_waiting
  insert_waiting-IsValid id host kind now p v = record {
    within = ground (arith, length-insert id (fresh_entry host kind now) p);
    distinct = ground (arith, insert-NodupKeys id (fresh_entry host kind now) p v.distinct);
  }

  fan_out-IsValid :
      (id : String) (body : Body) (now : ℕ) (e : PendingEntry Body) (p : Pending Body)
      → lookup id p ≡ some e
      → IsValid p
      → IsValid (insert id (record e { state = landed body (now + landed_ttl) }) p)
  fan_out-IsValid id body now e p h v =
      replace-IsValid id e (record e { state = landed body (now + landed_ttl) }) p h v

  deliver-IsValid :
      (id : String) (body : Body) (now : ℕ) (p : Pending Body)
      → IsValid p
      → IsValid (deliver id body now p).0
  unfolding deliver
  deliver-IsValid id body now p v = elim (Option-cases (lookup id p)) [
    | inl miss ↦ record { within = ground (arith, miss); distinct = ground (arith, miss) }
    | inr (e, hit) ↦
        let f : PendingEntry Body = record e { state = landed body (now + landed_ttl) } in
        let a : IsValid (insert id f p) = fan_out-IsValid id body now e p hit v in
        let b : IsValid (remove id (insert id f p)) = remove-IsValid id (insert id f p) a in
        record {
          within = ground (arith, hit, a.within, b.within);
          distinct = ground (arith, hit, a.distinct, b.distinct);
        }
  ]

  park-IsValid : (id : String) (rx : ℕ) (p : Pending Body) → IsValid p → IsValid (park id rx p).0
  unfolding park
  park-IsValid id rx p v = elim (Option-cases (lookup id p)) [
    | inl miss ↦ record { within = ground (arith, miss); distinct = ground (arith, miss) }
    | inr (e, hit) ↦ go e hit e.state refl
  ]
    where
      go :
          (e : PendingEntry Body)
          → lookup id p ≡ some e
          → (s : PendingState Body) → e.state ≡ s
          → IsValid (park id rx p).0
      go e hit (waiting sinks) q =
          let a : IsValid _ =
            replace-IsValid id e (record e { state = waiting (sinks ++ rx ∷ []) }) p hit v in
          record {
            within = ground (arith, hit, q, a.within);
            distinct = ground (arith, hit, q, a.distinct);
          }
      go e hit (landed body until) q =
          let b : IsValid (remove id p) = remove-IsValid id p v in
          record {
            within = ground (arith, hit, q, b.within);
            distinct = ground (arith, hit, q, b.distinct);
          }

  call-IsValid : (c : Call Body) (p : Pending Body) → IsValid p → IsValid (call c p)
  unfolding call
  call-IsValid (insert_call id host kind now) p v = insert_waiting-IsValid id host kind now p v
  call-IsValid (remove_call id) p v = remove-IsValid id p v
  call-IsValid (park_call id rx) p v = park-IsValid id rx p v
  call-IsValid (deliver_call id body now) p v = deliver-IsValid id body now p v
  call-IsValid (drain_call timeout now) p v = record {
    within = omega (arith, v.within, length-drain_expired-le timeout now p);
    distinct = drain_expired-NodupKeys timeout now p v.distinct;
  }

  unfoldable pub calls : List (Call Body) → Pending Body → Pending Body
  unfolding call
  calls [] p = p
  calls (c ∷ cs) p = calls cs (call c p)

  -- From a map within the capacity `max` and with no request id twice, any sequence of calls, one
  -- after the other, leads to a map within `max` and with no request id twice.
  pub calls-IsValid : (cs : List (Call Body)) (p : Pending Body) → IsValid p → IsValid (calls cs p)
  unfolding calls
  calls-IsValid [] p v = v
  calls-IsValid (c ∷ cs) p v = calls-IsValid cs (call c p) (call-IsValid c p v)
