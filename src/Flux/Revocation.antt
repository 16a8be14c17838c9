-- ===== src/Flux/Revocation.antt =====
-- flux/src/revocation.rs: the denylist of token ids, in memory and on disk. A disk write is one
-- step that succeeds or fails (`io`), since the file is replaced by a rename; the JSON text of the
-- file is the list that it encodes, and `none` is a missing, unreadable or malformed file.
pub mod Durability
pub mod Leeway
use coold.Prelude.{
  ltb, leb, if◌then◌else◌, Bool-cases, Option-cases, and_then, Eq, String-discrete, string_eq,
  nat_eq, ◌==◌, ==_iff, ==_refl, contains, length, length-append, filter, any, length-filter-le,
  All, Map, lookup, insert, remove, contains_key, HasKey, NodupKeys, lookup-insert, lookup-remove,
  insert-NodupKeys, remove-NodupKeys, remove_absent, length-insert, length-remove-le, map_laws,
  str_leb, insert_sorted, sort_by_key, lookup-sort_by_key, sort_by_key-NodupKeys, Result, ok, err,
  ◌>>=◌, Result-cases, ok_or, ok_only, is_empty, strip_prefix, starts_with, strip_suffix, ends_with,
  contains_text, is_whitespace, trim_is_empty, trim_start, trim_end, trim, trim_slashes,
  utf8_length, byte_length, all_chars, is_alphanumeric, take_until, take_until_text, after_text,
  after_last, ℕ, zero, suc, ◌+◌, ◌-◌, ◌*◌, ◌/◌, ◌%◌, ◌^◌, ◌≤◌, ◌<◌, min, String, ◌≡◌, refl, sym, ap,
  ◌∙◌, ◌≢◌, ◌↔◌, ◌⊎◌, inl, inr, ite, if_pos, if_neg, Bool, true, false, ◌&&◌, ◌||◌, not, Option,
  none, some, List, [], ◌∷◌, ◌++◌, map, arith,
}

pub record RevocationEntry : Type 0 where
  pub jti : String
  pub expires_at : Option ℕ

pub record RevocationStore : Type 0 where
  pub inner : Map String (Option ℕ)
  -- whether the store has a backing file
  pub path : Bool
  -- what the file holds
  pub file : Option (List RevocationEntry)

-- `expires_at.is_none_or(|exp| exp > now)`
unfoldable pub still_counts : ℕ → Option ℕ → Bool
still_counts now none = true
still_counts now (some exp) = ltb now exp

-- The `filter`, `map` and `collect` of `load`.
unfoldable pub collect : ℕ → List RevocationEntry → Map String (Option ℕ) → Map String (Option ℕ)
unfolding still_counts
collect now [] m = m
collect now (e ∷ entries) m =
    collect now entries (if still_counts now e.expires_at then insert e.jti e.expires_at m else m)

unfoldable pub load : ℕ → Option (List RevocationEntry) → RevocationStore
unfolding collect
load now file = record {
  inner = elim file [ none ↦ [] | some entries ↦ collect now entries [] ];
  path = true;
  file = file;
}

abbrev entry_of : String × Option ℕ → RevocationEntry
entry_of (jti, expires_at) = record { jti = jti; expires_at = expires_at }

unfoldable pub list : RevocationStore → List RevocationEntry
unfolding sort_by_key
list s = map entry_of (sort_by_key s.inner)

-- The new store, and whether the write went well.
unfoldable pub persist : Bool → RevocationStore → RevocationStore × Bool
unfolding list
persist io s =
    if not s.path
    then (s, true)
    else if io
    then (record s { file = some (list s) }, true)
    else (s, false)

unfoldable pub revoke : Bool → String → Option ℕ → RevocationStore → RevocationStore × Bool
unfolding persist
revoke io jti expires_at s = persist io (record s { inner = insert jti expires_at s.inner })

unfoldable pub is_revoked : RevocationStore → String → Bool
unfolding contains_key
is_revoked s jti = contains_key jti s.inner

-- Whether the id was there, if the write went well.
unfoldable pub unrevoke : Bool → String → RevocationStore → RevocationStore × Option Bool
unfolding persist contains_key
unrevoke io jti s =
    let (s', written) = persist io (record s { inner = remove jti s.inner }) in
    (s', if written then some (contains_key jti s.inner) else none)

-- `HashMap::retain`
unfoldable pub retain : ℕ → Map String (Option ℕ) → Map String (Option ℕ)
unfolding still_counts
retain now [] = []
retain now ((k, v) ∷ m) =
    let rest = retain now m in if still_counts now v then (k, v) ∷ rest else rest

-- The number pruned, if what had to be written was.
unfoldable pub prune : Bool → ℕ → RevocationStore → RevocationStore × Option ℕ
unfolding persist retain
prune io now s =
    let kept : RevocationStore = record s { inner = retain now s.inner } in
    let pruned = length s.inner - length kept.inner in
    if ltb 0 pruned
    then (let (s', written) = persist io kept in (s', if written then some pruned else none))
    else (kept, some pruned)
