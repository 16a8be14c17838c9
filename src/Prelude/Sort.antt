-- ===== src/Prelude/Sort.antt =====
-- `sort` and `sort_by` on texts: the order of `str`, which is by code points, and insertion.
use Prim.Native.Char.{code}
use Prim.Native.String.{String}
use mathlib.Core.Path.{◌≡◌, refl}
use mathlib.Core.Bool.{Bool, true, false}
use mathlib.Core.Option.{none, some}
use mathlib.Core.List.{[], ◌∷◌}
use native.Mathlib.Omega.{arith}
use coold.Prelude.Tests.{ltb, if◌then◌else◌}
use coold.Prelude.Equality.{string_eq, nat_eq, ◌==◌}
use coold.Prelude.Assoc.{Map, lookup, NodupKeys}

-- `a <= b`
unfoldable pub str_leb : String → String → Bool
str_leb String.[] t = true
str_leb (String.◌∷◌ c s) String.[] = false
str_leb (String.◌∷◌ c s) (String.◌∷◌ d t) =
    let rest = str_leb s t in
    if ltb (code c) (code d) then true else if ltb (code d) (code c) then false else rest

module _ {ℓ} {V : Type ℓ} where
  unfoldable pub insert_sorted : String → V → Map String V → Map String V
  insert_sorted k v [] = (k, v) ∷ []
  insert_sorted k v ((j, w) ∷ m) =
      let rest = insert_sorted k v m in if str_leb k j then (k, v) ∷ (j, w) ∷ m else (j, w) ∷ rest

  -- `sort_by(|a, b| a.key.cmp(&b.key))`
  unfoldable pub sort_by_key : Map String V → Map String V
  unfolding insert_sorted
  sort_by_key [] = []
  sort_by_key ((k, v) ∷ m) = insert_sorted k v (sort_by_key m)

  lookup-insert_sorted :
      (k j : String) (v : V) (m : Map String V)
      → lookup k m ≡ none
      → lookup j (insert_sorted k v m) ≡ (if k == j then some v else lookup j m)
  unfolding lookup insert_sorted
  lookup-insert_sorted k j v [] h = refl
  lookup-insert_sorted k j v ((i, w) ∷ m) h = ground (arith, lookup-insert_sorted k j v m)

  -- Sorting moves entries, and changes no lookup.
  pub lookup-sort_by_key :
      (j : String) (m : Map String V) → NodupKeys m → lookup j (sort_by_key m) ≡ lookup j m
  unfolding lookup sort_by_key
  lookup-sort_by_key j [] d = refl
  lookup-sort_by_key j ((k, v) ∷ m) d = ground (
    arith,
    lookup-insert_sorted k j v (sort_by_key m),
    lookup-sort_by_key k m d.1,
    lookup-sort_by_key j m d.1,
  )

  insert_sorted-NodupKeys :
      (k : String) (v : V) (m : Map String V)
      → lookup k m ≡ none
      → NodupKeys m
      → NodupKeys (insert_sorted k v m)
  unfolding lookup insert_sorted
  insert_sorted-NodupKeys k v [] h d = (refl, tt)
  insert_sorted-NodupKeys k v ((j, w) ∷ m) h d =
      ground (arith, insert_sorted-NodupKeys k v m, lookup-insert_sorted k j v m)

  pub sort_by_key-NodupKeys : (m : Map String V) → NodupKeys m → NodupKeys (sort_by_key m)
  unfolding sort_by_key
  sort_by_key-NodupKeys [] d = tt
  sort_by_key-NodupKeys ((k, v) ∷ m) d = ground (
    arith,
    lookup-sort_by_key k m d.1,
    insert_sorted-NodupKeys k v (sort_by_key m),
    sort_by_key-NodupKeys m d.1,
  )
