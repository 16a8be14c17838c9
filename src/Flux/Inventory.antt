-- ===== src/Flux/Inventory.antt =====
-- `Streams::snapshot` of flux/src/state.rs: the sorted inventory of the streams.
use coold.Prelude.{
  if◌then◌else◌, string_eq, nat_eq, ◌==◌, contains, Map, insert_sorted, sort_by_key, String, ◌≡◌,
  refl, ◌∙◌, Bool, true, ◌||◌, List, [], ◌∷◌, map, arith,
}
use coold.Flux.Streams.{StreamEntry, Streams}

-- `StreamInventoryItem`
pub record StreamInventoryItem : Type 0 where
  pub host_id : String
  pub caps : List String

-- `dedup`: of equal neighbours, the first one stays.
unfoldable pub dedup : List String → List String
dedup [] = []
dedup (c ∷ []) = c ∷ []
dedup (c ∷ d ∷ cs) = let rest = dedup (d ∷ cs) in if c == d then rest else c ∷ rest

abbrev pub keyed : String → String × Bool
keyed c = (c, true)

abbrev pub key : {V : Type 0} → String × V → String
key (c, _) = c

-- `sort`
unfoldable pub sort : List String → List String
unfolding sort_by_key
sort caps = map key (sort_by_key (map keyed caps))

abbrev pub item_of : String × List String → StreamInventoryItem
item_of (host_id, caps) = record { host_id = host_id; caps = caps }

module _ {Tx : Type 0} where
  abbrev pub caps_of : String × StreamEntry Tx → String × List String
  caps_of (host_id, entry) = (host_id, dedup (sort entry.caps))

  unfoldable pub snapshot : Streams Tx → List StreamInventoryItem
  unfolding dedup sort sort_by_key
  snapshot streams = map item_of (sort_by_key (map caps_of streams))

-- Sorting and dropping repeated neighbours keep what is contained.
contains-dedup : (cs : List String) (c : String) → contains (dedup cs) c ≡ contains cs c
unfolding dedup contains
contains-dedup [] c = refl
contains-dedup (d ∷ []) c = refl
contains-dedup (d ∷ e ∷ cs) c = ground (arith, contains-dedup (e ∷ cs) c)

contains-insert_sorted :
    (k c : String) (m : Map String Bool)
    → contains (map key (insert_sorted k true m)) c ≡ (k == c || contains (map key m) c)
unfolding insert_sorted contains
contains-insert_sorted k c [] = refl
contains-insert_sorted k c ((j, w) ∷ m) = ground (arith, contains-insert_sorted k c m)

contains-sort : (cs : List String) (c : String) → contains (sort cs) c ≡ contains cs c
unfolding sort contains sort_by_key
contains-sort [] c = refl
contains-sort (d ∷ cs) c =
    ground (arith, contains-insert_sorted d c (sort_by_key (map keyed cs)), contains-sort cs c)

-- A stream's capabilities in the inventory are those of its entry.
contains_inventory :
    (caps : List String) (c : String) → contains (dedup (sort caps)) c ≡ contains caps c
contains_inventory caps c = contains-dedup (sort caps) c ∙ contains-sort caps c
