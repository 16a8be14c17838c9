-- ===== src/Mesh/Addresses/Distinct.antt =====
-- The addresses that `allocate_mgmt_ips` (coolify-cli/src/wireguard/subnet.rs) has given so far.
use coold.Prelude.{
  Bool-cases, string_eq, nat_eq, ◌==◌, ==_refl, contains, Map, insert, ℕ, ◌<◌, String, ◌≡◌, inl,
  inr, true, false, List, [], ◌∷◌, arith,
}
use coold.Mesh.Addresses.{Pool, Allocation, unusable, take_ip, keep, keep_existing}

-- Strictly inside the pool.
abbrev pub IsUsable : Pool → ℕ → Type 0
IsUsable pool ip = (pool.network < ip) × (ip < pool.broadcast)

-- An address that no entry has.
abbrev pub IsFresh : ℕ → Map String ℕ → Type 0
IsFresh ip [] = Unit
IsFresh ip ((_, other) ∷ m) = ((ip == other) ≡ false) × IsFresh ip m

-- No address twice.
abbrev pub NodupIps : Map String ℕ → Type 0
NodupIps [] = Unit
NodupIps ((_, ip) ∷ m) = IsFresh ip m × NodupIps m

abbrev pub AllUsable : Pool → Map String ℕ → Type 0
AllUsable pool [] = Unit
AllUsable pool ((_, ip) ∷ m) = IsUsable pool ip × AllUsable pool m

abbrev pub AllUsed : List ℕ → Map String ℕ → Type 0
AllUsed used [] = Unit
AllUsed used ((_, ip) ∷ m) = (contains used ip ≡ true) × AllUsed used m

insert-IsFresh :
    (ip new : ℕ) (host : String) (m : Map String ℕ)
    → (ip == new) ≡ false
    → IsFresh ip m
    → IsFresh ip (insert host new m)
unfolding insert
insert-IsFresh ip new host [] d f = (d, tt)
insert-IsFresh ip new host ((j, w) ∷ m) d f = ground (arith, insert-IsFresh ip new host m d f.1)

pub insert-NodupIps :
    (ip : ℕ) (host : String) (m : Map String ℕ)
    → IsFresh ip m
    → NodupIps m
    → NodupIps (insert host ip m)
unfolding insert
insert-NodupIps ip host [] f d = (tt, tt)
insert-NodupIps ip host ((j, w) ∷ m) f d =
    ground (arith, insert-NodupIps ip host m f.1 d.1, insert-IsFresh w ip host m (ground arith) d.0)

insert-AllUsable :
    (pool : Pool) (ip : ℕ) (host : String) (m : Map String ℕ)
    → IsUsable pool ip
    → AllUsable pool m
    → AllUsable pool (insert host ip m)
unfolding insert
insert-AllUsable pool ip host [] u a = (u, tt)
insert-AllUsable pool ip host ((j, w) ∷ m) u a =
    ground (arith, insert-AllUsable pool ip host m u a.1)

weaken-AllUsed :
    (ip : ℕ) (used : List ℕ) (m : Map String ℕ) → AllUsed used m → AllUsed (ip ∷ used) m
unfolding contains
weaken-AllUsed ip used [] a = tt
weaken-AllUsed ip used ((j, w) ∷ m) a = (ground (arith, a.0), weaken-AllUsed ip used m a.1)

pub insert-AllUsed :
    (ip : ℕ) (used : List ℕ) (host : String) (m : Map String ℕ)
    → AllUsed used m
    → AllUsed (ip ∷ used) (insert host ip m)
unfolding insert contains
insert-AllUsed ip used host [] a = (ground (arith, ==_refl ip), tt)
insert-AllUsed ip used host ((j, w) ∷ m) a =
    ground (arith, ==_refl ip, a.0, weaken-AllUsed ip used m a.1, insert-AllUsed ip used host m a.1)

pub unused-IsFresh :
    (ip : ℕ) (used : List ℕ) (m : Map String ℕ)
    → contains used ip ≡ false
    → AllUsed used m
    → IsFresh ip m
unused-IsFresh ip used [] n a = tt
unused-IsFresh ip used ((j, w) ∷ m) n a = (ground (arith, n, a.0), unused-IsFresh ip used m n a.1)

-- Every address is strictly inside the pool and on the list of the used ones, and none is there
-- twice.
pub record IsSound (pool : Pool) (s : Allocation) : Type 0 where
  pub usable : AllUsable pool s.result
  pub listed : AllUsed s.used s.result
  pub distinct : NodupIps s.result

pub take_ip-IsSound :
    (pool : Pool) (host : String) (ip : ℕ) (s : Allocation)
    → IsUsable pool ip
    → contains s.used ip ≡ false
    → IsSound pool s
    → IsSound pool (take_ip host ip s)
take_ip-IsSound pool host ip s u n v = record {
  usable = insert-AllUsable pool ip host s.result u v.usable;
  listed = insert-AllUsed ip s.used host s.result v.listed;
  distinct =
      insert-NodupIps ip host s.result (unused-IsFresh ip s.used s.result n v.listed) v.distinct;
}

unusable-false : (pool : Pool) (ip : ℕ) → unusable pool ip ≡ false → IsUsable pool ip
unfolding unusable
unusable-false pool ip h = (ground arith, ground arith)

keep-IsSound :
    (pool : Pool) (hosts : List String) (host : String) (ip : ℕ) (s : Allocation)
    → IsSound pool s
    → IsSound pool (keep pool hosts host ip s)
unfolding keep
keep-IsSound pool hosts host ip s v = elim (Bool-cases (contains hosts host)) [
  | inr other ↦ rw (other, keep) v
  | inl ours ↦ elim (Bool-cases (unusable pool ip)) [
    | inl bad ↦
        rw (ours, bad, keep)
          (record { usable = v.usable; listed = v.listed; distinct = v.distinct })
    | inr good ↦ elim (Bool-cases (contains s.used ip)) [
      | inl twice ↦
          rw (ours, good, twice, keep)
            (record { usable = v.usable; listed = v.listed; distinct = v.distinct })
      | inr once ↦
          rw (ours, good, once, keep)
            (take_ip-IsSound pool host ip s (unusable-false pool ip good) once v)
    ]
  ]
]

pub keep_existing-IsSound :
    (pool : Pool) (hosts : List String) (existing : Map String ℕ) (s : Allocation)
    → IsSound pool s
    → IsSound pool (keep_existing pool hosts existing s)
unfolding keep_existing
keep_existing-IsSound pool hosts [] s v = v
keep_existing-IsSound pool hosts ((host, ip) ∷ existing) s v =
    keep_existing-IsSound pool hosts existing (keep pool hosts host ip s)
      (keep-IsSound pool hosts host ip s v)
