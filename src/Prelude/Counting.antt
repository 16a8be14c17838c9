-- ===== src/Prelude/Counting.antt =====
-- Counting: distinct values that all stand on a list are no more than the list has.
use Prim.Native.String.{String}
use Prim.Native.Nat.{ℕ, zero, suc, ◌+◌, ◌≤◌, ◌<◌}
use mathlib.Core.Path.{◌≡◌, refl}
use mathlib.Core.Bool.{true, false}
use mathlib.Core.Option.{none}
use mathlib.Core.List.{List, [], ◌∷◌}
use native.Mathlib.Omega.{arith}
use coold.Prelude.Tests.{if◌then◌else◌}
use coold.Prelude.Equality.{Eq, string_eq, nat_eq, ◌==◌, ==_iff, ==_refl, contains}
use coold.Prelude.Lists.{length, All}
use coold.Prelude.Assoc.{
  Map, lookup, insert, NodupKeys, lookup-insert, insert-NodupKeys, length-insert,
}

module _ {ℓ} {A : Type ℓ} ⦃e : Eq A⦄ where
  -- No value twice.
  abbrev pub AllDistinct : List A → Type 0
  AllDistinct [] = Unit
  AllDistinct (x ∷ xs) = (contains xs x ≡ false) × AllDistinct xs

  unfoldable without : A → List A → List A
  without x [] = []
  without x (y ∷ ys) = let rest = without x ys in if y == x then rest else y ∷ rest

  length-without-le : (x : A) (ys : List A) → length (without x ys) ≤ length ys
  unfolding without
  length-without-le x [] = omega arith
  length-without-le x (y ∷ ys) = ground (arith, length-without-le x ys)

  length-without :
      (x : A) (ys : List A) → contains ys x ≡ true → length (without x ys) + 1 ≤ length ys
  unfolding without contains
  length-without x [] h = absurd (ground (arith, h))
  length-without x (y ∷ ys) h = ground (arith, h, length-without x ys, length-without-le x ys)

  contains-without :
      (x k : A) (ys : List A)
      → (k == x) ≡ false
      → contains ys k ≡ true
      → contains (without x ys) k ≡ true
  unfolding without contains
  contains-without x k [] d h = h
  contains-without x k (y ∷ ys) d h = ground (arith, d, h, contains-without x k ys d)

  all-without :
      (x : A) (xs ys : List A)
      → contains xs x ≡ false
      → All (λ k. contains ys k ≡ true) xs
      → All (λ k. contains (without x ys) k ≡ true) xs
  unfolding contains
  all-without x [] ys f a = tt
  all-without x (k ∷ xs) ys f a =
      (contains-without x k ys (ground (arith, f)) a.0, all-without x xs ys (ground (arith, f)) a.1)

  pub pigeonhole :
      (xs ys : List A) → AllDistinct xs → All (λ k. contains ys k ≡ true) xs → length xs ≤ length ys
  pigeonhole [] ys d a = omega arith
  pigeonhole (x ∷ xs) ys d a =
      let rest = pigeonhole xs (without x ys) d.1 (all-without x xs ys d.0 a.1) in
      let shorter = length-without x ys a.0 in omega (arith, rest, shorter)

  all_on_more :
      (y : A) (xs ys : List A)
      → All (λ k. contains ys k ≡ true) xs
      → All (λ k. contains (y ∷ ys) k ≡ true) xs
  unfolding contains
  all_on_more y [] ys a = tt
  all_on_more y (x ∷ xs) ys a = (ground (arith, a.0), all_on_more y xs ys a.1)

  pub all_on_itself : (xs : List A) → All (λ k. contains xs k ≡ true) xs
  unfolding contains
  all_on_itself [] = tt
  all_on_itself (x ∷ xs) = (ground (arith, ==_refl x), all_on_more x xs xs (all_on_itself xs))

-- `n`, `n + step` and so on.
abbrev pub steps : ℕ → ℕ → ℕ → List ℕ
steps n step zero = []
steps n step (suc c) = n ∷ steps (n + step) step c

steps_above : (n k step c : ℕ) → k < n → contains (steps n step c) k ≡ false
unfolding contains
steps_above n k step zero h = refl
steps_above n k step (suc c) h =
    ground (arith, h, steps_above (n + step) k step c (omega (arith, h)))

steps-AllDistinct : (n step c : ℕ) → 0 < step → AllDistinct (steps n step c)
steps-AllDistinct n step zero h = tt
steps-AllDistinct n step (suc c) h =
    (steps_above (n + step) n step c (omega (arith, h)), steps-AllDistinct (n + step) step c h)

length-steps : (n step c : ℕ) → length (steps n step c) ≡ c
length-steps n step zero = refl
length-steps n step (suc c) = omega (arith, length-steps (n + step) step c)

-- As many steps as are all on a list.
pub steps_on_list :
    (n step c : ℕ) (used : List ℕ)
    → 0 < step
    → All (λ k. contains used k ≡ true) (steps n step c)
    → c ≤ length used
steps_on_list n step c used h a =
    let most = pigeonhole (steps n step c) used (steps-AllDistinct n step c h) a in
    omega (arith, most, length-steps n step c)

module _ {ℓ} {V : Type ℓ} where
  abbrev pub keys : Map String V → List String
  keys [] = []
  keys ((k, _) ∷ m) = k ∷ keys m

  contains-keys : (k : String) (m : Map String V) → lookup k m ≡ none → contains (keys m) k ≡ false
  unfolding lookup contains
  contains-keys k [] h = refl
  contains-keys k ((j, v) ∷ m) h = ground (arith, h, contains-keys k m)

  keys-AllDistinct : (m : Map String V) → NodupKeys m → AllDistinct (keys m)
  keys-AllDistinct [] d = tt
  keys-AllDistinct ((k, v) ∷ m) d = (contains-keys k m d.0, keys-AllDistinct m d.1)

  length-keys : (m : Map String V) → length (keys m) ≡ length m
  length-keys [] = refl
  length-keys ((k, v) ∷ m) = omega (arith, length-keys m)

  all-keys-insert :
      (hosts : List String) (k : String) (v : V) (m : Map String V)
      → contains hosts k ≡ true
      → All (λ j. contains hosts j ≡ true) (keys m)
      → All (λ j. contains hosts j ≡ true) (keys (insert k v m))
  unfolding insert
  all-keys-insert hosts k v [] h a = (h, tt)
  all-keys-insert hosts k v ((j, w) ∷ m) h a =
      ground (arith, h, a.0, a.1, all-keys-insert hosts k v m h a.1)

  -- What has been given to some of the hosts: to each at most one, and nothing is used beyond that.
  pub record IsCounted (hosts : List String) (result : Map String V) (used : List ℕ) : Type ℓ where
    pub asked : All (λ j. contains hosts j ≡ true) (keys result)
    pub single : NodupKeys result
    pub counted : length used ≤ length result

  pub insert-IsCounted :
      (hosts : List String) (k : String) (v : V) (n : ℕ) (result : Map String V) (used : List ℕ)
      → contains hosts k ≡ true
      → lookup k result ≡ none
      → IsCounted hosts result used
      → IsCounted hosts (insert k v result) (n ∷ used)
  insert-IsCounted hosts k v n result used h new c =
      let more = length-insert k v result in
      record {
        asked = all-keys-insert hosts k v result h c.asked;
        single = insert-NodupKeys k v result c.single;
        counted = ground (arith, new, more, c.counted);
      }

  -- A host is left, so fewer are used than there are hosts.
  pub IsCounted-room :
      (hosts : List String) (k : String) (result : Map String V) (used : List ℕ)
      → contains hosts k ≡ true
      → lookup k result ≡ none
      → IsCounted hosts result used
      → length used < length hosts
  IsCounted-room hosts k result used h new c =
      let most =
        pigeonhole (k ∷ keys result) hosts
          (contains-keys k result new, keys-AllDistinct result c.single) (h, c.asked) in
      omega (arith, most, c.counted, length-keys result)

  -- None of the keys of `existing` has been given anything yet.
  abbrev pub AllNew : Map String V → Map String V → Type ℓ
  AllNew result [] = Unit
  AllNew result ((k, _) ∷ existing) = (lookup k result ≡ none) × AllNew result existing

  pub insert-AllNew :
      (k : String) (v : V) (result existing : Map String V)
      → lookup k existing ≡ none
      → AllNew result existing
      → AllNew (insert k v result) existing
  unfolding lookup
  insert-AllNew k v result [] f a = tt
  insert-AllNew k v result ((j, w) ∷ existing) f a = (
    ground (arith, f, a.0, lookup-insert k j v result, ==_iff j k, ==_iff k j),
    insert-AllNew k v result existing (ground (arith, f)) a.1,
  )

  pub nothing-AllNew : (existing : Map String V) → AllNew [] existing
  unfolding lookup
  nothing-AllNew [] = tt
  nothing-AllNew ((k, v) ∷ existing) = (refl, nothing-AllNew existing)
