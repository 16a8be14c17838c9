-- ===== src/Mesh/Addresses/Names.antt =====
-- The test for names that occur twice in coolify-cli/src/wireguard/subnet.rs.
use coold.Prelude.{
  Bool-cases, string_eq, nat_eq, ==_iff, contains, All, String, ◌≡◌, refl, ap, inl, inr, true,
  false, ◌||◌, none, some, List, [], ◌∷◌, ◌++◌, arith,
}
use coold.Prelude.Counting.{AllDistinct}
use coold.Mesh.Addresses.{first_duplicate}

-- A name that stands on the list again behind an earlier place.
abbrev pub IsTwice : String → List String → Type 0
IsTwice h hosts =
    (before after : List String) × (hosts ≡ before ++ h ∷ after) × (contains before h ≡ true)

unseen_apart :
    (k : String) (seen hosts : List String)
    → All (λ j. contains (k ∷ seen) j ≡ false) hosts
    → (contains hosts k ≡ false) × All (λ j. contains seen j ≡ false) hosts
unfolding contains
unseen_apart k seen [] a = (refl, tt)
unseen_apart k seen (j ∷ hosts) a =
    let (rest, unseen) = unseen_apart k seen hosts a.1 in
    (ground (arith, a.0, rest, ==_iff j k, ==_iff k j), (ground (arith, a.0), unseen))

first_duplicate-none :
    (hosts seen : List String)
    → first_duplicate hosts seen ≡ none
    → AllDistinct hosts × All (λ k. contains seen k ≡ false) hosts
unfolding first_duplicate
first_duplicate-none [] seen h = (tt, tt)
first_duplicate-none (k ∷ hosts) seen h =
    let (distinct, unseen) = first_duplicate-none hosts (k ∷ seen) (ground (arith, h)) in
    let apart = unseen_apart k seen hosts unseen in
    ((apart.0, distinct), (ground (arith, h), apart.1))

first_duplicate-some :
    (hosts seen : List String) (h : String)
    → first_duplicate hosts seen ≡ some h
    → (before after : List String) × (hosts ≡ before ++ h ∷ after)
      × (contains before h || contains seen h ≡ true)
unfolding first_duplicate contains
first_duplicate-some [] seen h e = absurd (ground (arith, e))
first_duplicate-some (k ∷ hosts) seen h e = elim (Bool-cases (contains seen k)) [
  | inl twice ↦
      let same : k ≡ h = ground (arith, e, twice) in
      let seen_before : contains seen h ≡ true = rw same at twice in
      ([], hosts, ap (λ j. j ∷ hosts) same, ground (arith, seen_before))
  | inr once ↦
      let (before, after, split_at, found) =
        first_duplicate-some hosts (k ∷ seen) h (ground (arith, e, once)) in
      (k ∷ before, after, ap (λ js. k ∷ js) split_at, ground (arith, found))
]

pub first_duplicate-IsTwice :
    (hosts : List String) (h : String) → first_duplicate hosts [] ≡ some h → IsTwice h hosts
first_duplicate-IsTwice hosts h e =
    let (before, after, split_at, found) = first_duplicate-some hosts [] h e in
    (before, after, split_at, unfold contains in ground (arith, found))

pub first_duplicate-AllDistinct :
    (hosts : List String) → first_duplicate hosts [] ≡ none → AllDistinct hosts
first_duplicate-AllDistinct hosts e = (first_duplicate-none hosts [] e).0
