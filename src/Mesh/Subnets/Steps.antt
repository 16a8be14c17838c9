-- ===== src/Mesh/Subnets/Steps.antt =====
-- The search for a free subnet in coolify-cli/src/wireguard/subnet.rs.
use native.Mathlib.Decide.{dec_le}
use native.Mathlib.Nat.{one-le-pow, add-mod_right, mod-add-mod, mod-eq_of_lt}
use coold.Prelude.{
  ltb, Bool-cases, string_eq, nat_eq, ◌==◌, contains, All, ℕ, zero, suc, ◌+◌, ◌-◌, ◌*◌, ◌%◌, ◌^◌,
  ◌≤◌, ◌<◌, ◌≡◌, refl, ◌∙◌, ◌⊎◌, inl, inr, true, false, List, arith,
}
use coold.Prelude.Counting.{steps}
use coold.Mesh.Addresses.{u32_max, saturating_add}
use coold.Mesh.Subnets.{step_of, Found, found, full, search_subnet}

mod-less : (d step : ℕ) → d < step → d % step ≡ d
mod-less d step h = mod-eq_of_lt {n = d} {m = step} h

-- Two boundaries are a whole step apart.
pub step_apart : (step x y : ℕ) → x % step ≡ 0 → y % step ≡ 0 → x < y → x + step ≤ y
step_apart step x y p q below = elim (dec_le (x + step) y) [
  | yes apart ↦ apart
  | no close ↦
      let d : ℕ = y - x in
      let whole : x + d ≡ y = omega arith in
      let plain : 0 + d ≡ d = omega arith in
      let sum : d % step ≡ 0 = rw (p, whole, q, plain) at (mod-add-mod x step d) in
      let less : d % step ≡ d = mod-less d step (omega arith) in absurd (omega (arith, sum, less))
]

-- All boundaries from `n` on, up to the last address, are used.
abbrev pub IsFull : ℕ → List ℕ → ℕ → ℕ → Type 0
IsFull last used step n =
    (c : ℕ) × (last + 1 ≤ n + c * step) × All (λ k. contains used k ≡ true) (steps n step c)

IsFull-next :
    (last : ℕ) (used : List ℕ) (step n : ℕ)
    → contains used n ≡ true
    → IsFull last used step (n + step)
    → IsFull last used step n
IsFull-next last used step n taken (c, past, all) = (suc c, omega (arith, past), (taken, all))

-- What a search may end with.
abbrev pub SearchEnded : ℕ → List ℕ → ℕ → ℕ → Found → Type 0
SearchEnded last used step n r =
    (r ≡ full) × IsFull last used step n
    ⊎ ((m : ℕ) × (r ≡ found m) × (n ≤ m) × (m ≤ last) × (contains used m ≡ false) × (m % step ≡ 0))

saturating_add_step : (n step : ℕ) → n + step ≤ u32_max → saturating_add n step ≡ n + step
unfolding saturating_add
saturating_add_step n step h = ground arith

subnet_full :
    (fuel last : ℕ) (used : List ℕ) (step n : ℕ)
    → ltb last n ≡ true
    → search_subnet (suc fuel) last used step n ≡ full
unfolding search_subnet
subnet_full fuel last used step n h = rw h refl

subnet_found :
    (fuel last : ℕ) (used : List ℕ) (step n : ℕ)
    → ltb last n ≡ false
    → contains used n ≡ false
    → search_subnet (suc fuel) last used step n ≡ found n
unfolding search_subnet
subnet_found fuel last used step n h u = rw (h, u) refl

subnet_next :
    (fuel last : ℕ) (used : List ℕ) (step n : ℕ)
    → last + step ≤ u32_max
    → ltb last n ≡ false
    → contains used n ≡ true
    → search_subnet (suc fuel) last used step n ≡ search_subnet fuel last used step (n + step)
unfolding search_subnet
subnet_next fuel last used step n b h u =
    let next = saturating_add_step n step (ground (arith, b, h)) in rw (h, u, next) refl

next_boundary : (n step : ℕ) → n % step ≡ 0 → (n + step) % step ≡ 0
next_boundary n step a = add-mod_right n step ∙ a

pub search_subnet_ends :
    (fuel last : ℕ) (used : List ℕ) (step n : ℕ)
    → 0 < step
    → last + step ≤ u32_max
    → n % step ≡ 0
    → last + 1 ≤ n + fuel
    → SearchEnded last used step n (search_subnet (suc fuel) last used step n)
search_subnet_ends zero last used step n w b a f =
    inl (subnet_full zero last used step n (ground (arith, f)), (0, omega (arith, f), tt))
search_subnet_ends (suc fuel) last used step n w b a f = elim (Bool-cases (ltb last n)) [
  | inl past ↦ inl (subnet_full (suc fuel) last used step n past, (0, ground (arith, past), tt))
  | inr room ↦ elim (Bool-cases (contains used n)) [
    | inr unused ↦ inr (
      n,
      subnet_found (suc fuel) last used step n room unused,
      omega arith,
      ground (arith, room),
      unused,
      a,
    )
    | inl taken ↦
        rw (subnet_next (suc fuel) last used step n b room taken)
          (elim (search_subnet_ends fuel last used step (n + step) w b (next_boundary n step a)
            (omega (arith, w, f))) [
              | inl (none_left, all) ↦ inl (none_left, IsFull-next last used step n taken all)
              | inr (m, hit, after, before, unused, even) ↦
                  inr (m, hit, omega (arith, after), before, unused, even)
            ])
  ]
]

power_positive : (k : ℕ) → 0 < 2 ^ k
power_positive k = one-le-pow k 2 (omega arith)

pub step_of_positive : (prefix : ℕ) → 0 < step_of prefix
unfolding step_of
step_of_positive prefix = elim (Bool-cases (prefix == 0)) [
  | inl whole ↦ rw whole (omega arith)
  | inr part ↦ rw part (power_positive (32 - prefix))
]
