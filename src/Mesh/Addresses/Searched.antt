-- ===== src/Mesh/Addresses/Searched.antt =====
-- The search for a free address in coolify-cli/src/wireguard/subnet.rs.
use coold.Prelude.{
  leb, Bool-cases, string_eq, nat_eq, contains, All, ℕ, zero, suc, ◌+◌, ◌≤◌, ◌<◌, ◌≡◌, refl, ◌⊎◌,
  inl, inr, true, false, List, arith,
}
use coold.Prelude.Counting.{steps}
use coold.Mesh.Addresses.{u32_max, saturating_add, Search, free, no_address, search}

search_full :
    (fuel broadcast : ℕ) (used : List ℕ) (n : ℕ)
    → leb broadcast n ≡ true
    → search (suc fuel) broadcast used n ≡ no_address
unfolding search
search_full fuel broadcast used n h = rw h refl

search_free :
    (fuel broadcast : ℕ) (used : List ℕ) (n : ℕ)
    → leb broadcast n ≡ false
    → contains used n ≡ false
    → search (suc fuel) broadcast used n ≡ free n
unfolding search
search_free fuel broadcast used n h u = rw (h, u) refl

pub saturating_add_small : (n : ℕ) → n < u32_max → saturating_add n 1 ≡ n + 1
unfolding saturating_add
saturating_add_small n h = ground arith

search_next :
    (fuel broadcast : ℕ) (used : List ℕ) (n : ℕ)
    → broadcast ≤ u32_max
    → leb broadcast n ≡ false
    → contains used n ≡ true
    → search (suc fuel) broadcast used n ≡ search fuel broadcast used (n + 1)
unfolding search
search_next fuel broadcast used n b h u =
    let step = saturating_add_small n (ground (arith, b, h)) in rw (h, u, step) refl

-- All addresses from `n` on, up to the last one, are used.
abbrev pub IsFull : ℕ → List ℕ → ℕ → Type 0
IsFull broadcast used n =
    (c : ℕ) × (broadcast ≤ n + c) × All (λ k. contains used k ≡ true) (steps n 1 c)

-- What a search may end with.
abbrev pub Ended : ℕ → List ℕ → ℕ → Search → Type 0
Ended broadcast used n r =
    (r ≡ no_address) × IsFull broadcast used n
    ⊎ ((m : ℕ) × (r ≡ free m) × (n ≤ m) × (m < broadcast) × (contains used m ≡ false))

pub search_ends :
    (fuel broadcast : ℕ) (used : List ℕ) (n : ℕ)
    → broadcast ≤ u32_max
    → broadcast ≤ n + fuel
    → Ended broadcast used n (search (suc fuel) broadcast used n)
search_ends zero broadcast used n b f =
    inl (search_full zero broadcast used n (ground (arith, f)), (0, omega (arith, f), tt))
search_ends (suc fuel) broadcast used n b f = elim (Bool-cases (leb broadcast n)) [
  | inl full ↦ inl (search_full (suc fuel) broadcast used n full, (0, ground (arith, full), tt))
  | inr room ↦ elim (Bool-cases (contains used n)) [
    | inr unused ↦ inr (
      n,
      search_free (suc fuel) broadcast used n room unused,
      omega arith,
      ground (arith, room),
      unused,
    )
    | inl taken ↦
        rw (search_next (suc fuel) broadcast used n b room taken)
          (elim (search_ends fuel broadcast used (n + 1) b (omega (arith, f))) [
            | inl (none_left, (c, past, all)) ↦
                inl (none_left, (suc c, omega (arith, past), (taken, all)))
            | inr (m, found, after, before, unused) ↦
                inr (m, found, omega (arith, after), before, unused)
          ])
  ]
]
