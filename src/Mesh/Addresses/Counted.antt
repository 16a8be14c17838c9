-- ===== src/Mesh/Addresses/Counted.antt =====
-- How many addresses `allocate_mgmt_ips` (coolify-cli/src/wireguard/subnet.rs) has used so far.
use coold.Prelude.{
  Bool-cases, string_eq, nat_eq, contains, Map, lookup, NodupKeys, ℕ, String, ◌≡◌, refl, ◌⊎◌, inl,
  inr, true, none, List, [], ◌∷◌,
}
use coold.Prelude.Counting.{IsCounted, insert-IsCounted, AllNew, insert-AllNew}
use coold.Mesh.Addresses.{Pool, Allocation, unusable, take_ip, keep, keep_existing}

keep_cases :
    (pool : Pool) (hosts : List String) (k : String) (ip : ℕ) (s : Allocation)
    → ((keep pool hosts k ip s).result ≡ s.result) × ((keep pool hosts k ip s).used ≡ s.used)
      ⊎ (contains hosts k ≡ true) × (keep pool hosts k ip s ≡ take_ip k ip s)
unfolding keep
keep_cases pool hosts k ip s = elim (Bool-cases (contains hosts k)) [
  | inr other ↦ inl (rw (other, keep) refl, rw (other, keep) refl)
  | inl ours ↦ elim (Bool-cases (unusable pool ip)) [
    | inl bad ↦ inl (rw (ours, bad, keep) refl, rw (ours, bad, keep) refl)
    | inr good ↦ elim (Bool-cases (contains s.used ip)) [
      | inl twice ↦ inl (rw (ours, good, twice, keep) refl, rw (ours, good, twice, keep) refl)
      | inr once ↦ inr (ours, rw (ours, good, once, keep) refl)
    ]
  ]
]

keep-AllNew :
    (pool : Pool) (hosts : List String) (k : String) (ip : ℕ) (s : Allocation)
    (existing : Map String ℕ)
    → lookup k existing ≡ none
    → AllNew s.result existing
    → AllNew (keep pool hosts k ip s).result existing
keep-AllNew pool hosts k ip s existing once new = elim (keep_cases pool hosts k ip s) [
  | inl (same, _) ↦ rw same new
  | inr (_, taken) ↦ rw taken (insert-AllNew k ip s.result existing once new)
]

keep-IsCounted :
    (pool : Pool) (hosts : List String) (k : String) (ip : ℕ) (s : Allocation)
    → lookup k s.result ≡ none
    → IsCounted hosts s.result s.used
    → IsCounted hosts (keep pool hosts k ip s).result (keep pool hosts k ip s).used
keep-IsCounted pool hosts k ip s new c = elim (keep_cases pool hosts k ip s) [
  | inl (same, used) ↦ rw (same, used) c
  | inr (ours, taken) ↦ rw taken (insert-IsCounted hosts k ip ip s.result s.used ours new c)
]

pub keep_existing-IsCounted :
    (pool : Pool) (hosts : List String) (existing : Map String ℕ) (s : Allocation)
    → NodupKeys existing
    → AllNew s.result existing
    → IsCounted hosts s.result s.used
    → IsCounted hosts
        (keep_existing pool hosts existing s).result
        (keep_existing pool hosts existing s).used
unfolding keep_existing
keep_existing-IsCounted pool hosts [] s d a c = c
keep_existing-IsCounted pool hosts ((k, ip) ∷ existing) s d a c =
    keep_existing-IsCounted pool hosts existing (keep pool hosts k ip s) d.1
      (keep-AllNew pool hosts k ip s existing d.0 a.1) (keep-IsCounted pool hosts k ip s a.0 c)
