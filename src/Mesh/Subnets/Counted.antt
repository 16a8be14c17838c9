-- ===== src/Mesh/Subnets/Counted.antt =====
-- How many subnets `allocate` (coolify-cli/src/wireguard/subnet.rs) has used so far.
use native.Mathlib.Nat.{mul-le-mul_right}
use coold.Prelude.{
  Bool-cases, Option-cases, string_eq, nat_eq, contains, length, length-append, Map, lookup, insert,
  NodupKeys, insert-NodupKeys, ℕ, suc, ◌+◌, ◌*◌, ◌≤◌, ◌<◌, String, ◌≡◌, refl, ap, ◌⊎◌, inl, inr,
  true, none, List, [], ◌∷◌, map, arith,
}
use coold.Prelude.Counting.{steps_on_list, IsCounted, insert-IsCounted, AllNew, insert-AllNew}
use coold.Mesh.Subnets.{
  NetLibrary, Subnets, take_net, misplaced, keep_net, keep_nets, net_key, existing_at,
  collect_hosts, collect_existing, keys_of,
}
use coold.Mesh.Subnets.Steps.{IsFull}

-- So many subnets do not fit between the first and the last address.
abbrev pub AreTooMany : ℕ → ℕ → ℕ → ℕ → Type 0
AreTooMany first last step total = last + 1 < first + total * step

pub IsFull-AreTooMany :
    (first last step total : ℕ) (used : List ℕ)
    → 0 < step
    → length used < total
    → IsFull last used step first
    → AreTooMany first last step total
IsFull-AreTooMany first last step total used w room (c, past, all) =
    let most = steps_on_list first step c used w all in
    let less : c + 1 ≤ total = omega (arith, most, room) in
    omega (arith, past, w, mul-le-mul_right step less)

module _ (lib : NetLibrary) where
  open lib use {Net, network}

  keep_net_cases :
      (pool : Net) (prefix : ℕ) (hosts : List String) (k : String) (net : Net) (s : Subnets Net)
      → ((keep_net lib pool prefix hosts k net s).result ≡ s.result)
          × ((keep_net lib pool prefix hosts k net s).used ≡ s.used)
        ⊎ (contains hosts k ≡ true)
          × (keep_net lib pool prefix hosts k net s ≡ take_net lib k (network net) net s)
  unfolding keep_net
  keep_net_cases pool prefix hosts k net s = elim (Bool-cases (contains hosts k)) [
    | inr other ↦ inl (rw (other, keep_net) refl, rw (other, keep_net) refl)
    | inl ours ↦ elim (Bool-cases (misplaced lib pool prefix net)) [
      | inl bad ↦ inl (rw (ours, bad, keep_net) refl, rw (ours, bad, keep_net) refl)
      | inr good ↦ elim (Bool-cases (contains s.used (network net))) [
        | inl twice ↦
            inl (rw (ours, good, twice, keep_net) refl, rw (ours, good, twice, keep_net) refl)
        | inr once ↦ inr (ours, rw (ours, good, once, keep_net) refl)
      ]
    ]
  ]

  keep_net-AllNew :
      (pool : Net) (prefix : ℕ) (hosts : List String) (k : String) (net : Net) (s : Subnets Net)
      (existing : Map String Net)
      → lookup k existing ≡ none
      → AllNew s.result existing
      → AllNew (keep_net lib pool prefix hosts k net s).result existing
  keep_net-AllNew pool prefix hosts k net s existing once new =
      elim (keep_net_cases pool prefix hosts k net s) [
        | inl (same, _) ↦ rw same new
        | inr (_, taken) ↦ rw taken (insert-AllNew k net s.result existing once new)
      ]

  keep_net-IsCounted :
      (pool : Net) (prefix : ℕ) (hosts : List String) (k : String) (net : Net) (s : Subnets Net)
      → lookup k s.result ≡ none
      → IsCounted hosts s.result s.used
      → IsCounted hosts
          (keep_net lib pool prefix hosts k net s).result
          (keep_net lib pool prefix hosts k net s).used
  keep_net-IsCounted pool prefix hosts k net s new c =
      elim (keep_net_cases pool prefix hosts k net s) [
        | inl (same, used) ↦ rw (same, used) c
        | inr (ours, taken) ↦
            rw taken (insert-IsCounted hosts k net (network net) s.result s.used ours new c)
      ]

  pub keep_nets-IsCounted :
      (pool : Net) (prefix : ℕ) (hosts : List String) (existing : Map String Net) (s : Subnets Net)
      → NodupKeys existing
      → AllNew s.result existing
      → IsCounted hosts s.result s.used
      → IsCounted hosts
          (keep_nets lib pool prefix hosts existing s).result
          (keep_nets lib pool prefix hosts existing s).used
  unfolding keep_nets
  keep_nets-IsCounted pool prefix hosts [] s d a c = c
  keep_nets-IsCounted pool prefix hosts ((k, net) ∷ existing) s d a c =
      keep_nets-IsCounted pool prefix hosts existing (keep_net lib pool prefix hosts k net s) d.1
        (keep_net-AllNew pool prefix hosts k net s existing d.0 a.1)
        (keep_net-IsCounted pool prefix hosts k net s a.0 c)

  -- What is collected of the subnets that exist has no key twice.
  collect_hosts-NodupKeys :
      (existing : Map String (Map String Net)) (ns : String) (hosts : List String)
      (m : Map String Net)
      → NodupKeys m
      → NodupKeys (collect_hosts lib existing ns hosts m)
  unfolding collect_hosts
  collect_hosts-NodupKeys existing ns [] m d = d
  collect_hosts-NodupKeys existing ns (h ∷ hosts) m d =
      elim (Option-cases (existing_at lib existing ns h)) [
        | inl miss ↦ rw miss (collect_hosts-NodupKeys existing ns hosts m d)
        | inr (net, hit) ↦ rw hit (
            collect_hosts-NodupKeys existing ns hosts (insert (net_key lib ns h) net m)
              (insert-NodupKeys (net_key lib ns h) net m d))
      ]

  pub collect_existing-NodupKeys :
      (existing : Map String (Map String Net)) (namespaces hosts : List String) (m : Map String Net)
      → NodupKeys m
      → NodupKeys (collect_existing lib existing namespaces hosts m)
  unfolding collect_existing
  collect_existing-NodupKeys existing [] hosts m d = d
  collect_existing-NodupKeys existing (ns ∷ namespaces) hosts m d =
      collect_existing-NodupKeys existing namespaces hosts (collect_hosts lib existing ns hosts m)
        (collect_hosts-NodupKeys existing ns hosts m d)

  length-map : {A B : Type 0} → (f : A → B) (xs : List A) → length (map f xs) ≡ length xs
  length-map f [] = refl
  length-map f (x ∷ xs) = ap (λ n. suc n) (length-map f xs)

  pub length-keys_of :
      (namespaces hosts : List String)
      → length (keys_of lib namespaces hosts) ≡ length namespaces * length hosts
  unfolding keys_of
  length-keys_of [] hosts = omega arith
  length-keys_of (ns ∷ namespaces) hosts =
      let here = length-map (λ h. net_key lib ns h) hosts in
      let rest = length-keys_of namespaces hosts in
      let both = length-append (map (λ h. net_key lib ns h) hosts) (keys_of lib namespaces hosts) in
      omega (arith, here, rest, both)
