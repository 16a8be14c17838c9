-- ===== src/Tests/Subnets.antt =====
-- The subnets of two namespaces (coolify-cli/src/wireguard/subnet.rs), with a small library for
-- networks.
use native.Mathlib.Nat.{mul-mod_left, mod-add-div'}
use coold.Prelude.{
  leb, if◌then◌else◌, String-discrete, string_eq, nat_eq, lookup, insert, ok, ℕ, ◌+◌, ◌-◌, ◌*◌, ◌/◌,
  String, ◌≡◌, refl, ◌&&◌, none, some, List, [], ◌∷◌, arith,
}
use coold.Mesh.Subnets.{
  NetLibrary, step_of, search_subnet, keep_nets, assign_nets, allocate, allocate_namespaced,
}
use coold.Mesh.Subnets.Laws.{PoolLaws}
use coold.Mesh.Subnets.Allocated.{AllocateEnds, allocate_lem}
use coold.Mesh.Subnets.Namespaces.{NamespacedEnds, allocate_namespaced_lem}

abbrev pub start_of : ℕ × ℕ → ℕ
start_of (address, prefix) = (address / step_of prefix) * step_of prefix

-- An address with the length of a prefix.
abbrev pub nets : NetLibrary
nets = record {
  Net = ℕ × ℕ;
  network = start_of;
  broadcast = λ net. (start_of net + step_of net.1) - 1;
  prefix_len = λ net. net.1;
  holds = λ net ip. leb (start_of net) ip && leb ip ((start_of net + step_of net.1) - 1);
  new_net = λ address prefix. if leb prefix 32 then some (address, prefix) else none;
}

-- 10.0.0.0/28
abbrev pub pool : ℕ × ℕ
pool = (167772160, 28)

pub nets_laws : PoolLaws nets pool 30
unfolding step_of native.Mathlib.Decide.ℕ_discrete
nets_laws = record {
  starts = λ fits small. refl;
  ends = λ fits small. refl;
  within = λ ip. refl;
  even = λ net size. rw size (mul-mod_left (net.0 / step_of 30) (step_of 30));
  sized = λ net size. rw size (omega arith);
  created = λ n short small even. ((n, 30), refl, refl, omega (arith, even, mod-add-div' n 4));
}

allocate_lem_example :
    AllocateEnds nets pool 30
      ("a" ∷ "b" ∷ [])
      (allocate nets pool 30 (("b", (167772164, 30)) ∷ []) ("a" ∷ "b" ∷ []))
unfolding native.Mathlib.Decide.ℕ_discrete
allocate_lem_example =
    allocate_lem nets pool 30 (("b", (167772164, 30)) ∷ []) ("a" ∷ "b" ∷ []) nets_laws
      (unfold step_of in omega arith) (unfold lookup in (refl, tt))

both_served :
    allocate nets pool 30 (("b", (167772160, 30)) ∷ []) ("a" ∷ "b" ∷ [])
    ≡ ok (record {
      result = ("b", (167772160, 30)) ∷ ("a", (167772164, 30)) ∷ [];
      used = 167772164 ∷ 167772160 ∷ [];
      warnings = [];
    })
unfolding allocate assign_nets keep_nets step_of search_subnet String-discrete lookup
    native.Mathlib.Decide.ℕ_discrete insert
both_served = refl

abbrev two_namespaces : List String
two_namespaces = "prod" ∷ "dev" ∷ []

allocate_namespaced_lem_example :
    NamespacedEnds nets pool 30 two_namespaces
      ("a" ∷ "b" ∷ [])
      (allocate_namespaced nets pool 30 [] two_namespaces ("a" ∷ "b" ∷ []))
unfolding native.Mathlib.Decide.ℕ_discrete
allocate_namespaced_lem_example =
    allocate_namespaced_lem nets pool 30 [] two_namespaces ("a" ∷ "b" ∷ []) nets_laws
      (unfold step_of in omega arith)
