-- ===== src/Mesh/Requests/Safe.antt =====
-- What `build_desired` (coolify-cli/src/commands/init/mod.rs) lets through.
use coold.Prelude.{
  Bool-cases, string_eq, nat_eq, contains, All, Result, ok, err, ◌>>=◌, ok_or, String, ◌≡◌, refl,
  inl, inr, Bool, true, false, Option, none, some, List, [], ◌∷◌, arith,
}
use coold.Mesh.Intent.{Intent}
use coold.Mesh.Subnets.{NetLibrary}
use coold.Mesh.State.{TlsPair, MeshRequest}
use coold.Mesh.Planning.{no_items}
use coold.Mesh.Requests.{
  BaseInitFlags, FlagError, pool_invalid, is_label, is_name, require, bad_namespace,
  validate_namespaces, clean_hosts, mesh_hosts, parse_port_overrides, parse_endpoint_overrides,
  gossip_tls_of, flux_tls_of, assemble, build_desired,
}

bind_ok :
    {E A B : Type 0}
    → (x : Result E A) (f : A → Result E B) (b : B) → (x >>= f) ≡ ok b
    → (a : A) × (x ≡ ok a) × (f a ≡ ok b)
bind_ok (ok a) f b e = (a, refl, e)
bind_ok (err e) f b h = absurd (ground (arith, h))

require_ok :
    {A : Type 0}
    → (b : Bool) (e : FlagError) (rest : Result FlagError A) (a : A) → require b e rest ≡ ok a
    → (b ≡ true) × (rest ≡ ok a)
unfolding require
require_ok true e rest a h = (refl, h)
require_ok false e rest a h = absurd (ground (arith, h))

unless_some :
    {A : Type 0}
    → (o : Option FlagError) (rest : Result FlagError A) (a : A)
    → (elim o [ some e ↦ err e | none ↦ rest ]) ≡ ok a
    → (o ≡ none) × (rest ≡ ok a)
unless_some none rest a h = (refl, h)
unless_some (some e) rest a h = absurd (ground (arith, h))

bad_namespace-none :
    (seen namespaces : List String)
    → bad_namespace seen namespaces ≡ none
    → All (λ ns. is_label ns ≡ true) namespaces
unfolding bad_namespace
bad_namespace-none seen [] h = tt
bad_namespace-none seen (ns ∷ namespaces) h = elim (Bool-cases (is_label ns)) [
  | inr bad ↦ absurd (ground (arith, h, bad))
  | inl good ↦ elim (Bool-cases (contains seen ns)) [
    | inl twice ↦ absurd (ground (arith, h, good, twice))
    | inr once ↦ (good, bad_namespace-none (ns ∷ seen) namespaces (ground (arith, h, good, once)))
  ]
]

-- Names that no shell and no unit file takes for more than a name.
pub record IsSafe {Net : Type 0} (r : MeshRequest Net) : Type 0 where
  pub interface : is_name 14 r.interface ≡ true
  pub coold : is_name 63 r.desired.coold_version ≡ true
  pub corrosion : is_name 63 r.desired.corrosion_version ≡ true
  pub namespaces : All (λ ns. is_label ns ≡ true) r.namespaces

validate_namespaces-none :
    (namespaces : List String)
    → validate_namespaces namespaces ≡ none
    → All (λ ns. is_label ns ≡ true) namespaces × (no_items namespaces ≡ false)
unfolding validate_namespaces
validate_namespaces-none [] h = absurd (ground (arith, h))
validate_namespaces-none (ns ∷ namespaces) h = (bad_namespace-none [] (ns ∷ namespaces) h, refl)

ok-transport :
    {A : Type 0} → (P : A → Type 0) (a b : A) → Path (Result FlagError A) (ok a) (ok b) → P a → P b
ok-transport P a b h p = let eq : a ≡ b = ground (arith, h) in rw eq at p

-- What the flags must be, and what is then desired.
abbrev pub IsFrom : {Net : Type 0} → BaseInitFlags → MeshRequest Net → Type 0
IsFrom base r =
    (r.interface ≡ base.wg_interface)
    × (r.desired.coold_version ≡ base.coold_version)
    × (r.desired.corrosion_version ≡ base.corrosion_version)
    × (r.namespaces ≡ base.namespaces)
    × (r.install_podman ≡ true)
    × (r.install_coold ≡ true)

module _ (lib : NetLibrary) (parse_net : String → Option lib.Net)
    (self_signed : String → List String → Option TlsPair)
    (to_ascii_lowercase : String → String) where
  open lib use {Net}

  assemble-IsFrom :
      (base : BaseInitFlags) (intent : Intent) (new_nodes : List String) (replace nightly : Bool)
      (gossip : Option TlsPair) (flux : Option TlsPair × Option String) (r : MeshRequest Net)
      → assemble lib parse_net self_signed to_ascii_lowercase base intent new_nodes replace nightly
          gossip flux
        ≡ ok r
      → IsFrom base r
  unfolding assemble
  assemble-IsFrom base intent new_nodes replace nightly gossip flux r h =
      let (_, h₁) = require_ok _ _ _ r h in
      let (hosts, _, h₂) = bind_ok (mesh_hosts [] (clean_hosts base.nodes)) _ r h₁ in
      let (ports, _, h₃) = bind_ok (parse_port_overrides base.wg_listen_port_overrides []) _ r h₂ in
      let (ends, _, h₄) = bind_ok (parse_endpoint_overrides base.wg_endpoint_overrides []) _ r h₃ in
      let (mgmt, _, h₅) = bind_ok (ok_or (parse_net base.wg_mgmt_pool) pool_invalid) _ r h₄ in
      let (pool, _, h₆) = bind_ok (ok_or (parse_net base.container_pool) pool_invalid) _ r h₅ in
      ok-transport (λ s. IsFrom base s) _ r h₆ (refl, refl, refl, refl, refl, refl)

  -- If the flags make a request, its interface, versions and namespaces are names of the characters
  -- that the checks allow.
  pub build_desired-IsSafe :
      (base : BaseInitFlags) (intent : Intent) (new_nodes : List String) (replace nightly : Bool)
      (r : MeshRequest Net)
      → build_desired lib parse_net self_signed to_ascii_lowercase base intent new_nodes replace
          nightly
        ≡ ok r
      → IsSafe r
  unfolding build_desired
  build_desired-IsSafe base intent new_nodes replace nightly r h =
      let (_, h₁) = require_ok _ _ _ r h in
      let (named, h₂) = unless_some (validate_namespaces base.namespaces) _ r h₁ in
      let (interface, h₃) = require_ok (is_name 14 base.wg_interface) _ _ r h₂ in
      let (coold_ok, h₄) = require_ok (is_name 63 base.coold_version) _ _ r h₃ in
      let (corrosion_ok, h₅) = require_ok (is_name 63 base.corrosion_version) _ _ r h₄ in
      let (gossip, _, h₆) =
        bind_ok (gossip_tls_of lib parse_net self_signed to_ascii_lowercase base) _ r h₅ in
      let (flux, _, h₇) =
        bind_ok (flux_tls_of lib parse_net self_signed to_ascii_lowercase base) _ r h₆ in
      let (a, b, c, d, _, _) =
        assemble-IsFrom base intent new_nodes replace nightly gossip flux r h₇ in
      let (labels, _) = validate_namespaces-none base.namespaces named in
      record {
        interface = rw a interface;
        coold = rw b coold_ok;
        corrosion = rw c corrosion_ok;
        namespaces = rw d labels;
      }
