-- ===== src/Flux/Capabilities.antt =====
-- The capabilities of a stream: `capability_profile_authorizes_all`, `contains_wildcard_profile`,
-- `effective_capabilities`, `missing_capabilities` and `schema_overlaps` of `grpc_server` in
-- flux/src/main.rs.
use coold.Prelude.{
  leb, if◌then◌else◌, string_eq, nat_eq, ◌==◌, contains, filter, any, ℕ, String, ◌≡◌, refl, Bool,
  false, ◌&&◌, ◌||◌, not, List, [], ◌∷◌, arith,
}

unfoldable pub capability_profile_authorizes_all : String → Bool
capability_profile_authorizes_all capability =
    capability == "*" || (capability == "host-agent:dev" || capability == "host-agent:default")

unfoldable pub contains_wildcard_profile : List String → Bool
contains_wildcard_profile jwt_caps = any capability_profile_authorizes_all jwt_caps

unfoldable pub effective_capabilities : List String → List String → Bool → List String
unfolding contains_wildcard_profile
effective_capabilities advertised jwt_caps allow_wildcard =
    if allow_wildcard && contains_wildcard_profile jwt_caps
    then advertised
    else filter (λ capability. contains jwt_caps capability) advertised

unfoldable pub missing_capabilities : List String → List String → List String
missing_capabilities advertised effective =
    filter (λ capability. not (contains effective capability)) advertised

abbrev pub flux_schema_min : ℕ
flux_schema_min = 1

abbrev pub flux_schema_max : ℕ
flux_schema_max = 1

unfoldable pub schema_overlaps : ℕ → ℕ → ℕ → ℕ → Bool
schema_overlaps coold_min coold_max flux_min flux_max =
    leb coold_min flux_max && leb flux_min coold_max

pub contains-filter :
    (p : String → Bool) (c : String) (xs : List String)
    → contains (filter p xs) c ≡ (contains xs c && p c)
unfolding contains filter
contains-filter p c [] = refl
contains-filter p c (x ∷ xs) = ground (arith, contains-filter p c xs)

-- Without the wildcard escape hatch, a stream is authorized for a capability exactly if the host
-- advertised it and the token lists it by name.
pub effective_capabilities_strict :
    (advertised jwt_caps : List String) (c : String)
    → contains (effective_capabilities advertised jwt_caps false) c
      ≡ (contains advertised c && contains jwt_caps c)
unfolding effective_capabilities
effective_capabilities_strict advertised jwt_caps c = contains-filter _ c advertised

-- Whatever the token, a stream is never authorized for what the host did not advertise, and what
-- is reported as missing is exactly what was advertised and not authorized.
missing_capabilities_exact :
    (advertised jwt_caps : List String) (allow_wildcard : Bool) (c : String)
    → (contains (effective_capabilities advertised jwt_caps allow_wildcard) c
          && not (contains advertised c)
        ≡ false)
      × (contains
            (missing_capabilities advertised
              (effective_capabilities advertised jwt_caps allow_wildcard))
            c
          ≡ (contains advertised c
              && not (contains (effective_capabilities advertised jwt_caps allow_wildcard) c)))
unfolding missing_capabilities effective_capabilities
missing_capabilities_exact advertised jwt_caps allow_wildcard c = (
  ground (arith, contains-filter (λ d. contains jwt_caps d) c advertised),
  contains-filter _ c advertised,
)
