-- ===== src/Agent/Podman.antt =====
-- What coold/src/sync.rs reads of Podman's answers (coold/src/podman/types.rs) and of the
-- namespaces (coold/src/config.rs), and the helpers on texts and options that it reads them with.
use coold.Prelude.{
  if◌then◌else◌, string_eq, nat_eq, Map, is_empty, String, Option, none, some, List, [], ◌∷◌,
}

pub record NetworkEntry : Type 0 where
  pub ip_address : String

pub record ContainerState : Type 0 where
  pub status : String
  pub health : Option String

pub record ContainerInspect : Type 0 where
  pub id : String
  pub name : String
  pub networks : Option (Map String NetworkEntry)
  pub state : Option ContainerState

pub record Container : Type 0 where
  pub id : String
  pub names : List String
  pub image : String
  pub state : String

-- A managed namespace: its name and its Podman network.
pub record NamespaceConfig : Type 0 where
  pub name : String
  pub network : String

-- `Option::filter`, for a test that a text is not empty
abbrev pub non_empty : Option String → Option String
non_empty none = none
non_empty (some s) = if is_empty s then none else some s

abbrev pub or_else {ℓ} : {A : Type ℓ} → Option A → Option A → Option A
or_else none o = o
or_else (some a) o = some a

abbrev pub unwrap_or {ℓ} : {A : Type ℓ} → Option A → A → A
unwrap_or none d = d
unwrap_or (some a) d = a

abbrev pub first {ℓ} : {A : Type ℓ} → List A → Option A
first [] = none
first (x ∷ xs) = some x
