-- ===== src/Agent/Model.antt =====
-- coold/src/model.rs: what the agent knows of containers, and the differences that it reports. The
-- source has one delta type and one `diff` for endpoints and one for container statuses; both are
-- instances of the ones here.
pub mod Converges
use coold.Prelude.{
  ltb, leb, if◌then◌else◌, Bool-cases, Option-cases, and_then, Eq, String-discrete, string_eq,
  nat_eq, ◌==◌, ==_iff, ==_refl, contains, length, length-append, filter, any, length-filter-le,
  All, Map, lookup, insert, remove, contains_key, HasKey, NodupKeys, lookup-insert, lookup-remove,
  insert-NodupKeys, remove-NodupKeys, remove_absent, length-insert, length-remove-le, map_laws,
  str_leb, insert_sorted, sort_by_key, lookup-sort_by_key, sort_by_key-NodupKeys, Result, ok, err,
  ◌>>=◌, Result-cases, ok_or, ok_only, is_empty, strip_prefix, starts_with, strip_suffix, ends_with,
  contains_text, is_whitespace, trim_is_empty, trim_start, trim_end, trim, trim_slashes,
  utf8_length, byte_length, all_chars, is_alphanumeric, take_until, take_until_text, after_text,
  after_last, ℕ, zero, suc, ◌+◌, ◌-◌, ◌*◌, ◌/◌, ◌%◌, ◌^◌, ◌≤◌, ◌<◌, min, String, ◌≡◌, refl, sym, ap,
  ◌∙◌, ◌≢◌, ◌↔◌, ◌⊎◌, inl, inr, ite, if_pos, if_neg, Bool, true, false, ◌&&◌, ◌||◌, not, Option,
  none, some, List, [], ◌∷◌, ◌++◌, map, arith,
}

pub record ContainerStatus : Type 0 where
  pub container_id : String
  pub container_name : String
  pub image : String
  pub state : String

pub record Endpoint : Type 0 where
  pub container_id : String
  pub container_name : String
  pub namespace : String
  pub host_mgmt_ip : String
  pub container_ip : String
  pub state : String
  pub health : String

unfoldable pub ContainerStatus-discrete : Discrete ContainerStatus
unfolding String-discrete
ContainerStatus-discrete = hlevel String-discrete

unfoldable pub Endpoint-discrete : Discrete Endpoint
unfolding String-discrete
Endpoint-discrete = hlevel String-discrete

instance abbrev pub container_status_eq : Eq ContainerStatus
container_status_eq = record { dec = ContainerStatus-discrete }

instance abbrev pub endpoint_eq : Eq Endpoint
endpoint_eq = record { dec = Endpoint-discrete }

pub data Delta (V : Type 0) : Type 0 where
  upsert : V → Delta V
  delete : String → Delta V

module _ {V : Type 0} ⦃e : Eq V⦄ where
  -- The first loop of `diff`.
  unfoldable pub upserts : Map String V → Map String V → List (Delta V)
  upserts [] current = []
  upserts ((id, v) ∷ desired) current =
      let rest = upserts desired current in
      elim (lookup id current) [
        | some existing ↦ if existing == v then rest else upsert v ∷ rest
        | none ↦ upsert v ∷ rest
      ]

  -- The second loop.
  unfoldable pub deletes : Map String V → Map String V → List (Delta V)
  unfolding contains_key
  deletes desired [] = []
  deletes desired ((id, _) ∷ current) =
      let rest = deletes desired current in
      if not (contains_key id desired) then delete id ∷ rest else rest

  unfoldable pub diff_maps : Map String V → Map String V → List (Delta V)
  unfolding upserts deletes
  diff_maps desired current = upserts desired current ++ deletes desired current

unfoldable pub diff : Map String Endpoint → Map String Endpoint → List (Delta Endpoint)
unfolding diff_maps
diff desired current = diff_maps desired current

unfoldable pub diff_container_statuses :
    Map String ContainerStatus → Map String ContainerStatus → List (Delta ContainerStatus)
unfolding diff_maps
diff_container_statuses desired current = diff_maps desired current
