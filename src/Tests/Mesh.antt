-- ===== src/Tests/Mesh.antt =====
-- A mesh that is extended, and the addresses of its hosts (coolify-cli/src/wireguard).
use coold.Prelude.{
  String-discrete, string_eq, nat_eq, filter, Map, lookup, ℕ, String, ◌≡◌, refl, ◌↔◌, ◌⊎◌, false,
  none, List, [], ◌∷◌, ◌++◌, map, arith,
}
use coold.Mesh.Intent.{
  ActionType, write_config, install_coold, write_corrosion_schema, PlannedAction, SkippedAction,
  Plan, extend, DesiredMesh, validate_intent, filter_by_intent,
}
use coold.Mesh.Intent.Filtered.{permitted, Woven, filter_by_intent_lem, filter_by_intent-Woven}
use coold.Mesh.Intent.Validity.{IsSound, validate_intent_lem}
use coold.Prelude.Counting.{AllDistinct}
use coold.Mesh.Addresses.Names.{IsTwice}
use coold.Mesh.Addresses.{Pool, allocate_mgmt_ips, failed, duplicate_host}
use coold.Mesh.Addresses.Assigned.{Finished, allocate_mgmt_ips_lem}

abbrev extended : DesiredMesh
extended = record {
  nodes = "old" ∷ "new" ∷ [];
  coold_version = "v1";
  corrosion_version = "v1";
  intent = extend;
  new_nodes = "new" ∷ [];
  allow_replace = false;
  allow_nightly = false;
}

abbrev planned : String → ActionType → PlannedAction
planned host action_type = record {
  host = host;
  namespace = "";
  action_type = action_type;
  detail = "schema drift: DB will be reset";
}

abbrev the_plan : Plan
the_plan = record {
  actions =
      planned "old" write_config
      ∷ planned "old" write_corrosion_schema
      ∷ planned "old" install_coold
      ∷ planned "new" install_coold
      ∷ [];
  skipped = [];
}

filter_by_intent_lem_example :
    (filter_by_intent the_plan extended).actions ≡ filter (permitted extended) the_plan.actions
filter_by_intent_lem_example = filter_by_intent_lem the_plan extended

filter_by_intent-Woven_example :
    (newly : List SkippedAction) × ((filter_by_intent the_plan extended).skipped
      ≡ the_plan.skipped ++ newly)
    × Woven
        (filter_by_intent the_plan extended).actions
        (map (λ (s : SkippedAction). s.action) newly)
        the_plan.actions
filter_by_intent-Woven_example = filter_by_intent-Woven the_plan extended

validate_intent_lem_example : (validate_intent extended ≡ none) ↔ IsSound extended extend
validate_intent_lem_example = validate_intent_lem extended

abbrev small_pool : Pool
small_pool = record { network = 100; broadcast = 103 }

abbrev named : Map String ℕ
named = ("a", 102) ∷ ("b", 102) ∷ ("c", 7) ∷ []

allocate_mgmt_ips_lem_example :
    ((h : String) × IsTwice h ("a" ∷ "b" ∷ [])
      × (allocate_mgmt_ips small_pool named ("a" ∷ "b" ∷ []) ≡ failed (duplicate_host h)))
    ⊎ (AllDistinct {A = String} ("a" ∷ "b" ∷ [])
        × Finished small_pool 2
            ("a" ∷ "b" ∷ [])
            (allocate_mgmt_ips small_pool named ("a" ∷ "b" ∷ [])))
allocate_mgmt_ips_lem_example =
    allocate_mgmt_ips_lem small_pool named ("a" ∷ "b" ∷ []) (omega arith) (omega arith)
      (unfold lookup String-discrete in (refl, (refl, (refl, tt))))
