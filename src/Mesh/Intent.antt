-- ===== src/Mesh/Intent.antt =====
-- coolify-cli/src/wireguard/intent.rs, with the actions of plan.rs beside it: which planned actions
-- an intent lets through. Of `Plan` and `DesiredMesh` there are the fields that this code reads or
-- writes; the texts of errors and reasons are constructors.
pub mod Filtered
pub mod Validity
use coold.Prelude.{
  ltb, leb, if◌then◌else◌, Bool-cases, Option-cases, and_then, Eq, String-discrete, string_eq,
  nat_eq, ◌==◌, ==_iff, ==_refl, contains, length, length-append, filter, any, length-filter-le,
  All, Map, lookup, insert, remove, contains_key, HasKey, NodupKeys, lookup-insert, lookup-remove,
  insert-NodupKeys, remove-NodupKeys, remove_absent, length-insert, length-remove-le, map_laws,
  str_leb, insert_sorted, sort_by_key, lookup-sort_by_key, sort_by_key-NodupKeys, Result, ok, err,
  ◌>>=◌, Result-cases, ok_or, ok_only, is_empty, strip_prefix, starts_with, strip_suffix, ends_with,
  contains_text, is_whitespace, trim_is_empty, trim_start, trim_end, trim, trim_slashes,
  utf8_length, byte_length, all_chars, is_alphanumeric, take_until, take_until_text, after_text,
  after_last, ℕ, zero, suc, ◌+◌, ◌-◌, ◌*◌, ◌/◌, ◌%◌, ◌^◌, ◌≤◌, ◌<◌, min, String, ◌≡◌, refl, sym, ap,
  ◌∙◌, ◌≢◌, ◌↔◌, ◌⊎◌, inl, inr, ite, if_pos, if_neg, Bool, true, false, ◌&&◌, ◌||◌, not, Option,
  none, some, List, [], ◌∷◌, ◌++◌, map, arith,
}

pub data ActionType : Type 0 where
  install_wg gen_key_pair allocate_mgmt_ip allocate_container_subnet write_config : ActionType
  enable_service reload_service add_peer remove_peer install_podman : ActionType
  enable_podman_socket enable_ip_forward create_podman_network : ActionType
  recreate_podman_network install_firewall install_corrosion install_coold : ActionType
  write_corrosion_config write_corrosion_schema install_corrosion_service : ActionType
  install_coold_service : ActionType

pub record PlannedAction : Type 0 where
  pub host : String
  pub namespace : String
  pub action_type : ActionType
  pub detail : String

pub data SkipReason : Type 0 where
  extend_replace extend_version_bump extend_wipe : SkipReason
  upgrade_peer_refresh upgrade_other : SkipReason

pub record SkippedAction : Type 0 where
  pub action : PlannedAction
  pub reason : SkipReason

pub record Plan : Type 0 where
  pub actions : List PlannedAction
  pub skipped : List SkippedAction

pub data Intent : Type 0 where
  bootstrap extend upgrade : Intent

pub data Category : Type 0 where
  safe_always peer_refresh destructive_replace version_bump wipe_db schema_first_write : Category

pub record DesiredMesh : Type 0 where
  pub nodes : List String
  pub coold_version : String
  pub corrosion_version : String
  pub intent : Intent
  pub new_nodes : List String
  pub allow_replace : Bool
  pub allow_nightly : Bool

abbrev pub resets_db : PlannedAction → Bool
resets_db a = contains_text "DB will be reset" a.detail

unfoldable pub categorize : PlannedAction → Category
categorize a = elim a.action_type [
  | install_wg ↦ safe_always
  | gen_key_pair ↦ safe_always
  | allocate_mgmt_ip ↦ safe_always
  | allocate_container_subnet ↦ safe_always
  | enable_service ↦ safe_always
  | install_podman ↦ safe_always
  | enable_podman_socket ↦ safe_always
  | enable_ip_forward ↦ safe_always
  | create_podman_network ↦ safe_always
  | add_peer ↦ safe_always
  | remove_peer ↦ safe_always
  | write_config ↦ peer_refresh
  | reload_service ↦ peer_refresh
  | install_firewall ↦ peer_refresh
  | write_corrosion_config ↦ peer_refresh
  | install_corrosion_service ↦ peer_refresh
  | install_coold_service ↦ peer_refresh
  | recreate_podman_network ↦ destructive_replace
  | install_corrosion ↦ version_bump
  | install_coold ↦ version_bump
  | write_corrosion_schema ↦ if resets_db a then wipe_db else schema_first_write
]

pub data IntentError : Type 0 where
  no_new_nodes : IntentError
  not_in_nodes : String → IntentError
  nightly_version : String → IntentError

-- The first of `new_nodes` that is not in `nodes`.
unfoldable pub first_unlisted : List String → List String → Option IntentError
first_unlisted [] nodes = none
first_unlisted (h ∷ new_nodes) nodes =
    let rest = first_unlisted new_nodes nodes in
    if contains nodes h then rest else some (not_in_nodes h)

-- `none` is `Ok`.
unfoldable pub validate_intent : DesiredMesh → Option IntentError
unfolding first_unlisted
validate_intent d = elim d.intent [
  | bootstrap ↦ none
  | extend ↦ elim d.new_nodes [ [] ↦ some no_new_nodes | h ∷ hs ↦ first_unlisted (h ∷ hs) d.nodes ]
  | upgrade ↦ if d.allow_nightly then none else elim d.nodes [
    | [] ↦ none
    | _ ∷ _ ↦
        if d.coold_version == "nightly"
        then some (nightly_version "--coold-version")
        else if d.corrosion_version == "nightly"
        then some (nightly_version "--corrosion-version")
        else none
  ]
]

-- `matches!(a.action_type, InstallCorrosionService | InstallCooldService)`
unfoldable pub installs_service : ActionType → Bool
installs_service install_corrosion_service = true
installs_service install_coold_service = true
installs_service _ = false

unfoldable pub decide_extend : PlannedAction → DesiredMesh → Option SkipReason
unfolding categorize
decide_extend a d = elim (categorize a) [
  | safe_always ↦ none
  | peer_refresh ↦ none
  | schema_first_write ↦ none
  | destructive_replace ↦ if d.allow_replace then none else some extend_replace
  | version_bump ↦ some extend_version_bump
  | wipe_db ↦ some extend_wipe
]

unfoldable pub decide_upgrade : PlannedAction → Option SkipReason
unfolding categorize installs_service
decide_upgrade a = elim (categorize a) [
  | version_bump ↦ none
  | peer_refresh ↦ if installs_service a.action_type then none else some upgrade_peer_refresh
  | safe_always ↦ some upgrade_other
  | destructive_replace ↦ some upgrade_other
  | wipe_db ↦ some upgrade_other
  | schema_first_write ↦ some upgrade_other
]

-- Why an action is skipped, if it is.
unfoldable pub decide : PlannedAction → DesiredMesh → List String → Option SkipReason
unfolding decide_extend decide_upgrade
decide a d new_nodes =
    let is_new = contains new_nodes a.host in
    elim d.intent [
      | bootstrap ↦ none
      | extend ↦ if is_new then none else decide_extend a d
      | upgrade ↦ decide_upgrade a
    ]

-- The loop: what is kept, and what is newly skipped.
unfoldable pub partition :
    List PlannedAction → DesiredMesh → List PlannedAction × List SkippedAction
unfolding decide
partition [] d = ([], [])
partition (a ∷ actions) d =
    let (kept, skipped) = partition actions d in
    elim (decide a d d.new_nodes) [
      | some reason ↦ (kept, record { action = a; reason = reason } ∷ skipped)
      | none ↦ (a ∷ kept, skipped)
    ]

unfoldable pub filter_by_intent : Plan → DesiredMesh → Plan
unfolding partition
filter_by_intent plan d = elim d.intent [
  | bootstrap ↦ plan
  | extend ↦
      let (kept, skipped) = partition plan.actions d in
      record { actions = kept; skipped = plan.skipped ++ skipped }
  | upgrade ↦
      let (kept, skipped) = partition plan.actions d in
      record { actions = kept; skipped = plan.skipped ++ skipped }
]
