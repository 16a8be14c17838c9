-- ===== src/Mesh/Intent/Filtered.antt =====
-- What the filter of coolify-cli/src/wireguard/intent.rs keeps and what it sets aside.
use coold.Prelude.{
  if◌then◌else◌, Option-cases, string_eq, nat_eq, contains, filter, ◌≡◌, refl, sym, ap, ◌≢◌, ◌⊎◌,
  inl, inr, Bool, true, false, not, none, some, List, [], ◌∷◌, ◌++◌, map, arith,
}
use coold.Mesh.Intent.{
  recreate_podman_network, install_corrosion, install_coold, write_corrosion_schema,
  install_corrosion_service, install_coold_service, PlannedAction, SkipReason, SkippedAction, Plan,
  Intent, bootstrap, extend, upgrade, DesiredMesh, resets_db, categorize, installs_service,
  decide_extend, decide_upgrade, decide, partition, filter_by_intent,
}

-- What each intent may do, told by the kind of action: to a new host of an extension, anything; to
-- a host that was there, nothing that bumps a version or wipes a database, and a replacement of a
-- network only where that is allowed; in an upgrade, the installation of the two programs and of
-- their services.
unfoldable pub permitted : DesiredMesh → PlannedAction → Bool
permitted d a = elim d.intent [
  | bootstrap ↦ true
  | extend ↦ if contains d.new_nodes a.host then true else elim a.action_type [
    | install_coold ↦ false
    | install_corrosion ↦ false
    | recreate_podman_network ↦ d.allow_replace
    | write_corrosion_schema ↦ not (resets_db a)
    | _ ↦ true
  ]
  | upgrade ↦ elim a.action_type [
    | install_coold ↦ true
    | install_corrosion ↦ true
    | install_coold_service ↦ true
    | install_corrosion_service ↦ true
    | _ ↦ false
  ]
]

decide-permitted :
    (d : DesiredMesh) (a : PlannedAction)
    → permitted d a ≡ (elim (decide a d d.new_nodes) [ none ↦ true | some _ ↦ false ])
unfolding permitted decide decide_extend decide_upgrade categorize installs_service
decide-permitted d a = ground arith

-- `whole` is `left` and `right`, one woven into the other.
pub data Woven {A : Type 0} : List A → List A → List A → Type 0 where
  ended : Woven [] [] []
  from_left :
      {x : A} {left right whole : List A}
      → Woven left right whole
      → Woven (x ∷ left) right (x ∷ whole)
  from_right :
      {x : A} {left right whole : List A}
      → Woven left right whole
      → Woven left (x ∷ right) (x ∷ whole)

partition_kept :
    (a : PlannedAction) (actions : List PlannedAction) (d : DesiredMesh)
    → decide a d d.new_nodes ≡ none
    → partition (a ∷ actions) d ≡ (a ∷ (partition actions d).0, (partition actions d).1)
partition_kept a actions d h = unfold partition in ground (arith, h)

partition_skipped :
    (a : PlannedAction) (actions : List PlannedAction) (d : DesiredMesh) (r : SkipReason)
    → decide a d d.new_nodes ≡ some r
    → partition (a ∷ actions) d
      ≡ ((partition actions d).0, record { action = a; reason = r } ∷ (partition actions d).1)
partition_skipped a actions d r h = unfold partition in ground (arith, h)

partition-Woven :
    (actions : List PlannedAction) (d : DesiredMesh)
    → Woven
        (partition actions d).0
        (map (λ (s : SkippedAction). s.action) (partition actions d).1)
        actions
partition-Woven [] d = unfold partition in ended
partition-Woven (a ∷ actions) d = elim (Option-cases (decide a d d.new_nodes)) [
  | inl kept ↦ rw (partition_kept a actions d kept) (from_left (partition-Woven actions d))
  | inr (r, skipped) ↦
      rw (partition_skipped a actions d r skipped) (from_right (partition-Woven actions d))
]

kept_permitted :
    (actions : List PlannedAction) (d : DesiredMesh)
    → (partition actions d).0 ≡ filter (permitted d) actions
unfolding partition filter
kept_permitted [] d = refl
kept_permitted (a ∷ actions) d = elim (Option-cases (decide a d d.new_nodes)) [
  | inl kept ↦ ground (arith, kept, decide-permitted d a, kept_permitted actions d)
  | inr (reason, skipped) ↦ ground (arith, skipped, decide-permitted d a, kept_permitted actions d)
]

-- The actions of a mesh whose intent is not `bootstrap`.
filter_by_intent-partition :
    (plan : Plan) (d : DesiredMesh)
    → d.intent ≢ bootstrap
    → filter_by_intent plan d ≡ record {
      actions = (partition plan.actions d).0;
      skipped = plan.skipped ++ (partition plan.actions d).1;
    }
unfolding filter_by_intent
filter_by_intent-partition plan d h = ground arith

bootstrap_all :
    (actions : List PlannedAction) (d : DesiredMesh)
    → d.intent ≡ bootstrap
    → filter (permitted d) actions ≡ actions
unfolding filter permitted
bootstrap_all [] d h = refl
bootstrap_all (a ∷ actions) d h = ground (arith, bootstrap_all actions d h)

-- The filter keeps exactly the actions that the intent permits, in their order.
pub filter_by_intent_lem :
    (plan : Plan) (d : DesiredMesh)
    → (filter_by_intent plan d).actions ≡ filter (permitted d) plan.actions
unfolding filter_by_intent
filter_by_intent_lem plan d =
    ground (arith, kept_permitted plan.actions d, bootstrap_all plan.actions d)

none_skipped : {A : Type 0} (xs : List A) → Woven xs [] xs
none_skipped [] = ended
none_skipped (x ∷ xs) = from_left (none_skipped xs)

nil_right : {A : Type 0} (xs : List A) → xs ++ [] ≡ xs
nil_right [] = refl
nil_right (x ∷ xs) = ap (λ ys. x ∷ ys) (nil_right xs)

filter_by_intent_bootstrap :
    (plan : Plan) (d : DesiredMesh) → d.intent ≡ bootstrap → filter_by_intent plan d ≡ plan
unfolding filter_by_intent
filter_by_intent_bootstrap plan d h = ground arith

is_bootstrap : (i : Intent) → (i ≡ bootstrap) ⊎ (i ≢ bootstrap)
is_bootstrap bootstrap = inl refl
is_bootstrap extend = inr (λ e. cc)
is_bootstrap upgrade = inr (λ e. cc)

-- The filter loses and invents nothing: what was set aside before still is, first; and the actions
-- of the plan are the ones that are kept and the ones that are set aside now, woven together in
-- their order.
pub filter_by_intent-Woven :
    (plan : Plan) (d : DesiredMesh)
    → (newly : List SkippedAction) × ((filter_by_intent plan d).skipped ≡ plan.skipped ++ newly)
      × Woven
          (filter_by_intent plan d).actions
          (map (λ (s : SkippedAction). s.action) newly)
          plan.actions
filter_by_intent-Woven plan d = elim (is_bootstrap d.intent) [
  | inl b ↦ (
    [],
    rw (filter_by_intent_bootstrap plan d b) (sym (nil_right plan.skipped)),
    rw (filter_by_intent_bootstrap plan d b) (none_skipped plan.actions),
  )
  | inr n ↦ (
    (partition plan.actions d).1,
    rw (filter_by_intent-partition plan d n) refl,
    rw (filter_by_intent-partition plan d n) (partition-Woven plan.actions d),
  )
]
