-- ===== src/Mesh/Apply/Allowed.antt =====
-- What coolify-cli/src/wireguard/apply.rs may run under an intent.
use coold.Prelude.{
  string_eq, nat_eq, ◌==◌, filter, any, All, Map, ok, err, Result-cases, is_empty, ℕ, String, ◌≡◌,
  refl, sym, ◌∙◌, ◌↔◌, inl, inr, Bool, true, false, ◌&&◌, ◌||◌, none, some, List, [], ◌∷◌, ◌++◌,
  arith,
}
use coold.Mesh.Intent.{ActionType, PlannedAction, Plan, DesiredMesh, filter_by_intent}
use coold.Mesh.Intent.Filtered.{permitted, filter_by_intent_lem}
use coold.Mesh.Subnets.{NetLibrary}
use coold.Mesh.State.{MeshState, MeshRequest}
use coold.Mesh.Planning.Hosts.{PlanLibrary}
use coold.Mesh.Phases.{Step, runs, panics, action_type_eq, should_run, phase1}
use coold.Mesh.Phases.Second.{phase2}
use coold.Mesh.Phases.Third.{phase3}
use coold.Mesh.Apply.{Runner, run_steps, has_failed}
use coold.Mesh.Apply.Planned.{
  IsPlanned, append-All, phase1-AllPlanned, phase2-AllPlanned, phase3-AllPlanned,
}

any-filter :
    {A : Type 0} → (p q : A → Bool) (xs : List A) → any q (filter p xs) ≡ any (λ a. p a && q a) xs
unfolding any filter
any-filter p q [] = refl
any-filter p q (x ∷ xs) = ground (arith, any-filter p q xs)

-- An action of the list that the intent permits, for this host and, if it is about one, this
-- namespace.
unfoldable pub has_permitted :
    DesiredMesh → List PlannedAction → String → ActionType → String → Bool
unfolding any permitted
has_permitted d actions host action_type namespace =
    any
      (λ (a : PlannedAction).
        permitted d a
        && (a.host == host
            && (a.action_type == action_type && (is_empty namespace || a.namespace == namespace))))
      actions

abbrev pub IsAllowed : DesiredMesh → List PlannedAction → String → Step → Type 0
IsAllowed d actions host (runs action_type ns cmd) =
    has_permitted d actions host action_type ns ≡ true
IsAllowed d actions host panics = Unit

planned-IsAllowed :
    (plan : Plan) (d : DesiredMesh) (host : String) (s : Step)
    → IsPlanned (filter_by_intent plan d).actions host s
    → IsAllowed d plan.actions host s
unfolding should_run has_permitted
planned-IsAllowed plan d host panics h = tt
planned-IsAllowed plan d host (runs action_type ns cmd) h =
    let kept = filter_by_intent_lem plan d in
    let same = any-filter (permitted d) _ plan.actions in sym same ∙ (rw kept at h)

weaken-All :
    {A : Type 0} → (P Q : A → Type 0) (xs : List A) → ((x : A) → P x → Q x) → All P xs → All Q xs
weaken-All P Q [] f a = tt
weaken-All P Q (x ∷ xs) f a = (f x a.0, weaken-All P Q xs f a.1)

-- Whatever the probes have found and the allocations given: each step of the three phases on a host
-- carries out an action of the plan for this host that the intent permits.
pub phases-AreAllowed :
    (lib : NetLibrary) (print : PlanLibrary lib) (r : MeshRequest lib.Net)
    (servers fresh : MeshState lib.Net) (mgmt : Map String ℕ)
    (subnets : Map String (Map String lib.Net)) (plan : Plan) (host : String)
    → All (IsAllowed r.desired plan.actions host) (
        phase1 r servers (filter_by_intent plan r.desired).actions host
        ++ (phase2 lib print r fresh mgmt subnets (filter_by_intent plan r.desired).actions host
            ++ phase3 lib print r mgmt subnets (filter_by_intent plan r.desired).actions host))
phases-AreAllowed lib print r servers fresh mgmt subnets plan host =
    let planned = (filter_by_intent plan r.desired).actions in
    let P = IsPlanned planned host in
    weaken-All P _ _ (planned-IsAllowed plan r.desired host) (
      append-All P _ _ (phase1-AllPlanned r servers planned host) (
        append-All P _ _ (phase2-AllPlanned lib print r fresh mgmt subnets planned host)
          (phase3-AllPlanned lib print r mgmt subnets planned host)))

-- On a host, all of the steps have been run, each after those before it, and each has succeeded.
abbrev pub AllSucceed : Runner → String → List String → List Step → Type 0
AllSucceed run host seen [] = Unit
AllSucceed run host seen (panics ∷ steps) = ⊥
AllSucceed run host seen (runs action_type ns none ∷ steps) = ⊥
AllSucceed run host seen (runs action_type ns (some cmd) ∷ steps) =
    (((out : String) × (run host seen cmd ≡ ok out))
      × AllSucceed run host (seen ++ (cmd ∷ [])) steps)

run_steps_fine :
    (run : Runner) (host : String) (seen : List String) (t : ActionType) (ns cmd : String)
    (steps : List Step) (out : String)
    → run host seen cmd ≡ ok out
    → has_failed (run_steps run host seen (runs t ns (some cmd) ∷ steps))
      ≡ has_failed (run_steps run host (seen ++ (cmd ∷ [])) steps)
unfolding run_steps
run_steps_fine run host seen t ns cmd steps out h = rw (h, run_steps) refl

run_steps_bad :
    (run : Runner) (host : String) (seen : List String) (t : ActionType) (ns cmd : String)
    (steps : List Step) (e : String)
    → run host seen cmd ≡ err e
    → has_failed (run_steps run host seen (runs t ns (some cmd) ∷ steps)) ≡ true
unfolding run_steps
run_steps_bad run host seen t ns cmd steps e h = rw (h, run_steps) refl

-- A phase succeeds on a host exactly if each of its steps does, after the commands of those before it.
pub run_steps-AllSucceed :
    (run : Runner) (host : String) (seen : List String) (steps : List Step)
    → (has_failed (run_steps run host seen steps) ≡ false) ↔ AllSucceed run host seen steps
unfolding run_steps
run_steps-AllSucceed run host seen [] = (λ h. tt, λ h. refl)
run_steps-AllSucceed run host seen (panics ∷ steps) =
    (λ h. absurd (ground (arith, h)), λ h. absurd h)
run_steps-AllSucceed run host seen (runs action_type ns none ∷ steps) =
    (λ h. absurd (ground (arith, h)), λ h. absurd h)
run_steps-AllSucceed run host seen (runs action_type ns (some cmd) ∷ steps) =
    elim (Result-cases (run host seen cmd)) [
      | inl (out, fine) ↦
          let step = run_steps_fine run host seen action_type ns cmd steps out fine in
          let later = run_steps-AllSucceed run host (seen ++ (cmd ∷ [])) steps in
          (λ h. ((out, fine), later.0 (sym step ∙ h)), λ h. step ∙ later.1 h.1)
      | inr (e, bad) ↦
          let step = run_steps_bad run host seen action_type ns cmd steps e bad in
          (λ h. absurd (ground (arith, step, h)), λ h. absurd (ground (arith, bad, h.0.1)))
    ]
