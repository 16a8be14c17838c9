-- ===== src/Agent/Firewall/Refines.antt =====
-- The firewall commands refine a map from ids to rules (coold/src/grpc/handlers.rs).
use coold.Prelude.{
  if◌then◌else◌, Bool-cases, string_eq, nat_eq, ◌==◌, ==_iff, length, All, Result, ok, err, ◌>>=◌,
  String, ◌≡◌, refl, inl, inr, Bool, Option, none, some, List, [], ◌∷◌, ◌++◌, arith,
}
use coold.Flux.Routing.Messages.{FirewallRule}
use coold.Agent.Rules.Printed.{IsPlain}
use coold.Agent.Firewall.{Firewall, EndpointOwnerCheck, Outside, validate_firewall_rule}
use coold.Agent.Firewall.Calls.{
  apply_commands, restore_commands, apply_firewall_rule, restore, answered, reconcile_rules,
  firewall_reconcile, resolve_firewall_rule, allow_resolved, firewall_allow, revoke_loaded,
  firewall_revoke,
}
use coold.Agent.Firewall.Saved.{
  working_disk, Stores, find, without, find-without, find_replaced, without_all, All-without,
  All-snoc, same_files-Stores, run_all-files, saved_then-Stores,
}

-- A command that changes the rules.
pub data Call : Type 0 where
  allow : EndpointOwnerCheck → FirewallRule → Call
  revoke : String → Call
  reconcile : Call

module _ {K : Type 0} where
  -- The rule that a command of `firewall.allow` enters, if it is valid and resolves.
  abbrev pub entered : Outside K → EndpointOwnerCheck → FirewallRule → Result String FirewallRule
  entered out owner_check rule =
      validate_firewall_rule rule >>= (λ r. resolve_firewall_rule out working_disk owner_check r)

  unfoldable pub state_after : Outside K → Call → Firewall K → Firewall K
  state_after out (allow owner_check rule) s =
      (firewall_allow out working_disk owner_check rule s).0
  state_after out (revoke id) s = (firewall_revoke out working_disk id s).0
  state_after out reconcile s = (firewall_reconcile out working_disk s).0

  -- The specification: what is at an id after a command.
  unfoldable pub view_after : Outside K → String → Call → Option FirewallRule → Option FirewallRule
  view_after out j (allow owner_check rule) now = elim (entered out owner_check rule) [
    | err _ ↦ now
    | ok new ↦ if new.id == j then some new else now
  ]
  view_after out j (revoke id) now = if id == j then none else now
  view_after out j reconcile now = now

  -- What a command enters can be written in the file.
  abbrev pub EntersPlain : Outside K → Call → Type 0
  EntersPlain out (allow owner_check rule) = (elim (entered out owner_check rule) [
    | err _ ↦ Unit
    | ok new ↦ IsPlain new
  ])
  EntersPlain out (revoke id) = Unit
  EntersPlain out reconcile = Unit

  module _ (out : Outside K) where
    restore-files : (s : Firewall K) → (restore out working_disk s).0.files ≡ s.files
    unfolding restore
    restore-files s = run_all-files out restore_commands s

    apply-files :
        (rule : FirewallRule) (s : Firewall K)
        → (apply_firewall_rule out working_disk rule s).0.files ≡ s.files
    unfolding apply_firewall_rule
    apply-files rule s = run_all-files out (apply_commands rule) s

    reconcile_rules-Stores :
        (rules : List FirewallRule) (s : Firewall K)
        → All IsPlain rules
        → Stores s rules
        → Stores (reconcile_rules out working_disk s).0 rules
    unfolding reconcile_rules
    reconcile_rules-Stores rules s plain stored =
        rw (stored, reconcile_rules)
          (saved_then-Stores out rules (restore out working_disk) s plain (λ t held.
            same_files-Stores t (restore out working_disk t).0 rules (restore-files t) held))

    allow_resolved-Stores :
        (new : FirewallRule) (rules : List FirewallRule) (s : Firewall K)
        → All IsPlain rules
        → IsPlain new
        → Stores s rules
        → Stores (allow_resolved out working_disk new s).0 (without new.id rules ++ (new ∷ []))
    unfolding allow_resolved
    allow_resolved-Stores new rules s plain this stored =
        rw (stored, allow_resolved)
          (saved_then-Stores out _ (apply_firewall_rule out working_disk new) s
            (All-snoc (without new.id rules) new (All-without new.id rules plain) this)
            (λ t held.
              same_files-Stores t (apply_firewall_rule out working_disk new t).0 _
                (apply-files new t) held))

    -- The rules of the state after a command, and what is at an id.
    abbrev pub Refined : String → Call → List FirewallRule → Firewall K → Type 0
    Refined j call rules s =
        (rules' : List FirewallRule) × Stores (state_after out call s) rules'
        × All IsPlain rules'
        × (find j rules' ≡ view_after out j call (find j rules))

    answered_state :
        {A : Type 0} (a : A) (r : Firewall K × Result String Bool)
        → (answered out working_disk a r).0 ≡ r.0
    answered_state a (s, ok _) = refl
    answered_state a (s, err _) = refl

    allow_refused :
        (owner_check : EndpointOwnerCheck) (rule : FirewallRule) (s : Firewall K) (e : String)
        → entered out owner_check rule ≡ err e
        → state_after out (allow owner_check rule) s ≡ s
    allow_refused owner_check rule s e refused = unfold state_after firewall_allow in ground arith

    allow_entered :
        (owner_check : EndpointOwnerCheck) (rule new : FirewallRule) (s : Firewall K)
        → entered out owner_check rule ≡ ok new
        → state_after out (allow owner_check rule) s ≡ (allow_resolved out working_disk new s).0
    allow_entered owner_check rule new s accepted =
        let text : String = "Firewall rule applied." in
        let same =
          answered_state {A = String × String} (new.id, text)
            (allow_resolved out working_disk new s) in
        unfold state_after firewall_allow in ground arith

    entered-IsPlain :
        (owner_check : EndpointOwnerCheck) (rule new : FirewallRule)
        → entered out owner_check rule ≡ ok new
        → EntersPlain out (allow owner_check rule)
        → IsPlain new
    entered-IsPlain owner_check rule new accepted this = rw (accepted, EntersPlain) at this

    allow-Refined :
        (j : String) (owner_check : EndpointOwnerCheck) (rule : FirewallRule)
        (rules : List FirewallRule) (s : Firewall K)
        → All IsPlain rules
        → EntersPlain out (allow owner_check rule)
        → Stores s rules
        → Refined j (allow owner_check rule) rules s
    allow-Refined j owner_check rule rules s plain this stored =
        go (entered out owner_check rule) refl
      where
        go :
            (r : Result String FirewallRule)
            → entered out owner_check rule ≡ r
            → Refined j (allow owner_check rule) rules s
        go (err e) refused = (
          rules,
          rw (allow_refused owner_check rule s e refused) stored,
          plain,
          unfold view_after in ground arith,
        )
        go (ok new) accepted =
            let enters = entered-IsPlain owner_check rule new accepted this in
            (
              without new.id rules ++ (new ∷ []),
              rw (allow_entered owner_check rule new s accepted)
                  (allow_resolved-Stores new rules s plain enters stored),
              All-snoc (without new.id rules) new (All-without new.id rules plain) enters,
              unfold view_after in ground (arith, find_replaced j rules new),
            )

    reconcile-Stores :
        (rules : List FirewallRule) (s : Firewall K)
        → All IsPlain rules
        → Stores s rules
        → Stores (state_after out reconcile s) rules
    unfolding state_after firewall_reconcile
    reconcile-Stores rules s plain stored =
        rw
          (answered_state {A = String} "Firewall rules reconciled."
            (reconcile_rules out working_disk s))
          (reconcile_rules-Stores rules s plain stored)

    revoke_state :
        (id : String) (rules : List FirewallRule) (s : Firewall K)
        → Stores s rules
        → state_after out (revoke id) s ≡ (revoke_loaded out working_disk id rules s).0
    revoke_state id rules s stored =
        let text : String = "Firewall rule removed." in
        let same = answered_state {A = String} text (revoke_loaded out working_disk id rules s) in
        unfold state_after firewall_revoke in ground arith

    revoke_loaded-Stores :
        (id : String) (rules : List FirewallRule) (s : Firewall K)
        → All IsPlain rules
        → Stores s rules
        → Stores (revoke_loaded out working_disk id rules s).0 (without id rules)
    unfolding revoke_loaded
    revoke_loaded-Stores id rules s plain stored =
        elim (Bool-cases (length (without id rules) == length rules)) [
          | inl none_gone ↦ rw (none_gone, without_all id rules ((==_iff _ _).0 none_gone)) stored
          | inr some_gone ↦ rw some_gone (
              saved_then-Stores out (without id rules) (reconcile_rules out working_disk) s
                (All-without id rules plain)
                (λ t held.
                  reconcile_rules-Stores (without id rules) t (All-without id rules plain) held))
        ]

    revoke-Refined :
        (j id : String) (rules : List FirewallRule) (s : Firewall K)
        → All IsPlain rules
        → Stores s rules
        → Refined j (revoke id) rules s
    revoke-Refined j id rules s plain stored = (
      without id rules,
      rw (revoke_state id rules s stored) (revoke_loaded-Stores id rules s plain stored),
      All-without id rules plain,
      unfold view_after in find-without j id rules,
    )

    pub call-Refined :
        (j : String) (call : Call) (rules : List FirewallRule) (s : Firewall K)
        → All IsPlain rules
        → EntersPlain out call
        → Stores s rules
        → Refined j call rules s
    call-Refined j (allow owner_check rule) rules s plain this stored =
        allow-Refined j owner_check rule rules s plain this stored
    call-Refined j (revoke id) rules s plain this stored = revoke-Refined j id rules s plain stored
    call-Refined j reconcile rules s plain this stored =
        (rules, reconcile-Stores rules s plain stored, plain, unfold view_after in refl)
