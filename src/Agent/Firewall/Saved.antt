-- ===== src/Agent/Firewall/Saved.antt =====
-- What is saved in the rules file is what is loaded (coold/src/grpc/handlers.rs), on a disk that
-- works; and the rules as a map from their ids.
use coold.Prelude.{
  if◌then◌else◌, Bool-cases, String-discrete, string_eq, nat_eq, ◌==◌, length, filter,
  length-filter-le, All, lookup, insert, lookup-insert, Result, ok, String, ◌≡◌, refl, ◌∙◌, inl,
  inr, Bool, true, not, Option, none, some, List, [], ◌∷◌, ◌++◌, arith,
}
use coold.Flux.Routing.Messages.{FirewallRule}
use coold.Agent.Rules.{render_firewall_state, render_iptables_snapshot, render_nft_snapshot}
use coold.Agent.Rules.Printed.{IsPlain, parse_rules-render_firewall_state}
use coold.Agent.Firewall.{
  firewall_state_path, firewall_allow_rules_path, firewall_bridge_allow_rules_path, Firewall,
  written, Disk, Outside, load_firewall_rules, write_file, save_firewall_rules,
}
use coold.Agent.Firewall.Calls.{run_all, saved_then}

-- A disk on which every file is read and written.
abbrev pub working_disk : Disk
working_disk = record { dir_made = true; readable = true; write = λ _. written }

abbrev pub Stores : {K : Type 0} → Firewall K → List FirewallRule → Type 0
Stores s rules = load_firewall_rules working_disk s ≡ ok rules

-- The rule of an id.
unfoldable pub find : String → List FirewallRule → Option FirewallRule
find j [] = none
find j (rule ∷ rules) = if rule.id == j then some rule else find j rules

abbrev pub without : String → List FirewallRule → List FirewallRule
without id rules = filter (λ (rule : FirewallRule). not (rule.id == id)) rules

pub find-without :
    (j id : String) (rules : List FirewallRule)
    → find j (without id rules) ≡ (if id == j then none else find j rules)
unfolding find filter
find-without j id [] = ground arith
find-without j id (rule ∷ rules) = ground (arith, find-without j id rules)

find-append :
    (j : String) (rules : List FirewallRule) (rule : FirewallRule)
    → find j (rules ++ (rule ∷ [])) ≡ (elim (find j rules) [
      | some found ↦ some found
      | none ↦ if rule.id == j then some rule else none
    ])
unfolding find
find-append j [] rule = refl
find-append j (r ∷ rules) rule = ground (arith, find-append j rules rule)

pub find_replaced :
    (j : String) (rules : List FirewallRule) (rule : FirewallRule)
    → find j (without rule.id rules ++ (rule ∷ []))
      ≡ (if rule.id == j then some rule else find j rules)
find_replaced j rules rule =
    ground (arith, find-append j (without rule.id rules) rule, find-without j rule.id rules)

pub without_all :
    (id : String) (rules : List FirewallRule)
    → length (without id rules) ≡ length rules
    → without id rules ≡ rules
unfolding filter
without_all id [] h = refl
without_all id (rule ∷ rules) h =
    ground
      (arith, without_all id rules, length-filter-le (λ (r : FirewallRule). not (r.id == id)) rules)

pub All-without :
    (id : String) (rules : List FirewallRule) → All IsPlain rules → All IsPlain (without id rules)
unfolding filter
All-without id [] plain = tt
All-without id (rule ∷ rules) (plain, rest) = elim (Bool-cases (rule.id == id)) [
  | inl e ↦ rw e (All-without id rules rest)
  | inr e ↦ rw e (plain, All-without id rules rest)
]

pub All-snoc :
    (rules : List FirewallRule) (rule : FirewallRule)
    → All IsPlain rules
    → IsPlain rule
    → All IsPlain (rules ++ (rule ∷ []))
All-snoc [] rule plain this = (this, tt)
All-snoc (r ∷ rules) rule (plain, rest) this = (plain, All-snoc rules rule rest this)

module _ {K : Type 0} where
  -- What was saved is what is loaded, and then the kernel is changed and the files are not.
  saved_files : List FirewallRule → Firewall K → List (String × String)
  saved_files rules s = insert firewall_bridge_allow_rules_path (render_nft_snapshot rules) (
      insert firewall_allow_rules_path (render_iptables_snapshot rules)
        (insert firewall_state_path (render_firewall_state rules) s.files))

  lookup-saved_files :
      (rules : List FirewallRule) (s : Firewall K)
      → lookup firewall_state_path (saved_files rules s) ≡ some (render_firewall_state rules)
  unfolding saved_files String-discrete
  lookup-saved_files rules s =
      lookup-insert firewall_bridge_allow_rules_path firewall_state_path (render_nft_snapshot rules)
        _
      ∙ lookup-insert firewall_allow_rules_path firewall_state_path (render_iptables_snapshot rules)
          _
      ∙ lookup-insert firewall_state_path firewall_state_path (render_firewall_state rules) s.files

  saved-Stores :
      (rules : List FirewallRule) (s : Firewall K)
      → All IsPlain rules
      → Stores (record s { files = saved_files rules s }) rules
  saved-Stores rules s plain =
      unfold load_firewall_rules in
      ground (arith, lookup-saved_files rules s, parse_rules-render_firewall_state rules plain)

  -- A state with the same files stores the same rules.
  pub same_files-Stores :
      (s t : Firewall K) (rules : List FirewallRule)
      → t.files ≡ s.files
      → Stores s rules
      → Stores t rules
  same_files-Stores s t rules e stored = unfold load_firewall_rules in rw e (stored)

  module _ (out : Outside K) where
    pub run_all-files :
        (commands : List (String × List String)) (s : Firewall K)
        → (run_all out working_disk commands s).0.files ≡ s.files
    unfolding run_all
    run_all-files [] s = refl
    run_all-files ((what, args) ∷ rest) s =
        ground
          (arith, run_all-files rest (record s { kernel = (out.command args s.files s.kernel).0 }))

    -- Saving, and then something that leaves the files alone.
    pub saved_then-Stores :
        (rules : List FirewallRule) (next : Firewall K → Firewall K × Result String Bool)
        (s : Firewall K)
        → All IsPlain rules
        → ((t : Firewall K) → Stores t rules → Stores (next t).0 rules)
        → Stores (saved_then out working_disk rules next s).0 rules
    unfolding save_firewall_rules write_file saved_files
    saved_then-Stores rules next s plain keeps =
        keeps (record s { files = saved_files rules s }) (saved-Stores rules s plain)
