-- ===== src/Agent/Firewall/History.antt =====
-- Sequences of firewall commands (coold/src/grpc/handlers.rs).
use coold.Prelude.{string_eq, nat_eq, All, String, ◌≡◌, refl, Option, List, [], ◌∷◌}
use coold.Flux.Routing.Messages.{FirewallRule}
use coold.Agent.Rules.Printed.{IsPlain}
use coold.Agent.Firewall.{Firewall, Outside}
use coold.Agent.Firewall.Saved.{Stores, find}
use coold.Agent.Firewall.Refines.{Call, state_after, view_after, EntersPlain, call-Refined}

-- A history: each command with what is outside of the host at its time.
abbrev pub Histories : Type 0 → Type 0
Histories K = List (Outside K × Call)

abbrev pub run_calls : {K : Type 0} → Histories K → Firewall K → Firewall K
run_calls [] s = s
run_calls ((out, call) ∷ calls) s = run_calls calls (state_after out call s)

abbrev pub view_calls :
    {K : Type 0} → String → Histories K → Option FirewallRule → Option FirewallRule
view_calls j [] now = now
view_calls j ((out, call) ∷ calls) now = view_calls j calls (view_after out j call now)

abbrev pub AllEnterPlain : {K : Type 0} → Histories K → Type 0
AllEnterPlain [] = Unit
AllEnterPlain ((out, call) ∷ calls) = EntersPlain out call × AllEnterPlain calls

-- After any sequence of `firewall.allow`, `firewall.revoke` and `firewall.reconcile`, on a disk that
-- works and whatever the kernel's commands answer, the file that is loaded has under each id the rule
-- that a map would have: that of the last valid and resolved `firewall.allow` for the id, or nothing
-- once it was revoked. The rules that are entered are to have no tab, newline or carriage return in
-- their fields and a `u32` as port.
pub calls_refine :
    {K : Type 0} (j : String) (calls : Histories K) (rules : List FirewallRule) (s : Firewall K)
    → All IsPlain rules
    → AllEnterPlain calls
    → Stores s rules
    → (rules' : List FirewallRule) × Stores (run_calls calls s) rules'
      × All IsPlain rules'
      × (find j rules' ≡ view_calls j calls (find j rules))
calls_refine j [] rules s plain enters stored = (rules, stored, plain, refl)
calls_refine j ((out, call) ∷ calls) rules s plain (this, enters) stored =
    let (next, held, fine, at) = call-Refined out j call rules s plain this stored in
    let (last, kept, good, found) =
      calls_refine j calls next (state_after out call s) fine enters held in
    (last, kept, good, rw at at found)
