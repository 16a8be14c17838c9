-- ===== src/Tests/Firewall.antt =====
-- A host's firewall rules (coold/src/grpc/handlers.rs).
use coold.Prelude.{
  String-discrete, string_eq, nat_eq, All, lookup, ok, err, starts_with, strip_suffix, utf8_length,
  byte_length, all_chars, take_until, ℕ, ◌+◌, ◌^◌, ◌<◌, String, ◌≡◌, refl, true, List, [], ◌∷◌,
  arith,
}
use coold.Flux.Routing.Messages.{FirewallRule}
use coold.Agent.Rules.{digit, digits, to_string, lines, render_firewall_state, parse_rules}
use coold.Agent.Rules.Lines.{is_plain_char}
use coold.Agent.Rules.Printed.{IsPlain, parse_rules-render_firewall_state}
use coold.Agent.Firewall.{
  Firewall, EndpointOwnerCheck, Outside, validate_firewall_rule, dst_owner, trim_suffixes,
  firewall_endpoint_ip, load_firewall_rules, is_ip_or_cidr,
}
use coold.Agent.Firewall.Calls.{resolve_firewall_endpoint, resolve_firewall_rule}
use coold.Agent.Firewall.Saved.{Stores, find}
use coold.Agent.Firewall.Refines.{allow, revoke, reconcile, entered, EntersPlain}
use coold.Agent.Firewall.History.{Histories, run_calls, view_calls, calls_refine}

abbrev rule : String → ℕ → FirewallRule
rule id port = record {
  id = id;
  namespace = "default";
  src = "10.210.0.2";
  dst = "10.210.0.3";
  proto = "tcp";
  port = port;
}

abbrev two_rules : List FirewallRule
two_rules = rule "web-db" 5432 ∷ rule "web-cache" 6379 ∷ []

printed : to_string 65535 ≡ "65535"
unfolding to_string digits digit native.Mathlib.Decide.ℕ_discrete
printed = refl

rule-IsPlain :
    (id : String) (port : ℕ)
    → all_chars is_plain_char id ≡ true
    → port < 2 ^ 32
    → IsPlain (rule id port)
unfolding all_chars is_plain_char native.Mathlib.Decide.ℕ_discrete
rule-IsPlain id port plain small = (plain, refl, refl, refl, refl, small)

two_rules-IsPlain : All IsPlain two_rules
unfolding all_chars is_plain_char native.Mathlib.Decide.ℕ_discrete
two_rules-IsPlain = (
  rule-IsPlain "web-db" 5432 refl (omega arith),
  (rule-IsPlain "web-cache" 6379 refl (omega arith), tt),
)

parse_rules-render_firewall_state_example :
    parse_rules (lines (render_firewall_state two_rules)) ≡ two_rules
parse_rules-render_firewall_state_example =
    parse_rules-render_firewall_state two_rules two_rules-IsPlain

abbrev outside : Outside ℕ
outside = record {
  command = λ args files k. (k + 1, ok "");
  query_ips_by_name_owned = λ name namespace owner. ok ("10.210.0.3" ∷ []);
  container_ip = λ name network. err "no such container";
  is_ipv4 = λ s. starts_with "10." s;
}

abbrev owner : EndpointOwnerCheck
owner = record { host_mgmt_ip = "10.0.0.1"; strict = true }

abbrev asked : FirewallRule
asked = record (rule "web-db" 5433) { src = "10.210.0.2/32"; dst = "db" }

accepted : entered outside owner asked ≡ ok (rule "web-db" 5433)
unfolding validate_firewall_rule resolve_firewall_rule resolve_firewall_endpoint is_ip_or_cidr
    take_until trim_suffixes strip_suffix firewall_endpoint_ip dst_owner byte_length utf8_length
    starts_with String-discrete native.Mathlib.Decide.ℕ_discrete
accepted = refl

abbrev empty_host : Firewall ℕ
empty_host = record { files = []; kernel = 0 }

nothing_stored : Stores empty_host []
unfolding load_firewall_rules lookup
nothing_stored = refl

abbrev calls : Histories ℕ
calls = (outside, allow owner asked) ∷ (outside, revoke "web-cache") ∷ (outside, reconcile) ∷ []

asked_plain : EntersPlain outside (allow owner asked)
unfolding all_chars is_plain_char native.Mathlib.Decide.ℕ_discrete
asked_plain = rw (accepted, EntersPlain) (rule-IsPlain "web-db" 5433 refl (omega arith))

calls_refine_example :
    (rules' : List FirewallRule) × Stores (run_calls calls empty_host) rules'
    × All IsPlain rules'
    × (find "web-db" rules' ≡ view_calls "web-db" calls (find "web-db" []))
calls_refine_example =
    calls_refine "web-db" calls [] empty_host tt (asked_plain, (tt, (tt, tt))) nothing_stored
