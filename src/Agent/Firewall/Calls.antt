-- ===== src/Agent/Firewall/Calls.antt =====
-- What the firewall commands do, coold/src/grpc/handlers.rs: `firewall_allow`, `firewall_revoke`,
-- `firewall_list` and `firewall_reconcile`, and the resolution of a rule's endpoints.
use Prim.Native.String.{◌++◌ as append}
use coold.Prelude.{
  if◌then◌else◌, string_eq, nat_eq, ◌==◌, length, filter, Result, ok, err, ◌>>=◌, is_empty,
  byte_length, String, Bool, true, not, Option, none, some, List, [], ◌∷◌, ◌++◌,
}
use coold.Flux.Routing.Messages.{FirewallRule}
use coold.Agent.Firewall.{
  firewall_bridge_allow_rules_path, Firewall, EndpointOwnerCheck, Disk, Outside, with_context,
  validate_firewall_rule, dst_owner, trim_suffixes, firewall_endpoint_ip, load_firewall_rules,
  save_firewall_rules, firewall_iptables_insert_args, firewall_nft_add_args, is_ip_or_cidr,
}

-- The commands that enter a rule.
unfoldable pub apply_commands : FirewallRule → List (String × List String)
unfolding firewall_iptables_insert_args firewall_nft_add_args
apply_commands rule =
    ("apply Coolify iptables allow rule", "iptables" ∷ firewall_iptables_insert_args rule)
    ∷ ("apply Coolify bridge allow rule", "nft" ∷ firewall_nft_add_args rule)
    ∷ []

-- The commands that load the snapshots.
unfoldable pub restore_commands : List (String × List String)
restore_commands =
    ("flush Coolify allow iptables chain", "iptables" ∷ "-F" ∷ "COOLIFY-ALLOW" ∷ [])
    ∷ (
      "restore Coolify allow iptables snapshot",
      "sh" ∷ "-c" ∷ "iptables-restore --noflush < /etc/coolify/allow.rules" ∷ [],
    )
    ∷ (
      "flush Coolify bridge allow chain",
      "nft" ∷ "flush" ∷ "chain" ∷ "bridge" ∷ "coolify_bridge" ∷ "coolify_allow" ∷ [],
    )
    ∷ (
      "restore Coolify bridge allow snapshot",
      "nft" ∷ "-f" ∷ firewall_bridge_allow_rules_path ∷ [],
    )
    ∷ []

module _ {K : Type 0} (out : Outside K) (disk : Disk) where
  -- One command, and the next if it succeeds.
  unfoldable pub run_all :
      List (String × List String) → Firewall K → Firewall K × Result String Bool
  run_all [] s = (s, ok true)
  run_all ((what, args) ∷ rest) s =
      let (k, r) = out.command args s.files s.kernel in
      let (s', r') = run_all rest (record s { kernel = k }) in
      elim r [ err e ↦ (record s { kernel = k }, with_context what (err e)) | ok _ ↦ (s', r') ]

  unfoldable pub apply_firewall_rule : FirewallRule → Firewall K → Firewall K × Result String Bool
  unfolding run_all apply_commands
  apply_firewall_rule rule s = run_all (apply_commands rule) s

  -- The part of `firewall_reconcile` that changes the kernel.
  unfoldable pub restore : Firewall K → Firewall K × Result String Bool
  unfolding run_all
  restore s = run_all restore_commands s

  abbrev pub saved_then :
      List FirewallRule
      → (Firewall K → Firewall K × Result String Bool)
      → Firewall K
      → Firewall K × Result String Bool
  saved_then rules next s =
      let (s', saved) = save_firewall_rules disk rules s in
      elim saved [ err e ↦ (s', err e) | ok _ ↦ next s' ]

  abbrev pub answered :
      {A : Type 0} → A → Firewall K × Result String Bool → Firewall K × Result String A
  answered a (s, ok _) = (s, ok a)
  answered a (s, err e) = (s, err e)

  unfoldable pub reconcile_rules : Firewall K → Firewall K × Result String Bool
  unfolding load_firewall_rules save_firewall_rules restore
  reconcile_rules s = elim (load_firewall_rules disk s) [
    | err e ↦ (s, err e)
    | ok rules ↦ saved_then rules restore s
  ]

  unfoldable pub firewall_reconcile : Firewall K → Firewall K × Result String String
  unfolding reconcile_rules
  firewall_reconcile s = answered "Firewall rules reconciled." (reconcile_rules s)

  unfoldable pub resolve_firewall_endpoint :
      String → String → String → Option String → Result String String
  unfolding is_ip_or_cidr trim_suffixes firewall_endpoint_ip byte_length
  resolve_firewall_endpoint value namespace network expected_owner =
      if is_ip_or_cidr out.is_ipv4 value then ok (trim_suffixes (byte_length value) value) else do
        ips ←
            with_context
              (append "query Corrosion endpoint "
                (append value (append " in namespace " namespace)))
              (out.query_ips_by_name_owned value namespace expected_owner)
        found ← firewall_endpoint_ip value namespace ips
        elim found [
          | some ip ↦ ok ip
          | none ↦
              with_context
                (append "resolve firewall endpoint " (append value (append " on " network)))
                (out.container_ip value network)
        ]

  unfoldable pub resolve_firewall_rule :
      EndpointOwnerCheck → FirewallRule → Result String FirewallRule
  unfolding resolve_firewall_endpoint dst_owner
  resolve_firewall_rule owner_check rule = do
    let network = append "coolify-" (append rule.namespace "-mesh")
    src ← resolve_firewall_endpoint rule.src rule.namespace network none
    dst ← resolve_firewall_endpoint rule.dst rule.namespace network (dst_owner owner_check)
    ok (record rule { src = src; dst = dst })

  -- `firewall_allow` from the load on.
  unfoldable pub allow_resolved : FirewallRule → Firewall K → Firewall K × Result String Bool
  unfolding load_firewall_rules save_firewall_rules apply_firewall_rule filter
  allow_resolved normalized s = elim (load_firewall_rules disk s) [
    | err e ↦ (s, err e)
    | ok rules ↦
        saved_then
          (filter (λ (existing : FirewallRule). not (existing.id == normalized.id)) rules
            ++ (normalized ∷ []))
          (apply_firewall_rule normalized) s
  ]

  unfoldable pub firewall_allow :
      EndpointOwnerCheck → FirewallRule → Firewall K → Firewall K × Result String (String × String)
  unfolding validate_firewall_rule resolve_firewall_rule allow_resolved
  firewall_allow owner_check rule s =
      elim (validate_firewall_rule rule >>= (λ r. resolve_firewall_rule owner_check r)) [
        | err e ↦ (s, err e)
        | ok normalized ↦
            answered (normalized.id, "Firewall rule applied.") (allow_resolved normalized s)
      ]

  unfoldable pub revoke_loaded :
      String → List FirewallRule → Firewall K → Firewall K × Result String Bool
  unfolding save_firewall_rules reconcile_rules filter
  revoke_loaded id rules s =
      let kept = filter (λ (rule : FirewallRule). not (rule.id == id)) rules in
      if length kept == length rules
      then (s, err (append "firewall rule not found: " id))
      else saved_then kept reconcile_rules s

  unfoldable pub firewall_revoke : String → Firewall K → Firewall K × Result String String
  unfolding load_firewall_rules revoke_loaded
  firewall_revoke id s = elim (load_firewall_rules disk s) [
    | err e ↦ (s, err e)
    | ok rules ↦ answered "Firewall rule removed." (revoke_loaded id rules s)
  ]

  unfoldable pub firewall_list : String → Firewall K → Result String (List FirewallRule)
  unfolding load_firewall_rules filter
  firewall_list namespace s = elim (load_firewall_rules disk s) [
    | err e ↦ err e
    | ok rules ↦
        if is_empty namespace
        then ok rules
        else ok (filter (λ (rule : FirewallRule). rule.namespace == namespace) rules)
  ]
