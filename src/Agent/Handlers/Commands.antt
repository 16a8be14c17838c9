-- ===== src/Agent/Handlers/Commands.antt =====
-- The commands of `handle` (coold/src/grpc/handlers.rs), one by one, and `handle` itself.
use Prim.Native.String.{◌++◌ as append}
use coold.Prelude.{
  if◌then◌else◌, string_eq, nat_eq, ◌==◌, ok, err, ℕ, String, Bool, true, Option, none, some, List,
  [], ◌∷◌, map,
}
use coold.Flux.Routing.Messages
use coold.Flux.Routing.Messages.{
  ServerCommand, ContainersCreateReq, ContainersStopReq, ApplyIngressReq, FirewallRule,
  ContainersLogsReq,
}
use coold.Flux.Replies.{
  ContainerSummary, ProtoBody, images_pull_resp, images_list_resp, images_delete_resp,
  containers_create_resp, containers_start_resp, containers_stop_resp, containers_restart_resp,
  containers_delete_resp, containers_inspect_resp, containers_list_resp, containers_logs_resp,
  containers_exec_resp, containers_healthcheck_run_resp, ingress_apply_resp, ingress_stop_resp,
  firewall_allow_resp, firewall_revoke_resp, firewall_list_resp, firewall_reconcile_resp,
  coold_logs_resp, corrosion_tables_resp, host_jwt_set_resp, ProtoResponse,
}
use coold.Agent.Containers.{apply_mesh_dns_defaults, summaries_of}
use coold.Agent.Ingress.{check_caddy}
use coold.Agent.Handlers.{Op, Host, error_body, image_summary, rule_of_proto, clamp_tail, body_of}

module _ {S : Type 0} (host : Host S) where
  abbrev run : {A : Type 0} → Op S A → (A → ProtoBody) → S → S × Option ProtoBody
  run op f s = let (s', r) = op s in (s', some (body_of f r))

  abbrev refuse : String → S → S × Option ProtoBody
  refuse e s = (s, some (error_body e))

  unfoldable pub create : ContainersCreateReq → S → S × Option ProtoBody
  unfolding apply_mesh_dns_defaults body_of
  create req s = elim (apply_mesh_dns_defaults (host.mesh_network_gateway s) req) [
    | ok input ↦ run (host.create_container input) containers_create_resp s
    | err e ↦ refuse e s
  ]

  unfoldable pub containers_list : Op S (List ContainerSummary)
  unfolding summaries_of
  containers_list s =
      let (s', r) = host.list_containers s in
      elim r [
        | ok containers ↦ (s', ok (summaries_of (host.inspect_container s') containers))
        | err e ↦ (s', err e)
      ]

  unfoldable pub apply_ingress : ApplyIngressReq → Op S String
  unfolding check_caddy
  apply_ingress req s =
      if req.kind == "caddy"
      then (elim (check_caddy req) [ ok _ ↦ host.install_caddy req s | err e ↦ (s, err e) ])
      else (s, err (append "unsupported ingress kind: " req.kind))

  unfoldable pub stop_ingress : String → Op S String
  stop_ingress kind s =
      if kind == "caddy"
      then host.stop_caddy_ingress s
      else (s, err (append "unsupported ingress kind: " kind))

  unfoldable pub on_images_pull : String → S → S × Option ProtoBody
  unfolding body_of
  on_images_pull reference s =
      run (host.pull_image reference) (λ (digest, output). images_pull_resp digest output) s

  unfoldable pub on_images_list : S → S × Option ProtoBody
  unfolding body_of
  on_images_list s = run host.list_images (λ images. images_list_resp (map image_summary images)) s

  unfoldable pub on_images_delete : String → Bool → S → S × Option ProtoBody
  unfolding body_of
  on_images_delete reference force s = run (host.delete_image reference force) images_delete_resp s

  unfoldable pub on_containers_start : String → S → S × Option ProtoBody
  unfolding body_of
  on_containers_start id s = run (host.start_container id) containers_start_resp s

  unfoldable pub on_containers_stop : ContainersStopReq → S → S × Option ProtoBody
  unfolding body_of
  on_containers_stop req s =
      run (host.stop_container req.id req.timeout_seconds) containers_stop_resp s

  unfoldable pub on_containers_restart : String → ℕ → S → S × Option ProtoBody
  unfolding body_of
  on_containers_restart id timeout_seconds s =
      run (host.restart_container id timeout_seconds) containers_restart_resp s

  unfoldable pub on_containers_delete : String → Bool → S → S × Option ProtoBody
  unfolding body_of
  on_containers_delete id force s = run (host.delete_container id force) containers_delete_resp s

  unfoldable pub on_containers_inspect : String → S → S × Option ProtoBody
  unfolding body_of
  on_containers_inspect id s = run (host.inspect_container_json id) containers_inspect_resp s

  unfoldable pub on_containers_list : S → S × Option ProtoBody
  unfolding containers_list body_of
  on_containers_list s = run containers_list containers_list_resp s

  unfoldable pub on_containers_logs : ContainersLogsReq → S → S × Option ProtoBody
  unfolding body_of
  on_containers_logs req s = run (host.container_logs req) containers_logs_resp s

  unfoldable pub on_containers_exec : String → List String → S → S × Option ProtoBody
  unfolding body_of
  on_containers_exec id command s =
      run (host.exec_container id command)
        (λ (exit_code, output). containers_exec_resp exit_code output) s

  unfoldable pub on_containers_healthcheck_run : String → S → S × Option ProtoBody
  unfolding body_of
  on_containers_healthcheck_run id s =
      run (host.run_healthcheck id) containers_healthcheck_run_resp s

  unfoldable pub on_ingress_apply : ApplyIngressReq → S → S × Option ProtoBody
  unfolding apply_ingress body_of
  on_ingress_apply req s = run (apply_ingress req) ingress_apply_resp s

  unfoldable pub on_ingress_stop : String → S → S × Option ProtoBody
  unfolding stop_ingress body_of
  on_ingress_stop kind s = run (stop_ingress kind) ingress_stop_resp s

  unfoldable pub on_firewall_allow : Option FirewallRule → S → S × Option ProtoBody
  unfolding rule_of_proto body_of
  on_firewall_allow none s = refuse "missing firewall rule" s
  on_firewall_allow (some rule) s =
      run (host.firewall_allow (rule_of_proto rule)) (λ (id, output). firewall_allow_resp id output)
        s

  unfoldable pub on_firewall_revoke : String → S → S × Option ProtoBody
  unfolding body_of
  on_firewall_revoke id s = run (host.firewall_revoke id) firewall_revoke_resp s

  unfoldable pub on_firewall_list : String → S → S × Option ProtoBody
  unfolding body_of
  on_firewall_list namespace s = run (host.firewall_list namespace) firewall_list_resp s

  unfoldable pub on_firewall_reconcile : S → S × Option ProtoBody
  unfolding body_of
  on_firewall_reconcile s = run host.firewall_reconcile firewall_reconcile_resp s

  unfoldable pub on_coold_logs : ℕ → S → S × Option ProtoBody
  unfolding clamp_tail body_of
  on_coold_logs tail s = run (host.journal (clamp_tail tail)) coold_logs_resp s

  unfoldable pub on_corrosion_tables : ℕ → S → S × Option ProtoBody
  unfolding body_of
  on_corrosion_tables limit s = run (host.tables_json limit) corrosion_tables_resp s

  unfoldable pub on_host_jwt_set : String → S → S × Option ProtoBody
  unfolding body_of
  on_host_jwt_set jwt s = run (host.apply_host_jwt jwt) (λ _. host_jwt_set_resp true) s

  -- The body of the answer to a command; a ping has none.
  unfoldable pub body_for : ServerCommand → S → S × Option ProtoBody
  unfolding create on_images_pull on_images_list on_images_delete on_containers_start
      on_containers_stop on_containers_restart on_containers_delete on_containers_inspect
      on_containers_list on_containers_logs on_containers_exec on_containers_healthcheck_run
      on_ingress_apply on_ingress_stop on_firewall_allow on_firewall_revoke on_firewall_list
      on_firewall_reconcile on_coold_logs on_corrosion_tables on_host_jwt_set
  body_for Messages.ping s = (s, none)
  body_for (Messages.images_pull reference) s = on_images_pull reference s
  body_for Messages.images_list s = on_images_list s
  body_for (Messages.images_delete reference force) s = on_images_delete reference force s
  body_for (Messages.containers_create req) s = create req s
  body_for (Messages.containers_start id) s = on_containers_start id s
  body_for (Messages.containers_stop req) s = on_containers_stop req s
  body_for (Messages.containers_restart id timeout_seconds) s =
      on_containers_restart id timeout_seconds s
  body_for (Messages.containers_delete id force) s = on_containers_delete id force s
  body_for (Messages.containers_inspect id) s = on_containers_inspect id s
  body_for Messages.containers_list s = on_containers_list s
  body_for (Messages.containers_logs req) s = on_containers_logs req s
  body_for (Messages.containers_exec id command) s = on_containers_exec id command s
  body_for (Messages.containers_healthcheck_run id) s = on_containers_healthcheck_run id s
  body_for (Messages.ingress_apply req) s = on_ingress_apply req s
  body_for (Messages.ingress_stop kind) s = on_ingress_stop kind s
  body_for (Messages.firewall_allow rule) s = on_firewall_allow rule s
  body_for (Messages.firewall_revoke id) s = on_firewall_revoke id s
  body_for (Messages.firewall_list namespace) s = on_firewall_list namespace s
  body_for Messages.firewall_reconcile s = on_firewall_reconcile s
  body_for (Messages.coold_logs tail) s = on_coold_logs tail s
  body_for (Messages.corrosion_tables limit) s = on_corrosion_tables limit s
  body_for (Messages.host_jwt_set jwt) s = on_host_jwt_set jwt s

  -- The responses that are sent.
  unfoldable pub handle : String → ServerCommand → S → S × List ProtoResponse
  unfolding body_for
  handle request_id command s =
      let (s', body) = body_for command s in
      (
        s',
        elim body [ none ↦ [] | some b ↦ record { request_id = request_id; body = some b } ∷ [] ],
      )
