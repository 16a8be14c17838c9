-- ===== src/Agent/Handlers.antt =====
-- `handle` of coold/src/grpc/handlers.rs: a command from flux, and the response that is sent back.
-- The host is the parameter `Host`: what Podman, Corrosion, the journal, the ingress, the firewall
-- and the token file do, each on a state `S` of the host. The full text of an error stands for the
-- error. A response that is sent is in the list that `handle` returns.
pub mod Commands
pub mod Answers
use Prim.Native.String.{◌++◌ as append}
use coold.Prelude.{
  ltb, leb, if◌then◌else◌, Bool-cases, Option-cases, and_then, Eq, String-discrete, string_eq,
  nat_eq, ◌==◌, ==_iff, ==_refl, contains, length, length-append, filter, any, length-filter-le,
  All, Map, lookup, insert, remove, contains_key, HasKey, NodupKeys, lookup-insert, lookup-remove,
  insert-NodupKeys, remove-NodupKeys, remove_absent, length-insert, length-remove-le, map_laws,
  str_leb, insert_sorted, sort_by_key, lookup-sort_by_key, sort_by_key-NodupKeys, Result, ok, err,
  ◌>>=◌, Result-cases, ok_or, ok_only, is_empty, strip_prefix, starts_with, strip_suffix, ends_with,
  contains_text, is_whitespace, trim_is_empty, trim_start, trim_end, trim, trim_slashes,
  utf8_length, byte_length, all_chars, is_alphanumeric, take_until, take_until_text, after_text,
  after_last, ℕ, zero, suc, ◌+◌, ◌-◌, ◌*◌, ◌/◌, ◌%◌, ◌^◌, ◌≤◌, ◌<◌, min, String, ◌≡◌, refl, sym, ap,
  ◌∙◌, ◌≢◌, ◌↔◌, ◌⊎◌, inl, inr, ite, if_pos, if_neg, Bool, true, false, ◌&&◌, ◌||◌, not, Option,
  none, some, List, [], ◌∷◌, ◌++◌, map, arith,
}
use coold.Flux.Routing.Messages
use coold.Flux.Routing.Messages.{
  ServerCommand, ContainersCreateReq, ApplyIngressReq, FirewallRule, ContainersLogsReq,
}
use coold.Flux.Replies.{
  ℤ, pos, negsuc, ImageSummary, ContainerSummary, ProtoBody, images_pull_resp, images_list_resp,
  images_delete_resp, containers_create_resp, containers_start_resp, containers_stop_resp,
  containers_restart_resp, containers_delete_resp, containers_inspect_resp, containers_list_resp,
  containers_logs_resp, containers_exec_resp, containers_healthcheck_run_resp, ingress_apply_resp,
  ingress_stop_resp, firewall_allow_resp, firewall_revoke_resp, firewall_list_resp,
  firewall_reconcile_resp, coold_logs_resp, corrosion_tables_resp, host_jwt_set_resp, error_resp,
  ProtoResponse, JsonLibrary, container_json, image_json, rule_json, output_json, list_json,
  body_json, try_from_proto,
}
use coold.Agent.Podman.{
  NetworkEntry, ContainerState, ContainerInspect, Container, NamespaceConfig, non_empty, or_else,
  unwrap_or, first,
}
use coold.Agent.Containers.{
  find_mesh, mesh_dns_search_domain, default_dns, default_dns_search, apply_mesh_dns_defaults,
  networks_of, summary_of, summaries_of,
}
use coold.Agent.Ingress.{
  max_config, is_network_char, is_valid_podman_network_name, is_file_char, caddy_app_file_name,
  check_caddy,
}

pub record Image : Type 0 where
  pub id : String
  pub repo_tags : List String
  pub repo_digests : List String
  pub size : ℤ
  pub created : String

-- An operation of the host.
abbrev pub Op : Type 0 → Type 0 → Type 0
Op S A = S → S × Result String A

pub record Host (S : Type 0) : Type 0 where
  pub pull_image : String → Op S (String × String)
  pub list_images : Op S (List Image)
  pub delete_image : String → Bool → Op S String
  pub mesh_network_gateway : S → String → Result String String
  pub create_container : ContainersCreateReq → Op S String
  pub start_container : String → Op S String
  pub stop_container : String → ℕ → Op S String
  pub restart_container : String → ℕ → Op S String
  pub delete_container : String → Bool → Op S String
  pub inspect_container_json : String → Op S String
  pub list_containers : Op S (List Container)
  pub inspect_container : S → String → Result String ContainerInspect
  pub container_logs : ContainersLogsReq → Op S String
  pub exec_container : String → List String → Op S (ℤ × String)
  pub run_healthcheck : String → Op S String
  pub journal : ℕ → Op S String
  pub tables_json : ℕ → Op S String
  pub install_caddy : ApplyIngressReq → Op S String
  pub stop_caddy_ingress : Op S String
  pub firewall_allow : FirewallRule → Op S (String × String)
  pub firewall_revoke : String → Op S String
  pub firewall_list : String → Op S (List FirewallRule)
  pub firewall_reconcile : Op S String
  pub apply_host_jwt : String → Op S Bool

unfoldable pub command_type : ServerCommand → String
command_type Messages.ping = "ping"
command_type (Messages.images_pull _) = "images.pull"
command_type Messages.images_list = "images.list"
command_type (Messages.images_delete _ _) = "images.delete"
command_type (Messages.containers_create _) = "containers.create"
command_type (Messages.containers_start _) = "containers.start"
command_type (Messages.containers_stop _) = "containers.stop"
command_type (Messages.containers_restart _ _) = "containers.restart"
command_type (Messages.containers_delete _ _) = "containers.delete"
command_type (Messages.containers_inspect _) = "containers.inspect"
command_type Messages.containers_list = "containers.list"
command_type (Messages.containers_logs _) = "containers.logs"
command_type (Messages.containers_exec _ _) = "containers.exec"
command_type (Messages.containers_healthcheck_run _) = "containers.healthcheck.run"
command_type (Messages.ingress_apply _) = "ingress.apply"
command_type (Messages.ingress_stop _) = "ingress.stop"
command_type (Messages.firewall_allow _) = "firewall.allow"
command_type (Messages.firewall_revoke _) = "firewall.revoke"
command_type (Messages.firewall_list _) = "firewall.list"
command_type Messages.firewall_reconcile = "firewall.reconcile"
command_type (Messages.coold_logs _) = "coold.logs"
command_type (Messages.corrosion_tables _) = "corrosion.tables"
command_type (Messages.host_jwt_set _) = "host.jwt.set"

unfoldable pub body_type : ProtoBody → String
body_type (images_pull_resp _ _) = "images.pull"
body_type (images_list_resp _) = "images.list"
body_type (images_delete_resp _) = "images.delete"
body_type (containers_create_resp _) = "containers.create"
body_type (containers_start_resp _) = "containers.start"
body_type (containers_stop_resp _) = "containers.stop"
body_type (containers_restart_resp _) = "containers.restart"
body_type (containers_delete_resp _) = "containers.delete"
body_type (containers_inspect_resp _) = "containers.inspect"
body_type (containers_list_resp _) = "containers.list"
body_type (containers_logs_resp _) = "containers.logs"
body_type (containers_exec_resp _ _) = "containers.exec"
body_type (containers_healthcheck_run_resp _) = "containers.healthcheck.run"
body_type (ingress_apply_resp _) = "ingress.apply"
body_type (ingress_stop_resp _) = "ingress.stop"
body_type (firewall_allow_resp _ _) = "firewall.allow"
body_type (firewall_revoke_resp _) = "firewall.revoke"
body_type (firewall_list_resp _) = "firewall.list"
body_type (firewall_reconcile_resp _) = "firewall.reconcile"
body_type (coold_logs_resp _) = "coold.logs"
body_type (corrosion_tables_resp _) = "corrosion.tables"
body_type (host_jwt_set_resp _) = "host.jwt.set"
body_type (error_resp _ _) = "error"

unfoldable pub response_body_type : Option ProtoBody → String
unfolding body_type
response_body_type none = "none"
response_body_type (some body) = body_type body

unfoldable pub error_body : String → ProtoBody
error_body e = error_resp 500 e

abbrev pub image_summary : Image → ImageSummary
image_summary image = record {
  id = image.id;
  repo_tags = image.repo_tags;
  repo_digests = image.repo_digests;
  size = image.size;
  created = image.created;
}

-- `impl From<ProtoFirewallRule> for FirewallRule`; the two records have the same fields.
unfoldable pub rule_of_proto : FirewallRule → FirewallRule
rule_of_proto rule = record rule { proto = if is_empty rule.proto then "tcp" else rule.proto }

-- `tail.clamp(1, 1000)`
unfoldable pub clamp_tail : ℕ → ℕ
clamp_tail tail = if ltb tail 1 then 1 else if ltb 1000 tail then 1000 else tail

-- The `match` on an operation's result, and what is made of a success.
unfoldable pub body_of : {A : Type 0} → (A → ProtoBody) → Result String A → ProtoBody
unfolding error_body
body_of f (ok a) = f a
body_of f (err e) = error_body e
