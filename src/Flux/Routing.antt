-- ===== src/Flux/Routing.antt =====
-- flux/src/routing.rs: where a dispatched command goes. The messages are those of
-- proto/agent.proto; the text of a refusal is put together by `append`.
pub mod Messages
pub mod Outcomes
use Prim.Native.String.{◌++◌ as append}
use coold.Prelude.{
  ltb, leb, if◌then◌else◌, Bool-cases, Option-cases, and_then, Eq, String-discrete, string_eq,
  nat_eq, ◌==◌, ==_iff, ==_refl, contains, length, length-append, filter, any, length-filter-le,
  All, Map, lookup, insert, remove, contains_key, HasKey, NodupKeys, lookup-insert, lookup-remove,
  insert-NodupKeys, remove-NodupKeys, remove_absent, length-insert, length-remove-le, map_laws,
  str_leb, insert_sorted, sort_by_key, lookup-sort_by_key, sort_by_key-NodupKeys, Result, ok, err,
  ◌>>=◌, Result-cases, ok_or, ok_only, is_empty, strip_prefix, starts_with, strip_suffix, ends_with,
  contains_text, is_whitespace, trim_is_empty, trim_start, trim_end, trim, trim_slashes,
  utf8_length, byte_length, all_chars, is_alphanumeric, take_until, take_until_text, after_text,
  after_last, ℕ, zero, suc, ◌+◌, ◌-◌, ◌*◌, ◌/◌, ◌%◌, ◌^◌, ◌≤◌, ◌<◌, min, String, ◌≡◌, refl, sym, ap,
  ◌∙◌, ◌≢◌, ◌↔◌, ◌⊎◌, inl, inr, ite, if_pos, if_neg, Bool, true, false, ◌&&◌, ◌||◌, not, Option,
  none, some, List, [], ◌∷◌, ◌++◌, map, arith,
}
use coold.Flux.Streams.{
  StreamHandle, StreamEntry, Streams, new, entry_of, insert_stream, update_capabilities,
  remove_stream, handle_of, get_stream, get_tx, len, touch, ping_targets, is_stale,
  mark_stale_entries, stale_hosts,
}
use coold.Flux.Envelope.{
  PortMapping, IngressAppConfig, ContainersCreate, CommandPayload, images_pull, images_list,
  images_delete, containers_create, containers_start, containers_stop, containers_restart,
  containers_delete, containers_inspect, containers_list, containers_logs, containers_exec,
  containers_healthcheck_run, apply_ingress, stop_ingress, firewall_allow, firewall_revoke,
  firewall_list, firewall_reconcile, coold_logs, corrosion_tables, host_jwt_set, DispatchEnvelope,
  command_kind, ResponseBody, ok_body, error_body, ResponseEnvelope,
}
use coold.Flux.Routing.Messages
use coold.Flux.Routing.Messages.{
  ProtoPortMapping, ProtoIngressAppConfig, FirewallRule, ContainersCreateReq, ContainersStopReq,
  ContainersLogsReq, ApplyIngressReq, ServerCommand, ping, ingress_apply, ingress_stop, ServerMsg,
  proto_port, proto_app, create_req, command_of,
}

pub data RouteOutcome : Type 0 where
  send_coold : String → ServerMsg → RouteOutcome
  push_error : ℕ → String → RouteOutcome

unfoldable pub required_capability : CommandPayload → String
required_capability (CommandPayload.images_pull _) = "images.pull"
required_capability CommandPayload.images_list = "images.list"
required_capability (CommandPayload.images_delete _ _) = "images.delete"
required_capability (CommandPayload.containers_create _) = "containers.create"
required_capability (CommandPayload.containers_start _) = "containers.start"
required_capability (CommandPayload.containers_stop _ _) = "containers.stop"
required_capability (CommandPayload.containers_restart _ _) = "containers.restart"
required_capability (CommandPayload.containers_delete _ _) = "containers.delete"
required_capability (CommandPayload.containers_inspect _) = "containers.inspect"
required_capability CommandPayload.containers_list = "containers.list"
required_capability (CommandPayload.containers_logs _ _ _ _) = "containers.logs"
required_capability (CommandPayload.containers_exec _ _) = "containers.exec"
required_capability (CommandPayload.containers_healthcheck_run _) = "containers.healthcheck.run"
required_capability (CommandPayload.apply_ingress _ _ _ _) = "ingress.apply"
required_capability (CommandPayload.stop_ingress _) = "ingress.stop"
required_capability (CommandPayload.firewall_allow _ _ _ _ _ _) = "firewall.allow"
required_capability (CommandPayload.firewall_revoke _) = "firewall.revoke"
required_capability (CommandPayload.firewall_list _) = "firewall.list"
required_capability CommandPayload.firewall_reconcile = "firewall.reconcile"
required_capability (CommandPayload.coold_logs _) = "coold.logs"
required_capability (CommandPayload.corrosion_tables _) = "corrosion.tables"
required_capability (CommandPayload.host_jwt_set _) = "host.jwt.set"

abbrev pub not_authorized_text : String → String
not_authorized_text capability =
    append "capability " (append capability " is not authorized for this host token")

abbrev pub not_supported_text : String → String
not_supported_text capability = append "primitive " (append capability " is not supported by host")

module _ {Tx : Type 0} where
  -- What `route_coold` does once the host's stream is found.
  unfoldable pub route_to : StreamHandle Tx → DispatchEnvelope → RouteOutcome
  unfolding required_capability command_of contains
  route_to stream env =
      let capability = required_capability env.command in
      if not (contains stream.caps capability)
      then if contains stream.advertised_caps capability
        then push_error 403 (not_authorized_text capability)
        else push_error 501 (not_supported_text capability)
      else send_coold env.host_id
          (record { request_id = env.request_id; command = some (command_of env.command) })

  unfoldable pub route_coold : Streams Tx → DispatchEnvelope → RouteOutcome
  unfolding get_stream route_to
  route_coold streams env = elim (get_stream streams env.host_id) [
    | none ↦ push_error 404 "host not connected"
    | some stream ↦ route_to stream env
  ]
