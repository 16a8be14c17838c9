-- ===== src/Flux/Replies.antt =====
-- The answers of a host: `Response` of proto/agent.proto, and `ResponseBody::try_from_proto` of
-- flux/src/envelope.rs, which turns one into JSON. The JSON library (`serde_json`) is the parameter
-- `JsonLibrary`.
use coold.Prelude.{string_eq, nat_eq, ℕ, String, Bool, Option, none, some, List, [], ◌∷◌, map}
use coold.Flux.Envelope.{ResponseBody, ok_body, error_body}
use coold.Flux.Routing.Messages.{FirewallRule}

-- A signed number of the protocol.
pub data ℤ : Type 0 where
  pos : ℕ → ℤ
  negsuc : ℕ → ℤ

pub record ImageSummary : Type 0 where
  pub id : String
  pub repo_tags : List String
  pub repo_digests : List String
  pub size : ℤ
  pub created : String

pub record ContainerSummary : Type 0 where
  pub id : String
  pub name : String
  pub image : String
  pub state : String
  pub networks : List String

-- `response::Body`, with the fields of its messages.
pub data ProtoBody : Type 0 where
  images_pull_resp : String → String → ProtoBody
  images_list_resp : List ImageSummary → ProtoBody
  images_delete_resp : String → ProtoBody
  containers_create_resp : String → ProtoBody
  containers_start_resp : String → ProtoBody
  containers_stop_resp : String → ProtoBody
  containers_restart_resp : String → ProtoBody
  containers_delete_resp : String → ProtoBody
  containers_inspect_resp : String → ProtoBody
  containers_list_resp : List ContainerSummary → ProtoBody
  containers_logs_resp : String → ProtoBody
  containers_exec_resp : ℤ → String → ProtoBody
  containers_healthcheck_run_resp : String → ProtoBody
  ingress_apply_resp : String → ProtoBody
  ingress_stop_resp : String → ProtoBody
  firewall_allow_resp : String → String → ProtoBody
  firewall_revoke_resp : String → ProtoBody
  firewall_list_resp : List FirewallRule → ProtoBody
  firewall_reconcile_resp : String → ProtoBody
  coold_logs_resp : String → ProtoBody
  corrosion_tables_resp : String → ProtoBody
  host_jwt_set_resp : Bool → ProtoBody
  -- code, message
  error_resp : ℕ → String → ProtoBody

pub record ProtoResponse : Type 0 where
  pub request_id : String
  pub body : Option ProtoBody

-- What `serde_json` makes: `json!` of an object, of a text, and so on; `to_value` of a list, and
-- `from_str`.
pub record JsonLibrary : Type 1 where
  pub Json : Type 0
  pub object : List (String × Json) → Json
  pub text : String → Json
  pub texts : List String → Json
  pub number : ℤ → Json
  pub boolean : Bool → Json
  pub null : Json
  pub to_value : List Json → Option Json
  pub from_str : String → Option Json

module _ (json : JsonLibrary) where
  open json use {Json, object, text, texts, number, boolean, null, to_value, from_str}

  abbrev pub container_json : ContainerSummary → Json
  container_json c = object (
      ("id", text c.id)
      ∷ ("name", text c.name)
      ∷ ("image", text c.image)
      ∷ ("state", text c.state)
      ∷ ("networks", texts c.networks)
      ∷ [])

  abbrev pub image_json : ImageSummary → Json
  image_json image = object (
      ("id", text image.id)
      ∷ ("repo_tags", texts image.repo_tags)
      ∷ ("repo_digests", texts image.repo_digests)
      ∷ ("size", number image.size)
      ∷ ("created", text image.created)
      ∷ [])

  abbrev pub rule_json : FirewallRule → Json
  rule_json rule = object (
      ("id", text rule.id)
      ∷ ("namespace", text rule.namespace)
      ∷ ("src", text rule.src)
      ∷ ("dst", text rule.dst)
      ∷ ("proto", text rule.proto)
      ∷ ("port", number (pos rule.port))
      ∷ [])

  abbrev pub output_json : String → Json
  output_json output = object (("output", text output) ∷ [])

  -- `to_value(…).unwrap_or(Value::Null)`
  abbrev pub list_json : List Json → Json
  list_json values = elim (to_value values) [ none ↦ null | some v ↦ v ]

  unfoldable pub body_json : ProtoBody → ResponseBody Json
  body_json (containers_list_resp containers) = ok_body (list_json (map container_json containers))
  body_json (images_pull_resp digest output) =
      ok_body (object (("digest", text digest) ∷ ("output", text output) ∷ []))
  body_json (images_list_resp images) = ok_body (list_json (map image_json images))
  body_json (images_delete_resp output) = ok_body (output_json output)
  body_json (containers_create_resp id) = ok_body (object (("id", text id) ∷ []))
  body_json (containers_start_resp output) = ok_body (output_json output)
  body_json (containers_stop_resp output) = ok_body (output_json output)
  body_json (containers_restart_resp output) = ok_body (output_json output)
  body_json (containers_delete_resp output) = ok_body (output_json output)
  body_json (containers_inspect_resp inspected) = ok_body (elim (from_str inspected) [
    | some value ↦ value
    | none ↦ object (("raw", text inspected) ∷ [])
  ])
  body_json (containers_logs_resp output) = ok_body (output_json output)
  body_json (containers_exec_resp exit_code output) =
      ok_body (object (("exit_code", number exit_code) ∷ ("output", text output) ∷ []))
  body_json (containers_healthcheck_run_resp output) = ok_body (output_json output)
  body_json (ingress_apply_resp output) = ok_body (output_json output)
  body_json (ingress_stop_resp output) = ok_body (output_json output)
  body_json (firewall_allow_resp id output) =
      ok_body (object (("id", text id) ∷ ("output", text output) ∷ []))
  body_json (firewall_revoke_resp output) = ok_body (output_json output)
  body_json (firewall_list_resp rules) = ok_body (list_json (map rule_json rules))
  body_json (firewall_reconcile_resp output) = ok_body (output_json output)
  body_json (coold_logs_resp output) = ok_body (output_json output)
  body_json (corrosion_tables_resp output) = ok_body (output_json output)
  body_json (host_jwt_set_resp applied) = ok_body (object (("applied", boolean applied) ∷ []))
  body_json (error_resp code message) = error_body code message

  unfoldable pub try_from_proto : ProtoResponse → Option (ResponseBody Json)
  unfolding body_json
  try_from_proto resp = elim resp.body [
    | some body ↦ some (body_json body)
    | none ↦ some (error_body 500 "empty response body")
  ]
