-- ===== src/Agent/Handlers/Answers.antt =====
-- What `handle` (coold/src/grpc/handlers.rs) sends back.
use coold.Prelude.{
  string_eq, nat_eq, Result, ok, err, Result-cases, String, ◌≡◌, refl, ◌≢◌, ◌⊎◌, inl, inr, none,
  some, List, [], ◌∷◌,
}
use coold.Flux.Routing.Messages
use coold.Flux.Routing.Messages.{ServerCommand}
use coold.Flux.Replies.{ProtoBody, containers_create_resp, ProtoResponse}
use coold.Agent.Containers.{apply_mesh_dns_defaults}
use coold.Agent.Handlers.{Host, command_type, body_type, response_body_type, error_body, body_of}
use coold.Agent.Handlers.Commands.{create, handle}

-- What was sent is one response, under the request id, with a body of the kind or an error.
abbrev pub AnswersWith : String → String → List ProtoResponse → Type 0
AnswersWith request_id kind sent =
    (resp : ProtoResponse) × (sent ≡ resp ∷ [])
    × (resp.request_id ≡ request_id)
    × ((response_body_type resp.body ≡ kind) ⊎ (response_body_type resp.body ≡ "error"))

answer_of :
    {A : Type 0} (request_id kind : String) (f : A → ProtoBody) (r : Result String A)
    → ((a : A) → body_type (f a) ≡ kind)
    → AnswersWith request_id kind
        (record { request_id = request_id; body = some (body_of f r) } ∷ [])
unfolding body_of response_body_type error_body body_type
answer_of request_id kind f (ok a) h = (_, refl, refl, inl (h a))
answer_of request_id kind f (err e) h = (_, refl, refl, inr refl)

refusal_of :
    (request_id kind e : String)
    → AnswersWith request_id kind
        (record { request_id = request_id; body = some (error_body e) } ∷ [])
unfolding response_body_type error_body body_type
refusal_of request_id kind e = (_, refl, refl, inr refl)

module _ {S : Type 0} (host : Host S) where
  create_answers :
      (request_id : String) (req : Messages.ContainersCreateReq) (s : S)
      → AnswersWith request_id "containers.create"
          (handle host request_id (Messages.containers_create req) s).1
  unfolding handle body_type
  create_answers request_id req s =
      elim (Result-cases (apply_mesh_dns_defaults (host.mesh_network_gateway s) req)) [
        | inl (input, fine) ↦
            rw (fine, handle, create)
              (answer_of request_id "containers.create" containers_create_resp
                (host.create_container input s).1 (λ a. refl))
        | inr (e, refused) ↦
            rw (refused, handle, create) (refusal_of request_id "containers.create" e)
      ]

  -- A command that is not a ping is answered exactly once, under its request id, with a body of its
  -- own kind or an error, whatever the host does.
  pub handle_answers :
      (request_id : String) (command : ServerCommand) (s : S)
      → command ≢ Messages.ping
      → AnswersWith request_id (command_type command) (handle host request_id command s).1
  unfolding handle body_type command_type
  handle_answers request_id Messages.ping s n = absurd (n refl)
  handle_answers request_id (Messages.containers_create req) s n = create_answers request_id req s
  handle_answers request_id (Messages.firewall_allow none) s n = refusal_of request_id _ _
  handle_answers request_id (Messages.firewall_allow (some rule)) s n = search answer_of
  handle_answers request_id _ s n = search answer_of
