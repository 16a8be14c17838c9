-- ===== src/Agent/Containers.antt =====
-- The commands on containers that coold/src/grpc/handlers.rs does more for than to call Podman: the
-- DNS defaults of a new container, and the list with the networks of each.
use Prim.Native.String.{◌++◌ as append}
use coold.Prelude.{
  if◌then◌else◌, and_then, string_eq, nat_eq, Result, ok, err, ◌>>=◌, strip_prefix, starts_with,
  strip_suffix, ends_with, trim_slashes, String, ◌&&◌, Option, none, some, List, [], ◌∷◌, map,
}
use coold.Flux.Replies.{ContainerSummary}
use coold.Flux.Routing.Messages.{ContainersCreateReq}
use coold.Agent.Podman.{ContainerInspect, Container, non_empty, unwrap_or, first}

-- `find`
unfoldable pub find_mesh : List String → Option String
unfolding starts_with ends_with
find_mesh [] = none
find_mesh (network ∷ networks) =
    let rest = find_mesh networks in
    if starts_with "coolify-" network && ends_with "-mesh" network then some network else rest

unfoldable pub mesh_dns_search_domain : String → Result String String
unfolding strip_prefix strip_suffix
mesh_dns_search_domain mesh_network =
    elim (non_empty (and_then (strip_prefix "coolify-" mesh_network) (strip_suffix "-mesh"))) [
      | some namespace ↦ ok (append namespace ".coolify.internal")
      | none ↦ err "invalid mesh network name"
    ]

module _ (mesh_network_gateway : String → Result String String) where
  unfoldable pub default_dns : String → ContainersCreateReq → Result String ContainersCreateReq
  default_dns network input = elim input.dns [
    | _ ∷ _ ↦ ok input
    | [] ↦ do gateway ← mesh_network_gateway network; ok (record input { dns = gateway ∷ [] })
  ]

  unfoldable pub default_dns_search :
      String → ContainersCreateReq → Result String ContainersCreateReq
  unfolding mesh_dns_search_domain
  default_dns_search network input = elim input.dns_search [
    | _ ∷ _ ↦ ok input
    | [] ↦ do
      domain ← mesh_dns_search_domain network
      ok (record input { dns_search = domain ∷ [] })
  ]

  unfoldable pub apply_mesh_dns_defaults : ContainersCreateReq → Result String ContainersCreateReq
  unfolding find_mesh default_dns default_dns_search
  apply_mesh_dns_defaults input = elim (find_mesh input.networks) [
    | none ↦ ok input
    | some network ↦ do with_dns ← default_dns network input; default_dns_search network with_dns
  ]

-- The networks of a container, from what inspecting it gave.
unfoldable pub networks_of : Result String ContainerInspect → List String
networks_of (err e) = []
networks_of (ok inspect) = elim inspect.networks [
  | none ↦ []
  | some networks ↦ map (λ (name, _). name) networks
]

unfoldable pub summary_of : Container → Result String ContainerInspect → ContainerSummary
unfolding trim_slashes networks_of
summary_of c inspect_result = record {
  id = c.id;
  name = trim_slashes (unwrap_or (first c.names) "");
  image = c.image;
  state = c.state;
  networks = networks_of inspect_result;
}

-- What `containers_list` makes of Podman's list; `inspect` is what inspecting an id gave.
unfoldable pub summaries_of :
    (String → Result String ContainerInspect) → List Container → List ContainerSummary
unfolding summary_of
summaries_of inspect containers = map (λ c. summary_of c (inspect c.id)) containers
