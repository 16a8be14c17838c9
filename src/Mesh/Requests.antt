-- ===== src/Mesh/Requests.antt =====
-- `build_desired` of coolify-cli/src/commands/init/mod.rs, with the checks of coolify-cli/src/meshnet.rs
-- on names: from the flags of a command to what is desired of the mesh. The regular expressions are
-- read out; the parser of networks, the generator of certificates and the lower case are parameters.
pub mod Safe
use Prim.Native.Char.{code}
use Prim.Native.String
use coold.Prelude.{
  ltb, leb, if◌then◌else◌, Bool-cases, Option-cases, and_then, Eq, String-discrete, string_eq,
  nat_eq, ◌==◌, ==_iff, ==_refl, contains, length, length-append, filter, any, length-filter-le,
  All, Map, lookup, insert, remove, contains_key, HasKey, NodupKeys, lookup-insert, lookup-remove,
  insert-NodupKeys, remove-NodupKeys, remove_absent, length-insert, length-remove-le, map_laws,
  str_leb, insert_sorted, sort_by_key, lookup-sort_by_key, sort_by_key-NodupKeys, Result, ok, err,
  ◌>>=◌, Result-cases, ok_or, ok_only, is_empty, strip_prefix, starts_with, strip_suffix, ends_with,
  contains_text, is_whitespace, trim_is_empty, trim_start, trim_end, trim, trim_slashes,
  utf8_length, byte_length, all_chars, is_alphanumeric, take_until, take_until_text, after_text,
  after_last, ℕ, zero, suc, ◌+◌, ◌-◌, ◌*◌, ◌/◌, ◌%◌, ◌^◌, ◌≤◌, ◌<◌, min, String, ◌≡◌, refl, sym, ap,
  ◌∙◌, ◌≢◌, ◌↔◌, ◌⊎◌, inl, inr, ite, if_pos, if_neg, Bool, true, false, ◌&&◌, ◌||◌, not, Option,
  none, some, List, [], ◌∷◌, ◌++◌, map, arith,
}
use coold.Agent.Rules.{to_string, first_code}
use coold.Mesh.Intent.{DesiredMesh, Intent}
use coold.Mesh.Subnets.{NetLibrary}
use coold.Mesh.Config.{parse_u16}
use coold.Mesh.Texts.{
  concat, join_with, insert_text, sort_texts, insert_once, set_of, difference, heredoc,
}
use coold.Mesh.State.{
  Peer, NamespaceServerState, ServerState, unknown_server, MeshState, TlsPair, MeshRequest,
  assigned_mgmt_ips, is_node, coold_flux_config, sorted_namespaces, listen_port_for, endpoint_for,
  assigned_of, assigned_from, assigned_container_subnets,
}

-- `BaseInitFlags`, with the fields of `SshMeshFlags` and `MeshNetMultiFlags` that are read.
pub record BaseInitFlags : Type 0 where
  pub nodes : List String
  pub ssh_key : Bool
  pub ssh_config : Bool
  pub namespaces : List String
  pub container_pool : String
  pub container_prefix : ℕ
  pub wg_interface : String
  pub wg_mgmt_pool : String
  pub wg_listen_port : ℕ
  pub wg_listen_port_overrides : List String
  pub wg_endpoint_overrides : List String
  pub skip_default_deny : Bool
  pub coold_version : String
  pub corrosion_version : String
  pub corrosion_gossip_port : ℕ
  pub corrosion_api_port : ℕ
  pub coold_sha256 : Option String
  pub corrosion_sha256 : Option String
  pub enable_corrosion_gossip_tls : Bool
  pub enable_flux_tls : Bool
  pub flux_tls_san : List String
  pub flux_port : ℕ

pub data FlagError : Type 0 where
  ssh_access_missing namespaces_missing interface_invalid nodes_missing : FlagError
  certificate_failed flux_san_missing pool_invalid : FlagError
  namespace_invalid namespace_duplicate version_invalid node_duplicate : String → FlagError
  override_invalid : String → FlagError

abbrev is_lower : ℕ → Bool
is_lower c = leb 97 c && leb c 122

abbrev is_digit : ℕ → Bool
is_digit c = leb 48 c && leb c 57

-- `[a-z0-9]`
unfoldable pub is_lower_or_digit : ℕ → Bool
is_lower_or_digit c = is_lower c || is_digit c

-- `[a-z0-9-]`
unfoldable pub is_label_char : ℕ → Bool
unfolding is_lower_or_digit
is_label_char c = is_lower_or_digit c || c == 45

-- `[a-zA-Z0-9]`
unfoldable pub is_letter_or_digit : ℕ → Bool
unfolding is_lower_or_digit
is_letter_or_digit c = is_lower_or_digit c || (leb 65 c && leb c 90)

-- `[a-zA-Z0-9._-]`
unfoldable pub is_name_char : ℕ → Bool
unfolding is_letter_or_digit
is_name_char c = is_letter_or_digit c || (c == 46 || (c == 95 || c == 45))

unfoldable pub last_code : String → ℕ
last_code String.[] = 0
last_code (String.◌∷◌ c s) = if is_empty s then code c else last_code s

-- `^[a-z0-9]([a-z0-9-]{0,61}[a-z0-9])?$`
unfoldable pub is_label : String → Bool
unfolding is_lower_or_digit is_label_char all_chars byte_length first_code last_code
is_label s =
    all_chars is_label_char s
    && (is_lower_or_digit (first_code s)
        && (is_lower_or_digit (last_code s) && leb (byte_length s) 63))

-- `^[a-zA-Z0-9][a-zA-Z0-9._-]{0,most}$`
unfoldable pub is_name : ℕ → String → Bool
unfolding is_letter_or_digit is_name_char all_chars byte_length first_code
is_name most s =
    all_chars is_name_char s
    && (is_letter_or_digit (first_code s) && leb (byte_length s) (most + 1))

-- `bail!` unless a condition holds
unfoldable pub require : {A : Type 0} → Bool → FlagError → Result FlagError A → Result FlagError A
require b e rest = if b then rest else err e

-- The loop of `validate_namespaces`; `none` is `Ok`.
unfoldable pub bad_namespace : List String → List String → Option FlagError
unfolding is_label
bad_namespace seen [] = none
bad_namespace seen (ns ∷ namespaces) =
    let rest = bad_namespace (ns ∷ seen) namespaces in
    if not (is_label ns)
    then some (namespace_invalid ns)
    else if contains seen ns
    then some (namespace_duplicate ns)
    else rest

unfoldable pub validate_namespaces : List String → Option FlagError
unfolding bad_namespace
validate_namespaces [] = some namespaces_missing
validate_namespaces (ns ∷ namespaces) = bad_namespace [] (ns ∷ namespaces)

unfoldable pub clean_hosts : List String → List String
unfolding trim
clean_hosts [] = []
clean_hosts (h ∷ hosts) =
    let rest = clean_hosts hosts in if is_empty (trim h) then rest else trim h ∷ rest

unfoldable pub mesh_hosts : List String → List String → Result FlagError (List String)
mesh_hosts seen [] = ok []
mesh_hosts seen (node ∷ nodes) =
    let rest = mesh_hosts seen nodes in
    let rest' = mesh_hosts (node ∷ seen) nodes in
    if is_empty node
    then rest
    else if contains seen node
    then err (node_duplicate node)
    else rest' >>= (λ out. ok (node ∷ out))

-- `split_once('=')`
unfoldable pub split_once : String → Option (String × String)
unfolding after_text take_until_text
split_once s = and_then (after_text "=" s) (λ v. some (take_until_text "=" s, v))

unfoldable pub port_override : String → Option (String × ℕ)
unfolding split_once trim
port_override value =
    and_then (split_once value) (λ e. and_then (parse_u16 e.1) (λ port. some (trim e.0, port)))

unfoldable pub parse_port_overrides : List String → Map String ℕ → Result FlagError (Map String ℕ)
unfolding port_override
parse_port_overrides [] out = ok out
parse_port_overrides (value ∷ values) out = elim (port_override value) [
  | none ↦ err (override_invalid value)
  | some (host, port) ↦ parse_port_overrides values (insert host port out)
]

unfoldable pub parse_endpoint_overrides :
    List String → Map String String → Result FlagError (Map String String)
unfolding split_once trim
parse_endpoint_overrides [] out = ok out
parse_endpoint_overrides (value ∷ values) out = elim (split_once value) [
  | none ↦ err (override_invalid value)
  | some (host, endpoint) ↦ parse_endpoint_overrides values (insert (trim host) (trim endpoint) out)
]

unfoldable pub find_host : (String → Bool) → List String → Option String
find_host p [] = none
find_host p (s ∷ sans) = let rest = find_host p sans in if p s then some s else rest

module _ (lib : NetLibrary) (parse_net : String → Option lib.Net)
    (self_signed : String → List String → Option TlsPair)
    (to_ascii_lowercase : String → String) where
  open lib use {Net}

  unfoldable pub is_localhost_san : String → Bool
  unfolding trim
  is_localhost_san san =
      contains ("localhost" ∷ "127.0.0.1" ∷ "::1" ∷ "0.0.0.0" ∷ "" ∷ [])
        (to_ascii_lowercase (trim san))

  abbrev some_pair : Option TlsPair → Result FlagError (Option TlsPair)
  some_pair none = err certificate_failed
  some_pair (some pair) = ok (some pair)

  unfoldable pub gossip_tls_of : BaseInitFlags → Result FlagError (Option TlsPair)
  gossip_tls_of base =
      if base.enable_corrosion_gossip_tls
      then some_pair (self_signed "coolify-corrosion-gossip" [])
      else ok none

  unfoldable pub flux_tls_of : BaseInitFlags → Result FlagError (Option TlsPair × Option String)
  unfolding clean_hosts find_host is_localhost_san concat
  flux_tls_of base =
      if base.enable_flux_tls
      then (let sans = clean_hosts base.flux_tls_san in
          elim (find_host (λ s. not (is_localhost_san s)) sans) [
            | none ↦ err flux_san_missing
            | some flux_host ↦ some_pair (self_signed "coolify-flux" sans) >>= (λ cert. ok (
              cert,
              some (concat ("https://" ∷ flux_host ∷ ":" ∷ to_string base.flux_port ∷ [])),
            ))
          ])
      else ok (none, none)

  abbrev net_of : String → Result FlagError Net
  net_of text = ok_or (parse_net text) pool_invalid

  -- What follows the checks on names and the certificates.
  unfoldable pub assemble :
      BaseInitFlags
      → Intent
      → List String
      → Bool
      → Bool
      → Option TlsPair
      → Option TlsPair × Option String
      → Result FlagError (MeshRequest Net)
  unfolding clean_hosts mesh_hosts parse_port_overrides parse_endpoint_overrides require
  assemble base intent new_nodes allow_replace allow_nightly gossip (flux, flux_url) =
      let nodes = clean_hosts base.nodes in
      require (ltb 0 (length nodes)) nodes_missing (
        mesh_hosts [] nodes >>= (λ hosts.
          parse_port_overrides base.wg_listen_port_overrides [] >>= (λ ports.
            parse_endpoint_overrides base.wg_endpoint_overrides [] >>= (λ endpoints.
              net_of base.wg_mgmt_pool >>= (λ mgmt_pool.
                net_of base.container_pool >>= (λ container_pool. ok (record {
                  desired = record {
                    nodes = nodes;
                    coold_version = base.coold_version;
                    corrosion_version = base.corrosion_version;
                    intent = intent;
                    new_nodes = clean_hosts new_nodes;
                    allow_replace = allow_replace;
                    allow_nightly = allow_nightly;
                  };
                  hosts = hosts;
                  interface = base.wg_interface;
                  mgmt_pool = mgmt_pool;
                  container_pool = container_pool;
                  container_prefix = base.container_prefix;
                  listen_port = base.wg_listen_port;
                  listen_port_overrides = ports;
                  endpoint_overrides = endpoints;
                  install_podman = true;
                  namespaces = base.namespaces;
                  default_deny_containers = not base.skip_default_deny;
                  install_coold = true;
                  corrosion_gossip_port = base.corrosion_gossip_port;
                  corrosion_api_port = base.corrosion_api_port;
                  coold_sha256 = base.coold_sha256;
                  corrosion_sha256 = base.corrosion_sha256;
                  corrosion_gossip_tls = gossip;
                  flux_tls = flux;
                  flux_tls_url = flux_url;
                })))))))

  unfoldable pub build_desired :
      BaseInitFlags → Intent → List String → Bool → Bool → Result FlagError (MeshRequest Net)
  unfolding require validate_namespaces is_name gossip_tls_of flux_tls_of assemble
  build_desired base intent new_nodes allow_replace allow_nightly =
      require (base.ssh_key || base.ssh_config) ssh_access_missing
        (elim (validate_namespaces base.namespaces) [
          | some e ↦ err e
          | none ↦ require (is_name 14 base.wg_interface) interface_invalid (
              require (is_name 63 base.coold_version) (version_invalid base.coold_version) (
                require (is_name 63 base.corrosion_version) (version_invalid base.corrosion_version)
                  (gossip_tls_of base >>= (λ gossip. flux_tls_of base >>= (λ flux.
                    assemble base intent new_nodes allow_replace allow_nightly gossip flux)))))
        ])
