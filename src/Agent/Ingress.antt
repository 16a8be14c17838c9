-- ===== src/Agent/Ingress.antt =====
-- The checks that coold/src/grpc/handlers.rs makes of an ingress before it touches the host. What
-- comes after them (files, `podman`, the firewall of the host) is a parameter of the handlers.
use Prim.Native.String.{◌++◌ as append}
use coold.Prelude.{
  ltb, leb, if◌then◌else◌, string_eq, nat_eq, ◌==◌, any, Result, ok, err, is_empty, trim_is_empty,
  byte_length, all_chars, is_alphanumeric, ℕ, ◌*◌, String, Bool, true, ◌&&◌, ◌||◌, not,
}
use coold.Flux.Routing.Messages.{ApplyIngressReq, ProtoIngressAppConfig}

abbrev pub max_config : ℕ
max_config = 256 * 1024

unfoldable pub is_network_char : ℕ → Bool
unfolding is_alphanumeric
is_network_char byte = is_alphanumeric byte || (byte == b'.' || (byte == b'_' || byte == b'-'))

unfoldable pub is_valid_podman_network_name : String → Bool
unfolding is_network_char byte_length all_chars
is_valid_podman_network_name value =
    not (is_empty value) && (leb (byte_length value) 128 && all_chars is_network_char value)

unfoldable pub is_file_char : ℕ → Bool
unfolding is_alphanumeric
is_file_char byte = is_alphanumeric byte || (byte == b'_' || byte == b'-')

unfoldable pub caddy_app_file_name : String → Result String String
unfolding is_file_char byte_length all_chars
caddy_app_file_name value =
    if is_empty value || (ltb 128 (byte_length value) || not (all_chars is_file_char value))
    then err "invalid Caddy app file name"
    else ok (append value ".caddy")

-- The checks of `apply_caddy_ingress` before its first write.
unfoldable pub check_caddy : ApplyIngressReq → Result String Bool
unfolding trim_is_empty byte_length is_valid_podman_network_name any
check_caddy req =
    if trim_is_empty req.config
    then err "caddyfile is empty"
    else if ltb max_config (byte_length req.config)
        || any (λ (app : ProtoIngressAppConfig). ltb max_config (byte_length app.config)) req.apps
    then err "caddyfile is too large"
    else if not (is_valid_podman_network_name req.mesh_network)
    then err "invalid mesh network name"
    else ok true
