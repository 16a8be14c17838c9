-- ===== src/Agent/Dial.antt =====
-- The part of coold/src/grpc/client.rs that decides with which token, to which URL and over what
-- channel the agent dials: `load_host_jwt`, `resolve_flux_url`, `flux_tls_config`,
-- `require_flux_tls` and `flux_tls_domain`. What the files hold and what the HTTP call gives are
-- arguments. An error is a constructor in place of its text.
use Prim.Native.Char.{code}
use coold.Prelude.{
  leb, if◌then◌else◌, string_eq, nat_eq, ◌==◌, Result, ok, err, ◌>>=◌, ok_or, is_empty, trim_start,
  trim, take_until, take_until_text, after_text, after_last, ℕ, ◌+◌, ◌%◌, String, Bool, true, false,
  ◌&&◌, ◌||◌, not, Option, none, some,
}

pub data DialError : Type 0 where
  not_found unreadable empty_token : DialError
  insecure_perms : ℕ → DialError
  post_failed undecoded empty_flux_url no_url : DialError
  bad_status : ℕ → String → DialError
  pin_unreadable https_without_pin : DialError

-- `mode() & 0o777`, the low nine bits of the mode.
abbrev pub permission_bits : ℕ → ℕ
permission_bits st_mode = st_mode % 512

-- `mode & 0o077 != 0`: a bit of the group or of the others.
unfoldable pub is_insecure : ℕ → Bool
is_insecure mode = not (mode % 64 == 0)

-- The mode of the file, if it can be examined, and its text, if it can be read.
unfoldable pub load_host_jwt : Option ℕ → Option String → Result DialError String
unfolding is_insecure trim
load_host_jwt metadata contents = do
  st_mode ← ok_or metadata not_found
  _ ←
      (if is_insecure (permission_bits st_mode)
        then err (insecure_perms (permission_bits st_mode))
        else ok st_mode)
  raw ← ok_or contents unreadable
  if is_empty (trim raw) then err empty_token else ok (trim raw)

-- What the POST to the assignment URL gives: nothing, or a status, the text of the body and what
-- it decodes to.
pub data Assignment : Type 0 where
  not_sent : Assignment
  responded : ℕ → Option String → Option String → Assignment

-- `status.is_success()`
abbrev pub is_success : ℕ → Bool
is_success status = leb 200 status && leb status 299

abbrev pub text_or_default : Option String → String
text_or_default none = ""
text_or_default (some s) = s

unfoldable pub assigned_url : Assignment → Result DialError String
unfolding trim
assigned_url not_sent = err post_failed
assigned_url (responded status text flux_url) =
    if not (is_success status)
    then err (bad_status status (text_or_default text))
    else (elim flux_url [
      | none ↦ err undecoded
      | some url ↦ if is_empty (trim url) then err empty_flux_url else ok url
    ])

-- `post` is the POST with the token to an assignment URL.
unfoldable pub resolve_flux_url :
    (String → String → Assignment)
    → Option String
    → Option String
    → String
    → Result DialError String
unfolding assigned_url
resolve_flux_url post (some assignment_url) flux_url jwt = assigned_url (post assignment_url jwt)
resolve_flux_url post none flux_url jwt = ok_or flux_url no_url

-- `to_ascii_lowercase`, of one character
unfoldable pub lower : ℕ → ℕ
lower c = if leb b'A' c && leb c b'Z' then c + 32 else c

-- `to_ascii_lowercase().starts_with(p)`
unfoldable pub lower_starts_with : String → String → Bool
unfolding lower
lower_starts_with String.[] s = true
lower_starts_with (String.◌∷◌ c p) String.[] = false
lower_starts_with (String.◌∷◌ c p) (String.◌∷◌ d s) =
    let rest = lower_starts_with p s in if code c == lower (code d) then rest else false

unfoldable pub require_flux_tls : String → Bool → Result DialError Bool
unfolding trim_start lower_starts_with
require_flux_tls url pin_present =
    if pin_present
    then ok true
    else if lower_starts_with "https://" (trim_start url)
    then err https_without_pin
    else ok false

-- `[..].contains` of the characters that end the authority of a URL
abbrev pub ends_authority : ℕ → Bool
ends_authority c = c == b'/' || (c == b'?' || c == b'#')

abbrev pub unwrap_or : Option String → String → String
unwrap_or none s = s
unwrap_or (some t) s = t

unfoldable pub without_scheme : String → String
unfolding after_text take_until_text
without_scheme url = elim (after_text "://" url) [
  | some rest ↦ take_until_text "://" rest
  | none ↦ url
]

unfoldable pub flux_tls_domain : String → Option String
unfolding without_scheme take_until after_last trim
flux_tls_domain url =
    let authority = take_until ends_authority (without_scheme url) in
    let host = unwrap_or (after_last b'@' authority) authority in
    let domain = trim (take_until (λ c. c == b':') host) in
    if is_empty domain then none else some domain

-- What reading the pin file gives.
pub data PinFile : Type 0 where
  pinned : String → PinFile
  no_pin pin_error : PinFile

-- The certificate that the channel is pinned to, and the domain that is verified.
pub record FluxTls : Type 0 where
  pub certificate : String
  pub domain : Option String

-- Without a pin file `require_flux_tls` is never `Ok(true)`, where the source would panic.
unfoldable pub flux_tls_config : String → PinFile → Result DialError (Option FluxTls)
unfolding require_flux_tls flux_tls_domain
flux_tls_config url pin_error = err pin_unreadable
flux_tls_config url no_pin = require_flux_tls url false >>= (λ _. ok none)
flux_tls_config url (pinned pem) = require_flux_tls url true >>= (λ pin.
    ok (if pin then some (record { certificate = pem; domain = flux_tls_domain url }) else none))
