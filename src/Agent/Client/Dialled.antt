-- ===== src/Agent/Client/Dialled.antt =====
-- With what the agent dials (`run`, `load_host_jwt` and `flux_tls_config` of
-- coold/src/grpc/client.rs).
use coold.Prelude.{
  string_eq, nat_eq, ok, Result-cases, is_empty, trim_start, trim, ℕ, ◌%◌, String, ◌≡◌, refl, ◌∙◌,
  ◌⊎◌, inl, inr, false, Option, none, some, arith,
}
use coold.Agent.Dial.{
  permission_bits, is_insecure, load_host_jwt, resolve_flux_url, lower_starts_with,
  require_flux_tls, flux_tls_domain, PinFile, pinned, no_pin, pin_error, FluxTls, flux_tls_config,
}
use coold.Agent.Client.{
  next_backoff_after_delay, retry_delay_for_error, Surroundings, connect_and_serve, after_served,
  turn,
}

private_mode : (st_mode : ℕ) → is_insecure (permission_bits st_mode) ≡ false → st_mode % 64 ≡ 0
private_mode st_mode h =
    let low : st_mode % 512 % 64 ≡ 0 = unfold is_insecure in ground arith in omega arith

load_host_jwt-Grounds :
    (metadata : Option ℕ) (contents : Option String) (jwt : String)
    → load_host_jwt metadata contents ≡ ok jwt
    → (st_mode : ℕ) × (raw : String) × (metadata ≡ some st_mode)
      × (st_mode % 64 ≡ 0)
      × (contents ≡ some raw)
      × (trim raw ≡ jwt)
      × (is_empty jwt ≡ false)
load_host_jwt-Grounds none contents jwt h = unfold load_host_jwt in cc
load_host_jwt-Grounds (some st_mode) none jwt h = unfold load_host_jwt in ground arith
load_host_jwt-Grounds (some st_mode) (some raw) jwt h = (
  st_mode,
  raw,
  refl,
  private_mode st_mode (unfold load_host_jwt in ground arith),
  refl,
  unfold load_host_jwt in ground arith,
  unfold load_host_jwt in ground arith,
)

-- The settings of the channel: none where there is no pin and the URL is not https in any letter
-- case, or the pin's.
abbrev pub IsPinned : String → PinFile → Option FluxTls → Type 0
IsPinned url pin tls =
    ((pin ≡ no_pin) × (lower_starts_with "https://" (trim_start url) ≡ false) × (tls ≡ none))
    ⊎ ((pem : String) × (pin ≡ pinned pem)
        × (tls ≡ some (record { certificate = pem; domain = flux_tls_domain url })))

flux_tls_config-IsPinned :
    (url : String) (pin : PinFile) (tls : Option FluxTls)
    → flux_tls_config url pin ≡ ok tls
    → IsPinned url pin tls
unfolding flux_tls_config require_flux_tls
flux_tls_config-IsPinned url pin_error tls h = cc
flux_tls_config-IsPinned url no_pin tls h = inl (refl, ground arith, ground arith)
flux_tls_config-IsPinned url (pinned pem) tls h = inr (pem, refl, ground arith)

-- The turn waits its back-off without dialling, or it dials with the token of a file that is not
-- readable by group or others, and with a channel that is pinned.
abbrev pub DialsSafely : Surroundings → ℕ → Type 0
DialsSafely env b =
    (turn env b ≡ (b, next_backoff_after_delay b))
    ⊎ ((st_mode : ℕ) × (raw url : String) × (tls : Option FluxTls) × (env.metadata ≡ some st_mode)
        × (st_mode % 64 ≡ 0)
        × (env.contents ≡ some raw)
        × (is_empty (trim raw) ≡ false)
        × (resolve_flux_url env.post env.assignment_url env.flux_url (trim raw) ≡ ok url)
        × IsPinned url env.pin tls
        × (turn env b ≡ after_served (env.serve url (trim raw) tls) b))

connected_safely :
    (env : Surroundings) (b st_mode : ℕ) (raw url : String)
    → env.metadata ≡ some st_mode
    → st_mode % 64 ≡ 0
    → env.contents ≡ some raw
    → is_empty (trim raw) ≡ false
    → resolve_flux_url env.post env.assignment_url env.flux_url (trim raw) ≡ ok url
    → turn env b ≡ after_served (connect_and_serve env url (trim raw)) b
    → DialsSafely env b
connected_safely env b st_mode raw url examined private contents filled found served =
    elim (Result-cases (flux_tls_config url env.pin)) [
      | inr (e, refused) ↦
          inl
            (served ∙ (unfold connect_and_serve after_served retry_delay_for_error in ground arith))
      | inl (tls, configured) ↦ inr (
        st_mode,
        raw,
        url,
        tls,
        examined,
        private,
        contents,
        filled,
        found,
        flux_tls_config-IsPinned url env.pin tls configured,
        served ∙ (unfold connect_and_serve in ground arith),
      )
    ]

-- Each turn of the reconnection loop waits its back-off without dialling, or dials flux with the
-- token of a file that neither the group nor the others can use, which is not blank, to the URL that
-- is resolved with it, and over a channel that is pinned to the certificate of the pin file, or is
-- plain where there is no pin file and the URL is not https in any letter case.
pub turn_safe : (env : Surroundings) (b : ℕ) → DialsSafely env b
turn_safe env b = elim (Result-cases (load_host_jwt env.metadata env.contents)) [
  | inr (e, refused) ↦ inl (unfold turn in ground arith)
  | inl (jwt, token) ↦
      let (st_mode, raw, examined, private, contents, same, filled) =
        load_host_jwt-Grounds env.metadata env.contents jwt token in
      elim (Result-cases (resolve_flux_url env.post env.assignment_url env.flux_url jwt)) [
        | inr (e, unresolved) ↦ inl (unfold turn in ground arith)
        | inl (url, found) ↦
            connected_safely env b st_mode raw url examined private contents (rw same filled)
              (rw same found) (unfold turn in ground arith)
      ]
]
