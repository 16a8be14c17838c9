-- ===== src/Flux/Auth/Binding.antt =====
-- `decide_host_binding`, `bind_via_hello` and `reject_or_unenforced` of flux/src/auth.rs. The
-- texts of the reasons are constructors here.
use coold.Prelude.{
  if◌then◌else◌, Eq, string_eq, nat_eq, ◌==◌, Result, ok, err, String, ◌≡◌, refl, ◌≢◌, ◌↔◌, Bool,
  true, ◌&&◌, not, Option, none, some, arith,
}

pub data FallbackReason : Type 0 where
  sub_not_an_ip peer_unavailable : FallbackReason

pub data Mismatch (Ip : Type 0) : Type 0 where
  peer_mismatch : Ip → Ip → Mismatch Ip
  hello_mismatch : FallbackReason → String → String → Mismatch Ip

pub data HostBinding (Ip : Type 0) : Type 0 where
  transport : HostBinding Ip
  hello_fallback : FallbackReason → HostBinding Ip
  unenforced : Mismatch Ip → HostBinding Ip

module _ {Ip : Type 0} ⦃same : Eq Ip⦄ (parse_ip : String → Option Ip) where
  unfoldable pub reject_or_unenforced : Bool → Mismatch Ip → Result (Mismatch Ip) (HostBinding Ip)
  reject_or_unenforced require detail = if require then err detail else ok (unenforced detail)

  unfoldable pub bind_via_hello :
      String → String → Bool → FallbackReason → Result (Mismatch Ip) (HostBinding Ip)
  unfolding reject_or_unenforced
  bind_via_hello token_sub advertised_mgmt_ip require reason =
      if not (token_sub == "") && advertised_mgmt_ip == token_sub
      then ok (hello_fallback reason)
      else reject_or_unenforced require (hello_mismatch reason advertised_mgmt_ip token_sub)

  unfoldable pub decide_host_binding :
      String → String → Option Ip → Bool → Result (Mismatch Ip) (HostBinding Ip)
  unfolding reject_or_unenforced bind_via_hello
  decide_host_binding token_sub advertised_mgmt_ip none require =
      bind_via_hello token_sub advertised_mgmt_ip require peer_unavailable
  decide_host_binding token_sub advertised_mgmt_ip (some peer) require = elim (parse_ip token_sub) [
    | some sub_ip ↦
        if peer == sub_ip
        then ok transport
        else reject_or_unenforced require (peer_mismatch peer sub_ip)
    | none ↦ bind_via_hello token_sub advertised_mgmt_ip require sub_not_an_ip
  ]

  abbrev pub Accepted : Result (Mismatch Ip) (HostBinding Ip) → Type 0
  Accepted r = (b : HostBinding Ip) × (r ≡ ok b)

  abbrev pub HelloAgrees : String → String → Type 0
  HelloAgrees sub advertised = (sub ≢ "") × (advertised ≡ sub)

  -- What ties a token to a host: the subject, what the Hello claims, the transport's peer, and the
  -- address that the subject spells, if it does.
  abbrev pub Binds : String → String → Option Ip → Option Ip → Type 0
  Binds sub advertised (some peer) (some ip) = peer ≡ ip
  Binds sub advertised _ _ = HelloAgrees sub advertised

  bind_via_hello_enforced :
      (sub advertised : String) (reason : FallbackReason)
      → Accepted (bind_via_hello sub advertised true reason) ↔ HelloAgrees sub advertised
  unfolding bind_via_hello
  bind_via_hello_enforced sub advertised reason =
      (λ (b, h). (ground arith, ground arith), λ (n, e). (hello_fallback reason, ground arith))

  peer_enforced :
      (sub advertised : String) (peer : Ip) (ip : Option Ip)
      → parse_ip sub ≡ ip
      → Accepted (decide_host_binding sub advertised (some peer) true)
        ↔ Binds sub advertised (some peer) ip
  unfolding decide_host_binding
  peer_enforced sub advertised peer none e = (
    λ (b, h). (bind_via_hello_enforced sub advertised sub_not_an_ip).0 (b, ground arith),
    λ h.
        let (b, q) = (bind_via_hello_enforced sub advertised sub_not_an_ip).1 h in
        (b, ground arith),
  )
  peer_enforced sub advertised peer (some ip) e =
      (λ (b, h). ground arith, λ h. (transport, ground arith))

  -- With enforcement on, a token whose subject is an address is accepted exactly from that peer
  -- when the transport shows one, whatever the Hello claims; in every other case it is accepted
  -- exactly when the Hello repeats a subject that is not empty.
  pub decide_host_binding_enforced :
      (sub advertised : String) (peer : Option Ip)
      → Accepted (decide_host_binding sub advertised peer true)
        ↔ Binds sub advertised peer (parse_ip sub)
  unfolding decide_host_binding
  decide_host_binding_enforced sub advertised none =
      bind_via_hello_enforced sub advertised peer_unavailable
  decide_host_binding_enforced sub advertised (some peer) =
      peer_enforced sub advertised peer (parse_ip sub) refl
