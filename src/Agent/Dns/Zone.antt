-- ===== src/Agent/Dns/Zone.antt =====
-- What the DNS server answers for a name of its zone (coold/src/dns/resolver.rs).
use coold.Prelude.{
  if◌then◌else◌, string_eq, nat_eq, ◌==◌, any, All, Result, ok, err, Result-cases, is_empty, ℕ, ◌+◌,
  ◌≤◌, String, ◌≡◌, refl, ap, ◌∙◌, ◌⊎◌, inl, inr, Bool, true, false, ◌&&◌, ◌||◌, List, [], ◌∷◌,
  arith,
}
use coold.Agent.Dns.{
  NameLibrary, IpAddr, v4, v6, RecordType, type_a, other_type, serv_fail, Request, Record, a_record,
  forwarded, Response, failure, reply, send_code, send_empty, records_of, answer_of,
  container_and_namespace, answer_internal, handle_request,
}

abbrev pub answers_of : {Name R : Type 0} → Response Name R → List (Record Name R)
answers_of (failure _) = []
answers_of (reply _ records) = records

-- A record of this name, with the TTL of the zone.
abbrev pub IsZoneRecord : {Name R : Type 0} → Name → Record Name R → Type 0
IsZoneRecord name (a_record n ttl ip) = (n ≡ name) × (ttl ≡ 5)
IsZoneRecord name (forwarded r) = ⊥

-- The record gives this address.
unfoldable pub gives : {Name R : Type 0} → ℕ → Record Name R → Bool
gives ip (a_record n ttl i) = i == ip
gives ip (forwarded r) = false

unfoldable pub is_v4 : ℕ → IpAddr → Bool
is_v4 ip (v4 i) = i == ip
is_v4 ip (v6 i) = false

unfoldable pub asks_address : RecordType → Bool
asks_address type_a = true
asks_address other_type = false

records_of-IsZoneRecord :
    {Name : Type 0} (R : Type 0) (name : Name) (ips : List IpAddr)
    → All (IsZoneRecord {R = R} name) (records_of name ips)
unfolding records_of
records_of-IsZoneRecord R name [] = tt
records_of-IsZoneRecord R name (v4 ip ∷ ips) = ((refl, refl), records_of-IsZoneRecord R name ips)
records_of-IsZoneRecord R name (v6 ip ∷ ips) = records_of-IsZoneRecord R name ips

any-records_of :
    {Name : Type 0} (R : Type 0) (name : Name) (ip : ℕ) (ips : List IpAddr)
    → any (gives {R = R} ip) (records_of name ips) ≡ any (is_v4 ip) ips
unfolding records_of any gives is_v4
any-records_of R name ip [] = refl
any-records_of R name ip (v4 i ∷ ips) = ground (arith, any-records_of R name ip ips)
any-records_of R name ip (v6 i ∷ ips) = any-records_of R name ip ips

chosen-IsZoneRecord :
    {Name : Type 0} (R : Type 0) (asks : Bool) (name : Name) (ips : List IpAddr)
    → All (IsZoneRecord {R = R} name) (if asks then records_of name ips else [])
chosen-IsZoneRecord R true name ips = records_of-IsZoneRecord R name ips
chosen-IsZoneRecord R false name ips = tt

chosen_gives :
    {Name : Type 0} (R : Type 0) (asks : Bool) (name : Name) (ip : ℕ) (ips : List IpAddr)
    → any (gives {R = R} ip) (if asks then records_of name ips else [])
      ≡ (asks && any (is_v4 ip) ips)
chosen_gives R true name ip ips = any-records_of R name ip ips
chosen_gives R false name ip ips = unfold any in refl

answers_of-answer_of :
    {Name R : Type 0} (records : List (Record Name R)) → answers_of (answer_of records) ≡ records
answers_of-answer_of [] = refl
answers_of-answer_of (r ∷ records) = refl

module _ {Name R : Type 0} (lib : NameLibrary Name) (zone : Name)
    (backend : String → String → Result String (List IpAddr)) where
  -- A query for a name of the zone is never asked upstream.
  zone_private :
      (upstream other : Name → RecordType → Result String (List R)) (request : Request Name)
      → lib.zone_of zone request.name ≡ true
      → handle_request lib zone backend upstream request
        ≡ handle_request lib zone backend other request
  zone_private upstream other request inside = unfold handle_request answer_internal in ground arith

  zone_shape :
      (upstream : Name → RecordType → Result String (List R)) (request : Request Name)
      (container namespace : String) (rest : List String)
      → request.is_query_op && request.is_query_message ≡ true
      → lib.zone_of zone request.name ≡ true
      → 2 + lib.num_labels zone ≤ lib.num_labels request.name
      → lib.labels request.name ≡ container ∷ namespace ∷ rest
      → is_empty container || is_empty namespace ≡ false
      → handle_request lib zone backend upstream request
        ≡ answer_internal lib zone backend upstream request container namespace
  zone_shape upstream request container namespace rest query inside deep named full =
      unfold handle_request container_and_namespace in ground arith

  -- The answers of `answer_internal` once the backend has answered.
  answers_of-answer_internal :
      (upstream : Name → RecordType → Result String (List R)) (request : Request Name)
      (container namespace : String) (ips : List IpAddr)
      → backend container namespace ≡ ok ips
      → answers_of (answer_internal lib zone backend upstream request container namespace)
        ≡ (if asks_address request.query_type then records_of request.name ips else [])
  answers_of-answer_internal upstream request container namespace ips known =
      go request.query_type refl ips known
    where
      go :
          (t : RecordType)
          → request.query_type ≡ t
          → (ips : List IpAddr) → backend container namespace ≡ ok ips
          → answers_of (answer_internal lib zone backend upstream request container namespace)
            ≡ (if asks_address request.query_type then records_of request.name ips else [])
      go other_type e ips known = unfold answer_internal asks_address send_empty in ground arith
      go type_a e [] known =
          unfold answer_internal asks_address send_code records_of in ground arith
      go type_a e (ip ∷ more) known =
          unfold answer_internal asks_address in
          ground (arith, answers_of-answer_of (records_of {R = R} request.name (ip ∷ more)))

  answer_internal_failed :
      (upstream : Name → RecordType → Result String (List R)) (request : Request Name)
      (container namespace e : String)
      → backend container namespace ≡ err e
      → answer_internal lib zone backend upstream request container namespace ≡ failure serv_fail
  answer_internal_failed upstream request container namespace e lost =
      unfold answer_internal send_code in ground arith

  -- What is answered: a failure if Corrosion gives none, and else the addresses that it gives.
  abbrev pub IsAnswer : Request Name → String → String → ℕ → Response Name R → Type 0
  IsAnswer request container namespace ip response =
      ((e : String) × (backend container namespace ≡ err e) × (response ≡ failure serv_fail))
      ⊎ ((ips : List IpAddr) × (backend container namespace ≡ ok ips)
          × All (IsZoneRecord {R = R} request.name) (answers_of response)
          × (any (gives {R = R} ip) (answers_of response)
              ≡ (asks_address request.query_type && any (is_v4 ip) ips)))

  -- A query for `<container>.<namespace>.<zone>` is never asked upstream, whatever Corrosion does. If
  -- Corrosion fails, so does the query. If it gives the endpoint's addresses, every answer is an
  -- address record of the name with a TTL of 5 seconds, and an address is answered exactly if it is
  -- asked for and is one of the endpoint's of version 4.
  pub zone_answers :
      (upstream other : Name → RecordType → Result String (List R)) (request : Request Name)
      (container namespace : String) (rest : List String) (ip : ℕ)
      → request.is_query_op && request.is_query_message ≡ true
      → lib.zone_of zone request.name ≡ true
      → 2 + lib.num_labels zone ≤ lib.num_labels request.name
      → lib.labels request.name ≡ container ∷ namespace ∷ rest
      → is_empty container || is_empty namespace ≡ false
      → (handle_request lib zone backend upstream request
          ≡ handle_request lib zone backend other request)
        × IsAnswer request container namespace ip (handle_request lib zone backend upstream request)
  zone_answers upstream other request container namespace rest ip query inside deep named full =
      let shape =
        zone_shape upstream request container namespace rest query inside deep named full in
      (
        zone_private upstream other request inside,
        elim (Result-cases (backend container namespace)) [
          | inr (e, lost) ↦
              inl (
                e,
                lost,
                shape ∙ answer_internal_failed upstream request container namespace e lost,
              )
          | inl (ips, known) ↦
              let given =
                ap answers_of shape
                ∙ answers_of-answer_internal upstream request container namespace ips known in
              inr (
                ips,
                known,
                rw given (chosen-IsZoneRecord R (asks_address request.query_type) request.name ips),
                rw given (chosen_gives R (asks_address request.query_type) request.name ip ips),
              )
        ],
      )
