-- ===== src/Tests/Dns.antt =====
-- A query to the DNS server of an agent (coold/src/dns/resolver.rs).
use coold.Prelude.{
  String-discrete, string_eq, nat_eq, ◌==◌, length, Result, ok, err, ℕ, String, ◌≡◌, refl, Bool,
  true, false, ◌&&◌, List, [], ◌∷◌, arith,
}
use coold.Agent.Dns.{NameLibrary, IpAddr, v4, v6, RecordType, type_a, Request, handle_request}
use coold.Agent.Dns.Zone.{IsAnswer, zone_answers}

abbrev the_zone : List String
the_zone = "coolify" ∷ "internal" ∷ []

abbrev ends_with_zone : List String → Bool
ends_with_zone (_ ∷ _ ∷ a ∷ b ∷ []) = a == "coolify" && b == "internal"
ends_with_zone _ = false

abbrev names : NameLibrary (List String)
names = record {
  zone_of = λ zone name. ends_with_zone name;
  num_labels = length;
  labels = λ name. name;
}

abbrev known : String → String → Result String (List IpAddr)
known container namespace = ok (v4 167772161 ∷ v6 1 ∷ v4 167772162 ∷ [])

abbrev nothing : List String → RecordType → Result String (List ℕ)
nothing name query_type = err "no upstream"

abbrev seven : List String → RecordType → Result String (List ℕ)
seven name query_type = ok (7 ∷ [])

abbrev web : Request (List String)
web = record {
  is_query_op = true;
  is_query_message = true;
  name = "web" ∷ "default" ∷ the_zone;
  query_type = type_a;
}

zone_answers_example :
    (handle_request names the_zone known nothing web
      ≡ handle_request names the_zone known seven web)
    × IsAnswer names the_zone known web "web" "default" 167772162
        (handle_request names the_zone known nothing web)
unfolding String-discrete
zone_answers_example =
    zone_answers names the_zone known nothing seven web "web" "default" the_zone 167772162 refl refl
      (omega arith) refl refl
