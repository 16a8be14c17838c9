-- ===== src/Agent/HostJwt/Rotation.antt =====
-- What a pushed token does to the token file (coold/src/grpc/host_jwt.rs), and that the next
-- reconnection (coold/src/grpc/client.rs) loads it.
use Prim.Native.Char.{Char, code}
use coold.Prelude.{
  string_eq, nat_eq, ok, err, is_empty, is_whitespace, trim, ℕ, String, ◌≡◌, ◌≢◌, ◌⊎◌, Bool, true,
  false, not, Option, none, some, List, [], ◌∷◌,
}
use coold.Agent.Rules.{split}
use coold.Agent.Dial.{load_host_jwt}
use coold.Agent.HostJwt.{
  base64url_decode, TokenError, TokenFile, private_file, current_host_sub, apply_host_jwt,
}

-- Trimming twice is trimming once.
starts_black : String → Bool
starts_black String.[] = true
starts_black (String.◌∷◌ c s) = not (is_whitespace (code c))

-- No subject is known to be another one.
abbrev pub IsSameHost : Option String → Option String → Type 0
IsSameHost new current = (new ≡ none) ⊎ ((current ≡ none) ⊎ (current ≡ new))

module _ (sub_of_json : List ℕ → Option String) where
  -- Three segments that are not empty, all of them base64url; the second one spells `decoded`.
  abbrev pub IsToken : String → List ℕ → Type 0
  IsToken jwt decoded =
      (header payload signature : String) × (head signed : List ℕ) × (split 46 jwt
        ≡ header ∷ payload ∷ signature ∷ [])
      × (is_empty header ≡ false)
      × (is_empty payload ≡ false)
      × (is_empty signature ≡ false)
      × (base64url_decode header ≡ some head)
      × (base64url_decode payload ≡ some decoded)
      × (base64url_decode signature ≡ some signed)

  -- Why a token is refused: it is empty or not such segments, or both subjects are known and differ, or a step of
  -- the write failed.
  abbrev pub IsReason : TokenError → Bool → String → TokenFile → Type 0
  IsReason e io new_jwt file =
      ((is_empty (trim new_jwt) ≡ true) ⊎ ((decoded : List ℕ) → ¬ IsToken (trim new_jwt) decoded))
      ⊎ (((new current : String) × (decoded : List ℕ) × IsToken (trim new_jwt) decoded
            × (sub_of_json decoded ≡ some new)
            × (current_host_sub sub_of_json file ≡ some current)
            × (current ≢ new))
          ⊎ (io ≡ false))

  -- What `apply_host_jwt` does: nothing to the file and an error, or it installs the token.
  abbrev pub IsRotation : Bool → String → TokenFile → Type 0
  IsRotation io new_jwt file =
      let r = apply_host_jwt sub_of_json io new_jwt file in
      ((e : TokenError) × (r ≡ (file, err e)) × IsReason e io new_jwt file)
      ⊎ ((decoded : List ℕ) × (r
            ≡ (record { metadata = some private_file; contents = some (trim new_jwt) }, ok true))
          × IsToken (trim new_jwt) decoded
          × IsSameHost (sub_of_json decoded) (current_host_sub sub_of_json file)
          × (load_host_jwt r.0.metadata r.0.contents ≡ ok (trim new_jwt)))
