-- ===== src/Mesh/Intent/Validity.antt =====
-- What `validate_intent` (coolify-cli/src/wireguard/intent.rs) accepts.
use coold.Prelude.{
  string_eq, nat_eq, contains, All, String, ◌≡◌, refl, ◌≢◌, ◌↔◌, ◌⊎◌, true, none, List, [], ◌∷◌,
  arith,
}
use coold.Mesh.Intent.{
  Intent, bootstrap, extend, upgrade, DesiredMesh, first_unlisted, validate_intent,
}

-- An extension names new nodes, all of them nodes of the mesh; an upgrade that touches a node pins
-- both versions, unless moving ones are allowed.
abbrev pub IsSound : DesiredMesh → Intent → Type 0
IsSound d bootstrap = Unit
IsSound d extend = (d.new_nodes ≢ []) × All (λ h. contains d.nodes h ≡ true) d.new_nodes
IsSound d upgrade =
    (d.allow_nightly ≡ true)
    ⊎ (d.nodes ≡ [])
    ⊎ ((d.coold_version ≢ "nightly") × (d.corrosion_version ≢ "nightly"))

first_unlisted-none :
    (new_nodes nodes : List String)
    → (first_unlisted new_nodes nodes ≡ none) ↔ All (λ h. contains nodes h ≡ true) new_nodes
unfolding first_unlisted
first_unlisted-none [] nodes = (λ _. tt, λ _. refl)
first_unlisted-none (h ∷ new_nodes) nodes = (
  λ e. (ground arith, (first_unlisted-none new_nodes nodes).0 (ground arith)),
  λ (l, rest). ground (arith, l, (first_unlisted-none new_nodes nodes).1 rest),
)

validate_extend :
    (d : DesiredMesh) (new_nodes : List String)
    → d.intent ≡ extend
    → d.new_nodes ≡ new_nodes
    → (validate_intent d ≡ none)
      ↔ ((new_nodes ≢ []) × All (λ h. contains d.nodes h ≡ true) new_nodes)
unfolding validate_intent
validate_extend d [] q n = (λ e. absurd (ground arith), λ (some_new, _). absurd (some_new refl))
validate_extend d (h ∷ hs) q n = (
  λ e. (λ f. cc, (first_unlisted-none (h ∷ hs) d.nodes).0 (ground arith)),
  λ (_, listed). let fine = (first_unlisted-none (h ∷ hs) d.nodes).1 listed in ground arith,
)

validate_by_intent :
    (d : DesiredMesh) (i : Intent) → d.intent ≡ i → (validate_intent d ≡ none) ↔ IsSound d i
unfolding validate_intent
validate_by_intent d bootstrap q = (λ _. tt, λ _. ground arith)
validate_by_intent d extend q = validate_extend d d.new_nodes q refl
validate_by_intent d upgrade q = (λ h. ground arith, λ h. ground arith)

-- `validate_intent` accepts a mesh exactly if its intent is sound: a bootstrap always, an
-- extension if it names new nodes and all of them are nodes of the mesh, an upgrade if it touches
-- no node, or neither version is the moving one, or moving ones are allowed.
pub validate_intent_lem : (d : DesiredMesh) → (validate_intent d ≡ none) ↔ IsSound d d.intent
validate_intent_lem d = validate_by_intent d d.intent refl
