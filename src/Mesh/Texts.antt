-- ===== src/Mesh/Texts.antt =====
-- What the texts of coolify-cli are made of: `format!`, `join`, `sort`, and `heredoc` and
-- `first_line` of coolify-cli/src/ssh.rs.
use Prim.Native.String.{◌++◌ as append}
use coold.Prelude.{
  if◌then◌else◌, string_eq, nat_eq, contains, filter, str_leb, String, not, List, [], ◌∷◌,
}

-- The pieces of a `format!`, one after another.
unfoldable pub concat : List String → String
concat [] = ""
concat (t ∷ ts) = append t (concat ts)

-- `join`
unfoldable pub join_with : String → List String → String
join_with sep [] = ""
join_with sep (t ∷ []) = t
join_with sep (t ∷ u ∷ ts) = append t (append sep (join_with sep (u ∷ ts)))

unfoldable pub insert_text : String → List String → List String
insert_text t [] = t ∷ []
insert_text t (u ∷ us) = let rest = insert_text t us in if str_leb t u then t ∷ u ∷ us else u ∷ rest

-- `sort`
unfoldable pub sort_texts : List String → List String
unfolding insert_text
sort_texts [] = []
sort_texts (t ∷ ts) = insert_text t (sort_texts ts)

-- A `BTreeSet` of the texts of a list, in order.
unfoldable pub insert_once : String → List String → List String
insert_once t us = if contains us t then us else insert_text t us

unfoldable pub set_of : List String → List String
unfolding insert_once
set_of [] = []
set_of (t ∷ ts) = insert_once t (set_of ts)

-- `difference`
abbrev pub difference : List String → List String → List String
difference ts us = filter (λ t. not (contains us t)) ts

unfoldable pub heredoc : String → String → String → String
unfolding concat
heredoc path body mode = concat (
    "cat > " ∷ path ∷ ".tmp <<'COOLIFY_CLI_EOF'\n" ∷ body ∷ "COOLIFY_CLI_EOF\nchmod " ∷ mode ∷ " "
    ∷ path ∷ ".tmp && mv " ∷ path ∷ ".tmp " ∷ path ∷ [])
