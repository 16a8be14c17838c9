-- ===== src/Mesh/Services.antt =====
-- coolify-cli/src/services: the configuration of Corrosion, the systemd units, and the commands that
-- install the binaries. An address is the text that it is printed as.
pub mod Corrosion
pub mod Coold
use coold.Prelude.{
  ltb, leb, if◌then◌else◌, Bool-cases, Option-cases, and_then, Eq, String-discrete, string_eq,
  nat_eq, ◌==◌, ==_iff, ==_refl, contains, length, length-append, filter, any, length-filter-le,
  All, Map, lookup, insert, remove, contains_key, HasKey, NodupKeys, lookup-insert, lookup-remove,
  insert-NodupKeys, remove-NodupKeys, remove_absent, length-insert, length-remove-le, map_laws,
  str_leb, insert_sorted, sort_by_key, lookup-sort_by_key, sort_by_key-NodupKeys, Result, ok, err,
  ◌>>=◌, Result-cases, ok_or, ok_only, is_empty, strip_prefix, starts_with, strip_suffix, ends_with,
  contains_text, is_whitespace, trim_is_empty, trim_start, trim_end, trim, trim_slashes,
  utf8_length, byte_length, all_chars, is_alphanumeric, take_until, take_until_text, after_text,
  after_last, ℕ, zero, suc, ◌+◌, ◌-◌, ◌*◌, ◌/◌, ◌%◌, ◌^◌, ◌≤◌, ◌<◌, min, String, ◌≡◌, refl, sym, ap,
  ◌∙◌, ◌≢◌, ◌↔◌, ◌⊎◌, inl, inr, ite, if_pos, if_neg, Bool, true, false, ◌&&◌, ◌||◌, not, Option,
  none, some, List, [], ◌∷◌, ◌++◌, map, arith,
}
use coold.Mesh.Texts.{
  concat, join_with, insert_text, sort_texts, insert_once, set_of, difference, heredoc,
}

unfoldable pub checksum_verify_snippet : String → String → String → Option String → String
unfolding concat
checksum_verify_snippet tarball url artifact (some digest) = concat (
    "printf '%s  %s\\n' '" ∷ digest ∷ "' \"" ∷ tarball
    ∷ "\" | sha256sum -c - >/dev/null 2>&1 || { echo \"" ∷ artifact
    ∷ ": sha256 mismatch (expected pinned " ∷ digest ∷ ")\" >&2; exit 1; }" ∷ [])
checksum_verify_snippet tarball url artifact none = concat (
    "if curl -fsSL --retry 3 --max-time 60 -o \"" ∷ tarball ∷ ".sha256\" \"" ∷ url
    ∷ ".sha256\" 2>/dev/null; then printf '%s  %s\\n' \"$(awk '{print $1}' \"" ∷ tarball
    ∷ ".sha256\")\" \"" ∷ tarball ∷ "\" | sha256sum -c - >/dev/null 2>&1 || { echo \"" ∷ artifact
    ∷ ": sha256 mismatch vs published checksum\" >&2; exit 1; }; else echo \"" ∷ artifact
    ∷ ": no published sha256 to verify against; proceeding (pin one to enforce)\" >&2; fi" ∷ [])
