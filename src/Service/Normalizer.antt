-- ===== src/Service/Normalizer.antt =====
-- backend/src/services/normalizer.rs: strong URL identifiers.
use aleth_os_tool_passport.Prelude.{
  ℕ, zero, suc, ◌+◌, ◌-◌, ◌*◌, Bool, false, not, ◌&&◌, ◌||◌, Option, none, some, List, [], ◌∷◌,
  ◌++◌, ltb, leb, ◌==◌, if◌then◌else◌, Text, codes, ◌=ₜ◌, is_empty, any, all, split_on,
  strip_prefix, is_whitespace, trim_start, trim_end, ends_with, contains, to_ascii_lowercase, keep,
  length,
}
use aleth_os_tool_passport.Domain.Tool.{ExternalIdentifier}

pub record NormalizedIdentifier : Type 0 where
  pub namespace : Text
  pub value : Text
  pub canonical_url : Text

-- `format!("{}:{}", namespace, value)`
abbrev pub key_of : Text → Text → Text
key_of namespace value = namespace ++ (58 ∷ value)

unfoldable pub key : NormalizedIdentifier → Text
key n = key_of n.namespace n.value

unfoldable pub to_external_identifier : NormalizedIdentifier → ExternalIdentifier
to_external_identifier n = record {
  namespace = n.namespace;
  value = n.value;
  canonical_url = n.canonical_url;
}

abbrev pub has_space : Text → Bool
has_space = any is_whitespace

abbrev is_ascii : Text → Bool
is_ascii = all (λ c. ltb c 128)

-- the first test
unfoldable pub is_plain_text : Text → Bool
is_plain_text raw =
    trim_start raw =ₜ raw
    && trim_end raw =ₜ raw
    && is_ascii raw
    && not (has_space raw)
    && not (contains (codes "\\") raw)

-- `find`, with the text before the pattern and the one after it
unfoldable pub cut : Text → Text → Option (Text × Text)
cut pattern [] = if is_empty pattern then some ([], []) else none
cut pattern (c ∷ s) =
    let later = cut pattern s in
    elim (strip_prefix pattern (c ∷ s)) [
      | some rest ↦ some ([], rest)
      | none ↦ elim later [ none ↦ none | some (a, b) ↦ some (c ∷ a, b) ]
    ]

-- the authority, and the path from its first slash on
unfoldable pub split_path : Text → Text × Text
split_path [] = ([], [])
split_path (c ∷ s) =
    let rest = split_path s in if c == 47 then ([], c ∷ s) else (c ∷ rest.0, rest.1)

abbrev digits_value : ℕ → Text → Option ℕ
digits_value n [] = some n
digits_value n (c ∷ s) =
    let rest = digits_value (n * 10 + (c - 48)) s in if leb 48 c && leb c 57 then rest else none

abbrev unsigned : Text → Text
unsigned [] = []
unsigned (c ∷ s) = if c == 43 then s else c ∷ s

-- `parse::<u16>()`, which takes a `+` and leading zeros
unfoldable pub parse_u16 : Text → Option ℕ
parse_u16 s = if is_empty (unsigned s) then none else elim (digits_value 0 (unsigned s)) [
  | none ↦ none
  | some n ↦ if leb n 65535 then some n else none
]

abbrev pub is_https_port : Option ℕ → Bool
is_https_port none = false
is_https_port (some n) = n == 443

-- The host of an authority: the text before its one colon, if the port after it is 443.
unfoldable pub host_of : List Text → Option Text
host_of (host ∷ []) = some host
host_of (host ∷ port ∷ []) = if is_https_port (parse_u16 port) then some host else none
host_of _ = none

unfoldable pub is_plain_path : Text → Bool
is_plain_path path = not (
    contains (codes "%") path
    || contains (codes "//") path
    || contains (codes "/./") path
    || contains (codes "/../") path
    || ends_with (codes "/.") path
    || ends_with (codes "/..") path)

-- `trim_end_matches('/')`
unfoldable pub trim_slashes : Text → Text
trim_slashes [] = []
trim_slashes (c ∷ s) =
    let rest = trim_slashes s in if c == 47 && is_empty rest then [] else c ∷ rest

abbrev pub take_text : ℕ → Text → Text
take_text zero s = []
take_text (suc n) [] = []
take_text (suc n) (c ∷ s) = c ∷ take_text n s

-- the suffix `.git` in any case
unfoldable pub strip_git : Text → Text
strip_git repo =
    if ends_with (codes ".git") (to_ascii_lowercase repo)
    then take_text (length repo - 4) repo
    else repo

unfoldable pub github_identifier : List Text → Option NormalizedIdentifier
github_identifier (owner ∷ repo ∷ []) =
    if is_empty owner || is_empty (strip_git repo)
    then none
    else (let value =
          to_ascii_lowercase owner ++ codes "/" ++ to_ascii_lowercase (strip_git repo) in
        some (record {
          namespace = codes "github";
          value = value;
          canonical_url = codes "https://github.com/" ++ value;
        }))
github_identifier _ = none

unfoldable pub url_identifier : Text → Text → NormalizedIdentifier
url_identifier host path = record {
  namespace = codes "url";
  value = host ++ path;
  canonical_url = codes "https://" ++ host ++ path;
}

-- the host in lower case and the path
unfoldable pub identify : Text → Text → Option NormalizedIdentifier
identify host path =
    if is_empty host || ends_with (codes ".") (to_ascii_lowercase host) || not (is_plain_path path)
    then none
    else if to_ascii_lowercase host =ₜ codes "github.com"
    then github_identifier (keep (λ s. not (is_empty s)) (split_on 47 (trim_slashes path)))
    else some (url_identifier (to_ascii_lowercase host) (trim_slashes path))

-- what follows the scheme
unfoldable pub normalize_rest : Text → Option NormalizedIdentifier
normalize_rest rest =
    let parts = split_path rest in
    if contains (codes "@") rest || contains (codes "?") parts.1 || contains (codes "#") parts.1
    then none
    else elim (host_of (split_on 58 parts.0)) [ none ↦ none | some host ↦ identify host parts.1 ]

unfoldable pub normalize_url : Text → Option NormalizedIdentifier
normalize_url raw =
    if is_plain_text raw
    then elim (cut (codes "://") raw) [
      | none ↦ none
      | some (scheme, rest) ↦
          if to_ascii_lowercase scheme =ₜ codes "https" then normalize_rest rest else none
    ]
    else none

-- the text after one of the two prefixes
abbrev pub after_prefix : Text → Option Text
after_prefix tool_id = elim (strip_prefix (codes "github:") tool_id) [
  | some rest ↦ some rest
  | none ↦ strip_prefix (codes "url:") tool_id
]

unfoldable pub validate_tool_id_format : Text → Bool
validate_tool_id_format tool_id = elim (after_prefix tool_id) [
  | none ↦ false
  | some rest ↦ not (is_empty rest) && not (has_space rest)
]
