-- ===== src/Service/ToolIds.antt =====
-- Normalised identifiers are tool IDs in the format of the registry.
use aleth_os_tool_passport.Prelude.{
  ℕ, zero, suc, ◌-◌, ◌≡◌, refl, ◌⊎◌, inl, inr, subst, ◌∙◌, Bool, true, false, not, ◌&&◌, ◌||◌,
  Option, none, some, List, [], ◌∷◌, ◌++◌, arith, ◌==◌, Text, codes, ◌=ₜ◌, is_empty, ap, All,
  split_on, strip_prefix, is_whitespace, with_first, ends_with, contains, ascii_lower,
  to_ascii_lowercase, keep, length, Bool-cases, Option-cases,
}
use aleth_os_tool_passport.Service.Normalizer.{
  NormalizedIdentifier, key, has_space, is_plain_text, cut, split_path, host_of, trim_slashes,
  take_text, strip_git, github_identifier, url_identifier, identify, normalize_rest, normalize_url,
  validate_tool_id_format, is_plain_path,
}

-- a text without whitespace
abbrev IsTight : Text → Type 0
IsTight s = has_space s ≡ false

append-IsTight : (s t : Text) → IsTight s → IsTight t → IsTight (s ++ t)
append-IsTight [] t h k = k
append-IsTight (c ∷ s) t h k = ground (arith, append-IsTight s t)

strip_prefix-IsTight :
    (pattern s rest : Text) → strip_prefix pattern s ≡ some rest → IsTight s → IsTight rest
unfolding strip_prefix
strip_prefix-IsTight [] s rest h k = ground arith
strip_prefix-IsTight (c ∷ pattern) [] rest h k = ground arith
strip_prefix-IsTight (c ∷ pattern) (d ∷ s) rest h k =
    ground (arith, strip_prefix-IsTight pattern s rest)

cut-IsTight : (pattern s : Text) (a b : Text) → cut pattern s ≡ some (a, b) → IsTight s → IsTight b
unfolding cut
cut-IsTight pattern [] a b h k = ground arith
cut-IsTight pattern (c ∷ s) a b h k = elim (Option-cases (strip_prefix pattern (c ∷ s))) [
  | inl later ↦ elim (Option-cases (cut pattern s)) [
    | inl none_later ↦ let bad = rw (cut, later, none_later) at h in cc
    | inr ((a', b'), found) ↦
        let same = rw (cut, later, found) at h in
        let rest = cut-IsTight pattern s a' b' found (ground arith) in ground arith
  ]
  | inr (rest, found) ↦
      let same = rw (cut, found) at h in
      let tight = strip_prefix-IsTight pattern (c ∷ s) rest found k in ground arith
]

split_path-IsTight : (s : Text) → IsTight s → IsTight (split_path s).0 × IsTight (split_path s).1
unfolding split_path
split_path-IsTight [] k = (refl, refl)
split_path-IsTight (c ∷ s) k =
    let (a, b) = split_path-IsTight s (ground arith) in
    elim (Bool-cases (c == 47)) [
      | inl slash ↦ rw slash (refl, k)
      | inr other ↦ rw other (ground arith, b)
    ]

with_first-IsTight :
    (c : ℕ) (parts : List Text)
    → is_whitespace c ≡ false
    → All IsTight parts
    → All IsTight (with_first c parts)
with_first-IsTight c [] h k = (ground arith, tt)
with_first-IsTight c (part ∷ parts) h k = (let t = k.0 in ground arith, k.1)

split_on-IsTight : (separator : ℕ) (s : Text) → IsTight s → All IsTight (split_on separator s)
unfolding split_on
split_on-IsTight separator [] k = (refl, tt)
split_on-IsTight separator (c ∷ s) k =
    let rest = split_on-IsTight separator s (ground arith) in
    elim (Bool-cases (c == separator)) [
      | inl same ↦ rw same (refl, rest)
      | inr other ↦ rw other (with_first-IsTight c (split_on separator s) (ground arith) rest)
    ]

host_of-IsTight :
    (parts : List Text) (host : Text) → host_of parts ≡ some host → All IsTight parts → IsTight host
unfolding host_of
host_of-IsTight [] host h k = ground arith
host_of-IsTight (x ∷ []) host h k = let t = k.0 in ground arith
host_of-IsTight (x ∷ port ∷ []) host h k = let t = k.0 in ground arith
host_of-IsTight (x ∷ port ∷ more ∷ parts) host h k = ground arith

ascii_lower-IsTight : (c : ℕ) → is_whitespace c ≡ false → is_whitespace (ascii_lower c) ≡ false
unfolding is_whitespace
ascii_lower-IsTight c h = ground arith

lower-IsTight : (s : Text) → IsTight s → IsTight (to_ascii_lowercase s)
unfolding to_ascii_lowercase
lower-IsTight [] k = refl
lower-IsTight (c ∷ s) k =
    let first = ascii_lower-IsTight c (ground arith) in
    let rest = lower-IsTight s (ground arith) in rw (first, rest) refl

trim_slashes-IsTight : (s : Text) → IsTight s → IsTight (trim_slashes s)
unfolding trim_slashes
trim_slashes-IsTight [] k = refl
trim_slashes-IsTight (c ∷ s) k = let rest = trim_slashes-IsTight s (ground arith) in ground arith

take_text-IsTight : (n : ℕ) (s : Text) → IsTight s → IsTight (take_text n s)
take_text-IsTight zero s k = refl
take_text-IsTight (suc n) [] k = refl
take_text-IsTight (suc n) (c ∷ s) k =
    let rest = take_text-IsTight n s (ground arith) in ground arith

strip_git-IsTight : (repo : Text) → IsTight repo → IsTight (strip_git repo)
unfolding strip_git
strip_git-IsTight repo k = let t = take_text-IsTight (length repo - 4) repo k in ground arith

keep-IsTight : (p : Text → Bool) (xs : List Text) → All IsTight xs → All IsTight (keep p xs)
keep-IsTight p [] k = tt
keep-IsTight p (x ∷ xs) k = elim (Bool-cases (p x)) [
  | inl yes_it ↦ rw yes_it (k.0, keep-IsTight p xs k.1)
  | inr no_it ↦ rw no_it (keep-IsTight p xs k.1)
]

lower-is_empty : (s : Text) → is_empty (to_ascii_lowercase s) ≡ is_empty s
unfolding to_ascii_lowercase
lower-is_empty [] = refl
lower-is_empty (c ∷ s) = refl

append-is_empty : (s t : Text) → is_empty s ≡ false → is_empty (s ++ t) ≡ false
append-is_empty [] t h = cc
append-is_empty (c ∷ s) t h = refl

abbrev or_this : NormalizedIdentifier → Option NormalizedIdentifier → NormalizedIdentifier
or_this x none = x
or_this x (some n) = n

some_injective : {m n : NormalizedIdentifier} → some m ≡ some n → m ≡ n
some_injective {m} {n} h = ap (or_this m) h

slash-IsTight : IsTight (codes "/")
unfolding is_whitespace
slash-IsTight = refl

-- one of the two namespaces, and a value with text and without whitespace
record IsStrong (n : NormalizedIdentifier) : Type 0 where
  pub namespace : (n.namespace ≡ codes "github") ⊎ (n.namespace ≡ codes "url")
  pub present : is_empty n.value ≡ false
  pub tight : IsTight n.value

github_identifier-IsStrong :
    (segments : List Text) (n : NormalizedIdentifier)
    → github_identifier segments ≡ some n
    → All IsTight segments
    → IsStrong n
unfolding github_identifier
github_identifier-IsStrong [] n h k = let bad = h in cc
github_identifier-IsStrong (x ∷ []) n h k = let bad = h in cc
github_identifier-IsStrong (owner ∷ repo ∷ []) n h k =
    elim (Bool-cases (is_empty owner || is_empty (strip_git repo))) [
      | inl missing ↦ let bad = rw (github_identifier, missing) at h in cc
      | inr both ↦
          let named = rw (github_identifier, both) at h in
          let found = some_injective named in
          subst IsStrong found (record {
            namespace = inl refl;
            present =
                append-is_empty (to_ascii_lowercase owner ++ codes "/")
                  (to_ascii_lowercase (strip_git repo))
                  (append-is_empty (to_ascii_lowercase owner) (codes "/")
                    (lower-is_empty owner ∙ ground arith));
            tight =
                append-IsTight (to_ascii_lowercase owner ++ codes "/")
                  (to_ascii_lowercase (strip_git repo))
                  (append-IsTight (to_ascii_lowercase owner) (codes "/") (lower-IsTight owner k.0)
                    slash-IsTight)
                  (lower-IsTight (strip_git repo) (strip_git-IsTight repo k.1.0));
          })
    ]
github_identifier-IsStrong (x ∷ y ∷ z ∷ more) n h k = let bad = h in cc

identify-IsStrong :
    (host path : Text) (n : NormalizedIdentifier)
    → identify host path ≡ some n
    → IsTight host
    → IsTight path
    → IsStrong n
unfolding identify url_identifier
identify-IsStrong host path n h k l =
    elim (Bool-cases (
      is_empty host
      || ends_with (codes ".") (to_ascii_lowercase host)
      || not (is_plain_path path))) [
        | inl refused ↦ let bad = rw (identify, refused) at h in cc
        | inr fine ↦ elim (Bool-cases (to_ascii_lowercase host =ₜ codes "github.com")) [
          | inl github ↦
              github_identifier-IsStrong
                (keep (λ s. not (is_empty s)) (split_on 47 (trim_slashes path))) n
                (rw (identify, fine, github) at h)
                (keep-IsTight (λ s. not (is_empty s)) (split_on 47 (trim_slashes path))
                  (split_on-IsTight 47 (trim_slashes path) (trim_slashes-IsTight path l)))
          | inr other ↦
              let named = rw (identify, fine, other) at h in
              subst IsStrong (some_injective named) (record {
                namespace = inr refl;
                present =
                    append-is_empty (to_ascii_lowercase host) (trim_slashes path)
                      (lower-is_empty host ∙ ground arith);
                tight =
                    append-IsTight (to_ascii_lowercase host) (trim_slashes path)
                      (lower-IsTight host k) (trim_slashes-IsTight path l);
              })
        ]
      ]

normalize_rest-IsStrong :
    (rest : Text) (n : NormalizedIdentifier)
    → normalize_rest rest ≡ some n
    → IsTight rest
    → IsStrong n
unfolding normalize_rest
normalize_rest-IsStrong rest n h k =
    let parts = split_path rest in
    let (a, b) = split_path-IsTight rest k in
    elim (Bool-cases
      (contains (codes "@") rest || contains (codes "?") parts.1 || contains (codes "#") parts.1)) [
        | inl refused ↦ let bad = rw (normalize_rest, refused) at h in cc
        | inr fine ↦ elim (Option-cases (host_of (split_on 58 parts.0))) [
          | inl no_host ↦ let bad = rw (normalize_rest, fine, no_host) at h in cc
          | inr (host, found) ↦
              identify-IsStrong host parts.1 n (rw (normalize_rest, fine, found) at h)
                (host_of-IsTight (split_on 58 parts.0) host found (split_on-IsTight 58 parts.0 a)) b
        ]
      ]

plain-IsTight : (raw : Text) → is_plain_text raw ≡ true → IsTight raw
unfolding is_plain_text
plain-IsTight raw h = ground arith

normalize_url-IsStrong :
    (raw : Text) (n : NormalizedIdentifier) → normalize_url raw ≡ some n → IsStrong n
unfolding normalize_url
normalize_url-IsStrong raw n h = elim (Bool-cases (is_plain_text raw)) [
  | inr odd_text ↦ let bad = rw (normalize_url, odd_text) at h in cc
  | inl fine ↦ elim (Option-cases (cut (codes "://") raw)) [
    | inl no_scheme ↦ let bad = rw (normalize_url, fine, no_scheme) at h in cc
    | inr ((scheme, rest), found) ↦ elim (Bool-cases (to_ascii_lowercase scheme =ₜ codes "https")) [
      | inr other ↦ let bad = rw (normalize_url, fine, found, other) at h in cc
      | inl https ↦
          normalize_rest-IsStrong rest n (rw (normalize_url, fine, found, https) at h)
            (cut-IsTight (codes "://") raw scheme rest found (plain-IsTight raw fine))
    ]
  ]
]

format-github :
    (value : Text)
    → validate_tool_id_format (codes "github" ++ (58 ∷ value))
      ≡ (not (is_empty value) && not (has_space value))
unfolding validate_tool_id_format strip_prefix
format-github value = refl

format-url :
    (value : Text)
    → validate_tool_id_format (codes "url" ++ (58 ∷ value))
      ≡ (not (is_empty value) && not (has_space value))
unfolding validate_tool_id_format strip_prefix
format-url value = refl

-- If normalize_url yields an identifier for a text, then its key, which is its namespace, a colon
-- and its value, passes validate_tool_id_format.
pub normalize_url-validate_tool_id_format :
    (raw_url : Text) (n : NormalizedIdentifier)
    → normalize_url raw_url ≡ some n
    → validate_tool_id_format (key n) ≡ true
unfolding key
normalize_url-validate_tool_id_format raw_url n h =
    let s = normalize_url-IsStrong raw_url n h in
    let present = s.present in
    let tight = s.tight in
    elim s.namespace [
      | inl github ↦ let e = format-github n.value in rw (github, e) (ground arith)
      | inr url ↦ let e = format-url n.value in rw (url, e) (ground arith)
    ]
