-- ===== src/Service/Registry.antt =====
-- What the answer of the tool registry rests on.
use aleth_os_tool_passport.Prelude.{
  ◌≡◌, refl, inl, inr, subst, sym, Bool, true, false, not, some, List, [], ◌∷◌, ◌++◌, map, arith,
  if◌then◌else◌, Text, codes, ◌=ₜ◌, ok, ap, >>=-eq-ok, ok_injective, refuse, All, any, all, sort_on,
  is_some, Bool-cases, Option-cases,
}
use aleth_os_tool_passport.Domain.Tool.{
  ExternalIdentifier, ResolveToolRequest, resolved, ResolutionResponse,
}
use aleth_os_tool_passport.Store.{Db}
use aleth_os_tool_passport.Store.Tools.{
  find_tools_by_identifiers, find_tools_by_name, distinct_texts,
}
use aleth_os_tool_passport.Service.{World}
use aleth_os_tool_passport.Service.Requests.{validate_required}
use aleth_os_tool_passport.Service.Normalizer.{
  NormalizedIdentifier, key, to_external_identifier, normalize_url,
}
use aleth_os_tool_passport.Service.Tools.{
  key_of_identifier, normalize_urls, owned_keys, build_resolution, decide_unmatched, decide_matched,
  decide, resolution_of, resolve_tool,
}

map-key :
    (ns : List NormalizedIdentifier)
    → map key_of_identifier (map to_external_identifier ns) ≡ map key ns
unfolding to_external_identifier key
map-key [] = refl
map-key (n ∷ ns) = ap (λ ks. key n ∷ ks) (map-key ns)

normalize_urls-valid :
    (found : List NormalizedIdentifier) (invalid : Bool) (urls : List Text)
    → (normalize_urls found invalid urls).1 ≡ false
    → (invalid ≡ false) × All (λ u. is_some (normalize_url u) ≡ true) urls
unfolding normalize_urls
normalize_urls-valid found invalid [] h = (h, tt)
normalize_urls-valid found invalid (u ∷ urls) h = elim (Option-cases (normalize_url u)) [
  | inl bad ↦
      let (never, _) = normalize_urls-valid found true urls (rw (normalize_urls, bad) at h) in cc
  | inr (n, good) ↦
      let (same, rest) =
        normalize_urls-valid (if any (λ m. key m =ₜ key n) found then found else found ++ (n ∷ []))
          invalid urls (rw (normalize_urls, good) at h) in
      (same, (rw good refl, rest))
]

-- the one case in which a decision is `resolved`
decide-resolved :
    (invalid : Bool) (matched owned keys names : List Text)
    → (decide invalid matched owned keys names).0 ≡ resolved
    → (invalid ≡ false)
      × ((id : Text) × (matched ≡ id ∷ [])
          × ((decide invalid matched owned keys names).1 ≡ some id)
          × (all (λ k. any (λ o. o =ₜ k) owned) keys ≡ true))
unfolding decide decide_matched decide_unmatched
decide-resolved true matched owned keys names h = cc
decide-resolved false (id ∷ other ∷ ids) owned keys names h = cc
decide-resolved false (id ∷ []) owned keys names h =
    elim (Bool-cases (all (λ k. any (λ o. o =ₜ k) owned) keys)) [
      | inl covered ↦ (refl, (id, refl, rw covered refl, covered))
      | inr open_one ↦ let bad = rw open_one at h in cc
    ]
decide-resolved false [] owned [] [] h = cc
decide-resolved false [] owned [] (id ∷ ids) h = cc
decide-resolved false [] owned (k ∷ l ∷ keys) names h = cc
decide-resolved false [] owned (k ∷ []) (id ∷ ids) h = cc
decide-resolved false [] owned (k ∷ []) [] h = cc

all-All :
    (owned : List Text) (xs : List ExternalIdentifier)
    → all (λ k. any (λ o. o =ₜ k) owned) (map key_of_identifier xs) ≡ true
    → All (λ x. any (λ o. o =ₜ key_of_identifier x) owned ≡ true) xs
all-All owned [] h = tt
all-All owned (x ∷ xs) h = (ground arith, all-All owned xs (ground arith))

-- What an answer that resolves a request says: every URL is a strong identifier, one tool owns
-- identifiers of the request, it is the answer, and it owns all of them.
pub record IsResolved (request : ResolveToolRequest) (db : Db) (r : ResolutionResponse)
    : Type 0 where
  pub id : Text
  pub answer : r.tool_id ≡ some id
  pub urls : All (λ u. is_some (normalize_url u) ≡ true) request.urls
  pub sole :
      distinct_texts (
        map
          (λ t. t.tool_id)
          (find_tools_by_identifiers db (map key_of_identifier r.normalized_identifiers)))
      ≡ id ∷ []
  pub owned :
      All
        (λ x.
          any
            (λ o. o =ₜ key_of_identifier x)
            (owned_keys
              (find_tools_by_identifiers db (map key_of_identifier r.normalized_identifiers)))
          ≡ true)
        r.normalized_identifiers

resolution_of-IsResolved :
    (request : ResolveToolRequest) (db : Db)
    → (resolution_of request db).status ≡ resolved
    → IsResolved request db (resolution_of request db)
unfolding resolution_of build_resolution
resolution_of-IsResolved request db h =
    let urls = normalize_urls [] false request.urls in
    let normalized = sort_on key urls.0 in
    let keys = map key normalized in
    let tools = find_tools_by_identifiers db keys in
    let matched = distinct_texts (map (λ t. t.tool_id) tools) in
    let names = distinct_texts (map (λ t. t.tool_id) (find_tools_by_name db request.name)) in
    let (valid, (id, sole, answer, covered)) =
      decide-resolved urls.1 matched (owned_keys tools) keys names h in
    let same = sym (map-key normalized) in
    record {
      id = id;
      answer = answer;
      urls = (normalize_urls-valid [] false request.urls valid).1;
      sole =
          subst
            (λ ks.
              distinct_texts (map (λ t. t.tool_id) (find_tools_by_identifiers db ks)) ≡ id ∷ [])
            same sole;
      owned =
          all-All
            (owned_keys (
              find_tools_by_identifiers db
                (map key_of_identifier (map to_external_identifier normalized))))
            (map to_external_identifier normalized)
            (subst
              (λ ks.
                all (λ k. any (λ o. o =ₜ k) (owned_keys (find_tools_by_identifiers db ks))) ks
                ≡ true)
              same covered);
    }

-- If resolve_tool answers with the status resolved, then every URL of the request is a strong
-- identifier; the tools that own one of the normalised identifiers of the answer have one tool ID,
-- which is the answer; and each of these identifiers is among the identifiers of these tools.
pub resolve_tool-IsResolved :
    (request : ResolveToolRequest) (w : World) (r : ResolutionResponse)
    → resolve_tool request w ≡ ok r
    → r.status ≡ resolved
    → IsResolved request w.db r
unfolding resolve_tool
resolve_tool-IsResolved request w r h s =
    let (_, _, h₁) = >>=-eq-ok (refuse (not (request.intake_version =ₜ codes "0.1.0")) _) _ h in
    let (_, _, h₂) = >>=-eq-ok (validate_required "name" request.name 200) _ h₁ in
    let same = ok_injective h₂ in
    subst (IsResolved request w.db) same
      (resolution_of-IsResolved request w.db (subst (λ x. x.status ≡ resolved) (sym same) s))
