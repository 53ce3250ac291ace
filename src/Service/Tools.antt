-- ===== src/Service/Tools.antt =====
-- The tool registry and the creation of runs in backend/src/services/mod.rs.
use aleth_os_tool_passport.Prelude.{
  ℕ, suc, Bool, true, false, not, Option, none, some, List, [], ◌∷◌, ◌++◌, map, ltb, ◌==◌,
  if◌then◌else◌, Text, codes, ◌=ₜ◌, is_empty, trim, Result, ok, err, ◌>>=◌, ◌>>◌, refuse, ok_or,
  map_err, format, says, any, all, sort_on, to_ascii_lowercase, find, keep, length,
}
use aleth_os_tool_passport.Platform.{Platform}
use aleth_os_tool_passport.Domain.Run.{Run, CreateRunRequest, pending}
use aleth_os_tool_passport.Domain.RunEvent.{RunEvent, run_created, str, field, end, zero_hash}
use aleth_os_tool_passport.Domain.Tool.{
  ExternalIdentifier, Tool, CreateToolRequest, AddIdentifierRequest, ResolveToolRequest,
  ResolutionStatus, resolved, create_candidate, needs_review, ReasonCode, existing_identifier_match,
  new_strong_identifier, name_only, name_match_only, invalid_or_ambiguous_url,
  multiple_strong_identifiers, conflicting_existing_identifiers, possible_fork_or_source_migration,
  additional_identifier_requires_review, ResolutionResponse, as_str,
}
use aleth_os_tool_passport.Errors.{
  RepositoryError, unique_violation, ServiceError, invalid_request, tool_not_found,
  invalid_tool_id_format, tool_already_exists, identifier_already_claimed, invalid_url,
  invalid_intake_version, repository,
}
use aleth_os_tool_passport.Scoring.Catalog.{current_audit_binding}
use aleth_os_tool_passport.Store.{Db}
use aleth_os_tool_passport.Store.Events
use aleth_os_tool_passport.Store.Tools
use aleth_os_tool_passport.Store.Tools.{
  find_tools_by_identifiers, find_tools_by_name, distinct_texts, add_external_id,
}
use aleth_os_tool_passport.Service.{World}
use aleth_os_tool_passport.Service.Requests.{validate_required, decimal}
use aleth_os_tool_passport.Service.Normalizer.{
  NormalizedIdentifier, key_of, key, to_external_identifier, normalize_url, validate_tool_id_format,
}

abbrev pub key_of_identifier : ExternalIdentifier → Text
key_of_identifier x = key_of x.namespace x.value

-- whether a URL normalises to a key, and what is reported otherwise
unfoldable pub check_canonical :
    ServiceError → ServiceError → ExternalIdentifier → Result ServiceError (Unit {0})
check_canonical not_strong mismatch x = do
  normalized ← ok_or not_strong (normalize_url x.canonical_url)
  refuse (not (key normalized =ₜ key_of_identifier x)) mismatch

-- the loop over the identifiers with their index
unfoldable pub check_identifiers : ℕ → List ExternalIdentifier → Result ServiceError (Unit {0})
check_identifiers index [] = ok tt
check_identifiers index (x ∷ xs) = do
  check_canonical
      (invalid_url (
        format "external_identifiers[{}].canonical_url is not a valid strong URL"
          (decimal index ∷ [])))
      (invalid_request (
        format
          "external_identifiers[{}]: namespace:value does not match canonical_url normalization"
          (decimal index ∷ [])))
      x
  check_identifiers (suc index) xs

unfoldable pub check_aliases : List Text → Result ServiceError (Unit {0})
check_aliases [] = ok tt
check_aliases (alias ∷ aliases) = do validate_required "alias" alias 200; check_aliases aliases

unfoldable pub validate_create_tool : CreateToolRequest → Result ServiceError (Unit {0})
validate_create_tool r = do
  refuse (not (validate_tool_id_format r.tool_id)) invalid_tool_id_format
  validate_required "name" r.name 200
  validate_required "canonical_url" r.canonical_url 2048
  refuse (is_empty r.external_identifiers)
      (invalid_request (says "external_identifiers must contain at least one entry"))
  refuse (ltb 20 (length r.external_identifiers))
      (invalid_request (says "external_identifiers must contain at most 20 entries"))
  check_identifiers 0 r.external_identifiers
  refuse (not (length (keep (λ x. key_of_identifier x =ₜ r.tool_id) r.external_identifiers) == 1))
      (invalid_request (says "tool_id must match exactly one external identifier namespace:value"))
  refuse (not (any (λ x. trim x.canonical_url =ₜ trim r.canonical_url) r.external_identifiers))
      (invalid_request (says "canonical_url must match one external identifier's canonical_url"))
  refuse (not (length r.aliases == length (distinct_texts (map to_ascii_lowercase r.aliases))))
      (invalid_request (says "aliases must be unique ignoring case"))
  check_aliases r.aliases

unfoldable pub tool_of : ℕ → CreateToolRequest → Tool
tool_of now r = record {
  tool_schema_version = codes "0.1.0";
  tool_id = trim r.tool_id;
  name = trim r.name;
  tool_type = r.tool_type;
  canonical_url = trim r.canonical_url;
  external_identifiers = r.external_identifiers;
  aliases = r.aliases;
  created_at = now;
  updated_at = now;
}

unfoldable pub create_tool_error : RepositoryError → ServiceError
create_tool_error unique_violation = tool_already_exists
create_tool_error other = repository other

unfoldable pub create_tool : ℕ → CreateToolRequest → World → Result ServiceError (Tool × World)
create_tool now request w = do
  validate_create_tool request
  (tool, db) ← map_err create_tool_error (Tools.create_tool w.db (tool_of now request))
  ok (tool, record w { db = db })

unfoldable pub get_tool : Text → World → Result ServiceError Tool
get_tool tool_id w = ok_or tool_not_found (Tools.get_tool w.db tool_id)

-- the loop over the URLs: identifiers with distinct keys, and whether some URL is not one
unfoldable pub normalize_urls :
    List NormalizedIdentifier → Bool → List Text → List NormalizedIdentifier × Bool
normalize_urls found invalid [] = (found, invalid)
normalize_urls found invalid (raw_url ∷ raw_urls) = elim (normalize_url raw_url) [
  | none ↦ normalize_urls found true raw_urls
  | some n ↦
      normalize_urls (if any (λ m. key m =ₜ key n) found then found else found ++ (n ∷ [])) invalid
        raw_urls
]

-- the keys of the identifiers of tools
abbrev pub owned_keys : List Tool → List Text
owned_keys [] = []
owned_keys (tool ∷ tools) = map key_of_identifier tool.external_identifiers ++ owned_keys tools

-- Every call passes one reason, which sorting leaves as it is.
unfoldable pub build_resolution :
    ResolutionStatus
    → Option Text
    → List ExternalIdentifier
    → List Text
    → ReasonCode
    → ResolutionResponse
build_resolution status tool_id identifiers candidates reason = record {
  resolution_version = codes "0.1.0";
  status = status;
  normalized_identifiers = identifiers;
  tool_id = tool_id;
  candidate_tool_ids = candidates;
  reason_codes = reason ∷ [];
}

-- the decision when no tool owns a key
unfoldable pub decide_unmatched :
    List Text → List Text → ResolutionStatus × Option Text × ReasonCode
decide_unmatched [] [] = (needs_review, none, name_only)
decide_unmatched [] (id ∷ ids) = (needs_review, none, name_match_only)
decide_unmatched (k ∷ l ∷ keys) names = (needs_review, none, multiple_strong_identifiers)
decide_unmatched (k ∷ []) (id ∷ ids) = (needs_review, none, possible_fork_or_source_migration)
decide_unmatched (k ∷ []) [] = (create_candidate, some k, new_strong_identifier)

-- the decision when no URL is invalid: on the IDs that own a key, the keys they own, all keys, and
-- the IDs with the name
unfoldable pub decide_matched :
    List Text → List Text → List Text → List Text → ResolutionStatus × Option Text × ReasonCode
decide_matched (id ∷ other ∷ ids) owned keys names =
    (needs_review, none, conflicting_existing_identifiers)
decide_matched (id ∷ []) owned keys names =
    if all (λ k. any (λ o. o =ₜ k) owned) keys
    then (resolved, some id, existing_identifier_match)
    else (needs_review, none, additional_identifier_requires_review)
decide_matched [] owned keys names = decide_unmatched keys names

unfoldable pub decide :
    Bool
    → List Text
    → List Text
    → List Text
    → List Text
    → ResolutionStatus × Option Text × ReasonCode
decide true matched owned keys names = (needs_review, none, invalid_or_ambiguous_url)
decide false matched owned keys names = decide_matched matched owned keys names

unfoldable pub resolution_of : ResolveToolRequest → Db → ResolutionResponse
resolution_of request db =
    let urls = normalize_urls [] false request.urls in
    let normalized = sort_on key urls.0 in
    let keys = map key normalized in
    let tools = find_tools_by_identifiers db keys in
    let matched = distinct_texts (map (λ t. t.tool_id) tools) in
    let names = distinct_texts (map (λ t. t.tool_id) (find_tools_by_name db request.name)) in
    let candidates = distinct_texts (sort_on (λ s. s) (matched ++ names)) in
    let d = decide urls.1 matched (owned_keys tools) keys names in
    build_resolution d.0 d.1 (map to_external_identifier normalized) candidates d.2

unfoldable pub resolve_tool : ResolveToolRequest → World → Result ServiceError ResolutionResponse
resolve_tool request w = do
  refuse (not (request.intake_version =ₜ codes "0.1.0")) invalid_intake_version
  validate_required "name" request.name 200
  ok (resolution_of request w.db)

unfoldable pub add_error : Text → RepositoryError → ServiceError
add_error tool_id unique_violation = identifier_already_claimed tool_id
add_error tool_id other = repository other

-- the first tool that is another one
unfoldable pub refuse_other : Text → List Tool → Result ServiceError (Unit {0})
refuse_other tool_id owners = elim (find (λ t. not (t.tool_id =ₜ tool_id)) owners) [
  | none ↦ ok tt
  | some t ↦ err (identifier_already_claimed t.tool_id)
]

unfoldable pub add_identifier :
    ℕ → Text → AddIdentifierRequest → World → Result ServiceError (Tool × World)
add_identifier now tool_id request w = do
  existing ← get_tool tool_id w
  check_canonical
      (invalid_url (
        format "identifier canonical_url is not a valid strong URL: {}"
          (request.identifier.canonical_url ∷ [])))
      (invalid_request
        (says "identifier namespace:value does not match its canonical_url normalization"))
      request.identifier
  refuse_other existing.tool_id
      (find_tools_by_identifiers w.db (key_of_identifier request.identifier ∷ []))
  (tool, db) ←
      map_err (add_error existing.tool_id) (add_external_id w.db tool_id request.identifier now)
  ok (tool, record w { db = db })

unfoldable pub validate_create_run : CreateRunRequest → Result ServiceError (Unit {0})
validate_create_run request = do
  validate_required "goal" request.goal 4000
  validate_required "tool_id" request.tool_id 200
  refuse (not (validate_tool_id_format (trim request.tool_id))) invalid_tool_id_format

unfoldable pub run_of : ℕ → ℕ → CreateRunRequest → Tool → Run
run_of run_id now request tool = record {
  run_id = run_id;
  goal = trim request.goal;
  tool_id = tool.tool_id;
  canonical_url = tool.canonical_url;
  tool = record {
    name = tool.name;
    tool_type = as_str tool.tool_type;
    urls = tool.canonical_url ∷ [];
  };
  audit_binding = current_audit_binding tool.tool_type;
  status = pending;
  current_node = none;
  created_at = now;
  updated_at = now;
}

unfoldable pub created_event : ℕ → ℕ → ℕ → RunEvent
created_event event_id run_id now = record {
  event_id = event_id;
  run_id = run_id;
  sequence = 0;
  node_id = codes "run";
  event_type = run_created;
  payload = field (codes "status") (str (codes "pending")) end;
  created_at = now;
  event_hash = [];
  prev_event_hash = zero_hash;
}

unfoldable pub create_run :
    Platform → ℕ → ℕ → ℕ → CreateRunRequest → World → Result ServiceError (Run × World)
create_run p run_id event_id now request w = do
  validate_create_run request
  tool ← ok_or tool_not_found (Tools.get_tool w.db (trim request.tool_id))
  (run, db) ← map_err repository (
      Events.create_run p w.db (run_of run_id now request tool) (created_event event_id run_id now))
  ok (run, record w { db = db })
