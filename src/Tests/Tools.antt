-- ===== src/Tests/Tools.antt =====
-- A tool that is resolved, and a run of it.
use aleth_os_tool_passport.Prelude.{
  ◌≡◌, refl, map, none, [], ◌∷◌, codes, trim, ok, sort_on, split_on, starts_with, strip_prefix,
  ends_with, contains, to_ascii_lowercase, insert_on, is_whitespace, le_text, trim_end, trim_start,
  some, true,
}
use aleth_os_tool_passport.Service.Normalizer.{
  NormalizedIdentifier, cut, github_identifier, host_of, identify, is_plain_path, is_plain_text,
  key, normalize_rest, normalize_url, parse_u16, split_path, strip_git, to_external_identifier,
  trim_slashes, url_identifier, validate_tool_id_format,
}
use aleth_os_tool_passport.Service.Requests.{validate_required}
use aleth_os_tool_passport.Store.Tools.{
  distinct_texts, find_tools_by_identifiers, find_tools_by_name, get_tool, load_full_tool, tools_of,
  add_external_id, insert_external_id, push_identifier, insert_alias, insert_aliases,
  insert_external_ids, insert_tool,
}
use aleth_os_tool_passport.Domain.RunEvent.{as_str}
use aleth_os_tool_passport.Domain.Tool
use aleth_os_tool_passport.Scoring.Catalog.{current_audit_binding}
use aleth_os_tool_passport.Store.Events.{
  canonical_input, canonical_sha256, compute_event_hash, has_length, insert_event_row, insert_run,
  linked, sha256_hex,
}
use aleth_os_tool_passport.Store.Events
use aleth_os_tool_passport.Domain.Run.{Run, CreateRunRequest, pending}
use aleth_os_tool_passport.Domain.Tool.{
  Tool, generic, ResolveToolRequest, ResolutionResponse, resolved,
}
use aleth_os_tool_passport.Errors.{is_unique_violation}
use aleth_os_tool_passport.Service.Tools
use aleth_os_tool_passport.Store.Freezes.{insert_error}
use aleth_os_tool_passport.Store.Tools as Rows
use aleth_os_tool_passport.Store.{Db, empty, has_text, insert}
use aleth_os_tool_passport.Service.{World}
use aleth_os_tool_passport.Service.Tools.{
  resolve_tool, create_run, build_resolution, decide, decide_matched, decide_unmatched,
  normalize_urls, resolution_of, created_event, run_of, validate_create_run, add_error,
  check_canonical, refuse_other, check_aliases, check_identifiers, create_tool_error, tool_of,
  validate_create_tool,
}
use aleth_os_tool_passport.Service.Tools.{add_identifier, create_tool}
use aleth_os_tool_passport.Service.Ownership.{IsOwned, add_identifier-IsOwned}
use aleth_os_tool_passport.Store.Tools.{id_row}
use aleth_os_tool_passport.Domain.Tool.{ExternalIdentifier, CreateToolRequest}
use aleth_os_tool_passport.Service.Registry.{IsResolved, resolve_tool-IsResolved}
use aleth_os_tool_passport.Service.Started.{IsStarted, create_run-IsStarted}
use aleth_os_tool_passport.Service.Normalizer
use aleth_os_tool_passport.Service.ToolIds.{normalize_url-validate_tool_id_format}
use aleth_os_tool_passport.Tests.Fixtures.{digits_only, run_at, world_of, or_else}

abbrev registered : Db
registered = record empty {
  tools =
      record {
        tool_id = codes "url:example.com";
        name = codes "Example";
        tool_type = generic;
        canonical_url = codes "https://example.com";
        external_identifiers = [];
        created_at = 1;
        updated_at = 1;
      }
      ∷ [];
  tool_external_ids =
      record {
        namespace = codes "url";
        value = codes "example.com";
        tool_id = codes "url:example.com";
        canonical_url = codes "https://example.com";
      }
      ∷ [];
}

abbrev lookup : ResolveToolRequest
lookup = record {
  intake_version = codes "0.1.0";
  name = codes "Example";
  tool_type = generic;
  urls = codes "HTTPS://Example.com:443/" ∷ [];
}

abbrev answer : ResolutionResponse
answer =
    or_else
      (record {
        resolution_version = [];
        status = resolved;
        normalized_identifiers = [];
        tool_id = none;
        candidate_tool_ids = [];
        reason_codes = [];
      })
      (resolve_tool lookup (world_of registered))

answer-ok : resolve_tool lookup (world_of registered) ≡ ok answer
unfolding insert_on sort_on contains ends_with is_whitespace le_text split_on starts_with
    strip_prefix to_ascii_lowercase trim trim_end trim_start cut github_identifier host_of identify
    is_plain_path is_plain_text key normalize_rest normalize_url parse_u16 split_path strip_git
    to_external_identifier trim_slashes url_identifier validate_required build_resolution decide
    decide_matched decide_unmatched normalize_urls resolution_of resolve_tool distinct_texts
    find_tools_by_identifiers find_tools_by_name get_tool load_full_tool tools_of
answer-ok = refl

answer-resolved : answer.status ≡ resolved
unfolding insert_on sort_on contains ends_with is_whitespace le_text split_on starts_with
    strip_prefix to_ascii_lowercase trim trim_end trim_start cut github_identifier host_of identify
    is_plain_path is_plain_text key normalize_rest normalize_url parse_u16 split_path strip_git
    to_external_identifier trim_slashes url_identifier validate_required build_resolution decide
    decide_matched decide_unmatched normalize_urls resolution_of resolve_tool distinct_texts
    find_tools_by_identifiers find_tools_by_name get_tool load_full_tool tools_of
answer-resolved = refl

resolve_tool-IsResolved_example : IsResolved lookup registered answer
resolve_tool-IsResolved_example =
    resolve_tool-IsResolved lookup (world_of registered) answer answer-ok answer-resolved

abbrev wanted : CreateRunRequest
wanted = record { goal = codes "audit"; tool_id = codes "url:example.com" }

abbrev started : Run × World
started =
    or_else (run_at pending, world_of empty)
      (create_run digits_only 65 66 4 wanted (world_of registered))

started-ok : create_run digits_only 65 66 4 wanted (world_of registered) ≡ ok started
unfolding as_str Tool.as_str insert_on sort_on is_whitespace le_text strip_prefix trim trim_end
    trim_start current_audit_binding validate_tool_id_format validate_required create_run
    created_event run_of validate_create_run canonical_input canonical_sha256 compute_event_hash
    Events.create_run has_length insert_event_row insert_run linked sha256_hex get_tool
    load_full_tool has_text insert
started-ok = refl

create_run-IsStarted_example : IsStarted registered started.1.db wanted started.0
create_run-IsStarted_example =
    create_run-IsStarted digits_only 65 66 4 wanted (world_of registered) started.1 started.0
      started-ok

abbrev address : NormalizedIdentifier
address = Normalizer.url_identifier (codes "example.com") []

address-ok : normalize_url (codes "HTTPS://Example.com:443/") ≡ some address
unfolding contains ends_with is_whitespace split_on starts_with strip_prefix to_ascii_lowercase
    trim_end trim_start cut github_identifier host_of identify is_plain_path is_plain_text
    normalize_rest normalize_url parse_u16 split_path strip_git trim_slashes url_identifier
address-ok = refl

normalize_url-validate_tool_id_format_example : validate_tool_id_format (key address) ≡ true
normalize_url-validate_tool_id_format_example =
    normalize_url-validate_tool_id_format (codes "HTTPS://Example.com:443/") address address-ok

abbrev repository : ExternalIdentifier
repository = record {
  namespace = codes "github";
  value = codes "a/b";
  canonical_url = codes "https://github.com/a/b";
}

abbrev extended : Tool × World
extended =
    or_else
      (
        load_full_tool empty (record {
          tool_id = [];
          name = [];
          tool_type = generic;
          canonical_url = [];
          external_identifiers = [];
          created_at = 0;
          updated_at = 0;
        }),
        world_of empty,
      )
      (add_identifier 9 (codes "url:example.com") (record { identifier = repository })
        (world_of registered))

extended-ok :
    add_identifier 9
      (codes "url:example.com")
      (record { identifier = repository })
      (world_of registered)
    ≡ ok extended
unfolding is_unique_violation insert_on sort_on contains ends_with is_whitespace le_text split_on
    starts_with strip_prefix to_ascii_lowercase trim_end trim_start cut github_identifier host_of
    identify is_plain_path is_plain_text key normalize_rest normalize_url parse_u16 split_path
    strip_git trim_slashes url_identifier add_error add_identifier check_canonical Tools.get_tool
    refuse_other insert_error add_external_id distinct_texts find_tools_by_identifiers get_tool
    insert_external_id load_full_tool push_identifier tools_of has_text insert
extended-ok = refl

add_identifier-IsOwned_example :
    IsOwned extended.1.db
    × (extended.1.db.tool_external_ids
        ≡ id_row (codes "url:example.com") repository ∷ registered.tool_external_ids)
add_identifier-IsOwned_example =
    add_identifier-IsOwned 9 (codes "url:example.com") (record { identifier = repository })
      (world_of registered) extended.1 extended.0 (record { tools = refl; sole = (refl, tt) })
      extended-ok

-- a tool that claims the key of another one with its parts cut elsewhere
abbrev owned_path : Db
owned_path = record registered {
  tool_external_ids =
      record {
        namespace = codes "url";
        value = codes "example.com/a:b";
        tool_id = codes "url:example.com";
        canonical_url = codes "https://example.com/a:b";
      }
      ∷ registered.tool_external_ids;
}

abbrev shadow : CreateToolRequest
shadow = record {
  tool_id = codes "url:other.org";
  name = codes "Other";
  tool_type = generic;
  canonical_url = codes "https://other.org";
  external_identifiers =
      record {
        namespace = codes "url";
        value = codes "other.org";
        canonical_url = codes "https://other.org";
      }
      ∷ record {
        namespace = codes "url:example.com/a";
        value = codes "b";
        canonical_url = codes "https://example.com/a:b";
      }
      ∷ [];
  aliases = [];
}

abbrev shadowed : Tool × World
shadowed = or_else extended (create_tool 9 shadow (world_of owned_path))

two_owners :
    map
      (λ t. t.tool_id)
      (find_tools_by_identifiers shadowed.1.db (codes "url:example.com/a:b" ∷ []))
    ≡ codes "url:other.org" ∷ codes "url:example.com" ∷ []
unfolding is_unique_violation insert_on sort_on contains ends_with is_whitespace le_text split_on
    starts_with strip_prefix to_ascii_lowercase trim trim_end trim_start cut github_identifier
    host_of identify is_plain_path is_plain_text key normalize_rest normalize_url parse_u16
    split_path strip_git trim_slashes url_identifier validate_tool_id_format validate_required
    check_aliases check_canonical check_identifiers create_tool create_tool_error tool_of
    validate_create_tool insert_error Rows.create_tool distinct_texts find_tools_by_identifiers
    get_tool insert_alias insert_aliases insert_external_id insert_external_ids insert_tool
    load_full_tool tools_of has_text insert
two_owners = refl
