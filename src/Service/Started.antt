-- ===== src/Service/Started.antt =====
-- What a run is when it is created.
use aleth_os_tool_passport.Prelude.{
  ℕ, ◌≡◌, refl, subst₂, sym, ◌∙◌, some, List, ◌∷◌, arith, trim, ok, ap, >>=-eq-ok, ok_or-ok,
  ok_injective, map_err-ok, ok_or, map_err,
}
use aleth_os_tool_passport.Platform.{Platform}
use aleth_os_tool_passport.Domain.Run.{Run, CreateRunRequest, pending}
use aleth_os_tool_passport.Domain.RunEvent.{RunEvent}
use aleth_os_tool_passport.Domain.Tool.{
  ToolType, generic, agent_framework, mcp_server, cli_api_tool, Tool, as_str,
}
use aleth_os_tool_passport.Errors.{repository}
use aleth_os_tool_passport.Scoring.Types.{AuditProfile}
use aleth_os_tool_passport.Scoring.Embedded.{
  standard, generic_profile, agent_framework_profile, mcp_server_profile, cli_api_tool_profile,
}
use aleth_os_tool_passport.Scoring.Catalog.{
  profile_of, load_catalog, current_audit_binding, validate_catalog,
}
use aleth_os_tool_passport.Domain.RunEvent.{zero_hash}
use aleth_os_tool_passport.Store.Chain.{insert_event_row-Inserted}
use aleth_os_tool_passport.Store.{Db, insert}
use aleth_os_tool_passport.Store.Events
use aleth_os_tool_passport.Store.Events.{get_run, insert_run, insert_event_row, linked}
use aleth_os_tool_passport.Store.Tools
use aleth_os_tool_passport.Store.Tools.{
  find_tools_by_identifiers, find_tools_by_name, distinct_texts,
}
use aleth_os_tool_passport.Service.{World}
use aleth_os_tool_passport.Service.Tools.{validate_create_run, run_of, created_event, create_run}

-- the catalog of a binding, which passes its validation
pub record IsAuditable (run : Run) : Type 0 where
  pub profile : AuditProfile
  pub loaded : load_catalog run.audit_binding ≡ ok (standard, profile)
  pub valid : validate_catalog standard profile ≡ ok tt

current-loaded :
    (t : ToolType)
    → (profile : AuditProfile) × (load_catalog (current_audit_binding t) ≡ ok (standard, profile))
      × (validate_catalog standard profile ≡ ok tt)
unfolding load_catalog current_audit_binding profile_of as_str validate_catalog generic_profile
    standard agent_framework_profile mcp_server_profile cli_api_tool_profile
current-loaded generic = (generic_profile, refl, refl)
current-loaded agent_framework = (agent_framework_profile, refl, refl)
current-loaded mcp_server = (mcp_server_profile, refl, refl)
current-loaded cli_api_tool = (cli_api_tool_profile, refl, refl)

run_of-IsAuditable :
    (run_id now : ℕ) (request : CreateRunRequest) (tool : Tool)
    → IsAuditable (run_of run_id now request tool)
unfolding run_of
run_of-IsAuditable run_id now request tool =
    let (profile, loaded, valid) = current-loaded tool.tool_type in
    record { profile = profile; loaded = loaded; valid = valid }

insert_run-adds : (db db' : Db) (run : Run) → insert_run db run ≡ ok db' → db'.runs ≡ run ∷ db.runs
unfolding insert_run insert
insert_run-adds db db' run h = ground arith

get_run-head :
    (db : Db) (run : Run) (rows : List Run)
    → db.runs ≡ run ∷ rows
    → get_run db run.run_id ≡ some run
unfolding get_run
get_run-head db run rows e = rw e (ground arith)

create_run-stored :
    (p : Platform) (db db' : Db) (run r : Run) (event : RunEvent)
    → Events.create_run p db run event ≡ ok (r, db')
    → (run ≡ r) × (db'.runs ≡ run ∷ db.runs)
unfolding Events.create_run
create_run-stored p db db' run r event h =
    let first = linked p 1 zero_hash (record event { run_id = run.run_id }) in
    let (mid, added, h₁) = >>=-eq-ok (insert_run db run) _ h in
    let (last, inserted, h₂) = >>=-eq-ok (insert_event_row mid first) _ h₁ in
    (
      ap (λ t. t.0) (ok_injective h₂),
      sym (ap (λ t. t.1.runs) (ok_injective h₂))
          ∙ (insert_event_row-Inserted mid last first inserted).runs
          ∙ insert_run-adds db mid run added,
    )

-- a new run: of a tool of the registry, pending, ready to be scored, and found in the database
pub record IsStarted (before after_it : Db) (request : CreateRunRequest) (run : Run) : Type 0 where
  pub tool : Tool
  pub registered : Tools.get_tool before (trim request.tool_id) ≡ some tool
  pub tool_id : run.tool_id ≡ tool.tool_id
  pub status : run.status ≡ pending
  pub auditable : IsAuditable run
  pub found : get_run after_it run.run_id ≡ some run

-- If create_run of the service succeeds, then the registry has the tool of the request; the run
-- has its tool ID, is pending, and is found afterwards; and the audit binding of the run always
-- loads: its catalog is the standard with a profile that passes the validation, so that scoring
-- does not fail for want of a catalog.
pub create_run-IsStarted :
    (p : Platform) (run_id event_id now : ℕ) (request : CreateRunRequest) (w w' : World) (run : Run)
    → create_run p run_id event_id now request w ≡ ok (run, w')
    → IsStarted w.db w'.db request run
unfolding create_run run_of
create_run-IsStarted p run_id event_id now request w w' run h =
    let (_, _, h₁) = >>=-eq-ok (validate_create_run request) _ h in
    let (tool, found, h₂) = >>=-eq-ok (ok_or _ (Tools.get_tool w.db (trim request.tool_id))) _ h₁ in
    let new = run_of run_id now request tool in
    let ((r, db), made, h₃) =
      >>=-eq-ok
        (map_err repository (Events.create_run p w.db new (created_event event_id run_id now))) _
        h₂ in
    let (same, stored) =
      create_run-stored p w.db db new r (created_event event_id run_id now)
        (map_err-ok repository _ made) in
    subst₂ (λ x d. IsStarted w.db d request x) (same ∙ ap (λ t. t.0) (ok_injective h₃))
      (ap (λ t. t.1.db) (ok_injective h₃))
      (record {
        tool = tool;
        registered = ok_or-ok _ _ found;
        tool_id = refl;
        status = refl;
        auditable = run_of-IsAuditable run_id now request tool;
        found = get_run-head db new w.db.runs stored;
      })
