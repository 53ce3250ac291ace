-- ===== src/Service/Grounded.antt =====
-- What stored Check Results rest on.
use aleth_os_tool_passport.Prelude.{
  ℕ, ◌≤◌, ◌≡◌, ◌≢◌, subst, subst₂, sym, ◌∙◌, Bool, false, some, List, [], ◌∷◌, arith, Text,
  is_empty, trim, ok, ap, >>=-eq-ok, ok_or-ok, ok_injective, map_err-ok, ok_or, map_err, All,
  All-map, Distinct, AllIn,
}
use aleth_os_tool_passport.Platform.{Platform}
use aleth_os_tool_passport.Domain.Run.{AuditBinding}
use aleth_os_tool_passport.Domain.RunEvent.{RunEvent}
use aleth_os_tool_passport.Domain.CheckResults.{
  CheckResults, CheckResultsSubmission, CheckResult, not_applicable,
}
use aleth_os_tool_passport.Domain.Board.{EvidenceFreezeResult}
use aleth_os_tool_passport.Store.{Db, insert}
use aleth_os_tool_passport.Store.Events.{
  get_run, insert_event_row, insert_linked, linked, insert_generated_event,
  next_sequence_and_prev_hash,
}
use aleth_os_tool_passport.Store.Boards
use aleth_os_tool_passport.Store.Boards.{
  insert_check_results, get_check_results, get_evidence_freeze,
}
use aleth_os_tool_passport.Scoring.{
  score_check_results, score_checks, no_scores, finalize_dimension_scores, total_of,
  rating_for_total, cap_rating,
}
use aleth_os_tool_passport.Scoring.Catalog.{load_catalog, validate_catalog}
use aleth_os_tool_passport.Scoring.Findings.{validate_submission_header, collect_findings}
use aleth_os_tool_passport.Scoring.Coverage.{IsSound, score_check_results-IsSound}
use aleth_os_tool_passport.Scoring.Bounds.{score_check_results_bounds}
use aleth_os_tool_passport.Service.{World, parse_run_id}
use aleth_os_tool_passport.Service.Checks.{Fresh, score_event, results_error, create_check_results}

score_check_results-keys :
    (run_id : ℕ) (binding : AuditBinding) (submission : CheckResultsSubmission) (available : List ℕ)
    (approved : List Text) (id now : ℕ) (out : CheckResults)
    → score_check_results run_id binding submission available approved id now ≡ ok out
    → (out.run_id ≡ run_id) × (out.evidence_board_version ≡ submission.evidence_board_version)
unfolding score_check_results
score_check_results-keys run_id binding submission available approved id now out h =
    let (_, header, h₁) = >>=-eq-ok (validate_submission_header submission) _ h in
    let ((std, profile), loaded, h₂) = >>=-eq-ok (load_catalog binding) _ h₁ in
    let (_, valid, h₃) = >>=-eq-ok (validate_catalog std profile) _ h₂ in
    let (found, collected, h₄) =
      >>=-eq-ok (collect_findings profile.checks [] submission.findings) _ h₃ in
    let ((rs, scores), looped, h₅) =
      >>=-eq-ok (score_checks std.scoring_rules available approved profile.checks found no_scores) _
        h₄ in
    let (uncapped, rated, h₆) =
      >>=-eq-ok (rating_for_total std.rating_policy (total_of (finalize_dimension_scores scores))) _
        h₅ in
    let (rating, capped, h₇) =
      >>=-eq-ok (cap_rating std.rating_policy.high_risk_rating_caps uncapped rs) _ h₆ in
    let same = sym (ok_injective h₇) in
    (ap (λ o. o.run_id) same, ap (λ o. o.evidence_board_version) same)

insert_event_row-results :
    (db db' : Db) (row : RunEvent)
    → insert_event_row db row ≡ ok db'
    → db'.check_results ≡ db.check_results
unfolding insert_event_row insert
insert_event_row-results db db' row h = ground arith

insert_check_results-adds :
    (db db' : Db) (r : CheckResults)
    → insert_check_results db r ≡ ok db'
    → db'.check_results ≡ r ∷ db.check_results
unfolding insert_check_results insert
insert_check_results-adds db db' r h = ground arith

-- each result stands on the board, and none is excused
abbrev pub IsOnBoard : List ℕ → CheckResult → Type 0
IsOnBoard board r =
    (is_empty (trim r.rationale) ≡ false)
    × AllIn board r.evidence_ids
    × Distinct r.evidence_ids
    × (r.finding ≢ not_applicable)

-- What the results are computed from: a board of the run that is frozen, with findings on its
-- evidence only; and a total score of at most 100.
pub record IsGrounded (db : Db) (r : CheckResults) : Type 0 where
  pub freeze : EvidenceFreezeResult
  pub frozen : get_evidence_freeze db r.run_id r.evidence_board_version ≡ some freeze
  pub on_board : All (IsOnBoard freeze.evidence_board.evidence_ids) r.results
  pub bounded : r.total_score ≤ 100

IsSound-IsOnBoard : (board : List ℕ) (r : CheckResult) → IsSound board [] r → IsOnBoard board r
IsSound-IsOnBoard board r s = (s.rationale, s.evidence, s.distinct, λ e. let a = s.approval e in cc)

module _ (p : Platform) where
  insert_generated_event-results :
      (read : Bool) (db db' : Db) (event : RunEvent) {hash : Text}
      → insert_generated_event p read db event ≡ ok (hash, db')
      → db'.check_results ≡ db.check_results
  unfolding insert_generated_event insert_linked
  insert_generated_event-results read db db' event h =
      let ((row, mid), inserted, rest) = >>=-eq-ok (insert_linked p read db event) _ h in
      let place = next_sequence_and_prev_hash read db.run_events event.run_id in
      let (last, added, h₂) =
        >>=-eq-ok (insert_event_row db (linked p place.0 place.1 event)) _ inserted in
      sym (ap (λ t. t.1.check_results) (ok_injective rest))
      ∙ sym (ap (λ t. t.1.check_results) (ok_injective h₂))
      ∙ insert_event_row-results db last (linked p place.0 place.1 event) added

  create_check_results-stored :
      (read : Bool) (db db' : Db) (r out : CheckResults) (event : RunEvent)
      → Boards.create_check_results p read db r event ≡ ok (out, db')
      → (r ≡ out) × (db'.check_results ≡ r ∷ db.check_results)
  unfolding Boards.create_check_results
  create_check_results-stored read db db' r out event h =
      let (db₁, added, h₁) = >>=-eq-ok (insert_check_results db r) _ h in
      let ((hash, db₂), logged, h₂) = >>=-eq-ok (insert_generated_event p read db₁ event) _ h₁ in
      (
        ap (λ t. t.0) (ok_injective h₂),
        sym (ap (λ t. t.1.check_results) (ok_injective h₂))
            ∙ insert_generated_event-results read db₁ db₂ event logged
            ∙ insert_check_results-adds db db₁ r added,
      )

  get_check_results-head :
      (db : Db) (r : CheckResults) (rows : List CheckResults)
      → db.check_results ≡ r ∷ rows
      → get_check_results db r.run_id r.evidence_board_version ≡ some r
  unfolding get_check_results
  get_check_results-head db r rows e = rw e (ground arith)

  -- If create_check_results of the service succeeds, then the database before has a frozen board
  -- of the run and the version of the results; each result has a rationale that is not blank,
  -- names only evidence of that board and none twice, and is not not_applicable; the total score
  -- is at most 100; and the query for the results of that run and version finds these ones
  -- afterwards.
  pub create_check_results-IsGrounded :
      (read : Bool) (fresh : Fresh) (run_id : Text) (submission : CheckResultsSubmission)
      (w w' : World) (r : CheckResults)
      → create_check_results p read fresh run_id submission w ≡ ok (r, w')
      → IsGrounded w.db r × (get_check_results w'.db r.run_id r.evidence_board_version ≡ some r)
  unfolding create_check_results
  create_check_results-IsGrounded read fresh run_id submission w w' r h =
      let (id, parsed, h₁) = >>=-eq-ok (parse_run_id p run_id) _ h in
      let (run, found, h₂) = >>=-eq-ok (ok_or _ (get_run w.db id)) _ h₁ in
      let (freeze, frozen, h₃) =
        >>=-eq-ok (ok_or _ (get_evidence_freeze w.db id submission.evidence_board_version)) _ h₂ in
      let board = freeze.evidence_board.evidence_ids in
      let (results, scored, h₄) =
        >>=-eq-ok
          (map_err _ (
            score_check_results id run.audit_binding submission board [] fresh.check_results_id
              fresh.computed_at))
          _ h₃ in
      let ((out, db), made, h₅) =
        >>=-eq-ok
          (map_err results_error
            (Boards.create_check_results p read w.db results (score_event p fresh results)))
          _ h₄ in
      let scored' = map_err-ok _ _ scored in
      let (same, stored) =
        create_check_results-stored read w.db db results out (score_event p fresh results)
          (map_err-ok results_error _ made) in
      let (own, version) =
        score_check_results-keys id run.audit_binding submission board [] fresh.check_results_id
          fresh.computed_at results scored' in
      let (sound, _) =
        score_check_results-IsSound id run.audit_binding submission board [] fresh.check_results_id
          fresh.computed_at results scored' in
      let (_, bounded) =
        score_check_results_bounds id run.audit_binding submission board [] fresh.check_results_id
          fresh.computed_at results scored' in
      let all_of : results ≡ r = same ∙ ap (λ t. t.0) (ok_injective h₅) in
      let end_of : db ≡ w'.db = ap (λ t. t.1.db) (ok_injective h₅) in
      let grounded : IsGrounded w.db results = record {
        freeze = freeze;
        frozen =
            subst₂ (λ i v. get_evidence_freeze w.db i v ≡ some freeze) (sym own) (sym version)
              (ok_or-ok _ _ frozen);
        on_board =
            All-map (IsSound board []) (IsOnBoard board) (IsSound-IsOnBoard board) results.results
              sound;
        bounded = bounded;
      } in
      (
        subst (IsGrounded w.db) all_of grounded,
        subst₂ (λ x d. get_check_results d x.run_id x.evidence_board_version ≡ some x) all_of end_of
            (get_check_results-head db results w.db.check_results stored),
      )
