-- ===== src/Service/Composed.antt =====
-- What a frozen Passport is made of, and what its provenance commits to.
mod Normalised
use aleth_os_tool_passport.Prelude.{
  ℕ, ◌≡◌, refl, subst, subst₂, sym, ◌∙◌, Bool, some, List, ◌==◌, Text, ok, ap, ==→≡, >>=-eq-ok,
  ok_or-ok, ok_injective, map_err-ok, ok_or, map_err, find-true, =ₜ→≡, refuse-ok, not, ◌||◌, ◌=ₜ◌,
  arith, true, false,
}
use aleth_os_tool_passport.Platform.{Platform}
use aleth_os_tool_passport.Domain.Run.{Run, AuditBinding}
use aleth_os_tool_passport.Domain.RunEvent.{RunEvent}
use aleth_os_tool_passport.Domain.Board.{EvidenceFreezeResult}
use aleth_os_tool_passport.Domain.CheckResults.{CheckResults}
use aleth_os_tool_passport.Domain.Passport.{
  PassportStatement, PassportRisk, Passport, Provenance, FreezePassportRequest,
  PassportFreezeResult,
}
use aleth_os_tool_passport.Domain.Json.{passport_value, manifest_value}
use aleth_os_tool_passport.Store.{Db}
use aleth_os_tool_passport.Store.Events.{get_run, canonical_sha256, insert_generated_event}
use aleth_os_tool_passport.Store.Chain.{last_hash, events_of}
use aleth_os_tool_passport.Store.Logged.{IsLogged}
use aleth_os_tool_passport.Store.Decisions.{create_passport_freeze-audit_log_hash}
use aleth_os_tool_passport.Store.Boards.{get_evidence_freeze, get_check_results}
use aleth_os_tool_passport.Store.Freezes
use aleth_os_tool_passport.Store.Freezes.{
  next_passport_sequence, insert_passport, insert_provenance, stamped,
}
use aleth_os_tool_passport.Service.{World, parse_run_id, generated_event}
use aleth_os_tool_passport.Service.Requests.{validate_non_empty}
use aleth_os_tool_passport.Service.References.{
  normalize_evidence_references, IsClosed, normalize_evidence_references-IsClosed,
}
use aleth_os_tool_passport.Service.Named.{IsListed, each_named-IsListed}
use aleth_os_tool_passport.Service.Passports.{
  Fresh, validate_passport_header, verify_binding_matches, passport_scores,
  normalize_recommendation, normalize_known_gaps, duplicated_statement, duplicated_risk,
  normalize_mitigation, normalize_statement, normalize_risk, normalize_statements, normalize_risks,
  Narrative, narrative_of, passport_of, provenance_of, provenance_event, passport_error,
  prepare_passport, freeze_passport,
}
use aleth_os_tool_passport.Store.Numbers.{IsNext, next_passport_sequence-IsNext}
use aleth_os_tool_passport.Store.Runs.{get_run-id}
use aleth_os_tool_passport.Service.Composed.Normalised.{IsNarrative, narrative_of-IsNarrative}

-- What a Passport must satisfy when it is frozen in a database: a frozen board and the results of
-- that board, under the binding of the run; a narrative on the evidence of the board; the scores of
-- the results; the next number of the run; and hashes of the Passport and of the manifest.
pub record IsComposed (p : Platform) (db : Db) (r : PassportFreezeResult) : Type 0 where
  pub run : Run
  pub run_found : get_run db r.passport.run_id ≡ some run
  pub freeze : EvidenceFreezeResult
  pub frozen :
      get_evidence_freeze db r.passport.run_id r.passport.evidence_board_version ≡ some freeze
  pub results : CheckResults
  pub computed :
      get_check_results db r.passport.run_id r.passport.evidence_board_version ≡ some results
  pub standard :
      (results.standard_id ≡ run.audit_binding.standard_id)
      × (results.standard_version ≡ run.audit_binding.standard_version)
  pub profile :
      (results.profile_id ≡ run.audit_binding.profile_id)
      × (results.profile_version ≡ run.audit_binding.profile_version)
  pub narrative :
      IsNarrative p freeze.evidence_board.evidence_ids r.passport.capability_claims
        r.passport.interfaces r.passport.risks
  pub total_score : r.passport.scores.total_score ≡ results.total_score
  pub rating : r.passport.scores.rating ≡ results.rating
  pub sequence : r.passport.passport_sequence ≡ next_passport_sequence db r.passport.run_id
  pub next : IsNext db.passports r.passport.run_id r.passport.passport_sequence
  pub passport_hash : r.provenance.passport_hash ≡ canonical_sha256 p (passport_value p r.passport)
  pub manifest_hash :
      r.provenance.evidence_manifest_hash
      ≡ canonical_sha256 p (manifest_value p freeze.evidence_manifest)

verify_binding_matches-eq :
    (b : AuditBinding) (r : CheckResults)
    → verify_binding_matches b r ≡ ok tt
    → (r.standard_id ≡ b.standard_id)
      × (r.standard_version ≡ b.standard_version)
      × (r.profile_id ≡ b.profile_id)
      × (r.profile_version ≡ b.profile_version)
unfolding verify_binding_matches
verify_binding_matches-eq b r h =
    let differs = refuse-ok _ _ h in
    (
      sym (=ₜ→≡ b.standard_id r.standard_id (ground arith)),
      sym (=ₜ→≡ b.standard_version r.standard_version (ground arith)),
      sym (=ₜ→≡ b.profile_id r.profile_id (ground arith)),
      sym (=ₜ→≡ b.profile_version r.profile_version (ground arith)),
    )

module _ (p : Platform) where
  -- the repository returns the Passport, and the provenance with another audit log hash
  create_passport_freeze-same :
      (read : Bool) (db db' : Db) (x : Passport) (v : Provenance) (event : RunEvent)
      (r : PassportFreezeResult)
      → Freezes.create_passport_freeze p read db x v event ≡ ok (r, db')
      → (r.passport ≡ x)
        × (r.provenance.passport_hash ≡ v.passport_hash)
        × (r.provenance.evidence_manifest_hash ≡ v.evidence_manifest_hash)
  unfolding Freezes.create_passport_freeze
  create_passport_freeze-same read db db' x v event r h =
      let ((hash, db₁), _, h₁) = >>=-eq-ok (insert_generated_event p read db event) _ h in
      let (db₂, _, h₂) = >>=-eq-ok (insert_passport db₁ x) _ h₁ in
      let (db₃, _, h₃) = >>=-eq-ok (insert_provenance db₂ (stamped x v hash)) _ h₂ in
      let out = sym (ok_injective h₃) in
      (
        ap (λ t. t.0.passport) out,
        ap (λ t. t.0.provenance.passport_hash) out,
        ap (λ t. t.0.provenance.evidence_manifest_hash) out,
      )

  -- the Passport that is handed to the repository, with its provenance
  prepare_passport-IsComposed :
      (fresh : Fresh) (db : Db) (id : ℕ) (run : Run) (request : FreezePassportRequest)
      (x : Passport) (v : Provenance)
      → get_run db id ≡ some run
      → prepare_passport p fresh db id run request ≡ ok (x, v)
      → IsComposed p db (record { passport = x; provenance = v })
  unfolding prepare_passport passport_of provenance_of passport_scores
  prepare_passport-IsComposed fresh db id run request x v found h =
      let (freeze, frozen, h₁) =
        >>=-eq-ok (ok_or _ (get_evidence_freeze db id request.evidence_board_version)) _ h in
      let (results, computed, h₂) =
        >>=-eq-ok (ok_or _ (get_check_results db id request.evidence_board_version)) _ h₁ in
      let (_, bound, h₃) = >>=-eq-ok (verify_binding_matches run.audit_binding results) _ h₂ in
      let same = verify_binding_matches-eq run.audit_binding results bound in
      let (n, told, h₄) =
        >>=-eq-ok (narrative_of p freeze.evidence_board.evidence_ids request) _ h₃ in
      let own = sym (get_run-id db id run found) in
      subst (λ t. IsComposed p db (record { passport = t.0; provenance = t.1 })) (ok_injective h₄)
        (record {
          run = run;
          run_found = subst (λ i. get_run db i ≡ some run) own found;
          freeze = freeze;
          frozen =
              subst (λ i. get_evidence_freeze db i request.evidence_board_version ≡ some freeze) own
                (ok_or-ok _ _ frozen);
          results = results;
          computed =
              subst (λ i. get_check_results db i request.evidence_board_version ≡ some results) own
                (ok_or-ok _ _ computed);
          standard = (same.0, same.1);
          profile = (same.2, same.3);
          narrative = narrative_of-IsNarrative p freeze.evidence_board.evidence_ids request n told;
          total_score = refl;
          rating = refl;
          sequence = ap (next_passport_sequence db) own;
          next =
              subst (λ i. IsNext db.passports i (next_passport_sequence db id)) own
                (next_passport_sequence-IsNext db id);
          passport_hash = refl;
          manifest_hash = refl;
        })

  IsComposed-stamped :
      (db : Db) (x : Passport) (v : Provenance) (r : PassportFreezeResult)
      → (r.passport ≡ x)
        × (r.provenance.passport_hash ≡ v.passport_hash)
        × (r.provenance.evidence_manifest_hash ≡ v.evidence_manifest_hash)
      → IsComposed p db (record { passport = x; provenance = v })
      → IsComposed p db r
  IsComposed-stamped db x v r (same, first, second) c =
      let own : IsComposed p db (record { passport = r.passport; provenance = v }) =
        subst (λ y. IsComposed p db (record { passport = y; provenance = v })) (sym same) c in
      record {
        run = own.run;
        run_found = own.run_found;
        freeze = own.freeze;
        frozen = own.frozen;
        results = own.results;
        computed = own.computed;
        standard = own.standard;
        profile = own.profile;
        narrative = own.narrative;
        total_score = own.total_score;
        rating = own.rating;
        sequence = own.sequence;
        next = own.next;
        passport_hash = first ∙ own.passport_hash;
        manifest_hash = second ∙ own.manifest_hash;
      }

  own_run :
      (fresh : Fresh) (x : Passport) (v : Provenance)
      → (provenance_event fresh x v).run_id ≡ x.run_id
  unfolding provenance_event generated_event
  own_run fresh x v = refl

  -- Suppose that the events of every run form a hash chain and freeze_passport of the service
  -- succeeds. Then in the database before, the run of the Passport is found, and so are the frozen
  -- board and the Check Results of its board version, whose binding is that of the run; the
  -- capability claims, the interfaces and the risks have stable IDs, none twice, in the order of
  -- the IDs, and refer to evidence of the board only, none twice in one reference list, in the
  -- order of their texts; the total score and the rating are those of the results; the sequence
  -- number is 1, if the run has no Passport yet, and else one more than the highest one of the
  -- run; and passport_hash and evidence_manifest_hash are the canonical hashes of the Passport and
  -- of the manifest of the board. Afterwards the chains hold, and audit_log_hash is the hash of
  -- the newest event of the run.
  pub freeze_passport-IsComposed :
      (read : Bool) (fresh : Fresh) (run_id : Text) (request : FreezePassportRequest) (w w' : World)
      (r : PassportFreezeResult)
      → IsLogged p w.db.run_events
      → freeze_passport p read fresh run_id request w ≡ ok (r, w')
      → IsComposed p w.db r
        × IsLogged p w'.db.run_events
        × (r.provenance.audit_log_hash ≡ last_hash (events_of r.passport.run_id w'.db.run_events))
  unfolding freeze_passport
  freeze_passport-IsComposed read fresh run_id request w w' r logged h =
      let (id, parsed, h₁) = >>=-eq-ok (parse_run_id p run_id) _ h in
      let (run, found, h₂) = >>=-eq-ok (ok_or _ (get_run w.db id)) _ h₁ in
      let (_, headed, h₃) = >>=-eq-ok (validate_passport_header request) _ h₂ in
      let ((x, v), prepared, h₄) = >>=-eq-ok (prepare_passport p fresh w.db id run request) _ h₃ in
      let ((s, db), made, h₅) =
        >>=-eq-ok
          (map_err passport_error
            (Freezes.create_passport_freeze p read w.db x v (provenance_event fresh x v)))
          _ h₄ in
      let made' = map_err-ok passport_error _ made in
      let same =
        create_passport_freeze-same read w.db db x v (provenance_event fresh x v) s made' in
      let (chained, newest) =
        create_passport_freeze-audit_log_hash p read w.db db x v (provenance_event fresh x v) made'
          logged (own_run fresh x v) in
      let c =
        prepare_passport-IsComposed fresh w.db id run request x v (ok_or-ok _ _ found) prepared in
      let newest' =
        subst (λ y. s.provenance.audit_log_hash ≡ last_hash (events_of y.run_id db.run_events))
          (sym same.0) newest in
      subst₂
        (λ y d.
          IsComposed p w.db y
          × IsLogged p d.run_events
          × (y.provenance.audit_log_hash ≡ last_hash (events_of y.passport.run_id d.run_events)))
        (ap (λ t. t.0) (ok_injective h₅)) (ap (λ t. t.1.db) (ok_injective h₅))
        (IsComposed-stamped w.db x v s same c, chained, newest')
