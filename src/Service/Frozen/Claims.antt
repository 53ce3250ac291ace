-- ===== src/Service/Frozen/Claims.antt =====
-- Claims and gaps of a board that pass the normalisation.
use aleth_os_tool_passport.Prelude.{
  ℕ, ◌^◌, ◌≤◌, leb→le, ==→≡, ◌≡◌, refl, false, subst, true, not, List, arith, Text, ◌=ₜ◌, trim, ok,
  >>=-eq-ok, ok_injective, refuse, any, refuse-ok,
}
use aleth_os_tool_passport.Platform.{Platform}
use aleth_os_tool_passport.Domain.Board.{
  EvidenceBoardClaim, EvidenceBoardGap, Float, nan, infinite, finite,
}
use aleth_os_tool_passport.Service.Requests.{validate_non_empty}
use aleth_os_tool_passport.Service.References.{
  validate_check_id, normalize_evidence_references, IsClosed,
  normalize_evidence_references-IsClosed,
}
use aleth_os_tool_passport.Service.Board.{
  is_confidence, normalize_resolution, normalize_gap, normalize_claim,
}

abbrev pub IsKnown : List Text → Text → Type 0
IsKnown check_ids id = any (λ c. c =ₜ id) check_ids ≡ true

-- a number from 0 to 1, where the magnitude counts multiples of 2 ^ -1074
pub data IsFraction : Float → Type 0 where
  unsigned : {magnitude : ℕ} → magnitude ≤ 2 ^ 1074 → IsFraction (finite false magnitude)
  minus_zero : IsFraction (finite true 0)

is_confidence-IsFraction : (x : Float) → is_confidence x ≡ true → IsFraction x
unfolding is_confidence
is_confidence-IsFraction nan h = ground arith
is_confidence-IsFraction (infinite negative) h = ground arith
is_confidence-IsFraction (finite false magnitude) h = unsigned (leb→le magnitude (2 ^ 1074) h)
is_confidence-IsFraction (finite true magnitude) h = rw (==→≡ magnitude 0 h) minus_zero

module _ (p : Platform) where
  -- an accepted claim: on a check of the profile, with a confidence from 0 to 1, and references
  -- that are closed in the board
  pub record IsClaim (check_ids : List Text) (board : List ℕ) (c : EvidenceBoardClaim)
      : Type 0 where
    pub known : IsKnown check_ids c.check_id
    pub confidence : IsFraction c.confidence
    pub supports : IsClosed p board c.supports
    pub contradicts : IsClosed p board c.contradicts

  validate_check_id-IsKnown :
      (check_ids : List Text) (id : Text)
      → validate_check_id check_ids id ≡ ok tt
      → IsKnown check_ids id
  unfolding validate_check_id
  validate_check_id-IsKnown check_ids id h =
      let f = refuse-ok (not (any (λ c. c =ₜ id) check_ids)) _ h in ground arith

  pub normalize_claim-IsClaim :
      (check_ids : List Text) (board : List ℕ) (c d : EvidenceBoardClaim)
      → normalize_claim p check_ids board c ≡ ok d
      → (d.claim_id ≡ c.claim_id) × IsClaim check_ids board d
  unfolding normalize_claim
  normalize_claim-IsClaim check_ids board c d h =
      let (_, known, h₁) = >>=-eq-ok (validate_check_id check_ids c.check_id) _ h in
      let (_, written, h₂) = >>=-eq-ok (validate_non_empty "claim statement" c.statement) _ h₁ in
      let (_, sure, h₃) = >>=-eq-ok (refuse (not (is_confidence c.confidence)) _) _ h₂ in
      let (for_it, s, h₄) =
        >>=-eq-ok (normalize_evidence_references p c.claim_id "supports" c.supports board) _ h₃ in
      let (against, t, h₅) =
        >>=-eq-ok (normalize_evidence_references p c.claim_id "contradicts" c.contradicts board) _
          h₄ in
      let sure' = refuse-ok (not (is_confidence c.confidence)) _ sure in
      let good : IsClaim check_ids board
          (record c { supports = for_it; contradicts = against; statement = trim c.statement }) =
        record {
          known = validate_check_id-IsKnown check_ids c.check_id known;
          confidence = is_confidence-IsFraction c.confidence (ground arith);
          supports =
              normalize_evidence_references-IsClosed p c.claim_id "supports" c.supports board s;
          contradicts =
              normalize_evidence_references-IsClosed p c.claim_id "contradicts" c.contradicts board
                t;
        } in
      subst (λ x. (x.claim_id ≡ c.claim_id) × IsClaim check_ids board x) (ok_injective h₅)
        (refl, good)

  pub normalize_gap-IsKnown :
      (check_ids : List Text) (g k : EvidenceBoardGap)
      → normalize_gap check_ids g ≡ ok k
      → (k.gap_id ≡ g.gap_id) × IsKnown check_ids k.check_id
  unfolding normalize_gap
  normalize_gap-IsKnown check_ids g k h =
      let (_, known, h₁) = >>=-eq-ok (validate_check_id check_ids g.check_id) _ h in
      let (_, written, h₂) = >>=-eq-ok (validate_non_empty "gap description" g.description) _ h₁ in
      let (r, _, h₃) = >>=-eq-ok (normalize_resolution g.resolution) _ h₂ in
      subst (λ x. (x.gap_id ≡ g.gap_id) × IsKnown check_ids x.check_id) (ok_injective h₃)
        (refl, validate_check_id-IsKnown check_ids g.check_id known)
