-- ===== src/Service/References.antt =====
-- backend/src/services/mod.rs: stable IDs, and references to the evidence of a board.
use aleth_os_tool_passport.Prelude.{
  ℕ, ◌≡◌, subst, Bool, true, false, not, ◌&&◌, ◌||◌, List, [], ◌∷◌, ◌++◌, arith, leb, ◌==◌, Text,
  String, codes, ◌=ₜ◌, is_empty, Result, ok, >>=-eq-ok, ok_injective, ◌>>◌, refuse, format, All,
  All-map, any, any-false, refuse-ok, has, Distinct, AllIn, sort_on, IsSortedOn, sort_on-IsSortedOn,
  sort_on-All, sort_on-Distinct,
}
use aleth_os_tool_passport.Platform.{Platform}
use aleth_os_tool_passport.Errors.{ServiceError, invalid_request}

abbrev pub is_separator : ℕ → Bool
is_separator c = c == 46 || c == 95 || c == 45

abbrev pub is_lower : ℕ → Bool
is_lower c = leb 97 c && leb c 122

abbrev pub is_digit : ℕ → Bool
is_digit c = leb 48 c && leb c 57

-- The loop over the characters; `first` is `index == 0`, `after_separator` is `previous_separator`.
unfoldable pub is_stable_from : Bool → Bool → Text → Bool
is_stable_from first after_separator [] = not after_separator
is_stable_from first after_separator (c ∷ s) =
    (is_lower c || is_digit c || is_separator c)
    && (not first || is_lower c)
    && not (is_separator c && after_separator)
    && is_stable_from false (is_separator c) s

unfoldable pub is_stable_id : Text → Bool
is_stable_id value = not (is_empty value) && is_stable_from true false value

unfoldable pub validate_stable_id : String → Text → Result ServiceError (Unit {0})
validate_stable_id name value =
    refuse (not (is_stable_id value))
      (invalid_request (format "{} must be a stable lowercase ID" (codes name ∷ [])))

unfoldable pub validate_check_id : List Text → Text → Result ServiceError (Unit {0})
validate_check_id valid_check_ids check_id =
    refuse (not (any (λ c. c =ₜ check_id) valid_check_ids))
      (invalid_request (format "unknown profile check {}" (check_id ∷ [])))

module _ (p : Platform) where
  -- the loop with its HashSet `unique`
  unfoldable pub unique_uuids : Text → List ℕ → List ℕ → Result ServiceError (Unit {0})
  unique_uuids name unique [] = ok tt
  unique_uuids name unique (value ∷ values) = do
    refuse (has unique value) (
        invalid_request
          (format "{} contains duplicated evidence ID {}" (name ∷ p.uuid_text value ∷ [])))
    unique_uuids name (value ∷ unique) values

  unfoldable pub ensure_unique_uuids : Text → List ℕ → Result ServiceError (Unit {0})
  ensure_unique_uuids name values = unique_uuids name [] values

  -- the loop that looks for references outside the board
  unfoldable pub inside_board : Text → String → List ℕ → List ℕ → Result ServiceError (Unit {0})
  inside_board claim_id name board [] = ok tt
  inside_board claim_id name board (id ∷ ids) = do
    refuse (not (has board id)) (
        invalid_request (
          format "claim {} {} references evidence ID {} outside the board"
            (claim_id ∷ codes name ∷ p.uuid_text id ∷ [])))
    inside_board claim_id name board ids

  -- the references in the order of their texts
  unfoldable pub normalize_evidence_references :
      Text → String → List ℕ → List ℕ → Result ServiceError (List ℕ)
  normalize_evidence_references claim_id name values board = do
    ensure_unique_uuids (codes "claim " ++ claim_id ++ codes " " ++ codes name) values
    inside_board claim_id name board values
    ok (sort_on p.uuid_text values)

  -- references that were accepted: of the board, none twice, sorted
  pub record IsClosed (board ids : List ℕ) : Type 0 where
    pub inside : AllIn board ids
    pub distinct : Distinct ids
    pub sorted : IsSortedOn p.uuid_text ids

  unique_uuids-Distinct :
      (name : Text) (unique values : List ℕ)
      → unique_uuids name unique values ≡ ok tt
      → Distinct values × All (λ y. has unique y ≡ false) values
  unfolding unique_uuids
  unique_uuids-Distinct name unique [] h = (tt, tt)
  unique_uuids-Distinct name unique (v ∷ values) h =
      let (_, fresh, h₁) = >>=-eq-ok (refuse (has unique v) _) _ h in
      let (distinct, apart) = unique_uuids-Distinct name (v ∷ unique) values h₁ in
      (
        (any-false values unique v apart, distinct),
        (
          refuse-ok _ _ fresh,
          All-map (λ y. has (v ∷ unique) y ≡ false) (λ y. has unique y ≡ false)
              (λ y a. ground arith) values apart,
        ),
      )

  inside_board-AllIn :
      (claim_id : Text) (name : String) (board ids : List ℕ)
      → inside_board claim_id name board ids ≡ ok tt
      → AllIn board ids
  unfolding inside_board
  inside_board-AllIn claim_id name board [] h = tt
  inside_board-AllIn claim_id name board (id ∷ ids) h =
      let (_, known, h₁) = >>=-eq-ok (refuse (not (has board id)) _) _ h in
      (ground arith, inside_board-AllIn claim_id name board ids h₁)

  pub ensure_unique_uuids-Distinct :
      (name : Text) (values : List ℕ) → ensure_unique_uuids name values ≡ ok tt → Distinct values
  unfolding ensure_unique_uuids
  ensure_unique_uuids-Distinct name values h = (unique_uuids-Distinct name [] values h).0

  pub normalize_evidence_references-IsClosed :
      (claim_id : Text) (name : String) (values board : List ℕ) {out : List ℕ}
      → normalize_evidence_references claim_id name values board ≡ ok out
      → IsClosed board out
  unfolding normalize_evidence_references
  normalize_evidence_references-IsClosed claim_id name values board h =
      let (_, unique, h₁) =
        >>=-eq-ok
          (ensure_unique_uuids (codes "claim " ++ claim_id ++ codes " " ++ codes name) values) _
          h in
      let (_, inside, h₂) = >>=-eq-ok (inside_board claim_id name board values) _ h₁ in
      subst (IsClosed board) (ok_injective h₂) (record {
        inside =
            sort_on-All p.uuid_text (λ id. has board id ≡ true) values
              (inside_board-AllIn claim_id name board values inside);
        distinct =
            sort_on-Distinct p.uuid_text values (ensure_unique_uuids-Distinct _ values unique);
        sorted = sort_on-IsSortedOn p.uuid_text values;
      })
