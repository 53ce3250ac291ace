-- ===== src/Service/Named.antt =====
-- backend/src/services/mod.rs: the loops over entries that carry stable IDs.
use aleth_os_tool_passport.Prelude.{
  ◌≡◌, refl, inl, inr, subst, sym, ◌∙◌, ap, Bool, true, false, not, List, [], ◌∷◌, arith, Text,
  String, ◌=ₜ◌, Result, ok, >>=-eq-ok, ok_injective, ◌>>=◌, ◌>>◌, refuse, All, All-map, any,
  refuse-ok, sort_on, insert_on, le_text, any-insert_on, =ₜ_sym, IsSortedOn, sort_on-IsSortedOn,
  sort_on-All, any-sort_on, Bool-cases,
}
use aleth_os_tool_passport.Errors.{ServiceError}
use aleth_os_tool_passport.Service.References.{is_stable_id, validate_stable_id}

-- membership as a HashSet of texts tests it
abbrev pub has_name : List Text → Text → Bool
has_name names name = any (λ s. s =ₜ name) names

module _ {ℓ} {A : Type ℓ} (name_of : A → Text) where
  -- no two entries of the same name
  abbrev pub Named : List A → Type 0
  Named [] = Unit
  Named (x ∷ xs) = (any (λ y. name_of y =ₜ name_of x) xs ≡ false) × Named xs

  insert_on-Named :
      (x : A) (ys : List A)
      → any (λ y. name_of y =ₜ name_of x) ys ≡ false
      → Named ys
      → Named (insert_on name_of x ys)
  unfolding insert_on
  insert_on-Named x [] h d = (refl, tt)
  insert_on-Named x (y ∷ ys) h d = elim (Bool-cases (le_text (name_of x) (name_of y))) [
    | inl low ↦ rw low (h, d)
    | inr high ↦
        let e = any-insert_on name_of (λ z. name_of z =ₜ name_of y) x ys in
        let d₀ = d.0 in
        let turned = =ₜ_sym (name_of x) (name_of y) in
        rw high (ground arith, insert_on-Named x ys (ground arith) d.1)
  ]

  pub sort_on-Named : (xs : List A) → Named xs → Named (sort_on name_of xs)
  unfolding sort_on
  sort_on-Named [] d = tt
  sort_on-Named (x ∷ xs) d =
      insert_on-Named x (sort_on name_of xs)
        (any-sort_on name_of (λ y. name_of y =ₜ name_of x) xs ∙ d.0) (sort_on-Named xs d.1)

  module _ (field : String) (duplicated : Text → ServiceError)
      (body : A → Result ServiceError A) where
    -- The loop with its HashSet `seen`: a stable ID, not seen before, and then the body.
    unfoldable pub each_named : List Text → List A → Result ServiceError (List A)
    each_named seen [] = ok []
    each_named seen (x ∷ xs) = do
      validate_stable_id field (name_of x)
      refuse (has_name seen (name_of x)) (duplicated (name_of x))
      y ← body x
      ys ← each_named (name_of x ∷ seen) xs
      ok (y ∷ ys)

    abbrev Unseen : List Text → List A → Type 0
    Unseen seen ys = All (λ y. has_name seen (name_of y) ≡ false) ys

    not-Unseen :
        (seen : List Text) (name : Text) (ys : List A)
        → Unseen (name ∷ seen) ys
        → any (λ y. name_of y =ₜ name) ys ≡ false
    not-Unseen seen name [] h = refl
    not-Unseen seen name (y ∷ ys) h =
        let turned = =ₜ_sym name (name_of y) in ground (arith, not-Unseen seen name ys)

    -- the entries that come out, if the body keeps names and establishes P
    each_named-All {κ} :
        (P : A → Type κ)
        → ((x y : A) → body x ≡ ok y → (name_of y ≡ name_of x) × P y)
        → (seen : List Text) (xs ys : List A) → each_named seen xs ≡ ok ys
        → All (λ y. (is_stable_id (name_of y) ≡ true) × P y) ys × Named ys × Unseen seen ys
    unfolding each_named validate_stable_id
    each_named-All P body_lem seen [] ys h =
        subst
          (λ out.
            All (λ y. (is_stable_id (name_of y) ≡ true) × P y) out × Named out × Unseen seen out)
          (ok_injective h) (tt, tt, tt)
    each_named-All P body_lem seen (x ∷ xs) ys h =
        let (_, stable, h₁) = >>=-eq-ok (refuse (not (is_stable_id (name_of x))) _) _ h in
        let (_, fresh, h₂) = >>=-eq-ok (refuse (has_name seen (name_of x)) _) _ h₁ in
        let (y, did, h₃) = >>=-eq-ok (body x) _ h₂ in
        let (rest, done, h₄) = >>=-eq-ok (each_named (name_of x ∷ seen) xs) _ h₃ in
        let (same, p) = body_lem x y did in
        let (good, named, apart) = each_named-All P body_lem (name_of x ∷ seen) xs rest done in
        let stable' : is_stable_id (name_of x) ≡ true = ground (arith, refuse-ok _ _ stable) in
        let fresh' : has_name seen (name_of x) ≡ false = refuse-ok _ _ fresh in
        subst
          (λ out.
            All (λ y. (is_stable_id (name_of y) ≡ true) × P y) out × Named out × Unseen seen out)
          (ok_injective h₄)
          (
            ((subst (λ n. is_stable_id n ≡ true) (sym same) stable', p), good),
            (
              subst (λ n. any (λ z. name_of z =ₜ n) rest ≡ false) (sym same)
                  (not-Unseen seen (name_of x) rest apart),
              named,
            ),
            (
              subst (λ n. has_name seen n ≡ false) (sym same) fresh',
              All-map (λ z. has_name (name_of x ∷ seen) (name_of z) ≡ false)
                  (λ z. has_name seen (name_of z) ≡ false) (λ z a. ground arith) rest apart,
            ),
          )

    -- the names that come out are those that go in
    each_named-names :
        ((x y : A) → body x ≡ ok y → name_of y ≡ name_of x)
        → (name : Text) (seen : List Text) (xs ys : List A) → each_named seen xs ≡ ok ys
        → any (λ y. name_of y =ₜ name) ys ≡ any (λ x. name_of x =ₜ name) xs
    unfolding each_named
    each_named-names body_lem name seen [] ys h =
        ap (any (λ y. name_of y =ₜ name)) (sym (ok_injective h))
    each_named-names body_lem name seen (x ∷ xs) ys h =
        let (_, stable, h₁) = >>=-eq-ok (validate_stable_id field (name_of x)) _ h in
        let (_, fresh, h₂) = >>=-eq-ok (refuse (has_name seen (name_of x)) _) _ h₁ in
        let (y, did, h₃) = >>=-eq-ok (body x) _ h₂ in
        let (rest, done, h₄) = >>=-eq-ok (each_named (name_of x ∷ seen) xs) _ h₃ in
        let more = each_named-names body_lem name (name_of x ∷ seen) xs rest done in
        let same = body_lem x y did in
        ap (any (λ z. name_of z =ₜ name)) (sym (ok_injective h₄)) ∙ rw (same, more) refl

  -- entries as they are stored: stable IDs, none twice, in the order of the IDs, and each one in P
  pub record IsListed {κ} (P : A → Type κ) (xs : List A) : Type (κ ⊔ ℓ) where
    pub good : All (λ x. (is_stable_id (name_of x) ≡ true) × P x) xs
    pub named : Named xs
    pub sorted : IsSortedOn name_of xs

  pub each_named-IsListed {κ} :
      (field : String) (duplicated : Text → ServiceError) (body : A → Result ServiceError A)
      (P : A → Type κ)
      → ((x y : A) → body x ≡ ok y → (name_of y ≡ name_of x) × P y)
      → (xs ys : List A) → each_named field duplicated body [] xs ≡ ok ys
      → IsListed P (sort_on name_of ys)
  each_named-IsListed field duplicated body P body_lem xs ys h =
      let (good, named, _) = each_named-All field duplicated body P body_lem [] xs ys h in
      record {
        good = sort_on-All name_of (λ x. (is_stable_id (name_of x) ≡ true) × P x) ys good;
        named = sort_on-Named ys named;
        sorted = sort_on-IsSortedOn name_of ys;
      }

  -- the stored entries have the names of those that were asked for
  abbrev pub SameNames : List A → List A → Type 0
  SameNames ys xs =
      (name : Text) → any (λ y. name_of y =ₜ name) ys ≡ any (λ x. name_of x =ₜ name) xs

  pub each_named-SameNames :
      (field : String) (duplicated : Text → ServiceError) (body : A → Result ServiceError A)
      → ((x y : A) → body x ≡ ok y → name_of y ≡ name_of x)
      → (xs ys : List A) → each_named field duplicated body [] xs ≡ ok ys
      → SameNames (sort_on name_of ys) xs
  each_named-SameNames field duplicated body body_lem xs ys h name =
      any-sort_on name_of (λ y. name_of y =ₜ name) ys
      ∙ each_named-names field duplicated body body_lem name [] xs ys h
