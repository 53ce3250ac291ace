-- ===== src/Prelude/Sorts.antt =====
-- Sorting by a text key, as `sort_by` and `sort_by_key` do it: the order of equal keys is kept.
use Prim.Native.Nat.{ℕ}
use mathlib.Core.Path.{◌≡◌, refl, ◌∙◌}
use mathlib.Core.Logic.{inl, inr}
use mathlib.Core.Bool.{Bool, true, false, ◌||◌}
use mathlib.Core.List.{List, [], ◌∷◌}
use native.Mathlib.Omega.{arith}
use aleth_os_tool_passport.Prelude.Tests.{if◌then◌else◌, Bool-cases, ◌==◌}
use aleth_os_tool_passport.Prelude.Lists.{All, any, has, Distinct}
use aleth_os_tool_passport.Prelude.Texts.{Text, le_text}

pub le_text_total : (s t : Text) → le_text s t ≡ false → le_text t s ≡ true
unfolding le_text
le_text_total [] t h = ground arith
le_text_total (c ∷ s) [] h = refl
le_text_total (c ∷ s) (d ∷ t) h = ground (arith, le_text_total s t)

module _ {ℓ} {A : Type ℓ} (key : A → Text) where
  unfoldable pub insert_on : A → List A → List A
  insert_on x [] = x ∷ []
  insert_on x (y ∷ ys) =
      let rest = insert_on x ys in if le_text (key x) (key y) then x ∷ y ∷ ys else y ∷ rest

  unfoldable pub sort_on : List A → List A
  sort_on [] = []
  sort_on (x ∷ xs) = insert_on x (sort_on xs)

  abbrev pub IsBelow : A → List A → Type 0
  IsBelow x [] = Unit
  IsBelow x (y ∷ ys) = le_text (key x) (key y) ≡ true

  -- each element has a key that is at most that of the next one
  abbrev pub IsSortedOn : List A → Type 0
  IsSortedOn [] = Unit
  IsSortedOn (x ∷ xs) = IsBelow x xs × IsSortedOn xs

  insert_on-IsBelow :
      (x y : A) (ys : List A)
      → le_text (key y) (key x) ≡ true
      → IsBelow y ys
      → IsBelow y (insert_on x ys)
  unfolding insert_on
  insert_on-IsBelow x y [] h b = h
  insert_on-IsBelow x y (z ∷ zs) h b = elim (Bool-cases (le_text (key x) (key z))) [
    | inl low ↦ rw low h
    | inr high ↦ rw high b
  ]

  insert_on-IsSortedOn : (x : A) (ys : List A) → IsSortedOn ys → IsSortedOn (insert_on x ys)
  unfolding insert_on
  insert_on-IsSortedOn x [] s = (tt, tt)
  insert_on-IsSortedOn x (y ∷ ys) s = elim (Bool-cases (le_text (key x) (key y))) [
    | inl low ↦ rw low (low, s)
    | inr high ↦ rw high (
      insert_on-IsBelow x y ys (le_text_total (key x) (key y) high) s.0,
      insert_on-IsSortedOn x ys s.1,
    )
  ]

  pub sort_on-IsSortedOn : (xs : List A) → IsSortedOn (sort_on xs)
  unfolding sort_on
  sort_on-IsSortedOn [] = tt
  sort_on-IsSortedOn (x ∷ xs) = insert_on-IsSortedOn x (sort_on xs) (sort_on-IsSortedOn xs)

  -- what holds of all elements, and what some element satisfies
  insert_on-All {κ} :
      (P : A → Type κ) (x : A) (ys : List A) → P x → All P ys → All P (insert_on x ys)
  unfolding insert_on
  insert_on-All P x [] h a = (h, tt)
  insert_on-All P x (y ∷ ys) h a = elim (Bool-cases (le_text (key x) (key y))) [
    | inl low ↦ rw low (h, a)
    | inr high ↦ rw high (a.0, insert_on-All P x ys h a.1)
  ]

  pub sort_on-All {κ} : (P : A → Type κ) (xs : List A) → All P xs → All P (sort_on xs)
  unfolding sort_on
  sort_on-All P [] a = tt
  sort_on-All P (x ∷ xs) a = insert_on-All P x (sort_on xs) a.0 (sort_on-All P xs a.1)

  pub any-insert_on :
      (test : A → Bool) (x : A) (ys : List A) → any test (insert_on x ys) ≡ (test x || any test ys)
  unfolding insert_on
  any-insert_on test x [] = refl
  any-insert_on test x (y ∷ ys) =
      let rest = any-insert_on test x ys in
      elim (Bool-cases (le_text (key x) (key y))) [
        | inl low ↦ rw low refl
        | inr high ↦ rw high (ground arith)
      ]

  pub any-sort_on : (test : A → Bool) (xs : List A) → any test (sort_on xs) ≡ any test xs
  unfolding sort_on
  any-sort_on test [] = refl
  any-sort_on test (x ∷ xs) =
      let rest = any-sort_on test xs in let step = any-insert_on test x (sort_on xs) in ground arith

module _ (key : ℕ → Text) where
  insert_on-Distinct :
      (x : ℕ) (ys : List ℕ) → has ys x ≡ false → Distinct ys → Distinct (insert_on key x ys)
  unfolding insert_on
  insert_on-Distinct x [] h d = (refl, tt)
  insert_on-Distinct x (y ∷ ys) h d = elim (Bool-cases (le_text (key x) (key y))) [
    | inl low ↦ rw low (h, d)
    | inr high ↦
        let e = any-insert_on key (λ z. z == y) x ys in
        let d₀ = d.0 in rw high (ground arith, insert_on-Distinct x ys (ground arith) d.1)
  ]

  pub sort_on-Distinct : (xs : List ℕ) → Distinct xs → Distinct (sort_on key xs)
  unfolding sort_on
  sort_on-Distinct [] d = tt
  sort_on-Distinct (x ∷ xs) d =
      insert_on-Distinct x (sort_on key xs) (any-sort_on key (λ z. z == x) xs ∙ d.0)
        (sort_on-Distinct xs d.1)
