-- ===== src/Store/Numbers.antt =====
-- The sequence numbers of frozen Passports: what the query for the next one yields.
use aleth_os_tool_passport.Prelude.{
  ℕ, ◌+◌, ◌≤◌, ◌≡◌, refl, subst, ◌⊎◌, inl, inr, Bool, true, false, ◌&&◌, none, some, List, [], ◌∷◌,
  arith, ltb, leb, ◌==◌, any, Bool-cases, Option-cases,
}
use aleth_os_tool_passport.Domain.Passport.{Passport}
use aleth_os_tool_passport.Store.{Db}
use aleth_os_tool_passport.Store.Freezes.{max_sequence, next_passport_sequence}

abbrev pub has_from : ℕ → ℕ → List Passport → Bool
has_from run_id n = any (λ x. x.run_id == run_id && leb n x.passport_sequence)

abbrev pub has_number : ℕ → ℕ → List Passport → Bool
has_number run_id n = any (λ x. x.run_id == run_id && x.passport_sequence == n)

-- the number after the highest one of a run, or 1 if the run has none
pub record IsNext (rows : List Passport) (run_id n : ℕ) : Type 0 where
  pub above : has_from run_id n rows ≡ false
  pub after_last : (n ≡ 1) ⊎ ((m : ℕ) × (n ≡ m + 1) × (has_number run_id m rows ≡ true))

max_sequence-none :
    (run_id n : ℕ) (rows : List Passport)
    → max_sequence run_id rows ≡ none
    → has_from run_id n rows ≡ false
unfolding max_sequence
max_sequence-none run_id n [] h = refl
max_sequence-none run_id n (x ∷ rows) h = elim (Option-cases (max_sequence run_id rows)) [
  | inl nothing ↦ let rest = max_sequence-none run_id n rows nothing in ground arith
  | inr (m, found) ↦ ground arith
]

pub has_from-above :
    (run_id m n : ℕ) (rows : List Passport)
    → m ≤ n
    → has_from run_id m rows ≡ false
    → has_from run_id n rows ≡ false
has_from-above run_id m n [] le h = refl
has_from-above run_id m n (x ∷ rows) le h =
    let rest = has_from-above run_id m n rows le in ground arith

max_sequence-some :
    (run_id : ℕ) (rows : List Passport) (m : ℕ)
    → max_sequence run_id rows ≡ some m
    → (has_from run_id (m + 1) rows ≡ false) × (has_number run_id m rows ≡ true)
unfolding max_sequence
max_sequence-some run_id [] m h = ground arith
max_sequence-some run_id (x ∷ rows) m h = elim (Option-cases (max_sequence run_id rows)) [
  | inl nothing ↦
      let rest = max_sequence-none run_id (m + 1) rows nothing in
      elim (Bool-cases (x.run_id == run_id)) [
        | inl own ↦ let e : x.passport_sequence ≡ m = ground arith in (ground arith, ground arith)
        | inr other ↦ ground arith
      ]
  | inr (k, found) ↦
      let (above, last) = max_sequence-some run_id rows k found in
      elim (Bool-cases (x.run_id == run_id)) [
        | inl own ↦ elim (Bool-cases (ltb k x.passport_sequence)) [
          | inl higher ↦
              let e : x.passport_sequence ≡ m = ground arith in
              let over : k + 1 ≤ m + 1 = ground arith in
              let rest = has_from-above run_id (k + 1) (m + 1) rows over above in
              (ground arith, ground arith)
          | inr lower ↦
              let e : k ≡ m = ground arith in
              let above' = subst (λ i. has_from run_id (i + 1) rows ≡ false) e above in
              let last' = subst (λ i. has_number run_id i rows ≡ true) e last in
              (ground arith, ground arith)
        ]
        | inr other ↦
            let e : k ≡ m = ground arith in
            let above' = subst (λ i. has_from run_id (i + 1) rows ≡ false) e above in
            let last' = subst (λ i. has_number run_id i rows ≡ true) e last in
            (ground arith, ground arith)
      ]
]

pub next_passport_sequence-IsNext :
    (db : Db) (run_id : ℕ) → IsNext db.passports run_id (next_passport_sequence db run_id)
unfolding next_passport_sequence
next_passport_sequence-IsNext db run_id = elim (Option-cases (max_sequence run_id db.passports)) [
  | inl nothing ↦
      rw (next_passport_sequence, nothing)
        (record { above = max_sequence-none run_id 1 db.passports nothing; after_last = inl refl })
  | inr (m, found) ↦
      let (above, last) = max_sequence-some run_id db.passports m found in
      rw (next_passport_sequence, found)
        (record { above = above; after_last = inr (m, refl, last) })
]
