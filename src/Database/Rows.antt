-- ===== src/Database/Rows.antt =====
-- What UPDATE, INSERT and the row counts do to each other.
use axit_project.Prelude.{
  ◌+◌, ◌≤◌, ◌≡◌, refl, sym, ap, ◌∙◌, inl, inr, Bool, true, false, ◌&&◌, List, [], ◌∷◌, ◌++◌, any_by,
  length, filter_by, All, arith, Bool-cases, Eq, ◌==◌,
}
use axit_project.Database.{update_where, count_by}

module _ {ℓ} {A : Type ℓ} where
  pub count_by-append :
      (q : A → Bool) (xs ys : List A) → count_by q (xs ++ ys) ≡ count_by q xs + count_by q ys
  unfolding count_by
  count_by-append q [] ys = omega arith
  count_by-append q (x ∷ xs) ys = ground (arith, count_by-append q xs ys)

  pub length-update_where :
      (t : A → Bool) (f : A → A) (xs : List A) → length (update_where t f xs) ≡ length xs
  unfolding update_where
  length-update_where t f [] = refl
  length-update_where t f (x ∷ xs) = ground (arith, length-update_where t f xs)

  pub length-filter_by : (t : A → Bool) (xs : List A) → length (filter_by t xs) ≡ count_by t xs
  unfolding count_by
  length-filter_by t [] = refl
  length-filter_by t (x ∷ xs) = ground (arith, length-filter_by t xs)

  -- A change that the test does not see leaves the count.
  pub count_by-update_where :
      (q t : A → Bool) (f : A → A) (xs : List A)
      → ((x : A) → q (f x) ≡ q x)
      → count_by q (update_where t f xs) ≡ count_by q xs
  unfolding count_by update_where
  count_by-update_where q t f [] h = refl
  count_by-update_where q t f (x ∷ xs) h = ground (arith, h x, count_by-update_where q t f xs h)

  -- The rows that the test loses, and those that it gains.
  pub count_by-balance :
      (q t : A → Bool) (f : A → A) (xs : List A)
      → count_by q (update_where t f xs) + count_by (λ x. t x && q x) xs
        ≡ count_by q xs + count_by (λ x. t x && q (f x)) xs
  unfolding count_by update_where
  count_by-balance q t f [] = refl
  count_by-balance q t f (x ∷ xs) = ground (arith, count_by-balance q t f xs)

  pub count_by_ext :
      (p q : A → Bool) (xs : List A) → ((x : A) → p x ≡ q x) → count_by p xs ≡ count_by q xs
  unfolding count_by
  count_by_ext p q [] h = refl
  count_by_ext p q (x ∷ xs) h = ground (arith, h x, count_by_ext p q xs h)

  pub count_by_mono :
      (p q : A → Bool) (xs : List A)
      → ((x : A) → p x ≡ true → q x ≡ true)
      → count_by p xs ≤ count_by q xs
  unfolding count_by
  count_by_mono p q [] h = omega arith
  count_by_mono p q (x ∷ xs) h = ground (arith, h x, count_by_mono p q xs h)

  pub count_by_never : (q : A → Bool) (xs : List A) → ((x : A) → q x ≡ false) → count_by q xs ≡ 0
  unfolding count_by
  count_by_never q [] h = refl
  count_by_never q (x ∷ xs) h = ground (arith, h x, count_by_never q xs h)

  pub any_by-count_by : (q : A → Bool) (xs : List A) → any_by q xs ≡ false → count_by q xs ≡ 0
  unfolding count_by
  any_by-count_by q [] h = refl
  any_by-count_by q (x ∷ xs) h = ground (arith, any_by-count_by q xs)

  pub All-update_where {κ μ} :
      (P : A → Type κ) (Q : A → Type μ) (t : A → Bool) (f : A → A) (xs : List A)
      → ((x : A) → P x → t x ≡ true → Q (f x))
      → ((x : A) → P x → t x ≡ false → Q x)
      → All P xs
      → All Q (update_where t f xs)
  unfolding update_where
  All-update_where P Q t f [] yes_case no_case h = tt
  All-update_where P Q t f (x ∷ xs) yes_case no_case h =
      let rest = All-update_where P Q t f xs yes_case no_case h.1 in
      elim (Bool-cases (t x)) [
        | inl e ↦ rw e (yes_case x h.0 e, rest)
        | inr e ↦ rw e (no_case x h.0 e, rest)
      ]

-- A column whose values are unique stays so when a row with a new value is inserted.
module _ {ℓ κ} {A : Type ℓ} {K : Type κ} ⦃e : Eq K⦄ (column : A → K) (xs : List A) (x : A) where
  pub unique-insert :
      any_by (λ y. column y == column x) xs ≡ false
      → ((k : K) → count_by (λ y. column y == k) xs ≤ 1)
      → (k : K) → count_by (λ y. column y == k) (xs ++ x ∷ []) ≤ 1
  unfolding count_by
  unique-insert new h k = elim (Bool-cases (column x == k)) [
    | inl same ↦
        let same_value : column x ≡ k = (e.beq_iff (column x) k).0 same in
        let none_yet : count_by (λ y. column y == k) xs ≡ 0 =
          ap (λ v. count_by (λ y. column y == v) xs) (sym same_value)
          ∙ any_by-count_by (λ y. column y == column x) xs new in
        ground (arith, count_by-append (λ y. column y == k) xs (x ∷ []), none_yet)
    | inr other ↦ ground (arith, count_by-append (λ y. column y == k) xs (x ∷ []), h k)
  ]

  pub absent-insert :
      (k : K)
      → count_by (λ y. column y == k) (xs ++ x ∷ []) ≡ 0
      → count_by (λ y. column y == k) xs ≡ 0
  absent-insert k h = omega (arith, count_by-append (λ y. column y == k) xs (x ∷ []))
