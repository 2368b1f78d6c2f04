-- ===== src/Database/Sole.antt =====
-- A test that one row passes, among rows that at most one passes a wider test.
use axit_project.Prelude.{
  ◌+◌, ◌≤◌, ◌≡◌, refl, sym, ◌∙◌, inl, inr, Bool, true, false, ◌&&◌, List, [], ◌∷◌, All, arith,
  Bool-cases,
}
use axit_project.Database.{count_by, update_where}
use axit_project.Database.Rows.{count_by-balance, count_by_never, count_by_ext}

module _ {ℓ} {A : Type ℓ} where
  All-of_none : (q : A → Bool) (xs : List A) → count_by q xs ≡ 0 → All (λ x. q x ≡ false) xs
  unfolding count_by
  All-of_none q [] h = tt
  All-of_none q (x ∷ xs) h = (ground arith, All-of_none q xs (ground arith))

  module _ (q t : A → Bool) (wider : (x : A) → t x ≡ true → q x ≡ true) where
    none_wider : (xs : List A) → count_by q xs ≡ 0 → count_by t xs ≡ 0
    unfolding count_by
    none_wider [] h = refl
    none_wider (x ∷ xs) h = ground (arith, wider x, none_wider xs)

    both_none : (xs : List A) → count_by q xs ≡ 0 → count_by t xs ≡ 0 → All (λ x. q x ≡ t x) xs
    unfolding count_by
    both_none [] h k = tt
    both_none (x ∷ xs) h k = (ground arith, both_none xs (ground arith) (ground arith))

    -- The one row that passes the narrow test is the only one that passes the wide one.
    pub All-sole : (xs : List A) → count_by q xs ≤ 1 → count_by t xs ≡ 1 → All (λ x. q x ≡ t x) xs
    unfolding count_by
    All-sole [] h k = tt
    All-sole (x ∷ xs) h k = elim (Bool-cases (t x)) [
      | inl e ↦ (wider x e ∙ sym e, both_none xs (ground (arith, wider x)) (ground arith))
      | inr e ↦ (ground (arith, none_wider xs), All-sole xs (ground arith) (ground arith))
    ]

  -- An update whose rows, before and after, fail the test.
  pub count_by_unseen :
      (q t : A → Bool) (f : A → A) (xs : List A)
      → ((x : A) → t x ≡ true → q x ≡ false)
      → ((x : A) → t x ≡ true → q (f x) ≡ false)
      → count_by q (update_where t f xs) ≡ count_by q xs
  count_by_unseen q t f xs h k = ground (
    arith,
    count_by-balance q t f xs,
    count_by_never (λ x. t x && q x) xs (λ x. ground (arith, h x)),
    count_by_never (λ x. t x && q (f x)) xs (λ x. ground (arith, k x)),
  )

  -- An update of rows that all pass the test, after which none does.
  pub count_by_removed :
      (q t : A → Bool) (f : A → A) (xs : List A)
      → ((x : A) → t x ≡ true → q x ≡ true)
      → ((x : A) → t x ≡ true → q (f x) ≡ false)
      → count_by q (update_where t f xs) + count_by t xs ≡ count_by q xs
  count_by_removed q t f xs h k = ground (
    arith,
    count_by-balance q t f xs,
    count_by_ext (λ x. t x && q x) t xs (λ x. ground (arith, h x)),
    count_by_never (λ x. t x && q (f x)) xs (λ x. ground (arith, k x)),
  )
