-- ===== src/Prelude/Sorting/Ascending.antt =====
-- A strictly ascending list is determined by its members.
use Prim.Native.String.{String}
use mathlib.Core.Path.{◌≡◌, refl, ap₂, sym, subst, ◌∙◌}
use mathlib.Core.Bool.{Bool, true, false}
use mathlib.Core.Logic.{inl, inr}
use mathlib.Core.List.{List, [], ◌∷◌}
use native.Mathlib.Omega.{arith}
use axit_project.Prelude.Tests.{◌==◌, string_eq, Bool-cases, beq_refl, beq_sym}
use axit_project.Prelude.Lists.{All, contains, filter_by}
use axit_project.Prelude.Sorting.Order.{text_ltb, text_lt_trans, text_lt_irrefl}
use axit_project.Prelude.Sorting.Sort.{IsAscending}

All-contains {κ} :
    (P : String → Type κ) (xs : List String) (a : String) → All P xs → contains xs a ≡ true → P a
All-contains P [] a h m = cc
All-contains P (x ∷ xs) a h m = elim (Bool-cases (x == a)) [
  | inl same ↦ subst P ((string_eq.beq_iff x a).0 same) h.0
  | inr other ↦ All-contains P xs a h.1 (ground arith)
]

All-filter_by {κ} :
    (P : String → Type κ) (test : String → Bool) (xs : List String)
    → All P xs
    → All P (filter_by test xs)
All-filter_by P test [] h = tt
All-filter_by P test (x ∷ xs) h = elim (Bool-cases (test x)) [
  | inl kept ↦ rw kept (h.0, All-filter_by P test xs h.1)
  | inr left_out ↦ rw left_out (All-filter_by P test xs h.1)
]

pub filter_by-IsAscending :
    (test : String → Bool) (xs : List String) → IsAscending xs → IsAscending (filter_by test xs)
filter_by-IsAscending test [] h = tt
filter_by-IsAscending test (x ∷ xs) h = elim (Bool-cases (test x)) [
  | inl kept ↦ rw kept (All-filter_by _ test xs h.0, filter_by-IsAscending test xs h.1)
  | inr left_out ↦ rw left_out (filter_by-IsAscending test xs h.1)
]

-- The first text of an ascending list is in none of its rest.
not_in_rest :
    (x : String) (xs : List String) → All (λ y. text_ltb x y ≡ true) xs → contains xs x ≡ false
not_in_rest x xs h = elim (Bool-cases (contains xs x)) [
  | inl m ↦ absurd (ground (arith, All-contains _ xs x h m, text_lt_irrefl x))
  | inr m ↦ m
]

-- Two ascending lists with the same members begin with the same text.
same_head :
    (x y : String) (xs ys : List String)
    → IsAscending (x ∷ xs)
    → IsAscending (y ∷ ys)
    → contains (y ∷ ys) x ≡ true
    → contains (x ∷ xs) y ≡ true
    → x ≡ y
same_head x y xs ys hx hy mx my = elim (Bool-cases (x == y)) [
  | inl same ↦ (string_eq.beq_iff x y).0 same
  | inr other ↦ absurd (
      ground (
        arith,
        All-contains _ xs y hx.0,
        All-contains _ ys x hy.0,
        text_lt_trans x y x,
        text_lt_irrefl x,
        beq_sym x y,
      ))
]

same_rest :
    (x : String) (xs ys : List String)
    → IsAscending (x ∷ xs)
    → IsAscending (x ∷ ys)
    → (a : String) → contains (x ∷ xs) a ≡ contains (x ∷ ys) a
    → contains xs a ≡ contains ys a
same_rest x xs ys hx hy a h = elim (Bool-cases (x == a)) [
  | inl same ↦
      let e = (string_eq.beq_iff x a).0 same in
      rw (← e) (not_in_rest x xs hx.0 ∙ sym (not_in_rest x ys hy.0))
  | inr other ↦ ground arith
]

pub IsAscending-eq :
    (xs ys : List String)
    → IsAscending xs
    → IsAscending ys
    → ((a : String) → contains xs a ≡ contains ys a)
    → xs ≡ ys
IsAscending-eq [] [] hx hy same = refl
IsAscending-eq [] (y ∷ ys) hx hy same = ground (arith, same y, beq_refl y)
IsAscending-eq (x ∷ xs) [] hx hy same = ground (arith, same x, beq_refl x)
IsAscending-eq (x ∷ xs) (y ∷ ys) hx hy same =
    let e : x ≡ y =
      same_head x y xs ys hx hy (ground (arith, same x, beq_refl x))
        (ground (arith, same y, beq_refl y)) in
    ap₂ ◌∷◌ e (
      IsAscending-eq xs ys hx.1 hy.1 λ a.
        same_rest y xs ys (subst (λ z. IsAscending (z ∷ xs)) e hx) hy a
          (subst (λ z. contains (z ∷ xs) a ≡ contains (y ∷ ys) a) e (same a)))
