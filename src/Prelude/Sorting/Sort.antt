-- ===== src/Prelude/Sorting/Sort.antt =====
-- `sorted(texts)`, by insertion.
use Prim.Native.String.{String}
use mathlib.Core.Path.{◌≡◌, refl, ◌∙◌}
use mathlib.Core.Bool.{Bool, true, false, ◌&&◌, ◌||◌, not}
use mathlib.Core.Logic.{inl, inr}
use mathlib.Core.List.{List, [], ◌∷◌}
use native.Mathlib.Omega.{arith}
use axit_project.Prelude.Tests.{◌==◌, string_eq, if◌then◌else◌, Bool-cases}
use axit_project.Prelude.Lists.{All, All-mono, contains}
use axit_project.Prelude.Sorting.Order.{text_ltb, text_lt_trans, text_lt_total}

insert_text : String → List String → List String
insert_text x [] = x ∷ []
insert_text x (y ∷ ys) =
    let rest = insert_text x ys in if text_ltb y x then y ∷ rest else x ∷ y ∷ ys

unfoldable pub sorted : List String → List String
unfolding insert_text
sorted [] = []
sorted (x ∷ xs) = insert_text x (sorted xs)

-- `len(set(xs)) == len(xs)`
abbrev pub distinct : List String → Bool
distinct [] = true
distinct (x ∷ xs) = not (contains xs x) && distinct xs

-- Each text is before all that follow it.
abbrev pub IsAscending : List String → Type 0
IsAscending [] = Unit
IsAscending (x ∷ xs) = All (λ y. text_ltb x y ≡ true) xs × IsAscending xs

contains-insert_text :
    (x : String) (ys : List String) (a : String)
    → contains (insert_text x ys) a ≡ (x == a || contains ys a)
unfolding insert_text
contains-insert_text x [] a = refl
contains-insert_text x (y ∷ ys) a = ground (arith, contains-insert_text x ys a)

pub contains-sorted : (xs : List String) (a : String) → contains (sorted xs) a ≡ contains xs a
unfolding sorted
contains-sorted [] a = refl
contains-sorted (x ∷ xs) a =
    ground (arith, contains-insert_text x (sorted xs) a, contains-sorted xs a)

All-insert_text {κ} :
    (P : String → Type κ) (x : String) (ys : List String)
    → P x
    → All P ys
    → All P (insert_text x ys)
unfolding insert_text
All-insert_text P x [] px h = (px, tt)
All-insert_text P x (y ∷ ys) px h = elim (Bool-cases (text_ltb y x)) [
  | inl before ↦ rw before (h.0, All-insert_text P x ys px h.1)
  | inr after ↦ rw after (px, h)
]

lt_of_not_before :
    (x y : String) (ys : List String)
    → contains (y ∷ ys) x ≡ false
    → text_ltb y x ≡ false
    → text_ltb x y ≡ true
lt_of_not_before x y ys new after = ground (arith, text_lt_total y x, string_eq.beq_iff y x)

insert_text-IsAscending :
    (x : String) (ys : List String)
    → contains ys x ≡ false
    → IsAscending ys
    → IsAscending (insert_text x ys)
unfolding insert_text
insert_text-IsAscending x [] new h = (tt, tt)
insert_text-IsAscending x (y ∷ ys) new h = elim (Bool-cases (text_ltb y x)) [
  | inl before ↦ rw before (
    All-insert_text (λ z. text_ltb y z ≡ true) x ys before h.0,
    insert_text-IsAscending x ys (ground arith) h.1,
  )
  | inr after ↦
      let first : text_ltb x y ≡ true = lt_of_not_before x y ys new after in
      rw after ((first, All-mono _ _ ys (λ z lt. text_lt_trans x y z first lt) h.0), h)
]

pub sorted-IsAscending : (xs : List String) → distinct xs ≡ true → IsAscending (sorted xs)
unfolding sorted
sorted-IsAscending [] h = tt
sorted-IsAscending (x ∷ xs) h =
    insert_text-IsAscending x (sorted xs) (contains-sorted xs x ∙ ground arith)
      (sorted-IsAscending xs (ground arith))
