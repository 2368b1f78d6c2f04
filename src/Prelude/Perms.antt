-- ===== src/Prelude/Perms.antt =====
-- The tests on lists do not depend on the order of the elements.
use mathlib.Core.Path.{◌≡◌, refl, ap, ◌∙◌}
use mathlib.Core.Logic.{∥∥₁_elim}
use mathlib.Core.Bool.{Bool, Bool-set}
use mathlib.Core.List.{List, Perm, Permᴰ}
use Prim.Native.String.{String}
use native.Mathlib.Omega.{arith}
use axit_project.Prelude.Tests.{◌==◌, string_eq, beq_sym}
use axit_project.Prelude.Lists.{any_by, contains}
use axit_project.Prelude.Sorting.{distinct}

module _ {ℓ} {A : Type ℓ} (test : A → Bool) where
  any_by-permᴰ : {xs ys : List A} → Permᴰ xs ys → any_by test xs ≡ any_by test ys
  any_by-permᴰ Permᴰ.nil = refl
  any_by-permᴰ (Permᴰ.cons e p) = ground (arith, ap test e, any_by-permᴰ p)
  any_by-permᴰ (Permᴰ.swap e f) = ground (arith, ap test e, ap test f)
  any_by-permᴰ (Permᴰ.trans p q) = any_by-permᴰ p ∙ any_by-permᴰ q

  pub any_by-perm : {xs ys : List A} → Perm xs ys → any_by test xs ≡ any_by test ys
  any_by-perm p = ∥∥₁_elim p (Bool-set _ _) any_by-permᴰ

module _ (a : String) where
  contains-permᴰ : {xs ys : List String} → Permᴰ xs ys → contains xs a ≡ contains ys a
  contains-permᴰ Permᴰ.nil = refl
  contains-permᴰ (Permᴰ.cons e p) = ground (arith, ap (λ x. x == a) e, contains-permᴰ p)
  contains-permᴰ (Permᴰ.swap e f) = ground (arith, ap (λ x. x == a) e, ap (λ x. x == a) f)
  contains-permᴰ (Permᴰ.trans p q) = contains-permᴰ p ∙ contains-permᴰ q

  pub contains-perm : {xs ys : List String} → Perm xs ys → contains xs a ≡ contains ys a
  contains-perm p = ∥∥₁_elim p (Bool-set _ _) contains-permᴰ

distinct-permᴰ : {xs ys : List String} → Permᴰ xs ys → distinct xs ≡ distinct ys
distinct-permᴰ Permᴰ.nil = refl
distinct-permᴰ (Permᴰ.cons {a} {b} {l₁} {l₂} e p) =
    ground (arith, ap (contains l₁) e, contains-permᴰ b p, distinct-permᴰ p)
distinct-permᴰ (Permᴰ.swap {a} {b} {a'} {b'} {l} e f) = ground (
  arith,
  ap (contains l) e,
  ap (contains l) f,
  ap (λ x. b == x) e,
  ap (λ x. x == b') f,
  beq_sym a' b',
)
distinct-permᴰ (Permᴰ.trans p q) = distinct-permᴰ p ∙ distinct-permᴰ q

pub distinct-perm : {xs ys : List String} → Perm xs ys → distinct xs ≡ distinct ys
distinct-perm p = ∥∥₁_elim p (Bool-set _ _) distinct-permᴰ
