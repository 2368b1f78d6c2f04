-- ===== src/Database.antt =====
-- What the services use of PostgreSQL through psycopg: a program that reads and writes tables and
-- may raise, a transaction that undoes its writes when it raises, and UPDATE with its row count.
pub mod Rows
pub mod Sole
use mathlib.Core.Path.{subst}
use axit_project.Prelude.{
  ◌≡◌, refl, sym, ap, ◌∙◌, ℕ, suc, Bool, true, false, List, [], ◌∷◌, if◌then◌else◌, Result, ok, err,
  arith, Option, none, some,
}
use axit_project.Errors.{Error}

abbrev pub Exec {ℓ} : Type ℓ → Type ℓ → Type ℓ
Exec S A = S → Result Error A × S

module _ {ℓ} {S A : Type ℓ} where
  abbrev pub pure : A → Exec S A
  pure a s = (ok a, s)

  abbrev pub lift : Result Error A → Exec S A
  lift r s = (r, s)

  abbrev pub gets : (S → A) → Exec S A
  gets f s = (ok (f s), s)

  abbrev pub rollback : S → Result Error A × S → Result Error A × S
  rollback s (ok a, t) = (ok a, t)
  rollback s (err e, t) = (err e, s)

  -- `with connection.transaction():`
  abbrev pub transaction : Exec S A → Exec S A
  transaction body s = rollback s (body s)

abbrev pub modify {ℓ} : {S : Type ℓ} → (S → S) → S → Result Error (Unit {0}) × S
modify f s = (ok tt, f s)

module _ {ℓ} {S A B : Type ℓ} where
  abbrev pub continue : (A → Exec S B) → Result Error A × S → Result Error B × S
  continue f (ok a, s) = f a s
  continue f (err e, s) = (err e, s)

  infixl 5 ◌>>=◌ ◌>>◌
  abbrev pub ◌>>=◌ : Exec S A → (A → Exec S B) → Exec S B
  ◌>>=◌ m f s = continue f (m s)

  abbrev pub ◌>>◌ : Exec S A → Exec S B → Exec S B
  m >> n = m >>= λ _. n

-- UPDATE rows SET change WHERE test
unfoldable pub update_where {ℓ} : {A : Type ℓ} → (A → Bool) → (A → A) → List A → List A
update_where test change [] = []
update_where test change (x ∷ xs) =
    let rest = update_where test change xs in if test x then change x ∷ rest else x ∷ rest

-- The row count of that UPDATE.
unfoldable pub count_by {ℓ} : {A : Type ℓ} → (A → Bool) → List A → ℕ
count_by test [] = 0
count_by test (x ∷ xs) = let rest = count_by test xs in if test x then suc rest else rest

-- The first row that the test finds.
unfoldable pub find_by {ℓ} : {A : Type ℓ} → (A → Bool) → List A → Option A
find_by test [] = none
find_by test (x ∷ xs) = let rest = find_by test xs in if test x then some x else rest

-- A program on one part of the tables.
abbrev pub on_part {ℓ} :
    {S P A : Type ℓ} → (S → P) → (S → P → S) → Exec P A → S → Result Error A × S
on_part part with_part m s = let r = m (part s) in (r.0, with_part s r.1)

-- A check before a program: a predicate of the tables that the program keeps is kept.
pub lift_keeps {ℓ} :
    {S A B : Type ℓ} (P : S → Type ℓ) (r : Result Error A) (f : A → Exec S B) (s : S)
    → P s
    → ((a : A) → r ≡ ok a → P (f a s).1)
    → P ((lift r >>= f) s).1
lift_keeps P (ok a) f s p keeps = keeps a refl
lift_keeps P (err e) f s p keeps = p

-- A transaction keeps a predicate that its body establishes when it returns.
pub transaction_keeps {ℓ} :
    {S A : Type ℓ} (P : S → Type ℓ) (m : Exec S A) (s : S)
    → P s
    → ((a : A) (t : S) → m s ≡ (ok a, t) → P t)
    → P (transaction m s).1
transaction_keeps {S} {A} P m s p keeps = rolled_back (m s) (keeps' (m s) refl)
  where
    keeps' : (r : Result Error A × S) → m s ≡ r → (a : A) (t : S) → r ≡ (ok a, t) → P t
    keeps' r e a t e' = keeps a t (e ∙ e')

    rolled_back :
        (r : Result Error A × S) → ((a : A) (t : S) → r ≡ (ok a, t) → P t) → P (rollback s r).1
    rolled_back (ok a, t) k = k a t refl
    rolled_back (err e, t) k = p

-- A last step that only computes the answer.
pub then_lift_keeps {ℓ} :
    {S A B : Type ℓ} (P : S → Type ℓ) (m : Exec S A) (g : A → Result Error B) (s : S)
    → P (m s).1
    → P ((m >>= λ a. lift (g a)) s).1
then_lift_keeps {S} {A} P m g s p = answered (m s) p
  where
    answered : (r : Result Error A × S) → P r.1 → P (continue (λ a. lift (g a)) r).1
    answered (ok a, t) q = q
    answered (err e, t) q = q

pub transaction_preserves {ℓ} :
    {S A : Type ℓ} (P : S → Type ℓ) (m : Exec S A) (s : S) → P s → P (m s).1 → P (transaction m s).1
transaction_preserves P m s p q = transaction_keeps P m s p (λ a t e. subst P (ap (λ r. r.1) e) q)

-- A guarded write that returned.
pub guarded {ℓ} :
    {S : Type ℓ} (b : Bool) (e : Error) (s t u : S)
    → ◌≡◌ {A = Result Error (Unit {0}) × S} (if b then (ok tt, t) else (err e, s)) (ok tt, u)
    → (b ≡ true) × (u ≡ t)
guarded true e s t u h = (refl, sym (ap (λ r. r.1) h))
guarded false e s t u h = absurd (ground arith)

-- The two halves of a program that returned.
pub returned {ℓ} :
    {S A B : Type ℓ} (m : Exec S A) (f : A → Exec S B) (s : S) {b : B} {t : S}
    → (m >>= f) s ≡ (ok b, t)
    → (a : A) × (s' : S) × (m s ≡ (ok a, s')) × (f a s' ≡ (ok b, t))
returned {S} {A} {B} m f s {b} {t} h = split (m s) refl h
  where
    split :
        (r : Result Error A × S)
        → m s ≡ r
        → continue f r ≡ (ok b, t)
        → (a : A) × (s' : S) × (m s ≡ (ok a, s')) × (f a s' ≡ (ok b, t))
    split (ok a, s') e k = (a, s', e, k)
    split (err x, s') e k = absurd (ground arith)

-- A check before a program that returned.
pub lift_returned {ℓ} :
    {S A B : Type ℓ} (r : Result Error A) (f : A → Exec S B) (s : S) {b : B} {t : S}
    → (lift r >>= f) s ≡ (ok b, t)
    → (a : A) × (r ≡ ok a) × (f a s ≡ (ok b, t))
lift_returned (ok a) f s h = (a, refl, h)
lift_returned (err e) f s h = absurd (ground arith)

-- A transaction that returned.
pub transaction_returned {ℓ} :
    {S A : Type ℓ} (m : Exec S A) (s : S) {a : A} {t : S}
    → transaction m s ≡ (ok a, t)
    → m s ≡ (ok a, t)
transaction_returned {S} {A} m s {a} {t} h = kept (m s) h
  where
    kept : (r : Result Error A × S) → rollback s r ≡ (ok a, t) → r ≡ (ok a, t)
    kept (ok b, u) k = k
    kept (err x, u) k = absurd (ground arith)

-- A transaction that raises leaves the tables as they were.
pub transaction_undone {ℓ} :
    {S A : Type ℓ} (m : Exec S A) (s : S) (e : Error) (t : S) → transaction m s ≡ (err e, t) → t ≡ s
transaction_undone {S} {A} m s e t h = undone (m s) h
  where
    undone : (r : Result Error A × S) → rollback s r ≡ (err e, t) → t ≡ s
    undone (ok a, u) k = absurd (ground arith)
    undone (err x, u) k = sym (ap (λ r. r.1) k)

-- So does a check before it.
pub checked_undone {ℓ} :
    {S A B : Type ℓ} (r : Result Error A) (m : Exec S B) (s : S) (e : Error) (t : S)
    → (lift r >>= λ _. transaction m) s ≡ (err e, t)
    → t ≡ s
checked_undone (ok a) m s e t h = transaction_undone m s e t h
checked_undone (err x) m s e t h = sym (ap (λ r. r.1) h)

-- Two programs in a row.
pub then_keeps {ℓ} :
    {S A B : Type ℓ} (P : S → Type ℓ) (m : Exec S A) (f : A → Exec S B) (s : S)
    → P (m s).1
    → ((a : A) (t : S) → P t → P (f a t).1)
    → P ((m >>= f) s).1
then_keeps {S} {A} P m f s p keeps = continued (m s) p
  where
    continued : (r : Result Error A × S) → P r.1 → P (continue f r).1
    continued (ok a, t) q = keeps a t q
    continued (err e, t) q = q
