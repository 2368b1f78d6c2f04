-- ===== src/Grounding/Spans.antt =====
-- Where a text is found, the index of the anchors, and the sets of identifiers, in
-- apps/api/app/summary_grounding.py.
use mathlib.Core.Path.{subst}
use axit_project.Prelude.{
  ℕ, ◌≡◌, refl, sym, inl, inr, true, List, [], ◌∷◌, String, some, ◌==◌, contains, all_by, Result,
  ok, traverse, ◌>>=◌, >>=-eq-ok, Option-cases, Bool-cases, Result-cases, string_eq, nat_eq,
  text_length, arith,
}
use axit_project.Grounding.{text_take, text_drop, text_find, index_anchors, same_ids}
use axit_project.Grounding.Candidate.{RuntimeSourceAnchor}

-- Two lists, element by element.
abbrev pub Aligned {ℓ κ} : {A : Type ℓ} {B : Type κ} → (A → B → Type 0) → List A → List B → Type 0
Aligned R [] [] = Unit
Aligned R [] (y ∷ ys) = ⊥
Aligned R (x ∷ xs) [] = ⊥
Aligned R (x ∷ xs) (y ∷ ys) = R x y × Aligned R xs ys

pub traverse-Aligned {ℓ κ μ} :
    {E : Type ℓ} {A : Type κ} {B : Type μ} (R : A → B → Type 0) (call : A → Result E B)
    → ((x : A) (y : B) → call x ≡ ok y → R x y)
    → (xs : List A) (ys : List B) → traverse call xs ≡ ok ys
    → Aligned R xs ys
unfolding traverse
traverse-Aligned R call sound [] [] h = tt
traverse-Aligned R call sound [] (y ∷ ys) h = cc
traverse-Aligned R call sound (x ∷ xs) ys h =
    let (y, called, others) = >>=-eq-ok (call x) (λ y. traverse call xs >>= λ ys. ok (y ∷ ys)) h in
    let (more, traversed, returned) = >>=-eq-ok (traverse call xs) (λ ys. ok (y ∷ ys)) others in
    let whole : y ∷ more ≡ ys = cc in
    subst (Aligned R (x ∷ xs)) whole
      (sound x y called, traverse-Aligned R call sound xs more traversed)

-- A text that is found stands at the index that is returned.
pub text_find-exact :
    (quote s : String) (n : ℕ)
    → text_find quote s ≡ some n
    → text_take (text_length quote) (text_drop n s) ≡ quote
unfolding text_find text_length
text_find-exact quote String.[] n h = elim (Bool-cases (quote == "")) [
  | inl empty ↦
      subst (λ q. text_take (text_length q) (text_drop n "") ≡ q)
        (sym ((string_eq.beq_iff quote "").0 empty)) refl
  | inr other ↦ cc
]
text_find-exact quote (String.◌∷◌ c s) n h =
    elim (Bool-cases (text_take (text_length quote) (String.◌∷◌ c s) == quote)) [
      | inl found ↦
          ground (arith, string_eq.beq_iff (text_take (text_length quote) (String.◌∷◌ c s)) quote)
      | inr missed ↦ elim (Option-cases (text_find quote s)) [
        | inl nowhere ↦ ground arith
        | inr (k, there) ↦ ground (arith, text_find-exact quote s k there)
      ]
    ]

pub index_anchors-kept :
    (seen : List ℕ) (anchors entries : List RuntimeSourceAnchor)
    → index_anchors seen anchors ≡ ok entries
    → entries ≡ anchors
unfolding index_anchors
index_anchors-kept seen [] entries h = cc
index_anchors-kept seen (a ∷ rest) entries h = elim (Bool-cases (contains seen a.id)) [
  | inl seen_before ↦ ground arith
  | inr fresh ↦ elim (Result-cases (index_anchors (a.id ∷ seen) rest)) [
    | inl (later, there) ↦
        let kept = index_anchors-kept (a.id ∷ seen) rest later there in ground arith
    | inr (e, raised) ↦ ground arith
  ]
]

contained :
    (xs ys : List ℕ) (id : ℕ)
    → all_by (contains xs) ys ≡ true
    → contains ys id ≡ true
    → contains xs id ≡ true
contained xs [] id all h = cc
contained xs (y ∷ ys) id all h = elim (Bool-cases (y == id)) [
  | inl hit ↦ subst (λ z. contains xs z ≡ true) ((nat_eq.beq_iff y id).0 hit) (ground arith)
  | inr miss ↦ contained xs ys id (ground arith) (ground arith)
]

pub same_ids_lem :
    (left right : List ℕ) (id : ℕ)
    → same_ids left right ≡ true
    → contains left id ≡ contains right id
same_ids_lem left right id h = ground (arith, contained left right id, contained right left id)
