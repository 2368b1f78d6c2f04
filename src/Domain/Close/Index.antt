-- ===== src/Domain/Close/Index.antt =====
-- When the two dictionaries can be filled, and what they hold.
use axit_project.Prelude.{
  ◌≡◌, refl, sym, ◌∙◌, ap, Bool, true, false, not, ◌&&◌, List, [], ◌∷◌, ◌++◌, map, String, ◌==◌,
  contains, contains-append, any_by, arith, ok, err, string_eq, beq_sym, if◌then◌else◌,
}
use mathlib.Core.List.{append-nil, append_assoc, map-append}
use axit_project.Prelude.Sorting.{distinct}
use axit_project.Errors.{domain_invariant_error}
use axit_project.Domain.Models.Records.{RevisionStatus}
use axit_project.Domain.Close.{index_by_id, is_ready, is_ready_at}

-- No text of the first list is in the second.
abbrev pub disjoint : List String → List String → Bool
disjoint [] ys = true
disjoint (x ∷ xs) ys = not (contains ys x) && disjoint xs ys

disjoint-snoc :
    (xs ys : List String) (y : String)
    → disjoint xs (ys ++ y ∷ []) ≡ (disjoint xs ys && not (contains xs y))
disjoint-snoc [] ys y = refl
disjoint-snoc (x ∷ xs) ys y =
    ground (arith, disjoint-snoc xs ys y, contains-append ys (y ∷ []) x, beq_sym x y)

module _ {ℓ} {A : Type ℓ} (key : A → String) where
  index_by_id_result :
      (seen items : List A)
      → index_by_id key seen items ≡ (
          if distinct (map key items) && disjoint (map key items) (map key seen)
          then ok (seen ++ items)
          else err domain_invariant_error)
  unfolding index_by_id
  index_by_id_result seen [] = ap ok (sym (append-nil seen))
  index_by_id_result seen (item ∷ rest) = rw (index_by_id_result (seen ++ item ∷ []) rest) (
      rw (map-append, append_assoc)
        (ground (arith, disjoint-snoc (map key rest) (map key seen) (key item))))

disjoint-nil : (xs : List String) → disjoint xs [] ≡ true
disjoint-nil [] = refl
disjoint-nil (x ∷ xs) = disjoint-nil xs

-- From the empty dictionary: the list itself, or a refusal when an identifier comes twice.
pub index_by_id_lem {ℓ} :
    {A : Type ℓ} (key : A → String) (items : List A)
    → index_by_id key [] items
      ≡ (if distinct (map key items) then ok items else err domain_invariant_error)
index_by_id_lem key items =
    index_by_id_result key [] items ∙ ground (arith, disjoint-nil (map key items))

-- The identifier is that of a revision that is ready.
abbrev pub ready_in : List RevisionStatus → String → Bool
ready_in revisions id =
    any_by (λ (r : RevisionStatus). r.revision_id == id && is_ready r.processing_state) revisions

pub any_by_of_key :
    (revisions : List RevisionStatus) (id : String)
    → contains (map (λ (r : RevisionStatus). r.revision_id) revisions) id ≡ false
    → ready_in revisions id ≡ false
any_by_of_key [] id h = refl
any_by_of_key (r ∷ rest) id h = ground (arith, any_by_of_key rest id)

-- With distinct identifiers the dictionary's answer is that of any matching revision.
pub is_ready_at-eq_ready_in :
    (revisions : List RevisionStatus) (id : String)
    → distinct (map (λ (r : RevisionStatus). r.revision_id) revisions) ≡ true
    → is_ready_at revisions id ≡ ready_in revisions id
unfolding is_ready_at
is_ready_at-eq_ready_in [] id h = refl
is_ready_at-eq_ready_in (r ∷ rest) id h = ground (
  arith,
  is_ready_at-eq_ready_in rest id,
  any_by_of_key rest id,
  string_eq.beq_iff r.revision_id id,
)
