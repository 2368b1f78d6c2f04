-- ===== src/Domain/Close/Decision.antt =====
-- What the close decision says, by an independent description.
use axit_project.Prelude.{
  ◌≡◌, refl, ◌↔◌, Bool, true, false, not, ◌&&◌, List, [], ◌∷◌, map, String, contains,
  contains-filter_by, arith, ok, err, string_eq, beq_refl, if◌then◌else◌,
}
use axit_project.Prelude.Sorting.{
  distinct, sorted, IsAscending, contains-sorted, sorted-IsAscending, filter_by-IsAscending,
}
use axit_project.Errors.{domain_invariant_error}
use axit_project.Domain.Models.Records.{RevisionStatus, CloseExclusion, CloseEligibility}
use axit_project.Domain.Close.{
  is_empty, is_ready_at, decide_close, unknown_exclusions, evaluate_close_eligibility,
}
use axit_project.Domain.Close.Index.{
  index_by_id_lem, ready_in, any_by_of_key, is_ready_at-eq_ready_in,
}

abbrev pub revision_ids : List RevisionStatus → List String
revision_ids = map (λ (r : RevisionStatus). r.revision_id)

abbrev pub exclusion_ids : List CloseExclusion → List String
exclusion_ids = map (λ (e : CloseExclusion). e.revision_id)

pub is_empty_iff :
    (xs : List String) → (is_empty xs ≡ true) ↔ ((a : String) → contains xs a ≡ false)
is_empty_iff [] = (λ h a. refl, λ h. refl)
is_empty_iff (x ∷ xs) = (λ h. cc, λ h. ground (arith, h x, beq_refl x))

-- A request that names each revision once, each exclusion once, and excludes only revisions.
pub record IsWellPosed (revisions : List RevisionStatus) (exclusions : List CloseExclusion)
    : Type 0 where
  pub revisions_once : distinct (revision_ids revisions) ≡ true
  pub exclusions_once : distinct (exclusion_ids exclusions) ≡ true
  pub known :
      (id : String)
      → contains (exclusion_ids exclusions) id ≡ true
      → contains (revision_ids revisions) id ≡ true

-- The decision, by membership: every list is ascending, so this determines it.
pub record IsDecision (revisions : List RevisionStatus) (exclusions : List CloseExclusion)
    (d : CloseEligibility) : Type 0 where
  pub included :
      (id : String)
      → contains d.included_revision_ids id
        ≡ (ready_in revisions id && not (contains (exclusion_ids exclusions) id))
  pub excluded :
      (id : String) → contains d.excluded_revision_ids id ≡ contains (exclusion_ids exclusions) id
  pub blocking :
      (id : String)
      → contains d.blocking_revision_ids id ≡ (
          contains (revision_ids revisions) id
          && not (ready_in revisions id)
          && not (contains (exclusion_ids exclusions) id))
  pub included_ascending : IsAscending d.included_revision_ids
  pub excluded_ascending : IsAscending d.excluded_revision_ids
  pub blocking_ascending : IsAscending d.blocking_revision_ids
  pub eligible : d.eligible ≡ is_empty d.blocking_revision_ids

abbrev is_unknown : List RevisionStatus → String → Bool
is_unknown revisions id = not (contains (revision_ids revisions) id)

pub unknown_exclusions-empty :
    (revisions : List RevisionStatus) (exclusions : List CloseExclusion)
    → (is_empty (unknown_exclusions revisions exclusions) ≡ true) ↔ (
        (id : String)
        → contains (exclusion_ids exclusions) id ≡ true
        → contains (revision_ids revisions) id ≡ true)
unfolding unknown_exclusions
unknown_exclusions-empty revisions exclusions = (
  λ h id m. ground (
    arith,
    (is_empty_iff (unknown_exclusions revisions exclusions)).0 h id,
    contains-filter_by (is_unknown revisions) (exclusion_ids exclusions) id,
  ),
  λ h. (is_empty_iff (unknown_exclusions revisions exclusions)).1 λ id.
      ground (arith, h id, contains-filter_by (is_unknown revisions) (exclusion_ids exclusions) id),
)

pub decide_close-IsDecision :
    (revisions : List RevisionStatus) (exclusions : List CloseExclusion)
    → IsWellPosed revisions exclusions
    → IsDecision revisions exclusions (decide_close revisions exclusions)
unfolding decide_close
decide_close-IsDecision revisions exclusions h =
    let ids = revision_ids revisions in
    let out = contains (exclusion_ids exclusions) in
    let ordered = sorted ids in
    let ascending = sorted-IsAscending ids h.revisions_once in
    record {
      included = λ id. ground (
        arith,
        contains-filter_by (λ i. not (out i) && is_ready_at revisions i) ordered id,
        contains-sorted ids id,
        is_ready_at-eq_ready_in revisions id,
        any_by_of_key revisions id,
      );
      excluded = λ id.
          ground (arith, contains-filter_by out ordered id, contains-sorted ids id, h.known id);
      blocking = λ id. ground (
        arith,
        contains-filter_by (λ i. not (is_ready_at revisions i) && not (out i)) ordered id,
        contains-sorted ids id,
        is_ready_at-eq_ready_in revisions id,
      );
      included_ascending = filter_by-IsAscending _ ordered ascending;
      excluded_ascending = filter_by-IsAscending _ ordered ascending;
      blocking_ascending = filter_by-IsAscending _ ordered ascending;
      eligible = refl;
    }

pub evaluate_steps :
    (revisions : List RevisionStatus) (exclusions : List CloseExclusion)
    → evaluate_close_eligibility revisions exclusions ≡ (
        if distinct (revision_ids revisions)
          && distinct (exclusion_ids exclusions)
          && is_empty (unknown_exclusions revisions exclusions)
        then ok (decide_close revisions exclusions)
        else err domain_invariant_error)
unfolding evaluate_close_eligibility
evaluate_steps revisions exclusions =
    rw
      (
        index_by_id_lem (λ (r : RevisionStatus). r.revision_id) revisions,
        index_by_id_lem (λ (e : CloseExclusion). e.revision_id) exclusions,
      )
      (ground arith)
