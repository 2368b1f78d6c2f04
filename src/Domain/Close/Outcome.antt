-- ===== src/Domain/Close/Outcome.antt =====
-- The outcomes of `evaluate_close_eligibility` and `require_close_eligibility`.
use mathlib.Core.Path.{subst}
use axit_project.Prelude.{
  ◌≡◌, sym, ap, ◌∙◌, ◌↔◌, true, false, not, ◌&&◌, List, String, contains, inl, inr, arith, ok, err,
  string_eq, Result-cases,
}
use axit_project.Prelude.Sorting.{IsAscending}
use axit_project.Errors.{close_blocked_error}
use axit_project.Domain.Models.Records.{RevisionStatus, CloseExclusion, CloseEligibility}
use axit_project.Domain.Close.{
  is_empty, decide_close, evaluate_close_eligibility, require_close_eligibility,
}
use axit_project.Domain.Close.Index.{ready_in}
use axit_project.Domain.Close.Decision.{
  revision_ids, exclusion_ids, IsWellPosed, IsDecision, is_empty_iff, unknown_exclusions-empty,
  decide_close-IsDecision, evaluate_steps,
}

module _ (revisions : List RevisionStatus) (exclusions : List CloseExclusion) where
  -- A request that names each revision once, each exclusion once, and excludes only named revisions
  -- gets a decision: by identifier, in ascending order, the ready revisions that are not excluded,
  -- the excluded ones, and those that block; it is eligible when none blocks.
  pub evaluate_close_eligibility-total :
      IsWellPosed revisions exclusions
      → (d : CloseEligibility) × (evaluate_close_eligibility revisions exclusions ≡ ok d)
        × IsDecision revisions exclusions d
  evaluate_close_eligibility-total h = (
    decide_close revisions exclusions,
    evaluate_steps revisions exclusions
        ∙ ground (
          arith,
          (unknown_exclusions-empty revisions exclusions).1 h.known,
          h.revisions_once,
          h.exclusions_once,
        ),
    decide_close-IsDecision revisions exclusions h,
  )

  pub evaluated_IsWellPosed :
      (d : CloseEligibility)
      → evaluate_close_eligibility revisions exclusions ≡ ok d
      → IsWellPosed revisions exclusions × (d ≡ decide_close revisions exclusions)
  evaluated_IsWellPosed d h =
      let e = sym (evaluate_steps revisions exclusions) ∙ h in
      (
        record {
          revisions_once = ground (arith, e);
          exclusions_once = ground (arith, e);
          known = (unknown_exclusions-empty revisions exclusions).0 (ground (arith, e));
        },
        ground (arith, e),
      )

  -- A decision is only given to a request that names each revision once, each exclusion once, and
  -- excludes only named revisions, and it is the one that the description fixes.
  pub evaluate_close_eligibility-IsDecision :
      (d : CloseEligibility)
      → evaluate_close_eligibility revisions exclusions ≡ ok d
      → IsWellPosed revisions exclusions × IsDecision revisions exclusions d
  evaluate_close_eligibility-IsDecision d h =
      let (well, same) = evaluated_IsWellPosed d h in
      (well, rw same (decide_close-IsDecision revisions exclusions well))

  -- No current revision is both unready and not excluded.
  abbrev pub Covered : Type 0
  Covered =
      (id : String)
      → (contains (revision_ids revisions) id
          && not (ready_in revisions id)
          && not (contains (exclusion_ids exclusions) id))
        ≡ false

  eligible_iff :
      (d : CloseEligibility) → IsDecision revisions exclusions d → (d.eligible ≡ true) ↔ Covered
  eligible_iff d h = (
    λ e id. sym (h.blocking id) ∙ (is_empty_iff d.blocking_revision_ids).0 (sym h.eligible ∙ e) id,
    λ c. h.eligible ∙ (is_empty_iff d.blocking_revision_ids).1 (λ id. h.blocking id ∙ c id),
  )

  required_ok :
      (d : CloseEligibility)
      → require_close_eligibility revisions exclusions ≡ ok d
      → (evaluate_close_eligibility revisions exclusions ≡ ok d) × (d.eligible ≡ true)
  unfolding require_close_eligibility
  required_ok d h = elim (Result-cases (evaluate_close_eligibility revisions exclusions)) [
    | inl (d', e) ↦ ground arith
    | inr (x, e) ↦ absurd (ground arith)
  ]

  -- A close is let through exactly when the request names each revision once, each exclusion once
  -- and excludes only named revisions, and no current revision is both unready and not excluded.
  pub require_close_eligibility_iff :
      ((d : CloseEligibility) × (require_close_eligibility revisions exclusions ≡ ok d))
      ↔ (IsWellPosed revisions exclusions × Covered)
  require_close_eligibility_iff = (
    λ (d, h).
        let (e, passed) = required_ok d h in
        let (well, is_decision) = evaluate_close_eligibility-IsDecision d e in
        (well, (eligible_iff d is_decision).0 passed),
    λ (well, covered).
        let (d, e, is_decision) = evaluate_close_eligibility-total well in
        (
          d,
          unfold require_close_eligibility in
              ground (arith, e, (eligible_iff d is_decision).1 covered),
        ),
  )

  blocked_by :
      (ids : List String)
      → require_close_eligibility revisions exclusions ≡ err (close_blocked_error ids)
      → (d : CloseEligibility) × (evaluate_close_eligibility revisions exclusions ≡ ok d)
        × (d.eligible ≡ false)
        × (d.blocking_revision_ids ≡ ids)
  unfolding require_close_eligibility
  blocked_by ids h = elim (Result-cases (evaluate_close_eligibility revisions exclusions)) [
    | inl (d, e) ↦ (d, e, ground arith, ground arith)
    | inr (x, e) ↦ absurd (ground (arith, evaluate_steps revisions exclusions))
  ]

  -- The error of a blocked close names, once each and in ascending order, exactly the revisions
  -- that are neither ready nor excluded, and there is at least one.
  pub require_close_eligibility-blocked :
      (ids : List String)
      → require_close_eligibility revisions exclusions ≡ err (close_blocked_error ids)
      → IsAscending ids
        × ((id : String)
            → contains ids id ≡ (
                contains (revision_ids revisions) id
                && not (ready_in revisions id)
                && not (contains (exclusion_ids exclusions) id)))
        × (is_empty ids ≡ false)
  require_close_eligibility-blocked ids h =
      let (d, e, refused, same) = blocked_by ids h in
      let fits = (evaluate_close_eligibility-IsDecision d e).1 in
      (
        subst IsAscending same fits.blocking_ascending,
        λ id. ap (λ l. contains l id) (sym same) ∙ fits.blocking id,
        ap is_empty (sym same) ∙ sym fits.eligible ∙ refused,
      )
