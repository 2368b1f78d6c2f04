-- ===== src/Domain/Close/Order.antt =====
-- `evaluate_close_eligibility` on reordered revisions and exclusions.
use mathlib.Core.List.{Perm}
use mathlib.Core.List.Perm
use axit_project.Prelude.{
  ◌≡◌, sym, ap, ◌∙◌, List, String, contains, arith, inl, inr, ok, err, string_eq, Result-cases,
}
use axit_project.Prelude.Sorting.{IsAscending-eq}
use axit_project.Prelude.Perms.{any_by-perm, contains-perm, distinct-perm}
use axit_project.Errors.{Error, domain_invariant_error}
use axit_project.Domain.Models.Records.{RevisionStatus, CloseExclusion, CloseEligibility}
use axit_project.Domain.Close.{is_empty, evaluate_close_eligibility}
use axit_project.Domain.Close.Index.{ready_in}
use axit_project.Domain.Close.Decision.{
  revision_ids, exclusion_ids, IsWellPosed, IsDecision, evaluate_steps,
}
use axit_project.Domain.Close.Outcome.{
  evaluate_close_eligibility-total, evaluate_close_eligibility-IsDecision,
}

-- The description determines the decision.
IsDecision-eq :
    {revisions : List RevisionStatus} {exclusions : List CloseExclusion} {c d : CloseEligibility}
    → IsDecision revisions exclusions c
    → IsDecision revisions exclusions d
    → c ≡ d
IsDecision-eq {c = c} {d = d} hc hd =
    let inc =
      IsAscending-eq c.included_revision_ids d.included_revision_ids hc.included_ascending
        hd.included_ascending (λ a. hc.included a ∙ sym (hd.included a)) in
    let exc =
      IsAscending-eq c.excluded_revision_ids d.excluded_revision_ids hc.excluded_ascending
        hd.excluded_ascending (λ a. hc.excluded a ∙ sym (hd.excluded a)) in
    let blo =
      IsAscending-eq c.blocking_revision_ids d.blocking_revision_ids hc.blocking_ascending
        hd.blocking_ascending (λ a. hc.blocking a ∙ sym (hd.blocking a)) in
    let eli = hc.eligible ∙ ap is_empty blo ∙ sym hd.eligible in
    λ i. record {
      eligible = eli i;
      included_revision_ids = inc i;
      excluded_revision_ids = exc i;
      blocking_revision_ids = blo i;
    }

module _ {revisions revisions' : List RevisionStatus} {exclusions exclusions' : List CloseExclusion}
    (p : Perm revisions revisions') (q : Perm exclusions exclusions') where
  same_revision :
      (id : String) → contains (revision_ids revisions) id ≡ contains (revision_ids revisions') id
  same_revision id = contains-perm id (Perm.map _ p)

  same_exclusion :
      (id : String)
      → contains (exclusion_ids exclusions) id ≡ contains (exclusion_ids exclusions') id
  same_exclusion id = contains-perm id (Perm.map _ q)

  same_ready : (id : String) → ready_in revisions id ≡ ready_in revisions' id
  same_ready id = any_by-perm _ p

  IsWellPosed-perm : IsWellPosed revisions exclusions → IsWellPosed revisions' exclusions'
  IsWellPosed-perm h = record {
    revisions_once = sym (distinct-perm (Perm.map _ p)) ∙ h.revisions_once;
    exclusions_once = sym (distinct-perm (Perm.map _ q)) ∙ h.exclusions_once;
    known = λ id m. sym (same_revision id) ∙ h.known id (same_exclusion id ∙ m);
  }

  IsDecision-perm :
      {d : CloseEligibility}
      → IsDecision revisions exclusions d
      → IsDecision revisions' exclusions' d
  IsDecision-perm h = record {
    included_ascending = h.included_ascending;
    excluded_ascending = h.excluded_ascending;
    blocking_ascending = h.blocking_ascending;
    eligible = h.eligible;
    included = λ id. h.included id ∙ ground (arith, same_ready id, same_exclusion id);
    excluded = λ id. h.excluded id ∙ same_exclusion id;
    blocking =
        λ id. h.blocking id ∙ ground (arith, same_ready id, same_exclusion id, same_revision id);
  }

  evaluate_same :
      (d : CloseEligibility)
      → evaluate_close_eligibility revisions exclusions ≡ ok d
      → evaluate_close_eligibility revisions' exclusions' ≡ ok d
  evaluate_same d h =
      let (well, fits) = evaluate_close_eligibility-IsDecision revisions exclusions d h in
      let (d', h', fits') =
        evaluate_close_eligibility-total revisions' exclusions' (IsWellPosed-perm well) in
      h' ∙ ap ok (IsDecision-eq fits' (IsDecision-perm fits))

evaluate_err :
    (revisions : List RevisionStatus) (exclusions : List CloseExclusion) (e : Error)
    → evaluate_close_eligibility revisions exclusions ≡ err e
    → e ≡ domain_invariant_error
evaluate_err revisions exclusions e h = ground (arith, evaluate_steps revisions exclusions)

-- Any reordering of the revisions and of the exclusions gives the same decision or the same error.
pub evaluate_close_eligibility-perm :
    {revisions revisions' : List RevisionStatus} {exclusions exclusions' : List CloseExclusion}
    → Perm revisions revisions'
    → Perm exclusions exclusions'
    → evaluate_close_eligibility revisions exclusions
      ≡ evaluate_close_eligibility revisions' exclusions'
evaluate_close_eligibility-perm {revisions} {revisions'} {exclusions} {exclusions'} p q =
    elim (Result-cases (evaluate_close_eligibility revisions exclusions)) [
      | inl (d, h) ↦ h ∙ sym (evaluate_same p q d h)
      | inr (e, h) ↦ elim (Result-cases (evaluate_close_eligibility revisions' exclusions')) [
        | inl (d, h') ↦ evaluate_same (Perm.symm p) (Perm.symm q) d h' ∙ sym h'
        | inr (e', h') ↦
            h
            ∙ ap err (
                evaluate_err revisions exclusions e h
                ∙ sym (evaluate_err revisions' exclusions' e' h'))
            ∙ sym h'
      ]
    ]
