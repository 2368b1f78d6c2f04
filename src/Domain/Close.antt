-- ===== src/Domain/Close.antt =====
-- apps/api/app/domain/policies.py: whether a session may close, and on what.
pub mod Index
pub mod Decision
pub mod Outcome
pub mod Order
use axit_project.Prelude.{
  Bool, true, false, ◌&&◌, not, List, [], ◌∷◌, ◌++◌, map, String, Option, none, some, ◌==◌,
  contains, filter_by, if◌then◌else◌, Result, ok, err, require, ◌>>=◌, ◌>>◌, string_eq,
}
use axit_project.Prelude.Sorting.{sorted}
use axit_project.Errors.{Error, domain_invariant_error, close_blocked_error}
use axit_project.Domain.Models.{RevisionProcessingState, revision_ready}
use axit_project.Domain.Models.Records.{RevisionStatus, CloseExclusion, CloseEligibility}

-- A list with no element.
abbrev pub is_empty {ℓ} : {A : Type ℓ} → List A → Bool
is_empty [] = true
is_empty (_ ∷ _) = false

-- The two loops that fill a dictionary by identifier, and refuse one that is there. As no key is
-- written twice, the dictionary is the list of its values in order.
unfoldable pub index_by_id {ℓ} :
    {A : Type ℓ} → (A → String) → List A → List A → Result Error (List A)
index_by_id key seen [] = ok seen
index_by_id key seen (item ∷ rest) =
    let next = index_by_id key (seen ++ item ∷ []) rest in
    if contains (map key seen) (key item) then err domain_invariant_error else next

unfoldable pub find_revision : String → List RevisionStatus → Option RevisionStatus
find_revision id [] = none
find_revision id (r ∷ rest) = if r.revision_id == id then some r else find_revision id rest

abbrev pub is_ready : RevisionProcessingState → Bool
is_ready revision_ready = true
is_ready _ = false

-- `revisions_by_id[revision_id].processing_state is READY`, at a key of the dictionary
unfoldable pub is_ready_at : List RevisionStatus → String → Bool
unfolding find_revision
is_ready_at revisions id = elim (find_revision id revisions) [
  | none ↦ false
  | some r ↦ is_ready r.processing_state
]

unfoldable pub decide_close : List RevisionStatus → List CloseExclusion → CloseEligibility
decide_close revisions exclusions =
    let excluded = map (λ (e : CloseExclusion). e.revision_id) exclusions in
    let ordered = sorted (map (λ (r : RevisionStatus). r.revision_id) revisions) in
    let blocking =
      filter_by (λ id. not (is_ready_at revisions id) && not (contains excluded id)) ordered in
    record {
      eligible = is_empty blocking;
      included_revision_ids =
          filter_by (λ id. not (contains excluded id) && is_ready_at revisions id) ordered;
      excluded_revision_ids = filter_by (contains excluded) ordered;
      blocking_revision_ids = blocking;
    }

-- `set(exclusions_by_id) - set(revisions_by_id)`; only its emptiness is used, beside the message.
unfoldable pub unknown_exclusions : List RevisionStatus → List CloseExclusion → List String
unknown_exclusions revisions exclusions =
    let known = map (λ (r : RevisionStatus). r.revision_id) revisions in
    filter_by (λ id. not (contains known id))
      (map (λ (e : CloseExclusion). e.revision_id) exclusions)

unfoldable pub evaluate_close_eligibility :
    List RevisionStatus → List CloseExclusion → Result Error CloseEligibility
unfolding index_by_id decide_close unknown_exclusions is_ready_at
evaluate_close_eligibility current_revisions exclusions = do
  revisions ← index_by_id (λ (r : RevisionStatus). r.revision_id) [] current_revisions
  excluded ← index_by_id (λ (e : CloseExclusion). e.revision_id) [] exclusions
  require (is_empty (unknown_exclusions revisions excluded)) domain_invariant_error
  ok (decide_close revisions excluded)

unfoldable pub require_close_eligibility :
    List RevisionStatus → List CloseExclusion → Result Error CloseEligibility
require_close_eligibility current_revisions exclusions = do
  decision ← evaluate_close_eligibility current_revisions exclusions
  require decision.eligible (close_blocked_error decision.blocking_revision_ids)
  ok decision
