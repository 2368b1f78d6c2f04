-- ===== src/Domain/Examples/Policies.antt =====
-- Concrete inputs for the theorems on apps/api/app/domain/policies.py.
use mathlib.Core.List.{Perm}
use mathlib.Core.List.Perm
use axit_project.Prelude.{
  ◌≡◌, ◌↔◌, refl, inr, arith, true, false, not, ◌&&◌, List, [], ◌∷◌, String, none, some, contains,
  is_blank, ok, err, ◌≤◌, string_eq,
}
use axit_project.Prelude.Sorting.{IsAscending, sorted}
use axit_project.Errors.{close_blocked_error}
use axit_project.Domain.Models.{
  TalkSessionState, session_state_eq, draft, open_session, closed, processing, ready,
  needs_attention, revision_ready, extracting, summary, research, run_succeeded,
  run_failed_retryable, operator_or_replan,
}
use axit_project.Domain.Models.Records.{
  RevisionStatus, CloseExclusion, CloseEligibility, GenerationRunView, GenerationAggregate,
  new_generation_run_view,
}
use axit_project.Domain.Close.{is_empty, evaluate_close_eligibility, require_close_eligibility}
use axit_project.Domain.Close.Index.{ready_in}
use axit_project.Domain.Close.Decision.{revision_ids, exclusion_ids, IsWellPosed, IsDecision}
use axit_project.Domain.Close.Outcome.{
  evaluate_close_eligibility-total, evaluate_close_eligibility-IsDecision, Covered,
  require_close_eligibility_iff, require_close_eligibility-blocked,
}
use axit_project.Domain.Close.Order.{evaluate_close_eligibility-perm}
use axit_project.Domain.Projection.{runs_of, project_generation_aggregate}
use axit_project.Domain.Projection.Table.{IsValidRun, IsProjected}
use axit_project.Domain.Projection.Runs.{
  project_generation_aggregate-IsProjected, IsBroken, project_generation_aggregate-broken,
}
use axit_project.Domain.Lifecycle.{assert_session_transition, assert_host_actor}
use axit_project.Domain.Lifecycle.Graph.{
  rank, run_transitions, run_transitions-no_return, run_transitions-passes,
}
use axit_project.Domain.Lifecycle.Actors.{assert_host_actor_iff, assert_host_actor-no_oracle}

-- One revision that is ready and one that is still read; the second may be excluded.
abbrev two_revisions : List RevisionStatus
two_revisions =
    record { revision_id = "b"; processing_state = extracting }
    ∷ record { revision_id = "a"; processing_state = revision_ready }
    ∷ []

abbrev swapped_revisions : List RevisionStatus
swapped_revisions =
    record { revision_id = "a"; processing_state = revision_ready }
    ∷ record { revision_id = "b"; processing_state = extracting }
    ∷ []

abbrev exclude_b : List CloseExclusion
exclude_b = record { revision_id = "b"; reason = "late" } ∷ []

b_is_known :
    (id : String)
    → contains (exclusion_ids exclude_b) id ≡ true
    → contains (revision_ids two_revisions) id ≡ true
b_is_known id h = ground arith

well_posed : IsWellPosed two_revisions exclude_b
well_posed = record { revisions_once = refl; exclusions_once = refl; known = b_is_known }

evaluate_close_eligibility-total_example :
    (d : CloseEligibility) × (evaluate_close_eligibility two_revisions exclude_b ≡ ok d)
    × IsDecision two_revisions exclude_b d
evaluate_close_eligibility-total_example =
    evaluate_close_eligibility-total two_revisions exclude_b well_posed

abbrev decision : CloseEligibility
decision = record {
  eligible = true;
  included_revision_ids = "a" ∷ [];
  excluded_revision_ids = "b" ∷ [];
  blocking_revision_ids = [];
}

decided : evaluate_close_eligibility two_revisions exclude_b ≡ ok decision
unfolding evaluate_close_eligibility sorted
decided = refl

evaluate_close_eligibility-IsDecision_example :
    IsWellPosed two_revisions exclude_b × IsDecision two_revisions exclude_b decision
evaluate_close_eligibility-IsDecision_example =
    evaluate_close_eligibility-IsDecision two_revisions exclude_b decision decided

require_close_eligibility_iff_example :
    ((d : CloseEligibility) × (require_close_eligibility two_revisions exclude_b ≡ ok d))
    ↔ (IsWellPosed two_revisions exclude_b × Covered two_revisions exclude_b)
require_close_eligibility_iff_example = require_close_eligibility_iff two_revisions exclude_b

b_blocks : require_close_eligibility two_revisions [] ≡ err (close_blocked_error ("b" ∷ []))
unfolding require_close_eligibility evaluate_close_eligibility sorted
b_blocks = refl

require_close_eligibility-blocked_example :
    IsAscending ("b" ∷ [])
    × ((id : String)
        → contains ("b" ∷ []) id ≡ (
            contains (revision_ids two_revisions) id
            && not (ready_in two_revisions id)
            && not (contains (exclusion_ids []) id)))
    × (is_empty {A = String} ("b" ∷ []) ≡ false)
require_close_eligibility-blocked_example =
    require_close_eligibility-blocked two_revisions [] ("b" ∷ []) b_blocks

swap : Perm two_revisions swapped_revisions
swap = Perm.swap _ _ _

nothing_moved : Perm exclude_b exclude_b
nothing_moved = Perm.refl exclude_b

evaluate_close_eligibility-perm_example :
    evaluate_close_eligibility two_revisions exclude_b
    ≡ evaluate_close_eligibility swapped_revisions exclude_b
evaluate_close_eligibility-perm_example = evaluate_close_eligibility-perm swap nothing_moved

abbrev summary_run : GenerationRunView
summary_run = record { kind = summary; state = run_succeeded; error_code = none }

abbrev research_run : GenerationRunView
research_run = record { kind = research; state = run_failed_retryable; error_code = some "timeout" }

summary_run_valid : IsValidRun summary_run
unfolding new_generation_run_view
summary_run_valid = refl

research_run_valid : IsValidRun research_run
unfolding new_generation_run_view is_blank
research_run_valid = refl

project_generation_aggregate-IsProjected_example :
    (a : GenerationAggregate) × (project_generation_aggregate (research_run ∷ summary_run ∷ [])
      ≡ ok a)
    × IsProjected summary_run research_run a
project_generation_aggregate-IsProjected_example =
    project_generation_aggregate-IsProjected summary_run research_run
      (research_run ∷ summary_run ∷ []) refl refl summary_run_valid research_run_valid

no_research : IsBroken (runs_of summary (summary_run ∷ [])) (runs_of research (summary_run ∷ []))
no_research = inr λ e. ground arith

project_generation_aggregate-broken_example :
    (a : GenerationAggregate) × (project_generation_aggregate (summary_run ∷ []) ≡ ok a)
    × (a.state ≡ needs_attention)
    × (a.retry_available ≡ false)
    × (a.action ≡ operator_or_replan)
project_generation_aggregate-broken_example =
    project_generation_aggregate-broken (summary_run ∷ []) no_research

abbrev full_path : List TalkSessionState
full_path = open_session ∷ closed ∷ processing ∷ needs_attention ∷ processing ∷ ready ∷ []

full_path_runs : run_transitions draft full_path ≡ ok ready
unfolding run_transitions assert_session_transition
full_path_runs = refl

run_transitions-passes_example :
    (contains full_path closed ≡ true) × (contains full_path processing ≡ true)
run_transitions-passes_example = run_transitions-passes draft full_path (omega arith) full_path_runs

retry_path_runs : run_transitions needs_attention (processing ∷ []) ≡ ok processing
unfolding run_transitions assert_session_transition
retry_path_runs = refl

run_transitions-no_return_example : 2 ≤ rank processing
run_transitions-no_return_example =
    run_transitions-no_return needs_attention (processing ∷ []) processing (omega arith)
      retry_path_runs

abbrev members : List String
members = "host" ∷ "guest" ∷ []

assert_host_actor_iff_example : (assert_host_actor "host" "host" members ≡ ok tt) ↔ (
    (is_blank "host" ≡ false)
    × (contains {A = String} members "host" ≡ true)
    × ◌≡◌ {A = String} "host" "host")
assert_host_actor_iff_example = assert_host_actor_iff "host" "host" members

assert_host_actor-no_oracle_example :
    assert_host_actor "stranger" "host" members ≡ assert_host_actor "stranger" "guest" members
assert_host_actor-no_oracle_example =
    assert_host_actor-no_oracle "stranger" "host" members "guest" refl
