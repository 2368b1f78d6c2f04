-- ===== src/Domain/Lifecycle/Graph.antt =====
-- The state graph of a talk session: sequences of accepted transitions.
use axit_project.Prelude.{
  ◌≡◌, refl, ◌⊎◌, List, [], ◌∷◌, ℕ, ◌+◌, ◌≤◌, arith, Result, ok, ◌>>=◌, contains, true,
}
use axit_project.Errors.{Error}
use axit_project.Domain.Models.{
  TalkSessionState, draft, open_session, closed, processing, ready, needs_attention,
  session_state_eq,
}
use axit_project.Domain.Lifecycle.{assert_session_transition}

-- A caller that asserts each transition before it takes it.
unfoldable pub run_transitions :
    TalkSessionState → List TalkSessionState → Result Error TalkSessionState
run_transitions state [] = ok state
run_transitions state (target ∷ rest) =
    assert_session_transition state target >>= λ _. run_transitions target rest

-- How far a state is along the way to a result.
abbrev pub rank : TalkSessionState → ℕ
rank draft = 0
rank open_session = 1
rank closed = 2
rank processing = 3
rank ready = 4
rank needs_attention = 4

-- Accepted transitions go one step on, or from `needs_attention` back to `processing`.
pub transition_rank :
    (a b : TalkSessionState)
    → assert_session_transition a b ≡ ok tt
    → (rank b ≡ rank a + 1) ⊎ ((a ≡ needs_attention) × (b ≡ processing))
unfolding assert_session_transition
transition_rank a b h = ground arith

-- Nothing follows `ready`.
pub run_transitions-ready :
    (path : List TalkSessionState) (last : TalkSessionState)
    → run_transitions ready path ≡ ok last
    → path ≡ []
unfolding run_transitions assert_session_transition
run_transitions-ready [] last h = refl
run_transitions-ready (target ∷ rest) last h = ground arith

-- Sequences of accepted transitions from a state that is neither draft nor open end in such a state.
pub run_transitions-no_return :
    (state : TalkSessionState) (path : List TalkSessionState) (last : TalkSessionState)
    → 2 ≤ rank state
    → run_transitions state path ≡ ok last
    → 2 ≤ rank last
unfolding run_transitions
run_transitions-no_return state [] last h run = ground arith
run_transitions-no_return state (target ∷ rest) last h run =
    ground (arith, transition_rank state target, run_transitions-no_return target rest last)

step_of_run :
    (state target : TalkSessionState) (rest : List TalkSessionState) {last : TalkSessionState}
    → run_transitions state (target ∷ rest) ≡ ok last
    → (assert_session_transition state target ≡ ok tt) × (run_transitions target rest ≡ ok last)
unfolding run_transitions
step_of_run state target rest h = ground arith

passes_processing :
    (state : TalkSessionState) (path : List TalkSessionState)
    → rank state ≤ 2
    → run_transitions state path ≡ ok ready
    → contains path processing ≡ true
unfolding run_transitions
passes_processing state [] h run = ground arith
passes_processing state (target ∷ rest) h run = ground (
  arith,
  step_of_run state target rest run,
  transition_rank state target,
  passes_processing target rest,
)

passes_closed :
    (state : TalkSessionState) (path : List TalkSessionState)
    → rank state ≤ 1
    → run_transitions state path ≡ ok ready
    → contains path closed ≡ true
unfolding run_transitions
passes_closed state [] h run = ground arith
passes_closed state (target ∷ rest) h run = ground (
  arith,
  step_of_run state target rest run,
  transition_rank state target,
  passes_closed target rest,
)

-- Accepted transitions from draft or open to ready pass through closed and through processing.
pub run_transitions-passes :
    (state : TalkSessionState) (path : List TalkSessionState)
    → rank state ≤ 1
    → run_transitions state path ≡ ok ready
    → (contains path closed ≡ true) × (contains path processing ≡ true)
run_transitions-passes state path h run =
    (passes_closed state path h run, passes_processing state path (omega arith) run)
