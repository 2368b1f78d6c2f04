-- ===== src/Generation/Cap.antt =====
-- The bound on the automatic retries of research.
use axit_project.Prelude.{
  ◌≡◌, inl, inr, Bool, true, false, ◌&&◌, not, some, ◌==◌, ltb, ok, Bool-cases, arith, string_eq,
  if◌then◌else◌,
}
use axit_project.Json.{text}
use axit_project.Domain.Models.{failed_retryable, failed_terminal, job_state_eq}
use axit_project.Queue.{ClaimedJob}
use axit_project.Generation.{GenerationExecution, check_execution, new_execution, with_field}
use axit_project.Generation.Worker.{cap_research_retries}

-- What `__post_init__` lets through.
abbrev pub IsValid : {C : Type 0} → GenerationExecution C → Type 0
IsValid x = check_execution x ≡ ok tt

module _ {C : Type 0} (x : GenerationExecution C) (claimed : ClaimedJob) where
  -- A retryable failure of research at the third generation or later.
  abbrev pub is_capped : Bool
  is_capped =
      x.target_state == failed_retryable
      && claimed.kind == "research"
      && not (ltb claimed.lease_generation 3)

  abbrev pub made_terminal : GenerationExecution C
  made_terminal = record x {
    target_state = failed_terminal;
    retryable = false;
    result = with_field "status" (text "failed_terminal") x.result;
  }

  made_terminal-IsValid :
      IsValid x → (x.target_state == failed_retryable) ≡ true → IsValid made_terminal
  unfolding check_execution
  made_terminal-IsValid h failed = ground (arith, h, failed)

  capped_steps :
      (is_capped ≡ true → check_execution made_terminal ≡ ok tt)
      → cap_research_retries (some x) claimed ≡ ok (some (if is_capped then made_terminal else x))
  unfolding cap_research_retries new_execution
  capped_steps h = elim (Bool-cases is_capped) [
    | inl capped ↦ ground (arith, h capped, capped)
    | inr other ↦ ground (arith, other)
  ]

  -- An execution that passed its checks stays one that passes them, and stays retryable unless it
  -- is research at its third generation or later.
  pub cap_research_retries-given :
      IsValid x
      → (y : GenerationExecution C) × (cap_research_retries (some x) claimed ≡ ok (some y))
        × IsValid y
        × ((y.target_state == failed_retryable) ≡ (
            x.target_state == failed_retryable
            && not (claimed.kind == "research" && not (ltb claimed.lease_generation 3))))
  cap_research_retries-given h =
      let steps = capped_steps (λ capped. made_terminal-IsValid h (ground (arith, capped))) in
      elim (Bool-cases is_capped) [
        | inl capped ↦ (
          made_terminal,
          ground (arith, steps, capped),
          made_terminal-IsValid h (ground (arith, capped)),
          ground (arith, capped),
        )
        | inr other ↦ (x, ground (arith, steps, other), h, ground (arith, other))
      ]
