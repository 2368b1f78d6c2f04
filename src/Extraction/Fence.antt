-- ===== src/Extraction/Fence.antt =====
-- What one round of the extraction runner does to the queue's tables.
use mathlib.Core.Path.{subst}
use axit_project.Prelude.{
  ℕ, ◌≡◌, refl, sym, Bool, [], ◌∷◌, String, Option, none, some, ℤ, arith, Result, ok, err,
}
use axit_project.Errors.{Error}
use axit_project.Json.{Chars}
use axit_project.Database.{lift_keeps, then_keeps, pure}
use axit_project.Queue.{Tables, ClaimedJob}
use axit_project.Queue.Claim.{ClaimTimes, claim_next}
use axit_project.Queue.Complete.{complete}
use axit_project.Queue.Invariant.{IsWellFormed}
use axit_project.Queue.Invariant.Claim.{claim_next-IsWellFormed}
use axit_project.Queue.Invariant.Effects.{nothing_InsertsOnly, complete_with_effects-IsWellFormed}
use axit_project.Extraction.{Raised, Completion}
use axit_project.Extraction.Runner.{unless_stale, escaping, finish_job, run_once}

pub unless_stale_writes : (r : Result Error (Unit {0}) × Tables) → (unless_stale r).1 ≡ r.1
unless_stale_writes (ok _, t) = refl
unless_stale_writes (err e, t) = ground arith

module _ (digest : Chars → String) (execute : ClaimedJob → Result Raised Completion)
    (interlude : Tables → Tables) (result_id started now : ℕ) where
  -- A round keeps the tables well-formed, whatever the loader and the sandbox do, when those who
  -- write to them meanwhile keep them so.
  pub run_once-IsWellFormed :
      (times : ClaimTimes) (locked : ℕ → Bool) (token attempt_id : ℕ) (owner : String) (seconds : ℤ)
      (db : Tables)
      → ((s : Tables) → IsWellFormed s → IsWellFormed (interlude s))
      → IsWellFormed db
      → IsWellFormed
          (run_once digest execute interlude times locked token attempt_id result_id started now
            owner seconds db).1
  unfolding run_once finish_job complete
  run_once-IsWellFormed times locked token attempt_id owner seconds db others h =
      then_keeps IsWellFormed
        (claim_next times locked token attempt_id owner seconds (some ("extraction" ∷ []))) _ db
        (claim_next-IsWellFormed times locked token attempt_id owner seconds
          (some ("extraction" ∷ [])) db h)
        λ found t well. finished found t well
    where
      finished :
          (found : Option ClaimedJob) (t : Tables)
          → IsWellFormed t
          → IsWellFormed (finish_job digest execute interlude result_id started now found t).1
      finished none t well = well
      finished (some claimed) t well =
          lift_keeps IsWellFormed (escaping (execute claimed)) _ (interlude t) (others t well)
            λ c _.
              then_keeps IsWellFormed
                (λ db'. unless_stale (
                  complete digest claimed c.target_state c.result c.error_code result_id started now
                    db'))
                _ (interlude t)
                (subst IsWellFormed
                  (sym (
                    unless_stale_writes (
                      complete digest claimed c.target_state c.result c.error_code result_id started
                        now (interlude t))))
                  (complete_with_effects-IsWellFormed digest claimed c.target_state c.result
                    c.error_code (pure tt) result_id started now (interlude t) nothing_InsertsOnly
                    (others t well)))
                (λ b db' w. w)
