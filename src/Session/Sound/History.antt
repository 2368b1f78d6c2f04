-- ===== src/Session/Sound/History.antt =====
-- Closes, reopens, retries and the queue's workers, in any order.
use axit_project.Prelude.{ℕ, List, Bool, String, Option}
use axit_project.Json.{Chars}
use axit_project.Queue.{Tables}
use axit_project.Queue.Traces.{Reaches, Reaches-IsWellFormed}
use axit_project.Activity.Ledger.{AuditEvent, Drawn}
use axit_project.Session.{Store}
use axit_project.Session.Close.{close}
use axit_project.Session.Writes.{CloseDraw, CloseExclusionRequest}
use axit_project.Session.Reopen.{reopen}
use axit_project.Session.Retry.{RetryDraw, retry}
use axit_project.Session.Sound.{IsSound}
use axit_project.Session.Sound.Closed.{close-IsSound}
use axit_project.Session.Sound.Moved.{reopen-IsSound}
use axit_project.Session.Sound.Retried.{retry-IsSound}

module _ (uuid_text decimal_text : ℕ → String) (lower : String → String)
    (satisfies : AuditEvent → Bool) (sha256 : Chars → String) (start : Store) where
  -- The tables after any calls, each with any arguments, that returned or raised.
  pub data History : Store → Type 0 where
    nothing_yet : History start
    closes :
        {db : Store} (drawn : CloseDraw) (session_id actor_id : ℕ)
        (exclusions : List CloseExclusionRequest) (pipeline_version : String)
        (anchor_schema_version : Option String)
        → History db
        → History
            (close uuid_text decimal_text lower satisfies drawn session_id actor_id exclusions
              pipeline_version anchor_schema_version db).1
    reopens :
        {db : Store} (drawn : Drawn) (session_id actor_id : ℕ)
        → History db
        → History (reopen uuid_text decimal_text lower satisfies drawn session_id actor_id db).1
    retries :
        {db : Store} (drawn : RetryDraw) (session_id actor_id : ℕ)
        → History db
        → History (retry uuid_text decimal_text lower satisfies drawn session_id actor_id db).1
    works :
        {db : Store} (queue : Tables)
        → Reaches sha256 db.queue queue
        → History db
        → History (record db { queue = queue })

  -- However closes, reopens, retries and the operations of the queue are called and interleaved
  -- from sound tables, the tables stay sound: the queue well-formed, one row for a session, its
  -- epoch that of its latest snapshot, and a snapshot for every session that was closed.
  pub History-IsSound : (db : Store) → IsSound start → History db → IsSound db
  History-IsSound _ h nothing_yet = h
  History-IsSound _ h
        (closes {db} drawn session_id actor_id exclusions pipeline_version anchor_schema_version
          before) =
      close-IsSound uuid_text decimal_text lower satisfies session_id actor_id exclusions
        pipeline_version anchor_schema_version drawn db (History-IsSound db h before)
  History-IsSound _ h (reopens {db} drawn session_id actor_id before) =
      reopen-IsSound uuid_text decimal_text lower satisfies drawn session_id actor_id db
        (History-IsSound db h before)
  History-IsSound _ h (retries {db} drawn session_id actor_id before) =
      retry-IsSound uuid_text decimal_text lower satisfies drawn session_id actor_id db
        (History-IsSound db h before)
  History-IsSound _ h (works {db} queue reaches before) =
      let sound = History-IsSound db h before in
      record {
        queue = Reaches-IsWellFormed sha256 db.queue queue sound.queue reaches;
        one_session = sound.one_session;
        numbered = sound.numbered;
      }
