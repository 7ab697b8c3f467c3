-- ===== src/Collector/Running.antt =====
-- The invariants that running a plan's rows keeps (internal/serve/run.go).
use aken.Base.{
  is_empty, ℕ, Bool, true, false, ◌&&◌, not, Option, none, some, List, [], ◌∷◌, ◌++◌, Bytes,
  string_eq, eqb, ltb, if◌then◌else◌,
}
use aken.Protocol.Jobs.{Job}
use aken.Protocol.Crypto.{Crypto}
use aken.Protocol.Api.{SessionId}
use aken.Protocol.Envelope.{SessionKeys}
use aken.Collector.State.{
  Files, Message, PreparedJob, JobResult, Session, ◌>>=◌, read_state, change, Keeps, Keeps-if,
  Ends-bind,
}
use aken.Collector.Send.{Outside, Verdict, deny, approve, once, event, widen, add_to}
use aken.Collector.Rows.{Row, offers, prepare_rows, answer, again_all}
use aken.Collector.Handle.{
  restoring, finish, run_job, run_row, run_rows, widen_and_run, run_answered, handle_jobs,
  result_of,
}
use aken.Collector.Widens.{finish-Keeps, widen-Keeps}
use aken.Collector.Rules.{
  Quiet, event-Keeps, reject-Keeps, deny_job-Keeps, prepare_rows-Keeps, answer-Keeps,
}

module _ (c : Crypto) (keys : SessionKeys) (id : SessionId) (out : Outside) (I E : Session → Type 0)
    (q : Quiet c keys id out I E)
    (ran : (s : Session) (reads : List (PreparedJob × Files))
      → I s
      → I (record s { reads = reads }))
    (saved : (s : Session) (scope : List Bytes) → I s → I (record s { scope = scope })) where
  run_job-Keeps : (seq : ℕ) (p : PreparedJob) → Keeps I E (run_job c keys id out seq p)
  unfolding run_job
  run_job-Keeps seq p s i =
      let result = λ (s : Session).
        let x = out.execute s p in result_of c keys id out p x (out.redact s x.lines) in
      let review = λ (r : JobResult) (s : Session).
        if eqb s.level 1 && ltb 0 r.flags then out.review s p r else some true in
      Ends-bind I E (event c keys id out seq p "approved" none s)
        (λ _. change (λ s. record s { reads = s.reads ++ (p, s.files) ∷ [] }) >>= λ _.
          read_state result >>= λ r.
          read_state (review r) >>= λ decision. finish c keys id out seq p r decision)
        (event-Keeps c keys id out I E q seq p "approved" none s i)
        (λ _ s2 j.
          let s3 = record s2 { reads = s2.reads ++ (p, s2.files) ∷ [] } in
          finish-Keeps c keys id out I E q seq p (result s3) (review (result s3) s3) s3
            (ran s2 (s2.reads ++ (p, s2.files) ∷ []) j))

  run_row-Keeps :
      (seq : ℕ) (b : Bool) (p : PreparedJob) (o : Option Message)
      → Keeps I E (run_row c keys id out seq b p o)
  run_row-Keeps seq b p (some m) s i = reject-Keeps c keys id out I E q seq p m s i
  run_row-Keeps seq true p none s i = run_job-Keeps seq p s i
  run_row-Keeps seq false p none s i = deny_job-Keeps c keys id out I E q seq p s i

  pub run_rows-Keeps :
      (seq : ℕ) (b : Bool) (rows : List Row) → Keeps I E (run_rows c keys id out seq b rows)
  unfolding run_rows
  run_rows-Keeps seq b [] s i = i
  run_rows-Keeps seq b (row ∷ rows) s i =
      Ends-bind I E (run_row c keys id out seq b row.prepared row.error s)
        (λ _. run_rows c keys id out seq b rows) (run_row-Keeps seq b row.prepared row.error s i)
        (λ _. run_rows-Keeps seq b rows)

  module _ (kind : Bool)
      (adds : (s : Session) (fresh : List Bytes)
        → I s
        → I (record s { files = add_to kind s.files fresh })) where
    pub widen_and_run-Keeps :
        (seq class : ℕ) (rows : List Row)
        → Keeps I E (widen_and_run c keys id out seq class kind rows)
    unfolding widen_and_run
    widen_and_run-Keeps seq class rows s i =
        Ends-bind I E (widen c keys id out seq kind (offers rows) s)
          (λ _. read_state (λ s. again_all c keys id out s class rows) >>= λ prepared.
            run_rows c keys id out seq true prepared)
          (widen-Keeps c keys id out I E q saved kind adds seq (offers rows) s i)
          (λ _ s2 j. run_rows-Keeps seq true (again_all c keys id out s2 class rows) s2 j)

  -- A plan, where both kinds of grant keep the invariant.
  module _
      (for_session : (seq class : ℕ) (rows : List Row)
        → Keeps I E (widen_and_run c keys id out seq class false rows))
      (for_job : (seq class : ℕ) (rows : List Row)
        → Keeps I E (restoring true (widen_and_run c keys id out seq class true rows))) where
    run_answered-Keeps :
        (seq class : ℕ) (rows : List Row) (v : Verdict)
        → Keeps I E (run_answered c keys id out seq class rows v)
    unfolding run_answered
    run_answered-Keeps seq class rows deny s i = run_rows-Keeps seq false rows s i
    run_answered-Keeps seq class rows approve s i =
        Keeps-if I E (not (is_empty (offers rows)))
          (restoring false (widen_and_run c keys id out seq class false rows))
          (run_rows c keys id out seq true rows) (for_session seq class rows)
          (run_rows-Keeps seq true rows) s i
    run_answered-Keeps seq class rows once s i =
        Keeps-if I E (not (is_empty (offers rows)))
          (restoring true (widen_and_run c keys id out seq class true rows))
          (run_rows c keys id out seq true rows) (for_job seq class rows)
          (run_rows-Keeps seq true rows) s i

    pub handle_jobs-Keeps :
        (seq class : ℕ) (jobs : List Job) → Keeps I E (handle_jobs c keys id out seq class jobs)
    unfolding handle_jobs
    handle_jobs-Keeps seq class jobs s i =
        Ends-bind I E (prepare_rows c keys id out seq class jobs s)
          (λ rows. answer c keys id out rows >>= run_answered c keys id out seq class rows)
          (prepare_rows-Keeps c keys id out I E q seq class jobs s i)
          (λ rows s2 j.
            Ends-bind I E (answer c keys id out rows s2) (run_answered c keys id out seq class rows)
              (answer-Keeps c keys id out I E q rows s2 j) (run_answered-Keeps seq class rows))
