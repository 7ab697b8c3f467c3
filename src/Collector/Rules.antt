-- ===== src/Collector/Rules.antt =====
-- What an invariant of the state has to allow for the actions of internal/serve/run.go to keep it.
use aken.Base.{
  is_empty, ℕ, ◌+◌, ◌%◌, ◌^◌, Bool, true, false, ◌||◌, ◌&&◌, not, Option, none, some, List, [], ◌∷◌,
  ◌++◌, String, Bytes, string_eq, ◌==◌, eqb, ltb, if◌then◌else◌, any, length,
}
use aken.Protocol.Caps.{max_session_seq}
use aken.Protocol.Jobs.{Job, validate_job_id}
use aken.Protocol.Crypto.{Crypto}
use aken.Protocol.Api.{SessionId}
use aken.Protocol.Envelope.{Envelope, SessionKeys, Result, ok, err, open_job}
use aken.Collector.State.{
  Message, text, PreparedJob, JobResult, AuditEvent, Session, Act, bind, ◌>>=◌, pure, read_state,
  Keeps, Keeps-if, Keeps-bind, Keeps-write, Ends-bind,
}
use aken.Collector.Send.{Outside, Verdict, deny, approve, event, send, reject, without_lines}
use aken.Collector.Rows.{
  Row, row_jobs, offers, widenings_of, prepare_row, prepare_rows, answer, answered, classify,
}
use aken.Collector.Handle.{
  unprepared, deny_job, denial, run_row, run_rows, handle_jobs, handle_plan, handle_decoded, handle,
  loop_turn, loop,
}

module _ (c : Crypto) (keys : SessionKeys) (id : SessionId) (out : Outside)
    (I E : Session → Type 0) where
  -- What every path needs: an error leaves `E`; the audit log and sending keep the invariant.
  pub record Quiet : Type 0 where
    pub weaken : (s : Session) → I s → E s
    pub logged : (s : Session) (log : List AuditEvent) → I s → I (record s { log = log })
    pub sends : (p : PreparedJob) (r : JobResult) → Keeps I E (send c keys id out p r)

  module _ (q : Quiet) where
    pub event-Keeps :
        (seq : ℕ) (p : PreparedJob) (name : String) (r : Option JobResult)
        → Keeps I E (event c keys id out seq p name r)
    event-Keeps seq p name r =
        Keeps-write I E out.log_fails
          (λ s.
            let entry : AuditEvent = record { seq = seq; prepared = p; event = name; result = r } in
            record s { log = s.log ++ entry ∷ [] })
          q.weaken
          (λ s i.
            let entry : AuditEvent = record { seq = seq; prepared = p; event = name; result = r } in
            q.logged s (s.log ++ entry ∷ []) i)

    pub reject-Keeps :
        (seq : ℕ) (p : PreparedJob) (m : Message) → Keeps I E (reject c keys id out seq p m)
    unfolding reject
    reject-Keeps seq p m =
        let r = without_lines p.job.id "rejected" m in
        Keeps-bind I E (event c keys id out seq p "rejected" (some r)) (λ _. send c keys id out p r)
          (event-Keeps seq p "rejected" (some r)) (λ _. q.sends p r)

    pub deny_job-Keeps : (seq : ℕ) (p : PreparedJob) → Keeps I E (deny_job c keys id out seq p)
    unfolding deny_job
    deny_job-Keeps seq p =
        let r = without_lines p.job.id "denied" (denial p.widening) in
        Keeps-bind I E (event c keys id out seq p "denied" (some r)) (λ _. send c keys id out p r)
          (event-Keeps seq p "denied" (some r)) (λ _. q.sends p r)

    pub prepare_rows-Keeps :
        (seq class : ℕ) (jobs : List Job) → Keeps I E (prepare_rows c keys id out seq class jobs)
    unfolding prepare_rows prepare_row
    prepare_rows-Keeps seq class [] s i = i
    prepare_rows-Keeps seq class (job ∷ jobs) s i =
        let found = out.prepare s job class in
        Ends-bind I E
          (bind (event c keys id out seq found.0 "received" none s)
            (λ _. read_state (λ s2. classify c keys id out s2 job found.0 found.1)))
          (λ row. prepare_rows c keys id out seq class jobs >>= λ rows. pure (row ∷ rows))
          (Ends-bind I E (event c keys id out seq found.0 "received" none s)
            (λ _. read_state (λ s2. classify c keys id out s2 job found.0 found.1))
            (event-Keeps seq found.0 "received" none s i) (λ _ s2 j. j))
          (λ row.
            Keeps-bind I E (prepare_rows c keys id out seq class jobs) (λ rows. pure (row ∷ rows))
              (prepare_rows-Keeps seq class jobs) (λ rows s2 j. j))

    denied_row-Keeps :
        (seq : ℕ) (p : PreparedJob) (o : Option Message)
        → Keeps I E (run_row c keys id out seq false p o)
    denied_row-Keeps seq p (some m) = reject-Keeps seq p m
    denied_row-Keeps seq p none = deny_job-Keeps seq p

    -- Where nothing was approved, each row is rejected or denied.
    pub denied_rows-Keeps :
        (seq : ℕ) (rows : List Row) → Keeps I E (run_rows c keys id out seq false rows)
    unfolding run_rows
    denied_rows-Keeps seq [] s i = i
    denied_rows-Keeps seq (row ∷ rows) s i =
        Keeps-bind I E (run_row c keys id out seq false row.prepared row.error)
          (λ _. run_rows c keys id out seq false rows) (denied_row-Keeps seq row.prepared row.error)
          (λ _. denied_rows-Keeps seq rows) s i

    pub answer-Keeps : (rows : List Row) → Keeps I E (answer c keys id out rows)
    unfolding answer
    answer-Keeps rows s i =
        Keeps-if I E (not (is_empty (row_jobs rows)) && eqb s.level 1)
          (read_state (λ s2. out.ask s2 (row_jobs rows) (widenings_of (offers rows))) >>= λ v.
            answered c keys id out v)
          (pure (if eqb s.level 0 then approve else deny))
          (λ s2 j. answered-Keeps (out.ask s2 (row_jobs rows) (widenings_of (offers rows))) s2 j)
          (λ s2 j. j) s i
      where
        answered-Keeps : (o : Option Verdict) → Keeps I E (answered c keys id out o)
        answered-Keeps none s i = q.weaken s i
        answered-Keeps (some v) s i = i

    -- The rest of `handle`, and the loop, over what `handle_jobs` keeps.
    module _
        (jobs_kept : (seq class : ℕ) (jobs : List Job)
          → Keeps I E (handle_jobs c keys id out seq class jobs)) where
      plan-Keeps :
          (seq class : ℕ) (job : Job) (o : Option (List Job))
          → Keeps I E (handle_plan c keys id out seq class job o)
      unfolding handle_plan
      plan-Keeps seq class job none s i =
          reject-Keeps seq (unprepared job) (text "invalid plan") s i
      plan-Keeps seq class job (some jobs) s i =
          let bad = reject c keys id out seq (unprepared job) (text "invalid plan") in
          let nested = reject c keys id out seq (unprepared job) (text "nested plan") in
          let run = handle_jobs c keys id out seq class jobs in
          Keeps-if I E (ltb (length jobs) 1 || ltb 40 (length jobs)) bad
            (if any (λ j. j.name == "plan") jobs then nested else run)
            (reject-Keeps seq (unprepared job) (text "invalid plan"))
            (Keeps-if I E (any (λ j. j.name == "plan") jobs) nested run
              (reject-Keeps seq (unprepared job) (text "nested plan")) (jobs_kept seq class jobs))
            s i

      decoded-Keeps :
          (seq class : ℕ) (d : Job × Bool) → Keeps I E (handle_decoded c keys id out seq class d)
      unfolding handle_decoded
      decoded-Keeps seq class (job, false) s i =
          reject-Keeps seq (unprepared job) (text "invalid job") s i
      decoded-Keeps seq class (job, true) s i =
          let bad = reject c keys id out seq (unprepared job) (text "invalid plan") in
          let plan = handle_plan c keys id out seq class job (out.decode_plan job.params) in
          Keeps-if I E (not (job.name == "plan")) (handle_jobs c keys id out seq class (job ∷ []))
            (if not (validate_job_id job.id) then bad else plan) (jobs_kept seq class (job ∷ []))
            (Keeps-if I E (not (validate_job_id job.id)) bad plan
              (reject-Keeps seq (unprepared job) (text "invalid plan"))
              (plan-Keeps seq class job (out.decode_plan job.params)))
            s i

      module _ (counted : (s : Session) (n : ℕ) → I s → I (record s { next_job = n })) where
        turn-Keeps :
            (e : Envelope) (rest : Act (Unit {0})) (r : Result Bytes)
            → Keeps I E rest
            → Keeps I E (loop_turn c keys id out e rest r)
        unfolding loop_turn handle
        turn-Keeps e rest (err x) k s i = k s i
        turn-Keeps e rest (ok plaintext) k s i =
            let s2 = record s { next_job = (s.next_job + 1) % 2 ^ 64 } in
            Ends-bind I E (handle c keys id out e plaintext s2)
              (λ _. read_state (λ s3. ltb max_session_seq s3.next_result) >>= λ exhausted.
                if eqb e.seq max_session_seq || exhausted then pure tt else rest)
              (decoded-Keeps e.seq e.class (out.decode_job plaintext) s2
                (counted s ((s.next_job + 1) % 2 ^ 64) i))
              (λ _ s3 j.
                Keeps-if I E (eqb e.seq max_session_seq || ltb max_session_seq s3.next_result)
                  (pure tt) rest (λ s4 l. l) k s3 j)

        pub loop-Keeps : (es : List Envelope) → Keeps I E (loop c keys id out es)
        unfolding loop
        loop-Keeps [] s i = q.weaken s i
        loop-Keeps (e ∷ es) s i =
            turn-Keeps e (loop c keys id out es) (open_job c keys e id s.next_job) (loop-Keeps es) s
              i
