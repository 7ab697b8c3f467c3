-- ===== src/Collector/Handle.antt =====
-- `handle` and `loop` of internal/serve/run.go: what is done with the rows of a plan.
use aken.Base.{
  is_empty, ℕ, ◌+◌, ◌%◌, ◌^◌, Bool, true, false, ◌||◌, ◌&&◌, not, Option, none, some, List, [], ◌∷◌,
  ◌++◌, Bytes, string_eq, ◌==◌, bytes_eq, eqb, ltb, leb, if◌then◌else◌, any, is_some, length,
}
use aken.Protocol.Caps.{max_session_seq}
use aken.Protocol.Jobs.{Job, validate_job_id}
use aken.Protocol.Crypto.{Crypto}
use aken.Protocol.Api.{SessionId}
use aken.Protocol.Envelope.{Envelope, SessionKeys, Result, ok, err, open_job}
use aken.Collector.State.{
  Message, text, PreparedJob, JobResult, Flag, Session, Act, ◌>>=◌, ◌>>◌, pure, fail, read_state,
  change,
}
use aken.Collector.Result.{cap_result}
use aken.Collector.Send.{
  Outside, Verdict, Execution, Redacted, event, send, reject, widen, without_lines,
}
use aken.Collector.Rows.{Row, offers, is_approved, is_once, prepare_rows, answer, again_all}

-- The distinct values of the flags that do not look like identifiers, on the first lines.
abbrev pub count_values : List Bytes → ℕ
count_values [] = 0
count_values (v ∷ vs) = (if any (λ w. w == v) vs then 0 else 1) + count_values vs

abbrev pub flag_values : ℕ → List Flag → List Bytes
flag_values lines [] = []
flag_values lines (f ∷ flags) =
    let rest = flag_values lines flags in
    if not f.id_shaped && leb f.line lines then f.value ∷ rest else rest

abbrev pub all_flag_values : List Flag → List Bytes
all_flag_values [] = []
all_flag_values (f ∷ flags) =
    let rest = all_flag_values flags in if not f.id_shaped then f.value ∷ rest else rest

abbrev pub unprepared : Job → PreparedJob
unprepared job = record { job = job; paths = []; target = []; widening = false; cursor = [] }

-- What `defer` does where a grant is for one job: the single names are as before, however it ends.
abbrev pub restored : {A : Type 0} → List Bytes → Option A × Session → Option A × Session
restored paths (o, s) = (o, record s { files = record s.files { paths = paths } })

abbrev pub restoring : {A : Type 0} → Bool → Act A → Act A
restoring true a s = restored s.files.paths (a s)
restoring false a s = a s

abbrev pub denial : Bool → Message
denial true = text "denied by user; nothing was added to the scope"
denial false = text "denied by user"

module _ (c : Crypto) (keys : SessionKeys) (id : SessionId) (out : Outside) where
  abbrev pub raw_result : PreparedJob → Execution → Redacted → JobResult
  raw_result p x red = record {
    id = p.job.id;
    status = (if is_some x.error then "error" else "ok");
    error = x.error;
    lines = red.lines;
    next = x.next;
    lines_redacted = red.lines_redacted;
    flags = count_values (all_flag_values red.flags);
  }

  -- The result of a run, capped, with the flags that are left on its lines.
  unfoldable pub result_of : PreparedJob → Execution → Redacted → JobResult
  result_of p x red =
      let r = cap_result out.marshal (raw_result p x red) p in
      record r { flags = count_values (flag_values (length r.lines) red.flags) }

  unfoldable pub finish : ℕ → PreparedJob → JobResult → Option Bool → Act (Unit {0})
  finish seq p r none = fail
  finish seq p r (some true) = send c keys id out p r
  finish seq p r (some false) = do
    let dropped = without_lines p.job.id "denied" (text "dropped after review")
    event c keys id out seq p "dropped" (some dropped)
    send c keys id out p dropped

  unfoldable pub run_job : ℕ → PreparedJob → Act (Unit {0})
  unfolding finish
  run_job seq p = do
    event c keys id out seq p "approved" none
    change (λ s. record s { reads = s.reads ++ (p, s.files) ∷ [] })
    r ← read_state (λ s. let x = out.execute s p in result_of p x (out.redact s x.lines))
    decision ←
        read_state (λ s. if eqb s.level 1 && ltb 0 r.flags then out.review s p r else some true)
    finish seq p r decision

  unfoldable pub deny_job : ℕ → PreparedJob → Act (Unit {0})
  deny_job seq p = do
    let r = without_lines p.job.id "denied" (denial p.widening)
    event c keys id out seq p "denied" (some r)
    send c keys id out p r

  abbrev pub run_row : ℕ → Bool → PreparedJob → Option Message → Act (Unit {0})
  run_row seq approved p (some m) = reject c keys id out seq p m
  run_row seq true p none = run_job seq p
  run_row seq false p none = deny_job seq p

  unfoldable pub run_rows : ℕ → Bool → List Row → Act (Unit {0})
  unfolding run_job deny_job
  run_rows seq approved [] = pure tt
  run_rows seq approved (row ∷ rows) = do
    run_row seq approved row.prepared row.error
    run_rows seq approved rows

  unfoldable pub widen_and_run : ℕ → ℕ → Bool → List Row → Act (Unit {0})
  unfolding run_rows
  widen_and_run seq class kind rows = do
    widen c keys id out seq kind (offers rows)
    prepared ← read_state (λ s. again_all c keys id out s class rows)
    run_rows seq true prepared

  unfoldable pub run_answered : ℕ → ℕ → List Row → Verdict → Act (Unit {0})
  unfolding widen_and_run
  run_answered seq class rows v =
      if is_approved v && not (is_empty (offers rows))
      then restoring (is_once v) (widen_and_run seq class (is_once v) rows)
      else run_rows seq (is_approved v) rows

  unfoldable pub handle_jobs : ℕ → ℕ → List Job → Act (Unit {0})
  unfolding prepare_rows answer run_answered
  handle_jobs seq class jobs = do
    rows ← prepare_rows c keys id out seq class jobs
    v ← answer c keys id out rows
    run_answered seq class rows v

  unfoldable pub handle_plan : ℕ → ℕ → Job → Option (List Job) → Act (Unit {0})
  handle_plan seq class job none = reject c keys id out seq (unprepared job) (text "invalid plan")
  handle_plan seq class job (some jobs) =
      if ltb (length jobs) 1 || ltb 40 (length jobs)
      then reject c keys id out seq (unprepared job) (text "invalid plan")
      else if any (λ j. j.name == "plan") jobs
      then reject c keys id out seq (unprepared job) (text "nested plan")
      else handle_jobs seq class jobs

  unfoldable pub handle_decoded : ℕ → ℕ → Job × Bool → Act (Unit {0})
  unfolding handle_plan
  handle_decoded seq class (job, false) =
      reject c keys id out seq (unprepared job) (text "invalid job")
  handle_decoded seq class (job, true) =
      if not (job.name == "plan")
      then handle_jobs seq class (job ∷ [])
      else if not (validate_job_id job.id)
      then reject c keys id out seq (unprepared job) (text "invalid plan")
      else handle_plan seq class job (out.decode_plan job.params)

  unfoldable pub handle : Envelope → Bytes → Act (Unit {0})
  unfolding handle_decoded
  handle e data_bytes = handle_decoded e.seq e.class (out.decode_job data_bytes)

  -- One turn of the loop, on what `open_job` returned: an envelope that does not open is dropped.
  unfoldable pub loop_turn : Envelope → Act (Unit {0}) → Result Bytes → Act (Unit {0})
  loop_turn e rest (err x) = rest
  loop_turn e rest (ok plaintext) = do
    change (λ s. record s { next_job = (s.next_job + 1) % 2 ^ 64 })
    handle e plaintext
    exhausted ← read_state (λ s. ltb max_session_seq s.next_result)
    if eqb e.seq max_session_seq || exhausted then pure tt else rest

  -- The loop over the envelopes that arrive until the session's end, which is an error with its
  -- cause.
  unfoldable pub loop : List Envelope → Act (Unit {0})
  unfolding loop_turn
  loop [] s = (none, s)
  loop (e ∷ es) s = loop_turn e (loop es) (open_job c keys e id s.next_job) s
