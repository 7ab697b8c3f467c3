-- ===== src/Collector/Send.antt =====
-- `send`, `reject` and `widen` of internal/serve/run.go. What the program gets from the person at
-- the terminal, the file system, the network and JSON is a parameter, which may answer differently in
-- each state of the session.
use aken.Base.{
  contains, is_empty, ℕ, ◌+◌, ◌%◌, ◌^◌, Bool, true, false, ◌||◌, ◌&&◌, not, Option, none, some,
  List, [], ◌∷◌, ◌++◌, String, Bytes, bytes_eq, string_eq, ◌==◌, ltb, if◌then◌else◌,
}
use aken.Protocol.Caps.{class_read, max_session_seq}
use aken.Protocol.Jobs.{Job}
use aken.Protocol.Crypto.{Crypto}
use aken.Protocol.Api.{SessionId}
use aken.Protocol.Envelope.{Envelope, SessionKeys, Result, ok, err, seal_result}
use aken.Collector.State.{
  Files, Message, PreparedJob, JobResult, Flag, AuditEvent, Session, Act, ◌>>=◌, ◌>>◌, pure, fail,
  read_state, change, write,
}

-- scopeGrant and pathGrant: the paths that a grant has to cover, or why it cannot be made.
pub data Grant : Type 0 where
  granted : List Bytes → Grant
  refused : String → Grant

-- A row outside the scope, with the two grants that would let it run.
pub record Widening : Type 0 where
  pub dirs : List Bytes
  pub paths : List Bytes
  pub reason : String

pub data PrepareError : Type 0 where
  out_of_scope : Bytes → PrepareError
  invalid : Message → PrepareError

pub data Verdict : Type 0 where
  deny approve once : Verdict

-- What a job's run returns: its lines, where to go on, and an error's text.
pub record Execution : Type 0 where
  pub lines : List Bytes
  pub next : Bytes
  pub error : Option Message

pub record Redacted : Type 0 where
  pub lines : List Bytes
  pub lines_redacted : ℕ
  pub flags : List Flag

pub record Outside : Type 0 where
  -- decode(data, &job): the job, as far as it was read, and whether it is valid
  pub decode_job : Bytes → Job × Bool
  pub decode_plan : Bytes → Option (List Job)
  -- json.Marshal
  pub marshal : JobResult → Bytes
  -- prepare of internal/serve/jobs.go, which reads the file system
  pub prepare : Session → Job → ℕ → PreparedJob × Option PrepareError
  pub scope_grant : Session → Bytes → Grant
  pub path_grant : Session → Bytes → Grant
  -- execute of internal/serve/jobs.go, and the engine of internal/redact
  pub execute : Session → PreparedJob → Execution
  pub redact : Session → List Bytes → Redacted
  -- the answers at the terminal; none if it cannot be read
  pub ask : Session → List PreparedJob → List Widening → Option Verdict
  pub review : Session → PreparedJob → JobResult → Option Bool
  -- whether a write fails: of the audit log, session.json, a result, mapping.json, to the relay
  pub log_fails : Session → Bool
  pub session_fails : Session → Bool
  pub result_fails : Session → Bool
  pub mapping_fails : Session → Bool
  pub post_fails : Session → Bool

-- The paths of a grant that the target lacks, each once.
unfoldable pub fresh_paths : List Bytes → List Bytes → List Bytes → List Bytes
fresh_paths target fresh [] = fresh
fresh_paths target fresh (path ∷ grant) =
    fresh_paths target
      (if not (contains target path) && not (contains fresh path)
        then fresh ++ path ∷ []
        else fresh)
      grant

-- The grants of one kind: single names for a job, or directories for the session.
abbrev pub target_of : Bool → Files → List Bytes
target_of true files = files.paths
target_of false files = files.allowed

abbrev pub add_to : Bool → Files → List Bytes → Files
add_to true files fresh = record files { paths = files.paths ++ fresh }
add_to false files fresh = record files { allowed = files.allowed ++ fresh }

abbrev pub grant_of : Bool → Widening → List Bytes
grant_of true w = w.paths
grant_of false w = w.dirs

abbrev pub widen_event : Bool → String
widen_event true = "scope-added-once"
widen_event false = "scope-added"

-- The counters are Go ints, and the sequence number is a uint64.
abbrev pub count_sent : JobResult → Session → Session
count_sent r s = record s {
  next_result = (s.next_result + 1) % 2 ^ 64;
  jobs = s.jobs + 1;
  sent = (if r.status == "ok" then s.sent + 1 else s.sent);
  denied = (if r.status == "denied" then s.denied + 1 else s.denied);
  rejected = (if r.status == "rejected" then s.rejected + 1 else s.rejected);
}

abbrev pub without_lines : Bytes → String → Message → JobResult
without_lines job_id status error = record {
  id = job_id;
  status = status;
  error = some error;
  lines = [];
  next = [];
  lines_redacted = 0;
  flags = 0;
}

module _ (c : Crypto) (keys : SessionKeys) (id : SessionId) (out : Outside) where
  -- s.audit.event
  abbrev pub event : ℕ → PreparedJob → String → Option JobResult → Act (Unit {0})
  event seq p name r =
      let entry : AuditEvent = record { seq = seq; prepared = p; event = name; result = r } in
      write out.log_fails (λ s. record s { log = s.log ++ entry ∷ [] })

  abbrev pub store_result : ℕ → JobResult → Act (Unit {0})
  store_result seq r =
      write out.result_fails (λ s. record s { results = s.results ++ (seq, r) ∷ [] })

  abbrev pub write_mapping : Act (Unit {0})
  write_mapping = write out.mapping_fails (λ s. s)

  abbrev pub write_session : Act (Unit {0})
  write_session = write out.session_fails (λ s. s)

  abbrev pub post_sealed : Result Envelope → Act (Unit {0})
  post_sealed (err e) = fail
  post_sealed (ok e) = write out.post_fails (λ s. record s { posted = s.posted ++ e ∷ [] })

  unfoldable pub send_numbered : ℕ → PreparedJob → JobResult → Act (Unit {0})
  send_numbered seq p r = do
    store_result seq r
    write_mapping
    post_sealed (seal_result c keys id seq class_read (out.marshal r))
    event seq p "sent" (some r)
    change (count_sent r)

  -- The line on the screen, `summary`, is left out.
  unfoldable pub send : PreparedJob → JobResult → Act (Unit {0})
  unfolding send_numbered
  send p r = do
    seq ← read_state (λ s. s.next_result)
    if ltb max_session_seq seq then fail else send_numbered seq p r

  unfoldable pub reject : ℕ → PreparedJob → Message → Act (Unit {0})
  unfolding send
  reject seq p message = do
    let r = without_lines p.job.id "rejected" message
    event seq p "rejected" (some r)
    send p r

  -- One turn of the loop of `widen`, which says whether it added anything.
  unfoldable pub widen_row : ℕ → Bool → PreparedJob → Widening → Act Bool
  widen_row seq kind p w = do
    target ← read_state (λ s. target_of kind s.files)
    let fresh = fresh_paths target [] (grant_of kind w)
    if is_empty fresh then pure false else (do
      change (λ s. record s { files = add_to kind s.files fresh })
      event seq (record p { paths = fresh }) (widen_event kind) none
      pure true)

  unfoldable pub widen_rows : ℕ → Bool → List (PreparedJob × Widening) → Act Bool
  unfolding widen_row
  widen_rows seq kind [] = pure false
  widen_rows seq kind ((p, w) ∷ rows) = do
    added ← widen_row seq kind p w
    more ← widen_rows seq kind rows
    pure (added || more)

  unfoldable pub widen : ℕ → Bool → List (PreparedJob × Widening) → Act (Unit {0})
  unfolding widen_rows
  widen seq kind rows = do
    added ← widen_rows seq kind rows
    if not added || kind
        then pure tt
        else (do change (λ s. record s { scope = s.files.allowed }); write_session)
