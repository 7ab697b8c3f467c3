-- ===== src/Tests/Collector.antt =====
-- The collector's loop at concrete inputs: one job arrives for a session at level 1.
use aken.Base.{
  arith, ◌≤◌, ◌≡◌, refl, true, false, none, some, [], ◌∷◌, ◌++◌, List, length, replicate, some_inj,
  sym,
}
use aken.Encoding.Alphabet.{codes}
use aken.Protocol.Caps.{max_session_seq}
use aken.Protocol.Jobs.{Job}
use aken.Encoding.Hex
use aken.Protocol.Api.{parse_session_id, session_id_text}
use aken.Protocol.Envelope.{
  open_job, open_session, validate, canonical, canonical_at, open_with, opened, seal_result,
  seal_session, seal_with, blank_envelope, Envelope, SessionKeys,
}
use aken.Relay.Live.Numbered.{Numbered}
use aken.Collector.State.{Files, PreparedJob, JobResult, Session}
use aken.Collector.Result.{overflow, cap_json, cap_result}
use aken.Collector.Result.Capped.{Capped}
use aken.Collector.Send.{
  send, send_numbered, out_of_scope, Outside, refused, Widening, Verdict, deny, approve, once,
  fresh_paths,
}
use aken.Collector.Handle.{
  loop, loop_turn, handle, handle_decoded, handle_jobs, run_answered, run_rows, run_job, finish,
  result_of,
}
use aken.Collector.Rows.{prepare_rows, prepare_row, answer}
use aken.Collector.Scope.{never_approved, once_grants_end}
use aken.Collector.LevelZero.{level_zero_scope}
use aken.Collector.Numbering.{results-Numbered}
use aken.Collector.Accepted.{post_all, results_accepted}
use aken.Protocol.Api.{JoinInfo}
use aken.Relay.Live.{LiveSession, new_live, join_live}
use aken.Tests.Samples.{crypto, id, id_text, key, other_key}

abbrev pub keys : SessionKeys
keys = record { job = key; result = other_key }

abbrev job : Job
job = record { id = codes "a"; name = "ps"; params = codes "{}" }

abbrev prepared : PreparedJob
prepared = record { job = job; paths = []; target = []; widening = false; cursor = [] }

-- Everything succeeds, and the person answers each question the same.
abbrev pub outside : Verdict → Outside
outside v = record {
  decode_job = λ d. (job, true);
  decode_plan = λ d. none;
  marshal = λ r. 1 ∷ [];
  prepare = λ s j class. (prepared, none);
  scope_grant = λ s dir. refused "the directory does not exist";
  path_grant = λ s path. refused "the path does not exist";
  execute = λ s p. record { lines = codes "x" ∷ []; next = []; error = none };
  redact = λ s lines. record { lines = lines; lines_redacted = 0; flags = [] };
  ask = λ s rows ws. some v;
  review = λ s p r. some true;
  log_fails = λ s. false;
  session_fails = λ s. false;
  result_fails = λ s. false;
  mapping_fails = λ s. false;
  post_fails = λ s. false;
}

abbrev scope : Files
scope = record { allowed = codes "/var/log" ∷ []; paths = [] }

abbrev pub session : Session
session = record {
  level = 1;
  files = scope;
  next_job = 1;
  next_result = 1;
  jobs = 0;
  sent = 0;
  denied = 0;
  rejected = 0;
  scope = codes "/var/log" ∷ [];
  log = [];
  results = [];
  posted = [];
  reads = [];
}

-- A job that opens under the sample crypto.
abbrev pub arriving : Envelope
arriving = record {
  version = 1;
  session_id = id_text;
  seq = 1;
  class = 1;
  payload = replicate 16 0 ++ codes "{}";
}

added_once :
    fresh_paths (codes "a" ∷ []) [] (codes "a" ∷ codes "b" ∷ codes "b" ∷ []) ≡ codes "b" ∷ []
unfolding fresh_paths
added_once = refl

results-Numbered_example :
    let after = (loop crypto keys id (outside approve) (arriving ∷ []) session).1 in
    Numbered 1 after.posted × (length after.posted ≤ max_session_seq)
results-Numbered_example =
    results-Numbered crypto keys id (outside approve) (arriving ∷ []) session refl refl

never_approved_example :
    let after = (loop crypto keys id (outside deny) (arriving ∷ []) session).1 in
    (after.reads ≡ []) × (after.files ≡ scope)
never_approved_example =
    never_approved crypto keys id (outside deny) scope always_deny (arriving ∷ []) session refl refl
      refl
  where
    always_deny :
        (s : Session) (rows : List PreparedJob) (ws : List Widening) (v : Verdict)
        → (outside deny).ask s rows ws ≡ some v
        → v ≡ deny
    always_deny s rows ws v h = sym (some_inj h)

once_grants_end_example :
    (loop crypto keys id (outside once) (arriving ∷ []) session).1.files.paths ≡ []
once_grants_end_example =
    once_grants_end crypto keys id (outside once) [] (arriving ∷ []) session refl

abbrev result : JobResult
result = record {
  id = codes "a";
  status = "ok";
  error = none;
  lines = codes "1: x" ∷ [];
  next = [];
  lines_redacted = 0;
  flags = 0;
}

-- A person who is not asked: the level of the session is 0, and a job is outside the scope.
abbrev outside_zero : Outside
outside_zero = record (outside approve) {
  prepare = λ s j class. (prepared, some (out_of_scope (codes "/etc")));
}

level_zero_scope_example :
    (loop crypto keys id outside_zero (arriving ∷ []) (record session { level = 0 })).1.files
    ≡ scope
level_zero_scope_example =
    level_zero_scope crypto keys id outside_zero scope (arriving ∷ [])
      (record session { level = 0 }) refl refl

-- An approved job is run once, and one result is posted and counted.
one_result :
    let after = (loop crypto keys id (outside approve) (arriving ∷ []) session).1 in
    (length after.posted ≡ 1)
    × (after.sent ≡ 1)
    × (after.next_result ≡ 2)
    × (length after.reads ≡ 1)
unfolding loop loop_turn handle handle_decoded handle_jobs prepare_rows prepare_row answer
    run_answered run_rows run_job finish send send_numbered result_of cap_result overflow cap_json
    open_job open_session validate canonical canonical_at open_with opened parse_session_id
    session_id_text Hex.lower_hex Hex.decode Hex.digit_value Hex.encode Hex.digit seal_result
    seal_session seal_with blank_envelope
one_result = (refl, refl, refl, refl)

abbrev join_info : JoinInfo
join_info = record {
  collector_key = key;
  collector_mac = [];
  mcp_key = other_key;
  mcp_mac = [];
  via = "";
  joined_at = 5;
}

results_accepted_example :
    let posted = (loop crypto keys id (outside approve) (arriving ∷ []) session).1.posted in
    (after : LiveSession) × (post_all (join_live (new_live 100) join_info).1 posted 64 ≡ some after)
    × (after.results ≡ posted)
results_accepted_example =
    let one = one_result.0 in
    results_accepted crypto keys id (outside approve) (arriving ∷ []) session join_info 100 64 refl
      refl (omega arith)
