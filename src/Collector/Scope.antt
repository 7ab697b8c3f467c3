-- ===== src/Collector/Scope.antt =====
-- What the person at the terminal decides (internal/serve/run.go): what is read, and under what scope.
use aken.Base.{
  is_empty, ℕ, ◌≡◌, refl, Bool, true, false, ◌&&◌, not, Option, none, some, List, [], Bytes,
  string_eq, eqb, if◌then◌else◌,
}
use aken.Protocol.Jobs.{Job}
use aken.Protocol.Crypto.{Crypto}
use aken.Protocol.Api.{SessionId}
use aken.Protocol.Envelope.{Envelope, SessionKeys}
use aken.Collector.State.{
  Files, PreparedJob, Session, Act, bind, ◌>>=◌, pure, read_state, Ends, Keeps, Ends-bind,
  Ends-same,
}
use aken.Collector.Send.{Outside, Widening, Verdict, deny, approve}
use aken.Collector.Rows.{Row, row_jobs, offers, widenings_of, prepare_rows, answer, answered}
use aken.Collector.Handle.{restored, widen_and_run, run_answered, handle_jobs, loop}
use aken.Collector.Rules.{Quiet, prepare_rows-Keeps, denied_rows-Keeps, loop-Keeps}
use aken.Collector.Running.{widen_and_run-Keeps, handle_jobs-Keeps}
use aken.Collector.Sending.{Parts-Quiet}

-- Nothing has been read, and the scope is the one at the start, at level 1.
abbrev pub Untouched : Files → Session → Type 0
Untouched files s = (s.level ≡ 1) × (s.reads ≡ []) × (s.files ≡ files)

module _ (c : Crypto) (keys : SessionKeys) (id : SessionId) (out : Outside) (files : Files)
    (never : (s : Session) (rows : List PreparedJob) (ws : List Widening) (v : Verdict)
      → out.ask s rows ws ≡ some v
      → v ≡ deny) where
  abbrev I : Session → Type 0
  I = Untouched files

  quiet : Quiet c keys id out I I
  quiet = Parts-Quiet c keys id out I I (record {
    weakens = λ s i. i;
    logs = λ s log i. i;
    stores = λ s results i. i;
    posts = λ s posted i. i;
    counts = λ s r i. i;
  })

  run_denied :
      (seq class : ℕ) (rows : List Row) (v : Verdict)
      → v ≡ deny
      → Keeps I I (run_answered c keys id out seq class rows v)
  unfolding run_answered
  run_denied seq class rows v e = rw e (denied_rows-Keeps c keys id out I I quiet seq rows)

  asked_denied :
      (seq class : ℕ) (rows : List Row) (o : Option Verdict)
      → ((v : Verdict) → o ≡ some v → v ≡ deny)
      → (s : Session) → I s
      → Ends I I (bind (answered c keys id out o s) (run_answered c keys id out seq class rows))
  asked_denied seq class rows none n s i = i
  asked_denied seq class rows (some v) n s i = run_denied seq class rows v (n v refl) s i

  either_denied :
      (seq class : ℕ) (rows : List Row) (b : Bool) (asked : Act Verdict) (d : Verdict) (s : Session)
      → Ends I I (bind (asked s) (run_answered c keys id out seq class rows))
      → d ≡ deny
      → I s
      → Ends I I
          (bind ((if b then asked else pure d) s) (run_answered c keys id out seq class rows))
  either_denied seq class rows true asked d s a e i = a
  either_denied seq class rows false asked d s a e i = run_denied seq class rows d e s i

  -- The question is asked only at level 1, and what is not asked is denied there.
  answer_denied :
      (seq class : ℕ) (rows : List Row)
      → (s : Session) → I s
      → Ends I I (bind (answer c keys id out rows s) (run_answered c keys id out seq class rows))
  unfolding answer
  answer_denied seq class rows s i =
      let ask = λ (s2 : Session). out.ask s2 (row_jobs rows) (widenings_of (offers rows)) in
      let not_zero : (if eqb s.level 0 then approve else deny) ≡ deny = rw (i.0) refl in
      either_denied seq class rows (not (is_empty (row_jobs rows)) && eqb s.level 1)
        (read_state ask >>= λ v. answered c keys id out v) (if eqb s.level 0 then approve else deny)
        s
        (asked_denied seq class rows (ask s) (never s (row_jobs rows) (widenings_of (offers rows)))
          s i)
        not_zero i

  denied_jobs-Keeps :
      (seq class : ℕ) (jobs : List Job) → Keeps I I (handle_jobs c keys id out seq class jobs)
  unfolding handle_jobs
  denied_jobs-Keeps seq class jobs s i =
      Ends-bind I I (prepare_rows c keys id out seq class jobs s)
        (λ rows. answer c keys id out rows >>= run_answered c keys id out seq class rows)
        (prepare_rows-Keeps c keys id out I I quiet seq class jobs s i)
        (λ rows s2 j. answer_denied seq class rows s2 j)

  -- From a session at level 1 that has run no job, if the person at the terminal never answers
  -- anything but `deny`: after any list of envelopes, however the loop ends, no job was run, and the
  -- scope is the one at the start.
  pub never_approved :
      (es : List Envelope) (s : Session)
      → s.level ≡ 1
      → s.reads ≡ []
      → s.files ≡ files
      → let after = (loop c keys id out es s).1 in (after.reads ≡ []) × (after.files ≡ files)
  never_approved es s l r f =
      let (level, reads, scope) =
        Ends-same I (loop c keys id out es s)
          (loop-Keeps c keys id out I I quiet denied_jobs-Keeps (λ s n i. i) es s (l, r, f)) in
      (reads, scope)

-- The single names are those at the start.
abbrev pub SamePaths : List Bytes → Session → Type 0
SamePaths paths s = s.files.paths ≡ paths

module _ (c : Crypto) (keys : SessionKeys) (id : SessionId) (out : Outside)
    (paths : List Bytes) where
  abbrev Same : Session → Type 0
  Same = SamePaths paths

  paths_quiet : Quiet c keys id out Same Same
  paths_quiet = Parts-Quiet c keys id out Same Same (record {
    weakens = λ s i. i;
    logs = λ s log i. i;
    stores = λ s results i. i;
    posts = λ s posted i. i;
    counts = λ s r i. i;
  })

  restored-Same :
      (s : Session) (r : Option (Unit {0}) × Session)
      → Same s
      → Ends Same Same (restored s.files.paths r)
  restored-Same s (none, s2) i = i
  restored-Same s (some u, s2) i = i

  paths_kept :
      (seq class : ℕ) (jobs : List Job) → Keeps Same Same (handle_jobs c keys id out seq class jobs)
  paths_kept =
      handle_jobs-Keeps c keys id out Same Same paths_quiet (λ s reads i. i) (λ s scope i. i)
        (λ seq class rows.
          widen_and_run-Keeps c keys id out Same Same paths_quiet (λ s reads i. i) (λ s scope i. i)
            false (λ s fresh i. i) seq class rows)
        (λ seq class rows s i.
          restored-Same s (widen_and_run c keys id out seq class true rows s) i)

  -- A grant for one job does not outlive it: after any list of envelopes, however the loop ends, and
  -- whatever was approved, the single names in the scope are those at the start.
  pub once_grants_end :
      (es : List Envelope) (s : Session)
      → s.files.paths ≡ paths
      → (loop c keys id out es s).1.files.paths ≡ paths
  once_grants_end es s i =
      Ends-same Same (loop c keys id out es s)
        (loop-Keeps c keys id out Same Same paths_quiet paths_kept (λ s n i. i) es s i)
