-- ===== src/Collector/Reads.antt =====
-- The scope of each job that the session loop of internal/serve/run.go runs.
use aken.Base.{
  is_empty, ℕ, ◌≡◌, refl, inl, inr, Bool, true, false, not, Option, none, some, List, [], ◌∷◌,
  Bytes, string_eq, if◌then◌else◌, All, Bool-cases, bytes_eq, subst,
}
use aken.Protocol.Jobs.{Job}
use aken.Protocol.Crypto.{Crypto}
use aken.Protocol.Api.{SessionId}
use aken.Protocol.Envelope.{Envelope, SessionKeys}
use aken.Jobs.Params.{World}
use aken.Collector.State.{
  Files, PreparedJob, Session, bind, ◌>>=◌, pure, read_state, Ends, Keeps, Ends-then, Ends-same,
}
use aken.Collector.Send.{widen, Outside, Verdict, deny, approve, once, PrepareError, event}
use aken.Collector.Rows.{Row, offers, classify, prepare_row, prepare_rows, answer, again_all}
use aken.Collector.Handle.{
  restoring, run_rows, restored, widen_and_run, run_answered, handle_jobs, loop,
}
use aken.Collector.Rules.{Quiet, event-Keeps, denied_rows-Keeps, answer-Keeps, loop-Keeps}
use aken.Collector.Widens.{widen-Keeps}
use aken.Collector.Sending.{Parts-Quiet}
use aken.Collector.Preparing.{Careful, with_jobs, with_jobs-Careful}
use aken.Collector.Grown.{Permitted, Reads, Since, At, RowPrepared, Includes-add}
use aken.Collector.Ready.{
  run_all, Ends-Reads, quiet, At-Quiet, settled-RowReady, again_all-RowReady, classify-RowPrepared,
}

module _ (c : Crypto) (keys : SessionKeys) (id : SessionId) (out : Outside) where
  -- What the rows of a plan are prepared to, under one scope.
  abbrev RowsAt : Files → Option (List Row) × Session → Type 0
  RowsAt f (none, s) = Reads s
  RowsAt f (some rows, s) = All (RowPrepared f) rows × At f s

  one_more :
      (f : Files) (row : Row) (r : Option (List Row) × Session)
      → RowPrepared f row
      → RowsAt f r
      → RowsAt f (bind r (λ rows. pure (row ∷ rows)))
  one_more f row (none, s) k h = h
  one_more f row (some rows, s) k h = ((k, h.0), h.1)

  received :
      (f : Files) (seq class : ℕ) (job : Job) (jobs : List Job)
      (found : PreparedJob × Option PrepareError) (r : Option (Unit {0}) × Session)
      → (found.1 ≡ none → Permitted (found.0, f))
      → ((s : Session) → At f s → RowsAt f (prepare_rows c keys id out seq class jobs s))
      → Ends (At f) Reads r
      → RowsAt f (
          bind
            (bind r (λ _. read_state (λ s. classify c keys id out s job found.0 found.1)))
            (λ row. prepare_rows c keys id out seq class jobs >>= λ rows. pure (row ∷ rows)))
  received f seq class job jobs found (none, s) p k h = h
  received f seq class job jobs found (some u, s) p k h =
      one_more f (classify c keys id out s job found.0 found.1)
        (prepare_rows c keys id out seq class jobs s)
        (classify-RowPrepared c keys id out f s job found.0 found.1 p) (k s h)

  module _ (careful : Careful out) where
    prepare_rows-At :
        (f : Files) (seq class : ℕ) (jobs : List Job) (s : Session)
        → At f s
        → RowsAt f (prepare_rows c keys id out seq class jobs s)
    unfolding prepare_rows prepare_row
    prepare_rows-At f seq class [] s i = (tt, i)
    prepare_rows-At f seq class (job ∷ jobs) s i =
        let found = out.prepare s job class in
        received f seq class job jobs found (event c keys id out seq found.0 "received" none s)
          (λ e. subst (λ g. Permitted (found.0, g)) i.1 (careful s job class e))
          (prepare_rows-At f seq class jobs)
          (event-Keeps c keys id out (At f) Reads (At-Quiet c keys id out f) seq found.0 "received"
            none s i)

    widened-Reads :
        (f : Files) (seq class : ℕ) (kind : Bool) (rows : List Row) (s : Session)
        → All (RowPrepared f) rows
        → Since f s
        → Ends Reads Reads (widen_and_run c keys id out seq class kind rows s)
    unfolding widen_and_run
    widened-Reads f seq class kind rows s h i =
        Ends-then (Since f) Reads Reads (widen c keys id out seq kind (offers rows) s)
          (λ _. read_state (λ s. again_all c keys id out s class rows) >>= λ prepared.
            run_rows c keys id out seq true prepared)
          (widen-Keeps c keys id out (Since f) Reads (quiet c keys id out f) (λ s scope j. j) kind
            (λ s fresh j. (j.0, λ path e. Includes-add kind s.files fresh path (j.1 path e))) seq
            (offers rows) s i)
          (λ _ s2 j.
            run_all c keys id out s2.files seq (again_all c keys id out s2 class rows) s2
              (again_all-RowReady c keys id out careful f s2 class rows j.1 h) (j.0, λ path e. e))

    restored-Reads :
        (paths : List Bytes) (r : Option (Unit {0}) × Session)
        → Ends Reads Reads r
        → Ends Reads Reads (restored paths r)
    restored-Reads paths (none, s) h = h
    restored-Reads paths (some u, s) h = h

    approved-Reads :
        (f : Files) (seq class : ℕ) (one : Bool) (rows : List Row) (s : Session)
        → All (RowPrepared f) rows
        → Since f s
        → Ends Reads Reads (
            (if not (is_empty (offers rows))
                then restoring one (widen_and_run c keys id out seq class one rows)
                else run_rows c keys id out seq true rows)
              s)
    approved-Reads f seq class one rows s h i = elim (Bool-cases (is_empty (offers rows))) [
      | inl e ↦
          rw e (run_all c keys id out f seq rows s (settled-RowReady c keys id out f rows e h) i)
      | inr e ↦ rw e (ended one)
    ]
      where
        ended :
            (b : Bool)
            → Ends Reads Reads (restoring b (widen_and_run c keys id out seq class b rows) s)
        ended true =
            restored-Reads s.files.paths (widen_and_run c keys id out seq class true rows s)
              (widened-Reads f seq class true rows s h i)
        ended false = widened-Reads f seq class false rows s h i

    answered-Reads :
        (f : Files) (seq class : ℕ) (rows : List Row) (v : Verdict) (s : Session)
        → All (RowPrepared f) rows
        → Since f s
        → Ends Reads Reads (run_answered c keys id out seq class rows v s)
    unfolding run_answered
    answered-Reads f seq class rows deny s h i =
        Ends-Reads c keys id out f (run_rows c keys id out seq false rows s)
          (denied_rows-Keeps c keys id out (Since f) Reads (quiet c keys id out f) seq rows s i)
    answered-Reads f seq class rows approve s h i = approved-Reads f seq class false rows s h i
    answered-Reads f seq class rows once s h i = approved-Reads f seq class true rows s h i

    rows-Reads :
        (f : Files) (seq class : ℕ) (r : Option (List Row) × Session)
        → RowsAt f r
        → Ends Reads Reads (
            bind r
              (λ rows. answer c keys id out rows >>= run_answered c keys id out seq class rows))
    rows-Reads f seq class (none, s) h = h
    rows-Reads f seq class (some rows, s) h =
        Ends-then (Since f) Reads Reads (answer c keys id out rows s)
          (run_answered c keys id out seq class rows)
          (answer-Keeps c keys id out (Since f) Reads (quiet c keys id out f) rows s
            (h.1.0, λ path e. rw h.1.1 e))
          (λ v s2 j. answered-Reads f seq class rows v s2 h.0 j)

    jobs-Reads :
        (seq class : ℕ) (jobs : List Job)
        → Keeps Reads Reads (handle_jobs c keys id out seq class jobs)
    unfolding handle_jobs
    jobs-Reads seq class jobs s i =
        rows-Reads s.files seq class (prepare_rows c keys id out seq class jobs s)
          (prepare_rows-At s.files seq class jobs s (i, refl))

    Reads-Quiet : Quiet c keys id out Reads Reads
    Reads-Quiet = Parts-Quiet c keys id out Reads Reads (record {
      weakens = λ s i. i;
      logs = λ s log i. i;
      stores = λ s results i. i;
      posts = λ s posted i. i;
      counts = λ s r i. i;
    })

    loop-Reads : (es : List Envelope) (s : Session) → Reads s → Reads (loop c keys id out es s).1
    loop-Reads es s i =
        Ends-same Reads (loop c keys id out es s)
          (loop-Keeps c keys id out Reads Reads Reads-Quiet jobs-Reads (λ s n i. i) es s i)

-- With `prepare` of jobs.go, from a session that has run no job, whatever the file system gives and
-- whatever is answered: after any list of envelopes, however the loop ends, each job that was run
-- had only paths that the scope permitted at the moment it ran, grants and their ends included.
pub reads_permitted :
    (c : Crypto) (keys : SessionKeys) (id : SessionId) (out : Outside) (w : Session → World)
    (now : Session → ℕ) (es : List Envelope) (s : Session)
    → s.reads ≡ []
    → Reads (loop c keys id (with_jobs w now out) es s).1
reads_permitted c keys id out w now es s h =
    loop-Reads c keys id (with_jobs w now out) (with_jobs-Careful w now out) es s (rw h tt)
