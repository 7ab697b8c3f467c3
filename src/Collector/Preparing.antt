-- ===== src/Collector/Preparing.antt =====
-- `prepare` of internal/serve/jobs.go as the session loop of internal/serve/run.go calls it.
use aken.Base.{ℕ, ◌≡◌, refl, true, false, arith, Option, none, some, All}
use aken.Protocol.Jobs.{Job}
use aken.Source.Scope.{permits}
use aken.Jobs.Resolve.{JobError, outside_scope, job_error, failed}
use aken.Jobs.Params.{Prepared, World, Outcome, ready, stopped}
use aken.Jobs.Prepare.{prepare}
use aken.Jobs.Prepare.Permitted.{prepare-IsPrepared}
use aken.Collector.State.{text, PreparedJob, Session}
use aken.Collector.Send.{Outside, PrepareError, out_of_scope, invalid}

-- The parts of a prepared job that the loop reads.
abbrev pub loop_job : Prepared → PreparedJob
loop_job p = record {
  job = p.job;
  paths = p.paths;
  target = p.target;
  widening = false;
  cursor = p.journal.cursor;
}

-- The error as `handle` tells it apart, with errors.As of a scopeError.
abbrev pub loop_error : JobError → PrepareError
loop_error (outside_scope directory scope) = out_of_scope directory
loop_error (job_error what) = invalid (text what)
loop_error (failed what e) = invalid (text what)

abbrev pub loop_outcome : Outcome → PreparedJob × Option PrepareError
loop_outcome (ready p) = (loop_job p, none)
loop_outcome (stopped p e) = (loop_job p, some (loop_error e))

-- The loop's `prepare` is that of jobs.go, at the scope of the session; `now` is time.Now, and `w` what the
-- file system and the rest give then.
unfoldable pub with_jobs : (Session → World) → (Session → ℕ) → Outside → Outside
with_jobs w now out = record out {
  prepare = λ s job class. loop_outcome (prepare (w s) s.files (now s) job class);
}

-- Where `prepare` gives no error, the scope of the session permits what the job will read.
abbrev pub Careful : Outside → Type 0
Careful out =
    (s : Session) (job : Job) (class : ℕ)
    → (out.prepare s job class).1 ≡ none
    → All (λ path. permits s.files path ≡ true) (out.prepare s job class).0.paths

pub with_jobs-Careful :
    (w : Session → World) (now : Session → ℕ) (out : Outside) → Careful (with_jobs w now out)
unfolding with_jobs
with_jobs-Careful w now out s job class h =
    ready_only (prepare (w s) s.files (now s) job class)
      (λ p e. (prepare-IsPrepared (w s) s.files (now s) job class p e).in_scope) h
  where
    ready_only :
        (o : Outcome)
        → ((p : Prepared) → o ≡ ready p → All (λ path. permits s.files path ≡ true) p.paths)
        → (loop_outcome o).1 ≡ none
        → All (λ path. permits s.files path ≡ true) (loop_outcome o).0.paths
    ready_only (ready p) k h = k p refl
    ready_only (stopped p e) k h = ground arith
