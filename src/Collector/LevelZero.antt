-- ===== src/Collector/LevelZero.antt =====
-- Level 0 of internal/serve/run.go, where nobody is asked.
use aken.Base.{ℕ, ◌≡◌, refl, true, false, Option, none, some, List, [], ◌∷◌, string_eq}
use aken.Protocol.Jobs.{Job}
use aken.Protocol.Crypto.{Crypto}
use aken.Protocol.Api.{SessionId}
use aken.Protocol.Envelope.{Envelope, SessionKeys}
use aken.Collector.State.{
  Files, PreparedJob, Session, bind, ◌>>=◌, pure, read_state, Ends, Keeps, Ends-bind, Ends-same,
}
use aken.Collector.Send.{
  Outside, Verdict, deny, approve, once, PrepareError, out_of_scope, invalid, event,
}
use aken.Collector.Rows.{Row, offers, classify, prepare_row, prepare_rows, answer}
use aken.Collector.Handle.{run_answered, handle_jobs, loop}
use aken.Collector.Rules.{Quiet, event-Keeps, answer-Keeps, loop-Keeps}
use aken.Collector.Running.{run_rows-Keeps}
use aken.Collector.Sending.{Parts-Quiet}

abbrev pub SameScope : Files → Session → Type 0
SameScope files s = (s.level ≡ 0) × (s.files ≡ files)

module _ (c : Crypto) (keys : SessionKeys) (id : SessionId) (out : Outside) (files : Files) where
  abbrev I : Session → Type 0
  I = SameScope files

  quiet : Quiet c keys id out I I
  quiet = Parts-Quiet c keys id out I I (record {
    weakens = λ s i. i;
    logs = λ s log i. i;
    stores = λ s results i. i;
    posts = λ s posted i. i;
    counts = λ s r i. i;
  })

  -- No row offers to widen the scope.
  abbrev Settled : Option (List Row) × Session → Type 0
  Settled (none, s) = I s
  Settled (some rows, s) = (offers rows ≡ []) × I s

  -- The same with one more row, whose own offer is known.
  row-Settled :
      (row : Row) (r : Option (List Row) × Session)
      → row.widening ≡ none
      → Settled r
      → Settled (bind r (λ rows. pure (row ∷ rows)))
  row-Settled row (none, s) w h = h
  row-Settled row (some rows, s) w h = (rw w h.0, h.1)

  widening-classify :
      (s : Session) (job : Job) (p : PreparedJob) (o : Option PrepareError)
      → s.level ≡ 0
      → (classify c keys id out s job p o).widening ≡ none
  widening-classify s job p none l = refl
  widening-classify s job p (some (invalid m)) l = refl
  widening-classify s job p (some (out_of_scope dir)) l = rw l refl

  received :
      (seq class : ℕ) (job : Job) (jobs : List Job) (found : PreparedJob × Option PrepareError)
      (r : Option (Unit {0}) × Session)
      → ((s : Session) → I s → Settled (prepare_rows c keys id out seq class jobs s))
      → Ends I I r
      → Settled (
          bind
            (bind r (λ _. read_state (λ s. classify c keys id out s job found.0 found.1)))
            (λ row. prepare_rows c keys id out seq class jobs >>= λ rows. pure (row ∷ rows)))
  received seq class job jobs found (none, s) k h = h
  received seq class job jobs found (some u, s) k h =
      row-Settled (classify c keys id out s job found.0 found.1)
        (prepare_rows c keys id out seq class jobs s) (widening-classify s job found.0 found.1 h.0)
        (k s h)

  prepare-Settled :
      (seq class : ℕ) (jobs : List Job) (s : Session)
      → I s
      → Settled (prepare_rows c keys id out seq class jobs s)
  unfolding prepare_rows prepare_row
  prepare-Settled seq class [] s i = (refl, i)
  prepare-Settled seq class (job ∷ jobs) s i =
      let found = out.prepare s job class in
      received seq class job jobs found (event c keys id out seq found.0 "received" none s)
        (prepare-Settled seq class jobs)
        (event-Keeps c keys id out I I quiet seq found.0 "received" none s i)

  run_settled :
      (seq class : ℕ) (rows : List Row) (v : Verdict)
      → offers rows ≡ []
      → Keeps I I (run_answered c keys id out seq class rows v)
  unfolding run_answered
  run_settled seq class rows deny o s i =
      run_rows-Keeps c keys id out I I quiet (λ s reads i. i) (λ s scope i. i) seq false rows s i
  run_settled seq class rows approve o s i =
      rw o
        (run_rows-Keeps c keys id out I I quiet (λ s reads i. i) (λ s scope i. i) seq true rows s i)
  run_settled seq class rows once o s i =
      rw o
        (run_rows-Keeps c keys id out I I quiet (λ s reads i. i) (λ s scope i. i) seq true rows s i)

  jobs-Settled :
      (seq class : ℕ) (r : Option (List Row) × Session)
      → Settled r
      → Ends I I
          (bind r (λ rows. answer c keys id out rows >>= run_answered c keys id out seq class rows))
  jobs-Settled seq class (none, s) h = h
  jobs-Settled seq class (some rows, s) h =
      Ends-bind I I (answer c keys id out rows s) (run_answered c keys id out seq class rows)
        (answer-Keeps c keys id out I I quiet rows s h.1) (λ v. run_settled seq class rows v h.0)

  jobs-Keeps :
      (seq class : ℕ) (jobs : List Job) → Keeps I I (handle_jobs c keys id out seq class jobs)
  unfolding handle_jobs
  jobs-Keeps seq class jobs s i =
      jobs-Settled seq class (prepare_rows c keys id out seq class jobs s)
        (prepare-Settled seq class jobs s i)

  -- At level 0 the scope, directories and single names, stays the one at the start: after any list
  -- of envelopes, however the loop ends, and whatever the answers would be.
  pub level_zero_scope :
      (es : List Envelope) (s : Session)
      → s.level ≡ 0
      → s.files ≡ files
      → (loop c keys id out es s).1.files ≡ files
  level_zero_scope es s l f =
      (Ends-same I (loop c keys id out es s)
        (loop-Keeps c keys id out I I quiet jobs-Keeps (λ s n i. i) es s (l, f))).1
