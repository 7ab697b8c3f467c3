-- ===== src/Collector/Ready.antt =====
-- The rows of internal/serve/run.go that may run, and the scope of their paths.
use aken.Base.{
  is_empty, ℕ, ◌≡◌, refl, Bool, true, false, ◌&&◌, Option, none, some, List, [], ◌∷◌, ◌++◌, ltb,
  eqb, string_eq, if◌then◌else◌, All, All-append, arith, bytes_eq,
}
use aken.Protocol.Jobs.{Job}
use aken.Protocol.Crypto.{Crypto}
use aken.Protocol.Api.{SessionId}
use aken.Protocol.Envelope.{SessionKeys}
use aken.Collector.State.{
  restart_with_allow, Files, Message, PreparedJob, Session, ◌>>=◌, change, read_state, Ends, Keeps,
  Ends-bind,
}
use aken.Collector.Send.{
  Widening, Outside, PrepareError, out_of_scope, invalid, event, Grant, granted, refused,
}
use aken.Collector.Rows.{Row, offers, classify, in_scope, again, again_all, error_of}
use aken.Collector.Handle.{finish, result_of, run_job, run_row, run_rows}
use aken.Collector.Rules.{Quiet, event-Keeps, reject-Keeps}
use aken.Collector.Widens.{finish-Keeps}
use aken.Collector.Sending.{Parts-Quiet}
use aken.Collector.Preparing.{Careful}
use aken.Collector.Grown.{
  Includes, Permitted, Reads, Since, At, RowReady, RowPrepared, impossible, still,
}

module _ (c : Crypto) (keys : SessionKeys) (id : SessionId) (out : Outside) where
  pub quiet : (f : Files) → Quiet c keys id out (Since f) Reads
  quiet f = Parts-Quiet c keys id out (Since f) Reads (record {
    weakens = λ s i. i.0;
    logs = λ s log i. i;
    stores = λ s results i. i;
    posts = λ s posted i. i;
    counts = λ s r i. i;
  })

  pub At-Quiet : (f : Files) → Quiet c keys id out (At f) Reads
  At-Quiet f = Parts-Quiet c keys id out (At f) Reads (record {
    weakens = λ s i. i.0;
    logs = λ s log i. i;
    stores = λ s results i. i;
    posts = λ s posted i. i;
    counts = λ s r i. i;
  })

  run_ready :
      (f : Files) (seq : ℕ) (p : PreparedJob)
      → Permitted (p, f)
      → Keeps (Since f) Reads (run_job c keys id out seq p)
  unfolding run_job
  run_ready f seq p h s i =
      let result = λ (s : Session).
        let x = out.execute s p in result_of c keys id out p x (out.redact s x.lines) in
      let review = λ (r : _) (s : Session).
        if eqb s.level 1 && ltb 0 r.flags then out.review s p r else some true in
      Ends-bind (Since f) Reads (event c keys id out seq p "approved" none s)
        (λ _. change (λ s. record s { reads = s.reads ++ (p, s.files) ∷ [] }) >>= λ _.
          read_state result >>= λ r.
          read_state (review r) >>= λ decision. finish c keys id out seq p r decision)
        (event-Keeps c keys id out (Since f) Reads (quiet f) seq p "approved" none s i)
        (λ _ s2 j.
          let s3 = record s2 { reads = s2.reads ++ (p, s2.files) ∷ [] } in
          finish-Keeps c keys id out (Since f) Reads (quiet f) seq p (result s3)
            (review (result s3) s3) s3
            (
              All-append Permitted s2.reads ((p, s2.files) ∷ []) j.0
                  (still f p.paths s2.files j.1 h, tt),
              j.1,
            ))

  run_row-Reads :
      (f : Files) (seq : ℕ) (row : Row)
      → RowReady f row
      → Keeps (Since f) Reads (run_row c keys id out seq true row.prepared row.error)
  run_row-Reads f seq row h = go row.prepared row.error h
    where
      go :
          (p : PreparedJob) (o : Option Message)
          → (o ≡ none → Permitted (p, f))
          → Keeps (Since f) Reads (run_row c keys id out seq true p o)
      go p (some m) k = reject-Keeps c keys id out (Since f) Reads (quiet f) seq p m
      go p none k = run_ready f seq p (k refl)

  run_rows-Reads :
      (f : Files) (seq : ℕ) (rows : List Row)
      → All (RowReady f) rows
      → Keeps (Since f) Reads (run_rows c keys id out seq true rows)
  unfolding run_rows
  run_rows-Reads f seq [] h s i = i
  run_rows-Reads f seq (row ∷ rows) h s i =
      Ends-bind (Since f) Reads (run_row c keys id out seq true row.prepared row.error s)
        (λ _. run_rows c keys id out seq true rows) (run_row-Reads f seq row h.0 s i)
        (λ _. run_rows-Reads f seq rows h.1)

  pub Ends-Reads :
      (f : Files) (r : Option (Unit {0}) × Session) → Ends (Since f) Reads r → Ends Reads Reads r
  Ends-Reads f (none, s) h = h
  Ends-Reads f (some u, s) h = h.0

  pub run_all :
      (f : Files) (seq : ℕ) (rows : List Row) (s : Session)
      → All (RowReady f) rows
      → Since f s
      → Ends Reads Reads (run_rows c keys id out seq true rows s)
  run_all f seq rows s h i =
      Ends-Reads f (run_rows c keys id out seq true rows s) (run_rows-Reads f seq rows h s i)

  pub classify-RowPrepared :
      (f : Files) (s : Session) (job : Job) (p : PreparedJob) (o : Option PrepareError)
      → (o ≡ none → Permitted (p, f))
      → RowPrepared f (classify c keys id out s job p o)
  classify-RowPrepared f s job p none k = λ w e. k refl
  classify-RowPrepared f s job p (some (invalid m)) k = λ w e. ground arith
  classify-RowPrepared f s job p (some (out_of_scope dir)) k = level (eqb s.level 0)
    where
      placed : (g : Grant) → RowPrepared f (in_scope c keys id out s job p dir g)
      placed (refused reason) = λ w e. ground arith
      placed (granted dirs) = λ w e. ground arith

      level :
          (b : Bool)
          → RowPrepared f (
              if b
              then record {
                job = job;
                prepared = p;
                error = some (restart_with_allow dir);
                widening = none;
              }
              else in_scope c keys id out s job p dir (out.scope_grant s dir))
      level true = λ w e. ground arith
      level false = placed (out.scope_grant s dir)

  -- Where no row offers to widen the scope, each row runs in the scope that it was prepared in.
  pub settled-RowReady :
      (f : Files) (rows : List Row)
      → is_empty (offers rows) ≡ true
      → All (RowPrepared f) rows
      → All (RowReady f) rows
  settled-RowReady f [] h a = tt
  settled-RowReady f (row ∷ rows) h a = go row.widening refl (settled-RowReady f rows)
    where
      go :
          (w : Option Widening)
          → row.widening ≡ w
          → (is_empty (offers rows) ≡ true → All (RowPrepared f) rows → All (RowReady f) rows)
          → RowReady f row × All (RowReady f) rows
      go none e k = (a.0 e, k (rw e at h) a.1)
      go (some w) e k = absurd (impossible (rw e at h))

  -- A row that widened the scope is prepared again in it, and any other ran in a part of it.
  again-RowReady :
      (careful : Careful out) (f : Files) (s : Session) (class : ℕ) (row : Row)
      → Includes f s.files
      → RowPrepared f row
      → RowReady s.files (again c keys id out s class row)
  again-RowReady careful f s class row n h = go row.widening refl
    where
      no_error :
          (p : PreparedJob) (o : Option PrepareError)
          → (o ≡ none → Permitted (p, s.files))
          → error_of o ≡ none
          → Permitted (p, s.files)
      no_error p none k e = k refl
      no_error p (some (out_of_scope dir)) k e = ground arith
      no_error p (some (invalid m)) k e = ground arith

      go :
          (w : Option Widening)
          → row.widening ≡ w
          → RowReady s.files (again c keys id out s class row)
      go none e = rw e (λ t. still f row.prepared.paths s.files n (h e t))
      go (some w) e =
          let found = out.prepare s row.job class in
          rw e (no_error found.0 found.1 (careful s row.job class))

  pub again_all-RowReady :
      (careful : Careful out) (f : Files) (s : Session) (class : ℕ) (rows : List Row)
      → Includes f s.files
      → All (RowPrepared f) rows
      → All (RowReady s.files) (again_all c keys id out s class rows)
  again_all-RowReady careful f s class [] n h = tt
  again_all-RowReady careful f s class (row ∷ rows) n h =
      (again-RowReady careful f s class row n h.0, again_all-RowReady careful f s class rows n h.1)
