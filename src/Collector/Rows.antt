-- ===== src/Collector/Rows.antt =====
-- What a plan's jobs become before they run, in `handle` of internal/serve/run.go: a row each, with
-- its place in the scope; and the question to the person at the terminal. The level is 0 or 1.
use aken.Base.{
  is_empty, ℕ, Bool, true, false, ◌&&◌, not, Option, none, some, List, [], ◌∷◌, String, Bytes,
  string_eq, ◌==◌, bytes_eq, eqb, if◌then◌else◌, is_some,
}
use aken.Protocol.Jobs.{Job}
use aken.Protocol.Crypto.{Crypto}
use aken.Protocol.Api.{SessionId}
use aken.Protocol.Envelope.{SessionKeys}
use aken.Collector.State.{
  Message, outside_scope, restart_with_allow, cannot_add, PreparedJob, Session, Act, ◌>>=◌, ◌>>◌,
  pure, fail, read_state,
}
use aken.Collector.Send.{
  Outside, Grant, granted, refused, Widening, PrepareError, out_of_scope, invalid, Verdict, deny,
  approve, once, event,
}

-- A job of a plan after `prepare`: why it is invalid, or what it would add to the scope, if anything.
pub record Row : Type 0 where
  pub job : Job
  pub prepared : PreparedJob
  pub error : Option Message
  pub widening : Option Widening

abbrev pub is_valid : Row → Bool
is_valid r = not (is_some r.error)

abbrev pub row_jobs : List Row → List PreparedJob
row_jobs [] = []
row_jobs (r ∷ rows) = let rest = row_jobs rows in if is_valid r then r.prepared ∷ rest else rest

abbrev pub offer :
    PreparedJob → Option Widening → List (PreparedJob × Widening) → List (PreparedJob × Widening)
offer p none rest = rest
offer p (some w) rest = (p, w) ∷ rest

abbrev pub offers : List Row → List (PreparedJob × Widening)
offers [] = []
offers (r ∷ rows) = offer r.prepared r.widening (offers rows)

abbrev pub widenings_of : List (PreparedJob × Widening) → List Widening
widenings_of [] = []
widenings_of ((p, w) ∷ rows) = w ∷ widenings_of rows

abbrev pub error_of : Option PrepareError → Option Message
error_of none = none
error_of (some (out_of_scope dir)) = some (outside_scope dir)
error_of (some (invalid m)) = some m

-- A glob needs its directory; any other row can be served by the name it asked for.
abbrev pub offered : Job → List Bytes → Grant → Widening
offered job dirs paths =
    let whole : String → Widening = λ reason. record { dirs = dirs; paths = []; reason = reason } in
    if job.name == "search" then whole "a glob needs its directory" else elim paths [
      | granted ps ↦ record { dirs = dirs; paths = ps; reason = "a glob needs its directory" }
      | refused reason ↦ whole reason
    ]

abbrev pub is_approved : Verdict → Bool
is_approved deny = false
is_approved _ = true

abbrev pub is_once : Verdict → Bool
is_once once = true
is_once _ = false

module _ (c : Crypto) (keys : SessionKeys) (id : SessionId) (out : Outside) where
  abbrev pub in_scope : Session → Job → PreparedJob → Bytes → Grant → Row
  in_scope s job p dir (refused reason) = record {
    job = job;
    prepared = p;
    error = some (cannot_add dir reason);
    widening = none;
  }
  in_scope s job p dir (granted dirs) = record {
    job = job;
    prepared = record p { widening = true };
    error = none;
    widening = some (offered job dirs (out.path_grant s p.target));
  }

  -- Level 0 has no approval screen, so its scope stays as it is.
  abbrev pub classify : Session → Job → PreparedJob → Option PrepareError → Row
  classify s job p none = record { job = job; prepared = p; error = none; widening = none }
  classify s job p (some (invalid m)) = record {
    job = job;
    prepared = p;
    error = some m;
    widening = none;
  }
  classify s job p (some (out_of_scope dir)) =
      if eqb s.level 0
      then record {
        job = job;
        prepared = p;
        error = some (restart_with_allow dir);
        widening = none;
      }
      else in_scope s job p dir (out.scope_grant s dir)

  unfoldable pub prepare_row : ℕ → ℕ → Job → Act Row
  prepare_row seq class job = do
    found ← read_state (λ s. out.prepare s job class)
    event c keys id out seq found.0 "received" none
    read_state (λ s. classify s job found.0 found.1)

  unfoldable pub prepare_rows : ℕ → ℕ → List Job → Act (List Row)
  unfolding prepare_row
  prepare_rows seq class [] = pure []
  prepare_rows seq class (job ∷ jobs) = do
    row ← prepare_row seq class job
    rows ← prepare_rows seq class jobs
    pure (row ∷ rows)

  abbrev pub answered : Option Verdict → Act Verdict
  answered none = fail
  answered (some v) = pure v

  unfoldable pub answer : List Row → Act Verdict
  answer rows = do
    level ← read_state (λ s. s.level)
    if not (is_empty (row_jobs rows)) && eqb level 1
        then (do
          v ← read_state (λ s. out.ask s (row_jobs rows) (widenings_of (offers rows)))
          answered v)
        else pure (if eqb level 0 then approve else deny)

  -- The rows whose grant was made are prepared again, under the scope as it is now.
  abbrev pub again : Session → ℕ → Row → Row
  again s class row =
      if is_some row.widening
      then (let found = out.prepare s row.job class in
          record { job = row.job; prepared = found.0; error = error_of found.1; widening = none })
      else row

  abbrev pub again_all : Session → ℕ → List Row → List Row
  again_all s class [] = []
  again_all s class (row ∷ rows) = again s class row ∷ again_all s class rows
