-- ===== src/Collector/Widens.antt =====
-- The invariants that a grant and the end of a run keep (internal/serve/run.go).
use aken.Base.{
  is_empty, ℕ, Bool, true, false, ◌||◌, not, Option, none, some, List, [], ◌∷◌, Bytes, string_eq,
  if◌then◌else◌,
}
use aken.Protocol.Crypto.{Crypto}
use aken.Protocol.Api.{SessionId}
use aken.Protocol.Envelope.{SessionKeys}
use aken.Collector.State.{
  text, PreparedJob, JobResult, Session, ◌>>=◌, pure, change, Keeps, Keeps-if, Keeps-write,
  Ends-bind,
}
use aken.Collector.Send.{
  Outside, write_session, Widening, event, send, widen, widen_row, widen_rows, without_lines,
  add_to, fresh_paths, grant_of, target_of, widen_event,
}
use aken.Collector.Handle.{finish}
use aken.Collector.Rules.{Quiet, event-Keeps}

module _ (c : Crypto) (keys : SessionKeys) (id : SessionId) (out : Outside) (I E : Session → Type 0)
    (q : Quiet c keys id out I E) where
  pub finish-Keeps :
      (seq : ℕ) (p : PreparedJob) (r : JobResult) (o : Option Bool)
      → Keeps I E (finish c keys id out seq p r o)
  unfolding finish
  finish-Keeps seq p r none s i = q.weaken s i
  finish-Keeps seq p r (some true) s i = q.sends p r s i
  finish-Keeps seq p r (some false) s i =
      let dropped = without_lines p.job.id "denied" (text "dropped after review") in
      Ends-bind I E (event c keys id out seq p "dropped" (some dropped) s)
        (λ _. send c keys id out p dropped)
        (event-Keeps c keys id out I E q seq p "dropped" (some dropped) s i)
        (λ _. q.sends p dropped)

  module _ (saved : (s : Session) (scope : List Bytes) → I s → I (record s { scope = scope }))
      (kind : Bool)
      (adds : (s : Session) (fresh : List Bytes)
        → I s
        → I (record s { files = add_to kind s.files fresh })) where
    widen_row-Keeps :
        (seq : ℕ) (p : PreparedJob) (w : Widening)
        → Keeps I E (widen_row c keys id out seq kind p w)
    unfolding widen_row
    widen_row-Keeps seq p w s i =
        let fresh = fresh_paths (target_of kind s.files) [] (grant_of kind w) in
        let granted = record p { paths = fresh } in
        let log = event c keys id out seq granted (widen_event kind) none in
        Keeps-if I E (is_empty fresh) (pure false)
          (change (λ s. record s { files = add_to kind s.files fresh }) >>= λ _.
            log >>= λ _. pure true)
          (λ s2 j. j)
          (λ s2 j.
            let s3 = record s2 { files = add_to kind s2.files fresh } in
            Ends-bind I E (log s3) (λ _. pure true)
              (event-Keeps c keys id out I E q seq granted (widen_event kind) none s3
                (adds s2 fresh j))
              (λ _ s4 k. k))
          s i

    widen_rows-Keeps :
        (seq : ℕ) (rows : List (PreparedJob × Widening))
        → Keeps I E (widen_rows c keys id out seq kind rows)
    unfolding widen_rows
    widen_rows-Keeps seq [] s i = i
    widen_rows-Keeps seq ((p, w) ∷ rows) s i =
        Ends-bind I E (widen_row c keys id out seq kind p w s)
          (λ added. widen_rows c keys id out seq kind rows >>= λ more. pure (added || more))
          (widen_row-Keeps seq p w s i)
          (λ added s2 j.
            Ends-bind I E (widen_rows c keys id out seq kind rows s2) (λ more. pure (added || more))
              (widen_rows-Keeps seq rows s2 j) (λ more s3 k. k))

    pub widen-Keeps :
        (seq : ℕ) (rows : List (PreparedJob × Widening))
        → Keeps I E (widen c keys id out seq kind rows)
    unfolding widen
    widen-Keeps seq rows s i =
        Ends-bind I E (widen_rows c keys id out seq kind rows s)
          (λ added.
            if not added || kind
            then pure tt
            else change (λ s. record s { scope = s.files.allowed }) >>= λ _.
                write_session c keys id out)
          (widen_rows-Keeps seq rows s i)
          (λ added.
            Keeps-if I E (not added || kind) (pure tt)
              (change (λ s. record s { scope = s.files.allowed }) >>= λ _.
                write_session c keys id out)
              (λ s2 j. j)
              (λ s2 j.
                Keeps-write I E out.session_fails (λ s. s) q.weaken (λ s k. k)
                  (record s2 { scope = s2.files.allowed }) (saved s2 s2.files.allowed j)))
