-- ===== src/Collector/Sending.antt =====
-- The invariants that the parts of `send` of internal/serve/run.go keep.
use aken.Base.{ℕ, some, List, [], ◌∷◌, ◌++◌, string_eq, ltb}
use aken.Protocol.Caps.{max_session_seq, class_read}
use aken.Protocol.Crypto.{Crypto}
use aken.Protocol.Api.{SessionId}
use aken.Protocol.Envelope.{Envelope, SessionKeys, Result, ok, err, seal_result}
use aken.Collector.State.{
  PreparedJob, JobResult, AuditEvent, Session, Act, ◌>>=◌, fail, change, Keeps, Keeps-if,
  Keeps-change, Keeps-bind, Keeps-write,
}
use aken.Collector.Send.{
  Outside, count_sent, send_numbered, post_sealed, store_result, write_mapping, event, send,
}
use aken.Collector.Rules.{Quiet}

module _ (c : Crypto) (keys : SessionKeys) (id : SessionId) (out : Outside)
    (I E : Session → Type 0) where
  -- The parts of `send`, one by one.
  pub record Parts : Type 0 where
    pub weakens : (s : Session) → I s → E s
    pub logs : (s : Session) (log : List AuditEvent) → I s → I (record s { log = log })
    pub stores :
        (s : Session) (results : List (ℕ × JobResult)) → I s → I (record s { results = results })
    pub posts : (s : Session) (posted : List Envelope) → I s → I (record s { posted = posted })
    pub counts : (s : Session) (r : JobResult) → I s → I (count_sent r s)

  send-Keeps : Parts → (p : PreparedJob) (r : JobResult) → Keeps I E (send c keys id out p r)
  unfolding send send_numbered
  send-Keeps k p r s i =
      Keeps-if I E (ltb max_session_seq s.next_result) fail
        (send_numbered c keys id out s.next_result p r) k.weakens (numbered s.next_result) s i
    where
      post-Keeps : (o : Result Envelope) → Keeps I E (post_sealed c keys id out o)
      post-Keeps (err e) s i = k.weakens s i
      post-Keeps (ok e) s i =
          Keeps-write I E out.post_fails (λ s. record s { posted = s.posted ++ e ∷ [] }) k.weakens
            (λ s i. k.posts s (s.posted ++ e ∷ []) i) s i

      logged : (seq : ℕ) → Keeps I E (event c keys id out seq p "sent" (some r))
      logged seq =
          Keeps-write I E out.log_fails
            (λ s.
              let entry : AuditEvent = record {
                seq = seq;
                prepared = p;
                event = "sent";
                result = some r;
              } in
              record s { log = s.log ++ entry ∷ [] })
            k.weakens
            (λ s i.
              let entry : AuditEvent = record {
                seq = seq;
                prepared = p;
                event = "sent";
                result = some r;
              } in
              k.logs s (s.log ++ entry ∷ []) i)

      numbered : (seq : ℕ) → Keeps I E (send_numbered c keys id out seq p r)
      numbered seq =
          let sealed = seal_result c keys id seq class_read (out.marshal r) in
          let count : Act (Unit {0}) = change (count_sent r) in
          let log = event c keys id out seq p "sent" (some r) in
          Keeps-bind I E (store_result c keys id out seq r)
            (λ _. write_mapping c keys id out >>= λ _.
              post_sealed c keys id out sealed >>= λ _. log >>= λ _. count)
            (Keeps-write I E out.result_fails
              (λ s. record s { results = s.results ++ (seq, r) ∷ [] }) k.weakens
              (λ s i. k.stores s (s.results ++ (seq, r) ∷ []) i))
            (λ _.
              Keeps-bind I E (write_mapping c keys id out)
                (λ _. post_sealed c keys id out sealed >>= λ _. log >>= λ _. count)
                (Keeps-write I E out.mapping_fails (λ s. s) k.weakens (λ s i. i))
                (λ _.
                  Keeps-bind I E (post_sealed c keys id out sealed) (λ _. log >>= λ _. count)
                    (post-Keeps sealed)
                    (λ _.
                      Keeps-bind I E log (λ _. count) (logged seq)
                        (λ _. Keeps-change I E (count_sent r) (λ s i. k.counts s r i)))))

  pub Parts-Quiet : Parts → Quiet c keys id out I E
  Parts-Quiet k = record { weaken = k.weakens; logged = k.logs; sends = send-Keeps k }
