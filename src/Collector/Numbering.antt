-- ===== src/Collector/Numbering.antt =====
-- The sequence numbers of the results that internal/serve/run.go posts.
use aken.Base.{
  ℕ, ◌+◌, ◌%◌, ◌^◌, ◌≤◌, ◌≡◌, refl, Bool, true, false, Option, none, some, List, [], ◌∷◌, ◌++◌,
  Bytes, ltb, if◌then◌else◌, length, length-append, arith, Bool-cases, Option-cases, inl, inr,
}
use aken.Protocol.Caps.{max_session_seq, class_read}
use aken.Protocol.Jobs.{Job}
use aken.Protocol.Crypto.{Crypto}
use aken.Protocol.Api.{SessionId}
use aken.Protocol.Envelope.{
  Envelope, SessionKeys, Result, ok, err, seal_result, seal_session, seal_with, blank_envelope,
  canonical,
}
use aken.Relay.Live.Numbered.{Numbered, Numbered-append}
use aken.Collector.State.{
  PreparedJob, JobResult, AuditEvent, Session, Act, ◌>>=◌, change, Ends, Keeps, Keeps-write,
  Ends-then,
}
use aken.Collector.Send.{
  Outside, count_sent, event, store_result, write_mapping, post_sealed, send_numbered, send,
}
use aken.Collector.Rows.{Row}
use aken.Collector.Handle.{restored, widen_and_run, handle_jobs, loop}
use aken.Collector.Rules.{Quiet, loop-Keeps}
use aken.Collector.Running.{widen_and_run-Keeps, handle_jobs-Keeps}

-- The results posted so far are numbered from 1, and the next number is the one behind them.
abbrev pub InStep : Session → Type 0
InStep s =
    Numbered 1 s.posted
    × (length s.posted + 1 ≡ s.next_result)
    × (length s.posted ≤ max_session_seq)

abbrev pub Posted : Session → Type 0
Posted s = Numbered 1 s.posted × (length s.posted ≤ max_session_seq)

-- Before a result is posted under a number, and after it was posted but not counted.
abbrev Before : ℕ → Session → Type 0
Before seq s =
    Numbered 1 s.posted
    × (length s.posted + 1 ≡ s.next_result)
    × (s.next_result ≡ seq)
    × (seq ≤ max_session_seq)

abbrev After : Session → Type 0
After s =
    Numbered 1 s.posted × (length s.posted ≡ s.next_result) × (length s.posted ≤ max_session_seq)

seq-seal_result :
    (c : Crypto) (keys : SessionKeys) (id : SessionId) (seq class : ℕ) (text : Bytes) (e : Envelope)
    → seal_result c keys id seq class text ≡ ok e
    → e.seq ≡ seq
unfolding seal_result seal_session seal_with blank_envelope
seq-seal_result c keys id seq class text e h =
    elim (Option-cases (canonical (blank_envelope c id seq class text))) [
      | inl bad ↦ ground arith
      | inr (ad, form) ↦ ground arith
    ]

module _ (c : Crypto) (keys : SessionKeys) (id : SessionId) (out : Outside) where
  post_sealed-After :
      (seq : ℕ) (text : Bytes) (o : Result Envelope)
      → seal_result c keys id seq class_read text ≡ o
      → (s : Session) → Before seq s
      → Ends After Posted (post_sealed c keys id out o s)
  post_sealed-After seq text (err x) e s b = (b.0, omega arith)
  post_sealed-After seq text (ok env) e s b = go (out.post_fails s)
    where
      go :
          (f : Bool)
          → Ends {A = Unit {0}} After Posted
              (if f then (none, s) else (some tt, record s { posted = s.posted ++ env ∷ [] }))
      go true = (b.0, omega arith)
      go false =
          let numbered : env.seq ≡ 1 + length s.posted =
            omega (arith, seq-seal_result c keys id seq class_read text env e) in
          (
            Numbered-append 1 s.posted env b.0 numbered,
            omega (arith, length-append s.posted (env ∷ [])),
            omega (arith, length-append s.posted (env ∷ [])),
          )

  counted-InStep : (r : JobResult) (s : Session) → After s → InStep (count_sent r s)
  counted-InStep r s a =
      let small : (s.next_result + 1) % 2 ^ 64 ≡ s.next_result + 1 = omega arith in
      (a.0, omega (arith, small), omega arith)

  logged-After :
      (seq : ℕ) (p : PreparedJob) (r : JobResult)
      → Keeps After Posted (event c keys id out seq p "sent" (some r))
  logged-After seq p r =
      Keeps-write After Posted out.log_fails
        (λ s.
          let entry : AuditEvent = record {
            seq = seq;
            prepared = p;
            event = "sent";
            result = some r;
          } in
          record s { log = s.log ++ entry ∷ [] })
        (λ s a. (a.0, omega arith)) (λ s a. a)

  send_numbered-InStep :
      (seq : ℕ) (p : PreparedJob) (r : JobResult) (s : Session)
      → Before seq s
      → Ends InStep Posted (send_numbered c keys id out seq p r s)
  unfolding send_numbered
  send_numbered-InStep seq p r s b =
      let text = out.marshal r in
      let sealed = seal_result c keys id seq class_read text in
      let early : (s : Session) → Before seq s → Posted s = λ s b. (b.0, omega arith) in
      let count : Act (Unit {0}) = change (count_sent r) in
      let log = event c keys id out seq p "sent" (some r) in
      Ends-then (Before seq) InStep Posted (store_result c keys id out seq r s)
        (λ _. write_mapping c keys id out >>= λ _.
          post_sealed c keys id out sealed >>= λ _. log >>= λ _. count)
        (Keeps-write (Before seq) Posted out.result_fails
          (λ s. record s { results = s.results ++ (seq, r) ∷ [] }) early (λ s b. b) s b)
        (λ _ s b.
          Ends-then (Before seq) InStep Posted (write_mapping c keys id out s)
            (λ _. post_sealed c keys id out sealed >>= λ _. log >>= λ _. count)
            (Keeps-write (Before seq) Posted out.mapping_fails (λ s. s) early (λ s b. b) s b)
            (λ _ s b.
              Ends-then After InStep Posted (post_sealed c keys id out sealed s)
                (λ _. log >>= λ _. count) (post_sealed-After seq text sealed refl s b)
                (λ _ s a.
                  Ends-then After InStep Posted (log s) (λ _. count) (logged-After seq p r s a)
                    (λ _ s a. counted-InStep r s a))))

  send-InStep : (p : PreparedJob) (r : JobResult) → Keeps InStep Posted (send c keys id out p r)
  unfolding send
  send-InStep p r s i = elim (Bool-cases (ltb max_session_seq s.next_result)) [
    | inl spent ↦ rw spent (i.0, i.2)
    | inr left ↦ rw left (send_numbered-InStep s.next_result p r s (i.0, i.1, refl, ground arith))
  ]

  quiet : Quiet c keys id out InStep Posted
  quiet = record { weaken = λ s i. (i.0, i.2); logged = λ s log i. i; sends = send-InStep }

  restored-InStep :
      (paths : List Bytes) (r : Option (Unit {0}) × Session)
      → Ends InStep Posted r
      → Ends InStep Posted (restored paths r)
  restored-InStep paths (none, s) i = i
  restored-InStep paths (some u, s) i = i

  widened :
      (kind : Bool) (seq class : ℕ) (rows : List Row)
      → Keeps InStep Posted (widen_and_run c keys id out seq class kind rows)
  widened true =
      widen_and_run-Keeps c keys id out InStep Posted quiet (λ s reads i. i) (λ s scope i. i) true
        (λ s fresh i. i)
  widened false =
      widen_and_run-Keeps c keys id out InStep Posted quiet (λ s reads i. i) (λ s scope i. i) false
        (λ s fresh i. i)

  jobs-InStep :
      (seq class : ℕ) (jobs : List Job)
      → Keeps InStep Posted (handle_jobs c keys id out seq class jobs)
  jobs-InStep =
      handle_jobs-Keeps c keys id out InStep Posted quiet (λ s reads i. i) (λ s scope i. i)
        (widened false)
        (λ seq class rows s i.
          restored-InStep s.files.paths (widen_and_run c keys id out seq class true rows s)
            (widened true seq class rows s i))

  either_way : (r : Option (Unit {0}) × Session) → Ends InStep Posted r → Posted r.1
  either_way (none, s) h = h
  either_way (some u, s) h = (h.0, h.2)

  -- From a session that has posted nothing and numbers its results from 1: after any list of
  -- envelopes, however the loop ends and whatever is answered or fails, the results posted are
  -- numbered 1, 2, and so on with no gap and no repeat, and there are at most MaxSessionSeq.
  pub results-Numbered :
      (es : List Envelope) (s : Session)
      → s.posted ≡ []
      → s.next_result ≡ 1
      → let after = (loop c keys id out es s).1 in
        Numbered 1 after.posted × (length after.posted ≤ max_session_seq)
  results-Numbered es s p n =
      either_way (loop c keys id out es s)
        (loop-Keeps c keys id out InStep Posted quiet jobs-InStep (λ s n i. i) es s start)
    where
      start : InStep s
      start = rw p (tt, omega arith, omega arith)
