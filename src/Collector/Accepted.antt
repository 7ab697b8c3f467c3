-- ===== src/Collector/Accepted.antt =====
-- The results that a collector posts (internal/serve/run.go) at the relay's queue (relay/session.go).
use aken.Base.{
  ℕ, suc, ◌+◌, ◌%◌, ◌^◌, ◌≤◌, ◌<◌, ◌≡◌, refl, sym, ap, ◌∙◌, true, false, Option, none, some, List,
  [], ◌∷◌, ◌++◌, arith, eqb, bytes_eq, nat_eq, if◌then◌else◌, is_some, length, length-append,
  some_inj,
}
use mathlib.Core.List.{append-nil, append_assoc}
use aken.Protocol.Crypto.{Crypto}
use aken.Protocol.Api.{SessionId, JoinInfo}
use aken.Protocol.Envelope.{Envelope, SessionKeys}
use aken.Relay.Live.{join_live, LiveSession, new_live, answer, is_repeat, notify, post}
use aken.Relay.Live.Numbered.{Numbered}
use aken.Collector.State.{Session}
use aken.Collector.Send.{Outside}
use aken.Collector.Handle.{loop}
use aken.Collector.Numbering.{results-Numbered}

-- Posts a list of results one after another; none where one is not answered 202.
unfoldable pub post_all : LiveSession → List Envelope → ℕ → Option LiveSession
post_all live [] q = some live
post_all live (e ∷ es) q =
    let (a, after) = post live e true q in
    let rest = post_all after es q in if eqb a.status 202 then rest else none

-- A joined session whose last result has a lower number than the next.
abbrev Ready : LiveSession → Type 0
Ready live =
    (live.gone ≡ false)
    × (is_some live.joined ≡ true)
    × ((l : Envelope) → live.last_result ≡ some l → l.seq < live.next_result)

-- The session after a result that is taken.
abbrev taken : LiveSession → Envelope → LiveSession
taken live e = record live {
  results = live.results ++ e ∷ [];
  next_result = (live.next_result + 1) % 2 ^ 64;
  last_result = some e;
  changed = live.changed + 1;
}

not_repeat :
    (e : Envelope) (o : Option Envelope) (n : ℕ)
    → e.seq ≡ n
    → ((l : Envelope) → o ≡ some l → l.seq < n)
    → is_repeat e o ≡ false
not_repeat e none n s h = refl
not_repeat e (some l) n s h = let low = h l refl in ground arith

post-taken :
    (live : LiveSession) (e : Envelope) (q : ℕ)
    → Ready live
    → e.seq ≡ live.next_result
    → length live.results < q
    → post live e true q ≡ (answer 202 "", taken live e)
unfolding post notify
post-taken live e q (g, j, l) s f =
    ground (arith, not_repeat e live.last_result live.next_result s l)

taken_low :
    (live : LiveSession) (e : Envelope)
    → e.seq ≡ live.next_result
    → live.next_result + 1 < 2 ^ 64
    → (l : Envelope) → some e ≡ some l
    → l.seq < (live.next_result + 1) % 2 ^ 64
taken_low live e s b l h = let same = some_inj h in let wrap = ap Envelope.seq same in omega arith

post_all-taken :
    (live : LiveSession) (es : List Envelope) (q : ℕ)
    → Ready live
    → Numbered live.next_result es
    → length live.results + length es ≤ q
    → live.next_result + length es < 2 ^ 64
    → (after : LiveSession) × (post_all live es q ≡ some after)
      × (after.results ≡ live.results ++ es)
unfolding post_all
post_all-taken live [] q r n f b = (live, refl, sym (append-nil live.results))
post_all-taken live (e ∷ es) q r n f b =
    let one = post-taken live e q r n.0 (omega arith) in
    let wrap : (live.next_result + 1) % 2 ^ 64 ≡ suc live.next_result = omega arith in
    let full = length-append live.results (e ∷ []) in
    let (after, run, whole) =
      post_all-taken (taken live e) es q (r.0, r.1, taken_low live e n.0 (omega arith))
        (rw wrap n.1) (omega arith) (omega arith) in
    (after, rw one run, whole ∙ append_assoc live.results (e ∷ []) es)

module _ (c : Crypto) (keys : SessionKeys) (id : SessionId) (out : Outside) where
  -- From a session of the collector that has posted nothing and numbers its results from 1, and a
  -- session of the relay that it has just joined: whatever envelopes the loop handles and however
  -- it ends, if its posted results are no more than the queue limit, the relay answers each of
  -- them 202 in that order, and its result queue then holds exactly them in that order.
  pub results_accepted :
      (es : List Envelope) (s : Session) (info : JoinInfo) (expires_at q : ℕ)
      → s.posted ≡ []
      → s.next_result ≡ 1
      → length (loop c keys id out es s).1.posted ≤ q
      → (after : LiveSession) × (post_all
            (join_live (new_live expires_at) info).1
            (loop c keys id out es s).1.posted
            q
          ≡ some after)
        × (after.results ≡ (loop c keys id out es s).1.posted)
  unfolding join_live notify
  results_accepted es s info expires_at q p n room =
      let (numbered, few) = results-Numbered c keys id out es s p n in
      post_all-taken (join_live (new_live expires_at) info).1 (loop c keys id out es s).1.posted q
        (refl, refl, λ l h. grind arith) numbered (omega arith) (omega arith)
