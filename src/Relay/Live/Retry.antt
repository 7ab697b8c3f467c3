-- ===== src/Relay/Live/Retry.antt =====
-- Sending an envelope again, joining again, and a session that is gone (relay/session.go, and the
-- end of `join` in relay/handler.go).
use aken.Base.{
  ◌∙◌, ℕ, ◌≡◌, Bool, true, false, some, List, [], ◌∷◌, String, arith, bytes_eq, bytes_equal_iff,
  nat_eq, ==-refl,
}
use aken.Protocol.Api.{JoinInfo}
use aken.Protocol.Envelope.{Envelope}
use aken.Relay.Live.{LiveSession, answer, same_envelope, post, join_live, deliver}
use aken.Relay.Live.History.{Watched, Event, joins, posts, polls, step, run}

same_envelope_refl : (e : Envelope) → same_envelope e e ≡ true
same_envelope_refl e = ground (arith, ==-refl e.session_id, ==-refl e.payload)

same_envelope-eq : (e f : Envelope) → same_envelope e f ≡ true → e ≡ f
same_envelope-eq e f h =
    ground (arith, bytes_equal_iff e.session_id f.session_id, bytes_equal_iff e.payload f.payload)

-- An envelope whose post answered 202 is answered 202 again when it is posted next once more,
-- and the second post changes nothing.
pub post_again :
    (live live' : LiveSession) (e : Envelope) (results : Bool) (q : ℕ)
    → post live e results q ≡ (answer 202 "", live')
    → post live' e results q ≡ (answer 202 "", live')
unfolding post
post_again live live' e false q h = ground (arith, same_envelope_refl e)
post_again live live' e true q h = ground (arith, same_envelope_refl e)

join_live_kept :
    (live : LiveSession) (info j : JoinInfo)
    → live.joined ≡ some j
    → (join_live live info).1.joined ≡ some j
unfolding join_live
join_live_kept live info j h = ground arith

post_kept :
    (live : LiveSession) (e : Envelope) (r : Bool) (q : ℕ)
    → (post live e r q).1.joined ≡ live.joined
unfolding post
post_kept live e false q = ground arith
post_kept live e true q = ground arith

deliver_kept : (live : LiveSession) (kind : String) → (deliver live kind).1.joined ≡ live.joined
unfolding deliver
deliver_kept live kind = ground arith

-- A session that is joined keeps its join through any list of joins, posts and polls.
pub joined_once :
    (q : ℕ) (w : Watched) (j : JoinInfo) (evs : List Event)
    → w.live.joined ≡ some j
    → (run q w evs).live.joined ≡ some j
unfolding run
joined_once q w j [] h = h
joined_once q w j (ev ∷ evs) h = joined_once q (step q w ev) j evs (kept ev)
  where
    kept : (ev : Event) → (step q w ev).live.joined ≡ some j
    kept (joins info) = unfold step in join_live_kept w.live info j h
    kept (posts e r) = unfold step in (post_kept w.live e r q ∙ h)
    kept (polls kind) = unfold step in ground (arith, deliver_kept w.live kind)

-- A session that is gone answers every post, join and poll with nothing, and does not change.
pub gone_is_closed :
    (live : LiveSession) (e : Envelope) (r : Bool) (q : ℕ) (info : JoinInfo)
    → live.gone ≡ true
    → (post live e r q ≡ (answer 404 "not_found", live))
      × (join_live live info ≡ (answer 404 "not_found", live))
unfolding post join_live
gone_is_closed live e r q info h = ground arith
