-- ===== src/Relay/Live/History.antt =====
-- What a live session of relay/session.go delivers, over any history of joins, posts and polls.
use aken.Base.{
  ℕ, ◌+◌, ◌≤◌, ◌<◌, ◌⊎◌, ◌≡◌, refl, ap, subst, Bool, true, false, Option, none, some, List, [], ◌∷◌,
  ◌++◌, String, arith, ◌==◌, string_eq, nat_eq, if◌then◌else◌, Bool-cases, inl, inr, length,
  length-append, All,
}
use mathlib.Core.List.{append-nil, append_assoc}
use aken.Protocol.Api.{JoinInfo}
use aken.Protocol.Caps.{max_session_seq}
use aken.Protocol.Envelope.{Envelope}
use aken.Relay.Live.{
  LiveSession, Channel, Delivery, messages, channel, with_channel, accept, new_live, post,
  join_live, deliver, notify, join_delivery,
}
use aken.Relay.Live.Numbered.{Numbered, Numbered-append}

pub data Event : Type 0 where
  joins : JoinInfo → Event
  posts : Envelope → Bool → Event
  polls : String → Event

-- A session with what its polls have delivered so far, of jobs and of results.
pub record Watched : Type 0 where
  pub live : LiveSession
  pub jobs_out : List Envelope
  pub results_out : List Envelope

abbrev pub envelopes : Delivery → List Envelope
envelopes (messages es) = es
envelopes _ = []

-- The handler passes on envelopes that `Validate` has accepted, so their numbers are in range.
abbrev pub InRange : Event → Type 0
InRange (posts e results) = e.seq ≤ max_session_seq
InRange _ = Unit

unfoldable pub observe : Watched → String → Delivery × LiveSession → Watched
observe w kind (d, live) =
    if kind == "results"
    then record { live = live; jobs_out = w.jobs_out; results_out = w.results_out ++ envelopes d }
    else record { live = live; jobs_out = w.jobs_out ++ envelopes d; results_out = w.results_out }

unfoldable pub step : ℕ → Watched → Event → Watched
unfolding observe
step max_queue w (joins info) = record w { live = (join_live w.live info).1 }
step max_queue w (posts e results) = record w { live = (post w.live e results max_queue).1 }
step max_queue w (polls kind) = observe w kind (deliver w.live kind)

unfoldable pub run : ℕ → Watched → List Event → Watched
run max_queue w [] = w
run max_queue w (ev ∷ evs) = run max_queue (step max_queue w ev) evs

abbrev pub start : ℕ → Watched
start expires_at = record { live = new_live expires_at; jobs_out = []; results_out = [] }

-- One direction: what was delivered and what still waits are numbered 1, 2, 3, … up to the next
-- number, and no more wait than the queue holds.
pub record InOrder (max_queue : ℕ) (out : List Envelope) (c : Channel) : Type 0 where
  pub numbered : Numbered 1 (out ++ c.pending)
  pub counted : c.next ≡ 1 + length (out ++ c.pending)
  pub ranged : c.next ≤ max_session_seq + 1
  pub bounded : length c.pending ≤ max_queue

pub record BothInOrder (max_queue : ℕ) (w : Watched) : Type 0 where
  pub of_jobs : InOrder max_queue w.jobs_out (channel w.live false)
  pub of_results : InOrder max_queue w.results_out (channel w.live true)

module _ (q : ℕ) where
  accept-InOrder :
      (out : List Envelope) (c : Channel) (e : Envelope)
      → e.seq ≤ max_session_seq
      → e.seq ≡ c.next
      → length c.pending < q
      → InOrder q out c
      → InOrder q out (accept c e)
  accept-InOrder out c e r s l v =
      let grown = append_assoc out c.pending (e ∷ []) in
      let more = Numbered-append 1 (out ++ c.pending) e v.numbered (omega (arith, v.counted)) in
      let counted = v.counted in
      record {
        numbered = subst (Numbered 1) grown more;
        counted = omega (arith, ap length grown, length-append (out ++ c.pending) (e ∷ []));
        ranged = omega arith;
        bounded = omega (arith, length-append c.pending (e ∷ []));
      }

  take-InOrder :
      (out : List Envelope) (c : Channel)
      → InOrder q out c
      → InOrder q (out ++ c.pending) (record c { pending = [] })
  take-InOrder out c v = record {
    numbered = rw append-nil v.numbered;
    counted = rw append-nil v.counted;
    ranged = v.ranged;
    bounded = omega arith;
  }

  abbrev Posted : LiveSession → Envelope → Bool → Bool → Type 0
  Posted live e results r =
      (channel (post live e results q).1 r ≡ channel live r)
      ⊎ ((e.seq ≡ (channel live r).next)
          × (length (channel live r).pending < q)
          × (channel (post live e results q).1 r ≡ accept (channel live r) e))

  -- A post changes a direction only by accepting the next envelope of it.
  post-Posted : (live : LiveSession) (e : Envelope) (results r : Bool) → Posted live e results r
  unfolding post
  post-Posted live e false false = ground arith
  post-Posted live e false true = ground arith
  post-Posted live e true false = ground arith
  post-Posted live e true true = ground arith

  post-InOrder :
      (out : List Envelope) (live : LiveSession) (e : Envelope) (results r : Bool)
      → e.seq ≤ max_session_seq
      → InOrder q out (channel live r)
      → InOrder q out (channel (post live e results q).1 r)
  post-InOrder out live e results r h v = elim (post-Posted live e results r) [
    | inl same ↦ rw same v
    | inr (s, l, p) ↦ rw p (accept-InOrder out (channel live r) e h s l v)
  ]

  join_channel :
      (live : LiveSession) (info : JoinInfo) (r : Bool)
      → channel (join_live live info).1 r ≡ channel live r
  unfolding join_live
  join_channel live info false = ground arith
  join_channel live info true = ground arith

  abbrev emptied : LiveSession → Bool → LiveSession
  emptied live r = notify (with_channel live r (record (channel live r) { pending = [] }))

  abbrev Delivers : LiveSession → Bool → Delivery × LiveSession → Type 0
  Delivers live r result =
      ((envelopes result.0 ≡ []) × (result.1 ≡ live))
      ⊎ ((envelopes result.0 ≡ (channel live r).pending) × (result.1 ≡ emptied live r))

  -- A poll delivers nothing and changes nothing, or delivers all that waits in its direction.
  deliver-Delivers :
      (live : LiveSession) (kind : String) → Delivers live (kind == "results") (deliver live kind)
  unfolding deliver
  deliver-Delivers live kind = elim (Bool-cases (kind == "join")) [
    | inl join ↦ rw join (joins_only live.joined)
    | inr other ↦ rw other (ground arith)
  ]
    where
      joins_only : (o : Option JoinInfo) → Delivers live (kind == "results") (join_delivery o, live)
      joins_only none = inl (refl, refl)
      joins_only (some info) = inl (refl, refl)

  keep-InOrder : (out : List Envelope) (c : Channel) → InOrder q out c → InOrder q (out ++ []) c
  keep-InOrder out c v = rw append-nil v

  observe-BothInOrder :
      (w : Watched) (kind : String) (result : Delivery × LiveSession)
      → Delivers w.live (kind == "results") result
      → BothInOrder q w
      → BothInOrder q (observe w kind result)
  unfolding observe notify
  observe-BothInOrder w kind (d, live) c v = elim (Bool-cases (kind == "results")) [
    | inl r ↦ rw r (of_result (rw r at c))
    | inr r ↦ rw r (of_job (rw r at c))
  ]
    where
      of_result :
          Delivers w.live true (d, live)
          → BothInOrder q (record {
            live = live;
            jobs_out = w.jobs_out;
            results_out = w.results_out ++ envelopes d;
          })
      of_result (inl (e, l)) =
          rw (e, l)
            (record { of_jobs = v.of_jobs; of_results = keep-InOrder w.results_out _ v.of_results })
      of_result (inr (e, l)) =
          rw (e, l)
            (record { of_jobs = v.of_jobs; of_results = take-InOrder w.results_out _ v.of_results })

      of_job :
          Delivers w.live false (d, live)
          → BothInOrder q (record {
            live = live;
            jobs_out = w.jobs_out ++ envelopes d;
            results_out = w.results_out;
          })
      of_job (inl (e, l)) =
          rw (e, l)
            (record { of_jobs = keep-InOrder w.jobs_out _ v.of_jobs; of_results = v.of_results })
      of_job (inr (e, l)) =
          rw (e, l)
            (record { of_jobs = take-InOrder w.jobs_out _ v.of_jobs; of_results = v.of_results })

  step-BothInOrder :
      (w : Watched) (ev : Event) → InRange ev → BothInOrder q w → BothInOrder q (step q w ev)
  unfolding step
  step-BothInOrder w (joins info) h v = record {
    of_jobs = rw (join_channel w.live info false) v.of_jobs;
    of_results = rw (join_channel w.live info true) v.of_results;
  }
  step-BothInOrder w (posts e results) h v = record {
    of_jobs = post-InOrder w.jobs_out w.live e results false h v.of_jobs;
    of_results = post-InOrder w.results_out w.live e results true h v.of_results;
  }
  step-BothInOrder w (polls kind) h v =
      observe-BothInOrder w kind (deliver w.live kind) (deliver-Delivers w.live kind) v

  run-BothInOrder :
      (w : Watched) (evs : List Event)
      → All InRange evs
      → BothInOrder q w
      → BothInOrder q (run q w evs)
  unfolding run
  run-BothInOrder w [] h v = v
  run-BothInOrder w (ev ∷ evs) h v =
      run-BothInOrder (step q w ev) evs h.1 (step-BothInOrder w ev h.0 v)

  -- For a session made with any expiry, and any list of joins, posts and polls in which the
  -- posted envelopes' sequence numbers are in range: in each direction, what the polls delivered
  -- followed by what waits is numbered from 1 with no gap and no repeat, and at most `q`
  -- envelopes wait.
  pub run_in_order :
      (expires_at : ℕ) (evs : List Event)
      → All InRange evs
      → BothInOrder q (run q (start expires_at) evs)
  run_in_order expires_at evs h =
      run-BothInOrder (start expires_at) evs h
        (record { of_jobs = empty_in_order; of_results = empty_in_order })
    where
      empty_in_order : InOrder q [] (record { pending = []; next = 1; last = none })
      empty_in_order = record {
        numbered = tt;
        counted = refl;
        ranged = omega arith;
        bounded = omega arith;
      }
