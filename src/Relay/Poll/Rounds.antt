-- ===== src/Relay/Poll/Rounds.antt =====
-- How polls of relay/session.go end, and what they leave alone.
use aken.Base.{
  ℕ, ◌≡◌, ◌≢◌, refl, Bool, true, false, List, [], ◌∷◌, ◌++◌, String, arith, leb, Bool-cases, inl,
  inr,
}
use aken.Protocol.Api.{SessionId}
use aken.Relay.Store.{Store}
use aken.Relay.Live.{LiveSession, Delivery, nothing, joined_info, messages}
use aken.Relay.Registry.{State}
use aken.Relay.Poll.{
  Round, hung_up, answered, waiting, is_current, delivered, poll_round, Turn, timed_out, Outcome,
  still_waiting, fires, poll_turn, poll,
}

abbrev pub after : {S : Type 0} → State S → Round S → State S
after st hung_up = st
after st (answered r st') = st'
after st (waiting st') = st'

module _ {S : Type 0} (t : Store S) (id : SessionId) (ref : ℕ) (kind : String) where
  -- A round touches the session that it holds and nothing else, unless the registry still has it.
  pub record Untouched (st st' : State S) : Type 0 where
    pub store : st'.store ≡ st.store
    pub sessions : st'.sessions ≡ st.sessions
    pub others : (p : ℕ) → p ≢ ref → st'.heap p ≡ st.heap p

  same-Untouched : (st : State S) → Untouched st st
  same-Untouched st = record { store = refl; sessions = refl; others = λ p n. refl }

  delivered-Untouched :
      (st : State S) (d : Delivery × LiveSession) → Untouched st (after st (delivered st ref d))
  delivered-Untouched st (nothing, live) = same-Untouched st
  delivered-Untouched st (joined_info info, live) = same-Untouched st
  delivered-Untouched st (messages es, live) = record {
    store = refl;
    sessions = refl;
    others = λ p n. ground arith;
  }

  -- A round of a poll whose session is not the registered one under its id leaves the store, the
  -- registry and every other live session as they are.
  pub replacement_kept :
      (st : State S) (now : ℕ) (client_gone : Bool)
      → is_current st id ref ≡ false
      → Untouched st (after st (poll_round t id ref kind st now client_gone))
  unfolding poll_round
  replacement_kept st now true n = same-Untouched st
  replacement_kept st now false n = elim (Bool-cases (st.heap ref).gone) [
    | inl gone ↦ rw gone (same-Untouched st)
    | inr there ↦ elim (Bool-cases (leb (st.heap ref).expires_at now)) [
      | inl late ↦ rw (there, late, n) (same-Untouched st)
      | inr early ↦ rw (there, early) (delivered-Untouched st _)
    ]
  ]

  poll_late :
      (wait : ℕ) (turn : Turn S) (turns : List (Turn S))
      → poll t id ref kind wait true (turn ∷ turns) ≢ still_waiting
  unfolding poll
  poll_late wait turn turns = decide (poll_round t id ref kind turn.state turn.now turn.client_gone)
    where
      decide :
          (r : Round S)
          → poll_turn t id ref kind wait true turn (λ fired. poll t id ref kind wait fired turns) r
            ≢ still_waiting
      decide hung_up e = cc
      decide (answered resp st) e = cc
      decide (waiting st) e = cc

  -- A poll does not wait on behind a turn in which its timer fired and one turn more, whatever
  -- the turns before and after.
  pub poll_ends :
      (wait : ℕ) (late : Bool) (before : List (Turn S)) (turn next : Turn S) (turns : List (Turn S))
      → turn.wake ≡ timed_out
      → poll t id ref kind wait late (before ++ (turn ∷ next ∷ turns)) ≢ still_waiting
  unfolding poll
  poll_ends wait late [] turn next turns w =
      decide (poll_round t id ref kind turn.state turn.now turn.client_gone)
    where
      rest : Bool → Outcome S
      rest fired = poll t id ref kind wait fired (next ∷ turns)

      decide : (r : Round S) → poll_turn t id ref kind wait late turn rest r ≢ still_waiting
      decide hung_up e = cc
      decide (answered resp st) e = cc
      decide (waiting st) e = ground (arith, w, poll_late wait next turns)
  poll_ends wait late (first ∷ before) turn next turns w =
      decide (poll_round t id ref kind first.state first.now first.client_gone)
        (λ fired. poll_ends wait fired before turn next turns w)
    where
      rest : Bool → Outcome S
      rest fired = poll t id ref kind wait fired (before ++ (turn ∷ next ∷ turns))

      decide :
          (r : Round S)
          → ((fired : Bool) → rest fired ≢ still_waiting)
          → poll_turn t id ref kind wait late first rest r ≢ still_waiting
      decide hung_up ih e = cc
      decide (answered resp st) ih e = cc
      decide (waiting st) ih e = ground (arith, ih (fires first.wake late))
