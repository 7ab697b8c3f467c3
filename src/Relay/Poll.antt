-- ===== src/Relay/Poll.antt =====
-- `poll` of relay/session.go: rounds of a waiting GET. Between two rounds other requests run, so each
-- round starts from a state of its own; what ended the wait before the next round is its `wake`.
pub mod Rounds
use aken.Base.Map
use aken.Base.{
  ℕ, Bool, true, false, ◌||◌, Option, none, some, List, [], ◌∷◌, String, bytes_eq, eqb, leb,
  if◌then◌else◌,
}
use aken.Protocol.Api.{SessionId}
use aken.Relay.Store.{Store}
use aken.Relay.Live.{LiveSession, Delivery, nothing, joined_info, messages, deliver}
use aken.Relay.Registry.{State, get_live, write_live, delete_and_drop}
use aken.Relay.Http.{Response, write, write_error, join_info, empty, messages as message_list}

-- How a round ends: with no answer, since the client has gone; with one; or it goes on waiting.
pub data Round (S : Type 0) : Type 0 where
  hung_up : Round S
  answered : Response → State S → Round S
  waiting : State S → Round S

abbrev pub is_current : {S : Type 0} → State S → SessionId → ℕ → Bool
is_current st id ref = elim (get_live st id) [ none ↦ false | some p ↦ eqb p ref ]

abbrev pub delivered : {S : Type 0} → State S → ℕ → Delivery × LiveSession → Round S
delivered st ref (nothing, live) = waiting st
delivered st ref (joined_info info, live) = answered (write 200 (join_info info)) st
delivered st ref (messages es, live) =
    answered (write 200 (message_list es)) (write_live st ref live)

pub data Wake : Type 0 where
  client_done timed_out expired changed : Wake

-- The start of a round, as the rest of the program has left things, and what will end its wait.
pub record Turn (S : Type 0) : Type 0 where
  pub state : State S
  pub now : ℕ
  pub client_gone : Bool
  pub wake : Wake

-- A poll that the turns did not end is still waiting.
pub data Outcome (S : Type 0) : Type 0 where
  no_answer still_waiting : Outcome S
  replied : Response → State S → Outcome S

abbrev pub fires : Wake → Bool → Bool
fires timed_out late = true
fires _ late = late

abbrev pub leaves : Wake → Bool
leaves client_done = true
leaves _ = false

module _ {S : Type 0} (t : Store S) (id : SessionId) (ref : ℕ) (kind : String) where
  -- An old poll must not delete a replacement session with the same identifier.
  unfoldable pub poll_round : State S → ℕ → Bool → Round S
  poll_round st now client_gone =
      let live = st.heap ref in
      if client_gone
      then hung_up
      else if live.gone
      then answered (write_error 404 "not_found") st
      else if leb live.expires_at now
      then answered (write_error 404 "not_found")
          (if is_current st id ref then delete_and_drop t st id else st)
      else delivered st ref (deliver live kind)

  -- One round, and then what `rest` makes of the turns behind it, with whether the timer has fired.
  abbrev pub poll_turn : ℕ → Bool → Turn S → (Bool → Outcome S) → Round S → Outcome S
  poll_turn wait late turn rest hung_up = no_answer
  poll_turn wait late turn rest (answered r st) = replied r st
  poll_turn wait late turn rest (waiting st) =
      if late || eqb wait 0
      then replied (write 204 empty) st
      else if leaves turn.wake
      then no_answer
      else rest (fires turn.wake late)

  unfoldable pub poll : ℕ → Bool → List (Turn S) → Outcome S
  unfolding poll_round
  poll wait late [] = still_waiting
  poll wait late (turn ∷ turns) =
      poll_turn wait late turn (λ fired. poll wait fired turns)
        (poll_round turn.state turn.now turn.client_gone)
