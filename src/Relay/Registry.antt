-- ===== src/Relay/Registry.antt =====
-- The handler's state: its store, and the registry of live sessions of relay/session.go. A
-- `*liveSession` is an address in a heap, so that a poll may hold a session that the registry has
-- since dropped or replaced.
pub mod Dropped
pub mod Swept
use aken.Base.Map
use aken.Base.Map.{Map}
use aken.Base.{
  ℕ, ◌+◌, ◌≡◌, Bool, true, false, Option, none, some, List, [], ◌∷◌, bytes_eq, eqb, leb,
  if◌then◌else◌,
}
use aken.Protocol.Api.{SessionId}
use aken.Relay.Store.{Store}
use aken.Relay.Live.{LiveSession, drop_live, new_live}

pub record State (S : Type 0) : Type 0 where
  pub store : S
  pub sessions : Map SessionId ℕ
  pub heap : ℕ → LiveSession
  pub free : ℕ

abbrev pub set_heap : (ℕ → LiveSession) → ℕ → LiveSession → ℕ → LiveSession
set_heap heap ref live p = if eqb p ref then live else heap p

module _ {S : Type 0} where
  -- s.live.get(id)
  abbrev pub get_live : State S → SessionId → Option ℕ
  get_live st id = Map.get st.sessions id

  abbrev pub write_live : State S → ℕ → LiveSession → State S
  write_live st ref live = record st { heap = set_heap st.heap ref live }

  unfoldable pub drop_at : State S → SessionId → Option ℕ → State S
  drop_at st id none = st
  drop_at st id (some ref) = record st {
    heap = set_heap st.heap ref (drop_live (st.heap ref));
    sessions = Map.delete st.sessions id;
  }

  unfoldable pub drop_locked : State S → SessionId → State S
  unfolding drop_at
  drop_locked st id = drop_at st id (get_live st id)

  -- s.live.sessions[id] = &liveSession{…}
  unfoldable pub add_live : State S → SessionId → ℕ → State S
  add_live st id expires_at = record st {
    heap = set_heap st.heap st.free (new_live expires_at);
    sessions = Map.insert st.sessions id st.free;
    free = st.free + 1;
  }

module _ {S : Type 0} (t : Store S) where
  -- The error of DeleteSession is not looked at here.
  abbrev pub delete_and_drop : State S → SessionId → State S
  delete_and_drop st id = drop_locked (record st { store = (t.delete_session st.store id).1 }) id

  abbrev pub has_expired : State S → ℕ → Option ℕ → Bool
  has_expired st now none = false
  has_expired st now (some ref) = leb (st.heap ref).expires_at now

  unfoldable pub sweep_ids : ℕ → List SessionId → State S → State S
  sweep_ids now [] st = st
  sweep_ids now (id ∷ ids) st =
      sweep_ids now ids (if has_expired st now (get_live st id) then delete_and_drop st id else st)

  -- (s *Handler) Sweep
  unfoldable pub sweep : State S → ℕ → State S
  unfolding sweep_ids
  sweep st now = sweep_ids now (Map.keys st.sessions) st
