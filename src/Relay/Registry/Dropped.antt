-- ===== src/Relay/Registry/Dropped.antt =====
-- What `dropLocked` of relay/session.go leaves.
use aken.Base.Map.{get-delete}
use aken.Base.{◌≡◌, none, arith, bytes_eq, ==-refl, Option-cases, inl, inr}
use aken.Protocol.Api.{SessionId}
use aken.Relay.Registry.{State, get_live, drop_locked}

module _ {S : Type 0} where
  pub drop_locked_clears : (st : State S) (id : SessionId) → get_live (drop_locked st id) id ≡ none
  unfolding drop_locked
  drop_locked_clears st id = elim (Option-cases (get_live st id)) [
    | inl miss ↦ ground arith
    | inr (ref, found) ↦ ground (arith, get-delete st.sessions id id, ==-refl id)
  ]

  pub drop_locked_store : (st : State S) (id : SessionId) → (drop_locked st id).store ≡ st.store
  unfolding drop_locked
  drop_locked_store st id = ground arith
