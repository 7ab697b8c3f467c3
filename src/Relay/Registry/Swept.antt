-- ===== src/Relay/Registry/Swept.antt =====
-- What the handler's `Sweep` of relay/session.go leaves registered.
use aken.Base.Map
use aken.Base.Map.{get-delete, get-keys}
use aken.Base.{
  ap, ℕ, ◌≡◌, refl, ◌∙◌, Bool, ◌&&◌, ◌||◌, Option, none, some, List, [], ◌∷◌, any, arith, bytes_eq,
  bytes_equal_iff, ◌==◌, leb, if◌then◌else◌, Bool-cases, Option-cases, inl, inr,
}
use aken.Protocol.Api.{SessionId}
use aken.Relay.Store.{Store}
use aken.Relay.Live.{drop_live}
use aken.Relay.Registry.{
  State, get_live, drop_locked, delete_and_drop, has_expired, sweep_ids, sweep,
}

module _ {S : Type 0} (t : Store S) (now : ℕ) where
  abbrev swept_at : State S → Bool → SessionId → Option ℕ
  swept_at st met jd = if met && has_expired t st now (get_live st jd) then none else get_live st jd

  expiry_kept :
      (st : State S) (id : SessionId) (p : ℕ)
      → ((delete_and_drop t st id).heap p).expires_at ≡ (st.heap p).expires_at
  unfolding drop_locked drop_live
  expiry_kept st id p = ground arith

  get_live-drop :
      (st : State S) (id jd : SessionId)
      → get_live (delete_and_drop t st id) jd ≡ (if id == jd then none else get_live st jd)
  unfolding drop_locked
  get_live-drop st id jd = elim (Option-cases (get_live st id)) [
    | inl miss ↦ ground (arith, bytes_equal_iff id jd)
    | inr (ref, found) ↦ ground (arith, get-delete st.sessions id jd)
  ]

  abbrev swept_one : State S → SessionId → State S
  swept_one st id = if has_expired t st now (get_live st id) then delete_and_drop t st id else st

  has_expired-drop :
      (st : State S) (id : SessionId) (o : Option ℕ)
      → has_expired t (delete_and_drop t st id) now o ≡ has_expired t st now o
  has_expired-drop st id none = refl
  has_expired-drop st id (some p) = ap (λ e. leb e now) (expiry_kept st id p)

  swept_step :
      (st : State S) (id jd : SessionId) (met : Bool)
      → swept_at (swept_one st id) met jd ≡ swept_at st (id == jd || met) jd
  swept_step st id jd met = elim (Bool-cases (has_expired t st now (get_live st id))) [
    | inr live ↦ rw live (ground (arith, bytes_equal_iff id jd))
    | inl old ↦
        rw old (rw has_expired-drop (ground (arith, get_live-drop st id jd, bytes_equal_iff id jd)))
  ]

  get_live-sweep_ids :
      (ids : List SessionId) (st : State S) (jd : SessionId)
      → get_live (sweep_ids t now ids st) jd ≡ swept_at st (any (λ k. k == jd) ids) jd
  unfolding sweep_ids
  get_live-sweep_ids [] st jd = refl
  get_live-sweep_ids (id ∷ ids) st jd =
      get_live-sweep_ids ids (swept_one st id) jd ∙ swept_step st id jd (any (λ k. k == jd) ids)

  -- After a sweep, an id is registered exactly if it was and its live session had not expired,
  -- and then for the same live session.
  pub get_live-sweep :
      (st : State S) (jd : SessionId)
      → get_live (sweep t st now) jd
        ≡ (if has_expired t st now (get_live st jd) then none else get_live st jd)
  unfolding sweep
  get_live-sweep st jd = elim (Option-cases (get_live st jd)) [
    | inl miss ↦ get_live-sweep_ids (Map.keys st.sessions) st jd ∙ rw miss (ground arith)
    | inr (ref, found) ↦
        get_live-sweep_ids (Map.keys st.sessions) st jd
        ∙ rw (get-keys st.sessions jd ref found) refl
  ]
