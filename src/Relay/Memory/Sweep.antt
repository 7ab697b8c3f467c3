-- ===== src/Relay/Memory/Sweep.antt =====
-- What `Sweep` of relay/memory.go leaves: the sessions that have not expired, unchanged.
use aken.Base.Map
use aken.Base.Map.{Map, get-delete, get-keys}
use aken.Base.{
  ℕ, ◌≡◌, refl, Option, none, List, [], ◌∷◌, arith, bytes_eq, bytes_equal_iff, ◌==◌, any,
  if◌then◌else◌, Option-cases, inl, inr,
}
use aken.Protocol.Api.{SessionId}
use aken.Relay.Memory.{MemoryStore, MemorySession, is_expired, sweep_keys, sweep}

abbrev pub live_at : ℕ → Option MemorySession → Option MemorySession
live_at now o = if is_expired now o then none else o

live_at-step :
    (now : ℕ) (m : Map SessionId MemorySession) (id jd : SessionId)
    → Map.get (if is_expired now (Map.get m id) then Map.delete m id else m) jd
      ≡ (if id == jd then live_at now (Map.get m jd) else Map.get m jd)
live_at-step now m id jd = ground (arith, get-delete m id jd, bytes_equal_iff id jd)

get-sweep_keys :
    (now : ℕ) (ids : List SessionId) (m : Map SessionId MemorySession) (jd : SessionId)
    → Map.get (sweep_keys now ids m) jd
      ≡ (if any (λ k. k == jd) ids then live_at now (Map.get m jd) else Map.get m jd)
unfolding sweep_keys
get-sweep_keys now [] m jd = refl
get-sweep_keys now (id ∷ ids) m jd = ground (
  arith,
  get-sweep_keys now ids (if is_expired now (Map.get m id) then Map.delete m id else m) jd,
  live_at-step now m id jd,
)

-- After a sweep, the store has a session exactly if it had it and it has not expired, and then
-- unchanged.
pub get-sweep :
    (m : MemoryStore) (now : ℕ) (jd : SessionId)
    → Map.get (sweep m now).sessions jd ≡ live_at now (Map.get m.sessions jd)
unfolding sweep
get-sweep m now jd = elim (Option-cases (Map.get m.sessions jd)) [
  | inl miss ↦ ground (arith, get-sweep_keys now (Map.keys m.sessions) m.sessions jd)
  | inr (sess, found) ↦ ground (
    arith,
    get-sweep_keys now (Map.keys m.sessions) m.sessions jd,
    get-keys m.sessions jd sess found,
  )
]
