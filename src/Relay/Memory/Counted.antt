-- ===== src/Relay/Memory/Counted.antt =====
-- relay/memory.go: `stored` counts the chunks that are there, so the handler may compare it with the
-- number of chunks.
use aken.Base.Map
use aken.Base.Map.{Map, get-insert, get-delete, get-empty}
use aken.Base.{
  sym, ap, subst, ◌∙◌, some_inj, ℕ, zero, suc, ◌^◌, ◌≤◌, ◌<◌, ◌≡◌, refl, Bool, true, false, Option,
  none, some, List, [], ◌∷◌, Bytes, arith, bytes_eq, Bool-cases, inl, inr, is_some, leb, length,
  get_elem?, set, replicate, length-replicate, length-set, ◌==◌, if◌then◌else◌,
}
use aken.Protocol.Api.{SessionId}
use aken.Relay.Store.{SessionMeta, Reply, ok, err, exists, Keeps}
use aken.Relay.Memory.{
  MemoryStore, MemorySession, memory_store, create_session, put_chunk, put_chunk_in, put_manifest,
  put_manifest_in, delete_session, new_session, chunk_at, with_chunk, update, new_memory_store,
  sweep, sweep_keys, is_expired,
}

-- The chunks that are there.
abbrev pub present : List (Option Bytes) → ℕ
present [] = 0
present (none ∷ cs) = present cs
present (some c ∷ cs) = suc (present cs)

pub present-le : (cs : List (Option Bytes)) → present cs ≤ length cs
present-le [] = omega arith
present-le (none ∷ cs) = omega (arith, present-le cs)
present-le (some c ∷ cs) = omega (arith, present-le cs)

present-replicate : (n : ℕ) → present (replicate n none) ≡ 0
present-replicate zero = refl
present-replicate (suc n) = present-replicate n

abbrev at_index : List (Option Bytes) → ℕ → Option Bytes
at_index cs i = elim (get_elem? cs i) [ none ↦ none | some c ↦ c ]

present-set :
    (cs : List (Option Bytes)) (i : ℕ) (c : Bytes)
    → i < length cs
    → at_index cs i ≡ none
    → present (set cs i (some c)) ≡ suc (present cs)
present-set [] i c h n = absurd (omega arith)
present-set (none ∷ cs) zero c h n = refl
present-set (some d ∷ cs) zero c h n = absurd (cc)
present-set (none ∷ cs) (suc i) c h n = present-set cs i c (omega arith) n
present-set (some d ∷ cs) (suc i) c h n = ap suc (present-set cs i c (omega arith) n)

pub present_full :
    (cs : List (Option Bytes)) (i : ℕ)
    → present cs ≡ length cs
    → i < length cs
    → (c : Bytes) × (get_elem? cs i ≡ some (some c))
present_full [] i e h = absurd (omega arith)
present_full (none ∷ cs) i e h = absurd (omega (arith, present-le cs))
present_full (some c ∷ cs) zero e h = (c, refl)
present_full (some c ∷ cs) (suc i) e h = present_full cs i (omega arith) (omega arith)

pub record IsCounted (sess : MemorySession) : Type 0 where
  pub sized : length sess.chunks ≡ sess.chunk_count
  pub counted : sess.stored ≡ present sess.chunks
  pub word : sess.chunk_count < 2 ^ 32

new_session-IsCounted : (m : SessionMeta) → m.chunk_count < 2 ^ 32 → IsCounted (new_session m)
new_session-IsCounted m h = record {
  sized = length-replicate m.chunk_count none;
  counted = sym (present-replicate m.chunk_count);
  word = h;
}

with_chunk-IsCounted :
    (sess : MemorySession) (i : ℕ) (c : Bytes)
    → i < sess.chunk_count
    → chunk_at sess i ≡ none
    → IsCounted sess
    → IsCounted (with_chunk sess i c)
with_chunk-IsCounted sess i c h n v =
    let grown = present-set sess.chunks i c (omega arith) n in
    record {
      sized = length-set sess.chunks i (some c) ∙ v.sized;
      counted = omega (
        arith,
        grown,
        present-le (set sess.chunks i (some c)),
        length-set sess.chunks i (some c),
      );
      word = v.word;
    }

-- Every session of the store is counted.
pub record IsValid (m : MemoryStore) : Type 0 where
  pub at_id :
      (id : SessionId) (sess : MemorySession) → Map.get m.sessions id ≡ some sess → IsCounted sess

pub new_memory_store-IsValid : IsValid new_memory_store
unfolding new_memory_store
new_memory_store-IsValid = record {
  at_id = λ id sess h. absurd (cc (get-empty {V = MemorySession} id));
}

pub update-IsValid :
    (m : MemoryStore) (id : SessionId) (sess : MemorySession)
    → IsCounted sess
    → IsValid m
    → IsValid (update m id sess)
update-IsValid m id sess c v = record {
  at_id = λ jd other h. pick jd other (id == jd) (rw (get-insert m.sessions id jd sess) at h);
}
  where
    pick :
        (jd : SessionId) (other : MemorySession) (b : Bool)
        → (if b then some sess else Map.get m.sessions jd) ≡ some other
        → IsCounted other
    pick jd other true h = subst IsCounted (some_inj h) c
    pick jd other false h = v.at_id jd other h

without-IsValid :
    (m : MemoryStore) (id : SessionId)
    → IsValid m
    → IsValid (record { sessions = Map.delete m.sessions id })
without-IsValid m id v = record {
  at_id = λ jd other h. pick jd other (id == jd) (rw (get-delete m.sessions id jd) at h);
}
  where
    pick :
        (jd : SessionId) (other : MemorySession) (b : Bool)
        → (if b then none else Map.get m.sessions jd) ≡ some other
        → IsCounted other
    pick jd other true h = absurd (cc)
    pick jd other false h = v.at_id jd other h

create_session-IsValid :
    (m : MemoryStore) (id : SessionId) (meta : SessionMeta)
    → meta.chunk_count < 2 ^ 32
    → IsValid m
    → IsValid (create_session m id meta).1
unfolding create_session
create_session-IsValid m id meta h v = elim (Bool-cases (is_some (Map.get m.sessions id))) [
  | inl taken ↦ rw taken v
  | inr new ↦ rw new (update-IsValid m id (new_session meta) (new_session-IsCounted meta h) v)
]

abbrev put_over :
    MemoryStore → SessionId → MemorySession → ℕ → Bytes → Bool → Reply (Unit {0}) × MemoryStore
put_over m id sess i c taken =
    if taken then (err exists, m) else (ok tt, update m id (with_chunk sess i c))

put_chunk_in-IsValid :
    (m : MemoryStore) (id : SessionId) (i : ℕ) (c : Bytes) (o : Option MemorySession)
    → Map.get m.sessions id ≡ o
    → IsValid m
    → IsValid (put_chunk_in m id i c o).1
unfolding put_chunk_in
put_chunk_in-IsValid m id i c none e v = v
put_chunk_in-IsValid m id i c (some sess) e v = elim (Bool-cases (leb sess.chunk_count i)) [
  | inl out ↦ rw out v
  | inr here ↦ rw here (stored here (chunk_at sess i) refl)
]
  where
    stored :
        leb sess.chunk_count i ≡ false
        → (o : Option Bytes) → chunk_at sess i ≡ o
        → IsValid (put_over m id sess i c (is_some o)).1
    stored here none n =
        update-IsValid m id (with_chunk sess i c)
          (with_chunk-IsCounted sess i c (ground arith) n (v.at_id id sess e)) v
    stored here (some old) n = v

put_manifest_in-IsValid :
    (m : MemoryStore) (id : SessionId) (c : Bytes) (o : Option MemorySession)
    → Map.get m.sessions id ≡ o
    → IsValid m
    → IsValid (put_manifest_in m id c o).1
unfolding put_manifest_in
put_manifest_in-IsValid m id c none e v = v
put_manifest_in-IsValid m id c (some sess) e v = elim (Bool-cases (is_some sess.manifest)) [
  | inl taken ↦ rw taken v
  | inr new ↦ rw new (
      update-IsValid m id (record sess { manifest = some c })
        (record { sized = w.sized; counted = w.counted; word = w.word }) v)
]
  where
    w : IsCounted sess
    w = v.at_id id sess e

delete_session-IsValid :
    (m : MemoryStore) (id : SessionId) → IsValid m → IsValid (delete_session m id).1
unfolding delete_session
delete_session-IsValid m id v = elim (Bool-cases (is_some (Map.get m.sessions id))) [
  | inl found ↦ rw found (without-IsValid m id v)
  | inr missing ↦ rw missing v
]

sweep_keys-IsValid :
    (now : ℕ) (ids : List SessionId) (m : MemoryStore)
    → IsValid m
    → IsValid (record { sessions = sweep_keys now ids m.sessions })
unfolding sweep_keys
sweep_keys-IsValid now [] m v = v
sweep_keys-IsValid now (id ∷ ids) m v = elim (Bool-cases (is_expired now (Map.get m.sessions id))) [
  | inl old ↦ rw old (
      sweep_keys-IsValid now ids (record { sessions = Map.delete m.sessions id })
        (without-IsValid m id v))
  | inr live ↦ rw live (sweep_keys-IsValid now ids m v)
]

sweep-IsValid : (m : MemoryStore) (now : ℕ) → IsValid m → IsValid (sweep m now)
unfolding sweep
sweep-IsValid m now v = sweep_keys-IsValid now (Map.keys m.sessions) m v

-- The store in memory is valid when it is made, and every method keeps it so, those of the interface
-- and Sweep, at any time: each session has as many places as its chunk count, which is below 2^32,
-- and counts exactly its filled ones. A creation does so for a chunk count below 2^32.
pub memory_store-Keeps :
    IsValid new_memory_store
    × Keeps IsValid memory_store
    × ((m : MemoryStore) (now : ℕ) → IsValid m → IsValid (sweep m now))
unfolding put_chunk put_manifest
memory_store-Keeps = (
  new_memory_store-IsValid,
  record {
    create = create_session-IsValid;
    chunk = λ m id i c v. put_chunk_in-IsValid m id i c (Map.get m.sessions id) refl v;
    manifest = λ m id c v. put_manifest_in-IsValid m id c (Map.get m.sessions id) refl v;
    delete = delete_session-IsValid;
  },
  sweep-IsValid,
)
