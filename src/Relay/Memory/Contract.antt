-- ===== src/Relay/Memory/Contract.antt =====
-- relay/memory.go keeps the contract of the interface in relay/store.go.
use aken.Base.Map
use aken.Base.Map.{Map, get-insert, get-delete, map_laws}
use aken.Base.{
  get_elem?-set_self, ℕ, ◌<◌, ◌≡◌, ◌≢◌, refl, Option, none, some, Bytes, arith, bytes_eq,
  bytes_equal_iff, ==-refl, Option-cases, inl, inr,
}
use aken.Protocol.Api.{SessionId}
use aken.Relay.Store.{SessionMeta, not_found, exists, ok, err, SessionLaws, ObjectLaws, fresh}
use aken.Relay.Memory.Counted.{IsValid, IsCounted, present_full}
use aken.Relay.Memory.{
  put_chunk_in, with_chunk, MemoryStore, MemorySession, memory_store, create_session, session,
  put_chunk, get_chunk, put_manifest, get_manifest, delete_session, new_session,
}

module _ (s : MemoryStore) (id : SessionId) where
  create_taken_lem :
      (m m' : SessionMeta) → session s id ≡ ok m → create_session s id m' ≡ (err exists, s)
  unfolding create_session session
  create_taken_lem m m' h = ground arith

  session-create_lem :
      (s' : MemoryStore) (m : SessionMeta)
      → create_session s id m ≡ (ok tt, s')
      → session s' id ≡ ok (fresh m)
  unfolding create_session session
  session-create_lem s' m h =
      ground (arith, get-insert s.sessions id id (new_session m), ==-refl id)

  session-create_ne_lem :
      (jd : SessionId) (m : SessionMeta)
      → id ≢ jd
      → session (create_session s id m).1 jd ≡ session s jd
  unfolding create_session session
  session-create_ne_lem jd m n =
      ground (arith, get-insert s.sessions id jd (new_session m), bytes_equal_iff id jd)

  session-delete_lem : session (delete_session s id).1 id ≡ err not_found
  unfolding delete_session session
  session-delete_lem = ground (arith, get-delete s.sessions id id, ==-refl id)

  session-delete_ne_lem :
      (jd : SessionId) → id ≢ jd → session (delete_session s id).1 jd ≡ session s jd
  unfolding delete_session session
  session-delete_ne_lem jd n = ground (arith, get-delete s.sessions id jd, bytes_equal_iff id jd)

  delete_found_lem : (m : SessionMeta) → session s id ≡ ok m → (delete_session s id).0 ≡ ok tt
  unfolding delete_session session
  delete_found_lem m h = ground arith

-- The store in memory keeps the laws on sessions: a created one is found with nothing stored,
-- none is created over another, a deleted one is gone, and the others stay as they are.
pub memory_store-SessionLaws : SessionLaws memory_store
memory_store-SessionLaws = record {
  create_taken = create_taken_lem;
  session-create = λ s s' id. session-create_lem s id s';
  session-create_ne = session-create_ne_lem;
  session-delete = session-delete_lem;
  delete_found = delete_found_lem;
  session-delete_ne = session-delete_ne_lem;
}

put_chunk_in_once :
    (s s' : MemoryStore) (id : SessionId) (i : ℕ) (a b : Bytes) (o : Option MemorySession)
    → ((sess : MemorySession) → o ≡ some sess → IsCounted sess)
    → put_chunk_in s id i a o ≡ (ok tt, s')
    → (get_chunk s' id i ≡ ok a) × (put_chunk s' id i b ≡ (err exists, s'))
unfolding put_chunk_in get_chunk put_chunk
put_chunk_in_once s s' id i a b none v h = absurd (cc)
put_chunk_in_once s s' id i a b (some sess) v h =
    let w : IsCounted sess = v sess refl in
    let bound = w.sized in
    ground (
      arith,
      get-insert s.sessions id id (with_chunk sess i a),
      ==-refl id,
      get_elem?-set_self sess.chunks i (some a),
    )

module _ (s s' : MemoryStore) (id : SessionId) where
  put_manifest_once_lem :
      (a b : Bytes)
      → put_manifest s id a ≡ (ok tt, s')
      → (get_manifest s' id ≡ ok a) × (put_manifest s' id b ≡ (err exists, s'))
  unfolding put_manifest get_manifest
  put_manifest_once_lem a b h = elim (Option-cases (Map.get s.sessions id)) [
    | inl miss ↦ ground arith
    | inr (sess, found) ↦
        ground (arith, get-insert s.sessions id id (record sess { manifest = some a }), ==-refl id)
  ]

module _ (s : MemoryStore) (id : SessionId) where
  get_chunk-put_manifest_lem :
      (i : ℕ) (a : Bytes) → get_chunk (put_manifest s id a).1 id i ≡ get_chunk s id i
  unfolding put_manifest get_chunk
  get_chunk-put_manifest_lem i a = elim (Option-cases (Map.get s.sessions id)) [
    | inl miss ↦ ground arith
    | inr (sess, found) ↦
        ground (arith, get-insert s.sessions id id (record sess { manifest = some a }), ==-refl id)
  ]

  complete_lem :
      (m : SessionMeta) (i : ℕ)
      → IsValid s
      → session s id ≡ ok m
      → m.chunks_stored ≡ m.chunk_count
      → i < m.chunk_count
      → (a : Bytes) × (get_chunk s id i ≡ ok a)
  unfolding session get_chunk
  complete_lem m i v h e l = elim (Option-cases (Map.get s.sessions id)) [
    | inl miss ↦ absurd (ground arith)
    | inr (sess, found) ↦
        let w : IsCounted sess = v.at_id id sess found in
        let (a, at) =
          present_full sess.chunks i (ground (arith, w.sized, w.counted))
            (ground (arith, w.sized)) in
        (a, ground (arith, at))
  ]

-- The store in memory keeps the laws on objects in its valid states: an accepted chunk or
-- manifest is read back and refused a second time, a manifest leaves the chunks as they are, and
-- a session whose count of stored chunks is full has every chunk.
pub memory_store-ObjectLaws : ObjectLaws IsValid memory_store
memory_store-ObjectLaws = record {
  put_chunk_once = λ s s' id i a b v h.
      put_chunk_in_once s s' id i a b (Map.get s.sessions id) (λ sess e. v.at_id id sess e)
        (unfold put_chunk in h);
  put_manifest_once = put_manifest_once_lem;
  get_chunk-put_manifest = get_chunk-put_manifest_lem;
  complete = complete_lem;
}
