-- ===== src/Relay/Handler/Upload.antt =====
-- Chunks and manifests through relay/handler.go, over any store that keeps its contract.
use aken.Base.{ap, ◌≢◌, [], ℕ, ◌<◌, ◌≡◌, refl, ◌∙◌, sym, true, false, Bytes, arith}
use aken.Protocol.Caps.{Caps}
use aken.Protocol.Api.{SessionId}
use aken.Relay.Store.{SessionMeta, Reply, ok, err, not_found, exists, internal, Store, ObjectLaws}
use aken.Relay.Registry.{State}
use aken.Relay.Http.{
  Request, Response, ReadBody, body_of, refused, read_body, write, write_error, ciphertext, is_get,
}
use aken.Relay.Http.Bodies.{read_body_refuses}
use aken.Relay.BlobRoute.{
  stored, bad_chunk_size, chunk_indexed, manifest_checked, manifest_body, manifest,
}

module _ (caps : Caps) {S : Type 0} (Valid : S → Type 0) (t : Store S)
    (laws : ObjectLaws Valid t) where
  stored_sound :
      (st st' : State S) (answer : Reply (Unit {0}) × S) (resp : Response)
      → stored st answer ≡ (resp, st')
      → resp.status ≡ 201
      → answer ≡ (ok tt, st'.store)
  stored_sound st st' (err not_found, s) resp h e = absurd (ground arith)
  stored_sound st st' (err exists, s) resp h e = absurd (ground arith)
  stored_sound st st' (err internal, s) resp h e = absurd (ground arith)
  stored_sound st st' (ok done, s) resp h e = ground arith

  manifest_checked_sound :
      (st st' : State S) (id : SessionId) (body : Bytes) (found : Reply SessionMeta)
      (resp : Response)
      → manifest_checked caps t st id body found ≡ (resp, st')
      → resp.status ≡ 201
      → (sess : SessionMeta) × (found ≡ ok sess)
        × (sess.chunks_stored ≡ sess.chunk_count)
        × (t.put_manifest st.store id body ≡ (ok tt, st'.store))
  unfolding manifest_checked
  manifest_checked_sound st st' id body (err not_found) resp h e = absurd (ground arith)
  manifest_checked_sound st st' id body (err exists) resp h e = absurd (ground arith)
  manifest_checked_sound st st' id body (err internal) resp h e = absurd (ground arith)
  manifest_checked_sound st st' id body (ok sess) resp h e = (
    sess,
    refl,
    ground arith,
    stored_sound st st' (t.put_manifest st.store id body) resp (ground arith) e,
  )

  manifest_body_sound :
      (st st' : State S) (id : SessionId) (read : ReadBody) (resp : Response)
      → manifest_body caps t st id read ≡ (resp, st')
      → resp.status ≡ 201
      → ((why : Response) → read ≡ refused why → why.status ≢ 201)
      → (sess : SessionMeta) × (body : Bytes) × (t.session st.store id ≡ ok sess)
        × (sess.chunks_stored ≡ sess.chunk_count)
        × (t.put_manifest st.store id body ≡ (ok tt, st'.store))
  unfolding manifest_body
  manifest_body_sound st st' id (refused why) resp h e n = absurd (n why refl (ground arith))
  manifest_body_sound st st' id (body_of body) resp h e n =
      let (s, f, full, p) =
        manifest_checked_sound st st' id body (t.session st.store id) resp h e in
      (s, body, f, full, p)

  -- In a valid state of a store that keeps the laws on objects: if a PUT of a manifest answers
  -- 201, the session is there, and after it every chunk below the session's count can be
  -- fetched.
  pub manifest_complete :
      (st st' : State S) (r : Request) (id : SessionId) (resp : Response)
      → Valid st.store
      → is_get r.method ≡ false
      → manifest caps t st r id ≡ (resp, st')
      → resp.status ≡ 201
      → (sess : SessionMeta) × (t.session st.store id ≡ ok sess)
        × ((i : ℕ) → i < sess.chunk_count → (a : Bytes) × (t.get_chunk st'.store id i ≡ ok a))
  unfolding manifest
  manifest_complete st st' r id resp v n h e =
      let (sess, body, found, full, wrote) =
        manifest_body_sound st st' id (read_body r caps.manifest_bytes) resp (rw n at h) e
          (read_body_refuses r caps.manifest_bytes) in
      (
        sess,
        found,
        λ i l.
            let (a, got) = laws.complete st.store id sess i v found full l in
            (a, kept body wrote i ∙ got),
      )
    where
      kept :
          (body : Bytes)
          → t.put_manifest st.store id body ≡ (ok tt, st'.store)
          → (i : ℕ) → t.get_chunk st'.store id i ≡ t.get_chunk st.store id i
      kept body wrote i =
          ap (λ (p : Reply (Unit {0}) × S). t.get_chunk p.1 id i) (sym wrote)
          ∙ laws.get_chunk-put_manifest st.store id i body

  -- In a valid state of a store that keeps the laws on objects: after a PUT of a chunk that
  -- answers 201, a GET of that chunk returns its body, and another PUT of it, whose size passes,
  -- is answered 409; both leave the state as it is.
  pub chunk_once :
      (st st' : State S) (put_it get_it again : Request) (id : SessionId) (sess : SessionMeta)
      (body other : Bytes) (index : ℕ) (resp : Response)
      → Valid st.store
      → is_get put_it.method ≡ false
      → is_get again.method ≡ false
      → is_get get_it.method ≡ true
      → bad_chunk_size sess index other ≡ false
      → chunk_indexed caps t st put_it id sess body index ≡ (resp, st')
      → resp.status ≡ 201
      → (chunk_indexed caps t st' get_it id sess [] index ≡ (write 200 (ciphertext body), st'))
        × (chunk_indexed caps t st' again id sess other index
            ≡ (write_error 409 "already_exists", st'))
  unfolding chunk_indexed
  chunk_once st st' put_it get_it again id sess body other index resp v p a g good h e =
      let wrote = stored_sound st st' (t.put_chunk st.store id index body) resp in
      let once = laws.put_chunk_once st.store st'.store id index body other v in
      ground (arith, p, a, g, good, wrote, once)
