-- ===== src/Relay/BlobRoute.antt =====
-- `chunk` and `manifest` of relay/handler.go: the ciphertext of a one-shot session.
pub mod Sizes
use aken.Base.{
  ℕ, ◌-◌, ◌+◌, Bool, ◌&&◌, ◌||◌, not, Option, none, some, Bytes, eqb, ltb, leb, if◌then◌else◌,
  length, [],
}
use aken.Encoding.Decimal.{parse_uint}
use aken.Protocol.Caps.{Caps, chunk_size, chunk_overhead}
use aken.Protocol.Api.{SessionId}
use aken.Relay.Store.{SessionMeta, Reply, ok, err, Store}
use aken.Relay.Registry.{State}
use aken.Relay.Http.{
  is_get, is_put, Request, Response, ReadBody, body_of, refused, read_body, write, write_error,
  write_store_error, ciphertext, empty,
}

-- The answer to a GET of stored bytes. A body that is there is not nil: the store in memory clones one
-- that is not.
abbrev pub write_ciphertext : Reply Bytes → Response
write_ciphertext (err e) = write_store_error e
write_ciphertext (ok body) = write 200 (ciphertext body)

-- A store's answer to a write.
abbrev pub stored : {S : Type 0} → State S → Reply (Unit {0}) × S → Response × State S
stored st (err e, store) = (write_store_error e, record st { store = store })
stored st (ok done, store) = (write 201 empty, record st { store = store })

-- Only the last chunk may be short, and each holds at least one byte behind the tag.
abbrev pub bad_chunk_size : SessionMeta → ℕ → Bytes → Bool
bad_chunk_size sess index body =
    ltb (length body) 17
    || (ltb index (sess.chunk_count - 1) && not (eqb (length body) (chunk_size + chunk_overhead)))

module _ (caps : Caps) {S : Type 0} (t : Store S) where
  unfoldable pub chunk_indexed :
      State S → Request → SessionId → SessionMeta → Bytes → ℕ → Response × State S
  chunk_indexed st r id sess body index =
      if leb sess.chunk_count index
      then (
        (if is_get r.method then write_error 404 "not_found" else write_error 400 "bad_request"),
        st,
      )
      else if is_get r.method
      then (write_ciphertext (t.get_chunk st.store id index), st)
      else if bad_chunk_size sess index body
      then (write_error 400 "bad_request", st)
      else stored st (t.put_chunk st.store id index body)

  unfoldable pub chunk_body :
      State S → Request → SessionId → SessionMeta → Option ℕ → ReadBody → Response × State S
  unfolding chunk_indexed
  chunk_body st r id sess index (refused answer) = (answer, st)
  chunk_body st r id sess (some index) (body_of body) = chunk_indexed st r id sess body index
  chunk_body st r id sess none (body_of body) =
      ((if is_get r.method then write_error 404 "not_found" else write_error 400 "bad_request"), st)

  -- The body is read for a PUT only.
  unfoldable pub chunk : State S → Request → SessionId → SessionMeta → Bytes → Response × State S
  unfolding chunk_body
  chunk st r id sess index_text =
      chunk_body st r id sess (parse_uint index_text)
        (if is_put r.method then read_body r caps.chunk_bytes else body_of [])

  -- The session is read again, since chunks may have come in the meantime.
  unfoldable pub manifest_checked :
      State S → SessionId → Bytes → Reply SessionMeta → Response × State S
  manifest_checked st id body (err e) = (write_store_error e, st)
  manifest_checked st id body (ok sess) =
      if sess.manifest_stored
      then (write_error 409 "already_exists", st)
      else if not (eqb sess.chunks_stored sess.chunk_count)
      then (write_error 409 "chunks_missing", st)
      else stored st (t.put_manifest st.store id body)

  unfoldable pub manifest_body : State S → SessionId → ReadBody → Response × State S
  unfolding manifest_checked
  manifest_body st id (refused answer) = (answer, st)
  manifest_body st id (body_of body) = manifest_checked st id body (t.session st.store id)

  unfoldable pub manifest : State S → Request → SessionId → Response × State S
  unfolding manifest_body
  manifest st r id =
      if is_get r.method
      then (write_ciphertext (t.get_manifest st.store id), st)
      else manifest_body st id (read_body r caps.manifest_bytes)
