-- ===== src/Relay/Handler/Creation.antt =====
-- What `create` of relay/handler.go leaves behind.
use aken.Base.Map.{get-insert}
use aken.Base.Signed.{pos, is_negative, above}
use aken.Base.{
  length, ltb, leb, eqb, ◌&&◌, from_some, String, ◌^◌, ◌⊎◌, if◌then◌else◌, ◌==◌, is_some, false,
  eq_iff, sym, subst, ℕ, ◌+◌, ◌*◌, ◌≤◌, ◌≡◌, ◌≢◌, refl, ap, ◌∙◌, true, false, Option, none, some,
  Bytes, arith, bytes_eq, string_eq, ==-refl,
}
use aken.Protocol.Caps.{Caps}
use aken.Protocol.Api.{SessionId, CreateSessionRequest, decode_key}
use aken.Relay.Store.{
  SessionMeta, Reply, ok, err, not_found, exists, internal, Store, SessionLaws, fresh,
}
use aken.Relay.Live.{new_live}
use aken.Relay.Registry.{State, get_live, drop_locked, add_live}
use aken.Relay.Http.{Request, Response, Json, ReadBody, body_of, refused, read_body}
use aken.Relay.Create.{
  zero_key, nanoseconds, mode_of, is_valid_request, ttl_of, meta_of, register, created,
  create_request, create_body, create,
}
use aken.Relay.Registry.Dropped.{drop_locked_clears, drop_locked_store}
use aken.Relay.Http.Bodies.{read_body_refuses, read_body_whole}

module _ (caps : Caps) (q : CreateSessionRequest) (hash : Bytes) (now : ℕ) where
  -- If both default lifetimes are within the cap, a request whose lifetime is not negative and
  -- not above the cap makes a session that expires at most the capped lifetime from now.
  pub expires_in_time :
      caps.ttl_default_seconds ≤ caps.ttl_max_seconds
      → caps.session_ttl_default_seconds ≤ caps.ttl_max_seconds
      → above q.ttl_seconds caps.ttl_max_seconds ≡ false
      → is_negative q.ttl_seconds ≡ false
      → (meta_of caps q hash now).expires_at ≤ now + caps.ttl_max_seconds * nanoseconds
  unfolding meta_of
  expires_in_time d s a n = let short = ttl_of-le d s a n in grind (arith, short)
    where
      ttl_of-le :
          caps.ttl_default_seconds ≤ caps.ttl_max_seconds
          → caps.session_ttl_default_seconds ≤ caps.ttl_max_seconds
          → above q.ttl_seconds caps.ttl_max_seconds ≡ false
          → is_negative q.ttl_seconds ≡ false
          → ttl_of caps q ≤ caps.ttl_max_seconds
      ttl_of-le d s a n = unfold ttl_of in ground arith

-- The metadata of the session that a request asks for, field by field, where the request is one that
-- the relay takes.
pub record Asked (caps : Caps) (q : CreateSessionRequest) (hash : Bytes) (now : ℕ) (m : SessionMeta)
    : Type 0 where
  pub unnamed : q.mode ≡ "" → m.mode ≡ "blob"
  pub named : q.mode ≢ "" → m.mode ≡ q.mode
  pub known : (m.mode ≡ "blob") ⊎ (m.mode ≡ "session")
  pub chunks : m.mode ≡ "blob" → (1 ≤ q.chunk_count) × (q.chunk_count ≤ caps.chunk_count)
  pub no_chunks : m.mode ≡ "session" → q.chunk_count ≡ 0
  pub keys :
      m.mode ≡ "session"
      → (decode_key q.collector_key ≡ some m.collector_key)
        × (decode_key q.collector_mac ≡ some m.collector_mac)
  pub not_negative : is_negative q.ttl_seconds ≡ false
  pub lifetime :
      (n : ℕ)
      → q.ttl_seconds ≡ pos n
      → 1 ≤ n
      → (n ≤ caps.ttl_max_seconds) × (m.expires_at ≡ now + n * 10 ^ 9)
  pub blob_default :
      q.ttl_seconds ≡ pos 0
      → m.mode ≡ "blob"
      → m.expires_at ≡ now + caps.ttl_default_seconds * 10 ^ 9
  pub live_default :
      q.ttl_seconds ≡ pos 0
      → m.mode ≡ "session"
      → m.expires_at ≡ now + caps.session_ttl_default_seconds * 10 ^ 9
  pub credential : m.credential_hash ≡ hash
  pub counted : m.chunk_count ≡ q.chunk_count
  pub none_stored : m.chunks_stored ≡ 0
  pub no_manifest : m.manifest_stored ≡ false

-- What is there after a session was created: its metadata under the credential's hash, and a new live
-- session exactly in mode `session`, whatever was registered before.
pub record Created (caps : Caps) {S : Type 0} (t : Store S) (st' : State S)
    (request : CreateSessionRequest) (id : SessionId) (hash : Bytes) (now : ℕ) : Type 0 where
  pub meta : SessionMeta
  pub asked : Asked caps request hash now meta
  pub stored : t.session st'.store id ≡ ok meta
  pub live :
      meta.mode ≡ "session"
      → (ref : ℕ) × (get_live st' id ≡ some ref) × (st'.heap ref ≡ new_live meta.expires_at)
  pub not_live : meta.mode ≢ "session" → get_live st' id ≡ none

module _ (caps : Caps) (q : CreateSessionRequest) (hash : Bytes) (now : ℕ)
    (valid : is_valid_request caps q ≡ true) (low : is_negative q.ttl_seconds ≡ false)
    (within : above q.ttl_seconds caps.ttl_max_seconds ≡ false) where
  blob_valid :
      mode_of q ≡ "blob" → (ltb 0 q.chunk_count && leb q.chunk_count caps.chunk_count) ≡ true
  unfolding is_valid_request
  blob_valid m = rw m at valid

  live_valid :
      mode_of q ≡ "session"
      → (eqb q.chunk_count 0
          && is_some (decode_key q.collector_key)
          && is_some (decode_key q.collector_mac))
        ≡ true
  unfolding is_valid_request
  live_valid m = rw m at valid

  live_keys :
      mode_of q ≡ "session"
      → (decode_key q.collector_key ≡ some (meta_of caps q hash now).collector_key)
        × (decode_key q.collector_mac ≡ some (meta_of caps q hash now).collector_mac)
  unfolding meta_of
  live_keys m = rw m (
    from_there (decode_key q.collector_key) (ground (arith, live_valid m)),
    from_there (decode_key q.collector_mac) (ground (arith, live_valid m)),
  )
    where
      from_there : (o : Option Bytes) → is_some o ≡ true → o ≡ some (from_some zero_key o)
      from_there none h = ground arith
      from_there (some k) h = refl

  default_ttl :
      (x : String) (n : ℕ)
      → q.ttl_seconds ≡ pos 0
      → mode_of q ≡ x
      → (if x == "session" then caps.session_ttl_default_seconds else caps.ttl_default_seconds) ≡ n
      → (meta_of caps q hash now).expires_at ≡ now + n * 10 ^ 9
  unfolding meta_of ttl_of
  default_ttl x n e m d = rw (e, m, d) refl

  meta_of-Asked : Asked caps q hash now (meta_of caps q hash now)
  unfolding is_valid_request meta_of ttl_of
  meta_of-Asked = record {
    unnamed = λ e. ground (arith, eq_iff q.mode "");
    named = λ e. ground (arith, eq_iff q.mode "");
    known = ground (
      arith,
      eq_iff q.mode "",
      eq_iff q.mode "blob",
      eq_iff q.mode "session",
      eq_iff (mode_of q) "blob",
      eq_iff (mode_of q) "session",
    );
    chunks = λ e. ground (arith, blob_valid e);
    no_chunks = λ e. ground (arith, live_valid e);
    keys = live_keys;
    not_negative = low;
    lifetime = λ n e k. ground (
      arith,
      eq_iff q.mode "",
      eq_iff q.mode "blob",
      eq_iff q.mode "session",
      eq_iff (mode_of q) "blob",
      eq_iff (mode_of q) "session",
    );
    blob_default = λ e m. default_ttl "blob" caps.ttl_default_seconds e m refl;
    live_default = λ e m. default_ttl "session" caps.session_ttl_default_seconds e m refl;
    credential = refl;
    counted = refl;
    none_stored = refl;
    no_manifest = refl;
  }

module _ (caps : Caps) {S : Type 0} (t : Store S) (j : Json) (laws : SessionLaws t) where
  register_live :
      (st : State S) (id : SessionId) (sess : SessionMeta)
      → sess.mode ≡ "session"
      → (get_live (register caps t j st id sess) id ≡ some (drop_locked st id).free)
        × ((register caps t j st id sess).heap (drop_locked st id).free ≡ new_live sess.expires_at)
        × ((register caps t j st id sess).store ≡ (drop_locked st id).store)
  unfolding register add_live
  register_live st id sess m = ground (
    arith,
    eq_iff sess.mode "session",
    get-insert (drop_locked st id).sessions id id (drop_locked st id).free,
    ==-refl id,
  )

  register_blob :
      (st : State S) (id : SessionId) (sess : SessionMeta)
      → sess.mode ≢ "session"
      → register caps t j st id sess ≡ drop_locked st id
  unfolding register
  register_blob st id sess m = ground (arith, eq_iff sess.mode "session")

  register_store :
      (st : State S) (id : SessionId) (sess : SessionMeta)
      → (register caps t j st id sess).store ≡ (drop_locked st id).store
  unfolding register add_live
  register_store st id sess = ground arith

  unchanged :
      (q : CreateSessionRequest) (hash : Bytes) (now : ℕ)
      → ok (fresh (meta_of caps q hash now)) ≡ ok (meta_of caps q hash now)
  unfolding meta_of
  unchanged q hash now = refl

  register-Created :
      (st : State S) (id : SessionId) (q : CreateSessionRequest) (hash : Bytes) (now : ℕ)
      → Asked caps q hash now (meta_of caps q hash now)
      → t.session st.store id ≡ ok (fresh (meta_of caps q hash now))
      → Created caps t (register caps t j st id (meta_of caps q hash now)) q id hash now
  register-Created st id q hash now a s =
      let sess = meta_of caps q hash now in
      record {
        meta = sess;
        asked = a;
        stored =
            ap (λ m. t.session m id) (register_store st id sess ∙ drop_locked_store st id)
            ∙ s
            ∙ unchanged q hash now;
        live = λ m.
            let (found, made, kept) = register_live st id sess m in
            ((drop_locked st id).free, found, made);
        not_live =
            λ n. ap (λ x. get_live x id) (register_blob st id sess n) ∙ drop_locked_clears st id;
      }

  created_sound :
      (st st' : State S) (id : SessionId) (q : CreateSessionRequest) (hash : Bytes) (now : ℕ)
      (answer : Reply (Unit {0}) × S) (resp : Response)
      → Asked caps q hash now (meta_of caps q hash now)
      → t.create_session st.store id (meta_of caps q hash now) ≡ answer
      → created caps t j st id (meta_of caps q hash now) answer ≡ (resp, st')
      → resp.status ≡ 201
      → Created caps t st' q id hash now
  unfolding created
  created_sound st st' id q hash now (err not_found, s) resp k a h e = absurd (ground arith)
  created_sound st st' id q hash now (err exists, s) resp k a h e = absurd (ground arith)
  created_sound st st' id q hash now (err internal, s) resp k a h e = absurd (ground arith)
  created_sound st st' id q hash now (ok done, s) resp k a h e =
      subst (λ x. Created caps t x q id hash now) (ap (λ (p : Response × State S). p.1) h)
        (register-Created (record st { store = s }) id q hash now k
          (laws.session-create st.store s id (meta_of caps q hash now) a))

  create_request_sound :
      (st st' : State S) (id : SessionId) (hash : Bytes) (now : ℕ) (o : Option CreateSessionRequest)
      (resp : Response)
      → create_request caps t j st id hash now o ≡ (resp, st')
      → resp.status ≡ 201
      → (q : CreateSessionRequest) × (o ≡ some q) × Created caps t st' q id hash now
  unfolding create_request
  create_request_sound st st' id hash now none resp h e = absurd (ground arith)
  create_request_sound st st' id hash now (some q) resp h e = (
    q,
    refl,
    created_sound st st' id q hash now (t.create_session st.store id (meta_of caps q hash now)) resp
        (meta_of-Asked caps q hash now (ground arith) (ground arith) (ground arith)) refl
        (ground arith) e,
  )

  create_body_sound :
      (st st' : State S) (id : SessionId) (hash : Bytes) (now : ℕ) (read : ReadBody)
      (resp : Response)
      → ((why : Response) → read ≡ refused why → why.status ≢ 201)
      → create_body caps t j st id hash now read ≡ (resp, st')
      → resp.status ≡ 201
      → (body : Bytes) × (q : CreateSessionRequest) × (read ≡ body_of body)
        × (j.create_request body ≡ some q)
        × Created caps t st' q id hash now
  unfolding create_body
  create_body_sound st st' id hash now (refused why) resp n h e = absurd (n why refl (ground arith))
  create_body_sound st st' id hash now (body_of body) resp n h e =
      let (q, decoded, c) =
        create_request_sound st st' id hash now (j.create_request body) resp h e in
      (body, q, refl, decoded, c)

  -- Over a store that keeps the laws on sessions, a creation that answers 201 has a body of at most
  -- 2 MiB that decodes to a request which the relay takes: its mode is empty, for `blob`, or one of
  -- the two, its chunk count is 1 to the cap in mode `blob` and 0 in mode `session`, where its keys
  -- decode, and its lifetime is not negative and within the cap. The store then has the session
  -- that the request asks for: its mode, chunk count and keys, the credential's hash, its lifetime
  -- from now, or the default of its mode for 0, and nothing stored. The registry has a new live
  -- session with this expiry in mode `session`, and none in mode `blob`.
  pub create_sound :
      (st st' : State S) (r : Request) (id : SessionId) (hash : Bytes) (now : ℕ) (resp : Response)
      → create caps t j st r id hash now ≡ (resp, st')
      → resp.status ≡ 201
      → (q : CreateSessionRequest) × (length r.body ≤ 2 * 2 ^ 20)
        × (j.create_request r.body ≡ some q)
        × Created caps t st' q id hash now
  unfolding create
  create_sound st st' r id hash now resp h e =
      let (body, q, read, decoded, c) =
        create_body_sound st st' id hash now (read_body r 2097152) resp
          (read_body_refuses r 2097152) h e in
      let (same, few) = read_body_whole r 2097152 body read in
      (q, few, sym (ap j.create_request same) ∙ decoded, c)
