-- ===== src/Relay/Create.antt =====
-- `create` and `info` of relay/handler.go: PUT /v0/sessions/{sid}.
use aken.Base.Signed.{is_negative, magnitude, above}
use aken.Base.{
  ℕ, ◌+◌, ◌*◌, ◌^◌, Bool, false, ◌&&◌, not, Option, none, some, String, Bytes, string_eq, ◌==◌, eqb,
  ltb, leb, if◌then◌else◌, is_some, from_some, replicate,
}
use aken.Encoding.Alphabet.{codes}
use aken.Protocol.Caps.{Caps}
use aken.Protocol.Api.{
  SessionId, CreateSessionRequest, SessionInfo, session_id_text, encode_key, decode_key,
}
use aken.Relay.Store.{SessionMeta, Reply, ok, err, Store}
use aken.Relay.Registry.{State, drop_locked, add_live}
use aken.Relay.Http.{
  Request, Response, Json, ReadBody, body_of, refused, read_body, write, write_error,
  write_store_error, session_info,
}

-- An empty [32]byte.
abbrev pub zero_key : Bytes
zero_key = replicate 32 0

abbrev pub nanoseconds : ℕ
nanoseconds = 10 ^ 9

unfoldable pub info_of : SessionMeta → SessionId → SessionInfo
info_of sess id =
    let mode = if sess.mode == "" then "blob" else sess.mode in
    let live = mode == "session" in
    record {
      mode = mode;
      joined = false;
      collector_key = if live then encode_key sess.collector_key else codes "";
      collector_mac = if live then encode_key sess.collector_mac else codes "";
      session_id = session_id_text id;
      expires_at = sess.expires_at;
      chunk_count = sess.chunk_count;
      chunks_stored = sess.chunks_stored;
      manifest_stored = sess.manifest_stored;
    }

-- An empty mode is `blob`.
abbrev pub mode_of : CreateSessionRequest → String
mode_of q = if q.mode == "" then "blob" else q.mode

module _ (caps : Caps) where
  unfoldable pub is_valid_request : CreateSessionRequest → Bool
  is_valid_request q =
      let mode = mode_of q in
      if mode == "blob"
      then ltb 0 q.chunk_count && leb q.chunk_count caps.chunk_count
      else if mode == "session"
      then eqb q.chunk_count 0
        && is_some (decode_key q.collector_key)
        && is_some (decode_key q.collector_mac)
      else false

  unfoldable pub ttl_of : CreateSessionRequest → ℕ
  ttl_of q =
      let ttl = magnitude q.ttl_seconds in
      if not (eqb ttl 0)
      then ttl
      else if mode_of q == "session"
      then caps.session_ttl_default_seconds
      else caps.ttl_default_seconds

  -- The keys are decoded in mode `session` only. For caps whose lifetimes fit in a Duration, below 2^63
  -- nanoseconds, the product does not overflow.
  unfoldable pub meta_of : CreateSessionRequest → Bytes → ℕ → SessionMeta
  unfolding ttl_of
  meta_of q hash now =
      let live = mode_of q == "session" in
      record {
        mode = mode_of q;
        collector_key = if live then from_some zero_key (decode_key q.collector_key) else zero_key;
        collector_mac = if live then from_some zero_key (decode_key q.collector_mac) else zero_key;
        credential_hash = hash;
        expires_at = now + ttl_of q * nanoseconds;
        chunk_count = q.chunk_count;
        chunks_stored = 0;
        manifest_stored = false;
      }

  module _ {S : Type 0} (t : Store S) (j : Json) where
    unfoldable pub register : State S → SessionId → SessionMeta → State S
    register st id sess =
        let dropped = drop_locked st id in
        if sess.mode == "session" then add_live dropped id sess.expires_at else dropped

    unfoldable pub created :
        State S → SessionId → SessionMeta → Reply (Unit {0}) × S → Response × State S
    unfolding register info_of
    created st id sess (err e, store) = (write_store_error e, record st { store = store })
    created st id sess (ok done, store) =
        (write 201 (session_info (info_of sess id)), register (record st { store = store }) id sess)

    unfoldable pub create_request :
        State S → SessionId → Bytes → ℕ → Option CreateSessionRequest → Response × State S
    unfolding created is_valid_request meta_of
    create_request st id hash now none = (write_error 400 "bad_request", st)
    create_request st id hash now (some q) =
        if is_negative q.ttl_seconds
        then (write_error 400 "bad_request", st)
        else if not (is_valid_request q)
        then (write_error 400 "bad_request", st)
        else if above q.ttl_seconds caps.ttl_max_seconds
        then (write_error 400 "ttl_too_long", st)
        else (let sess = meta_of q hash now in
            created st id sess (t.create_session st.store id sess))

    unfoldable pub create_body : State S → SessionId → Bytes → ℕ → ReadBody → Response × State S
    create_body st id hash now (refused r) = (r, st)
    create_body st id hash now (body_of body) =
        create_request st id hash now (j.create_request body)

    unfoldable pub create : State S → Request → SessionId → Bytes → ℕ → Response × State S
    unfolding create_body create_request
    create st r id hash now = create_body st id hash now (read_body r (2 * 2 ^ 20))
