-- ===== src/Relay/Handler.antt =====
-- relay/handler.go: the routes, and what each request to a session passes before its own part. Of
-- time, `now` is the first reading of the clock in a request and `later` the one of `join`.
pub mod Access
pub mod Creation
pub mod Upload
use aken.Base.{
  ℕ, Bool, true, false, ◌&&◌, not, Option, none, some, String, Bytes, string_eq, bytes_eq, ◌==◌,
  leb, if◌then◌else◌, is_some,
}
use aken.Protocol.Caps.{Caps}
use aken.Protocol.Crypto.{Crypto}
use aken.Protocol.Api.{SessionId, SessionInfo, parse_session_id, parse_authorization_header}
use aken.Relay.Store.{SessionMeta, StoreError, not_found, exists, internal, Reply, ok, err, Store}
use aken.Relay.Live.{LiveSession}
use aken.Relay.Registry.{State, get_live, drop_locked, delete_and_drop}
use aken.Relay.Http.{
  Method, get, put, post, delete, head, other_method, Route, info, base, manifest, chunk, join,
  jobs, results, unknown, Request, Response, Json, write, write_error, write_store_error, empty,
  unsupported, relay_info, session_info, is_put, is_get, is_delete,
}
use aken.Relay.Create.{create, info_of}
use aken.Relay.BlobRoute
use aken.Relay.SessionRoute
use aken.Relay.SessionRoute.{parse_wait}

-- A request is answered, or it becomes a poll on a live session, of a kind and for some seconds.
pub data Handled (S : Type 0) : Type 0 where
  responds : Response → State S → Handled S
  polls : SessionId → ℕ → String → ℕ → State S → Handled S

abbrev pub from_pair : {S : Type 0} → Response × State S → Handled S
from_pair (r, st) = responds r st

abbrev pub is_base : Route → Bool
is_base base = true
is_base _ = false

abbrev pub is_blob : Route → Bool
is_blob (chunk i) = true
is_blob manifest = true
is_blob _ = false

abbrev pub kind_of : Route → String
kind_of join = "join"
kind_of results = "results"
kind_of _ = "jobs"

abbrev pub is_unknown : Route → Bool
is_unknown unknown = true
is_unknown _ = false

abbrev pub same_bool : Bool → Bool → Bool
same_bool true b = b
same_bool false b = not b

-- What the mux of `NewHandler` routes.
abbrev pub allowed : Route → Method → Bool
allowed info get = true
allowed base put = true
allowed base get = true
allowed base delete = true
allowed (chunk i) put = true
allowed (chunk i) get = true
allowed manifest put = true
allowed manifest get = true
allowed join post = true
allowed join get = true
allowed jobs post = true
allowed jobs get = true
allowed results post = true
allowed results get = true
allowed _ _ = false

module _ (caps : Caps) (c : Crypto) (j : Json) {S : Type 0} (t : Store S) where
  unfoldable pub poll_route : State S → SessionId → ℕ → String → Option ℕ → Handled S
  poll_route st id ref kind none = responds (write_error 400 "bad_request") st
  poll_route st id ref kind (some seconds) = polls id ref kind seconds st

  unfoldable pub session_route : State S → Request → SessionId → SessionMeta → ℕ → ℕ → Handled S
  unfolding poll_route
  session_route st r id sess ref later =
      if is_get r.method
      then poll_route st id ref (kind_of r.route) (parse_wait caps r.wait)
      else if kind_of r.route == "join"
      then from_pair (SessionRoute.join caps j st r sess ref later)
      else from_pair (SessionRoute.post_route caps j st r id ref (kind_of r.route == "results"))

  unfoldable pub blob_route : State S → Request → SessionId → SessionMeta → Route → Handled S
  blob_route st r id sess (chunk i) = from_pair (BlobRoute.chunk caps t st r id sess i)
  blob_route st r id sess _ = from_pair (BlobRoute.manifest caps t st r id)

  abbrev pub joined_at : State S → Option ℕ → Bool
  joined_at st none = false
  joined_at st (some ref) = is_some (st.heap ref).joined

  abbrev pub deleted : State S → SessionId → Reply (Unit {0}) × S → Handled S
  deleted st id (err e, store) = responds (write_store_error e) (record st { store = store })
  deleted st id (ok done, store) =
      responds (write 204 empty) (drop_locked (record st { store = store }) id)

  unfoldable pub base_route : State S → Request → SessionId → SessionMeta → Option ℕ → Handled S
  base_route st r id sess live =
      if is_delete r.method
      then deleted st id (t.delete_session st.store id)
      else responds
          (write 200 (session_info (record (info_of sess id) { joined = joined_at st live }))) st

  -- `live` is there exactly in mode `session`, so the last step is the session's or the blob's.
  unfoldable pub granted : State S → Request → SessionId → SessionMeta → Option ℕ → ℕ → Handled S
  unfolding base_route session_route blob_route
  granted st r id sess live later =
      if is_base r.route
      then base_route st r id sess live
      else if same_bool (is_blob r.route) (sess.mode == "session")
      then responds (write_error 409 "wrong_mode") st
      else elim live [
        | none ↦ blob_route st r id sess r.route
        | some ref ↦ session_route st r id sess ref later
      ]

  unfoldable pub authorised : State S → Request → SessionId → SessionMeta → ℕ → Handled S
  unfolding granted
  authorised st r id sess later =
      if sess.mode == "session"
      then elim (get_live st id) [
        | none ↦ responds (write_error 404 "not_found") st
        | some ref ↦ granted st r id sess (some ref) later
      ]
      else granted st r id sess none later

  -- `found` is what the store says of the session, after an expired one was deleted.
  unfoldable pub identified :
      State S → Request → SessionId → Bytes → ℕ → ℕ → Reply SessionMeta → Handled S
  unfolding authorised
  identified st r id hash now later (err e) =
      if is_base r.route && is_put r.method
      then from_pair (create caps t j st r id hash now)
      else responds (write_error 404 "not_found") st
  identified st r id hash now later (ok sess) =
      if is_base r.route && is_put r.method
      then responds (write_error 409 "already_exists") st
      else if not (hash == sess.credential_hash)
      then responds (write_error 404 "not_found") st
      else authorised st r id sess later

  -- The session is read once more under the registry's mutex before it is deleted.
  unfoldable pub expire :
      State S → Request → SessionId → Bytes → ℕ → ℕ → Reply SessionMeta → Handled S
  unfolding identified
  expire st r id hash now later (err e) = identified st r id hash now later (err e)
  expire st r id hash now later (ok sess) =
      if leb sess.expires_at now
      then identified (delete_and_drop t st id) r id hash now later (err not_found)
      else identified st r id hash now later (ok sess)

  unfoldable pub looked_up :
      State S → Request → SessionId → Bytes → ℕ → ℕ → Reply SessionMeta → Handled S
  unfolding expire
  looked_up st r id hash now later (err not_found) =
      identified st r id hash now later (err not_found)
  looked_up st r id hash now later (err e) = responds (write_store_error e) st
  looked_up st r id hash now later (ok sess) =
      if leb sess.expires_at now
      then expire st r id hash now later (t.session st.store id)
      else identified st r id hash now later (ok sess)

  unfoldable pub parsed : State S → Request → ℕ → ℕ → Option SessionId → Option Bytes → Handled S
  unfolding looked_up
  parsed st r now later none credential = responds (write_error 404 "not_found") st
  parsed st r now later (some id) none = responds (write_error 404 "not_found") st
  parsed st r now later (some id) (some credential) =
      looked_up st r id (c.sha256 credential) now later (t.session st.store id)

  unfoldable pub handle_session : State S → Request → ℕ → ℕ → Handled S
  unfolding parsed
  handle_session st r now later =
      if not (r.protocol == "1")
      then responds (write 426 unsupported) st
      else parsed st r now later (parse_session_id r.sid)
          (parse_authorization_header r.authorization)

  unfoldable pub serve_route : State S → Request → ℕ → ℕ → Route → Handled S
  unfolding handle_session
  serve_route st r now later info = responds (write 200 (relay_info caps)) st
  serve_route st r now later unknown = responds (write_error 404 "not_found") st
  serve_route st r now later _ = handle_session st r now later

  -- The mux, which ServeHTTP asks only for methods that the patterns name. HEAD is not one.
  unfoldable pub serve_http : State S → Request → ℕ → ℕ → Handled S
  unfolding serve_route
  serve_http st r now later =
      if is_unknown r.route
      then responds (write_error 404 "not_found") st
      else if not (allowed r.route r.method)
      then responds (write_error 405 "method_not_allowed") st
      else serve_route st r now later r.route
