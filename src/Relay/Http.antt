-- ===== src/Relay/Http.antt =====
-- What the relay's handler reads of a request and writes of a response (relay/handler.go). The text
-- of an error's message is not modelled, its code is. encoding/json is a parameter.
pub mod Bodies
use aken.Base.{
  ℕ, ◌≡◌, Bool, true, false, Option, none, some, List, String, Bytes, ltb, if◌then◌else◌, length,
}
use aken.Protocol.Caps.{Caps}
use aken.Protocol.Api.{CreateSessionRequest, SessionInfo, JoinRequest, JoinInfo}
use aken.Protocol.Envelope.{Envelope}
use aken.Relay.Store.{StoreError, not_found, exists, internal}

pub data Method : Type 0 where
  get put post delete head other_method : Method

abbrev pub is_put : Method → Bool
is_put put = true
is_put _ = false

abbrev pub is_get : Method → Bool
is_get get = true
is_get _ = false

abbrev pub is_delete : Method → Bool
is_delete delete = true
is_delete _ = false

-- The patterns that `NewHandler` gives to the mux; `chunk` holds the text of `{index}`.
pub data Route : Type 0 where
  info base manifest join jobs results unknown : Route
  chunk : Bytes → Route

pub record Request : Type 0 where
  pub method : Method
  pub route : Route
  pub protocol : String
  pub sid : Bytes
  pub authorization : Bytes
  -- every value of the query's `wait`; none if it is absent
  pub wait : List Bytes
  -- what can be read of the body, and whether reading then fails
  pub body : Bytes
  pub broken : Bool

pub data Content : Type 0 where
  empty unsupported : Content
  error : String → Content
  relay_info : Caps → Content
  session_info : SessionInfo → Content
  join_info : JoinInfo → Content
  messages : List Envelope → Content
  ciphertext : Bytes → Content

pub record Response : Type 0 where
  pub status : ℕ
  pub content : Content

abbrev pub write : ℕ → Content → Response
write status content = record { status = status; content = content }

abbrev pub write_error : ℕ → String → Response
write_error status code = write status (error code)

abbrev pub write_store_error : StoreError → Response
write_store_error not_found = write_error 404 "not_found"
write_store_error exists = write_error 409 "already_exists"
write_store_error internal = write_error 500 "internal"

-- json.Unmarshal into each of the three request types.
pub record Json : Type 0 where
  pub create_request : Bytes → Option CreateSessionRequest
  pub join_request : Bytes → Option JoinRequest
  pub envelope : Bytes → Option Envelope

pub data ReadBody : Type 0 where
  body_of : Bytes → ReadBody
  refused : Response → ReadBody

-- The reader stops one byte past the cap, so a body that is too long is seen as such first.
unfoldable pub read_body : Request → ℕ → ReadBody
read_body r cap_bytes =
    if ltb cap_bytes (length r.body)
    then refused (write_error 413 "too_large")
    else if r.broken
    then refused (write_error 400 "bad_request")
    else body_of r.body
