-- ===== src/Relay/SessionRoute.antt =====
-- `sessionRoute` and `join` of relay/handler.go: the routes of a live session.
use aken.Base.Signed.{ℤ, is_negative, magnitude, above}
use aken.Base.{
  ℕ, ◌+◌, ◌*◌, ◌/◌, ◌^◌, Bool, ◌&&◌, ◌||◌, not, Option, none, some, List, [], ◌∷◌, Bytes, string_eq,
  ◌==◌, eqb, ltb, min, max, if◌then◌else◌, is_some, length,
}
use aken.Encoding.Decimal.{atoi}
use aken.Protocol.Caps.{Caps, class_read}
use aken.Protocol.Api.{SessionId, JoinRequest, JoinInfo, encode_key, decode_key}
use aken.Protocol.Envelope.{Envelope, validate}
use aken.Relay.Store.{SessionMeta}
use aken.Relay.Live.{LiveSession, Answer, post, join_live}
use aken.Relay.Registry.{State, write_live}
use aken.Relay.Http.{
  Request, Response, Json, ReadBody, body_of, refused, read_body, write, write_error, join_info,
  empty,
}

-- The value of `wait`, or none where the request is bad.
unfoldable pub wait_value : ℕ → Option ℤ → Option ℕ
wait_value limit none = none
wait_value limit (some n) = if is_negative n || above n limit then none else some (magnitude n)

unfoldable pub parse_wait : Caps → List Bytes → Option ℕ
unfolding wait_value
parse_wait caps [] = some 0
parse_wait caps (v ∷ []) = wait_value (min 30 caps.wait_max_seconds) (atoi v)
parse_wait caps (v ∷ w ∷ rest) = none

-- Room for base64 and JSON round the payload.
abbrev pub body_cap : ℕ → ℕ
body_cap cap_bytes = max (2 * 2 ^ 20) (4 * ((cap_bytes + 2) / 3) + 1024)

-- A live session as one answer of `post` leaves it.
abbrev pub posted : {S : Type 0} → State S → ℕ → Answer × LiveSession → Response × State S
posted st ref (a, live) = (
  (if a.code == "" then write a.status empty else write_error a.status a.code),
  write_live st ref live,
)

abbrev pub payload_cap : Caps → Bool → ℕ
payload_cap caps results = if results then caps.result_bytes else caps.job_bytes

abbrev pub is_good_join : JoinRequest → Bool
is_good_join q =
    is_some (decode_key q.mcp_key)
    && is_some (decode_key q.mcp_mac)
    && (q.via == "cli" || q.via == "chat")

abbrev pub join_info_of : SessionMeta → JoinRequest → ℕ → JoinInfo
join_info_of sess q now = record {
  collector_key = encode_key sess.collector_key;
  collector_mac = encode_key sess.collector_mac;
  mcp_key = q.mcp_key;
  mcp_mac = q.mcp_mac;
  via = q.via;
  joined_at = now;
}

module _ (caps : Caps) {S : Type 0} (j : Json) where
  unfoldable pub post_envelope :
      State S → SessionId → ℕ → Bool → Option Envelope → Response × State S
  post_envelope st id ref results none = (write_error 400 "bad_request", st)
  post_envelope st id ref results (some e) =
      if not (validate e id (length e.payload))
      then (write_error 400 "bad_request", st)
      else if not (eqb e.class class_read)
      then (write_error 403 "class_not_allowed", st)
      else if ltb (payload_cap caps results) (length e.payload)
      then (write_error 413 "too_large", st)
      else posted st ref (post (st.heap ref) e results caps.queue_length)

  unfoldable pub post_body : State S → SessionId → ℕ → Bool → ReadBody → Response × State S
  unfolding post_envelope
  post_body st id ref results (refused answer) = (answer, st)
  post_body st id ref results (body_of body) = post_envelope st id ref results (j.envelope body)

  -- POST of a job, or of a result.
  unfoldable pub post_route : State S → Request → SessionId → ℕ → Bool → Response × State S
  unfolding post_body
  post_route st r id ref results =
      let live = st.heap ref in
      if live.gone
      then (write_error 404 "not_found", st)
      else if not (is_some live.joined)
      then (write_error 409 "not_joined", st)
      else post_body st id ref results (read_body r (body_cap (payload_cap caps results)))

  abbrev pub joined_answer : State S → ℕ → JoinInfo → Answer × LiveSession → Response × State S
  joined_answer st ref info (a, live) = (
    (if a.code == "" then write a.status (join_info info) else write_error a.status a.code),
    write_live st ref live,
  )

  unfoldable pub join_request :
      State S → SessionMeta → ℕ → ℕ → Option JoinRequest → Response × State S
  join_request st sess ref now none = (write_error 400 "bad_request", st)
  join_request st sess ref now (some q) =
      if not (is_good_join q)
      then (write_error 400 "bad_request", st)
      else (let info = join_info_of sess q now in
          joined_answer st ref info (join_live (st.heap ref) info))

  unfoldable pub join_body : State S → SessionMeta → ℕ → ℕ → ReadBody → Response × State S
  unfolding join_request
  join_body st sess ref now (refused answer) = (answer, st)
  join_body st sess ref now (body_of body) = join_request st sess ref now (j.join_request body)

  unfoldable pub join : State S → Request → SessionMeta → ℕ → ℕ → Response × State S
  unfolding join_body
  join st r sess ref now =
      let live = st.heap ref in
      if live.gone
      then (write_error 404 "not_found", st)
      else if is_some live.joined
      then (write_error 409 "already_exists", st)
      else join_body st sess ref now (read_body r (2 * 2 ^ 20))
