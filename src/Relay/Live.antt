-- ===== src/Relay/Live.antt =====
-- relay/session.go: a live session, with its two queues of envelopes. Each method runs under the
-- session's mutex, so it is one step here. `changed` stands for the channel that wakes waiting polls:
-- a new one takes its place each time, so it is a number that grows.
pub mod Numbered
pub mod History
pub mod Retry
use aken.Base.{
  is_empty, ℕ, ◌+◌, ◌%◌, ◌^◌, ◌≡◌, Bool, true, false, ◌&&◌, not, Option, none, some, List, [], ◌∷◌,
  ◌++◌, String, Bytes, bytes_eq, nat_eq, string_eq, ◌==◌, leb, if◌then◌else◌, is_some, length,
}
use aken.Protocol.Api.{JoinInfo}
use aken.Protocol.Envelope.{Envelope}

pub record LiveSession : Type 0 where
  pub joined : Option JoinInfo
  pub jobs : List Envelope
  pub results : List Envelope
  pub next_job : ℕ
  pub next_result : ℕ
  pub last_job : Option Envelope
  pub last_result : Option Envelope
  pub changed : ℕ
  pub gone : Bool
  pub expires_at : ℕ

abbrev pub new_live : ℕ → LiveSession
new_live expires_at = record {
  joined = none;
  jobs = [];
  results = [];
  next_job = 1;
  next_result = 1;
  last_job = none;
  last_result = none;
  changed = 0;
  gone = false;
  expires_at = expires_at;
}

unfoldable pub notify : LiveSession → LiveSession
notify live = record live { changed = live.changed + 1 }

-- What `dropLocked` does to the session itself.
unfoldable pub drop_live : LiveSession → LiveSession
unfolding notify
drop_live live =
    notify
      (record live { gone = true; jobs = []; results = []; last_job = none; last_result = none })

-- The three variables that `post` points at: `pending`, `next` and `last`.
pub record Channel : Type 0 where
  pub pending : List Envelope
  pub next : ℕ
  pub last : Option Envelope

abbrev pub channel : LiveSession → Bool → Channel
channel live false = record { pending = live.jobs; next = live.next_job; last = live.last_job }
channel live true = record {
  pending = live.results;
  next = live.next_result;
  last = live.last_result;
}

abbrev pub with_channel : LiveSession → Bool → Channel → LiveSession
with_channel live false c = record live { jobs = c.pending; next_job = c.next; last_job = c.last }
with_channel live true c = record live {
  results = c.pending;
  next_result = c.next;
  last_result = c.last;
}

abbrev pub same_envelope : Envelope → Envelope → Bool
same_envelope e f =
    e.seq == f.seq
    && e.version == f.version
    && e.session_id == f.session_id
    && e.class == f.class
    && e.payload == f.payload

abbrev pub is_repeat : Envelope → Option Envelope → Bool
is_repeat e none = false
is_repeat e (some last) = same_envelope e last

-- An HTTP status, and an error code that is "" on success.
pub record Answer : Type 0 where
  pub status : ℕ
  pub code : String

abbrev pub answer : ℕ → String → Answer
answer status code = record { status = status; code = code }

-- `next` is a uint64.
abbrev pub accept : Channel → Envelope → Channel
accept c e = record { pending = c.pending ++ e ∷ []; next = (c.next + 1) % 2 ^ 64; last = some e }

unfoldable pub post : LiveSession → Envelope → Bool → ℕ → Answer × LiveSession
unfolding notify
post live e results max_queue =
    let c = channel live results in
    if live.gone
    then (answer 404 "not_found", live)
    else if not (is_some live.joined)
    then (answer 409 "not_joined", live)
    else if is_repeat e c.last
    then (answer 202 "", live)
    else if not (e.seq == c.next)
    then (answer 409 "bad_sequence", live)
    else if leb max_queue (length c.pending)
    then (answer 429 "queue_full", live)
    else (answer 202 "", notify (with_channel live results (accept c e)))

-- The last part of `join` of relay/handler.go, under the session's mutex.
unfoldable pub join_live : LiveSession → JoinInfo → Answer × LiveSession
unfolding notify
join_live live info =
    if live.gone
    then (answer 404 "not_found", live)
    else if is_some live.joined
    then (answer 409 "already_exists", live)
    else (answer 201 "", notify (record live { joined = some info }))

pub data Delivery : Type 0 where
  nothing : Delivery
  joined_info : JoinInfo → Delivery
  messages : List Envelope → Delivery

abbrev pub join_delivery : Option JoinInfo → Delivery
join_delivery none = nothing
join_delivery (some info) = joined_info info

-- The part of a poll's round that may answer: what it delivers, and the session after it.
unfoldable pub deliver : LiveSession → String → Delivery × LiveSession
unfolding notify
deliver live kind =
    let results = kind == "results" in
    let c = channel live results in
    if kind == "join"
    then (join_delivery live.joined, live)
    else if is_empty c.pending
    then (nothing, live)
    else (messages c.pending, notify (with_channel live results (record c { pending = [] })))
