-- ===== src/Limits/Allowance.antt =====
-- `allowance` and `Middleware` of internal/relayserver/limits/limits.go. The next handler is a
-- parameter that answers with a status and may change its own state; it runs between the two parts
-- that hold the limiter's mutex.
use aken.Base.Map
use aken.Base.Map.{Map}
use aken.Base.Pruned.{delete_where}
use aken.Base.{
  ℕ, ◌+◌, ◌-◌, ◌/◌, ◌^◌, max, Bool, false, ◌&&◌, ◌||◌, not, Option, none, some, List, [], ◌∷◌,
  String, Bytes, bytes_eq, string_eq, ◌==◌, eqb, ltb, leb, if◌then◌else◌, is_some, from_some,
  length, drop, any,
}
use aken.Encoding.Cut.{before}
use aken.Encoding.Alphabet.{codes}
use aken.Protocol.Api.{SessionId, has_prefix, parse_session_id}
use aken.Limits.{Rate, Net, Config, Request, Creator, Limiter, Verdict, stale, client_ip, check}

abbrev pub sessions_path : Bytes
sessions_path = codes "/v0/sessions/"

-- strings.CutPrefix
unfoldable pub cut_prefix : Bytes → Bytes → Option Bytes
cut_prefix s prefix = if has_prefix s prefix then some (drop (length prefix) s) else none

-- Whether the request is a PUT of a session itself.
abbrev pub creates_session : Request → Bool
creates_session r = elim (cut_prefix r.path sessions_path) [
  | none ↦ false
  | some suffix ↦ r.is_put && not (eqb (length suffix) 0) && not (any (λ b. eqb b b'/') suffix)
]

abbrev pub session_of : Request → Option SessionId
session_of r = elim (cut_prefix r.path sessions_path) [
  | none ↦ none
  | some suffix ↦ parse_session_id (before b'/' suffix)
]

-- The oldest time of the loop over the pairs; none is the zero time.
unfoldable pub oldest_of : Option ℕ → List ℕ → Option ℕ
oldest_of oldest [] = oldest
oldest_of none (last ∷ times) = oldest_of (some last) times
oldest_of (some t) (last ∷ times) = oldest_of (some (if ltb last t then last else t)) times

-- wait.Seconds(), rounded up, and at least 1.
abbrev pub retry_after : ℕ → ℕ → Option ℕ → ℕ
retry_after window now none = 1
retry_after window now (some oldest) = max 1 ((oldest + window - now + (10 ^ 9 - 1)) / 10 ^ 9)

-- How a request ends: the next handler's status, or a refusal with its code and Retry-After, where
-- 0 stands for no such header.
pub data Outcome : Type 0 where
  passed : ℕ → Outcome
  refused : ℕ → String → ℕ → Outcome

-- The pairs of a client, after the loop that deletes stale ones; a nil map stays nil.
abbrev pub fresh_pairs : Config → ℕ → Option (Map Bytes ℕ) → Map Bytes ℕ
fresh_pairs cfg now none = Map.empty
fresh_pairs cfg now (some pairs) = delete_where (stale cfg.allowance_window now) pairs

module _ {L : Type 0} where
  abbrev pub store_pairs : Limiter L → Bytes → Option (Map Bytes ℕ) → Map Bytes ℕ → Limiter L
  store_pairs l key none pairs = l
  store_pairs l key (some was) pairs = record l { paired = Map.insert l.paired key pairs }

  -- l.paired[key][server] = now, which makes the inner map if there is none
  unfoldable pub pair : Limiter L → Bytes → Bytes → ℕ → Limiter L
  pair l key server now =
      let pairs = from_some Map.empty (Map.get l.paired key) in
      record l { paired = Map.insert l.paired key (Map.insert pairs server now) }

-- The address counts by its /64 network if it is of version 6.
abbrev pub client_key : Net → Bytes → Bytes
client_key net ip = if net.is_v4 ip then ip else net.network_64 ip

module _ {L W : Type 0} (rate : Rate L) (net : Net) (cfg : Config)
    (next : Request → W → ℕ × W) where
  abbrev pub serve : Limiter L → Request → ℕ × W → Outcome × Limiter L × W
  serve l r (status, w) = (passed status, l, w)

  -- A creation that answers 201 is remembered with its client.
  abbrev pub created : Limiter L → SessionId → Creator → ℕ × W → Outcome × Limiter L × W
  created l id creator (status, w) = (
    passed status,
    (if eqb status 201 then record l { creators = Map.insert l.creators id creator } else l),
    w,
  )

  -- The pair is remembered if the request did not fail.
  abbrev pub paired_after : Limiter L → Bytes → Bytes → ℕ → ℕ × W → Outcome × Limiter L × W
  paired_after l key server now (status, w) =
      (passed status, (if ltb status 400 then pair l key server now else l), w)

  -- A request to another client's session, with the pairs of this client that are not stale.
  unfoldable pub allow_pair :
      Limiter L → W → Request → Bytes → Bytes → ℕ → Map Bytes ℕ → Outcome × Limiter L × W
  allow_pair l w r key server now pairs =
      if is_some (Map.get pairs server)
      then serve (record l { paired = Map.insert l.paired key (Map.insert pairs server now) }) r
          (next r w)
      else if leb cfg.allowance_servers (Map.size pairs) && cfg.allowance_mode == "enforce"
      then (
        refused 429 "server_limit"
            (retry_after cfg.allowance_window now (oldest_of none (Map.values pairs))),
        l,
        w,
      )
      else paired_after l key server now (next r w)

  unfoldable pub allow_other :
      Limiter L → W → Request → Bytes → ℕ → Option Creator → Outcome × Limiter L × W
  unfolding allow_pair
  allow_other l w r key now none = serve l r (next r w)
  allow_other l w r key now (some server) =
      if server.key == key
      then serve l r (next r w)
      else (let was = Map.get l.paired key in
          let pairs = fresh_pairs cfg now was in
          allow_pair (store_pairs l key was pairs) w r key server.key now pairs)

  unfoldable pub allow_session :
      Limiter L → W → Request → Bytes → Bool → ℕ → SessionId → Outcome × Limiter L × W
  unfolding allow_other
  allow_session l w r key create now id =
      if create
      then created l id (record { key = key; at = now }) (next r w)
      else allow_other l w r key now (Map.get l.creators id)

  unfoldable pub allowance : Limiter L → W → Request → Bytes → Bool → ℕ → Outcome × Limiter L × W
  unfolding allow_session
  allowance l w r ip create now =
      if cfg.allowance_mode == "" || cfg.allowance_mode == "off"
      then serve l r (next r w)
      else if not (is_some (net.parse_ip ip))
      then serve l r (next r w)
      else elim (session_of r) [
        | none ↦ serve l r (next r w)
        | some id ↦ allow_session l w r (client_key net ip) create now id
      ]

  abbrev pub code_of : ℕ → String
  code_of status = if eqb status 429 then "rate_limited" else "over_capacity"

  unfoldable pub admit :
      Limiter L → W → Request → Bytes → Bool → ℕ → Verdict → Outcome × Limiter L × W
  unfolding allowance
  admit l w r ip create later (status, retry) =
      if eqb status 0
      then allowance l w r ip create later
      else (refused status (code_of status) retry, l, w)

  -- The clock is read by `check` and again by `allowance`.
  unfoldable pub middleware : Limiter L → W → Request → ℕ → ℕ → Outcome × Limiter L × W
  unfolding admit check
  middleware l w r now later =
      if r.path == codes "/healthz"
      then serve l r (next r w)
      else (let ip = client_ip net r cfg.behind_cloudflare in
          let create = creates_session r in
          let (verdict, l2) = check rate cfg l now ip create in
          admit l2 w r ip create later verdict)
