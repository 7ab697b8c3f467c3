-- ===== src/Limits.antt =====
-- internal/relayserver/limits/limits.go: rate limits per client address, the cap on live sessions and
-- the anonymous allowance, as a middleware of the relay. golang.org/x/time/rate and the parts of
-- package net are parameters. Each request runs alone here; times are numbers of nanoseconds.
pub mod Allowance
pub mod Pruned
pub mod Bounded
pub mod Run
pub mod Refused
use aken.Base.Map
use aken.Base.Map.{Map}
use aken.Base.Pruned.{delete_where}
use aken.Base.{
  ℕ, ◌+◌, ◌-◌, ◌*◌, ◌/◌, ◌^◌, max, Bool, true, false, ◌&&◌, ◌||◌, not, Option, none, some, List, [],
  ◌∷◌, String, Bytes, bytes_eq, string_eq, ◌==◌, eqb, ltb, leb, if◌then◌else◌, is_some, from_some,
  length, drop, any,
}
use aken.Encoding.Alphabet.{codes}
use aken.Protocol.Caps.{Caps, default_caps}
use aken.Protocol.Api.{SessionId}

-- The frequencies that the program asks rate.NewLimiter for.
pub data Frequency : Type 0 where
  -- rate.Limit(float64(n) / 60)
  per_minute : ℕ → Frequency
  -- rate.Every(n)
  every : ℕ → Frequency

-- *rate.Limiter: NewLimiter, AllowN for one token, and the rounded up seconds to the next token,
-- (1 - TokensAt(now)) / Limit(), whose arithmetic is in floating point. A negative value is 0.
pub record Rate (L : Type 0) : Type 0 where
  pub new_limiter : Frequency → ℕ → L
  pub allow : L → ℕ → Bool × L
  pub seconds : L → ℕ → ℕ

-- Of package net: SplitHostPort's host, ParseIP with String, To4, and the /64 network of an address.
pub record Net : Type 0 where
  pub host : Bytes → Bytes
  pub parse_ip : Bytes → Option Bytes
  pub is_v4 : Bytes → Bool
  pub network_64 : Bytes → Bytes

pub record Config : Type 0 where
  pub requests_per_minute : ℕ
  -- Not 0: Go divides by it.
  pub creates_per_hour : ℕ
  pub max_live_sessions : ℕ
  pub behind_cloudflare : Bool
  pub allowance_mode : String
  pub allowance_servers : ℕ
  pub allowance_window : ℕ

pub record Request : Type 0 where
  pub path : Bytes
  pub is_put : Bool
  pub connecting_ip : Bytes
  pub remote_addr : Bytes

pub record Buckets (L : Type 0) : Type 0 where
  pub requests : L
  pub creates : L
  pub last_seen : ℕ

pub record Creator : Type 0 where
  pub key : Bytes
  pub at : ℕ

pub record Limiter (L : Type 0) : Type 0 where
  pub ips : Map Bytes (Buckets L)
  pub live : ℕ
  pub creators : Map SessionId Creator
  pub paired : Map Bytes (Map Bytes ℕ)

abbrev pub hour : ℕ
hour = 3600 * 10 ^ 9

unfoldable pub client_ip : Net → Request → Bool → Bytes
client_ip net r behind_cloudflare =
    from_some (codes "unknown")
      (net.parse_ip (if behind_cloudflare then r.connecting_ip else net.host r.remote_addr))

abbrev pub new : {L : Type 0} → Limiter L
new = record { ips = Map.empty; live = 0; creators = Map.empty; paired = Map.empty }

abbrev pub set_live_sessions : {L : Type 0} → Limiter L → ℕ → Limiter L
set_live_sessions l n = record l { live = n }

-- !last.After(now.Add(-window))
abbrev pub stale : ℕ → ℕ → ℕ → Bool
stale window now last = leb (last + window) now

-- The body of the loop over l.paired: the inner map changes in place.
unfoldable pub prune_dev :
    ℕ → ℕ → Map Bytes (Map Bytes ℕ) → Bytes → Option (Map Bytes ℕ) → Map Bytes (Map Bytes ℕ)
prune_dev window now m dev none = m
prune_dev window now m dev (some pairs) =
    let left = delete_where (stale window now) pairs in
    if eqb (Map.size left) 0 then Map.delete m dev else Map.insert m dev left

unfoldable pub prune_devs : ℕ → ℕ → List Bytes → Map Bytes (Map Bytes ℕ) → Map Bytes (Map Bytes ℕ)
unfolding prune_dev
prune_devs window now [] m = m
prune_devs window now (dev ∷ devs) m =
    prune_devs window now devs (prune_dev window now m dev (Map.get m dev))

unfoldable pub prune : {L : Type 0} → Config → Limiter L → ℕ → Limiter L
prune cfg l now = record l {
  ips = delete_where (λ b. ltb (b.last_seen + hour) now) l.ips;
  creators =
      delete_where (λ c. ltb (c.at + (default_caps.ttl_max_seconds * 10 ^ 9 + hour)) now)
        l.creators;
  paired = prune_devs cfg.allowance_window now (Map.keys l.paired) l.paired;
}

-- A status and the seconds to retry after; (0, 0) lets the request through.
abbrev pub Verdict : Type 0
Verdict = ℕ × ℕ

module _ {L : Type 0} (rate : Rate L) (cfg : Config) where
  abbrev pub fresh_buckets : Buckets L
  fresh_buckets = record {
    requests = rate.new_limiter (per_minute cfg.requests_per_minute) 60;
    creates = rate.new_limiter (every (hour / cfg.creates_per_hour)) cfg.creates_per_hour;
    last_seen = 0;
  }

  -- What one bucket answers: a token, or the time to wait for one.
  abbrev pub asked : ℕ → Bool × L → Verdict
  asked now (true, bucket) = (0, 0)
  asked now (false, bucket) = (429, max 1 (rate.seconds bucket now))

  abbrev pub with_buckets : Limiter L → Bytes → Buckets L → Limiter L
  with_buckets l ip b = record l { ips = Map.insert l.ips ip b }

  -- The second turn of the loop, on the bucket of creations.
  unfoldable pub check_create : Limiter L → ℕ → Bytes → Buckets L → Verdict × Limiter L
  check_create l now ip b =
      if leb cfg.max_live_sessions l.live
      then ((503, 0), with_buckets l ip b)
      else (let taken = rate.allow b.creates now in
          (asked now taken, with_buckets l ip (record b { creates = taken.1 })))

  unfoldable pub check_buckets : Limiter L → ℕ → Bytes → Bool → Buckets L → Verdict × Limiter L
  unfolding check_create
  check_buckets l now ip create b =
      let taken = rate.allow b.requests now in
      let b2 = record b { requests = taken.1; last_seen = now } in
      if not taken.0
      then (asked now taken, with_buckets l ip b2)
      else if not create
      then ((0, 0), with_buckets l ip b2)
      else check_create l now ip b2

  unfoldable pub check : Limiter L → ℕ → Bytes → Bool → Verdict × Limiter L
  unfolding check_buckets
  check l now ip create = check_buckets l now ip create (from_some fresh_buckets (Map.get l.ips ip))
