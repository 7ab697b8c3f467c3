-- ===== src/Tests/Limits.antt =====
-- The limiter at concrete inputs: a client creates a session, and another one asks for it.
use aken.Base.Map
use aken.Base.Map.{Map}
use aken.Base.Pruned.{delete_where, unless}
use aken.Base.{
  ℕ, zero, suc, ◌+◌, ◌*◌, ◌^◌, ◌≤◌, ◌≡◌, refl, Bool, true, false, ◌⊎◌, some, [], ◌∷◌, ◌++◌, Bytes,
  bytes_eq, ltb, if◌then◌else◌,
}
use aken.Encoding.Alphabet.{codes}
use aken.Encoding.Hex
use aken.Encoding.Cut
use aken.Protocol.Caps.{default_caps}
use aken.Protocol.Api.{has_prefix, parse_session_id}
use aken.Limits.{
  Rate, Net, Config, Request, Limiter, new, set_live_sessions, hour, stale, client_ip, check,
  check_buckets, check_create, prune,
}
use aken.Limits.Allowance.{
  refused, cut_prefix, pair, allow_pair, allow_other, allow_session, allowance, admit, middleware,
  creates_session,
}
use aken.Limits.Run.{request, run, allowance_kept}
use aken.Limits.Refused.{refused_untouched}
use aken.Limits.Pruned.{pair_at, prune_exact}
use aken.Tests.Samples.{id, id_text}

-- A limiter that counts its tokens down.
abbrev take_token : ℕ → Bool × ℕ
take_token zero = (false, zero)
take_token (suc n) = (true, n)

abbrev rate : Rate ℕ
rate = record {
  new_limiter = λ f burst. burst;
  allow = λ tokens now. take_token tokens;
  seconds = λ tokens now. 0;
}

abbrev net : Net
net = record { host = λ a. a; parse_ip = λ a. some a; is_v4 = λ a. true; network_64 = λ a. a }

abbrev config : Config
config = record {
  requests_per_minute = 60;
  creates_per_hour = 10;
  max_live_sessions = 1;
  behind_cloudflare = false;
  allowance_mode = "enforce";
  allowance_servers = 1;
  allowance_window = 1000;
}

-- Creations answer 201, and all else 200.
abbrev next : Request → ℕ → ℕ × ℕ
next r served = ((if r.is_put then 201 else 200), suc served)

abbrev session_path : Bytes
session_path = codes "/v0/sessions/" ++ id_text

abbrev server : Bytes
server = 1 ∷ []

abbrev client : Bytes
client = 2 ∷ []

abbrev creation : Request
creation = record { path = session_path; is_put = true; connecting_ip = []; remote_addr = server }

abbrev reading : Request
reading = record { path = session_path; is_put = false; connecting_ip = []; remote_addr = client }

abbrev start : Limiter ℕ
start = new

abbrev pairing : Map Bytes ℕ
pairing = Map.insert Map.empty server 7

abbrev unserved : ℕ
unserved = 0

abbrev unavailable : ℕ
unavailable = 503

paired_once :
    Map.get
      (run rate net config next
        (start, 0)
        (request creation 5 5 ∷ request reading 6 7 ∷ [])).0.paired
      client
    ≡ some pairing
unfolding run middleware admit allowance allow_session allow_other allow_pair pair check
    check_buckets check_create client_ip cut_prefix Cut.before has_prefix parse_session_id
    Hex.lower_hex Hex.decode Hex.digit_value Map.get Map.insert Map.empty Map.size delete_where
paired_once = refl

allowance_kept_example : Map.size pairing ≤ 1
allowance_kept_example =
    allowance_kept rate net config next 0 (request creation 5 5 ∷ request reading 6 7 ∷ []) client
      pairing refl paired_once

abbrev full : Limiter ℕ
full = set_live_sessions start 1

refused_now :
    middleware rate net config next full 0 creation 5 5
    ≡ (refused 503 "over_capacity" 0, (check rate config full 5 server true).1, 0)
unfolding middleware admit check check_buckets check_create client_ip cut_prefix has_prefix Map.get
    Map.empty
refused_now = refl

refused_untouched_example :
    (unserved ≡ 0)
    × (((unavailable ≡ 429) × (1 ≤ 0))
        ⊎ ((unavailable ≡ 503) × (creates_session creation ≡ true) × (1 ≤ 1)))
refused_untouched_example =
    refused_untouched rate net config next full (check rate config full 5 server true).1 0 0
      creation 5 5 503 0 "over_capacity" refused_now

prune_exact_example :
    (Map.get (prune config full 9).ips client
      ≡ unless (λ b. ltb (b.last_seen + hour) 9) (Map.get full.ips client))
    × (Map.get (prune config full 9).creators id
        ≡ unless
            (λ c. ltb (c.at + (default_caps.ttl_max_seconds * 10 ^ 9 + hour)) 9)
            (Map.get full.creators id))
    × (pair_at (Map.get (prune config full 9).paired client) server
        ≡ unless (stale 1000 9) (pair_at (Map.get full.paired client) server))
prune_exact_example = prune_exact config full 9 client client server id
