-- ===== src/Limits/Refused.antt =====
-- What a refusal of internal/relayserver/limits/limits.go means.
use aken.Base.Map
use aken.Base.Map.{Map}
use aken.Base.{
  ℕ, ◌≤◌, ◌≡◌, Bool, true, ◌⊎◌, Option, none, some, Bytes, String, bytes_eq, string_eq, arith,
  Option-cases, inl, inr,
}
use aken.Limits.{
  Rate, Net, Config, Request, Creator, Limiter, Verdict, client_ip, check, check_buckets,
  check_create,
}
use aken.Limits.Allowance.{
  refused, fresh_pairs, store_pairs, allow_pair, allow_other, allow_session, allowance, admit,
  middleware, creates_session, session_of, client_key, retry_after, oldest_of,
}

-- What a verdict of `check` says: the request goes on; or it is out of tokens, with a time to wait;
-- or it is a creation while as many sessions are live as the cap allows.
abbrev pub Justified : Config → ℕ → Bool → Verdict → Type 0
Justified cfg live create (status, retry) =
    (status ≡ 0)
    ⊎ ((status ≡ 429) × (1 ≤ retry))
    ⊎ ((status ≡ 503) × (create ≡ true) × (cfg.max_live_sessions ≤ live))

waits : (window now : ℕ) (oldest : Option ℕ) → 1 ≤ retry_after window now oldest
waits window now none = omega arith
waits window now (some oldest) = omega arith

module _ {L W : Type 0} (rate : Rate L) (net : Net) (cfg : Config)
    (next : Request → W → ℕ × W) where
  check-Justified :
      (l : Limiter L) (now : ℕ) (ip : Bytes) (create : Bool)
      → Justified cfg l.live create (check rate cfg l now ip create).0
  unfolding check check_buckets check_create
  check-Justified l now ip create = ground arith

  allow_pair_refused :
      (l l2 : Limiter L) (w w2 : W) (r : Request) (key server : Bytes) (now : ℕ)
      (pairs : Map Bytes ℕ) (status retry : ℕ) (code : String)
      → allow_pair rate net cfg next l w r key server now pairs
        ≡ (refused status code retry, l2, w2)
      → (w2 ≡ w) × (status ≡ 429) × (1 ≤ retry)
  unfolding allow_pair
  allow_pair_refused l l2 w w2 r key server now pairs status retry code h =
      ground (arith, waits cfg.allowance_window now (oldest_of none (Map.values pairs)))

  allow_other_refused :
      (l l2 : Limiter L) (w w2 : W) (r : Request) (key : Bytes) (now : ℕ) (o : Option Creator)
      (status retry : ℕ) (code : String)
      → allow_other rate net cfg next l w r key now o ≡ (refused status code retry, l2, w2)
      → (w2 ≡ w) × (status ≡ 429) × (1 ≤ retry)
  unfolding allow_other
  allow_other_refused l l2 w w2 r key now none status retry code h = absurd (ground arith)
  allow_other_refused l l2 w w2 r key now (some server) status retry code h =
      let was = Map.get l.paired key in
      let pairs = fresh_pairs cfg now was in
      ground (
        arith,
        allow_pair_refused (store_pairs l key was pairs) l2 w w2 r key server.key now pairs status
            retry code,
      )

  allowance_refused :
      (l l2 : Limiter L) (w w2 : W) (r : Request) (ip : Bytes) (create : Bool) (now : ℕ)
      (status retry : ℕ) (code : String)
      → allowance rate net cfg next l w r ip create now ≡ (refused status code retry, l2, w2)
      → (w2 ≡ w) × (status ≡ 429) × (1 ≤ retry)
  unfolding allowance allow_session
  allowance_refused l l2 w w2 r ip create now status retry code h =
      elim (Option-cases (session_of r)) [
        | inl miss ↦ absurd (ground arith)
        | inr (id, there) ↦ ground (
          arith,
          allow_other_refused l l2 w w2 r (client_key net ip) now (Map.get l.creators id) status
              retry code,
        )
      ]

  -- Where the middleware refuses a request, the next handler's state is as before, and either the
  -- status is 429 with at least one second to wait, or it is 503 and the request is a creation while
  -- at least `max_live_sessions` sessions are live.
  pub refused_untouched :
      (l l2 : Limiter L) (w w2 : W) (r : Request) (now later : ℕ) (status retry : ℕ) (code : String)
      → middleware rate net cfg next l w r now later ≡ (refused status code retry, l2, w2)
      → (w2 ≡ w)
        × (((status ≡ 429) × (1 ≤ retry))
            ⊎ ((status ≡ 503) × (creates_session r ≡ true) × (cfg.max_live_sessions ≤ l.live)))
  unfolding middleware admit
  refused_untouched l l2 w w2 r now later status retry code h =
      let ip = client_ip net r cfg.behind_cloudflare in
      let create = creates_session r in
      let x = check rate cfg l now ip create in
      ground (
        arith,
        check-Justified l now ip create,
        allowance_refused x.1 l2 w w2 r ip create later status retry code,
      )
