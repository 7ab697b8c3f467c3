-- ===== src/Limits/Bounded.antt =====
-- The anonymous allowance of internal/relayserver/limits/limits.go, over any run of requests.
use aken.Base.Map
use aken.Base.Map.{
  Map, get-insert, get-delete, get-empty, size-insert, size-insert_found, size-empty,
}
use aken.Base.Pruned.{size-delete_where}
use aken.Base.{
  ℕ, ◌≤◌, ◌≡◌, refl, Bool, true, false, Option, none, some, Bytes, bytes_eq, string_eq, arith,
  from_some, ==-refl, ◌<◌, Option-cases, inl, inr,
}
use aken.Protocol.Api.{SessionId}
use aken.Limits.{
  Rate, Net, Config, Request, Creator, Limiter, Verdict, stale, client_ip, check, check_buckets,
  check_create,
}
use aken.Limits.Allowance.{
  Outcome, fresh_pairs, store_pairs, pair, allow_pair, allow_other, allow_session, allowance, admit,
  middleware, creates_session, session_of, client_key,
}

-- No client is paired with more servers than the allowance.
abbrev pub Within : ℕ → Map Bytes (Map Bytes ℕ) → Type 0
Within servers paired =
    (key : Bytes) (pairs : Map Bytes ℕ) → Map.get paired key ≡ some pairs → Map.size pairs ≤ servers

abbrev pub Bounded : {L : Type 0} → Config → Limiter L → Type 0
Bounded cfg l = Within cfg.allowance_servers l.paired

pub insert-Within :
    (n : ℕ) (m : Map Bytes (Map Bytes ℕ)) (key : Bytes) (pairs : Map Bytes ℕ)
    → Within n m
    → Map.size pairs ≤ n
    → Within n (Map.insert m key pairs)
insert-Within n m key pairs b s other found h =
    ground (arith, get-insert m key other pairs, b other found)

pub delete-Within :
    (n : ℕ) (m : Map Bytes (Map Bytes ℕ)) (key : Bytes) → Within n m → Within n (Map.delete m key)
delete-Within n m key b other found h = ground (arith, get-delete m key other, b other found)

fresh_pairs_within :
    (cfg : Config) (n now : ℕ) (o : Option (Map Bytes ℕ))
    → ((pairs : Map Bytes ℕ) → o ≡ some pairs → Map.size pairs ≤ n)
    → Map.size (fresh_pairs cfg now o) ≤ n
fresh_pairs_within cfg n now none b = omega (arith, size-empty Bytes ℕ)
fresh_pairs_within cfg n now (some pairs) b =
    omega (arith, size-delete_where (stale cfg.allowance_window now) pairs, b pairs refl)

module _ {L : Type 0} (cfg : Config) where
  store_pairs-Bounded :
      (l : Limiter L) (key : Bytes) (was : Option (Map Bytes ℕ)) (pairs : Map Bytes ℕ)
      → Bounded cfg l
      → Map.size pairs ≤ cfg.allowance_servers
      → Bounded cfg (store_pairs l key was pairs)
  store_pairs-Bounded l key none pairs b s = b
  store_pairs-Bounded l key (some w) pairs b s =
      insert-Within cfg.allowance_servers l.paired key pairs b s

  -- What `store_pairs` leaves for the client is no larger than what it was given.
  size-store_pairs :
      (l : Limiter L) (key : Bytes) (was : Option (Map Bytes ℕ)) (pairs : Map Bytes ℕ)
      → Map.get l.paired key ≡ was
      → Map.size (from_some Map.empty (Map.get (store_pairs l key was pairs).paired key))
        ≤ Map.size pairs
  size-store_pairs l key none pairs e = rw e (omega (arith, size-empty Bytes ℕ))
  size-store_pairs l key (some w) pairs e =
      let same : Map.get (Map.insert l.paired key pairs) key ≡ some pairs =
        ground (arith, get-insert l.paired key key pairs, ==-refl key) in
      rw same (omega arith)

  pair-Bounded :
      (l : Limiter L) (key server : Bytes) (now : ℕ)
      → Bounded cfg l
      → Map.size (from_some Map.empty (Map.get l.paired key)) < cfg.allowance_servers
      → Bounded cfg (pair l key server now)
  unfolding pair
  pair-Bounded l key server now b s =
      let pairs = from_some Map.empty (Map.get l.paired key) in
      insert-Within cfg.allowance_servers l.paired key (Map.insert pairs server now) b
        (omega (arith, size-insert pairs server now))

module _ {L W : Type 0} (rate : Rate L) (net : Net) (cfg : Config)
    (next : Request → W → ℕ × W) where
  -- The limiter after a request.
  abbrev pub after : Outcome × Limiter L × W → Limiter L
  after x = x.1

  allow_pair-Bounded :
      (l : Limiter L) (w : W) (r : Request) (key server : Bytes) (now : ℕ) (pairs : Map Bytes ℕ)
      → cfg.allowance_mode ≡ "enforce"
      → Bounded cfg l
      → Map.size pairs ≤ cfg.allowance_servers
      → Map.size (from_some Map.empty (Map.get l.paired key)) ≤ Map.size pairs
      → Bounded cfg (after (allow_pair rate net cfg next l w r key server now pairs))
  unfolding allow_pair
  allow_pair-Bounded l w r key server now pairs m b s g other found h =
      let paired_again : Map.size (Map.insert pairs server now) ≤ cfg.allowance_servers
          → Map.get (Map.insert l.paired key (Map.insert pairs server now)) other ≡ some found
          → Map.size found ≤ cfg.allowance_servers =
        λ fits.
          insert-Within cfg.allowance_servers l.paired key (Map.insert pairs server now) b fits
            other found in
      let paired_first : Map.size pairs < cfg.allowance_servers
          → Map.get (pair l key server now).paired other ≡ some found
          → Map.size found ≤ cfg.allowance_servers =
        λ room. pair-Bounded cfg l key server now b (omega arith) other found in
      elim (Option-cases (Map.get pairs server)) [
        | inl miss ↦
            ground
              (arith, paired_first, b other found, string_eq.same_iff cfg.allowance_mode "enforce")
        | inr (last, there) ↦
            ground (arith, paired_again, size-insert_found pairs server now last there)
      ]

  allow_other-Bounded :
      (l : Limiter L) (w : W) (r : Request) (key : Bytes) (now : ℕ) (o : Option Creator)
      → cfg.allowance_mode ≡ "enforce"
      → Bounded cfg l
      → Bounded cfg (after (allow_other rate net cfg next l w r key now o))
  unfolding allow_other
  allow_other-Bounded l w r key now none m b other found h = b other found h
  allow_other-Bounded l w r key now (some server) m b other found h =
      let was = Map.get l.paired key in
      let pairs = fresh_pairs cfg now was in
      let fits = fresh_pairs_within cfg cfg.allowance_servers now was (b key) in
      let paired =
        allow_pair-Bounded (store_pairs l key was pairs) w r key server.key now pairs m
          (store_pairs-Bounded cfg l key was pairs b fits) fits
          (size-store_pairs cfg l key was pairs refl) other found in
      ground (arith, paired, b other found)

  allow_session-Bounded :
      (l : Limiter L) (w : W) (r : Request) (key : Bytes) (create : Bool) (now : ℕ) (id : SessionId)
      → cfg.allowance_mode ≡ "enforce"
      → Bounded cfg l
      → Bounded cfg (after (allow_session rate net cfg next l w r key create now id))
  unfolding allow_session
  allow_session-Bounded l w r key true now id m b other found h = ground (arith, b other found)
  allow_session-Bounded l w r key false now id m b other found h =
      allow_other-Bounded l w r key now (Map.get l.creators id) m b other found h

  allowance-Bounded :
      (l : Limiter L) (w : W) (r : Request) (ip : Bytes) (create : Bool) (now : ℕ)
      → cfg.allowance_mode ≡ "enforce"
      → Bounded cfg l
      → Bounded cfg (after (allowance rate net cfg next l w r ip create now))
  unfolding allowance
  allowance-Bounded l w r ip create now m b other found h =
      let for_id = λ (id : SessionId).
        allow_session-Bounded l w r (client_key net ip) create now id m b other found in
      elim (Option-cases (session_of r)) [
        | inl miss ↦ ground (arith, b other found)
        | inr (id, there) ↦ ground (arith, b other found, for_id id)
      ]

  admit-Bounded :
      (l : Limiter L) (w : W) (r : Request) (ip : Bytes) (create : Bool) (later : ℕ) (v : Verdict)
      → cfg.allowance_mode ≡ "enforce"
      → Bounded cfg l
      → Bounded cfg (after (admit rate net cfg next l w r ip create later v))
  unfolding admit
  admit-Bounded l w r ip create later (status, retry) m b other found h =
      ground (arith, b other found, allowance-Bounded l w r ip create later m b other found)

  paired-check :
      (l : Limiter L) (now : ℕ) (ip : Bytes) (create : Bool)
      → (check rate cfg l now ip create).1.paired ≡ l.paired
  unfolding check check_buckets check_create
  paired-check l now ip create = ground arith

  pub middleware-Bounded :
      (l : Limiter L) (w : W) (r : Request) (now later : ℕ)
      → cfg.allowance_mode ≡ "enforce"
      → Bounded cfg l
      → Bounded cfg (after (middleware rate net cfg next l w r now later))
  unfolding middleware
  middleware-Bounded l w r now later m b other found h =
      let ip = client_ip net r cfg.behind_cloudflare in
      let create = creates_session r in
      let x = check rate cfg l now ip create in
      let kept : Bounded cfg x.1 = rw (paired-check l now ip create) b in
      ground (arith, b other found, admit-Bounded x.1 w r ip create later x.0 m kept other found)
