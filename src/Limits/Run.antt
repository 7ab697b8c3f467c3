-- ===== src/Limits/Run.antt =====
-- The limiter of internal/relayserver/limits/limits.go over a run of requests, sweeps and counts.
use aken.Base.Map
use aken.Base.Map.{
  Map, get-insert, get-delete, get-empty, size-insert, size-insert_found, size-empty,
}
use aken.Base.Pruned.{delete_where, size-delete_where}
use aken.Base.{
  ℕ, ◌≤◌, ◌≡◌, refl, Option, none, some, List, [], ◌∷◌, Bytes, bytes_eq, string_eq, arith,
}
use aken.Limits.{
  Rate, Net, Config, Request, Limiter, new, set_live_sessions, stale, prune, prune_devs, prune_dev,
}
use aken.Limits.Allowance.{middleware}
use aken.Limits.Bounded.{Within, Bounded, insert-Within, delete-Within, middleware-Bounded}

-- What happens to the limiter, one at a time: a request at two readings of the clock, a sweep, and
-- the count of live sessions.
pub data Event : Type 0 where
  request : Request → ℕ → ℕ → Event
  pruned : ℕ → Event
  counted : ℕ → Event

prune_devs-Within :
    (n window now : ℕ) (devs : List Bytes) (m : Map Bytes (Map Bytes ℕ))
    → Within n m
    → Within n (prune_devs window now devs m)
unfolding prune_devs
prune_devs-Within n window now [] m b = b
prune_devs-Within n window now (dev ∷ devs) m b =
    prune_devs-Within n window now devs (prune_dev window now m dev (Map.get m dev))
      (dev-Within (Map.get m dev) (b dev))
  where
    dev-Within :
        (o : Option (Map Bytes ℕ))
        → ((pairs : Map Bytes ℕ) → o ≡ some pairs → Map.size pairs ≤ n)
        → Within n (prune_dev window now m dev o)
    dev-Within none s = unfold prune_dev in b
    dev-Within (some pairs) s =
        unfold prune_dev in
        λ other found h.
          let left = delete_where (stale window now) pairs in
          let fits : Map.size left ≤ n =
            omega (arith, size-delete_where (stale window now) pairs, s pairs refl) in
          ground (
            arith,
            delete-Within n m dev b other found,
            insert-Within n m dev left b fits other found,
          )

module _ {L W : Type 0} (rate : Rate L) (net : Net) (cfg : Config)
    (next : Request → W → ℕ × W) where
  abbrev pub step : Limiter L × W → Event → Limiter L × W
  step (l, w) (request r now later) =
      let x = middleware rate net cfg next l w r now later in (x.1, x.2)
  step (l, w) (pruned now) = (prune cfg l now, w)
  step (l, w) (counted n) = (set_live_sessions l n, w)

  unfoldable pub run : Limiter L × W → List Event → Limiter L × W
  run s [] = s
  run s (e ∷ events) = run (step s e) events

  run-Bounded :
      (l : Limiter L) (w : W) (events : List Event)
      → cfg.allowance_mode ≡ "enforce"
      → Bounded cfg l
      → Bounded cfg (run (l, w) events).0
  unfolding run prune
  run-Bounded l w [] m b = b
  run-Bounded l w (request r now later ∷ events) m b =
      let x = middleware rate net cfg next l w r now later in
      run-Bounded x.1 x.2 events m (middleware-Bounded rate net cfg next l w r now later m b)
  run-Bounded l w (pruned now ∷ events) m b = run-Bounded (prune cfg l now) w events m (
      prune_devs-Within cfg.allowance_servers cfg.allowance_window now (Map.keys l.paired) l.paired
        b)
  run-Bounded l w (counted n ∷ events) m b = run-Bounded (set_live_sessions l n) w events m b

  -- In mode `enforce`, after any run of requests, sweeps and counts from a new limiter, one after
  -- another, no client is paired with more servers than `allowance_servers`, whatever the next
  -- handler answers.
  pub allowance_kept :
      (w : W) (events : List Event) (key : Bytes) (pairs : Map Bytes ℕ)
      → cfg.allowance_mode ≡ "enforce"
      → Map.get (run (new, w) events).0.paired key ≡ some pairs
      → Map.size pairs ≤ cfg.allowance_servers
  allowance_kept w events key pairs m h =
      run-Bounded new w events m
        (λ other found e. ground (arith, get-empty {V = Map Bytes ℕ} other)) key pairs h
