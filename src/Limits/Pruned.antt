-- ===== src/Limits/Pruned.antt =====
-- What `Prune` of internal/relayserver/limits/limits.go leaves.
use aken.Base.Map
use aken.Base.Map.{Map, get-insert, get-delete, get-keys, get-no_entry}
use aken.Base.Pruned.{delete_where, get-delete_where, unless}
use aken.Base.{
  ℕ, ◌+◌, ◌*◌, ◌^◌, ◌≡◌, refl, Option, none, some, List, [], ◌∷◌, Bytes, any, bytes_eq,
  bytes_equal_iff, ◌==◌, arith, ltb, if◌then◌else◌, Option-cases, inl, inr,
}
use aken.Protocol.Caps.{default_caps}
use aken.Protocol.Api.{SessionId}
use aken.Limits.{Config, Limiter, hour, stale, prune, prune_devs, prune_dev}

-- When a client last used a server, if they are paired.
abbrev pub pair_at : Option (Map Bytes ℕ) → Bytes → Option ℕ
pair_at none server = none
pair_at (some pairs) server = Map.get pairs server

module _ (window now : ℕ) where
  pair_at-prune_dev :
      (m : Map Bytes (Map Bytes ℕ)) (dev other server : Bytes) (o : Option (Map Bytes ℕ))
      → Map.get m dev ≡ o
      → pair_at (Map.get (prune_dev window now m dev o) other) server ≡ (
          if dev == other
          then unless (stale window now) (pair_at (Map.get m other) server)
          else pair_at (Map.get m other) server)
  unfolding prune_dev
  pair_at-prune_dev m dev other server none e = ground (arith, bytes_equal_iff dev other)
  pair_at-prune_dev m dev other server (some pairs) e =
      let left = delete_where (stale window now) pairs in
      ground (
        arith,
        get-delete m dev other,
        get-insert m dev other left,
        get-delete_where (stale window now) pairs server,
        get-no_entry left server,
        bytes_equal_iff dev other,
      )

  pair_at-prune_devs :
      (devs : List Bytes) (m : Map Bytes (Map Bytes ℕ)) (other server : Bytes)
      → pair_at (Map.get (prune_devs window now devs m) other) server ≡ (
          if any (λ dev. dev == other) devs
          then unless (stale window now) (pair_at (Map.get m other) server)
          else pair_at (Map.get m other) server)
  unfolding prune_devs
  pair_at-prune_devs [] m other server = refl
  pair_at-prune_devs (dev ∷ devs) m other server = ground (
    arith,
    pair_at-prune_devs devs (prune_dev window now m dev (Map.get m dev)) other server,
    pair_at-prune_dev m dev other server (Map.get m dev) refl,
  )

  pair_at-all :
      (m : Map Bytes (Map Bytes ℕ)) (other server : Bytes)
      → pair_at (Map.get (prune_devs window now (Map.keys m) m) other) server
        ≡ unless (stale window now) (pair_at (Map.get m other) server)
  pair_at-all m other server = elim (Option-cases (Map.get m other)) [
    | inl miss ↦ ground (arith, pair_at-prune_devs (Map.keys m) m other server)
    | inr (pairs, found) ↦
        ground (arith, pair_at-prune_devs (Map.keys m) m other server, get-keys m other pairs found)
  ]

-- `Prune` keeps, unchanged, exactly the buckets seen in the last hour, the creators of the last
-- longest TTL plus an hour, and the pairs used less than the window ago.
pub prune_exact :
    {L : Type 0} (cfg : Config) (l : Limiter L) (now : ℕ) (ip other server : Bytes) (id : SessionId)
    → (Map.get (prune cfg l now).ips ip
        ≡ unless (λ b. ltb (b.last_seen + hour) now) (Map.get l.ips ip))
      × (Map.get (prune cfg l now).creators id
          ≡ unless
              (λ c. ltb (c.at + (default_caps.ttl_max_seconds * 10 ^ 9 + hour)) now)
              (Map.get l.creators id))
      × (pair_at (Map.get (prune cfg l now).paired other) server
          ≡ unless (stale cfg.allowance_window now) (pair_at (Map.get l.paired other) server))
unfolding prune
prune_exact cfg l now ip other server id = (
  get-delete_where (λ b. ltb (b.last_seen + hour) now) l.ips ip,
  get-delete_where (λ c. ltb (c.at + (default_caps.ttl_max_seconds * 10 ^ 9 + hour)) now) l.creators
      id,
  pair_at-all cfg.allowance_window now l.paired other server,
)
