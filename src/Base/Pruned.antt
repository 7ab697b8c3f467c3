-- ===== src/Base/Pruned.antt =====
-- A Go loop that deletes from the map it ranges over: it visits each key that is there.
use aken.Base.Tests.{if◌then◌else◌, Option-cases}
use aken.Base.Lists.{any}
use aken.Base.Equality.{Comparable, ◌==◌}
use aken.Base.Map
use aken.Base.Map.{Map, get-delete, get-keys, size-delete}
use Prim.Native.Nat.{◌≤◌}
use mathlib.Core.Path.{◌≡◌, refl}
use mathlib.Core.Logic.{inl, inr}
use mathlib.Core.Bool.{Bool, false}
use mathlib.Core.Option.{Option, none, some}
use mathlib.Core.List.{List, [], ◌∷◌}
use native.Mathlib.Omega.{arith}

abbrev pub fails {κ} : {V : Type κ} → (V → Bool) → Option V → Bool
fails test none = false
fails test (some v) = test v

-- The value, unless the test picks it.
abbrev pub unless {κ} : {V : Type κ} → (V → Bool) → Option V → Option V
unless test o = if fails test o then none else o

module _ {ℓ κ} {K : Type ℓ} {V : Type κ} ⦃c : Comparable K⦄ where
  unfoldable delete_keys : (V → Bool) → List K → Map K V → Map K V
  delete_keys test [] m = m
  delete_keys test (k ∷ ks) m =
      delete_keys test ks (if fails test (Map.get m k) then Map.delete m k else m)

  -- for k, v := range m { if test(v) { delete(m, k) } }
  unfoldable pub delete_where : (V → Bool) → Map K V → Map K V
  unfolding delete_keys
  delete_where test m = delete_keys test (Map.keys m) m

  get-step :
      (test : V → Bool) (m : Map K V) (i j : K)
      → Map.get (if fails test (Map.get m i) then Map.delete m i else m) j
        ≡ (if i == j then unless test (Map.get m j) else Map.get m j)
  get-step test m i j = ground (arith, get-delete m i j, c.same_iff i j)

  get-delete_keys :
      (test : V → Bool) (ks : List K) (m : Map K V) (j : K)
      → Map.get (delete_keys test ks m) j
        ≡ (if any (λ k. k == j) ks then unless test (Map.get m j) else Map.get m j)
  unfolding delete_keys
  get-delete_keys test [] m j = refl
  get-delete_keys test (k ∷ ks) m j = ground (
    arith,
    get-delete_keys test ks (if fails test (Map.get m k) then Map.delete m k else m) j,
    get-step test m k j,
  )

  pub get-delete_where :
      (test : V → Bool) (m : Map K V) (j : K)
      → Map.get (delete_where test m) j ≡ unless test (Map.get m j)
  unfolding delete_where
  get-delete_where test m j = elim (Option-cases (Map.get m j)) [
    | inl miss ↦ ground (arith, get-delete_keys test (Map.keys m) m j)
    | inr (v, found) ↦ ground (arith, get-delete_keys test (Map.keys m) m j, get-keys m j v found)
  ]

  size-delete_keys :
      (test : V → Bool) (ks : List K) (m : Map K V) → Map.size (delete_keys test ks m) ≤ Map.size m
  unfolding delete_keys
  size-delete_keys test [] m = omega arith
  size-delete_keys test (k ∷ ks) m =
      let rest =
        size-delete_keys test ks (if fails test (Map.get m k) then Map.delete m k else m) in
      ground (arith, rest, size-delete m k)

  pub size-delete_where :
      (test : V → Bool) (m : Map K V) → Map.size (delete_where test m) ≤ Map.size m
  unfolding delete_where
  size-delete_where test m = size-delete_keys test (Map.keys m) m
