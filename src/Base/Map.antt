-- ===== src/Base/Map.antt =====
-- Go's `map[K]V`. The representation is private: clients have `map_laws`. A loop over a map that
-- deletes goes over its keys, and its result does not depend on their order.
use aken.Base.Tests.{if◌then◌else◌}
use aken.Base.Lists.{length, any}
use aken.Base.Equality.{Comparable, ◌==◌}
use Prim.Native.Nat.{ℕ, ◌+◌, ◌≤◌, ◌<◌}
use mathlib.Core.Path.{◌≡◌, refl}
use mathlib.Core.Bool.{true, not}
use mathlib.Core.Option.{Option, none, some}
use mathlib.Core.List.{List, [], ◌∷◌, map as map_list}
use native.Mathlib.Omega.{arith}

pub record Map {ℓ κ} (K : Type ℓ) (V : Type κ) : Type (ℓ ⊔ κ) where
  entries : List (K × V)

module _ {ℓ κ} {K : Type ℓ} {V : Type κ} where
  unfoldable pub empty : Map K V
  empty = record { entries = [] }

  -- len(m)
  unfoldable pub size : Map K V → ℕ
  size m = length m.entries

  unfoldable pub keys : Map K V → List K
  keys m = map_list (λ e. e.0) m.entries

  unfoldable pub values : Map K V → List V
  values m = map_list (λ e. e.1) m.entries

module _ {ℓ κ} {K : Type ℓ} {V : Type κ} ⦃c : Comparable K⦄ where
  -- The first entry of a key.
  value_of : List (K × V) → K → Option V
  value_of [] key = none
  value_of ((k, v) ∷ more) key = if key == k then some v else value_of more key

  remove : K → List (K × V) → List (K × V)
  remove key [] = []
  remove key ((k, v) ∷ more) =
      let kept = remove key more in if not (key == k) then (k, v) ∷ kept else kept

  -- m[k]
  unfoldable pub get : Map K V → K → Option V
  unfolding value_of
  get m k = value_of m.entries k

  -- delete(m, k)
  unfoldable pub delete : Map K V → K → Map K V
  unfolding remove
  delete m k = record { entries = remove k m.entries }

  -- m[k] = v
  unfoldable pub insert : Map K V → K → V → Map K V
  unfolding remove
  insert m k v = record { entries = (k, v) ∷ remove k m.entries }

  value_of-remove :
      (es : List (K × V)) (gone k : K)
      → value_of (remove gone es) k ≡ (if gone == k then none else value_of es k)
  unfolding value_of remove
  value_of-remove [] gone k = ground arith
  value_of-remove ((i, w) ∷ es) gone k =
      let same = c.same_iff in
      ground (arith, value_of-remove es gone k, same gone i, same k i, same gone k)

  pub get-delete : (m : Map K V) (k j : K) → get (delete m k) j ≡ (if k == j then none else get m j)
  unfolding get delete
  get-delete m k j = value_of-remove m.entries k j

  pub get-insert :
      (m : Map K V) (k j : K) (v : V) → get (insert m k v) j ≡ (if k == j then some v else get m j)
  unfolding get insert value_of
  get-insert m k j v = ground (arith, value_of-remove m.entries k j, c.same_iff k j, c.same_iff j k)

  pub get-empty : (k : K) → get (empty {K = K} {V = V}) k ≡ none
  unfolding get empty value_of
  get-empty k = refl

  length-remove : (k : K) (l : List (K × V)) → length (remove k l) ≤ length l
  unfolding remove
  length-remove k [] = omega arith
  length-remove k ((i, v) ∷ l) = ground (arith, length-remove k l)

  length-remove_found :
      (k : K) (v : V) (l : List (K × V)) → value_of l k ≡ some v → length (remove k l) < length l
  unfolding value_of remove
  length-remove_found k v [] h = ground arith
  length-remove_found k v ((i, w) ∷ l) h =
      ground (arith, length-remove k l, length-remove_found k v l)

  pub size-delete : (m : Map K V) (k : K) → size (delete m k) ≤ size m
  unfolding size delete
  size-delete m k = length-remove k m.entries

  pub size-insert : (m : Map K V) (k : K) (v : V) → size (insert m k v) ≤ size m + 1
  unfolding size insert
  size-insert m k v = omega (arith, length-remove k m.entries)

  -- Writing a key that is there does not grow the map.
  pub size-insert_found :
      (m : Map K V) (k : K) (v w : V) → get m k ≡ some w → size (insert m k v) ≤ size m
  unfolding size insert get
  size-insert_found m k v w h = omega (arith, length-remove_found k w m.entries h)

  value_of-no_entry : (k : K) (l : List (K × V)) → length l ≡ 0 → value_of l k ≡ none
  unfolding value_of
  value_of-no_entry k [] h = refl
  value_of-no_entry k (entry ∷ l) h = absurd (omega arith)

  -- A map of size 0 has no key.
  pub get-no_entry : (m : Map K V) (k : K) → size m ≡ 0 → get m k ≡ none
  unfolding get size
  get-no_entry m k h = value_of-no_entry k m.entries h

  value_of-any :
      (k : K) (v : V) (l : List (K × V))
      → value_of l k ≡ some v
      → any (λ j. j == k) (map_list (λ p. p.0) l) ≡ true
  unfolding value_of
  value_of-any k v [] h = ground arith
  value_of-any k v ((i, w) ∷ l) h =
      ground (arith, value_of-any k v l, c.same_iff i k, c.same_iff k i)

  -- A loop over the map meets every key that is there.
  pub get-keys :
      (m : Map K V) (k : K) (v : V) → get m k ≡ some v → any (λ j. j == k) (keys m) ≡ true
  unfolding get keys
  get-keys m k v h = value_of-any k v m.entries h

pub size-empty {ℓ κ} : (K : Type ℓ) (V : Type κ) → size (empty {K = K} {V = V}) ≡ 0
unfolding size empty
size-empty K V = refl

pub ruleset map_laws = (get-empty, get-insert, get-delete)
