-- ===== src/Base/Equality.antt =====
-- Go's `==` on the comparable types of the program: numbers, strings and byte arrays.
use Prim.Native.Nat.{ℕ}
use Prim.Native.String.{String}
use mathlib.Core.Path.{◌≡◌, refl}
use mathlib.Core.Logic.{◌↔◌}
use mathlib.Core.Bool.{Bool, true, false, ◌&&◌}
use mathlib.Core.List.{List, [], ◌∷◌}
use native.Mathlib.Omega.{arith}
use aken.Base.Tests.{eqb, eqb_iff}
use aken.Base.Lists.{any}
use text.Mathlib.TextEquality.{eq_iff}
use text.Mathlib.Text.{◌==◌ as str_eq}

-- A type with Go's `==`.
pub record Comparable {ℓ} (T : Type ℓ) : Type ℓ where
  pub same : T → T → Bool
  pub same_iff : (x y : T) → (same x y ≡ true) ↔ (x ≡ y)

infix 50 ◌==◌
abbrev pub ◌==◌ {ℓ} : {T : Type ℓ} ⦃c : Comparable T⦄ → T → T → Bool
◌==◌ ⦃c⦄ x y = c.same x y

instance abbrev pub string_eq : Comparable String
string_eq = record { same = str_eq; same_iff = eq_iff }

instance abbrev pub nat_eq : Comparable ℕ
nat_eq = record { same_iff = eqb_iff; same = eqb }

-- Byte slices and byte arrays: the bytes as numbers below 256.
abbrev pub Bytes : Type 0
Bytes = List ℕ

abbrev pub bytes_equal : Bytes → Bytes → Bool
bytes_equal [] [] = true
bytes_equal [] (y ∷ ys) = false
bytes_equal (x ∷ xs) [] = false
bytes_equal (x ∷ xs) (y ∷ ys) = eqb x y && bytes_equal xs ys

pub bytes_equal_iff : (xs ys : Bytes) → (bytes_equal xs ys ≡ true) ↔ (xs ≡ ys)
bytes_equal_iff [] [] = (λ h. refl, λ h. refl)
bytes_equal_iff [] (y ∷ ys) = ground arith
bytes_equal_iff (x ∷ xs) [] = ground arith
bytes_equal_iff (x ∷ xs) (y ∷ ys) = ground (arith, bytes_equal_iff xs ys)

instance abbrev pub bytes_eq : Comparable Bytes
bytes_eq = record { same = bytes_equal; same_iff = bytes_equal_iff }

module _ {ℓ} {T : Type ℓ} ⦃c : Comparable T⦄ where
  pub ==-refl : (x : T) → (x == x) ≡ true
  ==-refl x = (c.same_iff x x).1 refl

-- slices.Contains
abbrev pub contains : List Bytes → Bytes → Bool
contains paths path = any (λ p. p == path) paths
