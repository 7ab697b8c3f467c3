-- ===== src/Protocol/Wire.antt =====
-- binary.BigEndian's fixed-width forms.
use native.Mathlib.Nat.{pow-suc}
use aken.Base.{
  ℕ, zero, suc, ◌+◌, ◌*◌, ◌/◌, ◌%◌, ◌^◌, ◌<◌, ◌≡◌, refl, [], ◌∷◌, ◌++◌, Bytes, arith, length,
  length-append,
}

-- The low `k` bytes of a number, the highest first.
unfoldable pub big_endian : ℕ → ℕ → Bytes
big_endian zero v = []
big_endian (suc k) v = big_endian k (v / 256) ++ v % 256 ∷ []

read_from : ℕ → Bytes → ℕ
read_from acc [] = acc
read_from acc (b ∷ rest) = read_from (acc * 256 + b) rest

-- The number of some bytes.
pub from_big_endian : Bytes → ℕ
unfolding read_from
from_big_endian = read_from 0

read_from-append :
    (acc : ℕ) (xs : Bytes) (b : ℕ) → read_from acc (xs ++ b ∷ []) ≡ read_from acc xs * 256 + b
unfolding read_from
read_from-append acc [] b = refl
read_from-append acc (x ∷ xs) b = read_from-append (acc * 256 + x) xs b

pub length-big_endian : (k v : ℕ) → length (big_endian k v) ≡ k
unfolding big_endian
length-big_endian zero v = refl
length-big_endian (suc k) v =
    omega
      (arith, length-append (big_endian k (v / 256)) (v % 256 ∷ []), length-big_endian k (v / 256))

-- A number of at most `k` bytes is read back.
pub from_big_endian-big_endian : (k v : ℕ) → v < 256 ^ k → from_big_endian (big_endian k v) ≡ v
unfolding from_big_endian big_endian read_from
from_big_endian-big_endian zero v h = omega arith
from_big_endian-big_endian (suc k) v h = omega (
  arith,
  read_from-append 0 (big_endian k (v / 256)) (v % 256),
  from_big_endian-big_endian k (v / 256) (small k v h),
)
  where
    small : (k v : ℕ) → v < 256 ^ suc k → v / 256 < 256 ^ k
    small k v h = omega (arith, pow-suc 256 k)
