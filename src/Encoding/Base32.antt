-- ===== src/Encoding/Base32.antt =====
-- base32.StdEncoding without padding: five bytes to eight symbols of five bits. A rest of one,
-- three or six symbols is no whole number of bytes; it gives nothing here.
use aken.Base.{
  ℕ, ◌+◌, ◌*◌, ◌/◌, ◌%◌, ◌<◌, ◌≡◌, refl, true, Option, none, some, [], ◌∷◌, Bytes, All, arith,
  length,
}
use aken.Encoding.Alphabet.{
  codes, IsBytes, values, symbols, strip_newlines, alphabet_ok, values-symbols,
  strip_newlines-symbols,
}

abbrev pub alphabet : Bytes
alphabet = codes "ABCDEFGHIJKLMNOPQRSTUVWXYZ234567"

unfoldable pub quintets : Bytes → Bytes
quintets [] = []
quintets (a ∷ []) = a / 8 ∷ (a % 8 * 4) ∷ []
quintets (a ∷ b ∷ []) = a / 8 ∷ (a % 8 * 4 + b / 64) ∷ b / 2 % 32 ∷ (b % 2 * 16) ∷ []
quintets (a ∷ b ∷ c ∷ []) =
    a / 8 ∷ (a % 8 * 4 + b / 64) ∷ b / 2 % 32 ∷ (b % 2 * 16 + c / 16) ∷ (c % 16 * 2) ∷ []
quintets (a ∷ b ∷ c ∷ d ∷ []) =
    a / 8
    ∷ (a % 8 * 4 + b / 64)
    ∷ b / 2 % 32
    ∷ (b % 2 * 16 + c / 16)
    ∷ (c % 16 * 2 + d / 128)
    ∷ d / 4 % 32
    ∷ (d % 4 * 8)
    ∷ []
quintets (a ∷ b ∷ c ∷ d ∷ e ∷ rest) =
    a / 8
    ∷ (a % 8 * 4 + b / 64)
    ∷ b / 2 % 32
    ∷ (b % 2 * 16 + c / 16)
    ∷ (c % 16 * 2 + d / 128)
    ∷ d / 4 % 32
    ∷ (d % 4 * 8 + e / 32)
    ∷ e % 32
    ∷ quintets rest

byte_a : ℕ → ℕ → ℕ
byte_a s t = s * 8 + t / 4

byte_b : ℕ → ℕ → ℕ → ℕ
byte_b t u v = t % 4 * 64 + u * 2 + v / 16

byte_c : ℕ → ℕ → ℕ
byte_c v w = v % 16 * 16 + w / 2

byte_d : ℕ → ℕ → ℕ → ℕ
byte_d w x y = w % 2 * 128 + x * 4 + y / 8

unfoldable pub unquintets : Bytes → Option Bytes
unfolding byte_a byte_b byte_c byte_d
unquintets [] = some []
unquintets (s ∷ []) = none
unquintets (s ∷ t ∷ []) = some (byte_a s t ∷ [])
unquintets (s ∷ t ∷ u ∷ []) = none
unquintets (s ∷ t ∷ u ∷ v ∷ []) = some (byte_a s t ∷ byte_b t u v ∷ [])
unquintets (s ∷ t ∷ u ∷ v ∷ w ∷ []) = some (byte_a s t ∷ byte_b t u v ∷ byte_c v w ∷ [])
unquintets (s ∷ t ∷ u ∷ v ∷ w ∷ x ∷ []) = none
unquintets (s ∷ t ∷ u ∷ v ∷ w ∷ x ∷ y ∷ []) =
    some (byte_a s t ∷ byte_b t u v ∷ byte_c v w ∷ byte_d w x y ∷ [])
unquintets (s ∷ t ∷ u ∷ v ∷ w ∷ x ∷ y ∷ z ∷ rest) = elim (unquintets rest) [
  | none ↦ none
  | some bytes ↦
      some (byte_a s t ∷ byte_b t u v ∷ byte_c v w ∷ byte_d w x y ∷ (y % 8 * 32 + z) ∷ bytes)
]

unfoldable pub encode : Bytes → Bytes
encode bytes = symbols alphabet (quintets bytes)

unfoldable pub decode : Bytes → Option Bytes
decode text = elim (values alphabet (strip_newlines text)) [ none ↦ none | some vs ↦ unquintets vs ]

alphabet_checked : alphabet_ok 32 alphabet ≡ true
unfolding alphabet_ok
alphabet_checked = refl

pub quintets-All : (bytes : Bytes) → IsBytes bytes → All (λ v. v < 32) (quintets bytes)
unfolding quintets
quintets-All [] h = tt
quintets-All (a ∷ []) h = omega arith
quintets-All (a ∷ b ∷ []) h = omega arith
quintets-All (a ∷ b ∷ c ∷ []) h = omega arith
quintets-All (a ∷ b ∷ c ∷ d ∷ []) h = omega arith
quintets-All (a ∷ b ∷ c ∷ d ∷ e ∷ rest) h = (
  omega arith,
  (
    omega arith,
    (
      omega arith,
      (
        omega arith,
        (omega arith, (omega arith, (omega arith, (omega arith, quintets-All rest h.1.1.1.1.1)))),
      ),
    ),
  ),
)

unquintets-quintets : (bytes : Bytes) → IsBytes bytes → unquintets (quintets bytes) ≡ some bytes
unfolding quintets unquintets
unquintets-quintets [] h = refl
unquintets-quintets (a ∷ []) h = ground arith
unquintets-quintets (a ∷ b ∷ []) h = ground arith
unquintets-quintets (a ∷ b ∷ c ∷ []) h = ground arith
unquintets-quintets (a ∷ b ∷ c ∷ d ∷ []) h = ground arith
unquintets-quintets (a ∷ b ∷ c ∷ d ∷ e ∷ rest) h =
    ground (arith, unquintets-quintets rest h.1.1.1.1.1)

-- What is encoded decodes to the same bytes.
pub decode-encode : (bytes : Bytes) → IsBytes bytes → decode (encode bytes) ≡ some bytes
unfolding decode encode
decode-encode bytes h =
    rw
      (
        strip_newlines-symbols 32 alphabet alphabet_checked (quintets bytes) (quintets-All bytes h),
        values-symbols 32 alphabet alphabet_checked (quintets bytes) (quintets-All bytes h),
        decode,
      )
      (unquintets-quintets bytes h)

-- ceil(8n / 5), Go's EncodedLen.
pub length-quintets : (bytes : Bytes) → length (quintets bytes) ≡ (8 * length bytes + 4) / 5
unfolding quintets
length-quintets [] = refl
length-quintets (a ∷ []) = refl
length-quintets (a ∷ b ∷ []) = refl
length-quintets (a ∷ b ∷ c ∷ []) = refl
length-quintets (a ∷ b ∷ c ∷ d ∷ []) = refl
length-quintets (a ∷ b ∷ c ∷ d ∷ e ∷ rest) = omega (arith, length-quintets rest)
