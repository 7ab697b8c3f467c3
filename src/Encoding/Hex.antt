-- ===== src/Encoding/Hex.antt =====
-- encoding/hex, and protocol's test of a lower-case hex text of a given length.
use aken.Base.{
  zero, suc, inl, inr, Bool-cases, ℕ, ◌+◌, ◌*◌, ◌/◌, ◌%◌, ◌-◌, ◌<◌, ◌≡◌, refl, Bool, true, false,
  ◌||◌, Option, none, some, [], ◌∷◌, Bytes, all, arith, eqb, ltb, if◌then◌else◌, length,
}
use aken.Encoding.Alphabet.{IsBytes, within}

unfoldable pub digit : ℕ → ℕ
digit v = if ltb v 10 then b'0' + v else b'a' + (v - 10)

-- Both cases of a letter are read.
unfoldable pub digit_value : ℕ → Option ℕ
digit_value c =
    if within b'0' b'9' c
    then some (c - b'0')
    else if within b'a' b'f' c
    then some (c - b'a' + 10)
    else if within b'A' b'F' c
    then some (c - b'A' + 10)
    else none

unfoldable pub encode : Bytes → Bytes
encode [] = []
encode (b ∷ rest) = digit (b / 16) ∷ digit (b % 16) ∷ encode rest

byte_of : Option ℕ → Option ℕ → Option ℕ
byte_of (some h) (some l) = some (h * 16 + l)
byte_of (some h) none = none
byte_of none l = none

unfoldable pub decode : Bytes → Option Bytes
unfolding byte_of
decode [] = some []
decode (c ∷ []) = none
decode (c ∷ d ∷ rest) = elim (byte_of (digit_value c) (digit_value d)) [
  | none ↦ none
  | some b ↦ elim (decode rest) [ none ↦ none | some bytes ↦ some (b ∷ bytes) ]
]

abbrev pub is_lower_hex : ℕ → Bool
is_lower_hex c = within b'0' b'9' c || within b'a' b'f' c

unfoldable pub lower_hex : Bytes → ℕ → Bool
lower_hex s n = if eqb (length s) n then all is_lower_hex s else false

digit_value-digit : (v : ℕ) → v < 16 → digit_value (digit v) ≡ some v
unfolding digit digit_value
digit_value-digit v h = ground arith

digit-is_lower_hex : (v : ℕ) → v < 16 → is_lower_hex (digit v) ≡ true
unfolding digit
digit-is_lower_hex v h = ground arith

digit-digit_value : (c v : ℕ) → is_lower_hex c ≡ true → digit_value c ≡ some v → digit v ≡ c
unfolding digit digit_value
digit-digit_value c v h e = ground arith

pub decode-encode : (bytes : Bytes) → IsBytes bytes → decode (encode bytes) ≡ some bytes
unfolding encode decode
decode-encode [] h = refl
decode-encode (b ∷ rest) h = ground (
  arith,
  digit_value-digit (b / 16) (omega arith),
  digit_value-digit (b % 16) (omega arith),
  decode-encode rest h.1,
)

pub length-encode : (bytes : Bytes) → length (encode bytes) ≡ 2 * length bytes
unfolding encode
length-encode [] = refl
length-encode (b ∷ rest) = omega (arith, length-encode rest)

pub encode-is_lower_hex : (bytes : Bytes) → IsBytes bytes → all is_lower_hex (encode bytes) ≡ true
unfolding encode
encode-is_lower_hex [] h = refl
encode-is_lower_hex (b ∷ rest) h = rw (
  digit-is_lower_hex (b / 16) (omega arith),
  digit-is_lower_hex (b % 16) (omega arith),
  encode-is_lower_hex rest h.1,
)

digit_value_found :
    (c : ℕ) → is_lower_hex c ≡ true → (v : ℕ) × (digit_value c ≡ some v) × (v < 16) × (digit v ≡ c)
unfolding digit digit_value
digit_value_found c h = elim (Bool-cases (within b'0' b'9' c)) [
  | inl num ↦ (c - b'0', ground arith, ground arith, ground arith)
  | inr other ↦ (c - b'a' + 10, ground arith, ground arith, ground arith)
]

-- What `decode` makes of a lower-case text of `n` bytes: it prints back to the text.
abbrev pub Decoded : ℕ → Bytes → Type 0
Decoded n s =
    (bytes : Bytes) × (decode s ≡ some bytes)
    × (encode bytes ≡ s)
    × (length bytes ≡ n)
    × IsBytes bytes

decode_step :
    (n c d : ℕ) (s : Bytes)
    → is_lower_hex c ≡ true
    → is_lower_hex d ≡ true
    → Decoded n s
    → Decoded (suc n) (c ∷ d ∷ s)
unfolding decode encode
decode_step n c d s hc hd (bytes, e, p, l, b) =
    let (v, ev, bv, pv) = digit_value_found c hc in
    let (w, ew, bw, pw) = digit_value_found d hd in
    (
      (v * 16 + w) ∷ bytes,
      ground (arith, ev, ew, e),
      ground (arith, pv, pw, p, high v w bw, low v w bw),
      omega arith,
      (omega arith, b),
    )
  where
    high : (v w : ℕ) → w < 16 → (v * 16 + w) / 16 ≡ v
    high v w h = omega arith

    low : (v w : ℕ) → w < 16 → (v * 16 + w) % 16 ≡ w
    low v w h = omega arith

pub decode_lower : (n : ℕ) (s : Bytes) → length s ≡ 2 * n → all is_lower_hex s ≡ true → Decoded n s
unfolding decode encode
decode_lower zero [] l h = ([], refl, refl, refl, tt)
decode_lower zero (c ∷ s) l h = absurd (omega arith)
decode_lower (suc n) [] l h = absurd (omega arith)
decode_lower (suc n) (c ∷ []) l h = absurd (omega arith)
decode_lower (suc n) (c ∷ d ∷ s) l h =
    decode_step n c d s (ground arith) (ground arith)
      (decode_lower n s (omega arith) (ground arith))
