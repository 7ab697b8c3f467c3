-- ===== src/Encoding/Base64.antt =====
-- base64.RawURLEncoding: three bytes to four symbols of six bits, no padding. `Strict` also
-- refuses bits that are left over at the end.
use aken.Base.{
  ◌+◌, ◌*◌, ◌/◌, ◌%◌, ◌<◌, ◌≡◌, refl, Bool, true, ◌&&◌, not, Option, none, some, [], ◌∷◌, Bytes,
  All, arith, eqb, if◌then◌else◌,
}
use aken.Encoding.Alphabet.{
  codes, IsBytes, values, symbols, strip_newlines, alphabet_ok, values-symbols,
  strip_newlines-symbols,
}

abbrev pub alphabet : Bytes
alphabet = codes "ABCDEFGHIJKLMNOPQRSTUVWXYZabcdefghijklmnopqrstuvwxyz0123456789-_"

-- Bytes to six-bit values.
unfoldable pub sextets : Bytes → Bytes
sextets [] = []
sextets (a ∷ []) = a / 4 ∷ (a % 4 * 16) ∷ []
sextets (a ∷ b ∷ []) = a / 4 ∷ (a % 4 * 16 + b / 16) ∷ (b % 16 * 4) ∷ []
sextets (a ∷ b ∷ c ∷ rest) =
    a / 4 ∷ (a % 4 * 16 + b / 16) ∷ (b % 16 * 4 + c / 64) ∷ c % 64 ∷ sextets rest

-- One value over is no byte: Go reports corrupt input.
unfoldable pub unsextets : Bool → Bytes → Option Bytes
unsextets strict [] = some []
unsextets strict (s ∷ []) = none
unsextets strict (s ∷ t ∷ []) =
    if strict && not (eqb (t % 16) 0) then none else some ((s * 4 + t / 16) ∷ [])
unsextets strict (s ∷ t ∷ u ∷ []) =
    if strict && not (eqb (u % 4) 0)
    then none
    else some ((s * 4 + t / 16) ∷ (t % 16 * 16 + u / 4) ∷ [])
unsextets strict (s ∷ t ∷ u ∷ v ∷ rest) = elim (unsextets strict rest) [
  | none ↦ none
  | some bytes ↦ some ((s * 4 + t / 16) ∷ (t % 16 * 16 + u / 4) ∷ (u % 4 * 64 + v) ∷ bytes)
]

unfoldable pub encode : Bytes → Bytes
encode bytes = symbols alphabet (sextets bytes)

unfoldable pub decode : Bool → Bytes → Option Bytes
decode strict text = elim (values alphabet (strip_newlines text)) [
  | none ↦ none
  | some vs ↦ unsextets strict vs
]

alphabet_checked : alphabet_ok 64 alphabet ≡ true
unfolding alphabet_ok
alphabet_checked = refl

sextets-All : (bytes : Bytes) → IsBytes bytes → All (λ v. v < 64) (sextets bytes)
unfolding sextets
sextets-All [] h = tt
sextets-All (a ∷ []) h = omega arith
sextets-All (a ∷ b ∷ []) h = omega arith
sextets-All (a ∷ b ∷ c ∷ rest) h =
    (omega arith, (omega arith, (omega arith, (omega arith, sextets-All rest h.1.1.1))))

unsextets-sextets :
    (strict : Bool) (bytes : Bytes) → IsBytes bytes → unsextets strict (sextets bytes) ≡ some bytes
unfolding sextets unsextets
unsextets-sextets strict [] h = refl
unsextets-sextets strict (a ∷ []) h = ground arith
unsextets-sextets strict (a ∷ b ∷ []) h = ground arith
unsextets-sextets strict (a ∷ b ∷ c ∷ rest) h =
    ground (arith, unsextets-sextets strict rest h.1.1.1)

-- What is encoded decodes to the same bytes.
pub decode-encode :
    (strict : Bool) (bytes : Bytes) → IsBytes bytes → decode strict (encode bytes) ≡ some bytes
unfolding decode encode
decode-encode strict bytes h =
    rw
      (
        strip_newlines-symbols 64 alphabet alphabet_checked (sextets bytes) (sextets-All bytes h),
        values-symbols 64 alphabet alphabet_checked (sextets bytes) (sextets-All bytes h),
        decode,
      )
      (unsextets-sextets strict bytes h)
