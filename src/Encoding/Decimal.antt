-- ===== src/Encoding/Decimal.antt =====
-- strconv: ParseUint(s, 10, 64), Atoi and Itoa on a 64-bit machine.
use aken.Base.Signed.{ℤ, pos, negsuc}
use aken.Base.{
  ◌/◌, ◌%◌, ltb, ◌++◌, ℕ, zero, suc, ◌+◌, ◌-◌, ◌*◌, ◌^◌, Option, none, some, [], ◌∷◌, Bytes, eqb,
  leb, if◌then◌else◌,
}
use aken.Encoding.Alphabet.{within}

-- The value of some digits behind a value that was read; none where another byte stands.
unfoldable pub digits_from : ℕ → Bytes → Option ℕ
digits_from n [] = some n
digits_from n (c ∷ s) =
    let rest = digits_from (n * 10 + (c - b'0')) s in if within b'0' b'9' c then rest else none

unfoldable pub digits : Bytes → Option ℕ
unfolding digits_from
digits [] = none
digits (c ∷ s) = digits_from 0 (c ∷ s)

abbrev pub at_most : ℕ → Option ℕ → Option ℕ
at_most limit none = none
at_most limit (some n) = if leb n limit then some n else none

unfoldable pub parse_uint : Bytes → Option ℕ
unfolding digits
parse_uint s = at_most (2 ^ 64 - 1) (digits s)

abbrev pub negated : ℕ → ℤ
negated zero = pos 0
negated (suc n) = negsuc n

abbrev pub signed : (ℕ → ℤ) → Option ℕ → Option ℤ
signed f none = none
signed f (some n) = some (f n)

unfoldable pub atoi : Bytes → Option ℤ
unfolding digits
atoi [] = none
atoi (c ∷ s) =
    if eqb c b'-'
    then signed negated (at_most (2 ^ 63) (digits s))
    else if eqb c b'+'
    then signed pos (at_most (2 ^ 63 - 1) (digits s))
    else signed pos (at_most (2 ^ 63 - 1) (digits (c ∷ s)))

-- strconv.Itoa of a number with at most `fuel` digits more; the last digits first.
unfoldable pub itoa_from : ℕ → ℕ → Bytes
itoa_from zero n = []
itoa_from (suc fuel) n =
    let rest = itoa_from fuel (n / 10) in
    if ltb n 10 then (b'0' + n) ∷ [] else rest ++ (b'0' + n % 10) ∷ []

-- strconv.Itoa on a 64-bit machine: at most 19 digits.
unfoldable pub itoa : ℕ → Bytes
unfolding itoa_from
itoa = itoa_from 19
