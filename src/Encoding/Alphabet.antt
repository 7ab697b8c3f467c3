-- ===== src/Encoding/Alphabet.antt =====
-- Alphabets of symbols, the bytes that they stand for, and the line ends that Go's decoders skip.
use Prim.Native.Char.{code}
use aken.Base.{
  ℕ, zero, suc, ◌<◌, ◌≡◌, refl, Bool, true, false, ◌&&◌, ◌||◌, not, Option, none, some, [], ◌∷◌,
  String, Bytes, All, keep, arith, leb, eqb, get_elem?, if◌then◌else◌, from_some,
}

-- The bytes of an ASCII text.
abbrev pub codes : String → Bytes
codes String.[] = []
codes (String.◌∷◌ c s) = code c ∷ codes s

abbrev pub IsBytes : Bytes → Type 0
IsBytes = All (λ b. b < 256)

-- c in lo..hi
abbrev pub within : ℕ → ℕ → ℕ → Bool
within lo hi c = leb lo c && leb c hi

-- The symbol of an index, and 0 past the end.
unfoldable pub symbol : Bytes → ℕ → ℕ
symbol alphabet i = from_some 0 (get_elem? alphabet i)

-- The index of a symbol, counted from `i`.
unfoldable pub index_from : ℕ → Bytes → ℕ → Option ℕ
index_from i [] c = none
index_from i (a ∷ rest) c = if eqb a c then some i else index_from (suc i) rest c

unfoldable pub value : Bytes → ℕ → Option ℕ
unfolding index_from
value = index_from 0

-- The values of all symbols, or nothing if one is not of the alphabet.
unfoldable pub values : Bytes → Bytes → Option Bytes
values alphabet [] = some []
values alphabet (c ∷ rest) = elim (value alphabet c) [
  | none ↦ none
  | some v ↦ elim (values alphabet rest) [ none ↦ none | some vs ↦ some (v ∷ vs) ]
]

unfoldable pub symbols : Bytes → Bytes → Bytes
symbols alphabet [] = []
symbols alphabet (v ∷ vs) = symbol alphabet v ∷ symbols alphabet vs

abbrev pub is_line_end : ℕ → Bool
is_line_end c = eqb c 10 || eqb c 13

-- The decoders skip '\r' and '\n'.
unfoldable pub strip_newlines : Bytes → Bytes
strip_newlines = keep (λ c. not (is_line_end c))

-- A test that holds of every number below a bound, by counting down.
unfoldable pub all_below : (ℕ → Bool) → ℕ → Bool
all_below test zero = true
all_below test (suc n) = all_below test n && test n

pub all_below_sound : (test : ℕ → Bool) (n i : ℕ) → i < n → all_below test n ≡ true → test i ≡ true
unfolding all_below
all_below_sound test zero i low h = absurd (omega arith)
all_below_sound test (suc n) i low h = ground (arith, all_below_sound test n i)

-- The test that an alphabet of `n` symbols has no symbol twice and no line end.
abbrev is_index : Option ℕ → ℕ → Bool
is_index none i = false
is_index (some v) i = eqb v i

abbrev symbol_ok : Bytes → ℕ → Bool
symbol_ok alphabet i =
    is_index (value alphabet (symbol alphabet i)) i && not (is_line_end (symbol alphabet i))

unfoldable pub alphabet_ok : ℕ → Bytes → Bool
unfolding all_below symbol value
alphabet_ok n alphabet = all_below (symbol_ok alphabet) n

is_index-eq : (o : Option ℕ) (i : ℕ) → is_index o i ≡ true → o ≡ some i
is_index-eq none i h = ground arith
is_index-eq (some v) i h = ground arith

module _ (n : ℕ) (alphabet : Bytes) (good : alphabet_ok n alphabet ≡ true) where
  symbol_checked : (i : ℕ) → i < n → symbol_ok alphabet i ≡ true
  unfolding alphabet_ok
  symbol_checked i h = all_below_sound (symbol_ok alphabet) n i h good

  pub value-symbol : (i : ℕ) → i < n → value alphabet (symbol alphabet i) ≡ some i
  value-symbol i h = is_index-eq _ i (ground (arith, symbol_checked i h))

  pub symbol_no_line_end : (i : ℕ) → i < n → is_line_end (symbol alphabet i) ≡ false
  symbol_no_line_end i h = ground (arith, symbol_checked i h)

  pub values-symbols :
      (vs : Bytes) → All (λ v. v < n) vs → values alphabet (symbols alphabet vs) ≡ some vs
  unfolding values symbols
  values-symbols [] h = refl
  values-symbols (v ∷ vs) h = ground (arith, value-symbol v h.0, values-symbols vs h.1)

  pub strip_newlines-symbols :
      (vs : Bytes)
      → All (λ v. v < n) vs
      → strip_newlines (symbols alphabet vs) ≡ symbols alphabet vs
  unfolding strip_newlines symbols
  strip_newlines-symbols [] h = refl
  strip_newlines-symbols (v ∷ vs) h =
      ground (arith, symbol_no_line_end v h.0, strip_newlines-symbols vs h.1)
