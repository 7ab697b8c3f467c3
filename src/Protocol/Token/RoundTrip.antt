-- ===== src/Protocol/Token/RoundTrip.antt =====
-- The text of a token and back (protocol/token.go).
use aken.Base.{
  ℕ, ◌<◌, ◌≡◌, refl, ◌∙◌, ap, Bool, true, ◌&&◌, Option, none, some, [], ◌∷◌, map, Bytes, arith, not,
  bytes_equal_iff, length, drop, eqb, ==-refl, bytes_eq, All, all,
}
use aken.Encoding.Alphabet.{IsBytes, symbols, symbol, all_below, all_below_sound}
use aken.Encoding.Base32
use aken.Encoding.Base32.{quintets, quintets-All, length-quintets, alphabet}
use aken.Protocol.Api.{has_prefix, sized}
use aken.Protocol.Token.{
  Token, to_upper, to_lower, encode, trim, trim_left, trim_right, is_blank, reencoded,
  parse_trimmed, parse_token,
}

sized_sound : (n : ℕ) (o : Option Bytes) (k : Bytes) → sized n o ≡ some k → length k ≡ n
unfolding sized
sized_sound n none k h = ground arith
sized_sound n (some x) k h = ground arith

reencoded_sound :
    (s : Bytes) (o : Option Bytes) (t : Token)
    → reencoded s o ≡ some t
    → (encode t ≡ s) × (o ≡ some t.secret)
unfolding reencoded
reencoded_sound s none t h = ground arith
reencoded_sound s (some k) t h = ground (arith, bytes_equal_iff (encode (record { secret = k })) s)

-- A text that `parse_token` accepts is, without the blanks round it, the text that the token
-- prints, and the token has 32 bytes.
pub parse_token_sound :
    (s : Bytes) (t : Token) → parse_token s ≡ some t → (encode t ≡ trim s) × (length t.secret ≡ 32)
unfolding parse_token parse_trimmed
parse_token_sound s t h =
    let o = sized 32 (Base32.decode (map to_upper (drop 5 (trim s)))) in
    let r : (encode t ≡ trim s) × (o ≡ some t.secret) =
      reencoded_sound (trim s) o t (ground arith) in
    (r.0, sized_sound 32 _ t.secret r.1)

abbrev symbol_lowers : ℕ → Bool
symbol_lowers i =
    let c = symbol alphabet i in eqb (to_upper (to_lower c)) c && not (is_blank (to_lower c))

symbols_checked : all_below symbol_lowers 32 ≡ true
unfolding all_below symbol to_upper to_lower
symbols_checked = refl

upper-lower :
    (vs : Bytes)
    → All (λ v. v < 32) vs
    → map to_upper (map to_lower (symbols alphabet vs)) ≡ symbols alphabet vs
unfolding symbols
upper-lower [] h = refl
upper-lower (v ∷ vs) h =
    ground (arith, all_below_sound symbol_lowers 32 v h.0 symbols_checked, upper-lower vs h.1)

abbrev no_blank : Bytes → Bool
no_blank = all (λ c. not (is_blank c))

lower_no_blank :
    (vs : Bytes) → All (λ v. v < 32) vs → no_blank (map to_lower (symbols alphabet vs)) ≡ true
unfolding symbols
lower_no_blank [] h = refl
lower_no_blank (v ∷ vs) h =
    ground (arith, all_below_sound symbol_lowers 32 v h.0 symbols_checked, lower_no_blank vs h.1)

trim_left-no_blank : (s : Bytes) → no_blank s ≡ true → trim_left s ≡ s
unfolding trim_left
trim_left-no_blank [] h = refl
trim_left-no_blank (c ∷ s) h = ground arith

trim_right-no_blank : (s : Bytes) → no_blank s ≡ true → trim_right s ≡ s
unfolding trim_right
trim_right-no_blank [] h = refl
trim_right-no_blank (c ∷ []) h = ground arith
trim_right-no_blank (c ∷ d ∷ s) h = ground (arith, trim_right-no_blank (d ∷ s))

trim-no_blank : (s : Bytes) → no_blank s ≡ true → trim s ≡ s
trim-no_blank s h = unfold trim in rw (trim_left-no_blank s h) (trim_right-no_blank s h)

length-lowered : (vs : Bytes) → length (map to_lower (symbols alphabet vs)) ≡ length vs
unfolding symbols
length-lowered [] = refl
length-lowered (v ∷ vs) = omega (arith, length-lowered vs)

module _ (t : Token) (sized_32 : length t.secret ≡ 32) (bytes : IsBytes t.secret) where
  abbrev body : Bytes
  body = map to_lower (Base32.encode t.secret)

  length-body : length body ≡ 52
  unfolding Base32.encode
  length-body = omega (arith, length-lowered (quintets t.secret), length-quintets t.secret)

  decode-body : Base32.decode (map to_upper body) ≡ some t.secret
  unfolding Base32.encode
  decode-body =
      ap Base32.decode (upper-lower (quintets t.secret) (quintets-All t.secret bytes))
      ∙ Base32.decode-encode t.secret bytes

  encode-no_blank : no_blank (encode t) ≡ true
  unfolding encode Base32.encode
  encode-no_blank = lower_no_blank (quintets t.secret) (quintets-All t.secret bytes)

  parse_trimmed-encode : parse_trimmed (encode t) ≡ some t
  unfolding parse_trimmed encode reencoded has_prefix sized
  parse_trimmed-encode = ground (arith, length-body, decode-body, ==-refl (encode t))

  -- A token of 32 bytes is read back from its text.
  pub parse_token-encode : parse_token (encode t) ≡ some t
  unfolding parse_token
  parse_token-encode = rw (trim-no_blank (encode t) encode-no_blank) parse_trimmed-encode
