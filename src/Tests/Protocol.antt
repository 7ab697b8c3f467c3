-- ===== src/Tests/Protocol.antt =====
-- Tokens, keys and envelopes at concrete inputs.
use aken.Base.{◌≡◌, refl, some, none, [], ◌∷◌, ◌++◌, Bytes, arith, replicate}
use aken.Encoding.Alphabet.{codes, symbols, symbol}
use aken.Encoding.Base32
use aken.Encoding.Hex
use aken.Protocol.Caps.{max_job_bytes}
use aken.Protocol.Api.{parse_session_id, session_id_text, IsSessionId}
use aken.Protocol.Token.{Token, encode, parse_token, to_lower}
use aken.Protocol.Token.RoundTrip.{parse_token-encode}
use aken.Protocol.Wire.{big_endian}
use aken.Protocol.Envelope
use aken.Protocol.Envelope.{
  Envelope, ok, in_range, header, content_root, seal_session, open_session, blank_envelope,
  seal_with, session_nonce, validate, open_with, opened, canonical_at,
}
use aken.Protocol.Envelope.Sealed.{open_session_sound, open_session-seal_session, Accepted}
use aken.Tests.Samples.{crypto, crypto-AeadLaws, id, id_text, key}

pub id_parses : parse_session_id id_text ≡ some id
unfolding parse_session_id Hex.lower_hex Hex.decode Hex.digit_value
id_parses = refl

upper_case_refused : parse_session_id (codes "000102030405060708090A0B0C0D0EFF") ≡ none
unfolding parse_session_id Hex.lower_hex
upper_case_refused = refl

id-IsSessionId : IsSessionId id
id-IsSessionId = (refl, omega arith)

-- A secret of spec/vectors/token-v1.json's shape: the zero secret.
abbrev token : Token
token = record { secret = replicate 32 0 }

token_text : encode token ≡ codes "akn1_aaaaaaaaaaaaaaaaaaaaaaaaaaaaaaaaaaaaaaaaaaaaaaaaaaaa"
unfolding encode Base32.encode Base32.quintets symbols symbol to_lower
token_text = refl

parse_token-encode_example : parse_token (encode token) ≡ some token
parse_token-encode_example = parse_token-encode token refl (omega arith)

abbrev text : Bytes
text = 104 ∷ 105 ∷ []

abbrev sealed : Envelope
sealed = record {
  version = 1;
  session_id = id_text;
  seq = 9;
  class = 1;
  payload = replicate 16 0 ++ text;
}

seals : seal_session crypto key id 9 1 text max_job_bytes ≡ ok sealed
unfolding seal_session blank_envelope seal_with Envelope.canonical canonical_at header
    parse_session_id session_id_text Hex.encode Hex.lower_hex Hex.decode Hex.digit_value Hex.digit
    big_endian session_nonce
seals = refl

open_session-seal_session_example : open_session crypto key sealed id 9 max_job_bytes ≡ ok text
open_session-seal_session_example =
    open_session-seal_session crypto crypto-AeadLaws key id 9 1 text max_job_bytes sealed
      id-IsSessionId seals

open_session_sound_example : Accepted crypto crypto-AeadLaws key sealed id 9 max_job_bytes text
open_session_sound_example =
    open_session_sound crypto crypto-AeadLaws key sealed id 9 max_job_bytes text id-IsSessionId
      open_session-seal_session_example
