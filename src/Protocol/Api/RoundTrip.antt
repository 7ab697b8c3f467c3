-- ===== src/Protocol/Api/RoundTrip.antt =====
-- Session identifiers, credentials and keys in text form and back (protocol/relayapi.go).
use aken.Base.{
  ℕ, ◌≡◌, subst, true, false, Option, none, some, Bytes, arith, bytes_equal_iff, length, ==-refl,
  bytes_eq,
}
use aken.Encoding.Alphabet.{IsBytes}
use aken.Encoding.Hex
use aken.Encoding.Hex.{decode_lower, Decoded, length-encode, encode-is_lower_hex}
use aken.Encoding.Base64
use aken.Protocol.Api.{
  SessionId, session_id_text, parse_session_id, authorization_header, parse_authorization_header,
  encode_key, decode_key, canonical, sized,
}

pub parse_session_id-session_id_text :
    (id : SessionId) → length id ≡ 16 → IsBytes id → parse_session_id (session_id_text id) ≡ some id
unfolding parse_session_id session_id_text Hex.lower_hex
parse_session_id-session_id_text id l b =
    ground (arith, Hex.decode-encode id b, length-encode id, encode-is_lower_hex id b)

-- A text that `parse_session_id` accepts is the one that the id prints, and the id has 16 bytes.
pub parse_session_id_sound :
    (s : Bytes) (id : SessionId)
    → parse_session_id s ≡ some id
    → (session_id_text id ≡ s) × (length id ≡ 16) × IsBytes id
unfolding parse_session_id session_id_text Hex.lower_hex
parse_session_id_sound s id h =
    let (bytes, e, p, l, b) : Decoded 16 s = decode_lower 16 s (ground arith) (ground arith) in
    subst (λ x. (Hex.encode x ≡ s) × (length x ≡ 16) × IsBytes x) (ground arith) (p, l, b)

pub decode_key-encode_key :
    (key : Bytes) → length key ≡ 32 → IsBytes key → decode_key (encode_key key) ≡ some key
unfolding decode_key encode_key
decode_key-encode_key key l b =
    ground (arith, Base64.decode-encode true key b, ==-refl (Base64.encode key))

canonical_sound :
    (s : Bytes) (o : Option Bytes) (key : Bytes)
    → canonical s o ≡ some key
    → (o ≡ some key) × (encode_key key ≡ s)
unfolding canonical
canonical_sound s none key h = ground arith
canonical_sound s (some k) key h = ground (arith, bytes_equal_iff (encode_key k) s)

sized_sound : (n : ℕ) (o : Option Bytes) (k : Bytes) → sized n o ≡ some k → length k ≡ n
unfolding sized
sized_sound n none k h = ground arith
sized_sound n (some x) k h = ground arith

-- A text that `decode_key` accepts is the one that `encode_key` prints of the key, and the key
-- has 32 bytes.
pub decode_key_sound :
    (s key : Bytes) → decode_key s ≡ some key → (encode_key key ≡ s) × (length key ≡ 32)
decode_key_sound s key h =
    let (o, p) = canonical_sound s (sized 32 (Base64.decode true s)) key (unfold decode_key in h) in
    (p, sized_sound 32 (Base64.decode true s) key o)

pub parse_authorization_header-authorization_header :
    (credential : Bytes)
    → length credential ≡ 32
    → IsBytes credential
    → parse_authorization_header (authorization_header credential) ≡ some credential
unfolding parse_authorization_header authorization_header
parse_authorization_header-authorization_header c l b =
    ground (arith, Base64.decode-encode false c b)
