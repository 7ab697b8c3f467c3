-- ===== src/Protocol/Api.antt =====
-- protocol/relayapi.go: the relay's API types, session identifiers, credentials and public keys in
-- their text forms. A time is a number of nanoseconds.
pub mod RoundTrip
use aken.Base.Signed.{ℤ}
use aken.Base.{
  ℕ, ◌+◌, ◌<◌, ◌≡◌, refl, Bool, true, false, ◌&&◌, not, Option, none, some, List, [], ◌∷◌, ◌++◌,
  String, Bytes, arith, eqb, ◌==◌, bytes_eq, if◌then◌else◌, length, drop,
}
use aken.Encoding.Alphabet.{codes, IsBytes}
use aken.Encoding.Hex
use aken.Encoding.Base64

pub record CreateSessionRequest : Type 0 where
  pub mode : String
  pub collector_key : Bytes
  pub collector_mac : Bytes
  pub ttl_seconds : ℤ
  pub chunk_count : ℕ

pub record SessionInfo : Type 0 where
  pub mode : String
  pub joined : Bool
  pub collector_key : Bytes
  pub collector_mac : Bytes
  pub session_id : Bytes
  pub expires_at : ℕ
  pub chunk_count : ℕ
  pub chunks_stored : ℕ
  pub manifest_stored : Bool

pub record JoinRequest : Type 0 where
  pub mcp_key : Bytes
  pub mcp_mac : Bytes
  pub via : String

pub record JoinInfo : Type 0 where
  pub collector_key : Bytes
  pub collector_mac : Bytes
  pub mcp_key : Bytes
  pub mcp_mac : Bytes
  pub via : String
  pub joined_at : ℕ

-- [16]byte
abbrev pub SessionId : Type 0
SessionId = Bytes

abbrev pub IsSessionId : SessionId → Type 0
IsSessionId id = (length id ≡ 16) × IsBytes id

unfoldable pub session_id_text : SessionId → Bytes
session_id_text id = Hex.encode id

unfoldable pub parse_session_id : Bytes → Option SessionId
parse_session_id s = if Hex.lower_hex s 32 then Hex.decode s else none

abbrev pub bearer : Bytes
bearer = codes "Bearer "

unfoldable pub has_prefix : Bytes → Bytes → Bool
has_prefix s [] = true
has_prefix [] (p ∷ ps) = false
has_prefix (c ∷ s) (p ∷ ps) = eqb c p && has_prefix s ps

-- [32]byte(decoded), if it has that length
unfoldable pub sized : ℕ → Option Bytes → Option Bytes
sized n none = none
sized n (some bytes) = if eqb (length bytes) n then some bytes else none

unfoldable pub authorization_header : Bytes → Bytes
authorization_header credential = bearer ++ Base64.encode credential

unfoldable pub parse_authorization_header : Bytes → Option Bytes
unfolding has_prefix sized
parse_authorization_header value =
    if not (has_prefix value bearer)
    then none
    else sized 32 (Base64.decode false (drop (length bearer) value))

unfoldable pub encode_key : Bytes → Bytes
encode_key key = Base64.encode key

-- A text that is not exactly what `encode_key` prints is refused.
unfoldable pub canonical : Bytes → Option Bytes → Option Bytes
canonical s none = none
canonical s (some key) = if not (encode_key key == s) then none else some key

unfoldable pub decode_key : Bytes → Option Bytes
unfolding canonical sized
decode_key s = canonical s (sized 32 (Base64.decode true s))
