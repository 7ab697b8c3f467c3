-- ===== src/Protocol/Envelope.antt =====
-- protocol/session.go: session envelopes, their canonical form, sealing and opening, and the keys
-- and codes of the key exchange.
pub mod Sealed
pub mod Header
pub mod Agreement
use aken.Base.{
  ℕ, ◌+◌, ◌-◌, ◌^◌, ◌≡◌, refl, Bool, true, false, ◌&&◌, ◌||◌, not, Option, none, some, List, [],
  ◌∷◌, ◌++◌, Bytes, eqb, ltb, leb, ◌==◌, bytes_eq, if◌then◌else◌, length, replicate, is_some,
}
use aken.Encoding.Alphabet.{codes}
use aken.Protocol.Crypto.{Crypto, Exchange}
use aken.Protocol.Caps.{
  session_version, class_read, class_exec, max_job_bytes, max_result_bytes, max_session_seq,
}
use aken.Protocol.Wire.{big_endian}
use aken.Protocol.Api.{SessionId, session_id_text, parse_session_id, sized}

abbrev pub session_label : Bytes
session_label = codes "aken/session/v1"

pub data SessionError : Type 0 where
  envelope_error sequence_error session_auth_error exchange_error : SessionError

pub data Result {ℓ} (A : Type ℓ) : Type ℓ where
  ok : A → Result A
  err : SessionError → Result A

-- A success behind a guard passed the guard.
pub guard_ok {ℓ} :
    {A : Type ℓ} (b : Bool) (e : SessionError) (r : Result A) (a : A)
    → (if b then err e else r) ≡ ok a
    → (b ≡ false) × (r ≡ ok a)
guard_ok true e r a h = absurd (cc)
guard_ok false e r a h = (refl, h)

pub record Envelope : Type 0 where
  pub version : ℕ
  pub session_id : Bytes
  pub seq : ℕ
  pub class : ℕ
  pub payload : Bytes

-- The tests of `Canonical` on the fields, but for the session identifier.
abbrev pub in_range : Envelope → Bool
in_range e =
    eqb e.version session_version
    && not (eqb e.seq 0)
    && leb e.seq max_session_seq
    && leb class_read e.class
    && leb e.class class_exec
    && ltb 16 (length e.payload)
    && leb (length e.payload) (2 ^ 32 - 1)

-- The additional data: 30 bytes.
unfoldable pub header : Envelope → SessionId → Bytes
header e id = e.version ∷ id ++ big_endian 8 e.seq ++ e.class ∷ big_endian 4 (length e.payload)

unfoldable pub canonical_at : Envelope → Option SessionId → Option Bytes
canonical_at e none = none
canonical_at e (some id) = if in_range e then some (header e id) else none

unfoldable pub canonical : Envelope → Option Bytes
canonical e = canonical_at e (parse_session_id e.session_id)

-- Whether `Validate` returns no error.
unfoldable pub validate : Envelope → SessionId → ℕ → Bool
validate e id max_payload =
    is_some (canonical e)
    && e.session_id == session_id_text id
    && leb (length e.payload) max_payload

unfoldable pub session_nonce : ℕ → Bytes
session_nonce seq = replicate 4 0 ++ big_endian 8 seq

pub record SessionKeys : Type 0 where
  pub job : Bytes
  pub result : Bytes

module _ (c : Crypto) where
  unfoldable pub collector_mac : Bytes → SessionId → Bytes → Bytes
  collector_mac exchange_key id collector_key =
      c.hmac exchange_key (session_label ++ 1 ∷ id ++ collector_key)

  unfoldable pub mcp_mac : Bytes → SessionId → Bytes → Bytes → Bytes
  mcp_mac exchange_key id collector_key mcp_key =
      c.hmac exchange_key (session_label ++ 2 ∷ id ++ collector_key ++ mcp_key)

  unfoldable pub verify_collector_mac : Bytes → SessionId → Bytes → Bytes → Bool
  verify_collector_mac exchange_key id collector_key mac =
      collector_mac exchange_key id collector_key == mac

  unfoldable pub verify_mcp_mac : Bytes → SessionId → Bytes → Bytes → Bytes → Bool
  verify_mcp_mac exchange_key id collector_key mcp_key mac =
      mcp_mac exchange_key id collector_key mcp_key == mac

  unfoldable pub derive_session_keys : Bytes → SessionKeys
  derive_session_keys content_root = record {
    job = c.hkdf content_root session_label (codes "job-key") 32;
    result = c.hkdf content_root session_label (codes "result-key") 32;
  }

  -- The payload is made of the right length first, since the header holds that length.
  unfoldable pub blank_envelope : SessionId → ℕ → ℕ → Bytes → Envelope
  blank_envelope id seq class plaintext = record {
    version = session_version;
    session_id = session_id_text id;
    seq = seq;
    class = class;
    payload = replicate (length plaintext + 16) 0;
  }

  unfoldable pub seal_with : Bytes → Bytes → Envelope → Option Bytes → Result Envelope
  seal_with key plaintext e none = err envelope_error
  seal_with key plaintext e (some ad) =
      ok (record e { payload = c.seal key (session_nonce e.seq) plaintext ad })

  unfoldable pub seal_session : Bytes → SessionId → ℕ → ℕ → Bytes → ℕ → Result Envelope
  seal_session key id seq class plaintext cap_bytes =
      if eqb (length plaintext) 0 || ltb (cap_bytes - 16) (length plaintext)
      then err envelope_error
      else (let e = blank_envelope id seq class plaintext in
          seal_with key plaintext e (canonical e))

  unfoldable pub opened : Option Bytes → Result Bytes
  opened none = err session_auth_error
  opened (some plaintext) = ok plaintext

  unfoldable pub open_with : Bytes → Envelope → Option Bytes → Result Bytes
  open_with key e none = err envelope_error
  open_with key e (some ad) = opened (c.open_sealed key (session_nonce e.seq) e.payload ad)

  unfoldable pub open_session : Bytes → Envelope → SessionId → ℕ → ℕ → Result Bytes
  open_session key e id expect_seq cap_bytes =
      if not (validate e id cap_bytes)
      then err envelope_error
      else if not (eqb e.seq expect_seq)
      then err sequence_error
      else open_with key e (canonical e)

  unfoldable pub seal_job : SessionKeys → SessionId → ℕ → ℕ → Bytes → Result Envelope
  seal_job k id seq class plaintext = seal_session k.job id seq class plaintext max_job_bytes

  unfoldable pub open_job : SessionKeys → Envelope → SessionId → ℕ → Result Bytes
  open_job k e id expect_seq = open_session k.job e id expect_seq max_job_bytes

  unfoldable pub seal_result : SessionKeys → SessionId → ℕ → ℕ → Bytes → Result Envelope
  seal_result k id seq class plaintext =
      seal_session k.result id seq class plaintext max_result_bytes

  unfoldable pub open_result : SessionKeys → Envelope → SessionId → ℕ → Result Bytes
  open_result k e id expect_seq = open_session k.result e id expect_seq max_result_bytes

-- The root of the session's keys, from the private key and the peer's public key.
module _ (c : Crypto) (x : Exchange) where
  unfoldable pub root_of : SessionId → Bytes → Bytes → Option Bytes → Result Bytes
  root_of id collector_key mcp_key none = err exchange_error
  root_of id collector_key mcp_key (some secret) = ok (
      c.hkdf secret (c.sha256 (session_label ++ id ++ collector_key ++ mcp_key))
        (codes "content-root") 32)

  unfoldable pub content_root : Bytes → Bytes → SessionId → Bytes → Bytes → Result Bytes
  content_root private peer id collector_key mcp_key =
      root_of id collector_key mcp_key (x.shared private peer)
