-- ===== src/Tests/Samples.antt =====
-- Sample data, and instances of the parameters that meet their laws.
use native.Mathlib.Nat.{add_comm}
use aken.Base.Map
use aken.Base.{
  ℕ, zero, suc, ◌+◌, ◌≡◌, refl, ap, Option, none, some, [], ◌∷◌, ◌++◌, Bytes, arith, eqb,
  if◌then◌else◌, replicate, bytes_eq, take,
}
use aken.Base.Signed.{pos}
use aken.Encoding.Alphabet.{codes}
use aken.Protocol.Crypto.{Crypto, AeadLaws, Exchange, ExchangeLaws}
use aken.Protocol.Api.{SessionId, JoinInfo, CreateSessionRequest}
use aken.Protocol.Envelope.{Envelope}
use aken.Relay.Memory.{MemoryStore, MemorySession}
use aken.Relay.Live.{new_live}
use aken.Relay.Registry.{State}
use aken.Relay.Http.{Json}

-- A sealed text is the text behind sixteen zeros.
abbrev pub strip_zeros : ℕ → Bytes → Option Bytes
strip_zeros zero s = some s
strip_zeros (suc n) [] = none
strip_zeros (suc n) (b ∷ s) = if eqb b 0 then strip_zeros n s else none

strip_zeros_sound :
    (n : ℕ) (s text : Bytes) → strip_zeros n s ≡ some text → s ≡ replicate n 0 ++ text
strip_zeros_sound zero s text h = ground arith
strip_zeros_sound (suc n) [] text h = ground arith
strip_zeros_sound (suc n) (b ∷ s) text h = ground (arith, strip_zeros_sound n s text)

abbrev pub crypto : Crypto
crypto = record {
  sha256 = λ b. take 4 b;
  hkdf = λ secret salt info n. replicate n 7;
  hmac = λ key message. key ++ message;
  seal = λ key nonce text ad. replicate 16 0 ++ text;
  open_sealed = λ key nonce sealed ad. strip_zeros 16 sealed;
}

pub crypto-AeadLaws : AeadLaws crypto
crypto-AeadLaws = record {
  open-seal = λ key nonce text ad. refl;
  length-seal = λ key nonce text ad. omega arith;
  open_only_sealed = λ key nonce sealed text ad h. strip_zeros_sound 16 sealed text h;
}

-- The sum of two one-byte private keys is their secret.
abbrev pub head_of : Bytes → ℕ
head_of [] = 0
head_of (b ∷ s) = b

abbrev pub exchange : Exchange
exchange = record { public_key = λ p. p; shared = λ p q. some ((head_of p + head_of q) ∷ []) }

pub exchange-ExchangeLaws : ExchangeLaws exchange
exchange-ExchangeLaws = record {
  shared_comm = λ a b. ap (λ (n : ℕ). some (n ∷ [])) (add_comm (head_of a) (head_of b));
}

abbrev pub id : SessionId
id = 0 ∷ 1 ∷ 2 ∷ 3 ∷ 4 ∷ 5 ∷ 6 ∷ 7 ∷ 8 ∷ 9 ∷ 10 ∷ 11 ∷ 12 ∷ 13 ∷ 14 ∷ 255 ∷ []

abbrev pub id_text : Bytes
id_text = codes "000102030405060708090a0b0c0d0eff"

abbrev pub key : Bytes
key = replicate 32 5

abbrev pub other_key : Bytes
other_key = replicate 32 6

abbrev pub envelope : ℕ → Envelope
envelope seq = record {
  version = 1;
  session_id = id_text;
  seq = seq;
  class = 1;
  payload = replicate 17 0;
}

abbrev pub info : JoinInfo
info = record {
  collector_key = [];
  collector_mac = [];
  mcp_key = [];
  mcp_mac = [];
  via = "cli";
  joined_at = 3;
}

-- A blob session with one chunk to come, under the credential `key`.
abbrev pub blob_session : MemorySession
blob_session = record {
  mode = "blob";
  collector_key = [];
  collector_mac = [];
  cred_hash = take 4 key;
  expires_at = 100;
  chunk_count = 1;
  chunks = none ∷ [];
  stored = 0;
  manifest = none;
}

-- The same with its chunk.
abbrev pub full_session : MemorySession
full_session = record blob_session { chunks = some (replicate 17 1) ∷ []; stored = 1 }

abbrev pub store_with : MemorySession → MemoryStore
store_with sess = record { sessions = Map.insert Map.empty id sess }

abbrev pub state_with : MemorySession → State MemoryStore
state_with sess = record {
  store = store_with sess;
  sessions = Map.empty;
  heap = λ p. new_live 100;
  free = 0;
}

abbrev pub creation : CreateSessionRequest
creation = record {
  mode = "";
  collector_key = [];
  collector_mac = [];
  ttl_seconds = pos 0;
  chunk_count = 2;
}

abbrev pub json : Json
json = record {
  create_request = λ b. some creation;
  join_request = λ b. none;
  envelope = λ b. some (envelope 1);
}
