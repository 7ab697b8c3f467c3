-- ===== src/Protocol/Crypto.antt =====
-- What the program uses of Go's crypto packages. They are parameters, with the documented laws that
-- the program relies on.
use aken.Base.{ℕ, ◌+◌, ◌≡◌, ◌<◌, Option, some, Bytes, All, length}

pub record Crypto : Type 0 where
  -- sha256.Sum256
  pub sha256 : Bytes → Bytes
  -- hkdf.Key(sha256.New, secret, salt, info, length)
  pub hkdf : Bytes → Bytes → Bytes → ℕ → Bytes
  -- hmac.New(sha256.New, key) over a message
  pub hmac : Bytes → Bytes → Bytes
  -- AES-256-GCM: key, nonce, text, additional data
  pub seal : Bytes → Bytes → Bytes → Bytes → Bytes
  pub open_sealed : Bytes → Bytes → Bytes → Bytes → Option Bytes

-- ecdh.X25519: the public key of a private key, and the shared secret with a peer's public key, which
-- is refused for some peers.
pub record Exchange : Type 0 where
  pub public_key : Bytes → Bytes
  pub shared : Bytes → Bytes → Option Bytes

-- HKDF returns as many bytes as it is asked for.
pub record KdfLaws (c : Crypto) : Type 0 where
  pub length-hkdf : (secret salt info : Bytes) (n : ℕ) → length (c.hkdf secret salt info n) ≡ n
  pub hkdf-bytes :
      (secret salt info : Bytes) (n : ℕ) → All (λ b. b < 256) (c.hkdf secret salt info n)

-- Both sides of an exchange agree on the secret.
pub record ExchangeLaws (x : Exchange) : Type 0 where
  pub shared_comm : (a b : Bytes) → x.shared a (x.public_key b) ≡ x.shared b (x.public_key a)

-- cipher.AEAD: what is sealed opens under the same key, nonce and data, the tag takes 16 bytes, and
-- for given key, nonce and data only the sealed form of a text opens to it.
pub record AeadLaws (c : Crypto) : Type 0 where
  pub open-seal :
      (key nonce text ad : Bytes)
      → c.open_sealed key nonce (c.seal key nonce text ad) ad ≡ some text
  pub length-seal :
      (key nonce text ad : Bytes) → length (c.seal key nonce text ad) ≡ length text + 16
  pub open_only_sealed :
      (key nonce sealed text ad : Bytes)
      → c.open_sealed key nonce sealed ad ≡ some text
      → sealed ≡ c.seal key nonce text ad
