-- ===== src/Protocol/Blob.antt =====
-- protocol/blob.go: the chunks of a one-shot artifact, their sealed form, and the manifest.
pub mod Chunks
pub mod Sealed
pub mod Ranges
use aken.Base.Signed.{ℤ, pos, negsuc, is_negative, magnitude, above}
use aken.Base.{
  ℕ, zero, suc, ◌+◌, ◌-◌, ◌*◌, ◌/◌, Bool, true, false, ◌&&◌, ◌||◌, not, Option, none, some, List,
  [], ◌∷◌, ◌++◌, String, Bytes, eqb, ltb, leb, ◌==◌, string_eq, if◌then◌else◌, length, replicate,
  take, drop, all, any,
}
use aken.Encoding.Alphabet.{codes}
use aken.Encoding.Hex.{lower_hex}
use aken.Protocol.Crypto.{Crypto}
use aken.Protocol.Caps.{chunk_size, chunk_overhead, max_chunk_count, max_manifest_bytes}
use aken.Protocol.Wire.{big_endian}

abbrev pub blob_version : ℕ
blob_version = 1

abbrev pub redaction_categories : List String
redaction_categories =
    "secret" ∷ "token" ∷ "jwt" ∷ "key" ∷ "ip" ∷ "email" ∷ "phone" ∷ "name" ∷ "address" ∷ []

-- Errors: `size` for ErrBlobSize and `auth` for ErrBlobAuth.
pub data BlobError : Type 0 where
  size auth : BlobError

pub data Result {ℓ} (A : Type ℓ) : Type ℓ where
  ok : A → Result A
  err : BlobError → Result A

-- The length is an int64, which may be negative in a manifest.
unfoldable pub chunk_count : ℤ → Result ℕ
chunk_count (negsuc n) = err size
chunk_count (pos n) =
    if eqb n 0 || ltb (max_chunk_count * chunk_size) n
    then err size
    else ok ((n + chunk_size - 1) / chunk_size)

-- The loop of SplitChunks for any chunk size. Each turn takes a byte at least, so the length of the
-- text is enough fuel.
unfoldable pub pieces : ℕ → ℕ → Bytes → List Bytes
pieces step zero text = []
pieces step (suc fuel) [] = []
pieces step (suc fuel) (b ∷ text) = take step (b ∷ text) ∷ pieces step fuel (drop step (b ∷ text))

unfoldable pub split_chunks : Bytes → List Bytes
split_chunks plaintext = pieces chunk_size (length plaintext) plaintext

unfoldable pub blob_ad : ℕ → ℕ → Bytes
blob_ad index count = blob_version ∷ big_endian 8 index ++ big_endian 4 count

unfoldable pub blob_nonce : ℕ → Bytes
blob_nonce index = replicate 4 0 ++ big_endian 8 index

pub record BlobKeys : Type 0 where
  pub manifest : Bytes
  pub chunk : Bytes

-- What SealChunk refuses.
abbrev pub bad_chunk : ℕ → ℕ → Bytes → Bool
bad_chunk index count plaintext =
    eqb count 0
    || ltb max_chunk_count count
    || leb count index
    || eqb (length plaintext) 0
    || ltb chunk_size (length plaintext)
    || (ltb index (count - 1) && not (eqb (length plaintext) chunk_size))

-- What OpenChunk refuses before it decrypts.
abbrev pub bad_ciphertext : ℕ → ℕ → Bytes → Bool
bad_ciphertext index count ciphertext =
    eqb count 0
    || ltb max_chunk_count count
    || leb count index
    || ltb (length ciphertext) 17
    || ltb (chunk_size + chunk_overhead) (length ciphertext)

abbrev pub authenticated : Option Bytes → Result Bytes
authenticated none = err auth
authenticated (some plaintext) = ok plaintext

module _ (c : Crypto) where
  unfoldable pub derive_blob_keys : Bytes → BlobKeys
  derive_blob_keys content_root =
      let derive = λ (label : Bytes). c.hkdf content_root (codes "aken/blob/v1") label 32 in
      record { manifest = derive (codes "manifest-key"); chunk = derive (codes "chunk-key") }

  unfoldable pub seal_chunk : BlobKeys → ℕ → ℕ → Bytes → Result Bytes
  seal_chunk k index count plaintext =
      if bad_chunk index count plaintext
      then err size
      else ok (c.seal k.chunk (blob_nonce index) plaintext (blob_ad index count))

  unfoldable pub open_chunk : BlobKeys → ℕ → ℕ → Bytes → Result Bytes
  open_chunk k index count ciphertext =
      if bad_ciphertext index count ciphertext
      then err size
      else authenticated (c.open_sealed k.chunk (blob_nonce index) ciphertext (blob_ad index count))

  unfoldable pub seal_manifest : BlobKeys → ℕ → Bytes → Result Bytes
  seal_manifest k count manifest_json =
      if eqb (length manifest_json) 0
        || ltb (max_manifest_bytes - chunk_overhead) (length manifest_json)
      then err size
      else ok (c.seal k.manifest (blob_nonce 0) manifest_json (blob_ad 0 count))

  unfoldable pub open_manifest : BlobKeys → ℕ → Bytes → Result Bytes
  open_manifest k count ciphertext =
      authenticated (c.open_sealed k.manifest (blob_nonce 0) ciphertext (blob_ad 0 count))

-- The fields that Validate reads. `version` and `chunk_size` of Go's type int are natural here, and
-- the texts are JSON strings as bytes.
pub record ManifestSource : Type 0 where
  pub kind : String
  pub offset : ℤ
  pub bytes : ℤ

pub record Manifest : Type 0 where
  pub version : ℕ
  pub chunk_size : ℕ
  pub chunk_count : ℕ
  pub total_bytes : ℤ
  pub chunks_sha256 : List Bytes
  pub sources : List ManifestSource
  pub categories : List String

abbrev pub is_number : ℤ → ℕ → Bool
is_number (pos m) n = eqb m n
is_number (negsuc m) n = false

abbrev pub known_kind : String → Bool
known_kind kind = kind == "unit" || kind == "container" || kind == "file"

-- The loop over the sources: each begins where the one before ended, and none passes the total.
unfoldable pub covers : ℕ → ℕ → List ManifestSource → Bool
covers total offset [] = eqb offset total
covers total offset (s ∷ sources) =
    is_number s.offset offset
    && not (is_negative s.bytes)
    && not (above s.bytes (total - offset))
    && known_kind s.kind
    && covers total (offset + magnitude s.bytes) sources

abbrev pub count_matches : Manifest → Result ℕ → Bool
count_matches m (err e) = false
count_matches m (ok count) = eqb m.chunk_count count && eqb m.chunk_count (length m.chunks_sha256)

abbrev pub has_sources : List ManifestSource → Bool
has_sources [] = false
has_sources (s ∷ sources) = true

-- Whether Validate returns no error.
unfoldable pub validate : Manifest → Bool
unfolding covers
validate m =
    eqb m.version blob_version
    && eqb m.chunk_size chunk_size
    && count_matches m (chunk_count m.total_bytes)
    && all (λ hash. lower_hex hash 64) m.chunks_sha256
    && has_sources m.sources
    && covers (magnitude m.total_bytes) 0 m.sources
    && all (λ category. any (λ known. known == category) redaction_categories) m.categories
