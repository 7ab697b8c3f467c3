-- ===== src/Protocol/Blob/Sealed.antt =====
-- Chunks of protocol/blob.go from the collector through the relay to the client.
use aken.Base.{ℕ, ◌-◌, ◌*◌, ◌≤◌, ◌<◌, ◌≡◌, false, Option, none, some, Bytes, arith}
use aken.Base.Signed.{pos}
use aken.Protocol.Crypto.{Crypto, AeadLaws}
use aken.Protocol.Caps.{chunk_size, max_chunk_count}
use aken.Protocol.Blob.{
  BlobKeys, ok, bad_chunk, chunk_count, seal_chunk, authenticated, open_chunk, seal_manifest,
  open_manifest, blob_nonce, blob_ad,
}
use aken.Protocol.Blob.Chunks.{Piece}

pub chunk_count_sound :
    (n count : ℕ)
    → chunk_count (pos n) ≡ ok count
    → (0 < count)
      × (count ≤ max_chunk_count)
      × ((count - 1) * chunk_size < n)
      × (n ≤ count * chunk_size)
unfolding chunk_count
chunk_count_sound n count h = (ground arith, ground arith, ground arith, ground arith)

-- Every piece of the text is one that SealChunk takes, under the count that ChunkCount gives.
pub Piece-not_bad :
    (n count i : ℕ) (piece : Bytes)
    → chunk_count (pos n) ≡ ok count
    → Piece chunk_size n i piece
    → bad_chunk i count piece ≡ false
Piece-not_bad n count i piece h p =
    let (some_count, few, above, below) = chunk_count_sound n count h in
    ground (arith, p.some_bytes, p.fits, p.starts_within, p.length_piece)

authenticated_sound :
    (o : Option Bytes) (plaintext : Bytes) → authenticated o ≡ ok plaintext → o ≡ some plaintext
authenticated_sound none plaintext h = absurd (cc)
authenticated_sound (some text) plaintext h = ground arith

module _ (c : Crypto) (laws : AeadLaws c) (k : BlobKeys) where
  pub open_chunk-seal_chunk :
      (i count : ℕ) (plaintext ciphertext : Bytes)
      → seal_chunk c k i count plaintext ≡ ok ciphertext
      → open_chunk c k i count ciphertext ≡ ok plaintext
  unfolding seal_chunk open_chunk
  open_chunk-seal_chunk i count plaintext ciphertext h =
      let nonce = blob_nonce i in
      let ad = blob_ad i count in
      ground (
        arith,
        laws.length-seal k.chunk nonce plaintext ad,
        laws.open-seal k.chunk nonce plaintext ad,
      )

  -- What OpenChunk returns, only SealChunk made, under the same keys, index and count.
  pub open_chunk_sound :
      (i count : ℕ) (ciphertext plaintext : Bytes)
      → open_chunk c k i count ciphertext ≡ ok plaintext
      → (i < count) × (ciphertext ≡ c.seal k.chunk (blob_nonce i) plaintext (blob_ad i count))
  unfolding open_chunk
  open_chunk_sound i count ciphertext plaintext h =
      let nonce = blob_nonce i in
      let ad = blob_ad i count in
      (
        ground arith,
        laws.open_only_sealed k.chunk nonce ciphertext plaintext ad (
            authenticated_sound (c.open_sealed k.chunk nonce ciphertext ad) plaintext
              (ground arith)),
      )

  -- A sealed manifest opens under the count it was sealed for.
  pub open_manifest-seal_manifest :
      (count : ℕ) (manifest_json ciphertext : Bytes)
      → seal_manifest c k count manifest_json ≡ ok ciphertext
      → open_manifest c k count ciphertext ≡ ok manifest_json
  unfolding seal_manifest open_manifest
  open_manifest-seal_manifest count manifest_json ciphertext h =
      ground (arith, laws.open-seal k.manifest (blob_nonce 0) manifest_json (blob_ad 0 count))
