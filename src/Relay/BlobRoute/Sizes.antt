-- ===== src/Relay/BlobRoute/Sizes.antt =====
-- The collector's chunks (protocol/blob.go) against the relay's checks (relay/handler.go).
use aken.Base.{ℕ, ◌≤◌, ◌<◌, ◌≡◌, false, some, Bytes, arith, length, get_elem?}
use aken.Base.Signed.{pos}
use aken.Protocol.Crypto.{Crypto, AeadLaws}
use aken.Protocol.Caps.{default_caps}
use aken.Protocol.Blob.{
  BlobKeys, ok, bad_chunk, chunk_count, split_chunks, seal_chunk, open_chunk, blob_nonce, blob_ad,
}
use aken.Protocol.Blob.Chunks.{get_elem?-split_chunks}
use aken.Protocol.Blob.Sealed.{Piece-not_bad, chunk_count_sound, open_chunk-seal_chunk}
use aken.Relay.Store.{SessionMeta}
use aken.Relay.BlobRoute.{bad_chunk_size}

-- A sealed chunk that the relay takes for a session of this many chunks, and that opens again.
pub record Carried (c : Crypto) (k : BlobKeys) (count i : ℕ) (piece : Bytes) : Type 0 where
  pub sealed : Bytes
  pub seals : seal_chunk c k i count piece ≡ ok sealed
  pub index_in_range : i < count
  pub within_cap : length sealed ≤ default_caps.chunk_bytes
  pub size_taken :
      (sess : SessionMeta) → sess.chunk_count ≡ count → bad_chunk_size sess i sealed ≡ false
  pub opens : open_chunk c k i count sealed ≡ ok piece

module _ (c : Crypto) (laws : AeadLaws c) (k : BlobKeys) where
  piece_seals :
      (i count : ℕ) (piece : Bytes)
      → bad_chunk i count piece ≡ false
      → seal_chunk c k i count piece ≡ ok (c.seal k.chunk (blob_nonce i) piece (blob_ad i count))
  unfolding seal_chunk
  piece_seals i count piece h = ground arith

  -- For a text whose length ChunkCount accepts with some count, each chunk that SplitChunks makes is
  -- sealed by SealChunk, passes the relay's checks of index and size for a session of that count
  -- under the default caps, and opens to the same bytes.
  pub split_chunks-Carried :
      (plaintext : Bytes) (count i : ℕ) (piece : Bytes)
      → chunk_count (pos (length plaintext)) ≡ ok count
      → get_elem? (split_chunks plaintext) i ≡ some piece
      → Carried c k count i piece
  split_chunks-Carried plaintext count i piece h at =
      let p = get_elem?-split_chunks plaintext i piece at in
      let good = Piece-not_bad (length plaintext) count i piece h p in
      let sealed = c.seal k.chunk (blob_nonce i) piece (blob_ad i count) in
      let seals = piece_seals i count piece good in
      let l = laws.length-seal k.chunk (blob_nonce i) piece (blob_ad i count) in
      let bounds = chunk_count_sound (length plaintext) count h in
      record {
        sealed = sealed;
        seals = seals;
        index_in_range = ground arith;
        within_cap = omega (arith, l, p.fits);
        size_taken = λ sess e. ground (arith, p.some_bytes);
        opens = open_chunk-seal_chunk c laws k i count piece sealed seals;
      }
