-- ===== src/Protocol/Blob/Ranges.antt =====
-- Manifest.Validate of protocol/blob.go: the sources share out the bytes of the artifact.
use aken.Base.{
  ℕ, ◌+◌, ◌-◌, ◌≤◌, ◌<◌, ◌≡◌, Bool, true, ◌&&◌, not, List, [], ◌∷◌, arith, ltb, leb, if◌then◌else◌,
  length, string_eq,
}
use aken.Base.Signed.{ℤ, pos, negsuc, is_negative, magnitude, above}
use aken.Protocol.Blob.{
  ManifestSource, Manifest, Result, ok, err, is_number, covers, chunk_count, validate,
  count_matches,
}

-- Whether a source names the byte at a position.
abbrev pub holds_byte : ℕ → ManifestSource → Bool
holds_byte p s = leb (magnitude s.offset) p && ltb p (magnitude s.offset + magnitude s.bytes)

-- How many of the sources name the byte at a position.
unfoldable pub owners : ℕ → List ManifestSource → ℕ
owners p [] = 0
owners p (s ∷ sources) = (if holds_byte p s then 1 else 0) + owners p sources

offset_sound : (z : ℤ) (n : ℕ) → is_number z n ≡ true → magnitude z ≡ n
offset_sound (pos m) n h = ground arith
offset_sound (negsuc m) n h = ground arith

bytes_sound :
    (z : ℤ) (n : ℕ) → not (is_negative z) ≡ true → not (above z n) ≡ true → magnitude z ≤ n
bytes_sound (pos m) n g h = ground arith
bytes_sound (negsuc m) n g h = ground arith

-- A byte before the next source's offset belongs to none of the sources that follow, and one from
-- there on to one.
owners-covers :
    (total offset : ℕ) (sources : List ManifestSource) (p : ℕ)
    → covers total offset sources ≡ true
    → p < total
    → owners p sources ≡ (if leb offset p then 1 else 0)
unfolding covers owners
owners-covers total offset [] p h b = ground arith
owners-covers total offset (s ∷ sources) p h b = ground (
  arith,
  offset_sound s.offset offset,
  bytes_sound s.bytes (total - offset),
  owners-covers total (offset + magnitude s.bytes) sources p,
)

count_matches_sound :
    (m : Manifest) (r : Result ℕ) → count_matches m r ≡ true → r ≡ ok (length m.chunks_sha256)
count_matches_sound m (err e) h = absurd (cc)
count_matches_sound m (ok count) h = ground arith

-- In a manifest that passes Validate, every position below the total belongs to exactly one of the
-- sources, and there are as many chunk hashes as ChunkCount gives for the total.
pub owned_once :
    (m : Manifest)
    → validate m ≡ true
    → ((p : ℕ) → p < magnitude m.total_bytes → owners p m.sources ≡ 1)
      × (chunk_count m.total_bytes ≡ ok (length m.chunks_sha256))
unfolding validate
owned_once m h = (
  λ p b.
      let total = magnitude m.total_bytes in
      let one : owners p m.sources ≡ (if leb 0 p then 1 else 0) =
        owners-covers total 0 m.sources p (ground arith) b in
      ground arith,
  count_matches_sound m (chunk_count m.total_bytes) (ground arith),
)
