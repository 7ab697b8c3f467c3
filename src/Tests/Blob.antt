-- ===== src/Tests/Blob.antt =====
-- Chunks and manifests at concrete inputs.
use aken.Base.{
  ℕ, ◌≡◌, ◌<◌, refl, true, some, [], ◌∷◌, Bytes, length, replicate, get_elem?, string_eq,
}
use aken.Base.Signed.{pos, negsuc, magnitude}
use aken.Encoding.Hex.{lower_hex}
use aken.Protocol.Blob.{
  BlobKeys, Manifest, ManifestSource, ok, err, size, chunk_count, split_chunks, pieces, covers,
  validate,
}
use aken.Protocol.Blob.Ranges.{owners, owned_once}
use aken.Relay.BlobRoute.Sizes.{Carried, split_chunks-Carried}
use aken.Tests.Samples.{crypto, crypto-AeadLaws, key, other_key}

abbrev text : Bytes
text = 65 ∷ 66 ∷ 10 ∷ []

abbrev blob_keys : BlobKeys
blob_keys = record { manifest = key; chunk = other_key }

text_count : chunk_count (pos (length text)) ≡ ok 1
unfolding chunk_count
text_count = refl

negative_refused : chunk_count (negsuc 0) ≡ err size
unfolding chunk_count
negative_refused = refl

text_split : get_elem? (split_chunks text) 0 ≡ some text
unfolding split_chunks pieces
text_split = refl

split_chunks-Carried_example : Carried crypto blob_keys 1 0 text
split_chunks-Carried_example =
    split_chunks-Carried crypto crypto-AeadLaws blob_keys text 1 0 text text_count text_split

abbrev source : ℕ → ℕ → ManifestSource
source offset bytes = record { kind = "file"; offset = pos offset; bytes = pos bytes }

abbrev manifest : Manifest
manifest = record {
  version = 1;
  chunk_size = 1048576;
  chunk_count = 1;
  total_bytes = pos 3;
  chunks_sha256 = replicate 64 b'0' ∷ [];
  sources = source 0 2 ∷ source 2 1 ∷ [];
  categories = "ip" ∷ [];
}

manifest_valid : validate manifest ≡ true
unfolding validate covers chunk_count lower_hex
manifest_valid = refl

owned_once_example :
    ((p : ℕ) → p < magnitude manifest.total_bytes → owners p manifest.sources ≡ 1)
    × (chunk_count manifest.total_bytes ≡ ok (length manifest.chunks_sha256))
owned_once_example = owned_once manifest manifest_valid
