-- ===== src/Protocol/Blob/Chunks.antt =====
-- SplitChunks of protocol/blob.go: the pieces are the text, each but the last full, and their number
-- is the one that ChunkCount computes.
use native.Mathlib.Nat.{suc-mul, zero-mul}
use aken.Base.{
  ℕ, zero, suc, ◌+◌, ◌-◌, ◌*◌, ◌≤◌, ◌<◌, ◌≡◌, refl, ap, ◌∙◌, List, [], ◌∷◌, ◌++◌, some, Bytes,
  arith, some_inj, length, take, drop, get_elem?, min,
}
use aken.Base.Signed.{pos}
use aken.Protocol.Caps.{chunk_size}
use aken.Protocol.Blob.{pieces, split_chunks, chunk_count, ok}

abbrev pub concat : List Bytes → Bytes
concat [] = []
concat (x ∷ xs) = x ++ concat xs

append-take-drop : (n : ℕ) (xs : Bytes) → take n xs ++ drop n xs ≡ xs
append-take-drop zero xs = refl
append-take-drop (suc n) [] = refl
append-take-drop (suc n) (x ∷ xs) = ap (λ ys. x ∷ ys) (append-take-drop n xs)

length-take : (n : ℕ) (xs : Bytes) → length (take n xs) ≡ min n (length xs)
length-take zero xs = omega arith
length-take (suc n) [] = omega arith
length-take (suc n) (x ∷ xs) = omega (arith, length-take n xs)

length-drop : (n : ℕ) (xs : Bytes) → length (drop n xs) ≡ length xs - n
length-drop zero xs = omega arith
length-drop (suc n) [] = omega arith
length-drop (suc n) (x ∷ xs) = omega (arith, length-drop n xs)

no_step : (n step : ℕ) → n * step < step → n * step ≡ 0
no_step zero step h = zero-mul step
no_step (suc n) step h = absurd (omega (arith, suc-mul n step))

concat-pieces :
    (step fuel : ℕ) (text : Bytes)
    → 0 < step
    → length text ≤ fuel
    → concat (pieces step fuel text) ≡ text
unfolding pieces
concat-pieces step zero [] s f = refl
concat-pieces step zero (b ∷ text) s f = absurd (omega arith)
concat-pieces step (suc fuel) [] s f = refl
concat-pieces step (suc fuel) (b ∷ text) s f =
    let rest = drop step (b ∷ text) in
    ap (λ ys. take step (b ∷ text) ++ ys)
      (concat-pieces step fuel rest s (omega (arith, length-drop step (b ∷ text))))
    ∙ append-take-drop step (b ∷ text)

-- A piece: not empty, no longer than a step, and exactly one step long unless it is the last.
pub record Piece (step total index : ℕ) (piece : Bytes) : Type 0 where
  pub some_bytes : 0 < length piece
  pub fits : length piece ≤ step
  pub starts_within : index * step < total
  pub length_piece : length piece ≡ min step (total - index * step)

head-Piece :
    (step b : ℕ) (text : Bytes) → 0 < step → Piece step (length (b ∷ text)) 0 (take step (b ∷ text))
head-Piece step b text s =
    let l = length-take step (b ∷ text) in
    record {
      some_bytes = omega (arith, l);
      fits = omega (arith, l);
      starts_within = omega arith;
      length_piece = omega (arith, l);
    }

-- A piece of what follows the first step, counted from the start of the text.
later-Piece :
    (step total i : ℕ) (piece : Bytes)
    → Piece step (total - step) i piece
    → Piece step total (suc i) piece
later-Piece step total i piece p = record {
  some_bytes = p.some_bytes;
  fits = p.fits;
  starts_within = omega (arith, p.starts_within, suc-mul i step);
  length_piece = omega (arith, p.length_piece, p.starts_within, suc-mul i step);
}

get_elem?-pieces :
    (step fuel : ℕ) (text : Bytes) (i : ℕ) (piece : Bytes)
    → 0 < step
    → get_elem? (pieces step fuel text) i ≡ some piece
    → Piece step (length text) i piece
unfolding pieces
get_elem?-pieces step zero text i piece s h = absurd (cc)
get_elem?-pieces step (suc fuel) [] i piece s h = absurd (cc)
get_elem?-pieces step (suc fuel) (b ∷ text) zero piece s h =
    rw (← some_inj h) (head-Piece step b text s)
get_elem?-pieces step (suc fuel) (b ∷ text) (suc i) piece s h =
    later-Piece step (length (b ∷ text)) i piece (
      rw (← length-drop step (b ∷ text))
        (get_elem?-pieces step fuel (drop step (b ∷ text)) i piece s h))

-- Just enough pieces: one less would not hold the text.
length-pieces :
    (step fuel : ℕ) (text : Bytes)
    → 0 < step
    → length text ≤ fuel
    → let n = length (pieces step fuel text) in
      (n * step < length text + step) × (length text ≤ n * step)
unfolding pieces
length-pieces step zero [] s f = (omega (arith, zero-mul step), omega arith)
length-pieces step zero (b ∷ text) s f = absurd (omega arith)
length-pieces step (suc fuel) [] s f = (omega (arith, zero-mul step), omega arith)
length-pieces step (suc fuel) (b ∷ text) s f =
    let rest = drop step (b ∷ text) in
    let l = length-drop step (b ∷ text) in
    let (above, below) = length-pieces step fuel rest s (omega (arith, l)) in
    let m = suc-mul (length (pieces step fuel rest)) step in
    (ground (arith, l, m, no_step (length (pieces step fuel rest)) step), omega (arith, l, m))

-- What SplitChunks makes is the text again when it is put together.
pub concat-split_chunks : (plaintext : Bytes) → concat (split_chunks plaintext) ≡ plaintext
unfolding split_chunks
concat-split_chunks plaintext =
    concat-pieces chunk_size (length plaintext) plaintext (omega arith) (omega arith)

pub length-split_chunks :
    (plaintext : Bytes) (count : ℕ)
    → chunk_count (pos (length plaintext)) ≡ ok count
    → length (split_chunks plaintext) ≡ count
unfolding split_chunks chunk_count
length-split_chunks plaintext count h =
    ground
      (arith, length-pieces chunk_size (length plaintext) plaintext (omega arith) (omega arith))

pub get_elem?-split_chunks :
    (plaintext : Bytes) (i : ℕ) (piece : Bytes)
    → get_elem? (split_chunks plaintext) i ≡ some piece
    → Piece chunk_size (length plaintext) i piece
unfolding split_chunks
get_elem?-split_chunks plaintext i piece h =
    get_elem?-pieces chunk_size (length plaintext) plaintext i piece (omega arith) h
