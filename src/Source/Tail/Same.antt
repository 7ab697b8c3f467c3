-- ===== src/Source/Tail/Same.antt =====
-- readTail and lastLines (internal/source/file.go) side by side: the last lines that each keeps.
use aken.Base.{
  ℕ, zero, suc, ◌+◌, ◌-◌, ◌<◌, ◌≤◌, ◌≡◌, refl, sym, ap, ◌∙◌, inl, inr, true, false, ◌||◌, Option,
  some, List, [], ◌∷◌, ◌++◌, Bytes, eqb, eqb_iff, ltb, length, length-append, take, drop, min,
  arith, Bool-cases,
}
use aken.Source.Lines.{split, split_lines, drop_empty_last, max_file_bytes, buffer_size, last_lines}
use aken.Source.Lines.Scanned.{Short}
use aken.Source.Lines.Split.{
  NoNewline, split_lines-line, finds, fills, ends, slice_cases, split_some, drop_past,
  split_lines-split,
}
use aken.Source.Lines.Last.{last_of, last_of-append, last_of_few, last_lines-last_of}
use aken.Source.Tail.{count, tail_bytes, joined, tail_block, tail_from, read_tail, kept_lines}
use mathlib.Core.List.{append-nil, append_assoc}

-- The parts before the last separator of a text, before the parts of what follows it.
split_after :
    (x s : Bytes)
    → (l : Bytes) × (ls : List Bytes) × (split b'\n' (x ++ b'\n' ∷ s) ≡ (l ∷ ls) ++ split b'\n' s)
unfolding split
split_after [] s = ([], [], refl)
split_after (b ∷ x) s =
    let (l, ls, e) = split_after x s in
    elim (Bool-cases (eqb b b'\n')) [
      | inl h ↦ ([], l ∷ ls, rw (h, e))
      | inr h ↦ (b ∷ l, ls, rw (h, e))
    ]

drop_empty_last-append :
    (ls : List Bytes) (s : Bytes)
    → drop_empty_last (ls ++ split b'\n' s) ≡ ls ++ drop_empty_last (split b'\n' s)
unfolding drop_empty_last
drop_empty_last-append [] s = refl
drop_empty_last-append (l ∷ []) s = drop_past l s
drop_empty_last-append (l ∷ m ∷ ls) s = ap (λ r. l ∷ r) (drop_empty_last-append (m ∷ ls) s)

lines_after :
    (x s : Bytes) → (ls : List Bytes) × (split_lines (x ++ b'\n' ∷ s) ≡ ls ++ split_lines s)
lines_after x s =
    let (l, ls, e) = split_after x s in
    (
      l ∷ ls,
      split_lines-split (x ++ b'\n' ∷ s)
          ∙ rw e (drop_empty_last-append (l ∷ ls) s ∙ rw (split_lines-split s)),
    )

count-append : (x y : Bytes) → count b'\n' (x ++ y) ≡ count b'\n' x + count b'\n' y
count-append [] y = omega arith
count-append (b ∷ x) y = ground (arith, count-append x y)

count_none : (x : Bytes) → NoNewline x → count b'\n' x ≡ 0
count_none [] h = refl
count_none (b ∷ x) h = rw h.0 (count_none x h.1)

length-split : (s : Bytes) → count b'\n' s < length (split b'\n' s)
unfolding split
length-split [] = omega arith
length-split (b ∷ s) =
    let (l, ls, e) = split_some s in
    let ih = rw e at (length-split s) in
    elim (Bool-cases (eqb b b'\n')) [
      | inl h ↦ rw (h, e) (omega arith)
      | inr h ↦ rw (h, e) (omega arith)
    ]

length-drop_empty_last : (ls : List Bytes) → length ls ≤ length (drop_empty_last ls) + 1
unfolding drop_empty_last
length-drop_empty_last [] = omega arith
length-drop_empty_last (l ∷ []) = ground arith
length-drop_empty_last (l ∷ m ∷ ls) = omega (arith, length-drop_empty_last (m ∷ ls))

count-le-lines : (s : Bytes) → count b'\n' s ≤ length (split_lines s)
count-le-lines s =
    rw (split_lines-split s) (omega (arith, length-split s, length-drop_empty_last (split b'\n' s)))

-- The end of a text that holds more than `n` newlines has its last `n` lines.
end_lines :
    (n : ℕ) (x d : Bytes)
    → n < count b'\n' d
    → last_of n (split_lines (x ++ d)) ≡ last_of n (split_lines d)
end_lines n x d h = elim (slice_cases (suc (length d)) d) [
  | finds body rest nb e _ ↦
      let few : n ≤ length (split_lines rest) = omega (
        arith,
        ap (count b'\n') e,
        count-append body (b'\n' ∷ rest),
        count_none body nb,
        count-le-lines rest,
      ) in
      let (ls, whole) = lines_after (x ++ body) rest in
      rw (e, sym (append_assoc x body (b'\n' ∷ rest)), whole, split_lines-line body rest nb)
        (last_of-append n ls (split_lines rest) few
          ∙ sym (last_of-append n (body ∷ []) (split_lines rest) few))
  | fills chunk rest nb l e _ ↦ absurd (omega (arith, ap length e, length-append chunk rest))
  | ends nb _ ↦ absurd (omega (arith, count_none d nb))
]

take_none : (n : ℕ) → take {A = ℕ} n [] ≡ []
take_none zero = refl
take_none (suc n) = refl

take-add : (a k : ℕ) (xs : Bytes) → take (a + k) xs ≡ take a xs ++ take k (drop a xs)
take-add zero k xs = ap (λ m. take m xs) (omega arith)
take-add (suc a) k [] = rw (take_none (suc a + k), take_none k)
take-add (suc a) k (x ∷ xs) =
    let one_more : suc a + k ≡ suc (a + k) = omega arith in rw (one_more, take-add a k xs)

length-block : (a k : ℕ) (xs : Bytes) → a + k ≤ length xs → length (take k (drop a xs)) ≡ k
length-block zero zero xs h = refl
length-block zero (suc k) [] h = absurd (omega arith)
length-block zero (suc k) (x ∷ xs) h = ap suc (length-block zero k xs (omega arith))
length-block (suc a) zero [] h = refl
length-block (suc a) (suc k) [] h = absurd (omega arith)
length-block (suc a) k (x ∷ xs) h = length-block a k xs (omega arith)

take_whole : (xs : Bytes) → take (length xs) xs ≡ xs
take_whole [] = refl
take_whole (x ∷ xs) = ap (λ r. x ∷ r) (take_whole xs)

module _ (read_at : ℕ → ℕ → Option Bytes) (content : Bytes) where
  -- ReadAt of a part of the file that is there reads it.
  abbrev pub ReadsFile : Type 0
  ReadsFile =
      (pos n : ℕ) → pos + n ≤ length content → read_at pos n ≡ some (take n (drop pos content))

  module _ (reads : ReadsFile) (n : ℕ) (small : length content ≤ max_file_bytes) where
    tail_from-same :
        (fuel pos total newlines : ℕ) (blocks : List Bytes)
        → pos < fuel
        → content ≡ take pos content ++ joined blocks
        → pos + total ≡ length content
        → newlines ≡ count b'\n' (joined blocks)
        → (d : Bytes) × (tail_from read_at n fuel pos total newlines blocks ≡ some (tail_bytes d))
          × (last_of n (split_lines d) ≡ last_of n (split_lines content))
    unfolding tail_from tail_block
    tail_from-same zero pos total newlines blocks f whole sized counted = absurd (omega arith)
    tail_from-same (suc fuel) pos total newlines blocks f whole sized counted =
        elim (Bool-cases (eqb pos 0 || ltb n newlines)) [
          | inl stop ↦ rw stop (joined blocks, refl, stopped stop)
          | inr more ↦
              rw (more, reads (pos - size) size (omega arith))
                (read_on more (
                  tail_from-same fuel (pos - size) (total + length block)
                    (newlines + count b'\n' block) (block ∷ blocks)))
        ]
      where
        size : ℕ
        size = min pos buffer_size

        block : Bytes
        block = take size (drop (pos - size) content)

        from_start : pos ≡ 0 → content ≡ joined blocks
        from_start z = whole ∙ ap (λ k. take k content ++ joined blocks) z

        enough :
            n < count b'\n' (joined blocks)
            → last_of n (split_lines content) ≡ last_of n (split_lines (joined blocks))
        enough h =
            ap (λ t. last_of n (split_lines t)) whole
            ∙ end_lines n (take pos content) (joined blocks) h

        stopped :
            (eqb pos 0 || ltb n newlines) ≡ true
            → last_of n (split_lines (joined blocks)) ≡ last_of n (split_lines content)
        stopped stop = elim (Bool-cases (eqb pos 0)) [
          | inl start ↦
              ap (λ t. last_of n (split_lines t)) (sym (from_start ((eqb_iff pos 0).0 start)))
          | inr inside ↦ sym (enough (ground arith))
        ]

        read_on :
            (eqb pos 0 || ltb n newlines) ≡ false
            → (pos - size < fuel
                → content ≡ take (pos - size) content ++ joined (block ∷ blocks)
                → pos - size + (total + length block) ≡ length content
                → newlines + count b'\n' block ≡ count b'\n' (joined (block ∷ blocks))
                → (d : Bytes) × (tail_from read_at n fuel
                      (pos - size)
                      (total + length block)
                      (newlines + count b'\n' block)
                      (block ∷ blocks)
                    ≡ some (tail_bytes d))
                  × (last_of n (split_lines d) ≡ last_of n (split_lines content)))
            → (d : Bytes) × (tail_block
                  (tail_from read_at n fuel)
                  (pos - size)
                  total
                  newlines
                  blocks
                  (some block)
                ≡ some (tail_bytes d))
              × (last_of n (split_lines d) ≡ last_of n (split_lines content))
        read_on more later =
            let measured : length block ≡ size =
              length-block (pos - size) size content (omega arith) in
            let below : ltb max_file_bytes (total + length block) ≡ false = ground arith in
            let back : pos - size + size ≡ pos = omega arith in
            let parts : take pos content ≡ take (pos - size) content ++ block =
              rw back at (take-add (pos - size) size content) in
            let smaller : pos - size < fuel = ground arith in
            rw below (
              later smaller
                (whole ∙ rw parts (append_assoc (take (pos - size) content) block (joined blocks)))
                (omega arith) (omega (arith, count-append block (joined blocks))))

    -- For a file within the cap, and ReadAt that reads the part it is asked for: readTail ends
    -- without an error, and what it returns has the same last `n` lines as the whole file.
    read_tail-same :
        (d : Bytes) × (read_tail read_at n (length content) ≡ some (tail_bytes d))
        × (last_of n (split_lines d) ≡ last_of n (split_lines content))
    unfolding read_tail
    read_tail-same =
        tail_from-same (suc (length content)) (length content) 0 0 [] (omega arith)
          (sym (rw (take_whole content) (append-nil content))) (omega arith) refl

kept-last_of : (n : ℕ) (ls : List Bytes) → kept_lines n ls ≡ last_of n ls
kept-last_of n ls = elim (Bool-cases (ltb n (length ls))) [
  | inl e ↦ rw e
  | inr e ↦ rw e (sym (last_of_few n ls (ground arith)))
]

-- For a file of at most 128 MiB, whose lines are below the cap, `n` above 0, and ReadAt that reads the
-- part it is asked for: reading the file in blocks from its end finishes without an error, and
-- keeps exactly the lines that lastLines keeps when it streams the whole file.
pub read_tail-last_lines :
    (read_at : ℕ → ℕ → Option Bytes) (content : Bytes) (n : ℕ)
    → ReadsFile read_at content
    → length content ≤ max_file_bytes
    → Short (split_lines content)
    → 1 ≤ n
    → (d : Bytes) × (read_tail read_at n (length content) ≡ some (tail_bytes d))
      × (last_lines n false content
          ≡ some (kept_lines n (split_lines d), length (split_lines content)))
read_tail-last_lines read_at content n reads small short p =
    let (d, run, same) = read_tail-same read_at content reads n small in
    (d, run, last_lines-last_of n content p short ∙ rw (kept-last_of n (split_lines d), same))
