-- ===== src/Source/Lines/Scanned.antt =====
-- The lines that scanLines hands to its callback, and those of splitLines (internal/source).
use aken.Base.{
  ℕ, zero, suc, ◌+◌, ◌<◌, ◌≤◌, ◌≡◌, refl, sym, ap, ◌∙◌, inl, inr, Bool, true, false, Option, some,
  List, [], ◌∷◌, ◌++◌, Bytes, eqb, ltb, All, All-append, length, length-append, arith, Bool-cases,
}
use aken.Source.Lines.{
  split_lines, found, full, ended, buffer_size, trim_newline, Scan, scanned, scan_from, scan_slice,
  answered, scan_lines, max_file_bytes, stopped_or, at_end, last_turn,
}
use aken.Source.Lines.Split.{
  NoNewline, split_lines-line, split_lines_last, trim-line, trim_whole, finds, fills, ends,
  slice_cases,
}
use mathlib.Core.List.{append_assoc}

-- Every line, its newline counted, is within the cap.
abbrev pub Short : List Bytes → Type 0
Short = All (λ l. length l < max_file_bytes)

-- What was read of a line is within the cap.
pub whole-Short : (x : Bytes) → NoNewline x → Short (split_lines x) → length x ≤ max_file_bytes
whole-Short [] nx h = omega arith
whole-Short (b ∷ x) nx h = let one = rw (split_lines_last (b ∷ x) nx) at h in omega (arith, one.0)

head-Short : (w r : Bytes) → NoNewline w → Short (split_lines (w ++ r)) → length w ≤ max_file_bytes
head-Short w r nw h = elim (slice_cases (suc (length r)) r) [
  | finds body rest nb e _ ↦
      let cut =
        rw
          (
            e,
            sym (append_assoc w body (b'\n' ∷ rest)),
            split_lines-line (w ++ body) rest (All-append _ w body nw nb),
          )
          at h in
      omega (arith, length-append w body, cut.0)
  | fills chunk rest nb l e _ ↦ absurd (omega (arith, ap length e, length-append chunk rest))
  | ends nb _ ↦ omega (arith, whole-Short (w ++ r) (All-append _ w r nw nb) h, length-append w r)
]

Short-rest :
    (line body rest : Bytes)
    → NoNewline line
    → NoNewline body
    → Short (split_lines (line ++ (body ++ b'\n' ∷ rest)))
    → Short (split_lines rest)
Short-rest line body rest w nb h =
    let short : Short ((line ++ body) ∷ split_lines rest) =
      rw
        (
          sym (append_assoc line body (b'\n' ∷ rest)),
          split_lines-line (line ++ body) rest (All-append _ line body w nb),
        )
        at h in
    short.1

module _ {S : Type 0} (call : S → ℕ → Bytes → S × Bool) (failed : Bool) where
  -- The callback on one line after another, until it wants no more.
  unfoldable pub feed : S → ℕ → List Bytes → S × Scan
  feed s n [] = at_end call failed n s
  feed s n (l ∷ ls) = elim (call s (n + 1) l).1 [
    | true ↦ feed (call s (n + 1) l).0 (n + 1) ls
    | false ↦ ((call s (n + 1) l).0, scanned (n + 1))
  ]

  feed_last :
      (s : S) (n : ℕ) (w : Bytes)
      → NoNewline w
      → last_turn call failed s w n ≡ feed s n (split_lines w)
  unfolding feed
  feed_last s n [] h = rw (split_lines_last [] h)
  feed_last s n (b ∷ w) h =
      rw (split_lines_last (b ∷ w) h, trim_whole (b ∷ w) h) (stops (call s (n + 1) (b ∷ w)))
    where
      stops :
          (a : S × Bool)
          → stopped_or call failed (n + 1) a (at_end call failed (n + 1) a.0)
            ≡ elim a.1 [ true ↦ at_end call failed (n + 1) a.0 | false ↦ (a.0, scanned (n + 1)) ]
      stops (s', true) = refl
      stops (s', false) = refl

  module _ (next : S → Bytes → ℕ → Bytes → Option (S × Scan)) (s : S) (line : Bytes) (n : ℕ) where
    slice_found :
        (body rest : Bytes)
        → NoNewline line
        → NoNewline body
        → Short (split_lines (line ++ (body ++ b'\n' ∷ rest)))
        → ((s' : S) → next s' [] (n + 1) rest ≡ some (feed s' (n + 1) (split_lines rest)))
        → scan_slice call failed next
            (record { chunk = body ++ b'\n' ∷ []; end = found; rest = rest })
            s
            line
            n
          ≡ some (feed s n (split_lines (line ++ (body ++ b'\n' ∷ rest))))
    unfolding scan_slice feed answered
    slice_found body rest w nb h ih =
        let both = All-append (λ b. eqb b b'\n' ≡ false) line body w nb in
        let lines : split_lines (line ++ (body ++ b'\n' ∷ rest))
            ≡ (line ++ body) ∷ split_lines rest =
          rw (sym (append_assoc line body (b'\n' ∷ rest)))
            (split_lines-line (line ++ body) rest both) in
        let short : Short ((line ++ body) ∷ split_lines rest) = rw lines at h in
        let room : ltb max_file_bytes (length line + length (body ++ b'\n' ∷ [])) ≡ false =
          ground (arith, length-append line body, length-append body (b'\n' ∷ []), short.0) in
        let trimmed : trim_newline (line ++ (body ++ b'\n' ∷ [])) ≡ line ++ body =
          rw (sym (append_assoc line body (b'\n' ∷ []))) (trim-line (line ++ body) both) in
        rw (lines, room, trimmed) (go (call s (n + 1) (line ++ body)))
      where
        go :
            (a : S × Bool)
            → answered call failed next (n + 1) rest a
              ≡ some (elim a.1 as (λ x. S × Scan) [
                | true ↦ feed a.0 (n + 1) (split_lines rest)
                | false ↦ (a.0, scanned (n + 1))
              ])
        go (s', true) = ih s'
        go (s', false) = refl

    slice_full :
        (chunk rest : Bytes)
        → NoNewline line
        → NoNewline chunk
        → Short (split_lines (line ++ (chunk ++ rest)))
        → next s (line ++ chunk) n rest ≡ some (feed s n (split_lines (line ++ (chunk ++ rest))))
        → scan_slice call failed next (record { chunk = chunk; end = full; rest = rest }) s line n
          ≡ some (feed s n (split_lines (line ++ (chunk ++ rest))))
    unfolding scan_slice
    slice_full chunk rest w nb h ih =
        let both = All-append (λ b. eqb b b'\n' ≡ false) line chunk w nb in
        let few = head-Short (line ++ chunk) rest both (rw (append_assoc line chunk rest) h) in
        let room : ltb max_file_bytes (length line + length chunk) ≡ false =
          ground (arith, length-append line chunk) in
        rw room ih

    slice_ended :
        (chunk : Bytes)
        → NoNewline line
        → NoNewline chunk
        → Short (split_lines (line ++ chunk))
        → scan_slice call failed next (record { chunk = chunk; end = ended; rest = [] }) s line n
          ≡ some (feed s n (split_lines (line ++ chunk)))
    unfolding scan_slice
    slice_ended chunk w nb h =
        let both = All-append (λ b. eqb b b'\n' ≡ false) line chunk w nb in
        let few = whole-Short (line ++ chunk) both h in
        let room : ltb max_file_bytes (length line + length chunk) ≡ false =
          ground (arith, length-append line chunk) in
        rw room (ap some (feed_last s n (line ++ chunk) both))

  scan_from-feed :
      (fuel : ℕ) (s : S) (line : Bytes) (n : ℕ) (content : Bytes)
      → length content < fuel
      → NoNewline line
      → Short (split_lines (line ++ content))
      → scan_from call failed fuel s line n content
        ≡ some (feed s n (split_lines (line ++ content)))
  unfolding scan_from
  scan_from-feed zero s line n content f w h = absurd (omega arith)
  scan_from-feed (suc fuel) s line n content f w h = elim (slice_cases buffer_size content) [
    | finds body rest nb e r ↦
        let more : Short (split_lines (line ++ (body ++ b'\n' ∷ rest))) = rw e at h in
        let few : length rest < fuel =
          omega (arith, ap length e, length-append body (b'\n' ∷ rest)) in
        rw (r, e)
          (slice_found (scan_from call failed fuel) s line n body rest w nb more (λ s'.
            scan_from-feed fuel s' [] (n + 1) rest few tt (Short-rest line body rest w nb more)))
    | fills chunk rest nb l e r ↦
        let more : Short (split_lines (line ++ (chunk ++ rest))) = rw e at h in
        let few : length rest < fuel = omega (arith, ap length e, length-append chunk rest) in
        rw (r, e)
          (slice_full (scan_from call failed fuel) s line n chunk rest w nb more (
            rw (← append_assoc line chunk rest) (
              scan_from-feed fuel s (line ++ chunk) n rest few (All-append _ line chunk w nb)
                (rw (append_assoc line chunk rest) more))))
    | ends nb r ↦ rw r (slice_ended (scan_from call failed fuel) s line n content w nb h)
  ]

  -- Where every line is below the cap, scanLines calls its callback on the lines of splitLines in
  -- order, numbered from 1, until one call wants no more, and its fuel is enough.
  pub scan_lines-feed :
      (s : S) (content : Bytes)
      → Short (split_lines content)
      → scan_lines call failed s content ≡ some (feed s 0 (split_lines content))
  unfolding scan_lines
  scan_lines-feed s content h =
      scan_from-feed (suc (length content)) s [] 0 content (omega arith) tt h

module _ {S : Type 0} (call : S → ℕ → Bytes → S × Bool) where
  -- A reading that does not fail ends with a state that has what every call keeps.
  abbrev pub Feeds {κ} : (S → Type κ) → S → ℕ → List Bytes → Type κ
  Feeds P s k ls = (t : S) × (n : ℕ) × (feed call false s k ls ≡ (t, scanned n)) × P t

  pub feed_on :
      (s : S) (k : ℕ) (l : Bytes) (ls : List Bytes)
      → (call s (k + 1) l).1 ≡ true
      → feed call false s k (l ∷ ls) ≡ feed call false (call s (k + 1) l).0 (k + 1) ls
  unfolding feed
  feed_on s k l ls h = rw (h, feed)

  pub feed_next :
      (s t : S) (k : ℕ) (l : Bytes) (ls : List Bytes)
      → call s (k + 1) l ≡ (t, true)
      → feed call false s k (l ∷ ls) ≡ feed call false t (k + 1) ls
  feed_next s t k l ls h =
      feed_on s k l ls (ap (λ r. r.1) h) ∙ ap (λ r. feed call false r.0 (k + 1) ls) h

  feed_stop :
      (s : S) (k : ℕ) (l : Bytes) (ls : List Bytes)
      → (call s (k + 1) l).1 ≡ false
      → feed call false s k (l ∷ ls) ≡ ((call s (k + 1) l).0, scanned (k + 1))
  unfolding feed
  feed_stop s k l ls h = rw (h, feed)

  module _ {κ} (P : S → Type κ) (keep : (s : S) (n : ℕ) (l : Bytes) → P s → P (call s n l).0) where
    pub feed-keeps : (s : S) (k : ℕ) (ls : List Bytes) → P s → Feeds P s k ls
    unfolding feed
    feed-keeps s k [] h = (s, k, refl, h)
    feed-keeps s k (l ∷ ls) h =
        let ih = feed-keeps (call s (k + 1) l).0 (k + 1) ls (keep s (k + 1) l h) in
        elim (Bool-cases (call s (k + 1) l).1) [
          | inl go ↦ (ih.0, ih.1, feed_on s k l ls go ∙ ih.2, ih.3)
          | inr stop ↦ ((call s (k + 1) l).0, k + 1, feed_stop s k l ls stop, keep s (k + 1) l h)
        ]

    pub feed-keeps_from :
        (s : S) (k : ℕ) (l : Bytes) (ls : List Bytes)
        → P (call s (k + 1) l).0
        → Feeds P s k (l ∷ ls)
    feed-keeps_from s k l ls h =
        let ih = feed-keeps (call s (k + 1) l).0 (k + 1) ls h in
        elim (Bool-cases (call s (k + 1) l).1) [
          | inl go ↦ (ih.0, ih.1, feed_on s k l ls go ∙ ih.2, ih.3)
          | inr stop ↦ ((call s (k + 1) l).0, k + 1, feed_stop s k l ls stop, h)
        ]
