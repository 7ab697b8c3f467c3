-- ===== src/Source/Lines/Ends.antt =====
-- The loop of scanLines (internal/source/file.go) and its fuel.
use aken.Base.{
  ℕ, zero, suc, ◌+◌, ◌<◌, ◌≡◌, refl, ap, inl, inr, Bool, true, false, Option, some, [], ◌∷◌, ◌++◌,
  Bytes, ltb, length, length-append, arith, Bool-cases, is_some,
}
use aken.Source.Lines.{
  SliceEnd, found, full, ended, Slice, buffer_size, trim_newline, Scan, scan_from, scan_slice,
  answered, scan_lines, max_file_bytes, last_turn,
}
use aken.Source.Lines.Split.{finds, fills, ends, slice_cases}

module _ {S : Type 0} (call : S → ℕ → Bytes → S × Bool) (failed : Bool) where
  slice_ends :
      (next : S → Bytes → ℕ → Bytes → Option (S × Scan)) (slice : Slice) (s : S) (line : Bytes)
      (n : ℕ)
      → ((s : S) (line : Bytes) (n : ℕ) → is_some (next s line n slice.rest) ≡ true)
      → is_some (scan_slice call failed next slice s line n) ≡ true
  unfolding scan_slice answered
  slice_ends next slice s line n ih =
      elim (Bool-cases (ltb max_file_bytes (length line + length slice.chunk))) [
        | inl e ↦ rw e
        | inr e ↦ rw e (go slice.end)
      ]
    where
      whole : Bytes
      whole = line ++ slice.chunk

      stop : (a : S × Bool) → is_some (answered call failed next (n + 1) slice.rest a) ≡ true
      stop (s', true) = ih s' [] (n + 1)
      stop (s', false) = refl

      go :
          (end : SliceEnd)
          → is_some (elim end as (λ x. Option (S × Scan)) [
            | full ↦ next s whole n slice.rest
            | found ↦
                answered call failed next (n + 1) slice.rest (call s (n + 1) (trim_newline whole))
            | ended ↦ some (last_turn call failed s whole n)
          ])
            ≡ true
      go full = ih s whole n
      go found = stop (call s (n + 1) (trim_newline whole))
      go ended = refl

  ended_stops :
      (next : S → Bytes → ℕ → Bytes → Option (S × Scan)) (content : Bytes) (s : S) (line : Bytes)
      (n : ℕ)
      → is_some (
          scan_slice call failed next (record { chunk = content; end = ended; rest = [] }) s line n)
        ≡ true
  unfolding scan_slice
  ended_stops next content s line n =
      elim (Bool-cases (ltb max_file_bytes (length line + length content))) [
        | inl e ↦ rw e
        | inr e ↦ rw e
      ]

  scan_from_ends :
      (fuel : ℕ) (s : S) (line : Bytes) (n : ℕ) (content : Bytes)
      → length content < fuel
      → is_some (scan_from call failed fuel s line n content) ≡ true
  unfolding scan_from
  scan_from_ends zero s line n content f = absurd (omega arith)
  scan_from_ends (suc fuel) s line n content f = elim (slice_cases buffer_size content) [
    | finds body rest nb e r ↦
        let few : length rest < fuel =
          omega (arith, ap length e, length-append body (b'\n' ∷ rest)) in
        rw r (
          slice_ends (scan_from call failed fuel) _ s line n
            (λ s' l' n'. scan_from_ends fuel s' l' n' rest few))
    | fills chunk rest nb l e r ↦
        let few : length rest < fuel = omega (arith, ap length e, length-append chunk rest) in
        rw r (
          slice_ends (scan_from call failed fuel) _ s line n
            (λ s' l' n'. scan_from_ends fuel s' l' n' rest few))
    | ends nb r ↦ rw r (ended_stops (scan_from call failed fuel) content s line n)
  ]

  -- scanLines ends on every content, whatever its callback answers.
  pub scan_lines_ends :
      (s : S) (content : Bytes) → is_some (scan_lines call failed s content) ≡ true
  unfolding scan_lines
  scan_lines_ends s content = scan_from_ends (suc (length content)) s [] 0 content (omega arith)
