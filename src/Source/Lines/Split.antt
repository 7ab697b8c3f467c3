-- ===== src/Source/Lines/Split.antt =====
-- The lines of splitLines (internal/source/source.go), one by one, and the slices of ReadSlice.
use aken.Base.{
  ℕ, zero, suc, ◌≡◌, refl, sym, ap, ◌∙◌, inl, inr, false, List, [], ◌∷◌, ◌++◌, Bytes, eqb, All,
  length, is_empty, arith, Bool-cases, if◌then◌else◌,
}
use aken.Source.Lines.{
  split, drop_empty_last, split_lines, found, full, ended, read_slice, trim_newline,
}

abbrev pub NoNewline : Bytes → Type 0
NoNewline = All (λ b. eqb b b'\n' ≡ false)

split-line : (w rest : Bytes) → NoNewline w → split b'\n' (w ++ b'\n' ∷ rest) ≡ w ∷ split b'\n' rest
unfolding split
split-line [] rest h = refl
split-line (b ∷ w) rest h = rw (h.0, split-line w rest h.1)

split_whole : (w : Bytes) → NoNewline w → split b'\n' w ≡ w ∷ []
unfolding split
split_whole [] h = refl
split_whole (b ∷ w) h = rw (h.0, split_whole w h.1)

pub split_some : (s : Bytes) → (l : Bytes) × (ls : List Bytes) × (split b'\n' s ≡ l ∷ ls)
unfolding split
split_some [] = ([], [], refl)
split_some (b ∷ s) =
    let (l, ls, e) = split_some s in
    elim (Bool-cases (eqb b b'\n')) [
      | inl h ↦ ([], split b'\n' s, rw h)
      | inr h ↦ (b ∷ l, ls, rw (h, e))
    ]

not_empty : (w rest : Bytes) (b : ℕ) → is_empty (w ++ b ∷ rest) ≡ false
not_empty [] rest b = refl
not_empty (x ∷ w) rest b = refl

pub drop_past :
    (l : Bytes) (s : Bytes)
    → drop_empty_last (l ∷ split b'\n' s) ≡ l ∷ drop_empty_last (split b'\n' s)
unfolding drop_empty_last
drop_past l s = let (m, ls, e) = split_some s in rw e

pub split_lines-split : (s : Bytes) → split_lines s ≡ drop_empty_last (split b'\n' s)
unfolding split_lines split drop_empty_last
split_lines-split [] = refl
split_lines-split (b ∷ s) = refl

-- A line and its newline stand before the lines of the rest.
pub split_lines-line :
    (w rest : Bytes) → NoNewline w → split_lines (w ++ b'\n' ∷ rest) ≡ w ∷ split_lines rest
split_lines-line w rest h =
    split_lines-split (w ++ b'\n' ∷ rest)
    ∙ rw (split-line w rest h) (drop_past w rest ∙ ap (λ ls. w ∷ ls) (sym (split_lines-split rest)))

-- What has no newline is one line, if it is not empty.
pub split_lines_last :
    (w : Bytes) → NoNewline w → split_lines w ≡ (if is_empty w then [] else w ∷ [])
unfolding split_lines drop_empty_last
split_lines_last [] h = refl
split_lines_last (b ∷ w) h = rw (split_whole (b ∷ w) h)

pub trim-line : (w : Bytes) → NoNewline w → trim_newline (w ++ b'\n' ∷ []) ≡ w
unfolding trim_newline
trim-line [] h = refl
trim-line (b ∷ []) h = refl
trim-line (b ∷ c ∷ w) h = rw (trim-line (c ∷ w) h.1)

pub trim_whole : (w : Bytes) → NoNewline w → trim_newline w ≡ w
unfolding trim_newline
trim_whole [] h = refl
trim_whole (b ∷ []) h = rw h.0
trim_whole (b ∷ c ∷ w) h = rw (trim_whole (c ∷ w) h.1)

-- What ReadSlice returns of a content.
pub data SliceCase (n : ℕ) (content : Bytes) : Type 0 where
  finds :
      (body rest : Bytes)
      → NoNewline body
      → content ≡ body ++ b'\n' ∷ rest
      → read_slice n content ≡ record { chunk = body ++ b'\n' ∷ []; end = found; rest = rest }
      → SliceCase n content
  fills :
      (chunk rest : Bytes)
      → NoNewline chunk
      → length chunk ≡ n
      → content ≡ chunk ++ rest
      → read_slice n content ≡ record { chunk = chunk; end = full; rest = rest }
      → SliceCase n content
  ends :
      NoNewline content
      → read_slice n content ≡ record { chunk = content; end = ended; rest = [] }
      → SliceCase n content

SliceCase-cons :
    (n b : ℕ) (s : Bytes) → eqb b b'\n' ≡ false → SliceCase n s → SliceCase (suc n) (b ∷ s)
unfolding read_slice
SliceCase-cons n b s h (finds body rest w e r) =
    finds (b ∷ body) rest (h, w) (ap (λ t. b ∷ t) e) (rw (h, r))
SliceCase-cons n b s h (fills chunk rest w l e r) =
    fills (b ∷ chunk) rest (h, w) (ap suc l) (ap (λ t. b ∷ t) e) (rw (h, r))
SliceCase-cons n b s h (ends w r) = ends (h, w) (rw (h, r))

pub slice_cases : (n : ℕ) (s : Bytes) → SliceCase n s
unfolding read_slice
slice_cases zero s = fills [] s tt refl refl refl
slice_cases (suc n) [] = ends tt refl
slice_cases (suc n) (b ∷ s) = elim (Bool-cases (eqb b b'\n')) [
  | inl h ↦
      let same : b ≡ b'\n' = ground arith in finds [] s tt (ap (λ c. c ∷ s) same) (rw (h, same))
  | inr h ↦ SliceCase-cons n b s h (slice_cases n s)
]
