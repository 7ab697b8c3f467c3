-- ===== src/Source/Lines.antt =====
-- The lines of a file: splitLines, scanLines, lastLines and what ReadLines and TailLines hand to them
-- (internal/source/source.go and internal/source/file.go). A reader is the content that is left and
-- the failure that stands behind it, if its end is not the end of the file.
pub mod Split
pub mod Scanned
pub mod Ends
pub mod Last
use aken.Base.{
  is_empty, ℕ, zero, suc, ◌+◌, ◌-◌, Bool, true, false, ◌&&◌, ◌||◌, not, Option, none, some, List,
  [], ◌∷◌, ◌++◌, Bytes, eqb, ltb, leb, if◌then◌else◌, length,
}

abbrev pub max_file_bytes : ℕ
max_file_bytes = 134217728

-- bytes.Split with a separator of one byte: one part more than there are separators.
abbrev onto_first : ℕ → List Bytes → List Bytes
onto_first b [] = (b ∷ []) ∷ []
onto_first b (l ∷ ls) = (b ∷ l) ∷ ls

unfoldable pub split : ℕ → Bytes → List Bytes
split sep [] = [] ∷ []
split sep (b ∷ s) = let rest = split sep s in if eqb b sep then [] ∷ rest else onto_first b rest

unfoldable pub drop_empty_last : List Bytes → List Bytes
drop_empty_last [] = []
drop_empty_last (l ∷ []) = if is_empty l then [] else l ∷ []
drop_empty_last (l ∷ m ∷ ls) = l ∷ drop_empty_last (m ∷ ls)

-- splitLines
unfoldable pub split_lines : Bytes → List Bytes
unfolding split drop_empty_last
split_lines s = if is_empty s then [] else drop_empty_last (split b'\n' s)

-- How bufio.Reader.ReadSlice ends: at the separator, with a full buffer, or where the content ends.
pub data SliceEnd : Type 0 where
  found full ended : SliceEnd

pub record Slice : Type 0 where
  pub chunk : Bytes
  pub end : SliceEnd
  pub rest : Bytes

abbrev slice_cons : ℕ → Slice → Slice
slice_cons b s = record s { chunk = b ∷ s.chunk }

-- ReadSlice('\n') of a reader with a buffer of `size` bytes.
unfoldable pub read_slice : ℕ → Bytes → Slice
read_slice zero s = record { chunk = []; end = full; rest = s }
read_slice (suc n) [] = record { chunk = []; end = ended; rest = [] }
read_slice (suc n) (b ∷ s) =
    if eqb b b'\n'
    then record { chunk = b ∷ []; end = found; rest = s }
    else slice_cons b (read_slice n s)

-- bytes.TrimSuffix(line, "\n")
unfoldable pub trim_newline : Bytes → Bytes
trim_newline [] = []
trim_newline (b ∷ []) = if eqb b b'\n' then [] else b ∷ []
trim_newline (b ∷ c ∷ s) = b ∷ trim_newline (c ∷ s)

abbrev pub buffer_size : ℕ
buffer_size = 65536

pub data ScanError : Type 0 where
  line_too_long : ScanError
  read_failed : ScanError

-- What a scan returns: the number of the last line that it handed on, or an error.
pub data Scan : Type 0 where
  scanned : ℕ → Scan
  scan_error : ScanError → Scan

-- A callback's answer: what it captured, changed, and whether it wants more.
module _ {S : Type 0} (call : S → ℕ → Bytes → S × Bool) (failed : Bool) where
  -- What follows the callback's answer for a line that is not the last.
  abbrev stopped_or : ℕ → S × Bool → S × Scan → S × Scan
  stopped_or total (s, true) next = next
  stopped_or total (s, false) next = (s, scanned total)

  abbrev at_end : ℕ → S → S × Scan
  at_end total s = (s, (if failed then scan_error read_failed else scanned total))

  -- The last turn: the content has ended, and what was read of a line is one if it is not empty.
  abbrev last_turn : S → Bytes → ℕ → S × Scan
  last_turn s line total =
      if is_empty line
      then at_end total s
      else (let answer = call s (total + 1) (trim_newline line) in
          stopped_or (total + 1) answer (at_end (total + 1) answer.0))

  -- What follows the callback's answer for a line.
  unfoldable pub answered :
      (S → Bytes → ℕ → Bytes → Option (S × Scan)) → ℕ → Bytes → S × Bool → Option (S × Scan)
  answered next total rest (s, true) = next s [] total rest
  answered next total rest (s, false) = some (s, scanned total)

  -- A turn of scanLines on what ReadSlice returned; `next` is the loop's next turn.
  unfoldable pub scan_slice :
      (S → Bytes → ℕ → Bytes → Option (S × Scan)) → Slice → S → Bytes → ℕ → Option (S × Scan)
  scan_slice next slice s line total =
      let whole = line ++ slice.chunk in
      if ltb max_file_bytes (length line + length slice.chunk)
      then some (s, scan_error line_too_long)
      else elim slice.end [
        | full ↦ next s whole total slice.rest
        | found ↦ answered next (total + 1) slice.rest (call s (total + 1) (trim_newline whole))
        | ended ↦ some (last_turn s whole total)
      ]

  -- The loop of scanLines, on fuel; none is that the fuel ran out.
  unfoldable pub scan_from : ℕ → S → Bytes → ℕ → Bytes → Option (S × Scan)
  scan_from zero s line total content = none
  scan_from (suc fuel) s line total content =
      scan_slice (scan_from fuel) (read_slice buffer_size content) s line total

  -- scanLines: each turn but the last takes a byte.
  unfoldable pub scan_lines : S → Bytes → Option (S × Scan)
  unfolding scan_from
  scan_lines s content = scan_from (suc (length content)) s [] 0 content

-- The callback of lastLines, which holds at most `n` lines.
abbrev pub drop_first : List Bytes → List Bytes
drop_first [] = []
drop_first (l ∷ ls) = ls

abbrev pub hold_last : ℕ → List Bytes → ℕ → Bytes → List Bytes × Bool
hold_last n held number line =
    ((if eqb (length held) n then drop_first held else held) ++ line ∷ [], true)

-- lastLines and the callback of ReadLines, with the lines and the total where there is no error.
abbrev pub lines_and_total : Option (List Bytes × Scan) → Option (List Bytes × ℕ)
lines_and_total none = none
lines_and_total (some (ls, scanned total)) = some (ls, total)
lines_and_total (some (ls, scan_error e)) = none

unfoldable pub last_lines : ℕ → Bool → Bytes → Option (List Bytes × ℕ)
unfolding scan_lines
last_lines n failed content = lines_and_total (scan_lines (hold_last n) failed [] content)

abbrev pub hold_between : ℕ → ℕ → List Bytes → ℕ → Bytes → List Bytes × Bool
hold_between from to held number line =
    ((if leb from number && leb number to then held ++ line ∷ [] else held), true)

-- ReadLines on an open file's text; none is an error.
unfoldable pub read_lines : ℕ → ℕ → Bool → Bytes → Option (List Bytes × ℕ)
unfolding scan_lines
read_lines from to failed content =
    if ltb from 1 || ltb to from
    then none
    else lines_and_total (scan_lines (hold_between from to) failed [] content)

-- TailLines on an open file's text.
unfoldable pub tail_lines : ℕ → Bool → Bytes → Option (List Bytes × ℕ)
unfolding last_lines
tail_lines n failed content = if ltb n 1 then none else last_lines n failed content
