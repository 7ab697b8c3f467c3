-- ===== src/Source/Tail.antt =====
-- readTail and the `Tail` of readFile (internal/source/file.go): the end of a file, in blocks from its
-- end until they hold more newlines than the lines that are wanted.
pub mod Same
use aken.Base.{
  ℕ, zero, suc, ◌+◌, ◌-◌, ◌*◌, Bool, true, false, ◌||◌, Option, none, some, List, [], ◌∷◌, ◌++◌,
  Bytes, eqb, ltb, if◌then◌else◌, length, take, drop, min,
}
use aken.Source.Lines.{split_lines, max_file_bytes, buffer_size}
use aken.Source.Lines.Last.{last_of}

-- bytes.Count of one byte.
abbrev pub count : ℕ → Bytes → ℕ
count sep [] = 0
count sep (b ∷ s) = if eqb b sep then suc (count sep s) else count sep s

pub data TailRead : Type 0 where
  tail_bytes : Bytes → TailRead
  tail_too_long : TailRead
  tail_failed : TailRead

-- The blocks in the order of the file: the last one that was read is the first.
abbrev pub joined : List Bytes → Bytes
joined [] = []
joined (b ∷ bs) = b ++ joined bs

-- A turn of the loop, once the block is read; `next` is the loop's next turn.
unfoldable pub tail_block :
    (ℕ → ℕ → ℕ → List Bytes → Option TailRead)
    → ℕ
    → ℕ
    → ℕ
    → List Bytes
    → Option Bytes
    → Option TailRead
tail_block next pos total newlines blocks none = some tail_failed
tail_block next pos total newlines blocks (some block) =
    if ltb max_file_bytes (total + length block)
    then some tail_too_long
    else next pos (total + length block) (newlines + count b'\n' block) (block ∷ blocks)

-- `read_at pos n` is ReadAt of `n` bytes; none is an error. The sizes are int64, and `total` and
-- `newlines` are ints that the cap bounds.
module _ (read_at : ℕ → ℕ → Option Bytes) (n : ℕ) where
  -- The loop on fuel; none is that the fuel ran out.
  unfoldable pub tail_from : ℕ → ℕ → ℕ → ℕ → List Bytes → Option TailRead
  tail_from zero pos total newlines blocks = none
  tail_from (suc fuel) pos total newlines blocks =
      let size = min pos buffer_size in
      if eqb pos 0 || ltb n newlines
      then some (tail_bytes (joined blocks))
      else tail_block (tail_from fuel) (pos - size) total newlines blocks
          (read_at (pos - size) size)

  -- readTail: each turn but the last moves towards the start.
  unfoldable pub read_tail : ℕ → Option TailRead
  unfolding tail_from tail_block
  read_tail size = tail_from (suc size) size 0 0 []

-- The lines that readFile keeps of those that it read, for a Tail above 0.
abbrev pub kept_lines : ℕ → List Bytes → List Bytes
kept_lines tail lines = if ltb tail (length lines) then drop (length lines - tail) lines else lines
