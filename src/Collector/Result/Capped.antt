-- ===== src/Collector/Result/Capped.antt =====
-- What `capResult` of internal/serve/run.go leaves of a result.
use aken.Base.{ℕ, ◌+◌, ◌-◌, ◌≤◌, ◌<◌, ◌≡◌, ◌⊎◌, List, [], ◌∷◌, Bytes, length, take}
use aken.Protocol.Caps.{max_result_bytes}
use aken.Collector.State.{PreparedJob, JobResult}
use aken.Collector.Result.{max_result_plaintext, cut_cursor}

-- The bytes of the lines with their line ends.
abbrev pub text_size : List Bytes → ℕ
text_size [] = 0
text_size (line ∷ lines) = length line + 1 + text_size lines

-- A result cut to its first lines: it goes on at the first line left out.
pub record CutAt (p : PreparedJob) (r r2 : JobResult) : Type 0 where
  pub kept : ℕ
  pub within : kept ≤ length r.lines
  pub first_lines : r2.lines ≡ take kept r.lines
  pub whole : kept ≡ length r.lines → r2 ≡ r
  pub resumes : kept < length r.lines → r2.next ≡ cut_cursor p r.lines kept

module _ (marshal : JobResult → Bytes) where
  -- A result as `cap_result` leaves it: one that is cut, if it must be, to a number of its first
  -- lines, with a text and a JSON form that fit.
  pub record Capped (p : PreparedJob) (r r2 : JobResult) : Type 0 where
    pub cut_at : CutAt p r r2
    pub text_fits : text_size r2.lines ≤ max_result_plaintext
    pub json_fits : (r2.lines ≡ []) ⊎ (length (marshal r2) ≤ max_result_bytes - 16)
