-- ===== src/Collector/Result.antt =====
-- `capResult` and `cutCursor` of internal/serve/run.go: a result is cut to what one envelope holds,
-- and says where the client has to go on.
pub mod Capped
use aken.Base.Signed.{ℤ, pos, negsuc, magnitude}
use aken.Base.{
  ℕ, zero, suc, ◌+◌, ◌-◌, ◌/◌, ◌%◌, Bool, true, false, ◌||◌, Option, none, some, List, [], ◌∷◌,
  ◌++◌, String, Bytes, string_eq, ◌==◌, eqb, ltb, leb, if◌then◌else◌, from_some, length, take, drop,
  get_elem?,
}
use aken.Encoding.Cut.{before, behind}
use aken.Encoding.Decimal.{atoi, itoa}
use aken.Protocol.Api.{has_prefix}
use aken.Protocol.Caps.{max_result_bytes}
use aken.Collector.State.{PreparedJob, JobResult}

abbrev pub max_result_plaintext : ℕ
max_result_plaintext = 262144

-- parts[3] of strings.SplitN(line, " ", 4), if it is there.
abbrev pub fourth_part : Bytes → Option Bytes
fourth_part line = elim (behind b' ' line) [
  | none ↦ none
  | some two ↦ elim (behind b' ' two) [ none ↦ none | some three ↦ behind b' ' three ]
]

-- The loop over the paths of a search: the index of the path that the line names, and its number.
unfoldable pub search_cursor : ℕ → List Bytes → Bytes → Option Bytes
search_cursor index [] line = none
search_cursor index (path ∷ paths) line =
    let rest = search_cursor (suc index) paths line in
    let prefix = path ++ b':' ∷ [] in
    if has_prefix line prefix
    then some (itoa index ++ b':' ∷ before b'-' (before b':' (drop (length prefix) line)))
    else rest

-- The number of a cursor that `prepare` has accepted; Atoi gives 0 for no number.
abbrev pub cursor_start : Bytes → ℕ
cursor_start cursor = elim (atoi cursor) [ none ↦ 0 | some z ↦ magnitude z ]

-- Where to go on if the line at an index is the first one left out.
unfoldable pub cut_cursor : PreparedJob → List Bytes → ℕ → Bytes
cut_cursor p lines i =
    let line = from_some [] (get_elem? lines i) in
    let name = p.job.name in
    if name == "read_file" || name == "tail"
    then before b':' line
    else if name == "list_dir"
    then from_some (itoa i) (fourth_part line)
    else if name == "search"
    then from_some (itoa i) (search_cursor 0 p.paths line)
    else if name == "journal" || name == "docker_logs"
    then itoa (cursor_start p.cursor + i)
    else itoa i

-- r.Next = cutCursor(p, r.Lines, i); r.Lines = r.Lines[:i]
abbrev pub cut : PreparedJob → JobResult → ℕ → JobResult
cut p r i = record r { next = cut_cursor p r.lines i; lines = take i r.lines }

-- The index of the line with which the text outgrows the limit, if one does.
unfoldable pub overflow : ℕ → ℕ → List Bytes → Option ℕ
overflow size i [] = none
overflow size i (line ∷ lines) =
    let rest = overflow (size + (length line + 1)) (suc i) lines in
    if ltb max_result_plaintext (size + (length line + 1)) then some i else rest

abbrev pub cap_text : PreparedJob → JobResult → Option ℕ → JobResult
cap_text p r none = r
cap_text p r (some i) = cut p r i

module _ (marshal : JobResult → Bytes) where
  -- The second loop. It takes one line off in each turn, so their number is enough fuel.
  unfoldable pub cap_json : ℕ → PreparedJob → JobResult → JobResult
  cap_json zero p r = r
  cap_json (suc n) p r =
      let shorter = cap_json n p (cut p r n) in
      if leb (length (marshal r)) (max_result_bytes - 16) then r else shorter

  unfoldable pub cap_result : JobResult → PreparedJob → JobResult
  cap_result r p = let r2 = cap_text p r (overflow 0 0 r.lines) in cap_json (length r2.lines) p r2
