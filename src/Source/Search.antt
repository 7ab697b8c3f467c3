-- ===== src/Source/Search.antt =====
-- Files.Search (internal/source/file.go): the lines that match, with context, over several files, and
-- the cursor behind the last one that fits.
pub mod Hits
pub mod Within
pub mod Pages
pub mod Resume
use aken.Base.{
  ℕ, suc, ◌+◌, ◌-◌, Bool, true, false, ◌&&◌, ◌||◌, not, Option, none, some, List, [], ◌∷◌, ◌++◌,
  Bytes, eqb, ltb, leb, if◌then◌else◌, is_some, is_empty, length, drop, map,
}
use aken.Base.Signed.{ℤ, pos, negsuc, is_negative, magnitude, above}
use aken.Encoding.Cut.{before, behind}
use aken.Encoding.Decimal.{atoi}
use aken.Source.Lines.{Scan, scanned, scan_error, ScanError, scan_lines, drop_first}

-- Max, Before and After are ints of the request; a cursor is "<file>:<line>", or empty.
pub record SearchQuery : Type 0 where
  pub paths : List Bytes
  pub before : ℤ
  pub after : ℤ
  pub max_matches : ℤ
  pub cursor : Bytes

-- A line of the result: its text is "<path>:<number>: <line>" where it matches, and
-- "<path>:<number>- <line>" where it is context.
pub record Shown : Type 0 where
  pub path : Bytes
  pub number : ℕ
  pub matched : Bool
  pub line : Bytes

-- The variables of Search and of the callback that it hands to scan.
pub record Searching : Type 0 where
  pub lines : List Shown
  -- out.Next, a file and a line, or none for ""
  pub next : Option (ℕ × ℕ)
  pub matches : ℕ
  pub held : List (ℕ × Bytes)
  pub owed : ℕ
  pub done : Bool

pub data SearchError : Type 0 where
  bad_limits : SearchError
  bad_cursor : SearchError
  not_opened : SearchError
  not_scanned : ScanError → SearchError

pub data SearchAnswer : Type 0 where
  results : Searching → SearchAnswer
  search_failed : SearchError → SearchAnswer

abbrev drop_first_held : List (ℕ × Bytes) → List (ℕ × Bytes)
drop_first_held [] = []
drop_first_held (h ∷ hs) = hs

-- The window of lines before a match that are not shown yet.
abbrev pub hold : ℕ → List (ℕ × Bytes) → ℕ → Bytes → List (ℕ × Bytes)
hold limit held n line =
    if ltb 0 limit
    then (if eqb (length held) limit then drop_first_held held else held) ++ (n, line) ∷ []
    else held

module _ (re : Bytes → Bool) (limit before_lines after_lines : ℕ) where
  abbrev pub shown : Bytes → ℕ → Bytes → Shown
  shown path n line = record { path = path; number = n; matched = re line; line = line }

  abbrev pub shown_held : Bytes → List (ℕ × Bytes) → List Shown
  shown_held path [] = []
  shown_held path ((n, line) ∷ held) = shown path n line ∷ shown_held path held

  abbrev emit : Bytes → ℕ → Bytes → Searching → Searching
  emit path n line s = record s { lines = s.lines ++ shown path n line ∷ [] }

  unfoldable pub next_after : Bool → ℕ → ℕ → Searching → Option (ℕ × ℕ)
  next_after hit i n s =
      if hit && eqb s.matches limit && not (is_some s.next) then some (i, n) else s.next

  -- The callback's part once out.Next is set: context that is still owed, and then the end.
  unfoldable pub past_last : Bytes → ℕ → Bytes → Searching → Searching × Bool
  past_last path n line s =
      if eqb s.owed 0
      then (record s { done = true }, false)
      else (record (emit path n line s) { owed = s.owed - 1 }, true)

  -- Its part while matches still fit.
  unfoldable pub within_limit : Bool → Bytes → ℕ → Bytes → Searching → Searching
  within_limit hit path n line s =
      if hit
      then record s {
        matches = s.matches + 1;
        lines = s.lines ++ (shown_held path s.held ++ shown path n line ∷ []);
        held = [];
        owed = after_lines;
      }
      else if ltb 0 s.owed
      then record (emit path n line s) { owed = s.owed - 1 }
      else record s { held = hold before_lines s.held n line }

  -- The callback for a line.
  unfoldable pub search_line : ℕ → ℕ → Bytes → Searching → ℕ → Bytes → Searching × Bool
  search_line i first path s n line =
      let hit = leb first n && re line in
      let next = next_after hit i n s in
      if is_some next
      then past_last path n line (record s { next = next })
      else (within_limit hit path n line s, true)

  abbrev fresh_file : Searching → Searching
  fresh_file s = record s { held = []; owed = 0; done = false }

  -- What follows the scan of a file; `more` is the turn of the next one.
  unfoldable pub after_file :
      (Searching → Option SearchAnswer) → Option (Searching × Scan) → Option SearchAnswer
  after_file more none = none
  after_file more (some (s, scan_error e)) = some (search_failed (not_scanned e))
  after_file more (some (s, scanned total)) =
      if s.done || is_some s.next then some (results s) else more s

  -- The text of an opened file with whether reading it fails behind that text; none if the file
  -- cannot be opened.
  module _ (open_text : Bytes → Option (Bool × Bytes)) where
    abbrev pub scan_opened :
        ℕ
        → ℕ
        → Bytes
        → Searching
        → (Searching → Option SearchAnswer)
        → Option (Bool × Bytes)
        → Option SearchAnswer
    scan_opened i first path s more none = some (search_failed not_opened)
    scan_opened i first path s more (some (failed, text)) =
        after_file more (scan_lines (search_line i first path) failed (fresh_file s) text)

    -- The loop over the files from index `i`; none is that a scan's fuel ran out.
    unfoldable pub search_files : ℕ → ℕ → List Bytes → Searching → Option SearchAnswer
    search_files i first [] s = some (results s)
    search_files i first (path ∷ paths) s =
        scan_opened i first path s (search_files (i + 1) 1 paths) (open_text path)

-- q.Cursor, a file and a line, or none if it is not valid.
abbrev cursor_parts : ℕ → Option ℤ → Option ℤ → Option (ℕ × ℕ)
cursor_parts files (some (pos i)) (some (pos n)) =
    if leb files i || ltb n 1 then none else some (i, n)
cursor_parts files _ _ = none

abbrev line_part : Option Bytes → Option ℤ
line_part none = none
line_part (some b) = atoi b

unfoldable pub search_cursor : ℕ → Bytes → Option (ℕ × ℕ)
search_cursor files cursor =
    if is_empty cursor
    then some (0, 1)
    else cursor_parts files (atoi (before b':' cursor)) (line_part (behind b':' cursor))

abbrev pub nothing_found : Searching
nothing_found = record { lines = []; next = none; matches = 0; held = []; owed = 0; done = false }

abbrev pub bad_context : ℤ → Bool
bad_context n = is_negative n || above n 50

abbrev pub bad_max : ℤ → Bool
bad_max n = is_negative n || above n 200 || eqb (magnitude n) 0

abbrev pub bad_limits_of : SearchQuery → Bool
bad_limits_of q =
    bad_context q.before || bad_context q.after || bad_max q.max_matches || ltb 200 (length q.paths)

module _ (re : Bytes → Bool) (open_text : Bytes → Option (Bool × Bytes)) where
  abbrev pub search_from : SearchQuery → Option (ℕ × ℕ) → Option SearchAnswer
  search_from q none = some (search_failed bad_cursor)
  search_from q (some (i, first)) =
      search_files re (magnitude q.max_matches) (magnitude q.before) (magnitude q.after) open_text i
        first (drop i q.paths) nothing_found

  -- Search with a compiled pattern; none is that a scan's fuel ran out.
  unfoldable pub search_text : SearchQuery → Option SearchAnswer
  unfolding search_cursor search_files
  search_text q =
      if bad_limits_of q
      then some (search_failed bad_limits)
      else search_from q (search_cursor (length q.paths) q.cursor)
