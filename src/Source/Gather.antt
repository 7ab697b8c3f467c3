-- ===== src/Source/Gather.antt =====
-- `readFile`, `glob` and ReadFiles (internal/source/file.go and source.go): the files that a one-shot
-- collector reads whole, or of which it keeps the last lines. The file system and decompression are
-- parameters; the file system stays as it is while the files are read.
pub mod Canonical
pub mod Complete
pub mod Ends
use aken.Base.{
  ℕ, Bool, true, false, ◌&&◌, ◌||◌, not, Option, none, some, List, [], ◌∷◌, ◌++◌, Bytes, ◌==◌,
  bytes_eq, ltb, if◌then◌else◌, length, contains, take,
}
use aken.Encoding.Alphabet.{codes}
use aken.Source.Lines.{
  Scan, scanned, scan_error, line_too_long, read_failed, max_file_bytes, scan_lines, hold_last,
  split_lines,
}
use aken.Source.Tail.{TailRead, tail_bytes, tail_too_long, tail_failed, read_tail, kept_lines}
use aken.Source.Scope.{
  Files, OsError, not_exist, no_permission, other_error, not_clean, outside_allowed, Outcome,
  success, failure, open_file,
}
use aken.Source.Opened.{
  ReadError, os_error, not_regular, plain_error, Result, got, lost, Info, Reader, Handle,
  FileSystem, FileError, as_it_is, refusing, cannot_read, is_link, is_path_error, is_not_regular,
  file_error, is_missing, skip, of_outcome,
}

-- A Source of kind file: the note tells the number of the last lines that were kept.
pub record FileSource : Type 0 where
  pub target : Bytes
  pub lines : List Bytes
  pub note : Option ℕ

abbrev pub streamed : Handle → Option (List Bytes × Scan) → Option (Result (List Bytes))
streamed h none = none
streamed h (some (ls, scanned total)) = some (got ls)
streamed h (some (ls, scan_error line_too_long)) = some (lost (plain_error (codes "line too long")))
streamed h (some (ls, scan_error read_failed)) = some (lost h.read_error)

abbrev pub from_end : Handle → Option TailRead → Option (Result (List Bytes))
from_end h none = none
from_end h (some (tail_bytes data_read)) = some (got (split_lines data_read))
from_end h (some tail_too_long) = some (lost (plain_error (codes "file tail exceeds the cap")))
from_end h (some tail_failed) = some (lost h.read_error)

-- ReadAll behind a LimitReader of one byte more than the cap.
abbrev pub whole : Handle → Reader → Result (List Bytes)
whole h r =
    if ltb max_file_bytes (length r.content)
    then lost (plain_error (codes "file exceeds the cap"))
    else if r.breaks
    then lost h.read_error
    else got (split_lines r.content)

-- The map `seen` of canonical paths; none is the nil map.
abbrev pub Seen : Type 0
Seen = Option (List Bytes)

abbrev pub is_seen : Bytes → Seen → Bool
is_seen c none = false
is_seen c (some cs) = contains cs c

abbrev pub see : Bytes → Seen → Seen
see c none = none
see c (some cs) = some (cs ++ c ∷ [])

-- A turn of a loop over paths: what was read, or the error that ends it, and the paths that have
-- been read; and what was skipped, which Stderr is told of.
pub data Turn : Type 0 where
  kept : Option FileSource → Turn
  skipped : Bytes → ReadError → Turn
  stops : FileError → Turn

-- What ReadFiles returns: the sources, with the paths that have been read, or an error.
pub data Ended : Type 0 where
  read_all : List FileSource → Seen → Ended
  ended_by : FileError → Ended

-- Files with its Tail, which is 0 or more, and ModifiedAfter. Where a file's read ends, none would be
-- that the fuel of its loop ran out.
module _ (fs : FileSystem) (files : Files) (tail modified_after : ℕ) where
  -- The switch of readFile.
  unfoldable pub content_lines : Handle → Info → Reader → Option (Result (List Bytes))
  content_lines h info r =
      if r.compressed && ltb 0 tail
      then streamed h (scan_lines (hold_last tail) r.breaks [] r.content)
      else if ltb 0 tail
      then from_end h (read_tail h.read_at tail info.size)
      else some (whole h r)

  abbrev pub source_of : Bytes → List Bytes → FileSource
  source_of path lines =
      if ltb 0 tail
      then record { target = path; lines = kept_lines tail lines; note = some tail }
      else record { target = path; lines = lines; note = none }

  abbrev pub finished :
      Bytes
      → Bytes
      → Seen
      → Option (Result (List Bytes))
      → Option (Result (Option FileSource) × Seen)
  finished path c seen none = none
  finished path c seen (some (lost e)) = some (lost e, seen)
  finished path c seen (some (got lines)) = some (got (some (source_of path lines)), see c seen)

  abbrev pub read_content :
      Bytes
      → Seen
      → Handle
      → Info
      → Bytes
      → Result Reader
      → Option (Result (Option FileSource) × Seen)
  read_content path seen h info c (lost e) = some (lost e, seen)
  read_content path seen h info c (got r) = finished path c seen (content_lines h info r)

  abbrev pub read_canonical :
      Bytes → Seen → Handle → Info → Result Bytes → Option (Result (Option FileSource) × Seen)
  read_canonical path seen h info (lost e) = some (lost e, seen)
  read_canonical path seen h info (got c) =
      if is_seen c seen then some (got none, seen) else read_content path seen h info c h.reader

  abbrev pub read_regular :
      Bytes → Seen → Handle → Result Info → Option (Result (Option FileSource) × Seen)
  read_regular path seen h (lost e) = some (lost e, seen)
  read_regular path seen h (got info) =
      if not info.regular
      then some (lost not_regular, seen)
      else read_canonical path seen h info (fs.eval_symlinks path)

  abbrev pub read_opened : Bytes → Seen → Result Handle → Option (Result (Option FileSource) × Seen)
  read_opened path seen (lost e) = some (lost e, seen)
  read_opened path seen (got h) = read_regular path seen h h.stat

  -- readFile: a source, or none where the file was read before.
  unfoldable pub read_file : Bytes → Seen → Option (Result (Option FileSource) × Seen)
  read_file path seen = read_opened path seen (of_outcome (open_file fs.open_in files path))

  abbrev pub skip_or_stop : Bytes → ReadError → Turn
  skip_or_stop path e = if skip e then skipped path e else stops (file_error path e)

  abbrev pub turn_read : Bytes → Option (Result (Option FileSource) × Seen) → Option (Turn × Seen)
  turn_read path none = none
  turn_read path (some (lost e, seen)) = some (skip_or_stop path e, seen)
  turn_read path (some (got s, seen)) = some (kept s, seen)

  abbrev pub match_regular : Bytes → Seen → Result Info → Option (Turn × Seen)
  match_regular path seen (lost e) = some (skip_or_stop path e, seen)
  match_regular path seen (got info) =
      if not info.regular
      then some (skipped path not_regular, seen)
      else if ltb info.modified modified_after
      then some (kept none, seen)
      else turn_read path (read_file path seen)

  abbrev pub match_opened : Bytes → Seen → Result Handle → Option (Turn × Seen)
  match_opened path seen (lost e) = some (skip_or_stop path e, seen)
  match_opened path seen (got h) = match_regular path seen h.stat

  -- A turn of the loop of glob.
  unfoldable pub match_turn : Bytes → Seen → Option (Turn × Seen)
  match_turn path seen = match_opened path seen (of_outcome (open_file fs.open_in files path))

  -- A turn of the loop of ReadFiles over the paths.
  abbrev pub turn_of : Bytes → Option (Result (Option FileSource) × Seen) → Option (Turn × Seen)
  turn_of path none = none
  turn_of path (some (lost e, seen)) = some (stops (file_error path e), seen)
  turn_of path (some (got s, seen)) = some (kept s, seen)

  abbrev pub path_turn : Bytes → Seen → Option (Turn × Seen)
  path_turn path seen = turn_of path (read_file path seen)

  abbrev pub with_source : List FileSource → Option FileSource → List FileSource
  with_source sources none = sources
  with_source sources (some s) = sources ++ s ∷ []

  abbrev pub after_turn :
      (List FileSource → Seen → Option Ended)
      → List FileSource
      → Option (Turn × Seen)
      → Option Ended
  after_turn next sources none = none
  after_turn next sources (some (kept s, seen)) = next (with_source sources s) seen
  after_turn next sources (some (skipped path e, seen)) = next sources seen
  after_turn next sources (some (stops e, seen)) = some (ended_by e)

  -- A loop over paths, with the turn that it takes.
  unfoldable pub each_path :
      (Bytes → Seen → Option (Turn × Seen)) → List Bytes → List FileSource → Seen → Option Ended
  each_path turn [] sources seen = some (read_all sources seen)
  each_path turn (path ∷ paths) sources seen =
      after_turn (each_path turn paths) sources (turn path seen)

  abbrev pub glob_found : Seen → Result (List Bytes) → Option Ended
  glob_found seen (lost e) = some (ended_by (as_it_is e))
  glob_found seen (got matches) = each_path match_turn matches [] seen

  -- glob
  unfoldable pub glob : Bytes → Seen → Option Ended
  glob pattern seen = glob_found seen (fs.glob pattern)

  abbrev pub after_glob :
      (List FileSource → Seen → Option Ended) → List FileSource → Option Ended → Option Ended
  after_glob next sources none = none
  after_glob next sources (some (ended_by e)) = some (ended_by e)
  after_glob next sources (some (read_all more seen)) = next (sources ++ more) seen

  -- The loop of ReadFiles over the patterns.
  unfoldable pub each_pattern : List Bytes → List FileSource → Seen → Option Ended
  each_pattern [] sources seen = some (read_all sources seen)
  each_pattern (p ∷ ps) sources seen = after_glob (each_pattern ps) sources (glob p seen)

  abbrev pub after_paths : List Bytes → Option Ended → Option Ended
  after_paths patterns none = none
  after_paths patterns (some (ended_by e)) = some (ended_by e)
  after_paths patterns (some (read_all sources seen)) = each_pattern patterns sources seen

  -- ReadFiles
  unfoldable pub read_files : List Bytes → List Bytes → Option Ended
  read_files paths patterns = after_paths patterns (each_path path_turn paths [] (some []))
