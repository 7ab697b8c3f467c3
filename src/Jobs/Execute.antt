-- ===== src/Jobs/Execute.antt =====
-- `execute` of internal/serve/jobs.go: what a prepared job reads, and where the next page begins.
pub mod Pages
pub mod Reads
use aken.Base.{
  ℕ, suc, ◌+◌, ◌-◌, Bool, true, false, ◌&&◌, ◌||◌, not, Option, none, some, List, [], ◌∷◌, ◌++◌,
  String, string_eq, Bytes, ◌==◌, bytes_eq, eqb, ltb, leb, if◌then◌else◌, is_empty, keep, length,
  take, drop, min, from_some,
}
use aken.Base.Signed.{ℤ, pos, negsuc, magnitude, above}
use aken.Encoding.Alphabet.{codes}
use aken.Encoding.Decimal.{atoi, itoa}
use aken.Source.Lines.{read_lines, tail_lines, split}
use aken.Source.Listing.{Entry, shown_name, list_entries}
use aken.Source.Names.{validate_unit}
use aken.Source.Scope.{
  Files, Outcome, success, failure, OsError, other_error, OpenFile, open_file, open_text,
}
use aken.Source.Search.{SearchQuery, SearchAnswer, results, search_failed, search_text, Shown}
use aken.Jobs.Resolve.{JobError, job_error, failed, Attempt, done, refused}
use aken.Jobs.Params.{Prepared, SearchParams, Spec, World}

-- The lines of a page, and where the next one begins; empty for nowhere.
pub record Page : Type 0 where
  pub lines : List Bytes
  pub next : Bytes

-- What a finished command left: its output, cut at 8 MiB, and how it ended.
pub record Finished : Type 0 where
  pub output : Bytes
  pub capped : Bool
  pub canceled : Bool
  pub read_error : Bool
  pub errors : Bytes
  -- cmd.Wait: none for success, and the exit code or none for another error
  pub failure_code : Option (Option ℕ)

-- source.ReadJournal: the lines and the line of errors, if there is a source, and whether it failed.
pub record JournalRead : Type 0 where
  pub lines : List Bytes
  pub errors : Bytes
  pub has_source : Bool
  pub failed : Bool

pub record Machine : Type 0 where
  pub read_dir : Bytes → Outcome (List Entry)
  pub read_journal : Spec → ℕ → ℕ → JournalRead
  -- command: none where it cannot be started
  pub run : String → List Bytes → Option Finished

abbrev pub entry_line : Entry → Bytes
entry_line e = e.mode ++ b' ' ∷ (itoa e.size ++ b' ' ∷ (e.modified ++ b' ' ∷ shown_name e))

abbrev pub entry_lines : List Entry → List Bytes
entry_lines [] = []
entry_lines (e ∷ es) = entry_line e ∷ entry_lines es

abbrev first_name : List Entry → Bytes
first_name [] = []
first_name (e ∷ es) = shown_name e

abbrev pub listed : Outcome (List Entry) → Attempt Page
listed (failure e) = refused (failed "cannot list directory" e)
listed (success es) =
    done (record { lines = entry_lines (take 500 es); next = first_name (drop 500 es) })

-- "%d: %s", numbered from `n`.
unfoldable pub number_lines : ℕ → List Bytes → List Bytes
number_lines n [] = []
number_lines n (l ∷ ls) = (itoa n ++ b':' ∷ b' ' ∷ l) ∷ number_lines (n + 1) ls

-- What reading an open file's text gives; none is an error.
abbrev pub reading :
    Outcome OpenFile → (Bool → Bytes → Option (List Bytes × ℕ)) → Attempt (List Bytes × ℕ)
reading (failure e) read = refused (failed "cannot read file" e)
reading (success f) read =
    if f.regular
    then elim f.text [
      | none ↦ refused (failed "cannot read file" (other_error (codes "gzip file is corrupt")))
      | some (fails, text) ↦ elim (read fails text) [
        | none ↦ refused (failed "cannot read file" (other_error []))
        | some r ↦ done r
      ]
    ]
    else refused (failed "cannot read file" (other_error (codes "source is not a regular file")))

abbrev pub read_page : ℕ → ℕ → Attempt (List Bytes × ℕ) → Attempt Page
read_page from to (refused e) = refused e
read_page from to (done (ls, total)) =
    done
      (record { lines = number_lines from ls; next = (if ltb to total then itoa (to + 1) else []) })

abbrev pub tail_page : Attempt (List Bytes × ℕ) → Attempt Page
tail_page (refused e) = refused e
tail_page (done (ls, total)) =
    done (record { lines = number_lines (total - length ls + 1) ls; next = [] })

abbrev pub shown_text : Shown → Bytes
shown_text s =
    s.path ++ b':' ∷ (itoa s.number ++ (if s.matched then b':' else b'-') ∷ b' ' ∷ s.line)

abbrev pub shown_texts : List Shown → List Bytes
shown_texts [] = []
shown_texts (s ∷ ss) = shown_text s ∷ shown_texts ss

abbrev pub cursor_text : Option (ℕ × ℕ) → Bytes
cursor_text none = []
cursor_text (some (i, n)) = itoa i ++ b':' ∷ itoa n

-- A scan has fuel enough (Source.Lines.Scanned), so that an answer is there.
abbrev pub search_page : Option SearchAnswer → Attempt Page
search_page (some (results s)) =
    done (record { lines = shown_texts s.lines; next = cursor_text s.next })
search_page (some (search_failed e)) = refused (failed "cannot search files" (other_error []))
search_page none = refused (failed "cannot search files" (other_error []))

-- The page of the lines that match, from `start` on.
abbrev pub journal_page : ℕ → ℕ → List Bytes → Page
journal_page cursor limit ls =
    let start = min cursor (length ls) in
    let end = min (start + limit) (length ls) in
    record {
      lines = take (end - start) (drop start ls);
      next = (if ltb end (length ls) then itoa end else []);
    }

-- What strconv.Atoi gives where its error is ignored.
abbrev or_zero : Option ℤ → ℕ
or_zero none = 0
or_zero (some n) = magnitude n

-- `journal`, of the lines that were read. The pattern was compiled before.
unfoldable pub journal_lines : (Bytes → Bool) → Prepared → JournalRead → Attempt Page
journal_lines re p r =
    if r.has_source && is_empty r.lines && not (is_empty r.errors)
    then refused (failed "journalctl" (other_error r.errors))
    else if r.failed
    then refused (job_error "cannot read journal")
    else (let matched = keep re r.lines in
        if above p.journal.tail 0
        then done
            (record { lines = drop (length matched - magnitude p.journal.tail) matched; next = [] })
        else done (
            journal_page (or_zero (atoi p.journal.cursor)) (magnitude p.journal.max_lines) matched))

abbrev accepted : String → Option (Option ℕ) → Bool → Bool
accepted name none capped = true
accepted name (some none) capped = capped
accepted name (some (some code)) capped = (name == "systemctl" && leb code 4) || capped

-- strings.TrimSuffix(s, "\n")
abbrev trim_last_newline : Bytes → Bytes
trim_last_newline [] = []
trim_last_newline (b ∷ []) = if eqb b b'\n' then [] else b ∷ []
trim_last_newline (b ∷ c ∷ s) = b ∷ trim_last_newline (c ∷ s)

-- `command`: the lines, and the errors of systemctl alone are kept.
unfoldable pub command : String → Option Finished → Attempt (List Bytes)
command name none = refused (job_error "cannot start command")
command name (some f) =
    if f.canceled
    then refused (job_error "command canceled")
    else if f.read_error
    then refused (job_error "cannot read command output")
    else if is_empty f.output && name == "systemctl" && not (is_empty f.errors)
    then refused (failed name (other_error f.errors))
    else if not (accepted name f.failure_code f.capped)
    then refused (job_error "command failed")
    else if is_empty f.output
    then done []
    else done (split b'\n' (trim_last_newline f.output))

abbrev whole_page : Attempt (List Bytes) → Attempt Page
whole_page (refused e) = refused e
whole_page (done ls) = done (record { lines = ls; next = [] })

abbrev process_page : Attempt (List Bytes) → Attempt Page
process_page (refused e) = refused e
process_page (done ls) =
    if ltb 500 (length ls)
    then done (record { lines = take 500 ls; next = codes "500" })
    else done (record { lines = ls; next = [] })

abbrev pub query_of : Prepared → SearchQuery
query_of p = record {
  paths = p.paths;
  before = p.search.before;
  after = p.search.after;
  max_matches = p.search.max_matches;
  cursor = p.search.cursor;
}

module _ (w : World) (m : Machine) (files : Files) where
  -- `prepare` has compiled the pattern, so that it compiles again.
  abbrev pub with_pattern : Bytes → ((Bytes → Bool) → Attempt Page) → Attempt Page
  with_pattern regex use_re = elim (w.compile regex) [
    | none ↦ refused (failed "cannot search files" (other_error (codes "invalid regex")))
    | some re ↦ use_re re
  ]

  -- readFile
  unfoldable pub read_file : Prepared → Attempt Page
  read_file p =
      let from = magnitude p.read.from in
      let to = magnitude p.read.to in
      read_page from to (reading (open_file w.fs.open_in files p.target) (read_lines from to))

  -- tail
  unfoldable pub tail_file : Prepared → Attempt Page
  tail_file p =
      tail_page (reading (open_file w.fs.open_in files p.target) (tail_lines (magnitude p.tail.n)))

  -- execute
  unfoldable pub execute : Prepared → Attempt Page
  execute p =
      let name = p.job.name in
      if name == "list_dir"
      then listed (list_entries (m.read_dir p.target))
      else if name == "read_file"
      then read_file p
      else if name == "search"
      then with_pattern p.search.regex
          (λ re. search_page (search_text re (open_text w.fs.open_in files) (query_of p)))
      else if name == "tail"
      then tail_file p
      else if name == "journal" || name == "docker_logs"
      then with_pattern p.journal.regex
          (λ re. journal_lines re p (m.read_journal p.spec p.since p.until))
      else if name == "systemctl_status"
      then (if validate_unit p.target
          then whole_page (
              command "systemctl" (
                m.run "systemctl"
                  (codes "status" ∷ codes "--no-pager" ∷ codes "--lines=0" ∷ p.target ∷ [])))
          else refused (job_error "invalid unit name"))
      else if name == "ps"
      then process_page (
          command "ps" (
            m.run "ps" (
              codes "-eo"
              ∷ codes "pid,ppid,user,%cpu,%mem,rss,etimes,args"
              ∷ codes "--sort=-%cpu"
              ∷ [])))
      else if name == "df"
      then whole_page (command "df" (m.run "df" (codes "-hP" ∷ [])))
      else refused (job_error "unknown job name")
