-- ===== src/Tests/Files.antt =====
-- A small file system, and what internal/source does with it.
use aken.Base.{
  ℕ, ◌-◌, ◌≡◌, refl, ◌↔◌, Bool, true, false, Option, some, [], ◌∷◌, ◌++◌, Bytes, ◌==◌, bytes_eq,
  if◌then◌else◌, length, take, drop, get_elem?, All, arith, eqb,
}
use aken.Base.Signed.{pos, magnitude}
use aken.Encoding.Alphabet.{codes}
use aken.Encoding.Cut
use aken.Encoding.Decimal
use aken.Source.Lines.{split, drop_empty_last, split_lines, last_lines}
use aken.Source.Lines.Scanned.{Short}
use aken.Source.Tail.{read_tail, tail_bytes, kept_lines}
use aken.Source.Tail.Same.{ReadsFile, read_tail-last_lines}
use aken.Source.Paths.{clean, cleaned, clean_parts, render, rel}
use aken.Source.Scope.{
  Files, not_exist, Outcome, success, failure, OpenFile, under, permits, open_file, open_text,
}
use aken.Source.Scope.Permitted.{InScope, permits-InScope}
use aken.Source.Search.{SearchQuery, Searching, results, search_text, search_cursor}
use aken.Source.Search.Hits.{Hit, position, Has, all_hits}
use aken.Source.Search.Pages.{Readable}
use aken.Source.Search.Resume.{search_pages}

-- Three lines, the last one with no newline.
abbrev pub log_text : Bytes
log_text = codes "ab" ++ b'\n' ∷ (codes "b" ++ b'\n' ∷ codes "ba")

abbrev pub log_path : Bytes
log_path = codes "/log/a"

abbrev pub file : OpenFile
file = record { regular = true; modified = 7; text = some (false, log_text) }

abbrev pub open_in : Bytes → Bytes → Outcome OpenFile
open_in directory path = if path == log_path then success file else failure not_exist

abbrev pub files : Files
files = record { allowed = codes "/log" ∷ []; paths = [] }

-- The bytes of "b".
abbrev pub has_b : Bytes → Bool
has_b [] = false
has_b (c ∷ s) = if eqb c b'b' then true else has_b s

clean_down : clean (codes "/log/./x//../a/") ≡ log_path
unfolding clean cleaned clean_parts split render
clean_down = refl

clean_up : clean (codes "../../a/..") ≡ codes "../.."
unfolding clean cleaned clean_parts split render
clean_up = refl

-- A name that begins like the directory is not in it.
not_under : permits files (codes "/logs/a") ≡ false
unfolding permits under rel cleaned clean_parts split
not_under = refl

permits-InScope_example : (permits files log_path ≡ true) ↔ InScope files log_path
permits-InScope_example = permits-InScope files log_path (refl, tt) refl

no_lines : split_lines [] ≡ []
unfolding split_lines split drop_empty_last
no_lines = refl

pub log_Short : Short (split_lines log_text)
unfolding split_lines split drop_empty_last
log_Short = (omega arith, (omega arith, (omega arith, tt)))

abbrev read_at : ℕ → ℕ → Option Bytes
read_at at n = some (take n (drop at log_text))

read_at-ReadsFile : ReadsFile read_at log_text
read_at-ReadsFile at n h = refl

read_tail-last_lines_example :
    (d : Bytes) × (read_tail read_at 2 (length log_text) ≡ some (tail_bytes d))
    × (last_lines 2 false log_text
        ≡ some (kept_lines 2 (split_lines d), length (split_lines log_text)))
read_tail-last_lines_example =
    read_tail-last_lines read_at log_text 2 read_at-ReadsFile (omega arith) log_Short (omega arith)

abbrev drop_blank : Bytes → Bytes
drop_blank [] = []
drop_blank (b ∷ s) = if eqb b b' ' then drop_blank s else b ∷ s

abbrev query : SearchQuery
query = record {
  paths = log_path ∷ [];
  before = pos 0;
  after = pos 0;
  max_matches = pos 1;
  cursor = codes "0:2";
}

query_cursor : search_cursor (length query.paths) query.cursor ≡ some (0, 2)
unfolding search_cursor Cut.before Cut.behind Decimal.atoi Decimal.digits Decimal.digits_from
query_cursor = refl

log_open : open_text open_in files log_path ≡ some (false, log_text)
unfolding open_text open_file clean cleaned clean_parts split render under rel
log_open = refl

abbrev text_at : Bytes → Bytes
text_at path = log_text

query_Readable : Readable (open_text open_in files) text_at query.paths
query_Readable = ((log_open, log_Short), tt)

search_pages_example :
    let hits = all_hits has_b text_at 0 2 (drop 0 query.paths) in
    let limit = magnitude query.max_matches in
    (page : Searching) × (search_text has_b (open_text open_in files) query ≡ some (results page))
    × All (λ (h : Hit). Has h.shown page.lines) (take limit hits)
    × (page.next ≡ position (get_elem? hits limit))
    × ((h : Hit)
        → get_elem? hits limit ≡ some h
        → all_hits has_b text_at h.file h.shown.number (drop (h.file - 0) (drop 0 query.paths))
          ≡ drop limit hits)
search_pages_example =
    search_pages has_b (open_text open_in files) text_at query 0 2 refl query_cursor query_Readable
