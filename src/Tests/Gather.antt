-- ===== src/Tests/Gather.antt =====
-- Tests of ReadFiles, and its theorems at a file that has two names.
use aken.Base.{
  true, false, none, some, List, [], ◌∷◌, Bytes, ◌==◌, bytes_eq, ◌≡◌, refl, if◌then◌else◌, take,
  drop, is_some, All,
}
use aken.Encoding.Alphabet.{codes}
use aken.Source.Scope.{Files, OsError, not_exist, other_error, Outcome, success, failure}
use aken.Source.Opened.{Handle, FileSystem, Result, got, lost, os_error, refusing, skip, file_error}
use aken.Source.Gather.{FileSource, Ended, read_all, ended_by, read_files, Seen}
use aken.Source.Gather.Canonical.{Once, Found}
use aken.Source.Gather.Complete.{read_files-Once}
use aken.Source.Gather.Ends.{read_files_ends}
use aken.Tests.Files.{log_text, log_path, files}

abbrev link_path : Bytes
link_path = codes "/log/b"

abbrev handle : Handle
handle = record {
  stat = got (record { regular = true; modified = 7; size = 7 });
  reader = got (record { compressed = false; breaks = false; content = log_text });
  read_at = λ at n. some (take n (drop at log_text));
  read_error = os_error not_exist;
}

-- "/log/b" is a link to "/log/a", and "/log/c" leaves the directory.
abbrev opened : Bytes → Bytes → Outcome Handle
opened directory path =
    if path == codes "/log/c"
    then failure (other_error (codes "path escapes from parent"))
    else success handle

abbrev fs : FileSystem
fs = record {
  open_in = opened;
  eval_symlinks = λ path. got log_path;
  glob = λ pattern. got (log_path ∷ link_path ∷ codes "/log/c" ∷ []);
}

abbrev patterns : List Bytes
patterns = codes "/log/*" ∷ []

abbrev log_source : FileSource
log_source = record {
  target = link_path;
  lines = codes "ab" ∷ codes "b" ∷ codes "ba" ∷ [];
  note = none;
}

-- The file is read under the name that comes first, the escaping link is skipped.
reads_once :
    read_files fs files 0 0 (link_path ∷ []) patterns
    ≡ some (read_all (log_source ∷ []) (some (log_path ∷ [])))
unfolding read_files aken.Source.Gather.each_path aken.Source.Gather.each_pattern
    aken.Source.Gather.glob aken.Source.Gather.match_turn aken.Source.Gather.read_file
    aken.Source.Gather.content_lines aken.Source.Scope.open_file aken.Source.Scope.under
    aken.Source.Paths.clean aken.Source.Paths.cleaned aken.Source.Paths.clean_parts
    aken.Source.Lines.split aken.Source.Lines.split_lines aken.Source.Lines.drop_empty_last
    aken.Source.Paths.render aken.Source.Paths.rel skip aken.Source.Opened.is_link
reads_once = refl

-- With a tail of one line, and a path that leaves the directory.
reads_last :
    read_files fs files 1 0 (link_path ∷ []) []
    ≡ some (
        read_all
          (record { target = link_path; lines = codes "ba" ∷ []; note = some 1 } ∷ [])
          (some (log_path ∷ [])))
unfolding read_files aken.Source.Gather.each_path aken.Source.Gather.each_pattern
    aken.Source.Gather.read_file aken.Source.Gather.content_lines aken.Source.Tail.read_tail
    aken.Source.Tail.tail_from aken.Source.Tail.tail_block aken.Source.Scope.open_file
    aken.Source.Scope.under aken.Source.Paths.clean aken.Source.Paths.cleaned
    aken.Source.Paths.clean_parts aken.Source.Lines.split aken.Source.Lines.split_lines
    aken.Source.Lines.drop_empty_last aken.Source.Paths.render aken.Source.Paths.rel
reads_last = refl

refuses_link :
    read_files fs files 0 0 (codes "/log/c" ∷ []) [] ≡ some (ended_by (refusing (codes "/log/c")))
unfolding read_files aken.Source.Gather.each_path aken.Source.Gather.read_file file_error
    aken.Source.Opened.is_link aken.Source.Scope.open_file aken.Source.Scope.under
    aken.Source.Paths.clean aken.Source.Paths.cleaned aken.Source.Paths.clean_parts
    aken.Source.Lines.split aken.Source.Paths.render aken.Source.Paths.rel
refuses_link = refl

read_files-Once_example :
    (cs : List Bytes) × (some (log_path ∷ []) ≡ some cs)
    × Once fs files (log_source ∷ []) cs
    × All (λ path. Found fs path cs) (link_path ∷ [])
read_files-Once_example =
    read_files-Once fs files 0 0 (link_path ∷ []) patterns (log_source ∷ []) (some (log_path ∷ []))
      reads_once

read_files_ends_example : is_some (read_files fs files 1 0 (link_path ∷ []) patterns) ≡ true
read_files_ends_example = read_files_ends fs files 1 0 (link_path ∷ []) patterns
