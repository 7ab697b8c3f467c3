-- ===== src/Source/Gather/Ends.antt =====
-- The loops of ReadFiles (internal/source/file.go and source.go), and what their fuel is for.
use aken.Base.{
  ℕ, zero, suc, ◌+◌, ◌-◌, ◌<◌, ◌≡◌, refl, inl, inr, Bool, true, false, ◌&&◌, ◌||◌, not, Option,
  none, some, List, [], ◌∷◌, ◌++◌, Bytes, eqb, ltb, length, arith, Bool-cases, is_some, min,
  if◌then◌else◌,
}
use aken.Source.Lines.{
  Scan, scanned, scan_error, line_too_long, read_failed, hold_last, buffer_size, max_file_bytes,
}
use aken.Source.Lines.Ends.{scan_lines_ends}
use aken.Source.Tail.{
  TailRead, tail_bytes, tail_too_long, tail_failed, read_tail, tail_from, tail_block, count,
}
use aken.Source.Scope.{Files, open_file}
use aken.Source.Opened.{Result, got, lost, Info, Reader, Handle, FileSystem, of_outcome}
use aken.Source.Gather.{
  FileSource, Seen, Turn, kept, skipped, stops, Ended, read_all, ended_by, is_seen, streamed,
  from_end, whole, content_lines, finished, read_content, read_canonical, read_regular, read_opened,
  read_file, turn_read, match_regular, match_opened, match_turn, turn_of, path_turn, after_turn,
  each_path, glob_found, glob, after_glob, each_pattern, after_paths, read_files, with_source,
}

-- A result that is there.
abbrev Ends {ℓ} : {A : Type ℓ} → Option A → Type 0
Ends o = is_some o ≡ true

Ends-if {ℓ} : {A : Type ℓ} (b : Bool) (x y : Option A) → Ends x → Ends y → Ends (if b then x else y)
Ends-if true x y h k = h
Ends-if false x y h k = k

module _ (read_at : ℕ → ℕ → Option Bytes) (n : ℕ) where
  block-Ends :
      (next : ℕ → ℕ → ℕ → List Bytes → Option TailRead) (at total newlines : ℕ)
      (blocks : List Bytes) (o : Option Bytes)
      → ((total newlines : ℕ) (blocks : List Bytes) → Ends (next at total newlines blocks))
      → Ends (tail_block next at total newlines blocks o)
  unfolding tail_block
  block-Ends next at total newlines blocks none h = refl
  block-Ends next at total newlines blocks (some block) h =
      Ends-if (ltb max_file_bytes (total + length block)) (some tail_too_long) _ refl
        (h (total + length block) (newlines + count b'\n' block) (block ∷ blocks))

  tail_from-Ends :
      (fuel at total newlines : ℕ) (blocks : List Bytes)
      → at < fuel
      → Ends (tail_from read_at n fuel at total newlines blocks)
  unfolding tail_from
  tail_from-Ends zero at total newlines blocks h = absurd (omega arith)
  tail_from-Ends (suc fuel) at total newlines blocks h =
      elim (Bool-cases (eqb at 0 || ltb n newlines)) [
        | inl e ↦ rw e
        | inr e ↦
            let size = min at buffer_size in
            let smaller : at - size < fuel = ground arith in
            rw e (
              block-Ends (tail_from read_at n fuel) (at - size) total newlines blocks
                (read_at (at - size) size)
                (λ t m bs. tail_from-Ends fuel (at - size) t m bs smaller))
      ]

  read_tail-Ends : (size : ℕ) → Ends (read_tail read_at n size)
  unfolding read_tail
  read_tail-Ends size = tail_from-Ends (suc size) size 0 0 [] (omega arith)

streamed-Ends : (h : Handle) (o : Option (List Bytes × Scan)) → Ends o → Ends (streamed h o)
streamed-Ends h none e = e
streamed-Ends h (some (ls, scanned total)) e = refl
streamed-Ends h (some (ls, scan_error line_too_long)) e = refl
streamed-Ends h (some (ls, scan_error read_failed)) e = refl

from_end-Ends : (h : Handle) (o : Option TailRead) → Ends o → Ends (from_end h o)
from_end-Ends h none e = e
from_end-Ends h (some (tail_bytes d)) e = refl
from_end-Ends h (some tail_too_long) e = refl
from_end-Ends h (some tail_failed) e = refl

module _ (fs : FileSystem) (files : Files) (tail modified_after : ℕ) where
  content_lines-Ends :
      (h : Handle) (info : Info) (r : Reader)
      → Ends (content_lines fs files tail modified_after h info r)
  unfolding content_lines
  content_lines-Ends h info r =
      Ends-if (r.compressed && ltb 0 tail) _ _
        (streamed-Ends h _ (scan_lines_ends (hold_last tail) r.breaks [] r.content))
        (Ends-if (ltb 0 tail) _ (some (whole h r))
          (from_end-Ends h _ (read_tail-Ends h.read_at tail info.size)) refl)

  finished-Ends :
      (path c : Bytes) (seen : Seen) (o : Option (Result (List Bytes)))
      → Ends o
      → Ends (finished fs files tail modified_after path c seen o)
  finished-Ends path c seen none e = e
  finished-Ends path c seen (some (lost x)) e = refl
  finished-Ends path c seen (some (got ls)) e = refl

  content-Ends :
      (path : Bytes) (seen : Seen) (h : Handle) (info : Info) (c : Bytes) (o : Result Reader)
      → Ends (read_content fs files tail modified_after path seen h info c o)
  content-Ends path seen h info c (lost e) = refl
  content-Ends path seen h info c (got r) =
      finished-Ends path c seen _ (content_lines-Ends h info r)

  canonical-Ends :
      (path : Bytes) (seen : Seen) (h : Handle) (info : Info) (o : Result Bytes)
      → Ends (read_canonical fs files tail modified_after path seen h info o)
  canonical-Ends path seen h info (lost e) = refl
  canonical-Ends path seen h info (got c) =
      Ends-if (is_seen c seen) (some (got none, seen)) _ refl
        (content-Ends path seen h info c h.reader)

  regular-Ends :
      (path : Bytes) (seen : Seen) (h : Handle) (o : Result Info)
      → Ends (read_regular fs files tail modified_after path seen h o)
  regular-Ends path seen h (lost e) = refl
  regular-Ends path seen h (got info) =
      Ends-if (not info.regular) (some (lost _, seen)) _ refl
        (canonical-Ends path seen h info (fs.eval_symlinks path))

  opened-Ends :
      (path : Bytes) (seen : Seen) (o : Result Handle)
      → Ends (read_opened fs files tail modified_after path seen o)
  opened-Ends path seen (lost e) = refl
  opened-Ends path seen (got h) = regular-Ends path seen h h.stat

  read_file-Ends :
      (path : Bytes) (seen : Seen) → Ends (read_file fs files tail modified_after path seen)
  unfolding read_file
  read_file-Ends path seen = opened-Ends path seen _

  turn_read-Ends :
      (path : Bytes) (o : Option (Result (Option FileSource) × Seen))
      → Ends o
      → Ends (turn_read fs files tail modified_after path o)
  turn_read-Ends path none e = e
  turn_read-Ends path (some (lost x, seen)) e = refl
  turn_read-Ends path (some (got s, seen)) e = refl

  match-Ends :
      (path : Bytes) (seen : Seen) (o : Result Info)
      → Ends (match_regular fs files tail modified_after path seen o)
  match-Ends path seen (lost e) = refl
  match-Ends path seen (got info) =
      Ends-if (not info.regular) (some (skipped path _, seen)) _ refl (
        Ends-if (ltb info.modified modified_after) (some (kept none, seen)) _ refl
          (turn_read-Ends path _ (read_file-Ends path seen)))

  match_turn-Ends :
      (path : Bytes) (seen : Seen) → Ends (match_turn fs files tail modified_after path seen)
  unfolding match_turn
  match_turn-Ends path seen = opened (of_outcome (open_file fs.open_in files path))
    where
      opened : (o : Result Handle) → Ends (match_opened fs files tail modified_after path seen o)
      opened (lost e) = refl
      opened (got h) = match-Ends path seen h.stat

  path_turn-Ends :
      (path : Bytes) (seen : Seen) → Ends (path_turn fs files tail modified_after path seen)
  path_turn-Ends path seen = turned _ (read_file-Ends path seen)
    where
      turned :
          (o : Option (Result (Option FileSource) × Seen))
          → Ends o
          → Ends (turn_of fs files tail modified_after path o)
      turned none e = e
      turned (some (lost x, seen)) e = refl
      turned (some (got s, seen)) e = refl

  after_turn-Ends :
      (next : List FileSource → Seen → Option Ended) (sources : List FileSource)
      (o : Option (Turn × Seen))
      → Ends o
      → ((sources : List FileSource) (seen : Seen) → Ends (next sources seen))
      → Ends (after_turn fs files tail modified_after next sources o)
  after_turn-Ends next sources none e h = e
  after_turn-Ends next sources (some (kept s, seen)) e h =
      h (with_source fs files tail modified_after sources s) seen
  after_turn-Ends next sources (some (skipped path x, seen)) e h = h sources seen
  after_turn-Ends next sources (some (stops x, seen)) e h = refl

  each_path-Ends :
      (turn : Bytes → Seen → Option (Turn × Seen)) (paths : List Bytes) (sources : List FileSource)
      (seen : Seen)
      → ((path : Bytes) (seen : Seen) → Ends (turn path seen))
      → Ends (each_path fs files tail modified_after turn paths sources seen)
  unfolding each_path
  each_path-Ends turn [] sources seen h = refl
  each_path-Ends turn (path ∷ paths) sources seen h =
      after_turn-Ends (each_path fs files tail modified_after turn paths) sources (turn path seen)
        (h path seen) (λ ss s. each_path-Ends turn paths ss s h)

  glob-Ends :
      (pattern : Bytes) (seen : Seen) → Ends (glob fs files tail modified_after pattern seen)
  unfolding glob
  glob-Ends pattern seen = found (fs.glob pattern)
    where
      found : (o : Result (List Bytes)) → Ends (glob_found fs files tail modified_after seen o)
      found (lost e) = refl
      found (got matches) =
          each_path-Ends (match_turn fs files tail modified_after) matches [] seen match_turn-Ends

  after_glob-Ends :
      (next : List FileSource → Seen → Option Ended) (sources : List FileSource) (o : Option Ended)
      → Ends o
      → ((sources : List FileSource) (seen : Seen) → Ends (next sources seen))
      → Ends (after_glob fs files tail modified_after next sources o)
  after_glob-Ends next sources none e h = e
  after_glob-Ends next sources (some (ended_by x)) e h = refl
  after_glob-Ends next sources (some (read_all more seen)) e h = h (sources ++ more) seen

  each_pattern-Ends :
      (patterns : List Bytes) (sources : List FileSource) (seen : Seen)
      → Ends (each_pattern fs files tail modified_after patterns sources seen)
  unfolding each_pattern
  each_pattern-Ends [] sources seen = refl
  each_pattern-Ends (p ∷ ps) sources seen =
      after_glob-Ends (each_pattern fs files tail modified_after ps) sources _ (glob-Ends p seen)
        (each_pattern-Ends ps)

  -- Whatever the file system gives for the paths and the patterns, ReadFiles ends, with sources or
  -- with an error: none of its loops, down to those over the blocks and the lines of a file, runs
  -- out of fuel.
  pub read_files_ends :
      (paths patterns : List Bytes)
      → is_some (read_files fs files tail modified_after paths patterns) ≡ true
  unfolding read_files
  read_files_ends paths patterns =
      behind _
        (each_path-Ends (path_turn fs files tail modified_after) paths [] (some []) path_turn-Ends)
    where
      behind :
          (o : Option Ended) → Ends o → Ends (after_paths fs files tail modified_after patterns o)
      behind none e = e
      behind (some (ended_by x)) e = refl
      behind (some (read_all sources seen)) e = each_pattern-Ends patterns sources seen
