-- ===== src/Source/Gather/Complete.antt =====
-- The canonical paths of the files that Glob and ReadFiles read (internal/source).
use mathlib.Core.List.{append_assoc, append-nil}
use aken.Base.{ℕ, ◌≡◌, refl, sym, Option, none, some, List, [], ◌∷◌, ◌++◌, Bytes, All, bytes_eq}
use aken.Source.Scope.{Files}
use aken.Source.Opened.{Result, got, lost, FileSystem}
use aken.Source.Gather.{
  FileSource, Seen, Turn, Ended, read_all, ended_by, match_turn, path_turn, after_turn, each_path,
  glob_found, glob, after_glob, each_pattern, after_paths, read_files,
}
use aken.Source.Gather.Canonical.{
  Once, Found, contains_more, Once-append, Taken, no_turn, has_stopped, was_skipped, nothing_kept,
  source_kept, turn_of-Taken, match_turn-Taken, read_file-Answer,
}

-- What holds still when another file is read.
abbrev Growing : (List Bytes → Type 0) → Type 0
Growing Q = (cs : List Bytes) (c : Bytes) → Q cs → Q (cs ++ c ∷ [])

module _ (fs : FileSystem) (files : Files) where
  Found-Growing : (path : Bytes) → Growing (Found fs path)
  Found-Growing path cs d (c, e, h) = (c, e, contains_more cs d c h)

  -- What a loop answers that began behind the sources `base`.
  data Read (base : List FileSource) (Q : List Bytes → Type 0) : Option Ended → Type 0 where
    no_end : Read base Q none
    with_error : {e : _} → Read base Q (some (ended_by e))
    all_read :
        {ss : List FileSource} {cs : List Bytes}
        → Once fs files (base ++ ss) cs
        → Q cs
        → Read base Q (some (read_all ss (some cs)))

  Read-map :
      (base : List FileSource) (Q R : List Bytes → Type 0) (o : Option Ended)
      → ((cs : List Bytes) → Q cs → R cs)
      → Read base Q o
      → Read base R o
  Read-map base Q R _ f no_end = no_end
  Read-map base Q R _ f with_error = with_error
  Read-map base Q R _ f (all_read {cs = cs} o q) = all_read o (f cs q)

  module _ (tail modified_after : ℕ) where
    after_turn-Read :
        (next : List FileSource → Seen → Option Ended) (base sources : List FileSource)
        (cs : List Bytes) (P R Q : List Bytes → Type 0) (o : Option (Turn × Seen))
        → Growing R
        → Once fs files (base ++ sources) cs
        → R cs
        → Taken fs files cs P o
        → ((ss : List FileSource) (ds : List Bytes)
            → Once fs files (base ++ ss) ds
            → R ds
            → P ds
            → Read base Q (next ss (some ds)))
        → Read base Q (after_turn fs files tail modified_after next sources o)
    after_turn-Read next base sources cs P R Q _ g o r no_turn h = no_end
    after_turn-Read next base sources cs P R Q _ g o r has_stopped h = with_error
    after_turn-Read next base sources cs P R Q _ g o r (was_skipped p) h = h sources cs o r p
    after_turn-Read next base sources cs P R Q _ g o r (nothing_kept p) h = h sources cs o r p
    after_turn-Read next base sources cs P R Q _ g o r (source_kept {s = s} {c = c} e n k p) h =
        h (sources ++ s ∷ []) (cs ++ c ∷ [])
          (rw (sym (append_assoc base sources (s ∷ [])))
            (Once-append fs files (base ++ sources) cs s c o e n k))
          (g cs c r) p

    module _ (turn : Bytes → Seen → Option (Turn × Seen)) (P : Bytes → List Bytes → Type 0)
        (grows : (path : Bytes) → Growing (P path))
        (taken : (path : Bytes) (cs : List Bytes)
          → Taken fs files cs (P path) (turn path (some cs)))
        (base : List FileSource) where
      each_path-Read :
          (paths : List Bytes) (sources : List FileSource) (cs : List Bytes)
          (R : List Bytes → Type 0)
          → Growing R
          → Once fs files (base ++ sources) cs
          → R cs
          → Read base
              (λ ds. R ds × All (λ path. P path ds) paths)
              (each_path fs files tail modified_after turn paths sources (some cs))
      unfolding each_path
      each_path-Read [] sources cs R g o r = all_read o (r, tt)
      each_path-Read (path ∷ paths) sources cs R g o r =
          after_turn-Read (each_path fs files tail modified_after turn paths) base sources cs
            (P path) R _ _ g o r (taken path cs)
            (λ ss ds o' r' p.
              Read-map base _ _ _ (λ es q. (q.0.0, (q.0.1, q.1)))
                (each_path-Read paths ss ds (λ es. R es × P path es)
                  (λ es c q. (g es c q.0, grows path es c q.1)) o' (r', p)))

    module _ (R : List Bytes → Type 0) (g : Growing R) where
      glob-Read :
          (pattern : Bytes) (sources : List FileSource) (cs : List Bytes)
          → Once fs files sources cs
          → R cs
          → Read sources R (glob fs files tail modified_after pattern (some cs))
      unfolding glob
      glob-Read pattern sources cs o r = found (fs.glob pattern)
        where
          found :
              (m : Result (List Bytes))
              → Read sources R (glob_found fs files tail modified_after (some cs) m)
          found (lost e) = with_error
          found (got matches) =
              Read-map sources _ _ _ (λ ds q. q.0)
                (each_path-Read (match_turn fs files tail modified_after) (λ path ds. Unit {0})
                  (λ path ds c u. tt) (match_turn-Taken fs files tail modified_after) sources
                  matches [] cs R g (rw (append-nil sources) o) r)

      after_glob-Read :
          (next : List FileSource → Seen → Option Ended) (sources : List FileSource)
          (o : Option Ended)
          → Read sources R o
          → ((ss : List FileSource) (cs : List Bytes)
              → Once fs files ss cs
              → R cs
              → Read [] R (next ss (some cs)))
          → Read [] R (after_glob fs files tail modified_after next sources o)
      after_glob-Read next sources _ no_end h = no_end
      after_glob-Read next sources _ with_error h = with_error
      after_glob-Read next sources _ (all_read {ss = ss} {cs = cs} o r) h = h (sources ++ ss) cs o r

      each_pattern-Read :
          (patterns : List Bytes) (sources : List FileSource) (cs : List Bytes)
          → Once fs files sources cs
          → R cs
          → Read [] R (each_pattern fs files tail modified_after patterns sources (some cs))
      unfolding each_pattern
      each_pattern-Read [] sources cs o r = all_read o r
      each_pattern-Read (p ∷ ps) sources cs o r =
          after_glob-Read (each_pattern fs files tail modified_after ps) sources _
            (glob-Read p sources cs o r) (each_pattern-Read ps)

    after_paths-Read :
        (R : List Bytes → Type 0) (patterns : List Bytes) (o : Option Ended)
        → Growing R
        → Read [] R o
        → Read [] R (after_paths fs files tail modified_after patterns o)
    after_paths-Read R patterns _ g no_end = no_end
    after_paths-Read R patterns _ g with_error = with_error
    after_paths-Read R patterns _ g (all_read {ss = ss} {cs = cs} o r) =
        each_pattern-Read R g patterns ss cs o r

    All-Growing : (paths : List Bytes) → Growing (λ cs. All (λ path. Found fs path cs) paths)
    All-Growing [] cs c h = tt
    All-Growing (path ∷ paths) cs c h = (Found-Growing path cs c h.0, All-Growing paths cs c h.1)

    read_files-Read :
        (paths patterns : List Bytes)
        → Read []
            (λ cs. All (λ path. Found fs path cs) paths)
            (read_files fs files tail modified_after paths patterns)
    unfolding read_files
    read_files-Read paths patterns = after_paths-Read _ patterns _ (All-Growing paths) (
        Read-map [] _ _ _ (λ cs q. q.1)
          (each_path-Read (path_turn fs files tail modified_after) (Found fs) Found-Growing
            (λ path cs.
              turn_of-Taken fs files tail modified_after path cs _
                (read_file-Answer fs files tail modified_after path cs))
            [] paths [] [] (λ cs. Unit {0}) (λ cs c u. tt)
            (record { canonical = tt; distinct = tt; permitted = tt }) tt))

-- Where ReadFiles returns sources, for a file system that stays as it is meanwhile: the scope permits
-- the path of each source; the canonical paths of the sources all differ, so that no file is read
-- twice, whatever links lead to it and however many patterns match it; and each of the paths that
-- were asked for leads to one of the files that were read.
pub read_files-Once :
    (fs : FileSystem) (files : Files) (tail modified_after : ℕ) (paths patterns : List Bytes)
    (sources : List FileSource) (seen : Seen)
    → read_files fs files tail modified_after paths patterns ≡ some (read_all sources seen)
    → (cs : List Bytes) × (seen ≡ some cs)
      × Once fs files sources cs
      × All (λ path. Found fs path cs) paths
read_files-Once fs files tail modified_after paths patterns sources seen h =
    ended sources seen (rw h at (read_files-Read fs files tail modified_after paths patterns))
  where
    ended :
        (ss : List FileSource) (seen : Seen)
        → Read fs files [] (λ cs. All (λ path. Found fs path cs) paths) (some (read_all ss seen))
        → (cs : List Bytes) × (seen ≡ some cs)
          × Once fs files ss cs
          × All (λ path. Found fs path cs) paths
    ended ss _ (all_read {cs = cs} o q) = (cs, refl, o, q)
