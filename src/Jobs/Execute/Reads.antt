-- ===== src/Jobs/Execute/Reads.antt =====
-- The files that `execute` of internal/serve/jobs.go reads.
use aken.Base.{
  subst, ℕ, zero, suc, ◌+◌, ◌≡◌, refl, ap, ◌∙◌, fun_ext, Bool, true, false, Option, none, some,
  List, [], ◌∷◌, String, string_eq, ◌==◌, Bytes, if◌then◌else◌, All, drop, length,
}
use aken.Base.Signed.{magnitude}
use aken.Source.Listing.{Entry, list_entries}
use aken.Source.Lines.{read_lines, tail_lines}
use aken.Source.Scope.{
  Files, Outcome, other_error, OpenFile, open_file, open_text, regular_text, regular_text,
}
use aken.Source.Search.{
  search_failed, bad_limits, SearchQuery, Searching, bad_limits_of, scan_opened, search_files,
  search_from, search_text, search_cursor,
}
use aken.Encoding.Alphabet.{codes}
use aken.Jobs.Resolve.{Attempt, refused, failed}
use aken.Jobs.Params.{Prepared, World}
use aken.Jobs.Execute.{
  Page, Machine, execute, read_file, tail_file, query_of, listed, read_page, tail_page, reading,
  search_page,
}

-- Which files a job reads when it runs: the one at its target, those that it found, or none.
pub data Reading : Type 0 where
  the_target the_found no_files : Reading

-- What `execute` reads for a job of this name.
abbrev pub reading_of : String → Reading
reading_of name =
    if name == "list_dir"
    then the_target
    else if name == "read_file"
    then the_target
    else if name == "tail"
    then the_target
    else if name == "search"
    then the_found
    else no_files

-- The paths of a prepared job are all that it reads.
abbrev pub ReadsPaths : Reading → Prepared → Type 0
ReadsPaths the_target p = p.paths ≡ p.target ∷ []
ReadsPaths the_found p = Unit
ReadsPaths no_files p = p.paths ≡ []

-- The world with other files.
abbrev pub with_files : World → (Bytes → Bytes → Outcome OpenFile) → World
with_files w open_in = record w { fs = record w.fs { open_in = open_in } }

All-drop : (P : Bytes → Type 0) (n : ℕ) (xs : List Bytes) → All P xs → All P (drop n xs)
All-drop P zero xs h = h
All-drop P (suc n) [] h = tt
All-drop P (suc n) (x ∷ xs) h = All-drop P n xs h.1

module _ (re : Bytes → Bool) (limit before_lines after_lines : ℕ)
    (text other : Bytes → Option (Bool × Bytes)) where
  search_files-same :
      (paths : List Bytes) (i first : ℕ) (s : Searching)
      → All (λ path. text path ≡ other path) paths
      → search_files re limit before_lines after_lines text i first paths s
        ≡ search_files re limit before_lines after_lines other i first paths s
  unfolding search_files
  search_files-same [] i first s h = refl
  search_files-same (path ∷ paths) i first s h =
      ap
        (λ more. scan_opened re limit before_lines after_lines text i first path s more (text path))
        (fun_ext (λ t. search_files-same paths (i + 1) 1 t h.1))
      ∙ ap
          (scan_opened re limit before_lines after_lines text i first path s
            (search_files re limit before_lines after_lines other (i + 1) 1 paths))
          h.0

module _ (re : Bytes → Bool) (text other : Bytes → Option (Bool × Bytes)) where
  search_text-same :
      (q : SearchQuery)
      → All (λ path. text path ≡ other path) q.paths
      → search_text re text q ≡ search_text re other q
  unfolding search_text
  search_text-same q h =
      ap (λ a. if bad_limits_of q then some (search_failed bad_limits) else a)
        (from (search_cursor (length q.paths) q.cursor))
    where
      from : (o : Option (ℕ × ℕ)) → search_from re text q o ≡ search_from re other q o
      from none = refl
      from (some (i, first)) =
          search_files-same re (magnitude q.max_matches) (magnitude q.before) (magnitude q.after)
            text other (drop i q.paths) i first _ (All-drop _ i q.paths h)

module _ (w : World) (m : Machine) (files : Files) (open_in : Bytes → Bytes → Outcome OpenFile)
    (read_dir : Bytes → Outcome (List Entry)) where
  -- A path at which the other files are those of `w` and `m`.
  abbrev pub SameAt : Bytes → Type 0
  SameAt path =
      (open_file w.fs.open_in files path ≡ open_file open_in files path)
      × (m.read_dir path ≡ read_dir path)

  either_same :
      (b : Bool) (k l : Reading) (p : Prepared) {x x' y y' : Attempt Page}
      → (ReadsPaths k p → x ≡ x')
      → (ReadsPaths l p → y ≡ y')
      → ReadsPaths (if b then k else l) p
      → (if b then x else y) ≡ (if b then x' else y')
  either_same true k l p h i r = h r
  either_same false k l p h i r = i r

  -- `execute` asks for a search before a tail.
  rest_same :
      (searches tails : Bool) (p : Prepared) {x x' y y' z z' : Attempt Page}
      → x ≡ x'
      → (p.paths ≡ p.target ∷ [] → y ≡ y')
      → z ≡ z'
      → ReadsPaths (if tails then the_target else if searches then the_found else no_files) p
      → (if searches then x else if tails then y else z)
        ≡ (if searches then x' else if tails then y' else z')
  rest_same true tails p h i j r = h
  rest_same false true p h i j r = i r
  rest_same false false p h i j r = j

  at_target : (p : Prepared) → All SameAt p.paths → p.paths ≡ p.target ∷ [] → SameAt p.target
  at_target p h e = (subst (All SameAt) e h).0

  texts_same :
      (paths : List Bytes)
      → All SameAt paths
      → All (λ path. open_text w.fs.open_in files path ≡ open_text open_in files path) paths
  unfolding open_text
  texts_same [] h = tt
  texts_same (path ∷ paths) h = (ap (regular_text open_in) h.0.0, texts_same paths h.1)

  search_same :
      (p : Prepared) (o : Option (Bytes → Bool))
      → All SameAt p.paths
      → (elim o as (λ x. Attempt Page) [
        | none ↦ refused (failed "cannot search files" (other_error (codes "invalid regex")))
        | some re ↦ search_page (search_text re (open_text w.fs.open_in files) (query_of p))
      ])
        ≡ (elim o as (λ x. Attempt Page) [
          | none ↦ refused (failed "cannot search files" (other_error (codes "invalid regex")))
          | some re ↦ search_page (search_text re (open_text open_in files) (query_of p))
        ])
  search_same p none h = refl
  search_same p (some re) h = ap search_page (
      search_text-same re (open_text w.fs.open_in files) (open_text open_in files) (query_of p)
        (texts_same p.paths h))

  -- A job with these paths gives the same with any other file system that has the same files at them.
  pub execute-same :
      (p : Prepared)
      → ReadsPaths (reading_of p.job.name) p
      → All SameAt p.paths
      → execute w m files p
        ≡ execute (with_files w open_in) (record m { read_dir = read_dir }) files p
  unfolding execute read_file tail_file
  execute-same p r h =
      either_same (p.job.name == "list_dir") the_target _ p
        (λ e. ap (λ o. listed (list_entries o)) (at_target p h e).1)
        (either_same (p.job.name == "read_file") the_target _ p
          (λ e.
            ap
              (λ o.
                read_page (magnitude p.read.from) (magnitude p.read.to)
                  (reading o (read_lines (magnitude p.read.from) (magnitude p.read.to))))
              (at_target p h e).0)
          (rest_same (p.job.name == "search") (p.job.name == "tail") p
            (search_same p (w.compile p.search.regex) h)
            (λ e.
              ap (λ o. tail_page (reading o (tail_lines (magnitude p.tail.n)))) (at_target p h e).0)
            refl))
        r
