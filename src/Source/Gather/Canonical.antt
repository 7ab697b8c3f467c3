-- ===== src/Source/Gather/Canonical.antt =====
-- The canonical paths of the files that readFile (internal/source/file.go) reads, turn by turn.
use aken.Base.{
  ℕ, ◌≡◌, refl, inl, inr, Bool, true, false, ◌||◌, not, Option, none, some, List, [], ◌∷◌, ◌++◌,
  Bytes, ltb, contains, Distinct, Distinct-append, contains-append, All, All-append, Bool-cases,
  if◌then◌else◌, bytes_eq, ==-refl,
}
use aken.Source.Scope.{Files, Outcome, success, failure, open_file, permits}
use aken.Source.Scope.Permitted.{open_file-permits}
use aken.Source.Opened.{
  ReadError, Result, got, lost, Info, Reader, Handle, FileSystem, skip, of_outcome, file_error,
}
use aken.Source.Gather.{
  FileSource, Seen, Turn, kept, skipped, stops, content_lines, finished, read_content,
  read_canonical, read_regular, read_opened, read_file, source_of, skip_or_stop, turn_read,
  match_regular, match_opened, match_turn, turn_of,
}

-- The canonical paths of the sources, in their order.
abbrev pub CanonicalPaths : (Bytes → Result Bytes) → List FileSource → List Bytes → Type 0
CanonicalPaths eval [] [] = Unit
CanonicalPaths eval [] (c ∷ cs) = ⊥
CanonicalPaths eval (s ∷ ss) [] = ⊥
CanonicalPaths eval (s ∷ ss) (c ∷ cs) = (eval s.target ≡ got c) × CanonicalPaths eval ss cs

-- What is read: files that the scope permits, with canonical paths that all differ.
pub record Once (fs : FileSystem) (files : Files) (sources : List FileSource) (cs : List Bytes)
    : Type 0 where
  pub canonical : CanonicalPaths fs.eval_symlinks sources cs
  pub distinct : Distinct cs
  pub permitted : All (λ s. permits files s.target ≡ true) sources

-- A path whose file is among those that were read.
abbrev pub Found : FileSystem → Bytes → List Bytes → Type 0
Found fs path cs = (c : Bytes) × (fs.eval_symlinks path ≡ got c) × (contains cs c ≡ true)

pub contains_more :
    (cs : List Bytes) (c d : Bytes) → contains cs d ≡ true → contains (cs ++ c ∷ []) d ≡ true
contains_more cs c d h = rw (contains-append cs c d, h)

contains_last : (cs : List Bytes) (c : Bytes) → contains (cs ++ c ∷ []) c ≡ true
contains_last cs c = rw (contains-append cs c c, ==-refl c) (or_true (contains cs c))
  where
    or_true : (b : Bool) → (b || true) ≡ true
    or_true true = refl
    or_true false = refl

CanonicalPaths-append :
    (eval : Bytes → Result Bytes) (ss : List FileSource) (cs : List Bytes) (s : FileSource)
    (c : Bytes)
    → CanonicalPaths eval ss cs
    → eval s.target ≡ got c
    → CanonicalPaths eval (ss ++ s ∷ []) (cs ++ c ∷ [])
CanonicalPaths-append eval [] [] s c h e = (e, tt)
CanonicalPaths-append eval [] (d ∷ cs) s c h e = absurd h
CanonicalPaths-append eval (t ∷ ss) [] s c h e = absurd h
CanonicalPaths-append eval (t ∷ ss) (d ∷ cs) s c h e =
    (h.0, CanonicalPaths-append eval ss cs s c h.1 e)

module _ (fs : FileSystem) (files : Files) where
  pub Once-append :
      (ss : List FileSource) (cs : List Bytes) (s : FileSource) (c : Bytes)
      → Once fs files ss cs
      → fs.eval_symlinks s.target ≡ got c
      → contains cs c ≡ false
      → permits files s.target ≡ true
      → Once fs files (ss ++ s ∷ []) (cs ++ c ∷ [])
  Once-append ss cs s c o e new p = record {
    canonical = CanonicalPaths-append fs.eval_symlinks ss cs s c o.canonical e;
    distinct = Distinct-append cs c new o.distinct;
    permitted = All-append _ ss (s ∷ []) o.permitted (p, tt);
  }

  -- What readFile answers for a path, when the files `cs` were read before.
  pub data Answer (path : Bytes) (cs : List Bytes)
      : Option (Result (Option FileSource) × Seen) → Type 0 where
    no_answer : Answer path cs none
    not_read : {e : ReadError} → Answer path cs (some (lost e, some cs))
    read_before : Found fs path cs → Answer path cs (some (got none, some cs))
    read_now :
        {s : FileSource} {c : Bytes}
        → s.target ≡ path
        → fs.eval_symlinks path ≡ got c
        → contains cs c ≡ false
        → permits files path ≡ true
        → Answer path cs (some (got (some s), some (cs ++ c ∷ [])))

  -- The answer of a turn, with what holds of the files that were read behind it.
  pub data Taken (cs : List Bytes) (P : List Bytes → Type 0) : Option (Turn × Seen) → Type 0 where
    no_turn : Taken cs P none
    has_stopped : {e : _} {seen : Seen} → Taken cs P (some (stops e, seen))
    was_skipped :
        {path : Bytes} {e : ReadError} → P cs → Taken cs P (some (skipped path e, some cs))
    nothing_kept : P cs → Taken cs P (some (kept none, some cs))
    source_kept :
        {s : FileSource} {c : Bytes}
        → fs.eval_symlinks s.target ≡ got c
        → contains cs c ≡ false
        → permits files s.target ≡ true
        → P (cs ++ c ∷ [])
        → Taken cs P (some (kept (some s), some (cs ++ c ∷ [])))

  Answer-if :
      (path : Bytes) (cs : List Bytes) (b : Bool) (x y : Option (Result (Option FileSource) × Seen))
      → (b ≡ true → Answer path cs x)
      → (b ≡ false → Answer path cs y)
      → Answer path cs (if b then x else y)
  Answer-if path cs true x y h k = h refl
  Answer-if path cs false x y h k = k refl

  Taken-if :
      (cs : List Bytes) (P : List Bytes → Type 0) (b : Bool) (x y : Option (Turn × Seen))
      → Taken cs P x
      → Taken cs P y
      → Taken cs P (if b then x else y)
  Taken-if cs P true x y h k = h
  Taken-if cs P false x y h k = k

  module _ (tail modified_after : ℕ) where
    source_target :
        (path : Bytes) (ls : List Bytes)
        → (source_of fs files tail modified_after path ls).target ≡ path
    source_target path ls = elim (Bool-cases (ltb 0 tail)) [ inl e ↦ rw e | inr e ↦ rw e ]

    finished-Answer :
        (path c : Bytes) (cs : List Bytes) (o : Option (Result (List Bytes)))
        → fs.eval_symlinks path ≡ got c
        → contains cs c ≡ false
        → permits files path ≡ true
        → Answer path cs (finished fs files tail modified_after path c (some cs) o)
    finished-Answer path c cs none e n p = no_answer
    finished-Answer path c cs (some (lost x)) e n p = not_read
    finished-Answer path c cs (some (got ls)) e n p = read_now (source_target path ls) e n p

    content-Answer :
        (path : Bytes) (cs : List Bytes) (h : Handle) (info : Info) (c : Bytes) (o : Result Reader)
        → fs.eval_symlinks path ≡ got c
        → contains cs c ≡ false
        → permits files path ≡ true
        → Answer path cs (read_content fs files tail modified_after path (some cs) h info c o)
    content-Answer path cs h info c (lost x) e n p = not_read
    content-Answer path cs h info c (got r) e n p =
        finished-Answer path c cs (content_lines fs files tail modified_after h info r) e n p

    canonical-Answer :
        (path : Bytes) (cs : List Bytes) (h : Handle) (info : Info) (o : Result Bytes)
        → fs.eval_symlinks path ≡ o
        → permits files path ≡ true
        → Answer path cs (read_canonical fs files tail modified_after path (some cs) h info o)
    canonical-Answer path cs h info (lost x) e p = not_read
    canonical-Answer path cs h info (got c) e p =
        Answer-if path cs (contains cs c) (some (got none, some cs)) _ (λ t. read_before (c, e, t))
          (λ n. content-Answer path cs h info c h.reader e n p)

    regular-Answer :
        (path : Bytes) (cs : List Bytes) (h : Handle) (o : Result Info)
        → permits files path ≡ true
        → Answer path cs (read_regular fs files tail modified_after path (some cs) h o)
    regular-Answer path cs h (lost x) p = not_read
    regular-Answer path cs h (got info) p =
        Answer-if path cs (not info.regular) (some (lost _, some cs)) _ (λ t. not_read)
          (λ n. canonical-Answer path cs h info (fs.eval_symlinks path) refl p)

    pub read_file-Answer :
        (path : Bytes) (cs : List Bytes)
        → Answer path cs (read_file fs files tail modified_after path (some cs))
    unfolding read_file
    read_file-Answer path cs = opened (open_file fs.open_in files path) refl
      where
        opened :
            (o : Outcome Handle)
            → open_file fs.open_in files path ≡ o
            → Answer path cs
                (read_opened fs files tail modified_after path (some cs) (of_outcome o))
        opened (failure e) h = not_read
        opened (success f) h =
            regular-Answer path cs f f.stat (open_file-permits fs.open_in files path f h)

    skip_or_stop-Taken :
        (cs : List Bytes) (path : Bytes) (e : ReadError)
        → Taken cs
            (λ ds. Unit {0})
            (some (skip_or_stop fs files tail modified_after path e, some cs))
    skip_or_stop-Taken cs path e = either (skip e)
      where
        either :
            (b : Bool)
            → Taken cs
                (λ ds. Unit {0})
                (some ((if b then skipped path e else stops (file_error path e)), some cs))
        either true = was_skipped tt
        either false = has_stopped

    turn_read-Taken :
        (path : Bytes) (cs : List Bytes) (o : Option (Result (Option FileSource) × Seen))
        → Answer path cs o
        → Taken cs (λ ds. Unit {0}) (turn_read fs files tail modified_after path o)
    turn_read-Taken path cs _ no_answer = no_turn
    turn_read-Taken path cs _ (not_read {e = e}) = skip_or_stop-Taken cs path e
    turn_read-Taken path cs _ (read_before f) = nothing_kept tt
    turn_read-Taken path cs _ (read_now t e n p) = source_kept (rw t e) n (rw t p) tt

    pub turn_of-Taken :
        (path : Bytes) (cs : List Bytes) (o : Option (Result (Option FileSource) × Seen))
        → Answer path cs o
        → Taken cs (Found fs path) (turn_of fs files tail modified_after path o)
    turn_of-Taken path cs _ no_answer = no_turn
    turn_of-Taken path cs _ (not_read {e = e}) = has_stopped
    turn_of-Taken path cs _ (read_before f) = nothing_kept f
    turn_of-Taken path cs _ (read_now {c = c} t e n p) =
        source_kept (rw t e) n (rw t p) (c, e, contains_last cs c)

    match-Taken :
        (path : Bytes) (cs : List Bytes) (o : Result Info)
        → Taken cs (λ ds. Unit {0}) (match_regular fs files tail modified_after path (some cs) o)
    match-Taken path cs (lost e) = skip_or_stop-Taken cs path e
    match-Taken path cs (got info) =
        Taken-if cs _ (not info.regular) (some (skipped path _, some cs)) _ (was_skipped tt) (
          Taken-if cs _ (ltb info.modified modified_after) (some (kept none, some cs)) _
            (nothing_kept tt) (turn_read-Taken path cs _ (read_file-Answer path cs)))

    pub match_turn-Taken :
        (path : Bytes) (cs : List Bytes)
        → Taken cs (λ ds. Unit {0}) (match_turn fs files tail modified_after path (some cs))
    unfolding match_turn
    match_turn-Taken path cs = opened (of_outcome (open_file fs.open_in files path))
      where
        opened :
            (o : Result Handle)
            → Taken cs (λ ds. Unit {0}) (match_opened fs files tail modified_after path (some cs) o)
        opened (lost e) = skip_or_stop-Taken cs path e
        opened (got h) = match-Taken path cs h.stat
