-- ===== src/Jobs/Resolve.antt =====
-- `resolve`, `scopeGrant`, `pathGrant` and `outsideScope` of internal/serve/jobs.go. The file system
-- is a parameter.
pub mod Granted
use aken.Base.{
  ℕ, Bool, true, false, ◌&&◌, ◌||◌, not, Option, none, some, List, [], ◌∷◌, ◌++◌, String, Bytes,
  ◌==◌, bytes_eq, if◌then◌else◌, is_empty,
}
use mathlib.Core.List.{reverse}
use aken.Source.Paths.{is_abs, cleaned, clean, render, dir, joined, dot}
use aken.Source.Scope.{
  Files, OsError, not_exist, no_permission, other_error, not_clean, outside_allowed, Outcome,
  success, failure, OpenFile, permits, open_file,
}

-- An error of `prepare` or `execute`. The text of `failed` is of the cause: that a file is not there,
-- that it may not be read, or what the system says.
pub data JobError : Type 0 where
  outside_scope : Bytes → List Bytes → JobError
  job_error : String → JobError
  failed : String → OsError → JobError

pub data Attempt {ℓ} (A : Type ℓ) : Type ℓ where
  done : A → Attempt A
  refused : JobError → Attempt A

-- The parts of packages os and path/filepath that look at the file system.
pub record FileSystem : Type 0 where
  -- os.OpenRoot of a directory and OpenFile of a path in it
  pub open_in : Bytes → Bytes → Outcome OpenFile
  pub eval_symlinks : Bytes → Outcome Bytes
  -- os.Stat: whether it is a directory
  pub stat : Bytes → Outcome Bool
  -- os.Lstat
  pub lstat : Bytes → Outcome (Unit {0})
  -- filepath.Glob, none for a bad pattern
  pub glob : Bytes → Option (List Bytes)

abbrev pub outside : Files → Bytes → Bool → JobError
outside files path is_dir = outside_scope (if is_dir then path else dir path) files.allowed

module _ (fs : FileSystem) where
  -- The forms of a path that a grant has to cover.
  abbrev pub forms : Bytes → String → Outcome Bytes → Attempt (List Bytes)
  forms path what (failure e) = refused (job_error what)
  forms path what (success canonical) =
      if canonical == path then done (path ∷ []) else done (path ∷ canonical ∷ [])

  abbrev pub grant_directory : Bytes → Outcome Bool → Attempt (List Bytes)
  grant_directory path (failure not_exist) = refused (job_error "the directory does not exist")
  grant_directory path (failure e) = refused (job_error "the directory cannot be read")
  grant_directory path (success is_dir) =
      if is_dir
      then forms path "the directory cannot be resolved" (fs.eval_symlinks path)
      else refused (job_error "it is not a directory")

  -- scopeGrant
  unfoldable pub scope_grant : Bytes → Attempt (List Bytes)
  scope_grant path = grant_directory path (fs.stat path)

  abbrev pub grant_name : Bytes → Outcome (Unit {0}) → Attempt (List Bytes)
  grant_name path (failure not_exist) = refused (job_error "the path does not exist")
  grant_name path (failure e) = refused (job_error "the path cannot be read")
  grant_name path (success u) = forms path "the path cannot be resolved" (fs.eval_symlinks path)

  -- pathGrant
  unfoldable pub path_grant : Bytes → Attempt (List Bytes)
  path_grant path =
      if dir path == path
      then refused (job_error "it is a filesystem root")
      else grant_name path (fs.lstat path)

  -- The parts behind a directory that was resolved: Join of it and of the way to the path.
  abbrev pub rejoined : Bytes → List Bytes → Bytes
  rejoined resolved rest = clean (resolved ++ b'/' ∷ (if is_empty rest then dot else joined rest))

  abbrev pub at_root : List Bytes → Outcome Bytes → Attempt Bytes
  at_root rest (success resolved) = done (rejoined resolved rest)
  at_root rest (failure e) = refused (job_error "path cannot be resolved")

  abbrev pub or_above : List Bytes → Attempt Bytes → Outcome Bytes → Attempt Bytes
  or_above rest above (success resolved) = done (rejoined resolved rest)
  or_above rest above (failure not_exist) = above
  or_above rest above (failure e) = refused (job_error "path cannot be resolved")

  -- The loop over the parents of a path that is not there: `up` are the parts of the parent, the last
  -- one first, and `rest` those between it and the path.
  unfoldable pub climb : List Bytes → List Bytes → Attempt Bytes
  climb [] rest = at_root rest (fs.eval_symlinks (render (record { rooted = true; parts = [] })))
  climb (p ∷ up) rest =
      or_above rest (climb up (p ∷ rest))
        (fs.eval_symlinks (render (record { rooted = true; parts = reverse (p ∷ up) })))

  abbrev pub climb_from : List Bytes → Attempt Bytes
  climb_from [] = climb [] []
  climb_from (p ∷ up) = climb up (p ∷ [])

  -- The canonical form of a clean absolute path.
  unfoldable pub canonical_of : Bytes → Outcome Bytes → Attempt Bytes
  canonical_of path (success canonical) = done canonical
  canonical_of path (failure not_exist) = climb_from (reverse (cleaned path).parts)
  canonical_of path (failure e) = refused (job_error "path cannot be resolved")

  abbrev pub within_scope : Files → Attempt Bytes → Attempt Bytes
  within_scope files (refused e) = refused e
  within_scope files (done canonical) =
      if permits files canonical
      then done canonical
      else refused (job_error "path resolves outside the scope through a link")

  -- A file that is not there may be resolved, and any other failure to open it ends `resolve`.
  abbrev pub if_opened : Outcome OpenFile → Attempt Bytes → Attempt Bytes
  if_opened (success f) next = next
  if_opened (failure not_exist) next = next
  if_opened (failure e) next = refused (failed "path cannot be opened inside the scope" e)

  -- The part of `resolve` behind its checks of the path itself.
  unfoldable pub resolve_clean : Files → Bytes → Bool → Attempt Bytes
  resolve_clean files path is_dir =
      if not (permits files path)
      then refused (outside files path is_dir)
      else if_opened (open_file fs.open_in files path)
          (within_scope files (canonical_of path (fs.eval_symlinks path)))

  -- resolve
  unfoldable pub resolve : Files → Bytes → Bool → Attempt Bytes
  resolve files path is_dir =
      if not (is_abs path)
      then refused (job_error "path must be absolute")
      else resolve_clean files (clean path) is_dir
