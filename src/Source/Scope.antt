-- ===== src/Source/Scope.antt =====
-- Files, what it permits, and how it opens a file (internal/source/file.go). The file system is a
-- parameter: what opening a name in a directory gives.
pub mod Permitted
use aken.Base.{
  ℕ, Bool, true, false, ◌&&◌, ◌||◌, not, Option, none, some, List, [], ◌∷◌, ◌++◌, String, Bytes,
  ◌==◌, bytes_eq, if◌then◌else◌, any, contains,
}
use aken.Source.Paths.{is_abs, cleaned, clean, dir, rel}
use aken.Source.Paths.Inside.{stays}

-- Files, with the scope of a session: the directories and the single names that may be read.
pub record Files : Type 0 where
  pub allowed : List Bytes
  pub paths : List Bytes

-- The causes of an error of package os that the program tells apart.
pub data OsError : Type 0 where
  not_exist : OsError
  no_permission : OsError
  other_error : Bytes → OsError
  -- an error of the program's own: that a path is not clean, or outside the allowed directories
  not_clean : OsError
  outside_allowed : OsError

pub data Outcome {ℓ} (A : Type ℓ) : Type ℓ where
  success : A → Outcome A
  failure : OsError → Outcome A

-- An open file: what Stat says of it, and its text behind decompress with whether reading fails
-- behind that; none if decompress fails.
pub record OpenFile : Type 0 where
  pub regular : Bool
  pub modified : ℕ
  pub text : Option (Bool × Bytes)

-- under: the text of Rel is ".." or begins with "../" where its first part is "..".
unfoldable pub under : Bytes → Bytes → Bool
under directory path = stays (rel (cleaned directory) (cleaned path))

-- Files.Permits
unfoldable pub permits : Files → Bytes → Bool
permits files path = contains files.paths path || any (λ d. under d path) files.allowed

-- Opening, with what the file system gives for a name in a directory.
module _ {A : Type 0} (open_in : Bytes → Bytes → Outcome A) where
  abbrev open_granted : Files → Bytes → Outcome A
  open_granted files path =
      if contains files.paths path && not (dir path == path)
      then open_in (dir path) path
      else failure outside_allowed

  abbrev open_allowed : Files → List Bytes → Bytes → Outcome A
  open_allowed files [] path = open_granted files path
  open_allowed files (d ∷ ds) path =
      if under d path then open_in d path else open_allowed files ds path

  -- Files.Open
  unfoldable pub open_file : Files → Bytes → Outcome A
  open_file files path =
      if not (is_abs path) || not (clean path == path)
      then failure not_clean
      else open_allowed files files.allowed path

module _ (open_in : Bytes → Bytes → Outcome OpenFile) where
  abbrev pub regular_text : Outcome OpenFile → Option (Bool × Bytes)
  regular_text (failure e) = none
  regular_text (success f) = if f.regular then f.text else none

  -- Files.open, as far as its reader: none is an error.
  unfoldable pub open_text : Files → Bytes → Option (Bool × Bytes)
  open_text files path = regular_text (open_file open_in files path)
