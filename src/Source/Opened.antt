-- ===== src/Source/Opened.antt =====
-- The files that ReadFiles opens, the errors it meets, and which of them it skips (fileReason, fileError
-- and skip of internal/source/file.go).
use aken.Base.{
  ℕ, Bool, true, false, ◌&&◌, ◌||◌, not, Option, List, Bytes, ◌==◌, bytes_eq, if◌then◌else◌, length,
  take,
}
use aken.Encoding.Alphabet.{codes}
use aken.Source.Scope.{
  OsError, not_exist, no_permission, other_error, not_clean, outside_allowed, Outcome, success,
  failure,
}

-- An error with what the program looks at: an error of Open, errNotRegular, or another with its text.
pub data ReadError : Type 0 where
  os_error : OsError → ReadError
  not_regular : ReadError
  plain_error : Bytes → ReadError

pub data Result {ℓ} (A : Type ℓ) : Type ℓ where
  got : A → Result A
  lost : ReadError → Result A

-- What Stat says of an open file, and what stands behind decompress: the content, and whether reading
-- fails behind it.
pub record Info : Type 0 where
  pub regular : Bool
  pub modified : ℕ
  pub size : ℕ

pub record Reader : Type 0 where
  pub compressed : Bool
  pub breaks : Bool
  pub content : Bytes

-- An open file. `read_error` is the error of a read that fails, after readError.
pub record Handle : Type 0 where
  pub stat : Result Info
  pub reader : Result Reader
  pub read_at : ℕ → ℕ → Option Bytes
  pub read_error : ReadError

pub record FileSystem : Type 0 where
  -- os.OpenRoot of a directory and OpenFile of a path in it
  pub open_in : Bytes → Bytes → Outcome Handle
  pub eval_symlinks : Bytes → Result Bytes
  -- filepath.Glob
  pub glob : Bytes → Result (List Bytes)

-- What ReadFile and its like return as an error: the cause alone, that the path leaves the allowed
-- directories, or that it cannot be read.
pub data FileError : Type 0 where
  as_it_is : ReadError → FileError
  refusing : Bytes → FileError
  cannot_read : Bytes → ReadError → FileError

abbrev starts_with : Bytes → Bytes → Bool
starts_with prefix s = take (length prefix) s == prefix

-- The reason that fileReason gives begins with "it is a symlink".
abbrev link_reason : Bytes → Bool
link_reason t = t == codes "path escapes from parent" || starts_with (codes "it is a symlink") t

unfoldable pub is_link : ReadError → Bool
is_link (os_error (other_error t)) = link_reason t
is_link (plain_error t) = link_reason t
is_link _ = false

-- An *os.PathError: Open's own errors are not.
abbrev pub is_path_error : ReadError → Bool
is_path_error (os_error not_clean) = false
is_path_error (os_error outside_allowed) = false
is_path_error (os_error _) = true
is_path_error _ = false

abbrev pub is_not_regular : ReadError → Bool
is_not_regular not_regular = true
is_not_regular _ = false

-- fileError of an error
unfoldable pub file_error : Bytes → ReadError → FileError
unfolding is_link
file_error path e =
    if not (is_path_error e) && not (is_not_regular e)
    then as_it_is e
    else if is_link e
    then refusing path
    else cannot_read path e

abbrev pub is_missing : ReadError → Bool
is_missing (os_error not_exist) = true
is_missing (os_error no_permission) = true
is_missing not_regular = true
is_missing _ = false

-- skip
unfoldable pub skip : ReadError → Bool
unfolding is_link
skip e = is_missing e || is_link e

abbrev pub of_outcome : {A : Type 0} → Outcome A → Result A
of_outcome (success a) = got a
of_outcome (failure e) = lost (os_error e)
