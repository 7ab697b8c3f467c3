-- ===== src/Jobs/Expand.antt =====
-- `sensitive` and `expand` of internal/serve/jobs.go.
pub mod Found
use aken.Base.{
  ℕ, Bool, true, false, ◌&&◌, ◌||◌, not, Option, none, some, List, [], ◌∷◌, ◌++◌, String, Bytes,
  ◌==◌, bytes_eq, eqb, ltb, if◌then◌else◌, is_empty, any, contains, length, drop, ◌-◌,
}
use aken.Encoding.Alphabet.{codes}
use aken.Protocol.Api.{has_prefix}
use aken.Source.Lines.{split}
use aken.Source.Paths.{is_abs, cleaned, clean, dir, dot}
use aken.Source.Scope.{Files, Outcome, success, failure, OpenFile, open_file}
use aken.Jobs.Resolve.{JobError, job_error, Attempt, done, refused, FileSystem, resolve}

abbrev pub last_named : Bytes → List Bytes → Bytes
last_named p [] = p
last_named p (q ∷ qs) = last_named (if is_empty q then p else q) qs

-- filepath.Base
unfoldable pub base : Bytes → Bytes
unfolding split
base path =
    if is_empty path
    then dot
    else (let name = last_named [] (split b'/' path) in if is_empty name then b'/' ∷ [] else name)

-- strings.HasSuffix
abbrev pub has_suffix : Bytes → Bytes → Bool
has_suffix s suffix = drop (length s - length suffix) s == suffix

abbrev pub secret_directories : List Bytes
secret_directories = codes ".ssh" ∷ codes ".gnupg" ∷ codes ".aws" ∷ []

abbrev pub secret_suffixes : List Bytes
secret_suffixes =
    codes ".pem"
    ∷ codes ".key"
    ∷ codes ".p12"
    ∷ codes ".pfx"
    ∷ codes ".kdbx"
    ∷ codes ".keystore"
    ∷ codes "_rsa"
    ∷ codes "_ed25519"
    ∷ codes "_ecdsa"
    ∷ codes "_dsa"
    ∷ []

abbrev pub is_secret_name : Bytes → Bool
is_secret_name name =
    name == codes ".env"
    || has_prefix name (codes ".env.")
    || name == codes "shadow"
    || name == codes "gshadow"
    || has_prefix name (codes "id_")
    || any (λ s. has_suffix name s) secret_suffixes

-- sensitive: a part of the path names a directory of secrets, or its last part a file of them.
unfoldable pub sensitive : Bytes → Bool
unfolding base split clean
sensitive path =
    any (λ part. contains secret_directories part) (split b'/' (clean path))
    || is_secret_name (base path)

-- The pattern before the first of "*?[\".
abbrev pub is_magic : ℕ → Bool
is_magic c = eqb c b'*' || eqb c b'?' || eqb c b'[' || eqb c 92

unfoldable pub fixed_part : Bytes → Bytes
fixed_part [] = []
fixed_part (c ∷ s) = let rest = fixed_part s in if is_magic c then [] else c ∷ rest

abbrev pub keeps_file : ℕ → Outcome OpenFile → Bool
keeps_file since (failure e) = false
keeps_file since (success f) = f.regular && not (ltb f.modified since)

module _ (fs : FileSystem) (files : Files) (since : ℕ) where
  -- What a match adds to the paths, if anything; `seen` holds exactly the paths that were added.
  abbrev pub addition : List Bytes → Attempt Bytes → Option Bytes
  addition paths (refused e) = none
  addition paths (done path) =
      if not (contains paths path) && keeps_file since (open_file fs.open_in files path)
      then some path
      else none

  abbrev pub with_addition : List Bytes → Option Bytes → List Bytes
  with_addition paths none = paths
  with_addition paths (some path) = paths ++ path ∷ []

  -- The loop over the matches.
  unfoldable pub expand_matches : List Bytes → List Bytes → Attempt (List Bytes)
  expand_matches paths [] = done paths
  expand_matches paths (m ∷ ms) =
      let longer = with_addition paths (addition paths (resolve fs files m false)) in
      let rest = expand_matches longer ms in
      if ltb 200 (length longer)
      then refused (job_error "glob matches more than 200 files")
      else rest

  abbrev pub expand_found : Option (List Bytes) → Attempt (List Bytes)
  expand_found none = refused (job_error "invalid glob")
  expand_found (some matches) = expand_matches [] matches

  abbrev pub if_resolved : Attempt Bytes → Attempt (List Bytes) → Attempt (List Bytes)
  if_resolved (refused e) next = refused e
  if_resolved (done path) next = next

  -- expand
  unfoldable pub expand : Bytes → Attempt (List Bytes)
  expand pattern =
      if not (is_abs pattern)
      then refused (job_error "glob must be absolute")
      else if_resolved (resolve fs files (dir (fixed_part pattern)) true)
          (expand_found (fs.glob pattern))
