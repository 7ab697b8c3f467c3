-- ===== src/Jobs/Resolve/Granted.antt =====
-- What `resolve` and the grants of internal/serve/jobs.go let through.
use aken.Base.{
  Bool, true, false, List, [], ◌∷◌, Bytes, ◌≡◌, refl, inl, inr, Bool-cases, if◌then◌else◌, bytes_eq,
}
use aken.Source.Paths.{is_abs, clean, dir}
use aken.Source.Scope.{
  Files, Outcome, OpenFile, success, failure, not_exist, no_permission, other_error, not_clean,
  outside_allowed, permits, open_file,
}
use aken.Jobs.Resolve.{
  outside_scope, job_error, failed, Attempt, done, refused, FileSystem, within_scope, if_opened,
  canonical_of, climb, climb_from, or_above, at_root, resolve_clean, resolve,
}

-- What an answer of `resolve` says: a path that the scope permits, that the scope lacks the path, or
-- another error.
abbrev pub Answers : Files → Bytes → Bool → Attempt Bytes → Type 0
Answers files path is_dir (done canonical) =
    (permits files path ≡ true) × (permits files canonical ≡ true)
Answers files path is_dir (refused (outside_scope directory scope)) =
    (permits files path ≡ false)
    × (directory ≡ (if is_dir then path else dir path))
    × (scope ≡ files.allowed)
Answers files path is_dir (refused (job_error what)) = Unit
Answers files path is_dir (refused (failed what e)) = Unit

-- A refusal that is not for the scope.
abbrev Other : Attempt Bytes → Type 0
Other (done c) = Unit
Other (refused (outside_scope d s)) = ⊥
Other (refused (job_error what)) = Unit
Other (refused (failed what e)) = Unit

module _ (fs : FileSystem) where
  at_root-Other : (rest : List Bytes) (o : Outcome Bytes) → Other (at_root fs rest o)
  at_root-Other rest (success r) = tt
  at_root-Other rest (failure e) = tt

  or_above-Other :
      (rest : List Bytes) (above : Attempt Bytes) (o : Outcome Bytes)
      → Other above
      → Other (or_above fs rest above o)
  or_above-Other rest above (success r) h = tt
  or_above-Other rest above (failure not_exist) h = h
  or_above-Other rest above (failure no_permission) h = tt
  or_above-Other rest above (failure (other_error t)) h = tt
  or_above-Other rest above (failure not_clean) h = tt
  or_above-Other rest above (failure outside_allowed) h = tt

  climb-Other : (up rest : List Bytes) → Other (climb fs up rest)
  unfolding climb
  climb-Other [] rest = at_root-Other rest _
  climb-Other (p ∷ up) rest =
      or_above-Other rest (climb fs up (p ∷ rest)) _ (climb-Other up (p ∷ rest))

  climb_from-Other : (up : List Bytes) → Other (climb_from fs up)
  climb_from-Other [] = climb-Other [] []
  climb_from-Other (p ∷ up) = climb-Other up (p ∷ [])

  canonical_of-Other : (path : Bytes) (o : Outcome Bytes) → Other (canonical_of fs path o)
  unfolding canonical_of
  canonical_of-Other path (success c) = tt
  canonical_of-Other path (failure not_exist) = climb_from-Other _
  canonical_of-Other path (failure no_permission) = tt
  canonical_of-Other path (failure (other_error t)) = tt
  canonical_of-Other path (failure not_clean) = tt
  canonical_of-Other path (failure outside_allowed) = tt

  module _ (files : Files) (path : Bytes) (is_dir : Bool) (inside : permits files path ≡ true) where
    within_scope-Answers :
        (a : Attempt Bytes) → Other a → Answers files path is_dir (within_scope fs files a)
    within_scope-Answers (refused (outside_scope d s)) h = absurd h
    within_scope-Answers (refused (job_error what)) h = tt
    within_scope-Answers (refused (failed what e)) h = tt
    within_scope-Answers (done c) h = elim (Bool-cases (permits files c)) [
      | inl e ↦ rw e (inside, e)
      | inr e ↦ rw e tt
    ]

    if_opened-Answers :
        (o : Outcome OpenFile) (next : Attempt Bytes)
        → Answers files path is_dir next
        → Answers files path is_dir (if_opened fs o next)
    if_opened-Answers (success f) next h = h
    if_opened-Answers (failure not_exist) next h = h
    if_opened-Answers (failure no_permission) next h = tt
    if_opened-Answers (failure (other_error t)) next h = tt
    if_opened-Answers (failure not_clean) next h = tt
    if_opened-Answers (failure outside_allowed) next h = tt

  resolve_clean-Answers :
      (files : Files) (path : Bytes) (is_dir : Bool)
      → Answers files path is_dir (resolve_clean fs files path is_dir)
  unfolding resolve_clean
  resolve_clean-Answers files path is_dir = elim (Bool-cases (permits files path)) [
    | inl e ↦ rw e (
        if_opened-Answers files path is_dir e (open_file fs.open_in files path) _ (
          within_scope-Answers files path is_dir e (canonical_of fs path (fs.eval_symlinks path))
            (canonical_of-Other path (fs.eval_symlinks path))))
    | inr e ↦ rw e (e, refl, refl)
  ]

  -- Every answer of `resolve`, whatever the file system holds: where it gives a path, the scope permits
  -- both the cleaned path that was asked for and the path that it gives; where it says that a path
  -- is outside the scope, the scope does not permit the cleaned path, and the error names the
  -- directory to allow and the directories that are allowed.
  pub resolve-Answers :
      (files : Files) (path : Bytes) (is_dir : Bool)
      → Answers files (clean path) is_dir (resolve fs files path is_dir)
  unfolding resolve
  resolve-Answers files path is_dir = elim (Bool-cases (is_abs path)) [
    | inl e ↦ rw e (resolve_clean-Answers files (clean path) is_dir)
    | inr e ↦ rw e tt
  ]
