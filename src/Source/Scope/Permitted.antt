-- ===== src/Source/Scope/Permitted.antt =====
-- What Permits and Open (internal/source/file.go) let through, by the parts of the paths.
use aken.Base.{
  Bool, true, false, ◌||◌, List, [], ◌∷◌, Bytes, bytes_eq, ◌≡◌, refl, sym, ◌∙◌, ◌↔◌, ◌⊎◌, inl, inr,
  All, any, contains, not, ◌==◌, Bool-cases, arith,
}
use aken.Source.Paths.{is_abs, clean, cleaned, rel, rel_left, after_common}
use aken.Source.Paths.Inside.{stays, cleaned-NoUp, stays-Prefix, Prefix-stays, Prefix}
use aken.Source.Scope.{
  Outcome, OsError, success, failure, open_file, open_allowed, Files, under, permits,
}

false_not_true : false ≡ true → ⊥
false_not_true h = cc

or_cases : (a b : Bool) → (a || b) ≡ true → (a ≡ true) ⊎ (b ≡ true)
or_cases true b h = inl refl
or_cases false b h = inr h

or_right : (a : Bool) {b : Bool} → b ≡ true → (a || b) ≡ true
or_right true h = refl
or_right false h = h

-- A path lies in a directory: its parts begin with those of the directory.
abbrev pub Within : Bytes → Bytes → Type 0
Within d path = Prefix (cleaned d).parts (cleaned path).parts

rooted-cleaned : (path : Bytes) → (cleaned path).rooted ≡ is_abs path
unfolding cleaned
rooted-cleaned path = refl

under-cleaned :
    (d path : Bytes)
    → is_abs d ≡ true
    → is_abs path ≡ true
    → under d path ≡ stays (rel_left (after_common (cleaned d).parts (cleaned path).parts))
unfolding under rel
under-cleaned d path h k =
    let base : (cleaned d).rooted ≡ true = rooted-cleaned d ∙ h in
    let targ : (cleaned path).rooted ≡ true = rooted-cleaned path ∙ k in rw (base, targ)

pub under-Within :
    (d path : Bytes) → is_abs d ≡ true → is_abs path ≡ true → (under d path ≡ true) ↔ Within d path
under-Within d path h k =
    let eq = under-cleaned d path h k in
    (
      λ u. stays-Prefix (cleaned d).parts (cleaned path).parts (cleaned-NoUp path k) (sym eq ∙ u),
      λ (rest, e). eq ∙ rw e (Prefix-stays (cleaned d).parts rest (rw e at (cleaned-NoUp path k))),
    )

-- The path is granted by name, or lies in an allowed directory.
abbrev pub WithinSome : List Bytes → Bytes → Type 0
WithinSome [] path = ⊥
WithinSome (d ∷ ds) path = Within d path ⊎ WithinSome ds path

abbrev pub InScope : Files → Bytes → Type 0
InScope files path = (contains files.paths path ≡ true) ⊎ WithinSome files.allowed path

any-WithinSome :
    (ds : List Bytes) (path : Bytes)
    → All (λ d. is_abs d ≡ true) ds
    → is_abs path ≡ true
    → (any (λ d. under d path) ds ≡ true) ↔ WithinSome ds path
any-WithinSome [] path h k = (λ u. absurd (false_not_true u), λ u. absurd u)
any-WithinSome (d ∷ ds) path h k = (
  λ u. elim (or_cases (under d path) (any (λ d. under d path) ds) u) [
    | inl here ↦ inl ((under-Within d path h.0 k).0 here)
    | inr there ↦ inr ((any-WithinSome ds path h.1 k).0 there)
  ],
  λ w. elim w [
    | inl here ↦ rw ((under-Within d path h.0 k).1 here)
    | inr there ↦ or_right (under d path) ((any-WithinSome ds path h.1 k).1 there)
  ],
)

-- `Permits` of an absolute path, where the allowed directories are absolute: it says yes exactly when
-- the path is one of the granted names, or its cleaned parts begin with all the cleaned parts of an
-- allowed directory, so that neither ".." nor a name that only begins like a directory gets out.
pub permits-InScope :
    (files : Files) (path : Bytes)
    → All (λ d. is_abs d ≡ true) files.allowed
    → is_abs path ≡ true
    → (permits files path ≡ true) ↔ InScope files path
unfolding permits
permits-InScope files path h k = (
  λ u. elim (or_cases (contains files.paths path) (any (λ d. under d path) files.allowed) u) [
    | inl here ↦ inl here
    | inr there ↦ inr ((any-WithinSome files.allowed path h k).0 there)
  ],
  λ w. elim w [
    | inl here ↦ rw here
    | inr there ↦
        or_right (contains files.paths path) ((any-WithinSome files.allowed path h k).1 there)
  ],
)

module _ {A : Type 0} (open_in : Bytes → Bytes → Outcome A) (files : Files) (path : Bytes) where
  failed_opened : {e : OsError} {a : A} → failure e ≡ success a → ⊥
  failed_opened h = ground arith

  allowed-permits :
      (ds : List Bytes) (a : A)
      → open_allowed open_in files ds path ≡ success a
      → (contains files.paths path || any (λ d. under d path) ds) ≡ true
  allowed-permits [] a h = elim (Bool-cases (contains files.paths path)) [
    | inl e ↦ rw e
    | inr e ↦ absurd (failed_opened (rw e at h))
  ]
  allowed-permits (d ∷ ds) a h = elim (Bool-cases (under d path)) [
    | inl e ↦ ground arith
    | inr e ↦ rw e (allowed-permits ds a (rw e at h))
  ]

  -- What is opened is permitted.
  pub open_file-permits :
      (a : A) → open_file open_in files path ≡ success a → permits files path ≡ true
  unfolding open_file permits
  open_file-permits a h = elim (Bool-cases (not (is_abs path) || not (clean path == path))) [
    | inl e ↦ absurd (failed_opened (rw e at h))
    | inr e ↦ allowed-permits files.allowed a (rw e at h)
  ]
