-- ===== src/Jobs/Expand/Found.antt =====
-- The paths that `expand` (internal/serve/jobs.go) turns a glob into.
use aken.Base.{
  ℕ, ◌≤◌, ◌≡◌, sym, ap, ◌∙◌, inl, inr, Bool, true, false, ◌&&◌, not, Option, none, some, List, [],
  ◌∷◌, Bytes, ltb, contains, Distinct, Distinct-append, length, Bool-cases, Option-cases, All,
  All-append, arith, bytes_eq, some_inj, subst,
}
use aken.Source.Paths.{is_abs, dir}
use aken.Source.Scope.{Files, permits, open_file}
use aken.Jobs.Resolve.{JobError, Attempt, done, refused, FileSystem, resolve}
use aken.Jobs.Resolve.Granted.{resolve-Answers}
use aken.Jobs.Expand.{
  addition, with_addition, keeps_file, expand_matches, expand_found, if_resolved, expand,
  fixed_part,
}

-- What `expand` may answer.
pub record Expanded (files : Files) (paths : List Bytes) : Type 0 where
  pub permitted : All (λ p. permits files p ≡ true) paths
  pub distinct : Distinct paths
  pub few : length paths ≤ 200

module _ (files : Files) where
  resolved_permitted :
      (fs : FileSystem) (path canonical : Bytes)
      → resolve fs files path false ≡ done canonical
      → permits files canonical ≡ true
  resolved_permitted fs path canonical e =
      let answer = rw e at (resolve-Answers fs files path false) in answer.1

abbrev done_or {ℓ} : {A : Type ℓ} → A → Attempt A → A
done_or d (done a) = a
done_or d (refused e) = d

pub done_inj {ℓ} : {A : Type ℓ} {a b : A} → done a ≡ done b → a ≡ b
done_inj {a} h = ap (done_or a) h

pub refused_done {ℓ} : {A : Type ℓ} {e : JobError} {a : A} → refused e ≡ done a → ⊥
refused_done h = ground arith

module _ (fs : FileSystem) (files : Files) (since : ℕ) where
  addition-new :
      (paths : List Bytes) (a : Attempt Bytes) (path : Bytes)
      → addition fs files since paths a ≡ some path
      → (a ≡ done path) × (contains paths path ≡ false)
  addition-new paths (refused e) path h = ground arith
  addition-new paths (done p) path h =
      elim (Bool-cases
        (not (contains paths p) && keeps_file since (open_file fs.open_in files p))) [
          | inl e ↦
              let same : p ≡ path = some_inj (rw e at h) in
              (ap done same, ap (contains paths) (sym same) ∙ not_first (contains paths p) _ e)
          | inr e ↦ absurd (none_some (rw e at h))
        ]
    where
      not_first : (a b : Bool) → (not a && b) ≡ true → a ≡ false
      not_first a b h = ground arith

      none_some : none ≡ some path → ⊥
      none_some h = ground arith

  with_addition-Expanded :
      (paths : List Bytes) (m : Bytes)
      → All (λ p. permits files p ≡ true) paths
      → Distinct paths
      → let longer =
          with_addition fs files since paths
            (addition fs files since paths (resolve fs files m false)) in
        All (λ p. permits files p ≡ true) longer × Distinct longer
  with_addition-Expanded paths m h d =
      elim (Option-cases (addition fs files since paths (resolve fs files m false))) [
        | inl e ↦ rw e (h, d)
        | inr (path, e) ↦
            let (there, new) = addition-new paths (resolve fs files m false) path e in
            rw e (
              All-append _ paths (path ∷ []) h (resolved_permitted files fs m path there, tt),
              Distinct-append paths path new d,
            )
      ]

  expand_matches-Expanded :
      (paths ms result : List Bytes)
      → All (λ p. permits files p ≡ true) paths
      → Distinct paths
      → length paths ≤ 200
      → expand_matches fs files since paths ms ≡ done result
      → Expanded files result
  unfolding expand_matches
  expand_matches-Expanded paths [] result h d f e =
      subst (Expanded files) (done_inj e) (record { permitted = h; distinct = d; few = f })
  expand_matches-Expanded paths (m ∷ ms) result h d f e =
      let longer =
        with_addition fs files since paths
          (addition fs files since paths (resolve fs files m false)) in
      let (h', d') = with_addition-Expanded paths m h d in
      elim (Bool-cases (ltb 200 (length longer))) [
        | inl many ↦ absurd (refused_done (rw many at e))
        | inr few ↦ expand_matches-Expanded longer ms result h' d' (ground arith) (rw few at e)
      ]

  -- Where `expand` gives paths, whatever the file system holds: the scope permits each of them, no
  -- two are the same, and there are at most 200.
  pub expand-Expanded :
      (pattern : Bytes) (paths : List Bytes)
      → expand fs files since pattern ≡ done paths
      → Expanded files paths
  unfolding expand
  expand-Expanded pattern paths e = elim (Bool-cases (is_abs pattern)) [
    | inl abs ↦ behind (resolve fs files (dir (fixed_part pattern)) true) (rw abs at e)
    | inr relative ↦ absurd (refused_done (rw relative at e))
  ]
    where
      found :
          (o : Option (List Bytes))
          → expand_found fs files since o ≡ done paths
          → Expanded files paths
      found none h = absurd (refused_done h)
      found (some ms) h = expand_matches-Expanded [] ms paths tt tt (omega arith) h

      behind :
          (a : Attempt Bytes)
          → if_resolved fs files since a (expand_found fs files since (fs.glob pattern))
            ≡ done paths
          → Expanded files paths
      behind (refused r) h = absurd (refused_done h)
      behind (done p) h = found (fs.glob pattern) h
