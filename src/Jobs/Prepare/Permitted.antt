-- ===== src/Jobs/Prepare/Permitted.antt =====
-- What `prepare` (internal/serve/jobs.go) lets through.
use aken.Base.{
  List, Bytes, sym, ℕ, Bool, true, false, ◌||◌, Option, none, some, string_eq, eqb, ◌≡◌, refl, ap,
  ◌∙◌, inl, inr, any, All, eqb_iff, subst, Bool-cases, arith, bytes_eq,
}
use aken.Protocol.Jobs.{Job, validate_job_id, catalog_class}
use aken.Source.Scope.{Files, permits, Outcome as FileOutcome, OpenFile}
use aken.Source.Listing.{Entry}
use aken.Jobs.Execute.{Machine, execute}
use aken.Jobs.Resolve.{JobError}
use aken.Jobs.Expand.{sensitive}
use aken.Jobs.Params.{Prepared, World, Outcome, ready, stopped}
use aken.Jobs.Prepare.{mark, prepare_named, blank, in_class, prepare}
use aken.Jobs.Execute.Reads.{
  Reading, the_target, the_found, no_files, reading_of, ReadsPaths, with_files, SameAt,
  execute-same,
}
use aken.Jobs.Prepare.Sound.{Sound, permitted, named-Sound}

-- What `prepare` gives.
pub record IsPrepared (w : World) (files : Files) (job : Job) (class : ℕ) (p : Prepared)
    : Type 0 where
  pub same_job : p.job ≡ job
  pub valid_id : validate_job_id job.id ≡ true
  pub in_catalog : catalog_class job.name ≡ some class
  pub in_scope : All (λ path. permits files path ≡ true) p.paths
  pub target_checked : ReadsPaths (reading_of job.name) p
  -- What it gives depends on no other files.
  pub reads_paths :
      (m : Machine) (open_in : Bytes → Bytes → FileOutcome OpenFile)
      (read_dir : Bytes → FileOutcome (List Entry))
      → All (SameAt w m files open_in read_dir) p.paths
      → execute w m files p
        ≡ execute (with_files w open_in) (record m { read_dir = read_dir }) files p
  pub marked : any sensitive p.paths ≡ true → p.sensitive ≡ true

module _ (w : World) (files : Files) (now : ℕ) (job : Job) (class : ℕ) (p : Prepared) where
  of_ready : Outcome → Prepared
  of_ready (ready q) = q
  of_ready (stopped q e) = q

  stopped_ready : {q : Prepared} {e : JobError} → stopped q e ≡ ready p → ⊥
  stopped_ready h = ground arith

  marked-IsPrepared :
      (o : Outcome)
      → Sound files job (reading_of job.name) o
      → validate_job_id job.id ≡ true
      → catalog_class job.name ≡ some class
      → mark w files now o ≡ ready p
      → IsPrepared w files job class p
  unfolding of_ready
  marked-IsPrepared (stopped q e) s v c h = absurd (stopped_ready h)
  marked-IsPrepared (ready q) (permitted j every k) v c h =
      subst (IsPrepared w files job class) (ap of_ready h) (record {
        same_job = j;
        valid_id = v;
        in_catalog = c;
        in_scope = every;
        target_checked = marked_reads (reading_of job.name) q k;
        reads_paths = λ m open_in read_dir same.
            execute-same w m files open_in read_dir (marked_as q)
              (subst (λ (j' : Job). ReadsPaths (reading_of j'.name) (marked_as q)) (sym j)
                (marked_reads (reading_of job.name) q k))
              same;
        marked = λ secret. rw secret (or_true q.sensitive);
      })
    where
      marked_as : Prepared → Prepared
      marked_as q = record q { sensitive = q.sensitive || any sensitive q.paths }

      marked_reads : (k : Reading) (q : Prepared) → ReadsPaths k q → ReadsPaths k (marked_as q)
      marked_reads the_target q h = h
      marked_reads the_found q h = h
      marked_reads no_files q h = h

      or_true : (b : Bool) → (b || true) ≡ true
      or_true true = refl
      or_true false = refl

  classed :
      (o : Option ℕ)
      → catalog_class job.name ≡ o
      → validate_job_id job.id ≡ true
      → in_class w files now (blank w files now job) class o ≡ ready p
      → IsPrepared w files job class p
  classed none c v h = absurd (stopped_ready h)
  classed (some expected) c v h = elim (Bool-cases (eqb expected class)) [
    | inl e ↦
        let same : expected ≡ class = (eqb_iff expected class).0 e in
        marked-IsPrepared (prepare_named w files now (blank w files now job))
          (named-Sound files job w now (blank w files now job) (refl, refl)) v (c ∙ ap some same)
          (rw e at h)
    | inr e ↦ absurd (stopped_ready (rw e at h))
  ]

  -- Where `prepare` returns no error, whatever the file system, the regular expressions and JSON
  -- give: the job is the one that was asked for, its id is valid and its class is that of the
  -- catalog; the scope permits each of its paths, which is the target alone for `list_dir`,
  -- `read_file` and `tail`, and there is none for a job that is not one of these or `search`;
  -- `execute` reads no file or directory elsewhere, as it gives the same wherever those paths lead
  -- to the same; and the job is marked as sensitive if any of its paths is.
  pub prepare-IsPrepared : prepare w files now job class ≡ ready p → IsPrepared w files job class p
  unfolding prepare
  prepare-IsPrepared h = elim (Bool-cases (validate_job_id job.id)) [
    | inl v ↦ classed (catalog_class job.name) refl v (rw v at h)
    | inr v ↦ absurd (stopped_ready (rw v at h))
  ]
