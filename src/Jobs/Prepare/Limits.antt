-- ===== src/Jobs/Prepare/Limits.antt =====
-- The limits of a job that `prepare` (internal/serve/jobs.go) accepts.
use aken.Base.{
  ℕ, ◌+◌, ◌≤◌, ◌<◌, Bool, true, false, ◌≡◌, refl, ap, inl, inr, Bool-cases, arith, eqb, Bytes,
  Option, none, some, subst, ◌==◌, string_eq,
}
use aken.Base.Signed.{ℤ, pos, negsuc}
use aken.Protocol.Jobs.{Job, validate_job_id, catalog_class}
use aken.Source.Scope.{Files}
use aken.Jobs.Resolve.{Attempt, done, refused, resolve}
use aken.Jobs.Expand.{sensitive}
use aken.Jobs.Params.{ReadFileParams, Prepared, World, Outcome, ready, stopped, decode}
use aken.Jobs.Prepare.{
  prepare, in_class, blank, prepare_named, mark, resolve_target, resolved, prepare_read, decoded,
  bad_range, with_range,
}

-- The lines from one number to another, at most 500, the first from 1 on.
pub record Range (from to : ℤ) : Type 0 where
  pub low : ℕ
  pub high : ℕ
  pub starts : from ≡ pos low
  pub ends : to ≡ pos high
  pub first : 1 ≤ low
  pub ordered : low ≤ high
  pub few : high < low + 500

bad_range-Range : (from to : ℤ) → bad_range from to ≡ false → Range from to
bad_range-Range (pos a) (pos b) h = record {
  low = a;
  high = b;
  starts = refl;
  ends = refl;
  first = ground arith;
  ordered = ground arith;
  few = ground arith;
}
bad_range-Range (pos a) (negsuc b) h = ground arith
bad_range-Range (negsuc a) b h = ground arith

module _ (w : World) (files : Files) (now : ℕ) where
  -- The range of a job with no error.
  Ranged : Outcome → Type 0
  Ranged (ready p) = Range p.read.from p.read.to
  Ranged (stopped p e) = Unit

  decoded-Ranged : (ok : Bool) (p : Prepared) → Range p.read.from p.read.to → Ranged (decoded ok p)
  unfolding Ranged
  decoded-Ranged true p r = r
  decoded-Ranged false p r = tt

  read-Ranged : (p : Prepared) (q : ReadFileParams × Bool) → Ranged (prepare_read w files now p q)
  unfolding Ranged
  read-Ranged p (q, ok) =
      let r = with_range q in
      elim (Bool-cases (bad_range r.from r.to)) [
        | inl e ↦ rw e tt
        | inr e ↦ rw e (
            decoded-Ranged ok (record p { read = r; target = q.path })
              (bad_range-Range r.from r.to e))
      ]

  resolved-Ranged :
      (p : Prepared) (a : Attempt Bytes)
      → Range p.read.from p.read.to
      → Ranged (resolved w files now p a)
  unfolding Ranged
  resolved-Ranged p (done c) r = r
  resolved-Ranged p (refused e) r = tt

  target-Ranged : (o : Outcome) → Ranged o → Ranged (resolve_target w files now false o)
  unfolding Ranged
  target-Ranged (stopped p e) r = tt
  target-Ranged (ready p) r =
      resolved-Ranged (record p { sensitive = sensitive p.target })
        (resolve w.fs files p.target false) r

  mark-Ranged : (o : Outcome) → Ranged o → Ranged (mark w files now o)
  unfolding Ranged
  mark-Ranged (stopped p e) r = tt
  mark-Ranged (ready p) r = r

  named-Ranged : (p : Prepared) → p.job.name ≡ "read_file" → Ranged (prepare_named w files now p)
  unfolding prepare_named
  named-Ranged p e =
      let other : (p.job.name == "list_dir") ≡ false = ap (λ n. n == "list_dir") e in
      let this : (p.job.name == "read_file") ≡ true = ap (λ n. n == "read_file") e in
      rw (other, this)
        (target-Ranged _ (read-Ranged p (decode w.trim_space w.read_file p.job.params)))

  classed-Ranged :
      (p : Prepared) (class : ℕ) (o : Option ℕ)
      → p.job.name ≡ "read_file"
      → Ranged (in_class w files now p class o)
  unfolding Ranged
  classed-Ranged p class none e = tt
  classed-Ranged p class (some expected) e = elim (Bool-cases (eqb expected class)) [
    | inl same ↦ rw same (mark-Ranged (prepare_named w files now p) (named-Ranged p e))
    | inr other ↦ rw other tt
  ]

  -- A prepared `read_file` reads a range of 1 to 500 lines that begins at line 1 or later, whatever
  -- numbers the request gives, zero, negative and near the limits of an int among them.
  pub prepare-Range :
      (job : Job) (class : ℕ) (p : Prepared)
      → job.name ≡ "read_file"
      → prepare w files now job class ≡ ready p
      → Range p.read.from p.read.to
  unfolding prepare Ranged
  prepare-Range job class p e h = subst Ranged h (elim (Bool-cases (validate_job_id job.id)) [
    | inl v ↦ rw v (classed-Ranged (blank w files now job) class (catalog_class job.name) e)
    | inr v ↦ rw v tt
  ])
