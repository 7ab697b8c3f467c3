-- ===== src/Jobs/Prepare/Sound.antt =====
-- What each case of `prepare` (internal/serve/jobs.go) lets through.
use aken.Base.{
  ℕ, Bool, true, false, ◌||◌, not, Option, none, some, List, [], ◌∷◌, string_eq, Bytes, ◌==◌, ◌≡◌,
  refl, if◌then◌else◌, All, bytes_eq, is_some, ltb, all, length,
}
use aken.Base.Signed.{is_negative, above}
use aken.Protocol.Jobs.{Job}
use aken.Collect.Times.{parse_time}
use aken.Source.Names.{validate_unit, validate_container}
use aken.Source.Search.{search_cursor}
use aken.Source.Scope.{Files, permits}
use aken.Source.Paths.{clean}
use aken.Jobs.Resolve.{JobError, Attempt, done, refused}
use aken.Jobs.Resolve.Granted.{Answers, resolve-Answers}
use aken.Jobs.Expand.{sensitive, expand}
use aken.Jobs.Expand.Found.{expand-Expanded}
use aken.Jobs.Params.{
  ReadFileParams, TailParams, SearchParams, JournalParams, Kind, unit, container, Prepared, World,
  decode, Outcome, ready, stopped, fails,
}
use aken.Jobs.Journal.{
  prepare_journal, one_container, resolved_containers, journal_target, with_until, with_since,
  bad_journal_limits, with_defaults, or_default, is_zero,
}
use aken.Jobs.Prepare.{
  decoded, prepare_read, prepare_tail, prepare_search, prepare_unit, prepare_container,
  prepare_status, prepare_list, resolve_target, resolved, prepare_named, since_parsed, expanded,
  cursor_checked, search_since, bad_search, with_range, bad_range,
}
use aken.Jobs.Execute.Reads.{Reading, the_target, the_found, no_files, reading_of, ReadsPaths}

module _ (files : Files) (job : Job) where
  -- What holds of an outcome with no error: the job is the one that was asked for, the scope permits
  -- every path, and the paths are what the job reads.
  pub data Sound (k : Reading) : Outcome → Type 0 where
    with_error : {p : Prepared} {e : JobError} → Sound k (stopped p e)
    permitted :
        {p : Prepared}
        → p.job ≡ job
        → All (λ path. permits files path ≡ true) p.paths
        → ReadsPaths k p
        → Sound k (ready p)

  Sound-if :
      (k : Reading) (b : Bool) (x y : Outcome)
      → Sound k x
      → Sound k y
      → Sound k (if b then x else y)
  Sound-if k true x y h l = h
  Sound-if k false x y h l = l

  -- The same where the two branches read other files.
  Sound-either :
      (k l : Reading) (b : Bool) (x y : Outcome)
      → Sound k x
      → Sound l y
      → Sound (if b then k else l) (if b then x else y)
  Sound-either k l true x y h i = h
  Sound-either k l false x y h i = i

  abbrev Start : Prepared → Type 0
  Start p = (p.job ≡ job) × (p.paths ≡ [])

  Start-Sound : (p : Prepared) → Start p → Sound no_files (ready p)
  Start-Sound p h = permitted h.0 (rw h.1 tt) h.1

  decoded-Sound : (ok : Bool) (p : Prepared) → Start p → Sound no_files (decoded ok p)
  decoded-Sound true p h = Start-Sound p h
  decoded-Sound false p h = with_error

  one_container-Sound :
      (p : Prepared) (names : List Bytes) → Start p → Sound no_files (one_container p names)
  one_container-Sound p [] h = with_error
  one_container-Sound p (a ∷ []) h = permitted h.0 (rw h.1 tt) h.1
  one_container-Sound p (a ∷ b ∷ names) h = with_error

  module _ (w : World) (now : ℕ) where
    target-Sound : (p : Prepared) (k : Kind) → Start p → Sound no_files (journal_target w p k)
    target-Sound p unit h = permitted h.0 (rw h.1 tt) h.1
    target-Sound p container h = found (w.containers p.spec.target)
      where
        found : (o : Option (List Bytes)) → Sound no_files (resolved_containers p o)
        found none = with_error
        found (some names) =
            Sound-if no_files (all validate_container names) _ _ (one_container-Sound p names h)
              with_error

    window-Sound : (p : Prepared) (o : Option ℕ) → Start p → Sound no_files (with_since w now p o)
    window-Sound p none h = with_error
    window-Sound p (some since) h = until (parse_time w.parse p.journal.until now)
      where
        until : (o : Option ℕ) → Sound no_files (with_until w (record p { since = since }) o)
        until none = with_error
        until (some u) =
            Sound-if no_files (ltb since u) _ _
              (target-Sound (record p { since = since; until = u }) p.spec.kind h) with_error

    journal-Sound : (p : Prepared) → Start p → Sound no_files (prepare_journal w p now)
    unfolding prepare_journal
    journal-Sound p h = Sound-if no_files (bad_journal_limits p.journal) _ _ with_error (
        Sound-if no_files (not (is_some (w.compile p.journal.regex))) _ _ with_error (
          Sound-if no_files _ _ _ with_error (
            window-Sound (record p { journal = with_defaults p.journal })
              (parse_time w.parse (with_defaults p.journal).since now) h)))

    search-Sound :
        (p : Prepared) (q : SearchParams × Bool)
        → Start p
        → Sound the_found (prepare_search w files now p q)
    search-Sound p (q, ok) h =
        let r = record q { max_matches = or_default q.max_matches 50 } in
        let p' = record p { search = r; target = q.glob } in
        Sound-if the_found (not ok) _ _ with_error (
          Sound-if the_found (bad_search r) (fails p' "invalid search limits") _ with_error (
            Sound-if the_found (not (is_some (w.compile q.regex))) (fails p' "invalid regex") _
              with_error (parsed p' (search_since w files now q.since) h)))
      where
        checked :
            (p : Prepared)
            → (p.job ≡ job)
            → All (λ path. permits files path ≡ true) p.paths
            → Sound the_found (cursor_checked w files now p)
        checked p j every =
            Sound-if the_found (is_some (search_cursor (length p.paths) p.search.cursor)) _ _
              (permitted j every tt) with_error

        found :
            (p : Prepared) (since : ℕ) (pattern : Bytes) (a : Attempt (List Bytes))
            → Start p
            → expand w.fs files since pattern ≡ a
            → Sound the_found (expanded w files now p a)
        found p since pattern (refused e) s h = with_error
        found p since pattern (done paths) s h =
            checked (record p { paths = paths }) s.0
              (expand-Expanded w.fs files since pattern paths h).permitted

        parsed :
            (p : Prepared) (o : Option ℕ) → Start p → Sound the_found (since_parsed w files now p o)
        parsed p none s = with_error
        parsed p (some since) s = found p since p.search.glob _ s refl

    target_resolved :
        (p : Prepared) (path : Bytes) (is_dir : Bool) (a : Attempt Bytes)
        → p.job ≡ job
        → Answers files path is_dir a
        → Sound the_target (resolved w files now p a)
    target_resolved p path is_dir (refused e) j h = with_error
    target_resolved p path is_dir (done c) j h = permitted j (h.1, tt) refl

    resolve_target-Sound :
        (is_dir : Bool) (o : Outcome)
        → Sound no_files o
        → Sound the_target (resolve_target w files now is_dir o)
    resolve_target-Sound is_dir (stopped p e) h = with_error
    resolve_target-Sound is_dir (ready p) (permitted j every unread) =
        target_resolved (record p { sensitive = sensitive p.target }) (clean p.target) is_dir _ j
          (resolve-Answers w.fs files p.target is_dir)

    status-Sound :
        (p : Prepared) (q : Bytes × Bool)
        → Start p
        → Sound no_files (prepare_status w files now p q)
    status-Sound p (name, ok) h =
        Sound-if no_files (not ok) _ _ with_error
          (Sound-if no_files _ _ _ with_error (Start-Sound (record p { target = name }) h))

    read-Sound :
        (p : Prepared) (q : ReadFileParams × Bool)
        → Start p
        → Sound no_files (prepare_read w files now p q)
    read-Sound p (q, ok) h =
        let r = with_range q in
        let p' = record p { read = r; target = q.path } in
        Sound-if no_files (bad_range r.from r.to) (fails p' "invalid line range") _ with_error
          (decoded-Sound ok p' h)

    tail-Sound :
        (p : Prepared) (q : TailParams × Bool)
        → Start p
        → Sound no_files (prepare_tail w files now p q)
    tail-Sound p (q, ok) h =
        let n = or_default q.n 100 in
        let p' = record p { tail = record q { n = n }; target = q.path } in
        Sound-if no_files (is_negative n || is_zero n || above n 500)
          (fails p' "invalid tail count") _ with_error (decoded-Sound ok p' h)

    unit-Sound :
        (p : Prepared) (q : JournalParams × Bool)
        → Start p
        → Sound no_files (prepare_unit w files now p q)
    unit-Sound p (q, ok) h =
        let p' = record p {
          journal = q;
          spec = record { kind = unit; target = q.unit; match_field = [] };
        } in
        Sound-if no_files (not ok) (fails p' "invalid params") _ with_error (
          Sound-if no_files (not (validate_unit q.unit)) (fails p' "invalid unit name") _ with_error
            (journal-Sound p' h))

    container-Sound :
        (p : Prepared) (q : JournalParams × Bool)
        → Start p
        → Sound no_files (prepare_container w files now p q)
    container-Sound p (q, ok) h =
        let p' = record p {
          journal = q;
          spec = record { kind = container; target = q.unit; match_field = [] };
        } in
        Sound-if no_files (not ok) (fails p' "invalid params") _ with_error (
          Sound-if no_files (not (validate_container q.unit)) (fails p' "invalid container name") _
            with_error (journal-Sound p' h))

    list-Sound :
        (p : Prepared) (q : Bytes × Bool) → Start p → Sound no_files (prepare_list w files now p q)
    list-Sound p (path, ok) h = decoded-Sound ok (record p { target = path }) h

    pub named-Sound :
        (p : Prepared) → Start p → Sound (reading_of p.job.name) (prepare_named w files now p)
    unfolding prepare_named
    named-Sound p h =
        let params = p.job.params in
        Sound-either the_target _ (p.job.name == "list_dir") _ _
          (resolve_target-Sound true _ (list-Sound p (decode w.trim_space w.list_dir params) h))
          (Sound-either the_target _ (p.job.name == "read_file") _ _
            (resolve_target-Sound false _ (read-Sound p (decode w.trim_space w.read_file params) h))
            (Sound-either the_target _ (p.job.name == "tail") _ _
              (resolve_target-Sound false _
                (tail-Sound p (decode w.trim_space w.tail_file params) h))
              (Sound-either the_found _ (p.job.name == "search") _ _
                (search-Sound p (decode w.trim_space w.search_files params) h)
                (Sound-if no_files (p.job.name == "journal") _ _
                  (unit-Sound p (decode w.trim_space w.journal params) h)
                  (Sound-if no_files (p.job.name == "docker_logs") _ _
                    (container-Sound p (decode w.trim_space w.docker_logs params) h)
                    (Sound-if no_files (p.job.name == "systemctl_status") _ _
                      (status-Sound p (decode w.trim_space w.systemctl params) h)
                      (Start-Sound p h)))))))
