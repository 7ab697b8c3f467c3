-- ===== src/Jobs/Prepare.antt =====
-- `prepare` of internal/serve/jobs.go. It returns the prepared job, as far as it was prepared, and an
-- error or none. An int is 64 bits wide.
pub mod Limits
pub mod Sound
pub mod Permitted
use aken.Base.{
  ℕ, ◌+◌, ◌-◌, ◌^◌, Bool, true, false, ◌&&◌, ◌||◌, not, Option, none, some, List, [], ◌∷◌, ◌++◌,
  String, string_eq, Bytes, ◌==◌, bytes_eq, eqb, ltb, leb, if◌then◌else◌, is_empty, is_some, any,
  length,
}
use aken.Base.Signed.{ℤ, pos, negsuc, is_negative, above}
use aken.Encoding.Cut.{before, behind}
use aken.Encoding.Decimal.{atoi}
use aken.Protocol.Jobs.{Job, validate_job_id, catalog_class}
use aken.Collect.Times.{parse_time}
use aken.Source.Names.{validate_unit, validate_container}
use aken.Source.Search.{search_cursor, bad_context, bad_max}
use aken.Source.Scope.{Files}
use aken.Jobs.Resolve.{Attempt, done, refused, resolve}
use aken.Jobs.Expand.{sensitive, expand}
use aken.Jobs.Params.{
  ReadFileParams, TailParams, SearchParams, JournalParams, Kind, unit, container, Spec, Prepared,
  decode, World, Outcome, ready, stopped, fails,
}
use aken.Jobs.Journal.{or_default, is_zero, prepare_journal}

-- from + 499
abbrev pub plus_499 : ℤ → ℤ
plus_499 (pos n) = pos (n + 499)
plus_499 (negsuc n) = if ltb n 499 then pos (498 - n) else negsuc (n - 499)

abbrev pub default_to : ℤ → ℤ → ℤ
default_to from to = if is_zero to && not (above from (2 ^ 63 - 1 - 499)) then plus_499 from else to

abbrev pub bad_range : ℤ → ℤ → Bool
bad_range (pos from) (pos to) = eqb from 0 || ltb to from || leb 500 (to - from)
bad_range (pos from) (negsuc to) = true
bad_range (negsuc from) to = true

abbrev pub with_range : ReadFileParams → ReadFileParams
with_range q = let from = or_default q.from 1 in record q { from = from; to = default_to from q.to }

abbrev pub bad_search : SearchParams → Bool
bad_search q = bad_context q.before || bad_context q.after || bad_max q.max_matches

-- The error of `decode`, that is returned after the checks of a case.
abbrev pub decoded : Bool → Prepared → Outcome
decoded ok p = if ok then ready p else fails p "invalid params"

module _ (w : World) (files : Files) (now : ℕ) where
  abbrev pub prepare_read : Prepared → ReadFileParams × Bool → Outcome
  prepare_read p (q, ok) =
      let r = with_range q in
      let p' = record p { read = r; target = q.path } in
      if bad_range r.from r.to then fails p' "invalid line range" else decoded ok p'

  abbrev pub prepare_tail : Prepared → TailParams × Bool → Outcome
  prepare_tail p (q, ok) =
      let n = or_default q.n 100 in
      let p' = record p { tail = record q { n = n }; target = q.path } in
      if is_negative n || is_zero n || above n 500
      then fails p' "invalid tail count"
      else decoded ok p'

  abbrev pub cursor_checked : Prepared → Outcome
  cursor_checked p =
      if is_some (search_cursor (length p.paths) p.search.cursor)
      then ready p
      else fails p "invalid cursor"

  abbrev pub expanded : Prepared → Attempt (List Bytes) → Outcome
  expanded p (refused e) = stopped p e
  expanded p (done paths) = cursor_checked (record p { paths = paths })

  abbrev pub since_parsed : Prepared → Option ℕ → Outcome
  since_parsed p none = fails p "invalid since"
  since_parsed p (some since) = expanded p (expand w.fs files since p.search.glob)

  -- q.Since, or the zero time where it is empty.
  abbrev pub search_since : Bytes → Option ℕ
  search_since s = if is_empty s then some 0 else parse_time w.parse s now

  abbrev pub prepare_search : Prepared → SearchParams × Bool → Outcome
  prepare_search p (q, ok) =
      let r = record q { max_matches = or_default q.max_matches 50 } in
      let p' = record p { search = r; target = q.glob } in
      if not ok
      then fails (record p { search = q }) "invalid params"
      else if bad_search r
      then fails p' "invalid search limits"
      else if not (is_some (w.compile q.regex))
      then fails p' "invalid regex"
      else since_parsed p' (search_since q.since)

  abbrev pub prepare_unit : Prepared → JournalParams × Bool → Outcome
  prepare_unit p (q, ok) =
      let p' = record p {
        journal = q;
        spec = record { kind = unit; target = q.unit; match_field = [] };
      } in
      if not ok
      then fails p' "invalid params"
      else if not (validate_unit q.unit)
      then fails p' "invalid unit name"
      else prepare_journal w p' now

  abbrev pub prepare_container : Prepared → JournalParams × Bool → Outcome
  prepare_container p (q, ok) =
      let p' = record p {
        journal = q;
        spec = record { kind = container; target = q.unit; match_field = [] };
      } in
      if not ok
      then fails p' "invalid params"
      else if not (validate_container q.unit)
      then fails p' "invalid container name"
      else prepare_journal w p' now

  abbrev pub prepare_status : Prepared → Bytes × Bool → Outcome
  prepare_status p (name, ok) =
      let p' = record p { target = name } in
      if not ok
      then fails p' "invalid params"
      else if not (validate_unit name)
      then fails p' "invalid unit name"
      else ready p'

  abbrev pub prepare_list : Prepared → Bytes × Bool → Outcome
  prepare_list p (path, ok) = decoded ok (record p { target = path })

  abbrev pub resolved : Prepared → Attempt Bytes → Outcome
  resolved p (refused e) = stopped p e
  resolved p (done target) = ready (record p { target = target; paths = target ∷ [] })

  -- The path of a job that names one is resolved.
  abbrev pub resolve_target : Bool → Outcome → Outcome
  resolve_target is_dir (stopped p e) = stopped p e
  resolve_target is_dir (ready p) =
      let p' = record p { sensitive = sensitive p.target } in
      resolved p' (resolve w.fs files p.target is_dir)

  abbrev pub mark : Outcome → Outcome
  mark (stopped p e) = stopped p e
  mark (ready p) = ready (record p { sensitive = p.sensitive || any sensitive p.paths })

  -- The switch on the job's name, with what follows for the jobs that name a path.
  unfoldable pub prepare_named : Prepared → Outcome
  prepare_named p =
      let params = p.job.params in
      if p.job.name == "list_dir"
      then resolve_target true (prepare_list p (decode w.trim_space w.list_dir params))
      else if p.job.name == "read_file"
      then resolve_target false (prepare_read p (decode w.trim_space w.read_file params))
      else if p.job.name == "tail"
      then resolve_target false (prepare_tail p (decode w.trim_space w.tail_file params))
      else if p.job.name == "search"
      then prepare_search p (decode w.trim_space w.search_files params)
      else if p.job.name == "journal"
      then prepare_unit p (decode w.trim_space w.journal params)
      else if p.job.name == "docker_logs"
      then prepare_container p (decode w.trim_space w.docker_logs params)
      else if p.job.name == "systemctl_status"
      then prepare_status p (decode w.trim_space w.systemctl params)
      else ready p

  abbrev pub blank : Job → Prepared
  blank job = record {
    job = job;
    paths = [];
    target = [];
    sensitive = false;
    read = w.read_file.blank;
    tail = w.tail_file.blank;
    search = w.search_files.blank;
    journal = w.journal.blank;
    spec = record { kind = unit; target = []; match_field = [] };
    since = 0;
    until = 0;
  }

  abbrev pub in_class : Prepared → ℕ → Option ℕ → Outcome
  in_class p class none = fails p "unknown job name"
  in_class p class (some expected) =
      if not (eqb expected class) then fails p "class mismatch" else mark (prepare_named p)

  -- prepare
  unfoldable pub prepare : Job → ℕ → Outcome
  prepare job class =
      if not (validate_job_id job.id)
      then fails (blank job) "invalid job id"
      else in_class (blank job) class (catalog_class job.name)
