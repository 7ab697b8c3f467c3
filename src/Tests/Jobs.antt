-- ===== src/Tests/Jobs.antt =====
-- `read_file` of a small file system, from the request to its page, and what the scope refuses.
use aken.Base.{
  ◌+◌, ◌-◌, ◌≡◌, refl, true, false, none, some, [], ◌∷◌, ◌++◌, ◌==◌, bytes_eq, if◌then◌else◌, take,
  drop, length, ltb, arith,
}
use aken.Base.Signed.{pos}
use aken.Encoding.Alphabet.{codes}
use aken.Encoding.Decimal
use aken.Protocol.Jobs.{Job, validate_job_id, catalog_class, class_in}
use aken.Source.Lines.{split, split_lines}
use aken.Source.Paths.{clean, cleaned, clean_parts, render, dir, rel}
use aken.Source.Scope.{not_exist, success, failure, under, permits, open_file}
use aken.Jobs.Resolve.{
  outside_scope, done, refused, FileSystem, canonical_of, resolve_clean, resolve,
}
use aken.Jobs.Resolve.Granted.{Answers, resolve-Answers}
use aken.Jobs.Expand.{sensitive, base}
use aken.Protocol.Api.{has_prefix}
use aken.Jobs.Params.{
  ReadFileParams, SearchParams, JournalParams, unit, Prepared, Json, decode, World, ready,
}
use aken.Jobs.Prepare.{prepare, prepare_named}
use aken.Jobs.Prepare.Permitted.{IsPrepared, prepare-IsPrepared}
use aken.Jobs.Prepare.Limits.{Range, prepare-Range}
use aken.Jobs.Execute.{Machine, read_file, number_lines}
use aken.Jobs.Execute.Pages.{read_file-page}
use aken.Tests.Files.{open_in, files, log_path, log_text, file, log_Short}

abbrev fs : FileSystem
fs = record {
  open_in = open_in;
  eval_symlinks = λ path. if path == log_path then success path else failure not_exist;
  stat = λ path. success true;
  lstat = λ path. success tt;
  glob = λ pattern. some (log_path ∷ []);
}

abbrev read_params : ReadFileParams
read_params = record { path = codes "/log/../log/a"; from = pos 0; to = pos 2 }

abbrev blank_search : SearchParams
blank_search = record {
  glob = [];
  regex = [];
  since = [];
  before = pos 0;
  after = pos 0;
  max_matches = pos 0;
  cursor = [];
}

abbrev blank_journal : JournalParams
blank_journal = record {
  unit = [];
  since = [];
  until = [];
  regex = [];
  tail = pos 0;
  max_lines = pos 0;
  cursor = [];
}

abbrev always : {A : Type 0} → A → Json A
always a = record { blank = a; first = λ params. (a, true); ends = λ params. true }

abbrev pub world : World
world = record {
  fs = fs;
  parse = record {
    duration = λ s. none;
    rfc3339 = λ s. none;
    local_second = λ s. none;
    local_minute = λ s. none;
    local_date = λ s. none;
  };
  trim_space = λ s. s;
  compile = λ s. some (λ line. true);
  list_dir = always [];
  read_file = always read_params;
  tail_file = always (record { path = []; n = pos 0 });
  search_files = always blank_search;
  journal = always blank_journal;
  docker_logs = always blank_journal;
  systemctl = always [];
  containers = λ name. none;
}

abbrev pub job : Job
job = record { id = codes "a"; name = "read_file"; params = codes "{}" }

abbrev pub prepared : Prepared
prepared = record {
  job = job;
  paths = log_path ∷ [];
  target = log_path;
  sensitive = false;
  read = record { path = codes "/log/../log/a"; from = pos 1; to = pos 2 };
  tail = record { path = []; n = pos 0 };
  search = blank_search;
  journal = blank_journal;
  spec = record { kind = unit; target = []; match_field = [] };
  since = 0;
  until = 0;
}

prepare_runs : prepare world files 9 job 1 ≡ ready prepared
unfolding prepare prepare_named decode validate_job_id catalog_class class_in resolve resolve_clean
    canonical_of permits under rel clean cleaned clean_parts split render open_file dir sensitive
    base has_prefix
prepare_runs = refl

prepare-IsPrepared_example : IsPrepared world files job 1 prepared
prepare-IsPrepared_example = prepare-IsPrepared world files 9 job 1 prepared prepare_runs

prepare-Range_example : Range prepared.read.from prepared.read.to
prepare-Range_example = prepare-Range world files 9 job 1 prepared refl prepare_runs

resolve_outside :
    resolve fs files (codes "/log/../etc/passwd") false
    ≡ refused (outside_scope (codes "/etc") (codes "/log" ∷ []))
unfolding resolve resolve_clean permits under rel clean cleaned clean_parts split render dir
resolve_outside = refl

resolve-Answers_example :
    Answers files
      (clean (codes "/log/../etc/passwd"))
      false
      (resolve fs files (codes "/log/../etc/passwd") false)
resolve-Answers_example = resolve-Answers fs files (codes "/log/../etc/passwd") false

log_opened : open_file open_in files log_path ≡ success file
unfolding open_file clean cleaned clean_parts split render under rel
log_opened = refl

abbrev machine : Machine
machine = record {
  read_dir = λ path. failure not_exist;
  read_journal =
      λ spec since until. record { lines = []; errors = []; has_source = true; failed = false };
  run = λ name args. none;
}

abbrev two_lines : Range prepared.read.from prepared.read.to
two_lines = record {
  low = 1;
  high = 2;
  starts = refl;
  ends = refl;
  first = omega arith;
  ordered = omega arith;
  few = omega arith;
}

read_file-page_example :
    let all = split_lines log_text in
    let page = take (2 - (1 - 1)) (drop (1 - 1) all) in
    (read_file world machine files prepared
      ≡ done (record {
        lines = number_lines 1 page;
        next = (if ltb 2 (length all) then Decimal.itoa (2 + 1) else []);
      }))
    × (page ++ (if ltb 2 (length all) then drop 2 all else []) ≡ drop (1 - 1) all)
read_file-page_example =
    read_file-page world machine files prepared file log_text log_opened refl refl log_Short
      two_lines
