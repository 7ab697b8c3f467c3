-- ===== src/Jobs/Params.antt =====
-- The parameters of jobs (protocol/jobs.go), `decode` and `preparedJob` of internal/serve/jobs.go, and
-- what `prepare` gets from packages that are not modelled.
use aken.Base.{
  ℕ, Bool, false, ◌&&◌, ◌||◌, Option, List, String, Bytes, ◌==◌, bytes_eq, if◌then◌else◌, is_empty,
}
use aken.Base.Signed.{ℤ}
use aken.Encoding.Alphabet.{codes}
use aken.Protocol.Jobs.{Job}
use aken.Collect.Times.{TimeParsers}
use aken.Jobs.Resolve.{JobError, job_error, FileSystem}

pub record ReadFileParams : Type 0 where
  pub path : Bytes
  pub from : ℤ
  pub to : ℤ

pub record TailParams : Type 0 where
  pub path : Bytes
  pub n : ℤ

pub record SearchParams : Type 0 where
  pub glob : Bytes
  pub regex : Bytes
  pub since : Bytes
  pub before : ℤ
  pub after : ℤ
  pub max_matches : ℤ
  pub cursor : Bytes

-- JournalParams, and DockerLogsParams with the container for the unit.
pub record JournalParams : Type 0 where
  pub unit : Bytes
  pub since : Bytes
  pub until : Bytes
  pub regex : Bytes
  pub tail : ℤ
  pub max_lines : ℤ
  pub cursor : Bytes

pub data Kind : Type 0 where
  unit container : Kind

-- source.Spec
pub record Spec : Type 0 where
  pub kind : Kind
  pub target : Bytes
  pub match_field : Bytes

-- preparedJob, without the description, which is text for the screen, and the mark that the row is
-- offered as a widening.
pub record Prepared : Type 0 where
  pub job : Job
  pub paths : List Bytes
  pub target : Bytes
  pub sensitive : Bool
  pub read : ReadFileParams
  pub tail : TailParams
  pub search : SearchParams
  pub journal : JournalParams
  pub spec : Spec
  pub since : ℕ
  pub until : ℕ

-- encoding/json for one type: the zero value; what Decode reads first, as far as it was read, and
-- whether it is valid; and whether the input ends behind it.
pub record Json (A : Type 0) : Type 0 where
  pub blank : A
  pub first : Bytes → A × Bool
  pub ends : Bytes → Bool

abbrev pub if_ended : Bool → {A : Type 0} → A × Bool → A × Bool
if_ended ended (a, ok) = (a, ok && ended)

-- decode: the value, and whether it is valid.
unfoldable pub decode : (Bytes → Bytes) → {A : Type 0} → Json A → Bytes → A × Bool
decode trim_space json params =
    if is_empty params || trim_space params == codes "null"
    then (json.blank, false)
    else if_ended (json.ends params) (json.first params)

pub record World : Type 0 where
  pub fs : FileSystem
  pub parse : TimeParsers
  pub trim_space : Bytes → Bytes
  -- regexp.Compile
  pub compile : Bytes → Option (Bytes → Bool)
  pub list_dir : Json Bytes
  pub read_file : Json ReadFileParams
  pub tail_file : Json TailParams
  pub search_files : Json SearchParams
  pub journal : Json JournalParams
  pub docker_logs : Json JournalParams
  pub systemctl : Json Bytes
  -- source.ResolveContainers; none is an error
  pub containers : Bytes → Option (List Bytes)

-- What `prepare` returns: the job, as far as it was prepared, with an error or without.
pub data Outcome : Type 0 where
  ready : Prepared → Outcome
  stopped : Prepared → JobError → Outcome

abbrev pub fails : Prepared → String → Outcome
fails p what = stopped p (job_error what)
