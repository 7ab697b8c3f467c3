-- ===== src/Protocol/Jobs.antt =====
-- protocol/jobs.go: jobs, the catalog and job identifiers. `jobIDPattern` is the regular expression
-- `^[A-Za-z0-9._-]{1,64}$`, written out; in Go `$` without flags matches only at the end of the text.
use aken.Base.{
  ℕ, Bool, ◌&&◌, ◌||◌, Option, none, some, List, [], ◌∷◌, String, Bytes, eqb, leb, ◌==◌, string_eq,
  if◌then◌else◌, length, all,
}
use aken.Encoding.Alphabet.{within}

pub record Job : Type 0 where
  pub id : Bytes
  pub name : String
  pub params : Bytes

pub record CatalogEntry : Type 0 where
  pub name : String
  pub class : ℕ

abbrev entry : String → CatalogEntry
entry name = record { name = name; class = 1 }

abbrev pub catalog : List CatalogEntry
catalog =
    entry "list_dir"
    ∷ entry "read_file"
    ∷ entry "search"
    ∷ entry "tail"
    ∷ entry "journal"
    ∷ entry "docker_logs"
    ∷ entry "systemctl_status"
    ∷ entry "ps"
    ∷ entry "df"
    ∷ []

unfoldable pub class_in : List CatalogEntry → String → Option ℕ
class_in [] name = none
class_in (e ∷ rest) name = if e.name == name then some e.class else class_in rest name

unfoldable pub catalog_class : String → Option ℕ
unfolding class_in
catalog_class = class_in catalog

abbrev pub is_job_id_byte : ℕ → Bool
is_job_id_byte c =
    within b'A' b'Z' c
    || within b'a' b'z' c
    || within b'0' b'9' c
    || eqb c b'.'
    || eqb c b'_'
    || eqb c b'-'

unfoldable pub validate_job_id : Bytes → Bool
validate_job_id id = leb 1 (length id) && leb (length id) 64 && all is_job_id_byte id
