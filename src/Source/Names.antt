-- ===== src/Source/Names.antt =====
-- ValidateUnit, ValidateContainer and CommandStderr of internal/source/source.go. The two regular
-- expressions are written out: `^[A-Za-z0-9:_.@\\-]{1,256}$` and `^[A-Za-z0-9][A-Za-z0-9_.-]{0,127}$`.
pub mod Stderr
use aken.Base.{
  ℕ, ◌+◌, Bool, true, false, ◌&&◌, ◌||◌, not, List, [], ◌∷◌, ◌++◌, Bytes, eqb, ltb, leb,
  if◌then◌else◌, all, length, is_empty,
}
use aken.Encoding.Alphabet.{within}

abbrev pub is_alphanumeric : ℕ → Bool
is_alphanumeric c = within b'A' b'Z' c || within b'a' b'z' c || within b'0' b'9' c

abbrev pub is_unit_byte : ℕ → Bool
is_unit_byte c =
    is_alphanumeric c
    || eqb c b':'
    || eqb c b'_'
    || eqb c b'.'
    || eqb c b'@'
    || eqb c 92
    || eqb c b'-'

abbrev pub is_container_byte : ℕ → Bool
is_container_byte c = is_alphanumeric c || eqb c b'_' || eqb c b'.' || eqb c b'-'

abbrev pub starts_with_dash : Bytes → Bool
starts_with_dash [] = false
starts_with_dash (b ∷ s) = eqb b b'-'

unfoldable pub validate_unit : Bytes → Bool
validate_unit name =
    leb 1 (length name)
    && leb (length name) 256
    && all is_unit_byte name
    && not (starts_with_dash name)

unfoldable pub validate_container : Bytes → Bool
validate_container [] = false
validate_container (b ∷ s) = is_alphanumeric b && leb (length s) 127 && all is_container_byte s

-- The first line of a command's errors that is not blank.
pub record CommandStderr : Type 0 where
  pub line : Bytes
  pub done : Bool

abbrev pub no_stderr : CommandStderr
no_stderr = record { line = []; done = false }

-- bytes.TrimSpace is a parameter.
module _ (trim_space : Bytes → Bytes) where
  unfoldable pub write_byte : CommandStderr → ℕ → CommandStderr
  write_byte s b =
      if eqb b b'\n'
      then (if leb 1 (length (trim_space s.line))
          then record s { done = true }
          else record s { line = [] })
      else if ltb (length s.line) 200
      then record s { line = s.line ++ b ∷ [] }
      else s

  -- Write, which takes all bytes.
  unfoldable pub write : CommandStderr → Bytes → CommandStderr
  write s [] = s
  write s (b ∷ p) = if s.done then s else write (write_byte s b) p

  -- String
  unfoldable pub stderr_text : CommandStderr → Bytes
  stderr_text s = trim_space s.line
