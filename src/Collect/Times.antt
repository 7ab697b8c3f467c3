-- ===== src/Collect/Times.antt =====
-- ParseTime of internal/collect/options.go. A time is a number of nanoseconds since the year 1.
use aken.Base.{
  ℕ, ◌-◌, ◌*◌, ◌/◌, ◌^◌, Option, none, some, List, [], ◌∷◌, Bytes, eqb, leb, if◌then◌else◌,
}
use aken.Base.Signed.{ℤ, pos, negsuc}
use aken.Encoding.Decimal.{atoi}

-- The parsers of package time: a duration in nanoseconds, and a time in RFC 3339, or in one of the
-- layouts "2006-01-02 15:04:05", "2006-01-02 15:04" and "2006-01-02" of the local zone.
pub record TimeParsers : Type 0 where
  pub duration : Bytes → Option ℤ
  pub rfc3339 : Bytes → Option ℕ
  pub local_second : Bytes → Option ℕ
  pub local_minute : Bytes → Option ℕ
  pub local_date : Bytes → Option ℕ

abbrev pub day : ℕ
day = 86_400_000_000_000

-- The text before a last byte `b`, if it ends so.
unfoldable pub cut_last : ℕ → Bytes → Option Bytes
cut_last b [] = none
cut_last b (c ∷ []) = if eqb c b then some [] else none
cut_last b (c ∷ d ∷ s) = elim (cut_last b (d ∷ s)) [ none ↦ none | some r ↦ some (c ∷ r) ]

abbrev pub first_of : List (Option ℕ) → Option ℕ
first_of [] = none
first_of (some t ∷ rest) = some t
first_of (none ∷ rest) = first_of rest

module _ (parse : TimeParsers) where
  abbrev pub clock_time : Bytes → Option ℕ
  clock_time s =
      first_of
        (parse.rfc3339 s ∷ parse.local_second s ∷ parse.local_minute s ∷ parse.local_date s ∷ [])

  abbrev pub ago_or_time : ℕ → Bytes → Option ℤ → Option ℕ
  ago_or_time now s (some (pos d)) = some (now - d)
  ago_or_time now s (some (negsuc d)) = clock_time s
  ago_or_time now s none = clock_time s

  abbrev pub days_or_other : ℕ → Bytes → Option ℤ → Option ℕ
  days_or_other now s (some (pos days)) =
      if leb days ((2 ^ 63 - 1) / day)
      then some (now - days * day)
      else ago_or_time now s (parse.duration s)
  days_or_other now s (some (negsuc d)) = ago_or_time now s (parse.duration s)
  days_or_other now s none = ago_or_time now s (parse.duration s)

  abbrev pub in_days : Option Bytes → Option ℤ
  in_days none = none
  in_days (some digits) = atoi digits

  -- ParseTime; none is an error. `now` is later than every time that a duration takes from it.
  unfoldable pub parse_time : Bytes → ℕ → Option ℕ
  unfolding cut_last
  parse_time s now = days_or_other now s (in_days (cut_last b'd' s))
