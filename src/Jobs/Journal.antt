-- ===== src/Jobs/Journal.antt =====
-- `prepareJournal` of internal/serve/jobs.go: the limits, the window and the container of a journal.
use aken.Base.{
  ℕ, Bool, false, ◌&&◌, ◌||◌, not, Option, none, some, List, [], ◌∷◌, ◌++◌, Bytes, bytes_eq, eqb,
  ltb, if◌then◌else◌, is_empty, is_some, length, all,
}
use aken.Base.Signed.{ℤ, pos, negsuc, is_negative, above}
use aken.Encoding.Alphabet.{codes}
use aken.Encoding.Decimal.{atoi}
use aken.Encoding.Hex
use aken.Collect.Times.{parse_time}
use aken.Source.Names.{validate_container}
use aken.Jobs.Params.{
  JournalParams, Kind, unit, container, Spec, Prepared, World, Outcome, ready, fails,
}

abbrev pub is_zero : ℤ → Bool
is_zero (pos n) = eqb n 0
is_zero (negsuc n) = false

abbrev pub beyond : ℤ → ℕ → Bool
beyond n limit = is_negative n || above n limit

unfoldable pub bad_journal_limits : JournalParams → Bool
bad_journal_limits q =
    beyond q.tail 500
    || beyond q.max_lines 500
    || (above q.tail 0
        && (not (is_empty q.regex) || not (is_zero q.max_lines) || not (is_empty q.cursor)))

abbrev pub or_default : ℤ → ℕ → ℤ
or_default n default = if is_zero n then pos default else n

abbrev pub or_text : Bytes → Bytes → Bytes
or_text s default = if is_empty s then default else s

abbrev is_index : Option ℤ → Bool
is_index none = false
is_index (some n) = not (is_negative n)

abbrev pub with_defaults : JournalParams → JournalParams
with_defaults q = record q {
  max_lines = or_default q.max_lines 200;
  since = or_text q.since (codes "1h");
  until = or_text q.until (codes "0s");
}

-- The field of the journal that an id of a container stands in.
abbrev pub id_field : Bytes → Bytes
id_field id = if eqb (length id) 64 then codes "CONTAINER_ID_FULL=" else codes "CONTAINER_ID="

abbrev pub match_of : Bytes → Bytes → Bytes
match_of old name =
    if (eqb (length name) 12 || eqb (length name) 64) && is_some (Hex.decode name)
    then id_field name ++ name
    else old

abbrev pub kind_text : Kind → Bytes
kind_text unit = codes "unit"
kind_text container = codes "container"

abbrev pub targeted : Prepared → Spec → Prepared
targeted p spec = record p { spec = spec; target = kind_text spec.kind ++ b' ' ∷ spec.target }

abbrev pub one_container : Prepared → List Bytes → Outcome
one_container p [] = fails p "name matches several containers"
one_container p (name ∷ []) = ready (
    targeted p (record {
      kind = p.spec.kind;
      target = name;
      match_field = match_of p.spec.match_field name;
    }))
one_container p (a ∷ b ∷ names) = fails p "name matches several containers"

abbrev pub resolved_containers : Prepared → Option (List Bytes) → Outcome
resolved_containers p none = fails p "cannot resolve container"
resolved_containers p (some names) =
    if all validate_container names then one_container p names else fails p "invalid container name"

abbrev pub journal_target : World → Prepared → Kind → Outcome
journal_target w p unit = ready (targeted p p.spec)
journal_target w p container = resolved_containers p (w.containers p.spec.target)

abbrev pub with_until : World → Prepared → Option ℕ → Outcome
with_until w p none = fails p "invalid journal window"
with_until w p (some until) =
    let q = record p { until = until } in
    if ltb p.since until then journal_target w q p.spec.kind else fails q "invalid journal window"

abbrev pub with_since : World → ℕ → Prepared → Option ℕ → Outcome
with_since w now p none = fails p "invalid since"
with_since w now p (some since) =
    with_until w (record p { since = since }) (parse_time w.parse p.journal.until now)

-- prepareJournal. Where an error is returned, `since` and `until` may stay as they were: only the
-- error and the target are read then.
unfoldable pub prepare_journal : World → Prepared → ℕ → Outcome
prepare_journal w p now =
    let q = record p { journal = with_defaults p.journal } in
    if bad_journal_limits p.journal
    then fails p "invalid journal limits"
    else if not (is_some (w.compile p.journal.regex))
    then fails (record p { journal = record p.journal { max_lines = q.journal.max_lines } })
        "invalid regex"
    else if not (is_empty p.journal.cursor) && not (is_index (atoi p.journal.cursor))
    then fails (record p { journal = record p.journal { max_lines = q.journal.max_lines } })
        "invalid cursor"
    else with_since w now q (parse_time w.parse q.journal.since now)
