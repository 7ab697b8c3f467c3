-- ===== src/Source/Listing.antt =====
-- Files.List (internal/source/file.go): the entries of a directory in the order of their names.
use aken.Base.{ℕ, Bool, true, false, List, [], ◌∷◌, ◌++◌, Bytes, eqb, ltb, if◌then◌else◌}
use aken.Source.Scope.{Outcome, success, failure}

-- os.DirEntry with its Info: the mode and the time as the texts that a listing shows.
pub record Entry : Type 0 where
  pub name : Bytes
  pub is_dir : Bool
  pub mode : Bytes
  pub size : ℕ
  pub modified : Bytes

-- strings.Compare(a, b) < 0
abbrev pub bytes_less : Bytes → Bytes → Bool
bytes_less [] [] = false
bytes_less [] (b ∷ s) = true
bytes_less (a ∷ r) [] = false
bytes_less (a ∷ r) (b ∷ s) = if ltb a b then true else if eqb a b then bytes_less r s else false

-- slices.SortFunc: the names in a directory differ, so that the order is the only one.
abbrev insert_entry : Entry → List Entry → List Entry
insert_entry e [] = e ∷ []
insert_entry e (f ∷ es) =
    let later = insert_entry e es in if bytes_less f.name e.name then f ∷ later else e ∷ f ∷ es

unfoldable pub sorted : List Entry → List Entry
sorted [] = []
sorted (e ∷ es) = insert_entry e (sorted es)

-- The name that a listing shows.
abbrev pub shown_name : Entry → Bytes
shown_name e = if e.is_dir then e.name ++ b'/' ∷ [] else e.name

-- List, of what opening the directory and reading it gives.
unfoldable pub list_entries : Outcome (List Entry) → Outcome (List Entry)
unfolding sorted
list_entries (failure e) = failure e
list_entries (success es) = success (sorted es)
