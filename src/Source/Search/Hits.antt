-- ===== src/Source/Search/Hits.antt =====
-- The matches that Search (internal/source/file.go) shows, and where its cursor stands.
use aken.Base.{
  ℕ, zero, suc, ◌+◌, ◌-◌, ◌<◌, ◌≤◌, ◌≡◌, refl, ap, ◌∙◌, ◌⊎◌, inl, inr, Bool, true, false, ◌&&◌,
  Option, none, some, List, [], ◌∷◌, ◌++◌, Bytes, leb, All, length, take, get_elem?, arith,
  if◌then◌else◌, subst,
}
use aken.Source.Lines.{split_lines}
use aken.Source.Search.{Shown, Searching}

-- A match: the file's index, and the line as it is shown.
pub record Hit : Type 0 where
  pub file : ℕ
  pub shown : Shown

abbrev pub position : Option Hit → Option (ℕ × ℕ)
position none = none
position (some h) = some (h.file, h.shown.number)

abbrev pub Has : Shown → List Shown → Type 0
Has x [] = ⊥
Has x (y ∷ ys) = (x ≡ y) ⊎ Has x ys

pub Has-left : (x : Shown) (xs ys : List Shown) → Has x xs → Has x (xs ++ ys)
Has-left x [] ys h = absurd h
Has-left x (y ∷ xs) ys (inl e) = inl e
Has-left x (y ∷ xs) ys (inr h) = inr (Has-left x xs ys h)

pub Has-right : (x : Shown) (xs ys : List Shown) → Has x ys → Has x (xs ++ ys)
Has-right x [] ys h = h
Has-right x (y ∷ xs) ys h = inr (Has-right x xs ys h)

module _ (re : Bytes → Bool) where
  -- The matches of a file from line `first` on, where `k` lines were read.
  unfoldable pub hits_in : ℕ → ℕ → Bytes → ℕ → List Bytes → List Hit
  hits_in i first path k [] = []
  hits_in i first path k (l ∷ ls) =
      let rest = hits_in i first path (k + 1) ls in
      if leb first (k + 1) && re l
      then record {
        file = i;
        shown = record { path = path; number = k + 1; matched = true; line = l };
      }
        ∷ rest
      else rest

  -- The matches of the files from index `i` on: from line `first` in the first of them.
  unfoldable pub all_hits : (Bytes → Bytes) → ℕ → ℕ → List Bytes → List Hit
  all_hits text i first [] = []
  all_hits text i first (path ∷ paths) =
      hits_in i first path 0 (split_lines (text path)) ++ all_hits text (i + 1) 1 paths

module _ (re : Bytes → Bool) (limit before_lines after_lines : ℕ) where
  -- What a search in a file leaves of the matches `hits` that were ahead of it: the cursor stands
  -- at the first that does not fit, and those that fit are shown.
  pub record Searched (s : Searching) (hits : List Hit) (t : Searching) : Type 0 where
    pub cursor : t.next ≡ position (get_elem? hits (limit - s.matches))
    pub counted : t.next ≡ none → t.matches ≡ s.matches + length hits
    pub fits : t.matches ≤ limit
    pub shows : All (λ (h : Hit). Has h.shown t.lines) (take (limit - s.matches) hits)
    pub keeps : (x : Shown) → Has x s.lines → Has x t.lines
    pub goes_on : t.next ≡ none → t.done ≡ false

  -- The cursor is set, and what was shown stays shown.
  pub record Past (p : ℕ × ℕ) (s t : Searching) : Type 0 where
    pub set : t.next ≡ some p
    pub same : t.matches ≡ s.matches
    pub keeps : (x : Shown) → Has x s.lines → Has x t.lines

  pub Searched-here :
      (s : Searching) → s.next ≡ none → s.matches ≤ limit → s.done ≡ false → Searched s [] s
  Searched-here s e m d = record {
    goes_on = λ z. d;
    cursor = e ∙ none_left (limit - s.matches);
    counted = λ h. omega arith;
    fits = m;
    shows = nothing (limit - s.matches);
    keeps = λ x h. h;
  }
    where
      none_left : (n : ℕ) → none ≡ position (get_elem? {A = Hit} [] n)
      none_left n = refl

      nothing : (n : ℕ) → All (λ (h : Hit). Has h.shown s.lines) (take {A = Hit} n [])
      nothing zero = tt
      nothing (suc n) = tt

  pub Searched-other :
      (s s' t : Searching) (hits : List Hit)
      → s'.matches ≡ s.matches
      → ((x : Shown) → Has x s.lines → Has x s'.lines)
      → Searched s' hits t
      → Searched s hits t
  Searched-other s s' t hits e grow h = record {
    goes_on = h.goes_on;
    cursor = h.cursor ∙ ap (λ m. position (get_elem? hits (limit - m))) e;
    counted = λ z. h.counted z ∙ ap (λ m. m + length hits) e;
    fits = h.fits;
    shows = subst (λ m. All (λ (r : Hit). Has r.shown t.lines) (take (limit - m) hits)) e h.shows;
    keeps = λ x m. h.keeps x (grow x m);
  }

  pub Searched-hit :
      (s s' t : Searching) (hit : Hit) (hits : List Hit)
      → s.matches < limit
      → s'.matches ≡ s.matches + 1
      → ((x : Shown) → Has x s.lines → Has x s'.lines)
      → Has hit.shown s'.lines
      → Searched s' hits t
      → Searched s (hit ∷ hits) t
  Searched-hit s s' t hit hits low e grow there h =
      let room : limit - s.matches ≡ suc (limit - s'.matches) = omega arith in
      record {
        goes_on = h.goes_on;
        cursor = rw room h.cursor;
        counted = λ z. omega (arith, h.counted z);
        fits = h.fits;
        shows = rw room (h.keeps hit.shown there, h.shows);
        keeps = λ x m. h.keeps x (grow x m);
      }

  pub Searched-Past :
      (s t : Searching) (hit : Hit) (hits : List Hit)
      → s.matches ≡ limit
      → Past (hit.file, hit.shown.number) s t
      → Searched s (hit ∷ hits) t
  Searched-Past s t hit hits m h =
      let room : limit - s.matches ≡ 0 = omega arith in
      record {
        goes_on = λ z. ground (arith, h.set);
        cursor = rw room h.set;
        counted = λ z. ground (arith, h.set);
        fits = omega (arith, h.same);
        shows = rw room tt;
        keeps = h.keeps;
      }
