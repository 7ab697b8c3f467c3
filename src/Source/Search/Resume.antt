-- ===== src/Source/Search/Resume.antt =====
-- Two pages of Search (internal/source/file.go): what the second one, from the cursor of the first, shows.
use aken.Base.{
  ℕ, zero, suc, ◌+◌, ◌-◌, ◌<◌, ◌≤◌, ◌≡◌, refl, sym, ap, ◌∙◌, inl, inr, Bool, true, false, ◌&&◌,
  Option, none, some, List, [], ◌∷◌, ◌++◌, Bytes, leb, All, All-append, length, take, get_elem?,
  drop, arith, Bool-cases, Option-cases, some_inj, subst, leb→le,
}
use aken.Base.Signed.{magnitude}
use aken.Source.Lines.{split_lines}
use aken.Source.Search.{
  Searching, SearchQuery, results, search_text, search_cursor, bad_limits_of, nothing_found,
}
use aken.Source.Search.Hits.{Hit, position, Has, hits_in, all_hits}
use aken.Source.Search.Pages.{
  All-map, get_elem?-append_right, get_elem?-append_left, Readable, search_files-Searched,
}

module _ {ℓ} {A : Type ℓ} where
  All-get_elem? {κ} :
      (P : A → Type κ) (n : ℕ) (xs : List A) (x : A) → All P xs → get_elem? xs n ≡ some x → P x
  All-get_elem? P n [] x h e = ground arith
  All-get_elem? P zero (y ∷ xs) x h e = subst P (some_inj e) h.0
  All-get_elem? P (suc n) (y ∷ xs) x h e = All-get_elem? P n xs x h.1 e

  get_elem?_past : (n : ℕ) (xs : List A) → get_elem? xs n ≡ none → length xs ≤ n
  get_elem?_past n [] h = omega arith
  get_elem?_past zero (x ∷ xs) h = ground arith
  get_elem?_past (suc n) (x ∷ xs) h = omega (arith, get_elem?_past n xs h)

  drop-append_right :
      (n : ℕ) (xs ys : List A) → length xs ≤ n → drop n (xs ++ ys) ≡ drop (n - length xs) ys
  drop-append_right n [] ys h = ap (λ k. drop k ys) (omega arith)
  drop-append_right zero (x ∷ xs) ys h = absurd (omega arith)
  drop-append_right (suc n) (x ∷ xs) ys h =
      drop-append_right n xs ys (omega arith) ∙ ap (λ k. drop k ys) (omega arith)

  drop-append_left :
      (n : ℕ) (xs ys : List A) (x : A)
      → get_elem? xs n ≡ some x
      → drop n (xs ++ ys) ≡ drop n xs ++ ys
  drop-append_left n [] ys x h = ground arith
  drop-append_left zero (y ∷ xs) ys x h = refl
  drop-append_left (suc n) (y ∷ xs) ys x h = drop-append_left n xs ys x h

module _ (re : Bytes → Bool) where
  module _ (i : ℕ) (path : Bytes) where
    -- Where no line is left out, the first line does not matter.
    hits_in_low :
        (a b k : ℕ) (ls : List Bytes)
        → a ≤ k + 1
        → b ≤ k + 1
        → hits_in re i a path k ls ≡ hits_in re i b path k ls
    unfolding hits_in
    hits_in_low a b k [] p q = refl
    hits_in_low a b k (l ∷ ls) p q =
        let low_a : leb a (k + 1) ≡ true = ground arith in
        let low_b : leb b (k + 1) ≡ true = ground arith in
        rw (low_a, low_b, hits_in_low a b (k + 1) ls (omega arith) (omega arith))

    hits_in_above :
        (first k : ℕ) (ls : List Bytes)
        → All (λ h. (h.file ≡ i) × (k < h.shown.number)) (hits_in re i first path k ls)
    unfolding hits_in
    hits_in_above first k [] = tt
    hits_in_above first k (l ∷ ls) =
        let rest =
          All-map _ (λ (h : Hit). (h.file ≡ i) × (k < h.shown.number))
            (hits_in re i first path (k + 1) ls) (λ h above. (above.0, omega arith))
            (hits_in_above first (k + 1) ls) in
        elim (Bool-cases (leb first (k + 1) && re l)) [
          | inl hit ↦ rw hit ((refl, omega arith), rest)
          | inr other ↦ rw other rest
        ]

    -- The line at hand is not searched again from a later match.
    skip :
        (first k m : ℕ) (l : Bytes) (ls : List Bytes) (h : Hit)
        → get_elem? (hits_in re i first path (k + 1) ls) m ≡ some h
        → hits_in re i h.shown.number path k (l ∷ ls) ≡ hits_in re i h.shown.number path (k + 1) ls
    unfolding hits_in
    skip first k m l ls h e =
        let above = All-get_elem? _ m _ h (hits_in_above first (k + 1) ls) e in
        let past : leb h.shown.number (k + 1) ≡ false = ground (arith, above.1) in rw past

    resume_in :
        (first k m : ℕ) (ls : List Bytes) (h : Hit)
        → get_elem? (hits_in re i first path k ls) m ≡ some h
        → hits_in re i h.shown.number path k ls ≡ drop m (hits_in re i first path k ls)
    unfolding hits_in
    resume_in first k m [] h e = ground arith
    resume_in first k m (l ∷ ls) h e = elim (Bool-cases (leb first (k + 1) && re l)) [
      | inl hit ↦ rw hit (found m (rw hit at e) hit (λ n e'. resume_in first (k + 1) n ls h e'))
      | inr other ↦
          let later : get_elem? (hits_in re i first path (k + 1) ls) m ≡ some h = rw other at e in
          rw other (skip first k m l ls h later ∙ resume_in first (k + 1) m ls h later)
    ]
      where
        here : Hit
        here = record {
          file = i;
          shown = record { path = path; number = k + 1; matched = true; line = l };
        }

        found :
            (n : ℕ)
            → get_elem? (here ∷ hits_in re i first path (k + 1) ls) n ≡ some h
            → (leb first (k + 1) && re l) ≡ true
            → ((n : ℕ)
                → get_elem? (hits_in re i first path (k + 1) ls) n ≡ some h
                → hits_in re i h.shown.number path (k + 1) ls
                  ≡ drop n (hits_in re i first path (k + 1) ls))
            → hits_in re i h.shown.number path k (l ∷ ls)
              ≡ drop n (here ∷ hits_in re i first path (k + 1) ls)
        found zero at_first hit later =
            let same : h.shown.number ≡ k + 1 =
              sym (ap (λ (r : Hit). r.shown.number) (some_inj at_first)) in
            let matches : re l ≡ true = ground arith in
            let low : leb first (k + 1) ≡ true = ground arith in
            let from : leb h.shown.number (k + 1) ≡ true = ground arith in
            rw (from, matches)
              (ap (λ r. here ∷ r)
                (hits_in_low h.shown.number first (k + 1) ls (omega arith)
                  (omega (arith, leb→le first (k + 1) low))))
        found (suc n) at_next hit later = skip first k n l ls h at_next ∙ later n at_next

  module _ (text : Bytes → Bytes) where
    all_hits_above :
        (i first : ℕ) (paths : List Bytes) → All (λ h. i ≤ h.file) (all_hits re text i first paths)
    unfolding all_hits
    all_hits_above i first [] = tt
    all_hits_above i first (path ∷ paths) =
        All-append (λ (h : Hit). i ≤ h.file) (hits_in re i first path 0 (split_lines (text path)))
          (all_hits re text (i + 1) 1 paths)
          (All-map _ (λ (h : Hit). i ≤ h.file) _ (λ h at. omega arith)
            (hits_in_above i path first 0 (split_lines (text path))))
          (All-map _ (λ (h : Hit). i ≤ h.file) _ (λ h at. omega arith)
            (all_hits_above (i + 1) 1 paths))

    -- From a match on, the matches are those from its place in the list on.
    resume :
        (i first m : ℕ) (paths : List Bytes) (h : Hit)
        → get_elem? (all_hits re text i first paths) m ≡ some h
        → all_hits re text h.file h.shown.number (drop (h.file - i) paths)
          ≡ drop m (all_hits re text i first paths)
    unfolding all_hits
    resume i first m [] h e = ground arith
    resume i first m (path ∷ paths) h e = elim (Option-cases (get_elem? ahead m)) [
      | inl z ↦
          let few = get_elem?_past m ahead z in
          let later : get_elem? behind (m - length ahead) ≡ some h =
            sym (get_elem?-append_right m ahead behind few) ∙ e in
          let high =
            All-get_elem? _ (m - length ahead) behind h (all_hits_above (i + 1) 1 paths) later in
          moved h.file h.shown.number high
          ∙ resume (i + 1) 1 (m - length ahead) paths h later
          ∙ sym (drop-append_right m ahead behind few)
      | inr (h', z) ↦
          let same : h' ≡ h = some_inj (sym (get_elem?-append_left m ahead behind h' z) ∙ e) in
          let there : get_elem? ahead m ≡ some h = z ∙ ap some same in
          let above =
            All-get_elem? _ m ahead h (hits_in_above i path first 0 (split_lines (text path)))
              there in
          started h.file h.shown.number above.0
          ∙ rw (resume_in i path first 0 m (split_lines (text path)) h there)
              (sym (drop-append_left m ahead behind h there))
    ]
      where
        ahead : List Hit
        ahead = hits_in re i first path 0 (split_lines (text path))

        behind : List Hit
        behind = all_hits re text (i + 1) 1 paths

        moved :
            (f n : ℕ)
            → i + 1 ≤ f
            → all_hits re text f n (drop (f - i) (path ∷ paths))
              ≡ all_hits re text f n (drop (f - (i + 1)) paths)
        moved f n high = let one : f - i ≡ suc (f - (i + 1)) = omega arith in rw one

        started :
            (f n : ℕ)
            → f ≡ i
            → all_hits re text f n (drop (f - i) (path ∷ paths))
              ≡ hits_in re i n path 0 (split_lines (text path)) ++ behind
        started f n e = let zero_off : i - i ≡ 0 = omega arith in rw (e, zero_off)

-- What a page of a search holds, over files that are opened and read whole and whose lines are below
-- the cap, for limits that Search accepts and a cursor that stands at line `first` of file `i`: the
-- search ends without an error; its first `max_matches` matches are shown; its cursor is the place
-- of the next match, and is empty if there is none; and a search from that place has exactly the
-- matches behind the first `max_matches` of this one, in the same order.
pub search_pages :
    (re : Bytes → Bool) (open_text : Bytes → Option (Bool × Bytes)) (text : Bytes → Bytes)
    (q : SearchQuery) (i first : ℕ)
    → bad_limits_of q ≡ false
    → search_cursor (length q.paths) q.cursor ≡ some (i, first)
    → Readable open_text text (drop i q.paths)
    → let hits = all_hits re text i first (drop i q.paths) in
      let limit = magnitude q.max_matches in
      (page : Searching) × (search_text re open_text q ≡ some (results page))
      × All (λ (h : Hit). Has h.shown page.lines) (take limit hits)
      × (page.next ≡ position (get_elem? hits limit))
      × ((h : Hit)
          → get_elem? hits limit ≡ some h
          → all_hits re text h.file h.shown.number (drop (h.file - i) (drop i q.paths))
            ≡ drop limit hits)
unfolding search_text
search_pages re open_text text q i first good at readable =
    let (page, run, found) =
      search_files-Searched re (magnitude q.max_matches) (magnitude q.before) (magnitude q.after)
        open_text text i first (drop i q.paths) nothing_found readable refl (omega arith) refl in
    let room : magnitude q.max_matches - 0 ≡ magnitude q.max_matches = omega arith in
    (
      page,
      rw (good, at) run,
      rw room at found.shows,
      rw room at found.cursor,
      λ h e. resume re text i first (magnitude q.max_matches) (drop i q.paths) h e,
    )
