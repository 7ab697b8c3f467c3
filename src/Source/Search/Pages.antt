-- ===== src/Source/Search/Pages.antt =====
-- Search over several files (internal/source/file.go): its page, and the cursor of the next one.
use aken.Base.{
  ℕ, zero, suc, ◌+◌, ◌-◌, ◌≤◌, ◌≡◌, refl, sym, ap, ◌∙◌, inl, inr, Bool, true, false, ◌||◌, Option,
  none, some, List, [], ◌∷◌, ◌++◌, Bytes, All, length, length-append, take, get_elem?, arith,
  Option-cases,
}
use aken.Source.Lines.{split_lines}
use aken.Source.Lines.Scanned.{Short, scan_lines-feed}
use aken.Source.Search.{Searching, results, fresh_file, after_file, search_files}
use aken.Source.Search.Hits.{Hit, position, all_hits, Searched, Searched-other, Searched-here}
use aken.Source.Search.Within.{step, feed-Searched}

module _ {ℓ} {A : Type ℓ} where
  pub get_elem?-append_right :
      (n : ℕ) (xs ys : List A)
      → length xs ≤ n
      → get_elem? (xs ++ ys) n ≡ get_elem? ys (n - length xs)
  get_elem?-append_right n [] ys h = ap (get_elem? ys) (omega arith)
  get_elem?-append_right zero (x ∷ xs) ys h = absurd (omega arith)
  get_elem?-append_right (suc n) (x ∷ xs) ys h =
      get_elem?-append_right n xs ys (omega arith) ∙ ap (get_elem? ys) (omega arith)

  pub get_elem?-append_left :
      (n : ℕ) (xs ys : List A) (x : A) → get_elem? xs n ≡ some x → get_elem? (xs ++ ys) n ≡ some x
  get_elem?-append_left n [] ys x h = ground arith
  get_elem?-append_left zero (y ∷ xs) ys x h = h
  get_elem?-append_left (suc n) (y ∷ xs) ys x h = get_elem?-append_left n xs ys x h

  module _ {κ} (P : A → Type κ) where
    All-take_left :
        (n : ℕ) (xs ys : List A) (x : A)
        → get_elem? xs n ≡ some x
        → All P (take n xs)
        → All P (take n (xs ++ ys))
    All-take_left n [] ys x e h = ground arith
    All-take_left zero (y ∷ xs) ys x e h = tt
    All-take_left (suc n) (y ∷ xs) ys x e h = (h.0, All-take_left n xs ys x e h.1)

    All-take_both :
        (n : ℕ) (xs ys : List A)
        → length xs ≤ n
        → All P (take n xs)
        → All P (take (n - length xs) ys)
        → All P (take n (xs ++ ys))
    All-take_both n [] ys l h k = let same : n - 0 ≡ n = omega arith in rw same at k
    All-take_both zero (x ∷ xs) ys l h k = absurd (omega arith)
    All-take_both (suc n) (x ∷ xs) ys l h k =
        let same : suc n - suc (length xs) ≡ n - length xs = omega arith in
        (h.0, All-take_both n xs ys (omega arith) h.1 (rw same at k))

    pub All-map {μ} : (Q : A → Type μ) (xs : List A) → ((x : A) → P x → Q x) → All P xs → All Q xs
    All-map Q [] f h = tt
    All-map Q (x ∷ xs) f h = (f x h.0, All-map Q xs f h.1)

position-some : (o : Option Hit) (p : ℕ × ℕ) → some p ≡ position o → (h : Hit) × (o ≡ some h)
position-some none p e = ground arith
position-some (some h) p e = (h, refl)

-- The files are opened and read whole, and their lines are below the cap.
abbrev pub Readable : (Bytes → Option (Bool × Bytes)) → (Bytes → Bytes) → List Bytes → Type 0
Readable open_text text =
    All (λ p. (open_text p ≡ some (false, text p)) × Short (split_lines (text p)))

or_true : (b : Bool) → (b || true) ≡ true
or_true true = refl
or_true false = refl

module _ (re : Bytes → Bool) (limit before_lines after_lines : ℕ) where
  Searched-stop :
      (s t : Searching) (hits more : List Hit) (p : ℕ × ℕ)
      → t.next ≡ some p
      → Searched re limit before_lines after_lines s hits t
      → Searched re limit before_lines after_lines s (hits ++ more) t
  Searched-stop s t hits more p e h =
      let (hit, there) = position-some (get_elem? hits (limit - s.matches)) p (sym e ∙ h.cursor) in
      let whole = get_elem?-append_left (limit - s.matches) hits more hit there in
      record {
        cursor = h.cursor ∙ ap position (there ∙ sym whole);
        counted = λ z. ground (arith, e);
        fits = h.fits;
        shows = All-take_left _ (limit - s.matches) hits more hit there h.shows;
        keeps = h.keeps;
        goes_on = h.goes_on;
      }

  Searched-join :
      (s t u : Searching) (hits more : List Hit)
      → t.next ≡ none
      → Searched re limit before_lines after_lines s hits t
      → Searched re limit before_lines after_lines t more u
      → Searched re limit before_lines after_lines s (hits ++ more) u
  Searched-join s t u hits more e h k =
      let count = h.counted e in
      let room : limit - t.matches ≡ limit - s.matches - length hits = omega arith in
      let few : length hits ≤ limit - s.matches = omega (arith, h.fits) in
      record {
        cursor =
            k.cursor
            ∙ ap position (
                ap (get_elem? more) room
                ∙ sym (get_elem?-append_right (limit - s.matches) hits more few));
        counted = λ z. omega (arith, k.counted z, length-append hits more);
        fits = k.fits;
        shows =
            All-take_both _ (limit - s.matches) hits more few
              (All-map _ _ (take (limit - s.matches) hits) (λ r m. k.keeps r.shown m) h.shows)
              (rw (← room) k.shows);
        keeps = λ x m. k.keeps x (h.keeps x m);
        goes_on = k.goes_on;
      }

  module _ (open_text : Bytes → Option (Bool × Bytes)) (text : Bytes → Bytes) where
    pub search_files-Searched :
        (i first : ℕ) (paths : List Bytes) (s : Searching)
        → Readable open_text text paths
        → s.next ≡ none
        → s.matches ≤ limit
        → s.done ≡ false
        → (t : Searching) × (search_files re limit before_lines after_lines open_text i first paths
              s
            ≡ some (results t))
          × Searched re limit before_lines after_lines s (all_hits re text i first paths) t
    unfolding search_files all_hits after_file
    search_files-Searched i first [] s r e m d =
        (s, refl, Searched-here re limit before_lines after_lines s e m d)
    search_files-Searched i first (path ∷ paths) s r e m d =
        let call = step re limit before_lines after_lines i first path in
        let (t, n, run, one) =
          feed-Searched re limit before_lines after_lines i first path
            (fresh_file re limit before_lines after_lines s) 0 (split_lines (text path)) e m refl in
        let scan =
          scan_lines-feed call false (fresh_file re limit before_lines after_lines s) (text path)
            r.0.1 in
        let here =
          Searched-other re limit before_lines after_lines s
            (fresh_file re limit before_lines after_lines s) t _ refl (λ x h. h) one in
        elim (Option-cases t.next) [
          | inl z ↦
              let (u, more, rest) =
                search_files-Searched (i + 1) 1 paths t r.1 z one.fits (one.goes_on z) in
              (u, rw (r.0.0, scan, run, z, one.goes_on z) more, Searched-join s t u _ _ z here rest)
          | inr (p, z) ↦
              (t, rw (r.0.0, scan, run, z, or_true t.done), Searched-stop s t _ _ p z here)
        ]
