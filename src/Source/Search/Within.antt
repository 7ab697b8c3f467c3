-- ===== src/Source/Search/Within.antt =====
-- Search in one file (internal/source/file.go): the line where it stops, and what it has shown by then.
use aken.Base.{
  ℕ, ◌+◌, ◌<◌, ◌≤◌, ◌≡◌, refl, ◌∙◌, inl, inr, Bool, true, false, ◌&&◌, none, some, List, [], ◌∷◌,
  Bytes, eqb, eqb_iff, ltb, leb, arith, Bool-cases,
}
use aken.Source.Lines.Scanned.{feed, Feeds, feed_next, feed-keeps_from}
use aken.Source.Search.{
  Shown, Searching, shown, shown_held, next_after, within_limit, past_last, search_line,
}
use aken.Source.Search.Hits.{
  Has, Has-left, Has-right, Past, Searched, Searched-Past, Searched-here, Searched-hit,
  Searched-other, hits_in,
}

second : (a b : Bool) → (a && b) ≡ true → b ≡ true
second a b h = ground arith

module _ (re : Bytes → Bool) (limit before_lines after_lines : ℕ) where
  module _ (i first : ℕ) (path : Bytes) where
    abbrev pub step : Searching → ℕ → Bytes → Searching × Bool
    step = search_line re limit before_lines after_lines i first path

    past_last-Past :
        (p : ℕ × ℕ) (s t : Searching) (n : ℕ) (l : Bytes)
        → Past re limit before_lines after_lines p s t
        → Past re limit before_lines after_lines p s
            (past_last re limit before_lines after_lines path n l t).0
    unfolding past_last
    past_last-Past p s t n l h = elim (Bool-cases (eqb t.owed 0)) [
      | inl z ↦ rw z (record { set = h.set; same = h.same; keeps = h.keeps })
      | inr z ↦ rw z (record {
        set = h.set;
        same = h.same;
        keeps = λ x m.
            Has-left x t.lines (shown re limit before_lines after_lines path n l ∷ [])
              (h.keeps x m);
      })
    ]

    step-Past :
        (p : ℕ × ℕ) (s t : Searching) (n : ℕ) (l : Bytes)
        → Past re limit before_lines after_lines p s t
        → Past re limit before_lines after_lines p s (step t n l).0
    unfolding search_line next_after
    step-Past p s t n l h =
        let set : next_after re limit before_lines after_lines (leb first n && re l) i n t
            ≡ some p =
          ground (arith, h.set) in
        rw set (
          past_last-Past p s (record t { next = some p }) n l
            (record { set = refl; same = h.same; keeps = h.keeps }))

    -- The first match that does not fit sets the cursor.
    overflow-Past :
        (s : Searching) (n : ℕ) (l : Bytes)
        → s.next ≡ none
        → (leb first n && re l) ≡ true
        → eqb s.matches limit ≡ true
        → Past re limit before_lines after_lines (i, n) s (step s n l).0
    unfolding search_line next_after
    overflow-Past s n l e hit m =
        let set : next_after re limit before_lines after_lines (leb first n && re l) i n s
            ≡ some (i, n) =
          rw (hit, m, e) in
        rw set (
          past_last-Past (i, n) s (record s { next = some (i, n) }) n l
            (record { set = refl; same = refl; keeps = λ x h. h }))

    step_within :
        (s : Searching) (n : ℕ) (l : Bytes)
        → s.next ≡ none
        → ((leb first n && re l) && eqb s.matches limit) ≡ false
        → step s n l
          ≡ (within_limit re limit before_lines after_lines (leb first n && re l) path n l s, true)
    unfolding search_line next_after
    step_within s n l e m =
        let set : next_after re limit before_lines after_lines (leb first n && re l) i n s ≡ none =
          rw (e, m) in
        rw set

    within_hit :
        (s : Searching) (n : ℕ) (l : Bytes) (x : Shown)
        → Has x s.lines
        → Has x (within_limit re limit before_lines after_lines true path n l s).lines
    unfolding within_limit
    within_hit s n l x h = Has-left x s.lines _ h

    within_other :
        (s : Searching) (n : ℕ) (l : Bytes)
        → let t = within_limit re limit before_lines after_lines false path n l s in
          (t.next ≡ s.next)
          × (t.matches ≡ s.matches)
          × (t.done ≡ s.done)
          × ((x : Shown) → Has x s.lines → Has x t.lines)
    unfolding within_limit
    within_other s n l = elim (Bool-cases (ltb 0 s.owed)) [
      | inl z ↦ rw z (refl, refl, refl, λ x h. Has-left x s.lines _ h)
      | inr z ↦ rw z (refl, refl, refl, λ x h. h)
    ]

    shown_there :
        (s : Searching) (n : ℕ) (l : Bytes)
        → re l ≡ true
        → Has
            (record { path = path; number = n; matched = true; line = l })
            (within_limit re limit before_lines after_lines true path n l s).lines
    unfolding within_limit
    shown_there s n l e =
        Has-right _ s.lines _
          (Has-right _ (shown_held re limit before_lines after_lines path s.held) _ (inl (rw e)))

    hit_next :
        (s : Searching) (n : ℕ) (l : Bytes)
        → s.next ≡ none
        → (within_limit re limit before_lines after_lines true path n l s).next ≡ none
    unfolding within_limit
    hit_next s n l e = e

    hit_count :
        (s : Searching) (n : ℕ) (l : Bytes)
        → (within_limit re limit before_lines after_lines true path n l s).matches ≡ s.matches + 1
    unfolding within_limit
    hit_count s n l = refl

    hit_done :
        (s : Searching) (n : ℕ) (l : Bytes)
        → s.done ≡ false
        → (within_limit re limit before_lines after_lines true path n l s).done ≡ false
    unfolding within_limit
    hit_done s n l d = d

    hit_few :
        (s : Searching) (n : ℕ) (l : Bytes)
        → s.matches < limit
        → (within_limit re limit before_lines after_lines true path n l s).matches ≤ limit
    unfolding within_limit
    hit_few s n l h = omega arith

    -- The matches of a file from its line behind `k` on.
    pub feed-Searched :
        (s : Searching) (k : ℕ) (ls : List Bytes)
        → s.next ≡ none
        → s.matches ≤ limit
        → s.done ≡ false
        → Feeds step
            (Searched re limit before_lines after_lines s (hits_in re i first path k ls))
            s
            k
            ls
    unfolding hits_in feed
    feed-Searched s k [] e m d =
        (s, k, refl, Searched-here re limit before_lines after_lines s e m d)
    feed-Searched s k (l ∷ ls) e m d = elim (Bool-cases (leb first (k + 1) && re l)) [
      | inl hit ↦ rw hit (elim (Bool-cases (eqb s.matches limit)) [
        | inl z ↦
            let p =
              feed-keeps_from step (Past re limit before_lines after_lines (i, k + 1) s)
                (λ t n l h. step-Past (i, k + 1) s t n l h) s k l ls
                (overflow-Past s (k + 1) l e hit z) in
            (
              p.0,
              p.1,
              p.2,
              Searched-Past re limit before_lines after_lines s p.0 _ _
                  ((eqb_iff s.matches limit).0 z) p.3,
            )
        | inr z ↦
            let t = within_limit re limit before_lines after_lines true path (k + 1) l s in
            let on : step s (k + 1) l ≡ (t, true) =
              rw hit at (step_within s (k + 1) l e (rw (hit, z))) in
            let low : s.matches < limit = ground arith in
            let ih =
              feed-Searched t (k + 1) ls (hit_next s (k + 1) l e) (hit_few s (k + 1) l low)
                (hit_done s (k + 1) l d) in
            (
              ih.0,
              ih.1,
              feed_next step s t k l ls on ∙ ih.2,
              Searched-hit re limit before_lines after_lines s t ih.0 _ _ low
                  (hit_count s (k + 1) l) (within_hit s (k + 1) l)
                  (shown_there s (k + 1) l (second (leb first (k + 1)) (re l) hit)) ih.3,
            )
      ])
      | inr other ↦ rw other (
          let t = within_limit re limit before_lines after_lines false path (k + 1) l s in
          let on : step s (k + 1) l ≡ (t, true) =
            rw other at (step_within s (k + 1) l e (rw other)) in
          let (same_next, same_count, same_done, grows) = within_other s (k + 1) l in
          let ih = feed-Searched t (k + 1) ls (same_next ∙ e) (rw same_count m) (same_done ∙ d) in
          (
            ih.0,
            ih.1,
            feed_next step s t k l ls on ∙ ih.2,
            Searched-other re limit before_lines after_lines s t ih.0 _ same_count grows ih.3,
          ))
    ]
