-- ===== src/Source/Lines/Last.antt =====
-- What lastLines and ReadLines return (internal/source/file.go), as parts of the list of all lines.
use aken.Base.{
  ℕ, zero, suc, ◌+◌, ◌-◌, ◌<◌, ◌≤◌, ◌≡◌, ◌≢◌, refl, sym, ap, ◌∙◌, inl, inr, Bool, true, false, ◌&&◌,
  some, List, [], ◌∷◌, ◌++◌, Bytes, eqb, ltb, leb, length, length-append, take, drop, arith,
  Bool-cases, if◌then◌else◌, max, eqb_iff, leb→le, ◌||◌,
}
use aken.Source.Lines.{split_lines, scanned, last_lines, hold_last, hold_between, read_lines}
use aken.Source.Lines.Scanned.{Short, feed, scan_lines-feed}
use mathlib.Core.List.{append-nil, append_assoc}

module _ {ℓ} {A : Type ℓ} where
  -- The last `n` elements, or all where there are fewer.
  abbrev pub last_of : ℕ → List A → List A
  last_of n xs = drop (length xs - n) xs

  pub last_of_few : (n : ℕ) (xs : List A) → length xs ≤ n → last_of n xs ≡ xs
  last_of_few n xs h = let none_left : length xs - n ≡ 0 = omega arith in rw none_left

  pub last_of-cons :
      (n : ℕ) (x : A) (xs : List A) → n ≤ length xs → last_of n (x ∷ xs) ≡ last_of n xs
  last_of-cons n x xs h =
      let one_more : suc (length xs) - n ≡ suc (length xs - n) = omega arith in rw one_more

  pub last_of-append :
      (n : ℕ) (xs ys : List A) → n ≤ length ys → last_of n (xs ++ ys) ≡ last_of n ys
  last_of-append n [] ys h = refl
  last_of-append n (x ∷ xs) ys h =
      last_of-cons n x (xs ++ ys) (omega (arith, length-append xs ys)) ∙ last_of-append n xs ys h

  drop_pos : (n : ℕ) (x : A) (xs : List A) → 0 < n → drop n (x ∷ xs) ≡ drop (n - 1) xs
  drop_pos zero x xs h = absurd (omega arith)
  drop_pos (suc n) x xs h = ap (λ k. drop k xs) (omega arith)

  take_pos : (n : ℕ) (x : A) (xs : List A) → 0 < n → take n (x ∷ xs) ≡ x ∷ take (n - 1) xs
  take_pos zero x xs h = absurd (omega arith)
  take_pos (suc n) x xs h = ap (λ k. x ∷ take k xs) (omega arith)

  drop_all : (n : ℕ) → drop {A = A} n [] ≡ []
  drop_all zero = refl
  drop_all (suc n) = refl

differs : (a b : ℕ) → eqb a b ≡ false → a ≢ b
differs a b h e = ground arith

take_all {ℓ} : {A : Type ℓ} (n : ℕ) → take {A = A} n [] ≡ []
take_all zero = refl
take_all (suc n) = refl

hold_last-step :
    (n : ℕ) (held : List Bytes) (l : Bytes) (ls : List Bytes)
    → 1 ≤ n
    → length held ≤ n
    → let kept = (hold_last n held 0 l).0 in
      (length kept ≤ n) × (last_of n (kept ++ ls) ≡ last_of n (held ++ l ∷ ls))
hold_last-step n [] l ls p h = let more : eqb 0 n ≡ false = ground arith in rw more (p, refl)
hold_last-step n (x ∷ held) l ls p h = elim (Bool-cases (eqb (suc (length held)) n)) [
  | inl e ↦ rw e (
    omega (arith, length-append held (l ∷ []), (eqb_iff (suc (length held)) n).0 e),
    ap (last_of n) (append_assoc held (l ∷ []) ls)
        ∙ sym (
            last_of-cons n x (held ++ l ∷ ls)
              (omega (arith, length-append held (l ∷ ls), (eqb_iff (suc (length held)) n).0 e))),
  )
  | inr e ↦ rw e (
    omega (arith, length-append held (l ∷ []), differs (suc (length held)) n e),
    ap (last_of n) (append_assoc (x ∷ held) (l ∷ []) ls),
  )
]

-- The lines held, after more lines, are the last of them all.
feed-hold_last :
    (n : ℕ) (held : List Bytes) (k : ℕ) (ls : List Bytes)
    → 1 ≤ n
    → length held ≤ n
    → feed (hold_last n) false held k ls ≡ (last_of n (held ++ ls), scanned (k + length ls))
unfolding feed
feed-hold_last n held k [] p h =
    let whole : last_of n (held ++ []) ≡ held =
      ap (last_of n) (append-nil held) ∙ last_of_few n held h in
    let count : k + 0 ≡ k = omega arith in rw (whole, count)
feed-hold_last n held k (l ∷ ls) p h =
    let kept = (hold_last n held 0 l).0 in
    let step = hold_last-step n held l ls p h in
    let count : k + 1 + length ls ≡ k + suc (length ls) = omega arith in
    feed-hold_last n kept (k + 1) ls p step.0 ∙ rw (step.1, count)

pub last_lines-last_of :
    (n : ℕ) (content : Bytes)
    → 1 ≤ n
    → Short (split_lines content)
    → last_lines n false content
      ≡ some (last_of n (split_lines content), length (split_lines content))
unfolding last_lines
last_lines-last_of n content p h =
    let count : 0 + length (split_lines content) ≡ length (split_lines content) = omega arith in
    rw (
      scan_lines-feed (hold_last n) false [] content h,
      feed-hold_last n [] 0 (split_lines content) p (omega arith),
      count,
    )

-- The lines numbered `from` to `to`, where the first of `ls` has the number behind `k`.
abbrev pub numbered : ℕ → ℕ → ℕ → List Bytes → List Bytes
numbered from to k ls = take (to - max k (from - 1)) (drop (from - 1 - k) ls)

numbered-cons :
    (from to k : ℕ) (l : Bytes) (ls : List Bytes)
    → 1 ≤ from
    → numbered from to k (l ∷ ls) ≡ (
        if leb from (k + 1) && leb (k + 1) to
        then l ∷ numbered from to (k + 1) ls
        else numbered from to (k + 1) ls)
numbered-cons from to k l ls p = elim (Bool-cases (leb from (k + 1))) [
  | inl e ↦
      let low : from ≤ k + 1 = leb→le from (k + 1) e in
      let here : from - 1 - k ≡ 0 = omega arith in
      let later : from - 1 - (k + 1) ≡ 0 = omega arith in
      let at_k : max k (from - 1) ≡ k = omega arith in
      let past : max (k + 1) (from - 1) ≡ k + 1 = omega arith in
      rw (e, here, later, at_k, past)
        (elim (Bool-cases (leb (k + 1) to)) [
          | inl f ↦
              let up : k + 1 ≤ to = leb→le (k + 1) to f in
              let less : to - k - 1 ≡ to - (k + 1) = omega arith in
              rw (f, take_pos (to - k) l ls (omega arith), less)
          | inr f ↦
              let none_k : to - k ≡ 0 = ground arith in
              let none_past : to - (k + 1) ≡ 0 = omega arith in rw (f, none_k, none_past)
        ])
  | inr e ↦
      let high : k + 1 < from = ground arith in
      let less : from - 1 - k - 1 ≡ from - 1 - (k + 1) = omega arith in
      let at_k : max k (from - 1) ≡ from - 1 = omega arith in
      let past : max (k + 1) (from - 1) ≡ from - 1 = omega arith in
      rw (e, drop_pos (from - 1 - k) l ls (omega arith), less, at_k, past)
]

feed-hold_between :
    (from to : ℕ) (held : List Bytes) (k : ℕ) (ls : List Bytes)
    → 1 ≤ from
    → feed (hold_between from to) false held k ls
      ≡ (held ++ numbered from to k ls, scanned (k + length ls))
unfolding feed
feed-hold_between from to held k [] p =
    let count : k + 0 ≡ k = omega arith in
    rw (
      drop_all {A = Bytes} (from - 1 - k),
      take_all {A = Bytes} (to - max k (from - 1)),
      append-nil held,
      count,
    )
feed-hold_between from to held k (l ∷ ls) p =
    let count : k + 1 + length ls ≡ k + suc (length ls) = omega arith in
    feed-hold_between from to (hold_between from to held (k + 1) l).0 (k + 1) ls p
    ∙ rw (count, numbered-cons from to k l ls p, go (leb from (k + 1) && leb (k + 1) to))
  where
    go :
        (b : Bool)
        → (if b then held ++ l ∷ [] else held) ++ numbered from to (k + 1) ls
          ≡ held ++ (if b then l ∷ numbered from to (k + 1) ls else numbered from to (k + 1) ls)
    go true = rw (append_assoc held (l ∷ []) (numbered from to (k + 1) ls))
    go false = refl

pub read_lines-take :
    (from to : ℕ) (content : Bytes)
    → 1 ≤ from
    → from ≤ to
    → Short (split_lines content)
    → read_lines from to false content
      ≡ some (
        take (to - (from - 1)) (drop (from - 1) (split_lines content)),
        length (split_lines content),
      )
unfolding read_lines
read_lines-take from to content p q h =
    let low : (ltb from 1 || ltb to from) ≡ false = ground arith in
    let count : 0 + length (split_lines content) ≡ length (split_lines content) = omega arith in
    let top : max 0 (from - 1) ≡ from - 1 = omega arith in
    let first : from - 1 - 0 ≡ from - 1 = omega arith in
    rw (
      low,
      scan_lines-feed (hold_between from to) false [] content h,
      feed-hold_between from to [] 0 (split_lines content) p,
      count,
      top,
      first,
    )
