-- ===== src/Jobs/Execute/Pages.antt =====
-- The pages of a file and of a journal (internal/serve/jobs.go), as parts of the list of all lines.
use aken.Base.{
  ℕ, zero, suc, ◌+◌, ◌-◌, ◌≤◌, ◌≡◌, refl, sym, ap, inl, inr, true, false, some, List, [], ◌∷◌, ◌++◌,
  Bytes, ltb, if◌then◌else◌, length, take, drop, arith, Bool-cases,
}
use aken.Base.Signed.{magnitude}
use aken.Encoding.Decimal.{itoa}
use aken.Source.Lines.{split_lines}
use aken.Source.Lines.Scanned.{Short}
use aken.Source.Lines.Last.{read_lines-take}
use aken.Source.Scope.{Files, success, OpenFile, open_file}
use aken.Jobs.Resolve.{done}
use aken.Jobs.Params.{Prepared, World}
use aken.Jobs.Prepare.Limits.{Range}
use aken.Jobs.Execute.{Machine, read_file, number_lines}

module _ {ℓ} {A : Type ℓ} where
  drop_none : (n : ℕ) → drop {A = A} n [] ≡ []
  drop_none zero = refl
  drop_none (suc n) = refl

  -- A page and what is behind it.
  take-drop : (n j : ℕ) (xs : List A) → take n (drop j xs) ++ drop (j + n) xs ≡ drop j xs
  take-drop zero zero xs = refl
  take-drop (suc n) zero [] = drop_none (0 + suc n)
  take-drop (suc n) zero (x ∷ xs) =
      let same : 0 + suc n ≡ suc (0 + n) = omega arith in
      rw same (ap (λ r. x ∷ r) (take-drop n zero xs))
  take-drop n (suc j) [] = rw (drop_none (suc j + n), take_none n)
    where
      take_none : (n : ℕ) → take {A = A} n [] ≡ []
      take_none zero = refl
      take_none (suc n) = refl
  take-drop n (suc j) (x ∷ xs) =
      let same : suc j + n ≡ suc (j + n) = omega arith in rw same (take-drop n j xs)

  drop_past : (n : ℕ) (xs : List A) → length xs ≤ n → drop n xs ≡ []
  drop_past n [] h = drop_none n
  drop_past zero (x ∷ xs) h = absurd (omega arith)
  drop_past (suc n) (x ∷ xs) h = drop_past n xs (omega arith)

-- For a regular file that is opened and read whole, with lines below the cap, and a range of lines
-- as `prepare` makes it: the page holds the lines of the range, numbered from its first; it says
-- that it goes on behind the range exactly where the file does; and the page, followed by the lines
-- behind it if it says so and by nothing if not, is all lines from the first of the range on.
pub read_file-page :
    (w : World) (m : Machine) (files : Files) (p : Prepared) (f : OpenFile) (text : Bytes)
    → open_file w.fs.open_in files p.target ≡ success f
    → f.regular ≡ true
    → f.text ≡ some (false, text)
    → Short (split_lines text)
    → (r : Range p.read.from p.read.to)
    → let all = split_lines text in
      let page = take (r.high - (r.low - 1)) (drop (r.low - 1) all) in
      (read_file w m files p
        ≡ done (record {
          lines = number_lines r.low page;
          next = (if ltb r.high (length all) then itoa (r.high + 1) else []);
        }))
      × (page ++ (if ltb r.high (length all) then drop r.high all else []) ≡ drop (r.low - 1) all)
unfolding read_file
read_file-page w m files p f text opened regular content short r =
    let all = split_lines text in
    let from : magnitude p.read.from ≡ r.low = ap magnitude r.starts in
    let to : magnitude p.read.to ≡ r.high = ap magnitude r.ends in
    (
      rw (
        opened,
        regular,
        content,
        from,
        to,
        read_lines-take r.low r.high text r.first r.ordered short,
      ),
      go all,
    )
  where
    low : ℕ
    low = r.low - 1

    behind : low + (r.high - low) ≡ r.high
    behind = omega (arith, r.first, r.ordered)

    go :
        (all : List Bytes)
        → take (r.high - (r.low - 1)) (drop (r.low - 1) all)
            ++ (if ltb r.high (length all) then drop r.high all else [])
          ≡ drop (r.low - 1) all
    go all = elim (Bool-cases (ltb r.high (length all))) [
      | inl e ↦ rw e (rw behind at (take-drop (r.high - low) low all))
      | inr e ↦
          let nothing : drop r.high all ≡ [] = drop_past r.high all (ground arith) in
          rw (e, sym nothing) (rw behind at (take-drop (r.high - low) low all))
    ]
