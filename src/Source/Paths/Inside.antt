-- ===== src/Source/Paths/Inside.antt =====
-- The paths that lie under a directory, by their parts (`under` of internal/source/file.go).
use aken.Base.{
  Bool, true, false, ◌||◌, not, Option, none, some, List, [], ◌∷◌, ◌++◌, Bytes, ◌==◌, bytes_eq,
  bytes_equal_iff, if◌then◌else◌, ◌≡◌, refl, sym, ap, ◌∙◌, inl, inr, Bool-cases, All, arith,
  is_empty, ==-refl,
}
use mathlib.Core.List.{reverse_aux}
use aken.Source.Paths.{
  dot, dotdot, is_abs, clean_part, clean_parts, cleaned, after_common, climbs, rel_left,
}
use aken.Source.Lines.{split}

abbrev pub NoUp : List Bytes → Type 0
NoUp = All (λ p. (p == dotdot) ≡ false)

NoUp-clean_part : (stack : List Bytes) (p : Bytes) → NoUp stack → NoUp (clean_part true stack p)
NoUp-clean_part [] p h = elim (Bool-cases (is_empty p || p == dot)) [
  | inl e ↦ rw e tt
  | inr e ↦ rw e (elim (Bool-cases (p == dotdot)) [ inl f ↦ rw f tt | inr f ↦ rw f (f, tt) ])
]
NoUp-clean_part (t ∷ stack) p h = elim (Bool-cases (is_empty p || p == dot)) [
  | inl e ↦ rw e h
  | inr e ↦ rw e (elim (Bool-cases (p == dotdot)) [ inl f ↦ rw (f, h.0) h.1 | inr f ↦ rw f (f, h) ])
]

NoUp-clean_parts : (ps stack : List Bytes) → NoUp stack → NoUp (clean_parts true stack ps)
unfolding clean_parts
NoUp-clean_parts [] stack h = h
NoUp-clean_parts (p ∷ ps) stack h =
    NoUp-clean_parts ps (clean_part true stack p) (NoUp-clean_part stack p h)

NoUp-reverse_aux : (xs ys : List Bytes) → NoUp xs → NoUp ys → NoUp (reverse_aux xs ys)
NoUp-reverse_aux [] ys h k = k
NoUp-reverse_aux (x ∷ xs) ys h k = NoUp-reverse_aux xs (x ∷ ys) h.1 (h.0, k)

-- An absolute path that is cleaned has no part "..".
pub cleaned-NoUp : (path : Bytes) → is_abs path ≡ true → NoUp (cleaned path).parts
unfolding cleaned
cleaned-NoUp path h = rw h (
    NoUp-reverse_aux (clean_parts true [] (split b'/' path)) []
      (NoUp-clean_parts (split b'/' path) [] tt) tt)

-- under: whether a path lies in a directory, or is the directory itself.
abbrev pub stays : Option (List Bytes) → Bool
stays none = false
stays (some []) = true
stays (some (p ∷ ps)) = not (p == dotdot)

abbrev pub Prefix : List Bytes → List Bytes → Type 0
Prefix base targ = (rest : List Bytes) × (targ ≡ base ++ rest)

pub stays-Prefix :
    (base targ : List Bytes)
    → NoUp targ
    → stays (rel_left (after_common base targ)) ≡ true
    → Prefix base targ
stays-Prefix [] targ n h = (targ, refl)
stays-Prefix (b ∷ bs) [] n h = ground (arith, ==-refl dotdot)
stays-Prefix (b ∷ bs) (t ∷ ts) n h = elim (Bool-cases (b == t)) [
  | inl e ↦
      let (rest, more) = stays-Prefix bs ts n.1 (rw e at h) in
      (rest, ap (λ p. p ∷ ts) (sym ((bytes_equal_iff b t).0 e)) ∙ ap (λ r. b ∷ r) more)
  | inr e ↦ absurd (climbed (b == dotdot) (rw e at h))
]
  where
    climbed : (u : Bool) → stays (if u then none else some (climbs (b ∷ bs) ++ t ∷ ts)) ≡ true → ⊥
    climbed true k = ground arith
    climbed false k = ground arith

pub Prefix-stays :
    (base rest : List Bytes)
    → NoUp (base ++ rest)
    → stays (rel_left (after_common base (base ++ rest))) ≡ true
Prefix-stays [] [] n = refl
Prefix-stays [] (t ∷ ts) n = rw n.0
Prefix-stays (b ∷ bs) rest n = rw (==-refl b) (Prefix-stays bs rest n.1)
