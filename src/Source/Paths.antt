-- ===== src/Source/Paths.antt =====
-- The parts of Go's path/filepath, on Unix, that the program uses: Clean, IsAbs, Dir, Base, Join and
-- Rel. A cleaned path is whether it starts at the root, and its parts.
pub mod Inside
use aken.Base.{
  ℕ, Bool, true, false, ◌&&◌, ◌||◌, not, Option, none, some, List, [], ◌∷◌, ◌++◌, Bytes, eqb, ◌==◌,
  bytes_eq, if◌then◌else◌, is_empty,
}
use mathlib.Core.List.{reverse}
use aken.Source.Lines.{split}

abbrev pub dot : Bytes
dot = b'.' ∷ []

abbrev pub dotdot : Bytes
dotdot = b'.' ∷ b'.' ∷ []

-- filepath.IsAbs
abbrev pub is_abs : Bytes → Bool
is_abs [] = false
is_abs (b ∷ s) = eqb b b'/'

pub record Clean : Type 0 where
  pub rooted : Bool
  pub parts : List Bytes

-- A part ".." takes the part before it away, and stays where there is none, unless that is the root.
abbrev pub up : Bool → List Bytes → List Bytes
up rooted [] = if rooted then [] else dotdot ∷ []
up rooted (top ∷ stack) = if top == dotdot then dotdot ∷ top ∷ stack else stack

abbrev pub clean_part : Bool → List Bytes → Bytes → List Bytes
clean_part rooted stack p =
    if is_empty p || p == dot then stack else if p == dotdot then up rooted stack else p ∷ stack

-- The parts that are kept, the last one first.
unfoldable pub clean_parts : Bool → List Bytes → List Bytes → List Bytes
clean_parts rooted stack [] = stack
clean_parts rooted stack (p ∷ ps) = clean_parts rooted (clean_part rooted stack p) ps

unfoldable pub cleaned : Bytes → Clean
unfolding clean_parts split
cleaned path = record {
  rooted = is_abs path;
  parts = reverse (clean_parts (is_abs path) [] (split b'/' path));
}

abbrev pub joined : List Bytes → Bytes
joined [] = []
joined (p ∷ []) = p
joined (p ∷ q ∷ ps) = p ++ b'/' ∷ joined (q ∷ ps)

unfoldable pub render : Clean → Bytes
render c =
    if c.rooted then b'/' ∷ joined c.parts else if is_empty c.parts then dot else joined c.parts

-- filepath.Clean
unfoldable pub clean : Bytes → Bytes
unfolding cleaned render
clean path = render (cleaned path)

-- What is left of two lists of parts behind those that they share.
abbrev pub after_common : List Bytes → List Bytes → List Bytes × List Bytes
after_common [] ts = ([], ts)
after_common (b ∷ bs) [] = (b ∷ bs, [])
after_common (b ∷ bs) (t ∷ ts) = if b == t then after_common bs ts else (b ∷ bs, t ∷ ts)

abbrev pub climbs : List Bytes → List Bytes
climbs [] = []
climbs (b ∷ bs) = dotdot ∷ climbs bs

abbrev pub rel_left : List Bytes × List Bytes → Option (List Bytes)
rel_left ([], ts) = some ts
rel_left (b ∷ bs, []) = some (climbs (b ∷ bs))
rel_left (b ∷ bs, t ∷ ts) = if b == dotdot then none else some (climbs (b ∷ bs) ++ t ∷ ts)

-- filepath.Rel: the parts of the path from one to the other; its text is "." where there is none.
unfoldable pub rel : Clean → Clean → Option (List Bytes)
rel base targ =
    if (base.rooted && targ.rooted) || not (base.rooted || targ.rooted)
    then rel_left (after_common base.parts targ.parts)
    else none

abbrev pub last_part : Bytes → List Bytes → Bytes
last_part p [] = p
last_part p (q ∷ ps) = last_part q ps

abbrev pub without_last : List Bytes → List Bytes
without_last [] = []
without_last (p ∷ []) = []
without_last (p ∷ q ∷ ps) = p ∷ without_last (q ∷ ps)

-- filepath.Dir and filepath.Base of a clean absolute path.
abbrev pub dir_parts : List Bytes → List Bytes
dir_parts = without_last

-- filepath.Dir
unfoldable pub dir : Bytes → Bytes
unfolding split clean_parts render
dir path = render (record {
  rooted = is_abs path;
  parts = reverse (clean_parts (is_abs path) [] (without_last (split b'/' path)));
})
