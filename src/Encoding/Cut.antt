-- ===== src/Encoding/Cut.antt =====
-- strings.Cut with a separator of one byte.
use aken.Base.{ℕ, Option, none, some, [], ◌∷◌, Bytes, eqb, if◌then◌else◌}

-- What stands before the first separator, and all of the text where there is none.
unfoldable pub before : ℕ → Bytes → Bytes
before sep [] = []
before sep (b ∷ s) = let rest = before sep s in if eqb b sep then [] else b ∷ rest

-- What stands behind it, where there is one.
unfoldable pub behind : ℕ → Bytes → Option Bytes
behind sep [] = none
behind sep (b ∷ s) = let rest = behind sep s in if eqb b sep then some s else rest
