-- ===== src/Base/Repeats.antt =====
-- Lists of paths in which none stands twice.
use mathlib.Core.Path.{◌≡◌, refl}
use mathlib.Core.Bool.{false, ◌||◌}
use mathlib.Core.List.{List, [], ◌∷◌, ◌++◌}
use native.Mathlib.Omega.{arith}
use aken.Base.Equality.{Bytes, contains, ◌==◌, bytes_eq, bytes_equal_iff}

-- No path stands twice.
abbrev pub Distinct : List Bytes → Type 0
Distinct [] = Unit
Distinct (p ∷ ps) = (contains ps p ≡ false) × Distinct ps

pub contains-append :
    (ps : List Bytes) (q p : Bytes) → contains (ps ++ q ∷ []) p ≡ (contains ps p || q == p)
contains-append [] q p = ground arith
contains-append (r ∷ ps) q p = ground (arith, contains-append ps q p)

pub Distinct-append :
    (ps : List Bytes) (q : Bytes) → contains ps q ≡ false → Distinct ps → Distinct (ps ++ q ∷ [])
Distinct-append [] q h d = (refl, tt)
Distinct-append (p ∷ ps) q h d = (
  ground (arith, contains-append ps q p, d.0, bytes_equal_iff p q, bytes_equal_iff q p),
  Distinct-append ps q (ground arith) d.1,
)
