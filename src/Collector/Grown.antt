-- ===== src/Collector/Grown.antt =====
-- Scopes of internal/serve/run.go that grow, and what a session has read under them.
use aken.Base.{
  ◌≡◌, refl, inl, inr, Bool, true, false, ◌||◌, none, List, [], ◌∷◌, ◌++◌, Bytes, string_eq, any,
  All, arith, Bool-cases, contains, ◌==◌, bytes_eq,
}
use aken.Source.Scope.{permits, under}
use aken.Collector.State.{Files, PreparedJob, Session}
use aken.Collector.Send.{add_to}
use aken.Collector.Rows.{Row}

any_more : (f : Bytes → Bool) (xs ys : List Bytes) → any f xs ≡ true → any f (xs ++ ys) ≡ true
any_more f [] ys h = ground arith
any_more f (x ∷ xs) ys h = elim (Bool-cases (f x)) [
  | inl e ↦ rw e
  | inr e ↦ rw e (any_more f xs ys (rw e at h))
]

-- What one scope permits, another permits too.
abbrev pub Includes : Files → Files → Type 0
Includes f g = (path : Bytes) → permits f path ≡ true → permits g path ≡ true

or_more :
    (a b c d : Bool)
    → (a ≡ true → c ≡ true)
    → (b ≡ true → d ≡ true)
    → (a || b) ≡ true
    → (c || d) ≡ true
or_more true b c d h k e = rw (h refl)
or_more false b true d h k e = refl
or_more false b false d h k e = k e

pub Includes-add : (kind : Bool) (f : Files) (fresh : List Bytes) → Includes f (add_to kind f fresh)
unfolding permits
Includes-add true f fresh path =
    or_more (contains f.paths path) (any (λ d. under d path) f.allowed)
      (contains (f.paths ++ fresh) path) _ (any_more (λ p. p == path) f.paths fresh) (λ e. e)
Includes-add false f fresh path =
    or_more (contains f.paths path) (any (λ d. under d path) f.allowed) (contains f.paths path) _
      (λ e. e) (any_more (λ d. under d path) f.allowed fresh)

-- Each job that was run read what the scope permitted, as it was then.
abbrev pub Permitted : PreparedJob × Files → Type 0
Permitted r = All (λ path. permits r.1 path ≡ true) r.0.paths

abbrev pub Reads : Session → Type 0
Reads s = All Permitted s.reads

-- The same, while the scope includes one that it had before.
abbrev pub Since : Files → Session → Type 0
Since f s = Reads s × Includes f s.files

abbrev pub At : Files → Session → Type 0
At f s = Reads s × (s.files ≡ f)

-- A row that will run once it is approved.
abbrev pub RowReady : Files → Row → Type 0
RowReady f r = r.error ≡ none → Permitted (r.prepared, f)

abbrev pub RowPrepared : Files → Row → Type 0
RowPrepared f r = r.widening ≡ none → RowReady f r

pub impossible : false ≡ true → ⊥
impossible h = cc

pub still :
    (f : Files) (ps : List Bytes) (g : Files)
    → Includes f g
    → All (λ path. permits f path ≡ true) ps
    → All (λ path. permits g path ≡ true) ps
still f [] g n a = tt
still f (path ∷ ps) g n a = (n path a.0, still f ps g n a.1)
