-- ===== src/Relay/Live/Numbered.antt =====
-- Lists of envelopes whose sequence numbers count up by one.
use aken.Base.{ℕ, suc, ◌+◌, ◌≡◌, List, [], ◌∷◌, ◌++◌, length, arith}
use aken.Protocol.Envelope.{Envelope}

abbrev pub Numbered : ℕ → List Envelope → Type 0
Numbered n [] = Unit
Numbered n (e ∷ es) = (e.seq ≡ n) × Numbered (suc n) es

pub Numbered-append :
    (n : ℕ) (es : List Envelope) (e : Envelope)
    → Numbered n es
    → e.seq ≡ n + length es
    → Numbered n (es ++ e ∷ [])
Numbered-append n [] e h s = (omega arith, tt)
Numbered-append n (x ∷ es) e h s = (h.0, Numbered-append (suc n) es e h.1 (omega arith))
