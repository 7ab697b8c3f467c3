-- ===== src/Source/Names/Stderr.antt =====
-- CommandStderr (internal/source/source.go): the line that is kept, for any way of cutting up the output.
use aken.Base.{
  ℕ, ◌≤◌, ◌≡◌, refl, sym, ◌∙◌, inl, inr, true, false, List, [], ◌∷◌, ◌++◌, Bytes, eqb, ltb, leb,
  length, length-append, Bool-cases, arith, All, All-append,
}
use aken.Source.Names.{CommandStderr, write, write_byte, no_stderr}

module _ (trim_space : Bytes → Bytes) where
  write_done : (s : CommandStderr) (p : Bytes) → s.done ≡ true → write trim_space s p ≡ s
  unfolding write
  write_done s [] h = refl
  write_done s (b ∷ p) h = rw (h, write)

  write-append :
      (s : CommandStderr) (p q : Bytes)
      → write trim_space s (p ++ q) ≡ write trim_space (write trim_space s p) q
  unfolding write
  write-append s [] q = refl
  write-append s (b ∷ p) q = elim (Bool-cases s.done) [
    | inl e ↦ simp e (sym (write_done s q e))
    | inr e ↦ simp e (write-append (write_byte trim_space s b) p q)
  ]

  -- The writes of a command, one after another.
  unfoldable pub write_all : CommandStderr → List Bytes → CommandStderr
  write_all s [] = s
  write_all s (p ∷ ps) = write_all (write trim_space s p) ps

  abbrev pub joined : List Bytes → Bytes
  joined [] = []
  joined (p ∷ ps) = p ++ joined ps

  write_all-joined :
      (s : CommandStderr) (ps : List Bytes) → write_all s ps ≡ write trim_space s (joined ps)
  unfolding write_all write
  write_all-joined s [] = refl
  write_all-joined s (p ∷ ps) =
      write_all-joined (write trim_space s p) ps ∙ sym (write-append s p (joined ps))

  -- A kept line is short and is one line.
  record Kept (s : CommandStderr) : Type 0 where
    few : length s.line ≤ 200
    one_line : All (λ b. eqb b b'\n' ≡ false) s.line

  write_byte-Kept : (s : CommandStderr) (b : ℕ) → Kept s → Kept (write_byte trim_space s b)
  unfolding write_byte
  write_byte-Kept s b h = elim (Bool-cases (eqb b b'\n')) [
    | inl e ↦ rw e (elim (Bool-cases (leb 1 (length (trim_space s.line)))) [
      | inl f ↦ rw f (record { few = h.few; one_line = h.one_line })
      | inr f ↦ rw f (record { few = omega arith; one_line = tt })
    ])
    | inr e ↦ rw e (elim (Bool-cases (ltb (length s.line) 200)) [
      | inl f ↦ rw f (record {
        few = ground (arith, length-append s.line (b ∷ []));
        one_line = All-append _ s.line (b ∷ []) h.one_line (e, tt);
      })
      | inr f ↦ rw f h
    ])
  ]

  write-Kept : (s : CommandStderr) (p : Bytes) → Kept s → Kept (write trim_space s p)
  unfolding write
  write-Kept s [] h = h
  write-Kept s (b ∷ p) h = elim (Bool-cases s.done) [
    | inl e ↦ simp e h
    | inr e ↦ simp e (write-Kept (write_byte trim_space s b) p (write_byte-Kept s b h))
  ]

  -- However a command writes its errors, what is kept is that of one write of them all: one line of at
  -- most 200 bytes.
  pub stderr_kept :
      (ps : List Bytes)
      → (write_all no_stderr ps ≡ write trim_space no_stderr (joined ps))
        × (length (write_all no_stderr ps).line ≤ 200)
        × All (λ b. eqb b b'\n' ≡ false) (write_all no_stderr ps).line
  stderr_kept ps =
      let whole = write_all-joined no_stderr ps in
      let kept = write-Kept no_stderr (joined ps) (record { few = omega arith; one_line = tt }) in
      (whole, rw whole kept.few, rw whole kept.one_line)
