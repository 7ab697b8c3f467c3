-- ===== src/Protocol/Envelope/Sealed.antt =====
-- Sealing and opening of session envelopes (protocol/session.go).
use mathlib.Core.Path.{ap₂}
use aken.Base.{
  some_inj, ℕ, ◌+◌, ◌-◌, ◌≤◌, ◌≡◌, refl, ap, ◌∙◌, sym, true, not, ◌||◌, Option, none, some, Bytes,
  arith, length, length-replicate, bytes_eq, eqb, ltb, if◌then◌else◌,
}
use aken.Protocol.Crypto.{Crypto, AeadLaws}
use aken.Protocol.Api.{SessionId, IsSessionId, parse_session_id}
use aken.Protocol.Api.RoundTrip.{parse_session_id-session_id_text}
use aken.Protocol.Envelope.{
  guard_ok, Envelope, ok, err, envelope_error, sequence_error, in_range, header, canonical,
  validate, session_nonce, blank_envelope, seal_with, seal_session, opened, open_with, open_session,
}
use aken.Protocol.Envelope.Header.{
  IsValid, canonical_sound, canonical_complete, validate_sound, validate_complete,
}

module _ (c : Crypto) (laws : AeadLaws c) where
  unfoldable pub sealed_as : Bytes → Bytes → Envelope → Bytes → Envelope
  sealed_as key plaintext e ad = record e {
    payload = c.seal key (session_nonce e.seq) plaintext ad;
  }

  seal_with_sound :
      (key plaintext : Bytes) (b e : Envelope) (o : Option Bytes)
      → seal_with c key plaintext b o ≡ ok e
      → (ad : Bytes) × (o ≡ some ad) × (e ≡ sealed_as key plaintext b ad)
  unfolding seal_with sealed_as
  seal_with_sound key plaintext b e none h = absurd (cc)
  seal_with_sound key plaintext b e (some ad) h = (ad, refl, ground arith)

  -- The payload that is made first has the length of the sealed one, so the header stays right.
  sealed_as-IsValid :
      (key : Bytes) (id : SessionId) (seq class : ℕ) (plaintext ad : Bytes) (limit : ℕ)
      → length plaintext + 16 ≤ limit
      → in_range (blank_envelope c id seq class plaintext) ≡ true
      → IsValid (sealed_as key plaintext (blank_envelope c id seq class plaintext) ad) id limit
  unfolding sealed_as blank_envelope
  sealed_as-IsValid key id seq class plaintext ad limit l r =
      let m = laws.length-seal key (session_nonce seq) plaintext ad in
      record {
        for_session = refl;
        ranged = rw (m, ← length-replicate {A = ℕ} (length plaintext + 16) 0) r;
        fits = omega (arith, m);
      }

  header-sealed_as :
      (key : Bytes) (id : SessionId) (seq class : ℕ) (plaintext ad : Bytes)
      → let blank = blank_envelope c id seq class plaintext in
        header (sealed_as key plaintext blank ad) id ≡ header blank id
  unfolding header sealed_as blank_envelope
  header-sealed_as key id seq class plaintext ad = rw (
    laws.length-seal key (session_nonce seq) plaintext ad,
    length-replicate {A = ℕ} (length plaintext + 16) 0,
  )

  module _ (key : Bytes) (id : SessionId) (seq class : ℕ) (plaintext : Bytes) (limit : ℕ) where
    abbrev blank : Envelope
    blank = blank_envelope c id seq class plaintext

    -- What sealing makes, where it makes something.
    seal_session_sound :
        (e : Envelope)
        → IsSessionId id
        → seal_session c key id seq class plaintext limit ≡ ok e
        → (in_range blank ≡ true)
          × (length plaintext + 16 ≤ limit)
          × (e ≡ sealed_as key plaintext blank (header blank id))
    unfolding seal_session
    seal_session_sound e i h =
        let (fits, rest) =
          guard_ok (eqb (length plaintext) 0 || ltb (limit - 16) (length plaintext)) envelope_error
            (seal_with c key plaintext blank (canonical blank)) e h in
        let (ad, found, made) = seal_with_sound key plaintext blank e (canonical blank) rest in
        let (jd, parsed, ranged, form) = canonical_sound blank ad found in
        let same : jd ≡ id = some_inj (sym parsed ∙ parse_blank i) in
        (
          ranged,
          ground arith,
          made ∙ ap (sealed_as key plaintext blank) (form ∙ ap (header blank) same),
        )
      where
        parse_blank : IsSessionId id → parse_session_id blank.session_id ≡ some id
        parse_blank (l, b) = unfold blank_envelope in parse_session_id-session_id_text id l b

    open_sealed_as :
        IsSessionId id
        → in_range blank ≡ true
        → length plaintext + 16 ≤ limit
        → open_session c key (sealed_as key plaintext blank (header blank id)) id seq limit
          ≡ ok plaintext
    unfolding open_session open_with opened
    open_sealed_as i r f =
        let ad = header blank id in
        let e = sealed_as key plaintext blank ad in
        let v = sealed_as-IsValid key id seq class plaintext ad limit f r in
        let form : canonical e ≡ some ad =
          canonical_complete e id i v.for_session v.ranged
          ∙ ap some (header-sealed_as key id seq class plaintext ad) in
        ground (arith, validate_complete e id limit i v, form, seq_kept ad, opens ad)
      where
        seq_kept : (ad : Bytes) → (sealed_as key plaintext blank ad).seq ≡ seq
        seq_kept ad = unfold sealed_as blank_envelope in refl

        opens :
            (ad : Bytes)
            → let e = sealed_as key plaintext blank ad in
              c.open_sealed key (session_nonce e.seq) e.payload ad ≡ some plaintext
        opens ad =
            unfold sealed_as blank_envelope in laws.open-seal key (session_nonce seq) plaintext ad

    -- If `seal_session` makes an envelope from a text, for a well-formed session id,
    -- `open_session` with the same key, session id, sequence number and limit returns that text.
    pub open_session-seal_session :
        (e : Envelope)
        → IsSessionId id
        → seal_session c key id seq class plaintext limit ≡ ok e
        → open_session c key e id seq limit ≡ ok plaintext
    open_session-seal_session e i h =
        let (r, f, p) = seal_session_sound e i h in rw p (open_sealed_as i r f)

  -- What `open_session` accepts: the envelope holds the expected number, is for this session and in
  -- range, and its payload is the sealed form of the text under this header.
  pub record Accepted (key : Bytes) (e : Envelope) (id : SessionId) (expect_seq limit : ℕ)
      (text : Bytes) : Type 0 where
    pub valid : IsValid e id limit
    pub in_order : e.seq ≡ expect_seq
    pub authentic : e.payload ≡ c.seal key (session_nonce expect_seq) text (header e id)

  opened_sound : (o : Option Bytes) (text : Bytes) → opened c o ≡ ok text → o ≡ some text
  unfolding opened
  opened_sound none text h = absurd (cc)
  opened_sound (some t) text h = ground arith

  open_with_sound :
      (key : Bytes) (e : Envelope) (o : Option Bytes) (text : Bytes)
      → open_with c key e o ≡ ok text
      → (ad : Bytes) × (o ≡ some ad)
        × (c.open_sealed key (session_nonce e.seq) e.payload ad ≡ some text)
  unfolding open_with
  open_with_sound key e none text h = absurd (cc)
  open_with_sound key e (some ad) text h = (ad, refl, opened_sound _ text h)

  -- A text that `open_session` returns, for a well-formed session id, is that of an envelope which
  -- passes `Validate` for this session, carries the expected sequence number, and has as payload
  -- the sealed form of the text under that number's nonce and this envelope's header.
  pub open_session_sound :
      (key : Bytes) (e : Envelope) (id : SessionId) (expect_seq limit : ℕ) (text : Bytes)
      → IsSessionId id
      → open_session c key e id expect_seq limit ≡ ok text
      → Accepted key e id expect_seq limit text
  unfolding open_session
  open_session_sound key e id n limit text i h =
      let done = open_with c key e (canonical e) in
      let (good, h1) =
        guard_ok (not (validate e id limit)) envelope_error
          (if not (eqb e.seq n) then err sequence_error else done) text h in
      let (order, h2) = guard_ok (not (eqb e.seq n)) sequence_error done text h1 in
      let (ad, form, opens) = open_with_sound key e (canonical e) text h2 in
      let v = validate_sound e id limit (ground arith) in
      let seq_eq : e.seq ≡ n = ground arith in
      let ad_eq : ad ≡ header e id =
        some_inj (sym form ∙ canonical_complete e id i v.for_session v.ranged) in
      record {
        valid = v;
        in_order = seq_eq;
        authentic =
            laws.open_only_sealed key (session_nonce e.seq) e.payload text ad opens
            ∙ ap₂ (λ m ad. c.seal key (session_nonce m) text ad) seq_eq ad_eq;
      }
