-- ===== src/Protocol/Envelope/Header.antt =====
-- The canonical form of an envelope (protocol/session.go): what it is, and that it holds every field.
use aken.Base.{
  if-eq_some, Option-cases, inl, inr, ℕ, ◌+◌, ◌^◌, ◌<◌, ◌≤◌, ◌≡◌, refl, ap, ◌∙◌, sym, true, false,
  Option, none, some, List, [], ◌∷◌, ◌++◌, Bytes, arith, length, length-append, bytes_eq,
  bytes_equal_iff,
}
use aken.Protocol.Api.{SessionId, IsSessionId, session_id_text, parse_session_id}
use aken.Protocol.Api.RoundTrip.{parse_session_id-session_id_text}
use aken.Protocol.Wire.{big_endian, from_big_endian, length-big_endian, from_big_endian-big_endian}
use aken.Protocol.Envelope.{Envelope, in_range, header, canonical, canonical_at, validate}

-- Two lists that start with parts of one length split alike.
append-injective {ℓ} :
    {A : Type ℓ} (xs ys us vs : List A)
    → length xs ≡ length ys
    → xs ++ us ≡ ys ++ vs
    → (xs ≡ ys) × (us ≡ vs)
append-injective [] [] us vs l e = (refl, e)
append-injective [] (y ∷ ys) us vs l e = absurd (omega arith)
append-injective (x ∷ xs) [] us vs l e = absurd (omega arith)
append-injective (x ∷ xs) (y ∷ ys) us vs l e =
    let ih = append-injective xs ys us vs (omega arith) (cc) in (cc (ih.0), ih.1)

big_endian-injective :
    (k v w : ℕ) → v < 256 ^ k → w < 256 ^ k → big_endian k v ≡ big_endian k w → v ≡ w
big_endian-injective k v w hv hw e =
    sym (from_big_endian-big_endian k v hv)
    ∙ (ap from_big_endian e ∙ from_big_endian-big_endian k w hw)

length-front :
    (v : ℕ) (id : SessionId) (seq : ℕ) → length (v ∷ id ++ big_endian 8 seq) ≡ length id + 9
length-front v id seq = omega (arith, length-append id (big_endian 8 seq), length-big_endian 8 seq)

abbrev pub SameFields : Envelope → SessionId → Envelope → SessionId → Type 0
SameFields e id f jd =
    (e.version ≡ f.version)
    × (id ≡ jd)
    × (e.seq ≡ f.seq)
    × (e.class ≡ f.class)
    × (length e.payload ≡ length f.payload)

-- Two envelopes in range under session ids of 16 bytes that have the same header have the same
-- version, session id, sequence number, class and payload length.
pub header-injective :
    (e f : Envelope) (id jd : SessionId)
    → length id ≡ 16
    → length jd ≡ 16
    → in_range e ≡ true
    → in_range f ≡ true
    → header e id ≡ header f jd
    → SameFields e id f jd
unfolding header
header-injective e f id jd li lj re rf h =
    let (front, back) =
      append-injective (e.version ∷ id ++ big_endian 8 e.seq) (f.version ∷ jd ++ big_endian 8 f.seq)
        (e.class ∷ big_endian 4 (length e.payload)) (f.class ∷ big_endian 4 (length f.payload))
        (omega (arith, length-front e.version id e.seq, length-front f.version jd f.seq)) h in
    let (start, seq) =
      append-injective (e.version ∷ id) (f.version ∷ jd) (big_endian 8 e.seq) (big_endian 8 f.seq)
        (omega arith) front in
    (
      cc,
      cc,
      big_endian-injective 8 e.seq f.seq (ground arith) (ground arith) seq,
      cc,
      big_endian-injective 4 (length e.payload) (length f.payload) (ground arith) (ground arith)
          (cc),
    )

canonical_at_sound :
    (e : Envelope) (o : Option SessionId) (ad : Bytes)
    → canonical_at e o ≡ some ad
    → (id : SessionId) × (o ≡ some id) × (in_range e ≡ true) × (ad ≡ header e id)
unfolding canonical_at
canonical_at_sound e none ad h = absurd (cc)
canonical_at_sound e (some id) ad h =
    let (r, p) = if-eq_some (in_range e) (header e id) ad h in (id, refl, r, sym p)

-- What has a canonical form is in range, and its form is the header for the identifier it names.
pub canonical_sound :
    (e : Envelope) (ad : Bytes)
    → canonical e ≡ some ad
    → (id : SessionId) × (parse_session_id e.session_id ≡ some id)
      × (in_range e ≡ true)
      × (ad ≡ header e id)
unfolding canonical
canonical_sound e ad h = canonical_at_sound e (parse_session_id e.session_id) ad h

pub canonical_complete :
    (e : Envelope) (id : SessionId)
    → IsSessionId id
    → e.session_id ≡ session_id_text id
    → in_range e ≡ true
    → canonical e ≡ some (header e id)
unfolding canonical canonical_at
canonical_complete e id (l, b) s r = ground (arith, parse_session_id-session_id_text id l b)

-- The envelopes that `Validate` accepts, described by their fields.
pub record IsValid (e : Envelope) (id : SessionId) (max_payload : ℕ) : Type 0 where
  pub for_session : e.session_id ≡ session_id_text id
  pub ranged : in_range e ≡ true
  pub fits : length e.payload ≤ max_payload

pub validate_sound :
    (e : Envelope) (id : SessionId) (n : ℕ) → validate e id n ≡ true → IsValid e id n
unfolding validate
validate_sound e id n h = elim (Option-cases (canonical e)) [
  | inl miss ↦ absurd (false_ne_true (rw miss at h))
  | inr (ad, found) ↦ record {
    for_session = ground (arith, bytes_equal_iff e.session_id (session_id_text id));
    ranged = (canonical_sound e ad found).2;
    fits = ground arith;
  }
]
  where
    false_ne_true : false ≡ true → ⊥
    false_ne_true e = cc

pub validate_complete :
    (e : Envelope) (id : SessionId) (n : ℕ)
    → IsSessionId id
    → IsValid e id n
    → validate e id n ≡ true
unfolding validate
validate_complete e id n i v = ground (
  arith,
  canonical_complete e id i v.for_session v.ranged,
  bytes_equal_iff e.session_id (session_id_text id),
)
