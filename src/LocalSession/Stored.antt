-- ===== src/LocalSession/Stored.antt =====
-- Joining, saving and loading again (internal/session/session.go).
use aken.Base.{
  ℕ, ◌≡◌, refl, sym, ap, ◌++◌, subst, true, false, ◌||◌, inl, inr, Option, none, some, String,
  Bytes, string_eq, bytes_eq, ◌==◌, arith, eqb, [], length, ==-refl,
}
use aken.Encoding.Alphabet.{IsBytes, codes}
use aken.Protocol.Crypto.{Crypto, Exchange, KdfLaws}
use aken.Protocol.Api.{SessionInfo, session_id_text}
use aken.Protocol.Api.RoundTrip.{decode_key-encode_key}
use aken.Protocol.Token
use aken.Protocol.Token.{Token, parse_token, encode}
use aken.Protocol.Token.RoundTrip.{parse_token-encode}
use aken.Protocol.Envelope.{Result, ok, err, content_root, root_of, session_label}
use aken.LocalSession.{
  StoredSession, done, File, Json, names_session, load, load_decoded, saved, save, JoinReply,
  blob_session, join,
}
use aken.LocalSession.Joined.{live_from, own_root, join_cases}

abbrev ok_value {ℓ} : {A : Type ℓ} → A → Result A → A
ok_value a (ok b) = b
ok_value a (err e) = a

module _ (c : Crypto) (x : Exchange) (t : Token) (relay : Bytes) (kdf : KdfLaws c)
    (sized : length t.secret ≡ 32) (bytes : IsBytes t.secret) where
  root-sized :
      (private key root : Bytes)
      → own_root c x t relay private key ≡ ok root
      → (length root ≡ 32) × IsBytes root
  unfolding content_root root_of
  root-sized private key root h = go (x.shared private key) h
    where
      go :
          (o : Option Bytes)
          → root_of c x (Token.session_id c t) key (x.public_key private) o ≡ ok root
          → (length root ≡ 32) × IsBytes root
      go none h = absurd (cc)
      go (some secret) h =
          let salt =
            c.sha256 (session_label ++ Token.session_id c t ++ key ++ x.public_key private) in
          let same : c.hkdf secret salt (codes "content-root") 32 ≡ root = ap (ok_value []) h in
          (
            rw (← same) (kdf.length-hkdf secret salt (codes "content-root") 32),
            subst IsBytes same (kdf.hkdf-bytes secret salt (codes "content-root") 32),
          )

  -- A session whose fields pass Load's tests, with the token and id of a join.
  names :
      (s : StoredSession)
      → s.token ≡ encode t
      → s.session_id ≡ session_id_text (Token.session_id c t)
      → names_session c s (parse_token s.token) ≡ true
  names s e i =
      rw (e, parse_token-encode t sized bytes, i) (==-refl (session_id_text (Token.session_id c t)))

  module _ (info : SessionInfo) (via : String) (now : ℕ) (named : (relay == []) ≡ false)
      (expires : eqb info.expires_at 0 ≡ false)
      (known : (via == "cli" || via == "chat") ≡ true) where
    abbrev blob : StoredSession
    blob = blob_session c x t relay info via now

    blob_loads : eqb now 0 ≡ false → load_decoded c (some (saved blob)) ≡ done blob
    unfolding saved
    blob_loads n = ground (arith, names blob refl refl)

    live_loads :
        (root : Bytes) (at : ℕ)
        → length root ≡ 32
        → IsBytes root
        → eqb at 0 ≡ false
        → load_decoded c (some (saved (live_from c x t relay blob root at)))
          ≡ done (live_from c x t relay blob root at)
    unfolding saved
    live_loads root at l b n = ground (
      arith,
      names (live_from c x t relay blob root at) refl refl,
      decode_key-encode_key root l b,
    )

    -- For a token of 32 bytes, an HKDF that returns as many bytes as it is asked for, a relay that is
    -- named, times that are not zero, and a join via `cli` or `chat`: the session that a join makes
    -- is, once Save has written it, what Load returns, if JSON reads what it wrote of it.
    pub load-save :
        (j : Json) (private : Bytes) (ask : Bytes → Bytes → JoinReply) (file : File)
        (s : StoredSession)
        → join c x t relay info via now private ask ≡ done s
        → eqb s.joined_at 0 ≡ false
        → j.unmarshal (j.marshal (saved s)) ≡ some (saved s)
        → load c j (save j false file s).1 ≡ done s
    unfolding load save
    load-save j private ask file s h n again =
        rw again (elim (join_cases c x t relay info via now private ask s h) [
          | inl made ↦
              subst (λ s. load_decoded c (some (saved s)) ≡ done s) (sym made)
                (blob_loads (rw made at n))
          | inr live ↦
              subst (λ s. load_decoded c (some (saved s)) ≡ done s) (sym live.made)
                (live_loads live.root live.at (root-sized private live.key live.root live.rooted).0
                  (root-sized private live.key live.root live.rooted).1
                  (subst (λ (s : StoredSession). eqb s.joined_at 0 ≡ false) live.made n))
        ])
