-- ===== src/LocalSession/Joined.antt =====
-- What a join of internal/session/session.go leaves: keys that the collector has too, and a file
-- that loads.
use aken.Base.{
  ℕ, ◌≡◌, ◌≢◌, refl, sym, ap, ◌∙◌, subst, true, false, ◌||◌, ◌⊎◌, inl, inr, Option, none, some,
  String, Bytes, string_eq, bytes_eq, ◌==◌, arith, some_inj, if-eq_some, Bool-cases,
}
use aken.Protocol.Crypto.{Crypto, Exchange, ExchangeLaws}
use aken.Protocol.Api.{SessionInfo, JoinInfo, encode_key, decode_key}
use aken.Protocol.Token
use aken.Protocol.Token.{Token, parse_token, encode}
use aken.Protocol.Envelope.{Result, ok, err, verify_collector_mac, mcp_mac, content_root}
use aken.Protocol.Envelope.Agreement.{content_root_agrees}
use aken.LocalSession.{
  StoredSession, done, JoinReply, joined, not_there, other_error, blob_session, verified,
  join_rooted, join_confirmed, join_answered, join_verified, join,
}

module _ (c : Crypto) (x : Exchange) (t : Token) (relay : Bytes) where
  -- The session that a join makes of `stored`, with a root and a time.
  abbrev pub live_from : StoredSession → Bytes → ℕ → StoredSession
  live_from stored root at = record stored {
    mode = "session";
    content_root = encode_key root;
    next_job_seq = 1;
    next_result_seq = 1;
    joined_at = at;
  }

  abbrev pub own_root : Bytes → Bytes → Result Bytes
  own_root private key =
      content_root c x private key (Token.session_id c t) key (x.public_key private)

  -- A live session: the collector's public key was vouched for by its MAC under the token, and the
  -- content root is that of this key and the own private key.
  pub record Rooted (info : SessionInfo) (private : Bytes) (stored s : StoredSession) : Type 0 where
    pub key : Bytes
    pub mac : Bytes
    pub root : Bytes
    pub at : ℕ
    pub key_sent : decode_key info.collector_key ≡ some key
    pub mac_sent : decode_key info.collector_mac ≡ some mac
    pub vouched :
        verify_collector_mac c (Token.exchange_key c t) (Token.session_id c t) key mac ≡ true
    pub rooted : own_root private key ≡ ok root
    pub made : s ≡ live_from stored root at

  verified_sound :
      (k m : Option Bytes) (key : Bytes)
      → verified c x t relay k m ≡ some key
      → (k ≡ some key)
        × ((mac : Bytes) × (m ≡ some mac)
            × (verify_collector_mac c (Token.exchange_key c t) (Token.session_id c t) key mac
                ≡ true))
  verified_sound none m key h = absurd (cc)
  verified_sound (some k) none key h = absurd (cc)
  verified_sound (some k) (some mac) key h =
      let (good, same) =
        if-eq_some (verify_collector_mac c (Token.exchange_key c t) (Token.session_id c t) k mac) k
          key h in
      (
        ap some same,
        (
          mac,
          refl,
          subst
              (λ k.
                verify_collector_mac c (Token.exchange_key c t) (Token.session_id c t) k mac ≡ true)
              same good,
        ),
      )

  join_rooted_sound :
      (stored s : StoredSession) (info : JoinInfo) (r : Result Bytes)
      → join_rooted c x t relay stored info r ≡ done s
      → (root : Bytes) × (r ≡ ok root) × (s ≡ live_from stored root info.joined_at)
  join_rooted_sound stored s info (err e) h = absurd (cc)
  join_rooted_sound stored s info (ok root) h = (root, refl, ground arith)

  join_confirmed_sound :
      (stored s : StoredSession) (private key : Bytes) (info : JoinInfo) (o : Option Bytes)
      → join_confirmed c x t relay stored private key info o ≡ done s
      → (root : Bytes) × (own_root private key ≡ ok root)
        × (s ≡ live_from stored root info.joined_at)
  join_confirmed_sound stored s private key info none h = absurd (cc)
  join_confirmed_sound stored s private key info (some again) h =
      join_rooted_sound stored s info (own_root private key) (ground arith)

  join_answered_sound :
      (stored s : StoredSession) (private key : Bytes) (reply : JoinReply)
      → join_answered c x t relay stored private key reply ≡ done s
      → (root : Bytes) × (own_root private key ≡ ok root)
        × ((at : ℕ) × (s ≡ live_from stored root at))
  join_answered_sound stored s private key not_there h = absurd (cc)
  join_answered_sound stored s private key other_error h = absurd (cc)
  join_answered_sound stored s private key (joined info) h =
      let (root, r, made) =
        join_confirmed_sound stored s private key info
          (verified c x t relay (decode_key info.collector_key) (decode_key info.collector_mac))
          h in
      (root, r, (info.joined_at, made))

  join_verified_sound :
      (info : SessionInfo) (stored s : StoredSession) (private : Bytes)
      (ask : Bytes → Bytes → JoinReply) (o : Option Bytes)
      → verified c x t relay (decode_key info.collector_key) (decode_key info.collector_mac) ≡ o
      → join_verified c x t relay stored private ask o ≡ done s
      → Rooted info private stored s
  join_verified_sound info stored s private ask none e h = absurd (cc)
  join_verified_sound info stored s private ask (some key) e h =
      let public = x.public_key private in
      let (k, (mac, m, good)) =
        verified_sound (decode_key info.collector_key) (decode_key info.collector_mac) key e in
      let (root, r, (at, made)) =
        join_answered_sound stored s private key
          (ask public (mcp_mac c (Token.exchange_key c t) (Token.session_id c t) key public)) h in
      record {
        key = key;
        mac = mac;
        root = root;
        at = at;
        key_sent = k;
        mac_sent = m;
        vouched = good;
        rooted = r;
        made = made;
      }

  -- A session that a join makes is the blob session of the token, or a live one with a content root
  -- that comes from the own private key and the collector's public key as the relay gave it, for
  -- which the relay also gave the collector's right MAC under the token.
  pub join_cases :
      (info : SessionInfo) (via : String) (now : ℕ) (private : Bytes)
      (ask : Bytes → Bytes → JoinReply) (s : StoredSession)
      → join c x t relay info via now private ask ≡ done s
      → (s ≡ blob_session c x t relay info via now)
        ⊎ Rooted info private (blob_session c x t relay info via now) s
  unfolding join
  join_cases info via now private ask s h =
      let stored = blob_session c x t relay info via now in
      let o =
        verified c x t relay (decode_key info.collector_key) (decode_key info.collector_mac) in
      elim (Bool-cases (info.mode == "" || info.mode == "blob")) [
        | inl blob ↦ inl (ground arith)
        | inr live ↦ inr (join_verified_sound info stored s private ask o refl (ground arith))
      ]

  -- If a join, for an exchange whose two sides agree, makes a live session, and the key that the
  -- relay gave for the collector is the public key of some private key, then the content root that
  -- is stored is the one that this private key gives with the client's public key.
  pub join_agrees :
      (laws : ExchangeLaws x) (info : SessionInfo) (via : String) (now : ℕ)
      (private collector : Bytes) (ask : Bytes → Bytes → JoinReply) (s : StoredSession)
      → join c x t relay info via now private ask ≡ done s
      → s.mode ≡ "session"
      → decode_key info.collector_key ≡ some (x.public_key collector)
      → (root : Bytes) × (s.content_root ≡ encode_key root)
        × (content_root c x collector
              (x.public_key private)
              (Token.session_id c t)
              (x.public_key collector)
              (x.public_key private)
            ≡ ok root)
  join_agrees laws info via now private collector ask s h m k =
      elim (join_cases info via now private ask s h) [
        | inl blob ↦ absurd (not_live (sym (ap (λ (s : StoredSession). s.mode) blob) ∙ m))
        | inr made ↦ agreed made
      ]
    where
      not_live : ◌≢◌ {A = String} "blob" "session"
      not_live e = let clash : false ≡ true = ap (λ m. m == "session") e in cc

      agreed :
          Rooted info private (blob_session c x t relay info via now) s
          → (root : Bytes) × (s.content_root ≡ encode_key root)
            × (content_root c x collector
                  (x.public_key private)
                  (Token.session_id c t)
                  (x.public_key collector)
                  (x.public_key private)
                ≡ ok root)
      agreed made =
          let same : made.key ≡ x.public_key collector = some_inj (sym made.key_sent ∙ k) in
          (
            made.root,
            ap (λ (s : StoredSession). s.content_root) made.made,
            content_root_agrees c x laws collector private (Token.session_id c t)
                ∙ subst (λ key. own_root private key ≡ ok made.root) same made.rooted,
          )
