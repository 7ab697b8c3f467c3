-- ===== src/Relay/Handler/Access.antt =====
-- Who gets past `handleSession` of relay/handler.go.
use aken.Base.{
  ℕ, ◌≤◌, ◌<◌, ◌≡◌, ◌≢◌, refl, ap, ◌∙◌, ◌⊎◌, inl, inr, Bool, true, false, ◌&&◌, Option, none, some,
  Bytes, arith, bytes_eq, string_eq, ◌==◌, bytes_equal_iff, leb, Bool-cases,
}
use aken.Protocol.Caps.{Caps}
use aken.Protocol.Crypto.{Crypto}
use aken.Protocol.Api.{SessionId, parse_session_id, parse_authorization_header}
use aken.Relay.Store.{SessionMeta, not_found, exists, internal, Reply, ok, err, Store, SessionLaws}
use aken.Relay.Registry.{State, get_live, drop_locked, delete_and_drop}
use aken.Relay.Registry.Dropped.{drop_locked_clears, drop_locked_store}
use aken.Relay.Live.{drop_live}
use aken.Relay.Http.{Request, Json, write_error, is_put}
use aken.Relay.Handler.{
  Handled, responds, polls, is_base, identified, expire, looked_up, parsed, handle_session,
}

abbrev pub creates : Request → Bool
creates r = is_base r.route && is_put r.method

-- The one answer of every refusal.
abbrev pub hidden : {S : Type 0} → State S → Handled S
hidden st = responds (write_error 404 "not_found") st

module _ (caps : Caps) (c : Crypto) (j : Json) {S : Type 0} (t : Store S) where
  abbrev handle : State S → Request → ℕ → ℕ → Handled S
  handle = handle_session caps c j t

  -- The session does not exist, or it is live and has another credential.
  abbrev pub NoAccess : State S → SessionId → Bytes → ℕ → Type 0
  NoAccess st id credential now =
      (t.session st.store id ≡ err not_found)
      ⊎ ((sess : SessionMeta) × (t.session st.store id ≡ ok sess)
          × (now < sess.expires_at)
          × (c.sha256 credential ≢ sess.credential_hash))

  looked_up-hidden :
      (st : State S) (r : Request) (id : SessionId) (credential : Bytes) (now later : ℕ)
      → creates r ≡ false
      → NoAccess st id credential now
      → looked_up caps c j t st r id (c.sha256 credential) now later (t.session st.store id)
        ≡ hidden st
  unfolding looked_up expire identified
  looked_up-hidden st r id credential now later n (inl miss) = rw (miss, n)
  looked_up-hidden st r id credential now later n (inr (sess, found, early, wrong)) =
      rw found (ground (arith, n, bytes_equal_iff (c.sha256 credential) sess.credential_hash))

  module _ (st : State S) (r : Request) (id : SessionId) (credential : Bytes) (now later : ℕ) where
    module _ (version : r.protocol ≡ "1") (names : parse_session_id r.sid ≡ some id)
        (shows : parse_authorization_header r.authorization ≡ some credential)
        (uses : creates r ≡ false) where
      handle_parsed :
          handle st r now later
          ≡ looked_up caps c j t st r id (c.sha256 credential) now later (t.session st.store id)
      unfolding handle_session parsed
      handle_parsed = rw (version, names, shows)

      -- A request under protocol version 1 with a well-formed session id and credential, which
      -- is not a PUT of the session itself, is answered 404 and changes nothing, if the store
      -- has no such session, or has one that has not expired and has another credential's hash.
      pub NoAccess-hidden : NoAccess st id credential now → handle st r now later ≡ hidden st
      NoAccess-hidden h = handle_parsed ∙ looked_up-hidden st r id credential now later uses h

  -- What is left of an expired session: nothing in the store or the registry, and a live session
  -- that a poll still holds is marked as gone.
  pub record Expired (st st' : State S) (id : SessionId) : Type 0 where
    pub not_stored : t.session st'.store id ≡ err not_found
    pub not_live : get_live st' id ≡ none
    pub told : (ref : ℕ) → get_live st id ≡ some ref → (st'.heap ref).gone ≡ true

  delete_and_drop-Expired :
      (laws : SessionLaws t) (st : State S) (id : SessionId)
      → Expired st (delete_and_drop t st id) id
  unfolding drop_locked drop_live
  delete_and_drop-Expired laws st id = record {
    not_stored =
        ap (λ s. t.session s id)
          (drop_locked_store (record st { store = (t.delete_session st.store id).1 }) id)
        ∙ laws.session-delete st.store id;
    not_live = drop_locked_clears (record st { store = (t.delete_session st.store id).1 }) id;
    told = λ ref found. ground arith;
  }

  expired_lem :
      (st : State S) (r : Request) (id : SessionId) (hash : Bytes) (now later : ℕ)
      (sess : SessionMeta)
      → creates r ≡ false
      → t.session st.store id ≡ ok sess
      → sess.expires_at ≤ now
      → looked_up caps c j t st r id hash now later (t.session st.store id)
        ≡ hidden (delete_and_drop t st id)
  unfolding looked_up expire identified
  expired_lem st r id hash now later sess n found late =
      let e : leb sess.expires_at now ≡ true = ground arith in rw (found, e, found, e, n)

  -- A request under protocol version 1 with a well-formed session id and any well-formed
  -- credential, which is not a PUT of the session itself, to a session that has expired, is
  -- answered 404 over a store that keeps the laws on sessions; afterwards neither the store nor
  -- the registry has the session, and a live session that a poll may still hold is marked as
  -- gone.
  pub Expired-hidden :
      (laws : SessionLaws t) (st : State S) (r : Request) (id : SessionId) (credential : Bytes)
      (sess : SessionMeta) (now later : ℕ)
      → r.protocol ≡ "1"
      → parse_session_id r.sid ≡ some id
      → parse_authorization_header r.authorization ≡ some credential
      → creates r ≡ false
      → t.session st.store id ≡ ok sess
      → sess.expires_at ≤ now
      → (st' : State S) × (handle st r now later ≡ hidden st') × Expired st st' id
  Expired-hidden laws st r id credential sess now later v n s u found late = (
    delete_and_drop t st id,
    handle_parsed st r id credential now later v n s u
        ∙ expired_lem st r id (c.sha256 credential) now later sess u found late,
    delete_and_drop-Expired laws st id,
  )

  abbrev pub Succeeds : Handled S → Type 0
  Succeeds (responds r st) = r.status < 400
  Succeeds (polls id ref kind seconds st) = Unit

  -- The request names a session that has not expired, and shows its credential.
  pub record Granted (st : State S) (r : Request) (now : ℕ) : Type 0 where
    pub id : SessionId
    pub credential : Bytes
    pub sess : SessionMeta
    pub named : parse_session_id r.sid ≡ some id
    pub shown : parse_authorization_header r.authorization ≡ some credential
    pub found : t.session st.store id ≡ ok sess
    pub early : now < sess.expires_at
    pub matches : c.sha256 credential ≡ sess.credential_hash

  module _ (st : State S) (r : Request) (now later : ℕ) (uses : creates r ≡ false) where
    looked_up_sound :
        (id : SessionId) (hash : Bytes) (found : Reply SessionMeta)
        → t.session st.store id ≡ found
        → Succeeds (looked_up caps c j t st r id hash now later found)
        → (sess : SessionMeta) × (found ≡ ok sess)
          × (now < sess.expires_at)
          × (hash ≡ sess.credential_hash)
    unfolding looked_up identified expire
    looked_up_sound id hash (err not_found) e h = absurd (omega (arith, rw uses at h))
    looked_up_sound id hash (err exists) e h = absurd (omega arith)
    looked_up_sound id hash (err internal) e h = absurd (omega arith)
    looked_up_sound id hash (ok sess) e h = elim (Bool-cases (leb sess.expires_at now)) [
      | inl late ↦ absurd (omega (arith, rw (late, e, late, uses) at h))
      | inr early ↦ elim (Bool-cases (hash == sess.credential_hash)) [
        | inl same ↦ (sess, refl, ground arith, (bytes_equal_iff hash sess.credential_hash).0 same)
        | inr other ↦ absurd (omega (arith, rw (early, uses, other) at h))
      ]
    ]

    parsed_sound :
        (o : Option SessionId) (p : Option Bytes)
        → parse_session_id r.sid ≡ o
        → parse_authorization_header r.authorization ≡ p
        → Succeeds (parsed caps c j t st r now later o p)
        → Granted st r now
    unfolding parsed
    parsed_sound none p eo ep h = absurd (omega arith)
    parsed_sound (some i) none eo ep h = absurd (omega arith)
    parsed_sound (some i) (some k) eo ep h =
        let (s, f, e, m) = looked_up_sound i (c.sha256 k) (t.session st.store i) refl h in
        record {
          id = i;
          credential = k;
          sess = s;
          named = eo;
          shown = ep;
          found = f;
          early = e;
          matches = m;
        }

    -- A request that is not a PUT of a session itself, and that `handle_session` answers with a
    -- status below 400 or takes as a poll, names a session that the store has and that has not
    -- expired, and shows a credential whose hash is the session's.
    pub success-Granted : Succeeds (handle st r now later) → Granted st r now
    unfolding handle_session
    success-Granted h = elim (Bool-cases (r.protocol == "1")) [
      | inl good ↦
          parsed_sound (parse_session_id r.sid) (parse_authorization_header r.authorization) refl
            refl (rw good at h)
      | inr bad ↦ absurd (omega (arith, rw bad at h))
    ]
