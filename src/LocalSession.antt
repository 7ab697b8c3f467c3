-- ===== src/LocalSession.antt =====
-- internal/session/session.go: the session that the local MCP server keeps in a file, and how it
-- joins. A time is a number of nanoseconds, and 0 is the zero time.
pub mod Joined
pub mod Stored
use aken.Base.{
  ℕ, ◌+◌, Bool, true, false, ◌&&◌, ◌||◌, not, Option, none, some, String, Bytes, string_eq,
  bytes_eq, ◌==◌, eqb, ltb, leb, if◌then◌else◌, is_some, [],
}
use aken.Protocol.Caps.{max_session_seq}
use aken.Protocol.Crypto.{Crypto, Exchange}
use aken.Protocol.Api.{SessionInfo, JoinInfo, session_id_text, encode_key, decode_key}
use aken.Protocol.Token
use aken.Protocol.Token.{Token, parse_token, encode}
use aken.Protocol.Envelope.{Result, ok, err, verify_collector_mac, mcp_mac, content_root}

pub record StoredSession : Type 0 where
  pub version : ℕ
  pub mode : String
  pub content_root : Bytes
  pub next_job_seq : ℕ
  pub next_result_seq : ℕ
  pub token : Bytes
  pub relay : Bytes
  pub session_id : Bytes
  pub expires_at : ℕ
  pub joined_at : ℕ
  pub joined_via : String

pub data Failure : Type 0 where
  no_session unreadable_file malformed unknown_mode bad_authentication : Failure
  not_supported relay_failed exchange_failed : Failure

pub data Reply {ℓ} (A : Type ℓ) : Type ℓ where
  done : A → Reply A
  failed : Failure → Reply A

-- The session file, as os.ReadFile finds it.
pub data File : Type 0 where
  missing unreadable : File
  holds : Bytes → File

-- encoding/json on a StoredSession.
pub record Json : Type 0 where
  pub marshal : StoredSession → Bytes
  pub unmarshal : Bytes → Option StoredSession

-- (s Session) Live
abbrev pub is_live : StoredSession → Bool
is_live s = s.mode == "session"

abbrev pub expired : StoredSession → ℕ → Bool
expired s now = leb s.expires_at now

-- The tests of Load before it settles the mode.
abbrev pub is_plain : StoredSession → Bool
is_plain s =
    (eqb s.version 1 || eqb s.version 2)
    && not (s.relay == [])
    && not (eqb s.expires_at 0)
    && not (eqb s.joined_at 0)
    && (s.joined_via == "cli" || s.joined_via == "chat")

abbrev pub with_mode : StoredSession → StoredSession
with_mode s = if eqb s.version 1 || s.mode == "" then record s { mode = "blob" } else s

abbrev pub in_sequence : ℕ → Bool
in_sequence n = leb 1 n && leb n (max_session_seq + 1)

abbrev pub has_live_state : StoredSession → Bool
has_live_state s =
    is_some (decode_key s.content_root)
    && in_sequence s.next_job_seq
    && in_sequence s.next_result_seq

module _ (c : Crypto) where
  abbrev pub names_session : StoredSession → Option Token → Bool
  names_session s none = false
  names_session s (some t) = session_id_text (Token.session_id c t) == s.session_id

  abbrev pub load_moded : StoredSession → Reply StoredSession
  load_moded s =
      if not (s.mode == "blob" || s.mode == "session")
      then failed malformed
      else if is_live s && not (has_live_state s)
      then failed malformed
      else if not (names_session s (parse_token s.token))
      then failed malformed
      else done s

  abbrev pub load_decoded : Option StoredSession → Reply StoredSession
  load_decoded none = failed malformed
  load_decoded (some s) = if not (is_plain s) then failed malformed else load_moded (with_mode s)

  unfoldable pub load : Json → File → Reply StoredSession
  load j missing = failed no_session
  load j unreadable = failed unreadable_file
  load j (holds bytes) = load_decoded (j.unmarshal bytes)

  -- Whether CheckJoin lets a token be joined: not if it is that of the stored live session.
  abbrev pub may_join : Token → Reply StoredSession → Bool
  may_join t (done s) = not (is_live s && s.session_id == session_id_text (Token.session_id c t))
  may_join t (failed why) = true

  unfoldable pub check_join : Json → File → Token → Bool
  unfolding load
  check_join j file t = may_join t (load j file)

-- What Save writes of a session.
unfoldable pub saved : StoredSession → StoredSession
saved s =
    let moded =
      if s.mode == "" then record s { version = 2; mode = "blob" } else record s { version = 2 } in
    if is_live moded
    then moded
    else record moded { content_root = []; next_job_seq = 0; next_result_seq = 0 }

-- Save writes a file beside the old one and renames it, so the old one stays where a step fails.
unfoldable pub save : Json → Bool → File → StoredSession → Bool × File
unfolding saved
save j fails file s = if fails then (false, file) else (true, holds (j.marshal (saved s)))

-- The relay's answer to the join.
pub data JoinReply : Type 0 where
  joined : JoinInfo → JoinReply
  not_there other_error : JoinReply

module _ (c : Crypto) (x : Exchange) (t : Token) (relay : Bytes) where
  abbrev pub blob_session : SessionInfo → String → ℕ → StoredSession
  blob_session info via now = record {
    version = 2;
    mode = "blob";
    content_root = [];
    next_job_seq = 0;
    next_result_seq = 0;
    token = encode t;
    relay = relay;
    session_id = session_id_text (Token.session_id c t);
    expires_at = info.expires_at;
    joined_at = now;
    joined_via = via;
  }

  -- The collector's key of an answer, if its MAC is right under the token.
  abbrev pub verified : Option Bytes → Option Bytes → Option Bytes
  verified none mac = none
  verified (some key) none = none
  verified (some key) (some mac) =
      if verify_collector_mac c (Token.exchange_key c t) (Token.session_id c t) key mac
      then some key
      else none

  abbrev pub join_rooted : StoredSession → JoinInfo → Result Bytes → Reply StoredSession
  join_rooted stored info (err e) = failed exchange_failed
  join_rooted stored info (ok root) = done (record stored {
    mode = "session";
    content_root = encode_key root;
    next_job_seq = 1;
    next_result_seq = 1;
    joined_at = info.joined_at;
  })

  abbrev pub join_confirmed :
      StoredSession → Bytes → Bytes → JoinInfo → Option Bytes → Reply StoredSession
  join_confirmed stored private key info none = failed bad_authentication
  join_confirmed stored private key info (some again) =
      if not (again == key)
      then failed bad_authentication
      else join_rooted stored info
          (content_root c x private key (Token.session_id c t) key (x.public_key private))

  abbrev pub join_answered : StoredSession → Bytes → Bytes → JoinReply → Reply StoredSession
  join_answered stored private key not_there = failed not_supported
  join_answered stored private key other_error = failed relay_failed
  join_answered stored private key (joined info) =
      join_confirmed stored private key info
        (verified (decode_key info.collector_key) (decode_key info.collector_mac))

  -- `ask` is the request to the relay, with this side's public key and MAC.
  abbrev pub join_verified :
      StoredSession → Bytes → (Bytes → Bytes → JoinReply) → Option Bytes → Reply StoredSession
  join_verified stored private ask none = failed bad_authentication
  join_verified stored private ask (some key) =
      let public = x.public_key private in
      join_answered stored private key
        (ask public (mcp_mac c (Token.exchange_key c t) (Token.session_id c t) key public))

  -- The private key is GenerateKeyPair's.
  unfoldable pub join :
      SessionInfo → String → ℕ → Bytes → (Bytes → Bytes → JoinReply) → Reply StoredSession
  join info via now private ask =
      let stored = blob_session info via now in
      if info.mode == "" || info.mode == "blob"
      then done stored
      else if not (info.mode == "session")
      then failed unknown_mode
      else join_verified stored private ask
          (verified (decode_key info.collector_key) (decode_key info.collector_mac))
