-- ===== src/Tests/LocalSession.antt =====
-- The local session at concrete inputs: a join in mode `session`.
use aken.Base.{
  ◌⊎◌, ℕ, ◌≡◌, refl, true, false, some, [], ◌∷◌, Bytes, arith, replicate, length-replicate, zero,
  suc,
}
use aken.Encoding.Alphabet.{codes, IsBytes}
use aken.Protocol.Crypto.{Crypto, KdfLaws}
use aken.Protocol.Api.{SessionInfo, encode_key, decode_key, session_id_text}
use aken.Protocol.Api.RoundTrip.{decode_key-encode_key}
use aken.Protocol.Token
use aken.Protocol.Token.{Token}
use aken.Protocol.Envelope.{ok, content_root, root_of, collector_mac, verify_collector_mac}
use aken.LocalSession.{
  blob_session, StoredSession, Json, done, missing, load, save, saved, JoinReply, joined, not_there,
  join,
}
use aken.LocalSession.Joined.{Rooted, join_cases, join_agrees}
use aken.LocalSession.Stored.{load-save}
use aken.Tests.Samples.{crypto, exchange, exchange-ExchangeLaws}

sevens : (n : ℕ) → IsBytes (replicate n 7)
sevens zero = tt
sevens (suc n) = (omega arith, sevens n)

crypto-KdfLaws : KdfLaws crypto
crypto-KdfLaws = record {
  length-hkdf = λ secret salt info n. length-replicate n 7;
  hkdf-bytes = λ secret salt info n. sevens n;
}

abbrev token : Token
token = record { secret = replicate 32 0 }

abbrev blob_info : SessionInfo
blob_info = record {
  mode = "blob";
  joined = false;
  collector_key = [];
  collector_mac = [];
  session_id = [];
  expires_at = 90;
  chunk_count = 1;
  chunks_stored = 1;
  manifest_stored = true;
}

abbrev ask : Bytes → Bytes → JoinReply
ask key mac = not_there

abbrev relay : Bytes
relay = codes "https://relay.example"

abbrev stored : StoredSession
stored = record {
  version = 2;
  mode = "blob";
  content_root = [];
  next_job_seq = 0;
  next_result_seq = 0;
  token = Token.encode token;
  relay = relay;
  session_id = session_id_text (Token.session_id crypto token);
  expires_at = 90;
  joined_at = 5;
  joined_via = "cli";
}

blob_joined : join crypto exchange token relay blob_info "cli" 5 [] ask ≡ done stored
unfolding join
blob_joined = refl

abbrev json : Json
json = record { marshal = λ s. []; unmarshal = λ b. some stored }

load-save_example : load crypto json (save json false missing stored).1 ≡ done stored
load-save_example =
    load-save crypto exchange token relay crypto-KdfLaws refl (omega arith) blob_info "cli" 5 refl
      refl refl json [] ask missing stored blob_joined refl read_again
  where
    read_again : json.unmarshal (json.marshal (saved stored)) ≡ some (saved stored)
    read_again = unfold saved in refl

-- A crypto whose MACs have 32 bytes.
abbrev signing : Crypto
signing = record crypto { hmac = λ key message. replicate 32 3 }

abbrev collector : Bytes
collector = 9 ∷ replicate 31 0

abbrev private : Bytes
private = 4 ∷ replicate 31 0

abbrev mac : Bytes
mac = replicate 32 3

abbrev root : Bytes
root = replicate 32 7

abbrev live_info : SessionInfo
live_info = record blob_info {
  mode = "session";
  collector_key = encode_key collector;
  collector_mac = encode_key mac;
}

abbrev accept : Bytes → Bytes → JoinReply
accept key m = joined (record {
  collector_key = encode_key collector;
  collector_mac = encode_key mac;
  mcp_key = encode_key key;
  mcp_mac = [];
  via = "cli";
  joined_at = 6;
})

abbrev live : StoredSession
live = record stored {
  mode = "session";
  content_root = encode_key root;
  next_job_seq = 1;
  next_result_seq = 1;
  session_id = session_id_text (Token.session_id signing token);
  joined_at = 6;
}

key_decodes : decode_key (encode_key collector) ≡ some collector
key_decodes = decode_key-encode_key collector refl (omega arith)

mac_decodes : decode_key (encode_key mac) ≡ some mac
mac_decodes = decode_key-encode_key mac refl (omega arith)

live_joined : join signing exchange token relay live_info "cli" 5 private accept ≡ done live
unfolding join verify_collector_mac collector_mac content_root root_of
live_joined = ground (arith, key_decodes, mac_decodes)

join_agrees_example :
    (r : Bytes) × (live.content_root ≡ encode_key r)
    × (content_root signing exchange collector private
          (Token.session_id signing token)
          collector
          private
        ≡ ok r)
join_agrees_example =
    join_agrees signing exchange token relay exchange-ExchangeLaws live_info "cli" 5 private
      collector accept live live_joined refl key_decodes

join_cases_example :
    (live ≡ blob_session signing exchange token relay live_info "cli" 5)
    ⊎ Rooted signing exchange token relay live_info private
        (blob_session signing exchange token relay live_info "cli" 5)
        live
join_cases_example =
    join_cases signing exchange token relay live_info "cli" 5 private accept live live_joined
