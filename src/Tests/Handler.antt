-- ===== src/Tests/Handler.antt =====
-- The handler over the store in memory at concrete requests.
use aken.Base.Map
use aken.Base.{
  length, ◌≤◌, ◌*◌, ◌^◌, ℕ, ◌<◌, ◌≡◌, refl, inr, some, [], Bytes, arith, replicate, false, bytes_eq,
  take,
}
use aken.Protocol.Caps.{default_caps}
use aken.Protocol.Api.{CreateSessionRequest, authorization_header, parse_authorization_header}
use aken.Protocol.Api.RoundTrip.{parse_authorization_header-authorization_header}
use aken.Relay.Store.{SessionMeta, ok}
use aken.Relay.Memory.{MemoryStore, MemorySession, memory_store, session, new_memory_store}
use aken.Relay.Memory
use aken.Relay.Memory.Counted.{IsValid, IsCounted, update-IsValid, new_memory_store-IsValid}
use aken.Relay.Memory.Contract.{memory_store-SessionLaws, memory_store-ObjectLaws}
use aken.Relay.Registry.{State, drop_locked}
use aken.Relay.Http.{
  Method, get, put, Route, base, chunk, manifest, Request, read_body, write, empty, session_info,
}
use aken.Relay.Handler.{handle_session}
use aken.Relay.Handler.Access.{
  NoAccess-hidden, Expired-hidden, success-Granted, hidden, Granted, Expired, Succeeds,
}
use aken.Relay.Create.{create, meta_of, info_of}
use aken.Relay.BlobRoute.{chunk_indexed}
use aken.Relay.BlobRoute
use aken.Relay.Handler.Creation.{Created, create_sound}
use aken.Relay.Handler.Upload.{manifest_complete}
use aken.Tests.Samples.{
  crypto, id, id_text, key, other_key, blob_session, full_session, store_with, state_with, creation,
  json,
}
use aken.Tests.Protocol.{id_parses}

abbrev ask : Bytes → Method → Route → Request
ask credential method route = record {
  method = method;
  route = route;
  protocol = "1";
  sid = id_text;
  authorization = authorization_header credential;
  wait = [];
  body = replicate 17 1;
  broken = false;
}

shows_key : parse_authorization_header (authorization_header key) ≡ some key
shows_key = parse_authorization_header-authorization_header key refl (omega arith)

shows_other : parse_authorization_header (authorization_header other_key) ≡ some other_key
shows_other = parse_authorization_header-authorization_header other_key refl (omega arith)

abbrev st : State MemoryStore
st = state_with blob_session

abbrev meta : SessionMeta
meta = record {
  mode = "blob";
  collector_key = [];
  collector_mac = [];
  credential_hash = take 4 key;
  expires_at = 100;
  chunk_count = 1;
  chunks_stored = 0;
  manifest_stored = false;
}

stored_meta : session (store_with blob_session) id ≡ ok meta
unfolding session Map.get Map.insert Map.empty
stored_meta = refl

NoAccess-hidden_example :
    handle_session default_caps crypto json memory_store st (ask other_key get base) 5 5 ≡ hidden st
NoAccess-hidden_example =
    NoAccess-hidden default_caps crypto json memory_store st (ask other_key get base) id other_key 5
      5 refl id_parses shows_other refl (inr (meta, stored_meta, omega arith, λ e. absurd (cc)))

Expired-hidden_example :
    (st' : State MemoryStore) × (handle_session default_caps crypto json memory_store st
        (ask key get base)
        100
        100
      ≡ hidden st')
    × Expired default_caps crypto json memory_store st st' id
Expired-hidden_example =
    Expired-hidden default_caps crypto json memory_store memory_store-SessionLaws st
      (ask key get base) id key meta 100 100 refl id_parses shows_key refl stored_meta (omega arith)

fetch-Succeeds :
    Succeeds default_caps crypto json memory_store
      (handle_session default_caps crypto json memory_store st (ask key get base) 5 5)
unfolding handle_session
fetch-Succeeds = rw (id_parses, shows_key, stored_meta) (omega arith)

success-Granted_example : Granted default_caps crypto json memory_store st (ask key get base) 5
success-Granted_example =
    success-Granted default_caps crypto json memory_store st (ask key get base) 5 5 refl
      fetch-Succeeds

store-IsValid : (sess : MemorySession) → IsCounted sess → IsValid (store_with sess)
unfolding new_memory_store
store-IsValid sess c = update-IsValid new_memory_store id sess c new_memory_store-IsValid

full : State MemoryStore
full = state_with full_session

full-IsValid : IsValid full.store
unfolding full
full-IsValid =
    store-IsValid full_session (record { sized = refl; counted = refl; word = omega arith })

closed : State MemoryStore
unfolding full
closed = record full {
  store = store_with (record full_session { manifest = some (replicate 17 1) });
}

full_meta : SessionMeta
full_meta = record meta { chunks_stored = 1 }

accepts_manifest : BlobRoute.manifest default_caps memory_store full (ask key put manifest) id ≡ (
  write 201 empty,
  record full { store = (Memory.put_manifest full.store id (replicate 17 1)).1 },
)
unfolding BlobRoute.manifest read_body full session Memory.put_manifest Map.get Map.insert Map.empty
accepts_manifest = refl

manifest_complete_example :
    (sess : SessionMeta) × (session full.store id ≡ ok sess)
    × ((i : ℕ)
        → i < sess.chunk_count
        → (a : Bytes) × (Memory.get_chunk
              (Memory.put_manifest full.store id (replicate 17 1)).1
              id
              i
            ≡ ok a))
manifest_complete_example =
    manifest_complete default_caps IsValid memory_store memory_store-ObjectLaws full
      (record full { store = (Memory.put_manifest full.store id (replicate 17 1)).1 })
      (ask key put manifest) id (write 201 empty) full-IsValid refl accepts_manifest refl

st-IsValid : IsValid st.store
st-IsValid =
    store-IsValid blob_session (record { sized = refl; counted = refl; word = omega arith })

abbrev put_state : State MemoryStore
put_state = record st { store = (Memory.put_chunk st.store id 0 (replicate 17 1)).1 }

accepts_chunk :
    chunk_indexed default_caps memory_store st (ask key put (chunk [])) id meta (replicate 17 1) 0
    ≡ (write 201 empty, put_state)
unfolding chunk_indexed Memory.put_chunk Map.get Map.insert Map.empty
accepts_chunk = refl

empty_state : State MemoryStore
empty_state = record st { store = record { sessions = Map.empty } }

abbrev created_meta : SessionMeta
created_meta = meta_of default_caps creation (take 4 key) 5

abbrev created_state : State MemoryStore
created_state = record empty_state {
  store = (Memory.create_session empty_state.store id created_meta).1;
}

creates_it :
    create default_caps memory_store json empty_state (ask key put base) id (take 4 key) 5
    ≡ (write 201 (session_info (info_of created_meta id)), created_state)
unfolding create read_body empty_state Memory.create_session Map.get Map.insert Map.empty meta_of
    drop_locked
creates_it = refl

create_sound_example :
    (q : CreateSessionRequest) × (length (ask key put base).body ≤ 2 * 2 ^ 20)
    × (json.create_request (ask key put base).body ≡ some q)
    × Created default_caps memory_store created_state q id (take 4 key) 5
create_sound_example =
    create_sound default_caps memory_store json memory_store-SessionLaws empty_state created_state
      (ask key put base) id (take 4 key) 5 (write 201 (session_info (info_of created_meta id)))
      creates_it refl
