-- ===== src/Relay/Memory.antt =====
-- relay/memory.go: the store in memory. `chunks` is the slice of `chunk_count` entries, nil until
-- written; `stored` is a uint32.
pub mod Counted
pub mod Contract
pub mod Sweep
use aken.Base.Map
use aken.Base.Map.{Map}
use aken.Base.{
  ℕ, ◌+◌, ◌%◌, ◌^◌, Bool, true, false, Option, none, some, List, [], ◌∷◌, String, Bytes, bytes_eq,
  eqb, ltb, leb, if◌then◌else◌, is_some, get_elem?, set, replicate,
}
use aken.Protocol.Api.{SessionId}
use aken.Relay.Store.{SessionMeta, StoreError, not_found, exists, Reply, ok, err, Store}

pub record MemorySession : Type 0 where
  pub mode : String
  pub collector_key : Bytes
  pub collector_mac : Bytes
  pub cred_hash : Bytes
  pub expires_at : ℕ
  pub chunk_count : ℕ
  pub chunks : List (Option Bytes)
  pub stored : ℕ
  pub manifest : Option Bytes

pub record MemoryStore : Type 0 where
  pub sessions : Map SessionId MemorySession

unfoldable pub new_memory_store : MemoryStore
new_memory_store = record { sessions = Map.empty }

-- m.sessions[id] = sess, where the program changes what the pointer in the map points to
abbrev pub update : MemoryStore → SessionId → MemorySession → MemoryStore
update m id sess = record { sessions = Map.insert m.sessions id sess }

abbrev pub new_session : SessionMeta → MemorySession
new_session meta = record {
  mode = meta.mode;
  collector_key = meta.collector_key;
  collector_mac = meta.collector_mac;
  cred_hash = meta.credential_hash;
  expires_at = meta.expires_at;
  chunk_count = meta.chunk_count;
  chunks = replicate meta.chunk_count none;
  stored = 0;
  manifest = none;
}

unfoldable pub create_session :
    MemoryStore → SessionId → SessionMeta → Reply (Unit {0}) × MemoryStore
create_session m id meta =
    if is_some (Map.get m.sessions id)
    then (err exists, m)
    else (ok tt, update m id (new_session meta))

unfoldable pub meta_of : Option MemorySession → Reply SessionMeta
meta_of none = err not_found
meta_of (some sess) = ok (record {
  mode = sess.mode;
  collector_key = sess.collector_key;
  collector_mac = sess.collector_mac;
  credential_hash = sess.cred_hash;
  expires_at = sess.expires_at;
  chunk_count = sess.chunk_count;
  chunks_stored = sess.stored;
  manifest_stored = is_some sess.manifest;
})

unfoldable pub session : MemoryStore → SessionId → Reply SessionMeta
unfolding meta_of
session m id = meta_of (Map.get m.sessions id)

-- The chunk at an index in range; none where nothing is stored.
abbrev pub chunk_at : MemorySession → ℕ → Option Bytes
chunk_at sess index = elim (get_elem? sess.chunks index) [ none ↦ none | some c ↦ c ]

abbrev pub with_chunk : MemorySession → ℕ → Bytes → MemorySession
with_chunk sess index ciphertext = record sess {
  chunks = set sess.chunks index (some ciphertext);
  stored = (sess.stored + 1) % 2 ^ 32;
}

unfoldable pub put_chunk_in :
    MemoryStore → SessionId → ℕ → Bytes → Option MemorySession → Reply (Unit {0}) × MemoryStore
put_chunk_in m id index ciphertext none = (err not_found, m)
put_chunk_in m id index ciphertext (some sess) =
    if leb sess.chunk_count index
    then (err not_found, m)
    else if is_some (chunk_at sess index)
    then (err exists, m)
    else (ok tt, update m id (with_chunk sess index ciphertext))

unfoldable pub put_chunk : MemoryStore → SessionId → ℕ → Bytes → Reply (Unit {0}) × MemoryStore
unfolding put_chunk_in
put_chunk m id index ciphertext = put_chunk_in m id index ciphertext (Map.get m.sessions id)

abbrev pub or_not_found {ℓ} : {A : Type ℓ} → Option A → Reply A
or_not_found none = err not_found
or_not_found (some a) = ok a

unfoldable pub chunk_of : ℕ → Option MemorySession → Reply Bytes
chunk_of index none = err not_found
chunk_of index (some sess) =
    if leb sess.chunk_count index then err not_found else or_not_found (chunk_at sess index)

unfoldable pub get_chunk : MemoryStore → SessionId → ℕ → Reply Bytes
unfolding chunk_of
get_chunk m id index = chunk_of index (Map.get m.sessions id)

unfoldable pub put_manifest_in :
    MemoryStore → SessionId → Bytes → Option MemorySession → Reply (Unit {0}) × MemoryStore
put_manifest_in m id ciphertext none = (err not_found, m)
put_manifest_in m id ciphertext (some sess) =
    if is_some sess.manifest
    then (err exists, m)
    else (ok tt, update m id (record sess { manifest = some ciphertext }))

unfoldable pub put_manifest : MemoryStore → SessionId → Bytes → Reply (Unit {0}) × MemoryStore
unfolding put_manifest_in
put_manifest m id ciphertext = put_manifest_in m id ciphertext (Map.get m.sessions id)

unfoldable pub manifest_of : Option MemorySession → Reply Bytes
manifest_of none = err not_found
manifest_of (some sess) = or_not_found sess.manifest

unfoldable pub get_manifest : MemoryStore → SessionId → Reply Bytes
unfolding manifest_of
get_manifest m id = manifest_of (Map.get m.sessions id)

unfoldable pub delete_session : MemoryStore → SessionId → Reply (Unit {0}) × MemoryStore
delete_session m id =
    if is_some (Map.get m.sessions id)
    then (ok tt, record { sessions = Map.delete m.sessions id })
    else (err not_found, m)

-- !now.Before(sess.expiresAt)
abbrev pub is_expired : ℕ → Option MemorySession → Bool
is_expired now none = false
is_expired now (some sess) = leb sess.expires_at now

unfoldable pub sweep_keys :
    ℕ → List SessionId → Map SessionId MemorySession → Map SessionId MemorySession
sweep_keys now [] m = m
sweep_keys now (id ∷ ids) m =
    sweep_keys now ids (if is_expired now (Map.get m id) then Map.delete m id else m)

unfoldable pub sweep : MemoryStore → ℕ → MemoryStore
unfolding sweep_keys
sweep m now = record { sessions = sweep_keys now (Map.keys m.sessions) m.sessions }

abbrev pub memory_store : Store MemoryStore
memory_store = record {
  create_session = create_session;
  session = session;
  put_chunk = put_chunk;
  get_chunk = get_chunk;
  put_manifest = put_manifest;
  get_manifest = get_manifest;
  delete_session = delete_session;
}
