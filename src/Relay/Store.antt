-- ===== src/Relay/Store.antt =====
-- relay/store.go: what a session is to a store, and the interface `Store`. A method that changes the
-- store returns the new one; reads leave it alone.
use aken.Base.{ℕ, ◌^◌, ◌<◌, ◌≡◌, ◌≢◌, Bool, false, String, Bytes}
use aken.Protocol.Api.{SessionId}

pub record SessionMeta : Type 0 where
  pub mode : String
  pub collector_key : Bytes
  pub collector_mac : Bytes
  pub credential_hash : Bytes
  pub expires_at : ℕ
  pub chunk_count : ℕ
  pub chunks_stored : ℕ
  pub manifest_stored : Bool

pub data StoreError : Type 0 where
  not_found exists internal : StoreError

pub data Reply {ℓ} (A : Type ℓ) : Type ℓ where
  ok : A → Reply A
  err : StoreError → Reply A

pub record Store (S : Type 0) : Type 0 where
  pub create_session : S → SessionId → SessionMeta → Reply (Unit {0}) × S
  pub session : S → SessionId → Reply SessionMeta
  pub put_chunk : S → SessionId → ℕ → Bytes → Reply (Unit {0}) × S
  pub get_chunk : S → SessionId → ℕ → Reply Bytes
  pub put_manifest : S → SessionId → Bytes → Reply (Unit {0}) × S
  pub get_manifest : S → SessionId → Reply Bytes
  pub delete_session : S → SessionId → Reply (Unit {0}) × S

-- What a created session is: nothing of it is stored yet.
abbrev pub fresh : SessionMeta → SessionMeta
fresh m = record m { chunks_stored = 0; manifest_stored = false }

-- What holds of a store from its creation on: an invariant that every method keeps.
pub record Keeps {S : Type 0} (Valid : S → Type 0) (t : Store S) : Type 0 where
  pub create :
      (s : S) (id : SessionId) (m : SessionMeta)
      → m.chunk_count < 2 ^ 32
      → Valid s
      → Valid (t.create_session s id m).1
  pub chunk :
      (s : S) (id : SessionId) (i : ℕ) (a : Bytes) → Valid s → Valid (t.put_chunk s id i a).1
  pub manifest : (s : S) (id : SessionId) (a : Bytes) → Valid s → Valid (t.put_manifest s id a).1
  pub delete : (s : S) (id : SessionId) → Valid s → Valid (t.delete_session s id).1

-- The contract of the interface on sessions: they are independent, and none is created over another.
pub record SessionLaws {S : Type 0} (t : Store S) : Type 0 where
  pub create_taken :
      (s : S) (id : SessionId) (m m' : SessionMeta)
      → t.session s id ≡ ok m
      → t.create_session s id m' ≡ (err exists, s)
  pub session-create :
      (s s' : S) (id : SessionId) (m : SessionMeta)
      → t.create_session s id m ≡ (ok tt, s')
      → t.session s' id ≡ ok (fresh m)
  pub session-create_ne :
      (s : S) (id jd : SessionId) (m : SessionMeta)
      → id ≢ jd
      → t.session (t.create_session s id m).1 jd ≡ t.session s jd
  pub session-delete :
      (s : S) (id : SessionId) → t.session (t.delete_session s id).1 id ≡ err not_found
  pub delete_found :
      (s : S) (id : SessionId) (m : SessionMeta)
      → t.session s id ≡ ok m
      → (t.delete_session s id).0 ≡ ok tt
  pub session-delete_ne :
      (s : S) (id jd : SessionId)
      → id ≢ jd
      → t.session (t.delete_session s id).1 jd ≡ t.session s jd

-- The contract on objects: each is written once, read back as it was written, and a session whose
-- count of stored chunks is full has every chunk.
pub record ObjectLaws {S : Type 0} (Valid : S → Type 0) (t : Store S) : Type 0 where
  pub put_chunk_once :
      (s s' : S) (id : SessionId) (i : ℕ) (a b : Bytes)
      → Valid s
      → t.put_chunk s id i a ≡ (ok tt, s')
      → (t.get_chunk s' id i ≡ ok a) × (t.put_chunk s' id i b ≡ (err exists, s'))
  pub put_manifest_once :
      (s s' : S) (id : SessionId) (a b : Bytes)
      → t.put_manifest s id a ≡ (ok tt, s')
      → (t.get_manifest s' id ≡ ok a) × (t.put_manifest s' id b ≡ (err exists, s'))
  pub get_chunk-put_manifest :
      (s : S) (id : SessionId) (i : ℕ) (a : Bytes)
      → t.get_chunk (t.put_manifest s id a).1 id i ≡ t.get_chunk s id i
  pub complete :
      (s : S) (id : SessionId) (m : SessionMeta) (i : ℕ)
      → Valid s
      → t.session s id ≡ ok m
      → m.chunks_stored ≡ m.chunk_count
      → i < m.chunk_count
      → (a : Bytes) × (t.get_chunk s id i ≡ ok a)
