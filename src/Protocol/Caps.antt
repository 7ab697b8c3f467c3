-- ===== src/Protocol/Caps.antt =====
-- The limits of protocol/session.go, blob.go, jobs.go and relayapi.go.
use aken.Base.{ℕ, ◌+◌}

abbrev pub session_version : ℕ
session_version = 1

abbrev pub class_read : ℕ
class_read = 1

abbrev pub class_write : ℕ
class_write = 2

abbrev pub class_exec : ℕ
class_exec = 3

abbrev pub max_job_bytes : ℕ
max_job_bytes = 65536

abbrev pub max_result_bytes : ℕ
max_result_bytes = 1048576

abbrev pub max_session_seq : ℕ
max_session_seq = 4294967295

abbrev pub chunk_size : ℕ
chunk_size = 1048576

abbrev pub chunk_overhead : ℕ
chunk_overhead = 16

abbrev pub max_chunk_count : ℕ
max_chunk_count = 128

abbrev pub max_manifest_bytes : ℕ
max_manifest_bytes = 1048576

pub record Caps : Type 0 where
  pub manifest_bytes : ℕ
  pub chunk_bytes : ℕ
  pub chunk_count : ℕ
  pub ttl_default_seconds : ℕ
  pub ttl_max_seconds : ℕ
  pub job_bytes : ℕ
  pub result_bytes : ℕ
  pub queue_length : ℕ
  pub session_ttl_default_seconds : ℕ
  pub wait_max_seconds : ℕ

abbrev pub default_caps : Caps
default_caps = record {
  manifest_bytes = max_manifest_bytes;
  chunk_bytes = chunk_size + chunk_overhead;
  chunk_count = max_chunk_count;
  ttl_default_seconds = 14400;
  ttl_max_seconds = 86400;
  job_bytes = max_job_bytes;
  result_bytes = max_result_bytes;
  queue_length = 64;
  session_ttl_default_seconds = 28800;
  wait_max_seconds = 30;
}
