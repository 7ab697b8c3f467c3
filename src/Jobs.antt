-- ===== src/Jobs.antt =====
-- internal/serve/jobs.go: what a job reads is fixed before a person is asked, and then read.
pub mod Resolve
pub mod Expand
pub mod Params
pub mod Journal
pub mod Prepare
pub mod Execute
