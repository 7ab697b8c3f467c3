-- ===== src/Lib.antt =====
-- Aken: a relay for short-lived sessions between a collector on a server and a local MCP server.
--
-- The program. A collector (internal/serve, internal/collect) makes a token, creates a session on a
-- relay (relay, served by internal/relayserver), and shows the token to a person, who gives it to a
-- local MCP server (internal/mcp). In mode `blob` the collector uploads a sealed artifact in chunks and
-- a manifest. In mode `session` the MCP server joins, both sides derive keys, and sealed envelopes go
-- through two queues of the relay: jobs one way and results the other. The relay sees ciphertext,
-- sizes and sequence numbers only. The package protocol holds what the parties share.
--
-- The library.
--   Base             shared names, Boolean tests, lists over the native numbers, Go's `==` as an
--                    instance argument, Go's maps behind laws, and loops that delete from a map
--   Encoding         the parts of encoding/hex, base64, base32, strconv and strings that are used
--   Protocol         Caps: the limits; Wire: big endian; Crypto: the crypto packages as parameters
--   Protocol.Token   protocol/token.go: ParseToken, Encode and what is derived from a token
--   Protocol.Api     protocol/relayapi.go: session ids, credentials and keys as text
--   Protocol.Envelope  protocol/session.go: envelopes (Canonical, Validate, sealSession, openSession),
--                    MACs, keys, ContentRoot. Children: Header, Sealed, Agreement
--   Protocol.Blob    protocol/blob.go: SplitChunks, ChunkCount, SealChunk, OpenChunk, manifests.
--                    Children: Chunks, Sealed, Ranges
--   Protocol.Jobs    protocol/jobs.go: jobs, the catalog, ValidateJobID
--   Relay.Store      relay/store.go: the interface as a record of operations, with its laws
--   Relay.Memory     relay/memory.go: the store in memory. Children: Counted (its validity), Contract
--                    (the laws), Sweep
--   Relay.Live       relay/session.go: a live session: post, notify, drop and the delivering part of
--                    poll. Children: Numbered, History, Retry
--   Relay.Registry   relay/session.go: the registry of live sessions: get, dropLocked, Sweep
--   Relay.Poll       relay/session.go: poll as rounds
--   Relay.Http, Create, BlobRoute, SessionRoute, Handler
--                    relay/handler.go: bodies and answers; create; chunk and manifest; join, post and
--                    the wait of a poll; ServeHTTP, handleSession and the routes
--   Limits           internal/relayserver/limits/limits.go: check, Prune, ClientIP; Allowance:
--                    Middleware and allowance. Children with proofs: Pruned, Bounded, Run, Refused
--   Collector        internal/serve/run.go with the types of approve.go, audit.go and jobs.go: State
--                    (the session and actions that may fail), Result (capResult, cutCursor), Send
--                    (send, reject, widen), Rows (a plan's rows and the question), Handle (handle,
--                    loop), Preparing (the loop with prepare of jobs.go). Children with proofs: Rules,
--                    Sending, Widens, Running, Scope, LevelZero, Grown, Ready, Reads, Numbering,
--                    Accepted (with the relay's queue)
--   Source.Lines     internal/source/file.go and source.go: scanLines, lastLines, ReadLines, TailLines
--                    and splitLines. Children: Split, Scanned, Ends, Last
--   Source.Tail      internal/source/file.go: readTail. Child: Same
--   Source.Search    internal/source/file.go: Search over several files. Children: Hits,
--                    Within, Pages, Resume
--   Source.Opened    internal/source/file.go: the files that are opened, fileReason, fileError and skip
--   Source.Gather    internal/source/file.go and source.go: readFile, glob, ReadFiles. Children:
--                    Canonical, Complete, Ends
--   Source.Paths, Scope, Listing, Names
--                    path/filepath on clean paths; Files with Permits, Open and open; List; the names
--                    of units and containers and CommandStderr of source.go
--   Collect.Times    internal/collect/options.go: ParseTime
--   Jobs             internal/serve/jobs.go: Resolve (resolve, scopeGrant, pathGrant), Expand (expand,
--                    sensitive), Params (the parameters of jobs, decode), Journal (prepareJournal),
--                    Prepare (prepare), Execute (execute and what it calls). Children with proofs:
--                    Granted, Found, Sound, Permitted, Limits, Reads, Pages
--   LocalSession     internal/session/session.go: Load, Save, CheckJoin, Join. Children: Joined, Stored
--   Tests            sample data, tests of definitions, and the theorems at concrete inputs
--
-- How the parts interact. The handler is written over any store (Relay.Store.Store), and its theorems
-- take the store's laws, and Relay.Memory is a store. A handler's state
-- (Relay.Registry.State) is the store, the registry, and a heap of live sessions, so that a waiting
-- poll may hold a session that the registry has dropped or replaced. The session loop is
-- written over any `prepare`, and Collector.Preparing puts that of Jobs in its place, at the scope of
-- the session.
--
-- Choices. Byte strings and byte arrays are lists of numbers; texts that the code only compares are
-- strings. Times are numbers of nanoseconds. A uint32 or uint64 that the code adds to keeps its wrap;
-- a Go int that may be negative is Base.Signed.ℤ where the code tests its sign. A section under a
-- mutex is one step, and what runs between two such sections is a sequence of steps or the next
-- state that a round starts from. Errors are values; of an error answer the status and the code are
-- kept and the message is not.
--
-- Fuel. SplitChunks: each turn takes a byte, so the length of the text is enough. capResult's
-- second loop: each turn takes a line, so their number is enough. strconv.Itoa: 19 digits hold every
-- int. scanLines: each turn but the last takes a byte; readTail: each turn but the last moves towards
-- the start of the file, so that its size is enough. A poll is a recursion on the list of its
-- rounds, and resolve climbs on the parts of its path.
--
-- Parameters, for code that is not in the repository: SHA-256, HKDF, HMAC, AES-GCM and X25519
-- (Protocol.Crypto, with the laws that are used), JSON decoding and encoding, golang.org/x/time/rate,
-- and parts of package net. For jobs, the calls of packages os and path/filepath that look at the file
-- system, regexp, gzip and zstd, the parsers of package time, strings.TrimSpace and the commands that
-- are run. In the collector's session loop, reading the file system, the redaction engine, the
-- answers at the terminal and the outcome of each write are arbitrary functions of the state.
--
-- Not modelled: the directory store (relay/dir.go), the relay's HTTP client, the redaction engine,
-- the descriptions of jobs, running journalctl and docker, the rest of the one-shot collector, the
-- artifact and the local MCP tools; the wiring of the command line programs, terminal and network
-- I/O, and randomness (NewToken, GenerateKeyPair).
pub mod Base
pub mod Encoding
pub mod Protocol
pub mod Source
pub mod Jobs
pub mod Collect
pub mod Relay
pub mod Limits
pub mod Collector
pub mod LocalSession
mod Tests
