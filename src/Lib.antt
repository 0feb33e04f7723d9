-- ===== src/Lib.antt =====
-- OmniDrive keeps files in the cloud as encrypted packs: a pack is split into shards, a queue holds
-- one upload job for each pack, and a worker sends the shards to storage providers, within a daily
-- quota. This library models that pipeline and the checks that guard the daemon (angeld), and proves
-- what makes them correct.
--
-- Parts, and the files of the repository that they model:
--
-- - Prelude: the statement forms of the SQLite store over tables as lists of rows (SELECT, UPDATE,
--   DELETE, COUNT, EXISTS, ORDER BY), their laws, Boolean tests on numbers, and names passed on.
-- - Result: Rust's Result, and a call that threads a store and may fail.
-- - Int64: i64 with its saturating addition.
-- - Db: the rows and the store of the upload pipeline (angeld/src/db/mod.rs, schema.rs), with
--   Db/Jobs, Db/Targets (angeld/src/db/uploads.rs), Db/Shards (angeld/src/db/shards.rs), Db/Packs
--   (angeld/src/db/packs.rs) and Db/Orphans (`gc_orphan_packs` of angeld/src/db/uploads.rs). Each
--   statement is a function on the store under its Rust name; the clock is the argument `now`.
-- - CloudGuard: the circuit breaker of angeld/src/cloud_guard.rs and the transaction on the daily
--   usage of angeld/src/db/system_config.rs; CloudGuard/Config has the flags that it stores.
-- - Uploader: the worker of angeld/src/uploader.rs. `process_job` is split at its branches:
--   process_pack, process_pending and finish_job, and in Uploader/Shard process_shards,
--   process_shard, upload_shard and handle_reply; Uploader/Types has the state, the errors and the
--   delays. It asks CloudGuard before each upload and writes through Db.
-- - Access: the role checks of angeld/src/acl.rs, which the extractors of angeld/src/api/gate.rs
--   call, over the sessions and the vault members of Access/Tables (angeld/src/db/sessions.rs,
--   angeld/src/db/users.rs).
-- - AutoLock: the idle timeout (angeld/src/auto_lock.rs, angeld/src/lock_flow.rs,
--   angeld/src/api/auto_lock.rs); AutoLock/Minutes resolves the stored value to a preset.
-- - Bytes: slices of byte strings and big-endian numbers.
-- - Crypto: the chunk and secret encryption of omnidrive-core/src/crypto.rs; Crypto/Keys derives
--   and wraps keys.
-- - Chunks: the record of a chunk in a pack: its prefix (omnidrive-core/src/layout.rs), the builders
--   `build_manifest_bytes` and `build_manifest_bytes_v2` of angeld/src/packer.rs, and
--   `decrypt_chunk_record` of angeld/src/downloader/chunk.rs, which opens it with Crypto.
--   Chunks/Encrypted serves a record's encrypted bytes (angeld/src/downloader/read.rs).
--   `rebuild_manifest_bytes` is the `build_manifest_bytes` of the downloader.
-- - Shards: the split of a pack into two data shards and a parity shard (angeld/src/packer.rs), its
--   reconstruction (angeld/src/downloader/chunk.rs) and the end of `download_pack`
--   (angeld/src/downloader/pack.rs); Shards/Prepare has `build_shards`.
-- - Ranges: the reads of a byte range (angeld/src/downloader/read.rs), as one result or as a stream.
-- - Gc: the garbage collector of angeld/src/gc.rs, over the store of Db.
-- - Shares: shared links (angeld/src/db/shares.rs, angeld/src/api/sharing.rs).
-- - Invites: invite codes (angeld/src/db/invites.rs) and `post_vault_join`, by which a device joins a
--   vault (angeld/src/api/vault.rs), over the accounts of Access. It is split into what the handler
--   checks and what it writes, since requests may interleave there.
-- - Cache: the table of the chunk cache (angeld/src/db/cache.rs); Cache/Manager has the files and
--   the eviction (angeld/src/cache.rs).
-- - Examples: concrete stores, and the theorems applied to them.
--
-- The modules below a part hold its proofs and are named for what they prove.
--
-- Choices. An id, a size, an attempt count and a time is a natural number; saturating and
-- wrapping operations of u64, u32 and i64 are written out where the code uses them. A loop of the
-- source over a list is structural recursion. `to_string` has ten rounds, which print every u32.
-- The loop of the cache's eviction has fuel: one round for each row of the table, and one more. A
-- provider, the clock, the deletion of a file and the look for a file are given by the argument
-- `World` of the worker; nothing is assumed of them. The clock of a round of the worker stands
-- still, and each shard has one reply in it, being sent at most once. The cryptographic
-- primitives (`Primitives`), the Reed-Solomon code (`ReedSolomon`) the surroundings of the cache
-- (`Services`) and the providers of the collector (`GcWorld`) are arguments too; a theorem that
-- relies on one names what it relies on. Nothing is assumed of Reed-Solomon on empty shards,
-- which it may refuse, or of a provider's refusals. An index out of bounds, where Rust panics, is
-- the error `out_of_bounds`. A callback that fails in the middle of a streamed read gives the
-- error alone, without the pieces before it. A formatted text that holds a number is kept as its
-- parts (`Message`, `ConfigText`). SQL statements do not fail in the model, except where the
-- program meets it as a missing row, a refused constraint or a failed audit entry.
--
-- Not modelled: the S3 client, its rate limiter and the hot reload of providers; the snapshot of
-- the guard with its percentages; the cryptographic libraries; the choice of providers in
-- `download_pack`, `load_plaintext_chunk` and the prefetch; `pack_file`; the creation of shared links
-- and the passwords of shares; the repair and the scrub of packs; the vault's key store,
-- disaster recovery, the virtual drive and the other HTTP handlers. They are I/O, libraries, or left
-- for an extension of this library.
pub mod Prelude
pub mod Result
pub mod Int64
pub mod Db
pub mod CloudGuard
pub mod Uploader
pub mod Access
pub mod AutoLock
pub mod Bytes
pub mod Crypto
pub mod Chunks
pub mod Shards
pub mod Ranges
pub mod Gc
pub mod Shares
pub mod Invites
pub mod Cache
pub mod Examples
