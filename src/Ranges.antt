-- ===== src/Ranges.antt =====
-- Reading a byte range of a file: `read_range` and `read_range_streamed` of
-- angeld/src/downloader/read.rs, and the query `get_revision_chunk_locations_in_range` of
-- angeld/src/db/chunks.rs. Offsets and sizes are natural numbers; `load`, which gives a chunk's
-- plaintext or an error, stands for `load_plaintext_chunk`.
use omnidrive.Prelude.{
  ℕ, ◌+◌, ◌-◌, ◌^◌, String, Bool, true, false, ◌&&◌, not, min, max, Option, none, some, List, [],
  ◌∷◌, ◌++◌, ltb, leb, ◌==◌, if◌then◌else◌, length, take, select_where, order_by,
}
use omnidrive.Result.{Result, ok, err, ◌>>=◌, ◌>>◌, guard}
use omnidrive.Int64.{i64_max}
use omnidrive.Bytes.{Bytes}
use omnidrive.Chunks.{
  DownloaderError, numeric_overflow, no_chunks_for_inode, at_range, usize_end, checked_add,
}
pub mod Window
pub mod Contiguous
pub mod Streamed

-- A row of the query's join, for one inode and revision.
pub record ChunkLocation : Type 0 where
  pub chunk_id : Bytes
  pub chunk_index : ℕ
  pub file_offset : ℕ
  pub size : ℕ
  pub pack_id : String

abbrev pub overlaps : ℕ → ℕ → ChunkLocation → Bool
overlaps start_offset end_offset c =
    ltb start_offset (c.file_offset + c.size) && ltb c.file_offset end_offset

abbrev pub by_offset : ChunkLocation → ChunkLocation → Bool
by_offset a b = leb a.file_offset b.file_offset

unfoldable pub get_revision_chunk_locations_in_range :
    ℕ → ℕ → List ChunkLocation → List ChunkLocation
get_revision_chunk_locations_in_range start_offset end_offset rows =
    order_by by_offset (select_where (overlaps start_offset end_offset) rows)

module _ (load : ChunkLocation → Result DownloaderError Bytes) (offset end_offset : ℕ) where
  -- The part of a chunk that lies in the range.
  unfoldable pub read_piece : ChunkLocation → Result DownloaderError Bytes
  read_piece c = do
    plaintext ← load c
    chunk_end ← checked_add c.file_offset (length plaintext) "chunk end"
    let slice_start = max offset c.file_offset
    let slice_end = min end_offset chunk_end
    (if leb slice_end slice_start
        then ok []
        else at_range (slice_start - c.file_offset) (slice_end - c.file_offset) plaintext)

  -- An empty part continues the loop; another one ends it if enough bytes are there.
  unfoldable pub read_loop : ℕ → Bytes → List ChunkLocation → Result DownloaderError Bytes
  read_loop want result [] = ok result
  read_loop want result (c ∷ cs) = read_piece c >>= λ piece.
      let more = read_loop want (result ++ piece) cs in
      if length piece == 0
      then more
      else (if leb want (length (result ++ piece)) then ok (result ++ piece) else more)

  -- The pieces that the streaming variant hands on, each with its offset; `sink` is the callback.
  unfoldable pub stream_loop :
      (ℕ → Bytes → Result DownloaderError (Unit {0}))
      → ℕ
      → ℕ
      → List ChunkLocation
      → Result DownloaderError (List (ℕ × Bytes))
  stream_loop sink want emitted [] = ok []
  stream_loop sink want emitted (c ∷ cs) = read_piece c >>= λ piece.
      let emitted' = emitted + length piece in
      let rest = stream_loop sink want emitted' cs in
      if length piece == 0
      then rest
      else (sink (max offset c.file_offset) piece >>= λ _.
          if leb want emitted'
          then ok ((max offset c.file_offset, piece) ∷ [])
          else (rest >>= λ more. ok ((max offset c.file_offset, piece) ∷ more)))

-- The bounds of the range as the query binds them.
unfoldable pub range_end : ℕ → ℕ → Result DownloaderError ℕ
range_end offset want = do
  end_offset ← checked_add offset want "range end"
  guard (leb offset i64_max) (numeric_overflow "range start")
  guard (leb end_offset i64_max) (numeric_overflow "range end")
  ok end_offset

abbrev pub some_chunk : List ChunkLocation → Bool
some_chunk [] = false
some_chunk (c ∷ cs) = true

-- `rows` is the join of the revision; `none` is a revision that is not there; `vault_key` is the
-- answer of `vault_key_for_v1_read`.
unfoldable pub read_range :
    Result DownloaderError Bytes
    → (Bytes → ChunkLocation → Result DownloaderError Bytes)
    → Option (List ChunkLocation)
    → ℕ
    → ℕ
    → ℕ
    → Result DownloaderError Bytes
read_range vault_key load none inode_id offset want = err (no_chunks_for_inode inode_id)
read_range vault_key load (some rows) inode_id offset want =
    if want == 0
    then ok []
    else (range_end offset want >>= λ end_offset.
        let chunks = get_revision_chunk_locations_in_range offset end_offset rows in
        guard (some_chunk chunks) (no_chunks_for_inode inode_id) >>= λ _. vault_key >>= λ key.
        read_loop (load key) offset end_offset want [] chunks >>= λ result. ok (take want result))

unfoldable pub read_range_streamed :
    Result DownloaderError Bytes
    → (Bytes → ChunkLocation → Result DownloaderError Bytes)
    → (ℕ → Bytes → Result DownloaderError (Unit {0}))
    → Option (List ChunkLocation)
    → ℕ
    → ℕ
    → ℕ
    → Result DownloaderError (List (ℕ × Bytes))
read_range_streamed vault_key load sink none inode_id offset want =
    err (no_chunks_for_inode inode_id)
read_range_streamed vault_key load sink (some rows) inode_id offset want =
    if want == 0
    then ok []
    else (range_end offset want >>= λ end_offset.
        let chunks = get_revision_chunk_locations_in_range offset end_offset rows in
        guard (some_chunk chunks) (no_chunks_for_inode inode_id) >>= λ _.
        vault_key >>= λ key. stream_loop (load key) offset end_offset sink want 0 chunks)
