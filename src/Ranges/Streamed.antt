-- ===== src/Ranges/Streamed.antt =====
-- The streaming variant against the collecting one: `read_range_streamed` and `read_range` of
-- angeld/src/downloader/read.rs.
use mathlib.Core.List.{append-nil, append_assoc}
use omnidrive.Prelude.{
  ℕ, zero, suc, max, ◌+◌, ◌≡◌, refl, ◌∙◌, sym, ap, Bool, true, false, some, none, Option, List, [],
  ◌∷◌, ◌++◌, leb, ◌==◌, if◌then◌else◌, Bool-cases, inl, inr, length, length-append, take, arith,
}
use omnidrive.Result.{Result, ok, err, ◌>>=◌, guard, Result-cases}
use omnidrive.Bytes.{Bytes}
use omnidrive.Chunks.{DownloaderError, no_chunks_for_inode}
use omnidrive.Ranges.{
  ChunkLocation, get_revision_chunk_locations_in_range, read_piece, read_loop, stream_loop,
  range_end, some_chunk, read_range, read_range_streamed,
}

-- The bytes of the pieces, one behind the other.
unfoldable pub concat : List (ℕ × Bytes) → Bytes
concat [] = []
concat ((at, b) ∷ ps) = b ++ concat ps

abbrev pub accept : ℕ → Bytes → Result DownloaderError (Unit {0})
accept at b = ok tt

-- The bytes that a stream hands on, as a collected result.
abbrev pub collected :
    Bytes → Result DownloaderError (List (ℕ × Bytes)) → Result DownloaderError Bytes
collected front r = r >>= λ ps. ok (front ++ concat ps)

join_pieces :
    (b b' : Bool) (at : ℕ) (result piece : Bytes) (rest : Result DownloaderError (List (ℕ × Bytes)))
    → (b ≡ true → piece ≡ [])
    → (if b
        then collected (result ++ piece) rest
        else (if b' then ok (result ++ piece) else collected (result ++ piece) rest))
      ≡ collected result (
          if b
          then rest
          else (if b' then ok ((at, piece) ∷ []) else (rest >>= λ more. ok ((at, piece) ∷ more))))
unfolding concat
join_pieces true b' at result piece (err e) z = refl
join_pieces true b' at result piece (ok ps) z =
    ap (λ (x : Bytes). ok (x ++ concat ps))
      (ap (λ (x : Bytes). result ++ x) (z refl) ∙ append-nil result)
join_pieces false true at result piece rest z =
    ap (λ (x : Bytes). ok (result ++ x)) (sym (append-nil piece))
join_pieces false false at result piece (err e) z = refl
join_pieces false false at result piece (ok ps) z = ap ok (append_assoc result piece (concat ps))

nil_of_zero : (xs : Bytes) → (length xs == 0) ≡ true → xs ≡ []
nil_of_zero [] h = refl
nil_of_zero (x ∷ xs) h = absurd (ground arith)

module _ (load : ChunkLocation → Result DownloaderError Bytes) (offset end_offset : ℕ) where
  stream-read_loop :
      (want : ℕ) (result : Bytes) (cs : List ChunkLocation)
      → read_loop load offset end_offset want result cs
        ≡ collected result (stream_loop load offset end_offset accept want (length result) cs)
  unfolding read_loop stream_loop concat
  stream-read_loop want result [] = ap ok (sym (append-nil result))
  stream-read_loop want result (c ∷ cs) =
      elim (Result-cases (read_piece load offset end_offset c)) [
        | inr (x, e) ↦ rw e
        | inl (piece, e) ↦
            let l : length (result ++ piece) ≡ length result + length piece =
              length-append result piece in
            let rest =
              stream_loop load offset end_offset accept want (length result + length piece) cs in
            let ih : read_loop load offset end_offset want (result ++ piece) cs
                ≡ collected (result ++ piece) rest =
              stream-read_loop want (result ++ piece) cs
              ∙ ap
                  (λ n.
                    collected (result ++ piece)
                      (stream_loop load offset end_offset accept want n cs))
                  l in
            rw (e, ih, l)
              (join_pieces (length piece == 0) (leb want (length result + length piece))
                (max offset c.file_offset) result piece rest (nil_of_zero piece))
      ]

-- The streaming variant hands on the bytes that the collecting one returns: with a callback that
-- accepts each piece, the pieces one behind the other, cut at the length asked for, are that result,
-- and one fails with the other's error.
pub streamed-read_range :
    (vault_key : Result DownloaderError Bytes)
    (load : Bytes → ChunkLocation → Result DownloaderError Bytes)
    (rows : Option (List ChunkLocation)) (inode_id offset want : ℕ)
    → read_range vault_key load rows inode_id offset want ≡ (
        read_range_streamed vault_key load accept rows inode_id offset want >>= λ pieces.
        ok (take want (concat pieces)))
unfolding read_range read_range_streamed concat
streamed-read_range vault_key load none inode_id offset want = refl
streamed-read_range vault_key load (some rows) inode_id offset want =
    elim (Bool-cases (want == 0)) [
      | inl z ↦ rw z (ap ok (sym (take_nothing want)))
      | inr n ↦ rw n (range (range_end offset want))
    ]
  where
    take_nothing : (k : ℕ) → take k (concat []) ≡ []
    take_nothing zero = refl
    take_nothing (suc k) = refl

    cut :
        (r : Result DownloaderError (List (ℕ × Bytes)))
        → (collected [] r >>= λ result. ok (take want result))
          ≡ (r >>= λ pieces. ok (take want (concat pieces)))
    cut (ok ps) = refl
    cut (err e) = refl

    chosen :
        (end_offset : ℕ) (cs : List ChunkLocation)
        → (guard (some_chunk cs) (no_chunks_for_inode inode_id) >>= λ _. vault_key >>= λ key.
            read_loop (load key) offset end_offset want [] cs >>= λ result. ok (take want result))
          ≡ ((guard (some_chunk cs) (no_chunks_for_inode inode_id) >>= λ _.
                vault_key >>= λ key. stream_loop (load key) offset end_offset accept want 0 cs)
              >>= λ pieces. ok (take want (concat pieces)))
    chosen end_offset [] = refl
    chosen end_offset (c ∷ cs) = keyed vault_key
      where
        keyed :
            (k : Result DownloaderError Bytes)
            → (k >>= λ key. read_loop (load key) offset end_offset want [] (c ∷ cs) >>= λ result.
                ok (take want result))
              ≡ ((k >>= λ key. stream_loop (load key) offset end_offset accept want 0 (c ∷ cs))
                  >>= λ pieces. ok (take want (concat pieces)))
        keyed (err e) = refl
        keyed (ok key) =
            ap (λ r. r >>= λ result. ok (take want result))
              (stream-read_loop (load key) offset end_offset want [] (c ∷ cs))
            ∙ cut (stream_loop (load key) offset end_offset accept want 0 (c ∷ cs))

    range :
        (r : Result DownloaderError ℕ)
        → (r >>= λ end_offset.
            let cs = get_revision_chunk_locations_in_range offset end_offset rows in
            guard (some_chunk cs) (no_chunks_for_inode inode_id) >>= λ _. vault_key >>= λ key.
            read_loop (load key) offset end_offset want [] cs >>= λ result. ok (take want result))
          ≡ ((r >>= λ end_offset.
                let cs = get_revision_chunk_locations_in_range offset end_offset rows in
                guard (some_chunk cs) (no_chunks_for_inode inode_id) >>= λ _.
                vault_key >>= λ key. stream_loop (load key) offset end_offset accept want 0 cs)
              >>= λ pieces. ok (take want (concat pieces)))
    range (err e) = refl
    range (ok end_offset) =
        chosen end_offset (get_revision_chunk_locations_in_range offset end_offset rows)
