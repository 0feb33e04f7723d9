-- ===== src/Ranges/Contiguous.antt =====
-- What `read_range` of angeld/src/downloader/read.rs returns for a file whose chunks follow one
-- another without a gap.
use mathlib.Core.List.{append-nil, append_assoc}
use omnidrive.Prelude.{
  ℕ, zero, suc, ◌+◌, ◌-◌, ◌^◌, ◌≤◌, ◌<◌, ◌≡◌, refl, ◌∙◌, sym, ap, subst, Bool, true, false, max,
  min, some, List, [], ◌∷◌, ◌++◌, ltb, leb, leb→le, le→leb, lt→ltb, ◌==◌, if◌then◌else◌, Bool-cases,
  inl, inr, length, length-append, length-drop, length-take-le, take, drop, All, All-select_where,
  select_where, order_by, insert_by, arith,
}
use omnidrive.Result.{Result, ok, ◌>>=◌, guard, ok-inj}
use omnidrive.Int64.{i64_max}
use omnidrive.Bytes.{Bytes, slice_in_bounds}
use omnidrive.Chunks.{DownloaderError, at_range, no_chunks_for_inode}
use omnidrive.Ranges.{
  ChunkLocation, overlaps, by_offset, get_revision_chunk_locations_in_range, read_piece, read_loop,
  range_end, some_chunk, read_range,
}
use omnidrive.Ranges.Window.{
  take_all, window, window-append, window_nil, window_outside, window_slice, take-append_split,
}

-- Taking no more than is there.
enough_taken : (n : ℕ) (xs ys : Bytes) → n ≤ length xs → take n (xs ++ ys) ≡ take n xs
enough_taken n xs ys h =
    take-append_split n xs ys ∙ (ap (λ m. take n xs ++ take m ys) none ∙ append-nil (take n xs))
  where
    none : n - length xs ≡ 0
    none = omega arith

take_positive : (n : ℕ) (xs : Bytes) → 0 < n → 0 < length xs → 0 < length (take n xs)
take_positive zero xs h k = absurd (omega arith)
take_positive (suc n) [] h k = absurd (omega arith)
take_positive (suc n) (x ∷ xs) h k = omega arith

length-take-le_nil : (n : ℕ) → length (take {A = ℕ} n []) ≤ 0
length-take-le_nil zero = omega arith
length-take-le_nil (suc n) = omega arith

decide :
    (b b' : Bool) (x y : Bytes) (P : Bytes → Type 0)
    → P y
    → (b' ≡ true → P x)
    → (r : Bytes) × (◌≡◌ {A = Result DownloaderError Bytes}
        (if b then ok y else (if b' then ok x else ok y))
        (ok r))
      × P r
decide true b' x y P py px = (y, refl, py)
decide false true x y P py px = (x, refl, px refl)
decide false false x y P py px = (y, refl, py)

module _ (load : ChunkLocation → Result DownloaderError Bytes) where
  -- From `start` on, the chunks lie one behind the other, each loads as many bytes as its row says,
  -- and together they are the content.
  abbrev pub IsContiguous : ℕ → List ChunkLocation → Bytes → Type 0
  IsContiguous start [] content = content ≡ []
  IsContiguous start (c ∷ cs) content =
      (c.file_offset ≡ start)
      × ((bytes : Bytes) × (rest : Bytes) × (load c ≡ ok bytes)
          × (c.size ≡ length bytes)
          × (content ≡ bytes ++ rest)
          × IsContiguous (start + length bytes) cs rest)

  module _ (offset end_offset : ℕ) where
    piece_window :
        (c : ChunkLocation) (bytes : Bytes)
        → load c ≡ ok bytes
        → c.file_offset + length bytes < 2 ^ 64
        → read_piece load offset end_offset c ≡ ok (window offset end_offset c.file_offset bytes)
    unfolding read_piece at_range
    piece_window c bytes l fits =
        let f : ltb (c.file_offset + length bytes) (2 ^ 64) ≡ true = lt→ltb _ _ fits in
        elim (Bool-cases
          (leb (min end_offset (c.file_offset + length bytes)) (max offset c.file_offset))) [
            | inl e ↦
                rw (l, f, e)
                  (ap ok
                    (sym (window_outside offset end_offset c.file_offset bytes (leb→le _ _ e))))
            | inr e ↦
                let h : max offset c.file_offset < min end_offset (c.file_offset + length bytes) =
                  ground arith in
                rw
                  (
                    l,
                    f,
                    e,
                    slice_in_bounds (max offset c.file_offset - c.file_offset)
                        (min end_offset (c.file_offset + length bytes) - c.file_offset) bytes
                        (omega arith) (omega arith),
                  )
                  (ap ok (window_slice offset end_offset c.file_offset bytes h))
          ]

    read_loop-step :
        (want : ℕ) (result piece r : Bytes) (c : ChunkLocation) (cs : List ChunkLocation)
        → read_piece load offset end_offset c ≡ ok piece
        → read_loop load offset end_offset want (result ++ piece) cs ≡ ok r
        → read_loop load offset end_offset want result (c ∷ cs) ≡ (
            if length piece == 0
            then ok r
            else (if leb want (length (result ++ piece)) then ok (result ++ piece) else ok r))
    unfolding read_loop
    read_loop-step want result piece r c cs p m = rw (p, m)

    -- The loop, over the chunks that the query selects, gathers the window.
    loop_window :
        (want start : ℕ) (result content : Bytes) (cs : List ChunkLocation)
        → IsContiguous start cs content
        → start + length content < 2 ^ 64
        → (r : Bytes) × (read_loop load offset end_offset want result
              (select_where (overlaps offset end_offset) cs)
            ≡ ok r)
          × (take want r ≡ take want (result ++ window offset end_offset start content))
    unfolding read_loop select_where
    loop_window want start result content [] h fits = (
      result,
      refl,
      ap (take want) (
          sym (append-nil result)
          ∙ ap (λ (x : Bytes). result ++ x)
              (sym (window_nil offset end_offset start)
                ∙ ap (window offset end_offset start) (sym h))),
    )
    loop_window want start result content (c ∷ cs) h fits =
        let (at, found) = h in
        let (bytes, rest, l, z, w, more) = found in
        let piece = window offset end_offset start bytes in
        let rest_window = window offset end_offset (start + length bytes) rest in
        let total : length content ≡ length bytes + length rest =
          ap length w ∙ length-append bytes rest in
        let whole : window offset end_offset start content ≡ piece ++ rest_window =
          ap (window offset end_offset start) w
          ∙ window-append offset end_offset start bytes rest in
        elim (Bool-cases (overlaps offset end_offset c)) [
          | inr e ↦
              let none : piece ≡ [] = window_outside offset end_offset start bytes (ground arith) in
              let (r, m, t) =
                loop_window want (start + length bytes) result rest cs more (omega arith) in
              (
                r,
                rw e m,
                t
                    ∙ ap (λ (x : Bytes). take want (result ++ x))
                        (sym (whole ∙ ap (λ (x : Bytes). x ++ rest_window) none)),
              )
          | inl e ↦
              let p : read_piece load offset end_offset c ≡ ok piece =
                piece_window c bytes l (omega arith)
                ∙ ap (λ n. ok (window offset end_offset n bytes)) at in
              let (r, m, t) =
                loop_window want (start + length bytes) (result ++ piece) rest cs more
                  (omega arith) in
              let joined : (result ++ piece) ++ rest_window
                  ≡ result ++ window offset end_offset start content =
                append_assoc result piece rest_window
                ∙ ap (λ (x : Bytes). result ++ x) (sym whole) in
              let (r', m', t') =
                decide (length piece == 0) (leb want (length (result ++ piece))) (result ++ piece) r
                  (λ x. take want x ≡ take want (result ++ window offset end_offset start content))
                  (t ∙ ap (take want) joined)
                  (λ enough.
                    sym (enough_taken want (result ++ piece) rest_window (leb→le _ _ enough))
                    ∙ ap (take want) joined) in
              (r', rw e (read_loop-step want result piece r c _ p m ∙ m'), t')
        ]

  starts_behind :
      (start : ℕ) (cs : List ChunkLocation) (content : Bytes)
      → IsContiguous start cs content
      → All (λ c. start ≤ c.file_offset) cs
  starts_behind start [] content h = tt
  starts_behind start (c ∷ cs) content h =
      let (at, found) = h in
      let (bytes, rest, l, z, w, more) = found in
      (
        omega (arith, at),
        All-weaken (length bytes) cs (starts_behind (start + length bytes) cs rest more),
      )
    where
      All-weaken :
          (n : ℕ) (ds : List ChunkLocation)
          → All (λ c. start + n ≤ c.file_offset) ds
          → All (λ c. start ≤ c.file_offset) ds
      All-weaken n [] m = tt
      All-weaken n (d ∷ ds) m = (omega (arith, m.0), All-weaken n ds m.1)

  insert_first :
      (c : ChunkLocation) (cs : List ChunkLocation)
      → All (λ d. c.file_offset ≤ d.file_offset) cs
      → insert_by by_offset c cs ≡ c ∷ cs
  unfolding insert_by
  insert_first c [] h = refl
  insert_first c (d ∷ ds) h = rw (le→leb c.file_offset d.file_offset h.0)

  -- The query's order is the one that the chunks have.
  ordered :
      (p : ChunkLocation → Bool) (start : ℕ) (cs : List ChunkLocation) (content : Bytes)
      → IsContiguous start cs content
      → order_by by_offset (select_where p cs) ≡ select_where p cs
  unfolding order_by select_where
  ordered p start [] content h = refl
  ordered p start (c ∷ cs) content h =
      let (at, found) = h in
      let (bytes, rest, l, z, w, more) = found in
      let ih = ordered p (start + length bytes) cs rest more in
      elim (Bool-cases (p c)) [
        | inr e ↦ rw e ih
        | inl e ↦ rw e (
            ap (insert_by by_offset c) ih
            ∙ insert_first c (select_where p cs) (
                All-select_where (λ d. c.file_offset ≤ d.file_offset) p cs
                  (subst (λ n. All (λ d. n ≤ d.file_offset) cs) (sym at)
                    (starts_behind start (c ∷ cs) content h).1)))
      ]

  window_whole :
      (offset want : ℕ) (content : Bytes)
      → take want (window offset (offset + want) 0 content) ≡ take want (drop offset content)
  unfolding window
  window_whole offset want content =
      let n : offset + want - max 0 offset ≡ want = omega arith in
      let m : offset - 0 ≡ offset = omega arith in
      rw (n, m)
        (take_all want (take want (drop offset content))
          (length-take-le want (drop offset content)))

-- A range of a file whose chunks follow one another without a gap, each loading as many bytes as its
-- row says, is read as that part of the content. The range is not empty and starts inside the
-- file; where it ends behind the file, the bytes up to the end are read. Its end fits an i64, and
-- the content's length a u64. The vault's key is there, and the chunks are loaded with it.
pub read_range_lem :
    (vault_key : Result DownloaderError Bytes)
    (load : Bytes → ChunkLocation → Result DownloaderError Bytes) (key : Bytes)
    (rows : List ChunkLocation) (content : Bytes) (inode_id offset want : ℕ)
    → vault_key ≡ ok key
    → IsContiguous (load key) 0 rows content
    → 0 < want
    → offset < length content
    → offset + want ≤ i64_max
    → length content < 2 ^ 64
    → read_range vault_key load (some rows) inode_id offset want
      ≡ ok (take want (drop offset content))
unfolding read_range range_end read_loop get_revision_chunk_locations_in_range
read_range_lem vault_key load key rows content inode_id offset want unlocked h w inside fits small =
    let p = overlaps offset (offset + want) in
    let (r, m, t) =
      loop_window (load key) offset (offset + want) want 0 [] content rows h (omega arith) in
    let t' : take want r ≡ take want (drop offset content) =
      t ∙ window_whole (load key) offset want content in
    let nonzero : (want == 0) ≡ false = ground arith in
    let end : ltb (offset + want) (2 ^ 64) ≡ true = lt→ltb _ _ (omega arith) in
    let o = ordered (load key) p 0 rows content h in
    rw
      (
        unlocked,
        nonzero,
        end,
        le→leb offset i64_max (omega arith),
        le→leb (offset + want) i64_max fits,
        o,
      )
      (run (select_where p rows) r m t')
  where
    run :
        (cs : List ChunkLocation) (r : Bytes)
        → read_loop (load key) offset (offset + want) want [] cs ≡ ok r
        → take want r ≡ take want (drop offset content)
        → (guard (some_chunk cs) (no_chunks_for_inode inode_id) >>= λ _.
            read_loop (load key) offset (offset + want) want [] cs >>= λ result.
            ok (take want result))
          ≡ ok (take want (drop offset content))
    run [] r m t =
        let none : [] ≡ r = ok-inj m in
        let same : take want [] ≡ take want (drop offset content) = ap (take want) none ∙ t in
        absurd (
          omega (
            arith,
            ap length same,
            length-take-le_nil want,
            take_positive want (drop offset content) w (omega (arith, length-drop offset content)),
          ))
    run (c ∷ cs) r m t = rw m (ap ok t)
