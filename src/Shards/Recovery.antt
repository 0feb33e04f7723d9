-- ===== src/Shards/Recovery.antt =====
-- Any one shard of three may be lost: `reconstruct_ciphertext` of angeld/src/downloader/chunk.rs
-- behind `split_ciphertext_into_shards` of angeld/src/packer.rs.
use mathlib.Core.List.{append-nil}
use omnidrive.Prelude.{
  ℕ, zero, suc, ◌<◌, ◌≡◌, refl, ◌∙◌, sym, ap, true, false, none, some, List, [], ◌∷◌, ◌++◌, map,
  ltb, ==_iff, length, take-append, length-append, arith,
}
use omnidrive.Result.{ok}
use omnidrive.Int64.{pos}
use omnidrive.Bytes.{Bytes}
use omnidrive.Chunks.{PackRow, to_usize}
use omnidrive.Shards.{
  ReedSolomon, set, replicate, fill_shards, shard_len_of, split_ciphertext_into_shards, sizes_match,
  join_shards, reconstruct_ciphertext,
}
use omnidrive.Shards.Fill.{IsSplit, fill-IsSplit}

-- What a systematic code with two data shards and a parity shard promises of shards that are not
-- empty: encoding keeps the data shards, and reconstruction fills in any one missing shard of a
-- codeword. Empty shards may be refused.
pub record IsErasureCode (rs : ReedSolomon) : Type 0 where
  pub parity : Bytes → Bytes → Bytes
  pub parity_length : (a b : Bytes) → length a ≡ length b → length (parity a b) ≡ length a
  pub encodes :
      (a b p : Bytes)
      → 0 < length a
      → length a ≡ length b
      → length a ≡ length p
      → rs.encode (a ∷ b ∷ p ∷ []) ≡ ok (a ∷ b ∷ parity a b ∷ [])
  pub recovers :
      (a b : Bytes) (i : ℕ)
      → 0 < length a
      → length a ≡ length b
      → rs.reconstruct (set (some a ∷ some b ∷ some (parity a b) ∷ []) i none)
        ≡ ok (some a ∷ some b ∷ some (parity a b) ∷ [])

module _ (n : ℕ) (a b p : Bytes) (la : length a ≡ n) (lb : length b ≡ n) (lp : length p ≡ n) where
  set-sizes :
      (i : ℕ)
      → (length (set (some a ∷ some b ∷ some p ∷ []) i none) ≡ 3)
        × (sizes_match n (set (some a ∷ some b ∷ some p ∷ []) i none) ≡ true)
  unfolding set sizes_match
  set-sizes zero = (refl, rw ((==_iff (length b) n).1 lb, (==_iff (length p) n).1 lp))
  set-sizes (suc zero) = (refl, rw ((==_iff (length a) n).1 la, (==_iff (length p) n).1 lp))
  set-sizes (suc (suc zero)) = (refl, rw ((==_iff (length a) n).1 la, (==_iff (length b) n).1 lb))
  set-sizes (suc (suc (suc i))) = (
    refl,
    rw ((==_iff (length a) n).1 la, (==_iff (length b) n).1 lb, (==_iff (length p) n).1 lp),
  )

shard_len_positive : (ct : Bytes) → 0 < shard_len_of ct
unfolding shard_len_of
shard_len_positive ct = ground arith

module _ (rs : ReedSolomon) (laws : IsErasureCode rs) where
  split_codeword :
      (ct : Bytes)
      (s : IsSplit ct
        (fill_shards (shard_len_of ct) 0 ct (replicate 3 (replicate (shard_len_of ct) 0))))
      → split_ciphertext_into_shards rs ct
        ≡ ok (s.first ∷ s.second ∷ laws.parity s.first s.second ∷ [])
  unfolding split_ciphertext_into_shards
  split_codeword ct s =
      ap rs.encode s.shards_eq
      ∙ laws.encodes s.first s.second (replicate (shard_len_of ct) 0)
          (omega (arith, shard_len_positive ct, s.first_length))
          (s.first_length ∙ sym s.second_length) (s.first_length ∙ sym (length-zeros _))
    where
      length-zeros : (n : ℕ) → length (replicate {A = ℕ} n 0) ≡ n
      length-zeros zero = refl
      length-zeros (suc n) = ap suc (length-zeros n)

  recover :
      (ct : Bytes) (pack : PackRow) (i padding : ℕ) (a b : Bytes)
      → length a ≡ shard_len_of ct
      → length b ≡ shard_len_of ct
      → a ++ b ≡ ct ++ replicate padding 0
      → pack.shard_size ≡ pos (shard_len_of ct)
      → pack.cipher_size ≡ pos (length ct)
      → reconstruct_ciphertext rs pack (set (some a ∷ some b ∷ some (laws.parity a b) ∷ []) i none)
        ≡ ok ct
  unfolding reconstruct_ciphertext join_shards to_usize
  recover ct pack i padding a b la lb w size cipher =
      let lp = laws.parity_length a b (la ∙ sym lb) ∙ la in
      let (three, match) = set-sizes (shard_len_of ct) a b (laws.parity a b) la lb lp i in
      let joined : a ++ (b ++ []) ≡ ct ++ replicate padding 0 =
        ap (λ (x : Bytes). a ++ x) (append-nil b) ∙ w in
      let long : ltb (length (ct ++ replicate padding 0)) (length ct) ≡ false =
        ground (arith, length-append ct (replicate padding 0)) in
      rw (
        three,
        size,
        match,
        laws.recovers a b i (omega (arith, shard_len_positive ct, la)) (la ∙ sym lb),
        cipher,
        joined,
        long,
        take-append ct (replicate padding 0),
      )

  -- Every ciphertext can be split, the empty one too, and is reconstructed from its shards when any
  -- one of them is lost, or none: the index `i` is that of the lost shard, and names none from 3 on.
  -- The pack's row has the shards' length and the ciphertext's. The code, of shards that are not
  -- empty, keeps the data shards and fills in one missing shard.
  pub reconstruct-split :
      (ct : Bytes) (pack : PackRow)
      → pack.shard_size ≡ pos (shard_len_of ct)
      → pack.cipher_size ≡ pos (length ct)
      → (shards : List Bytes) × (split_ciphertext_into_shards rs ct ≡ ok shards)
        × ((i : ℕ) → reconstruct_ciphertext rs pack (set (map some shards) i none) ≡ ok ct)
  reconstruct-split ct pack size cipher =
      let s = fill-IsSplit ct in
      (
        s.first ∷ s.second ∷ laws.parity s.first s.second ∷ [],
        split_codeword ct s,
        λ i.
            recover ct pack i s.padding s.first s.second s.first_length s.second_length s.whole size
              cipher,
      )
