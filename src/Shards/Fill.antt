-- ===== src/Shards/Fill.antt =====
-- What the loop of `split_ciphertext_into_shards` in angeld/src/packer.rs writes: the first shard
-- has the first bytes, the second one the rest, padded with zeros.
use native.Mathlib.Nat.{div-eq_of_lt, mod-eq_of_lt, add-div_left, add-mod_left}
use mathlib.Core.List.{append-nil, append_assoc}
use omnidrive.Prelude.{
  ℕ, zero, suc, ◌+◌, ◌-◌, ◌/◌, ◌%◌, ◌≤◌, ◌<◌, ◌≡◌, refl, ◌∙◌, sym, ap, subst, List, [], ◌∷◌, ◌++◌,
  length, take, drop, length-append, length-take, length-drop, arith,
}
use omnidrive.Bytes.{Bytes}
use omnidrive.Shards.{set, set_at, fill_shards, replicate, shard_len_of, total_shards}

-- The bytes written into one shard from an index on.
write_from : ℕ → Bytes → Bytes → Bytes
write_from j [] shard = shard
write_from j (b ∷ bs) shard = write_from (j + 1) bs (set shard j b)

set-append :
    (xs : Bytes) (y : ℕ) (ys : Bytes) (b : ℕ) → set (xs ++ (y ∷ ys)) (length xs) b ≡ xs ++ (b ∷ ys)
unfolding set
set-append [] y ys b = refl
set-append (x ∷ xs) y ys b = ap (λ (zs : Bytes). x ∷ zs) (set-append xs y ys b)

-- Written over zeros behind a prefix.
write_from-zeros :
    (j : ℕ) (bs front : Bytes) (m : ℕ)
    → length front ≡ j
    → write_from j bs (front ++ replicate (length bs + m) 0) ≡ front ++ (bs ++ replicate m 0)
unfolding write_from
write_from-zeros j [] front m l = let e : 0 + m ≡ m = omega arith in rw e
write_from-zeros j (b ∷ bs) front m l =
    let e : suc (length bs) + m ≡ suc (length bs + m) = omega arith in
    let s : set (front ++ (0 ∷ replicate (length bs + m) 0)) j b
        ≡ (front ++ (b ∷ [])) ++ replicate (length bs + m) 0 =
      subst
        (λ k.
          set (front ++ (0 ∷ replicate (length bs + m) 0)) k b
          ≡ (front ++ (b ∷ [])) ++ replicate (length bs + m) 0)
        l
        (set-append front 0 (replicate (length bs + m) 0) b
          ∙ sym (append_assoc front (b ∷ []) (replicate (length bs + m) 0))) in
    rw e (
      rw s (
        write_from-zeros (j + 1) bs (front ++ (b ∷ [])) m
          (omega (arith, length-append front (b ∷ [])))
        ∙ append_assoc front (b ∷ []) (bs ++ replicate m 0)))

module _ (n : ℕ) (a b c : Bytes) where
  fill_first :
      (j : ℕ) (bs front : Bytes)
      → j + length bs ≤ n
      → fill_shards n j bs (front ∷ b ∷ c ∷ []) ≡ write_from j bs front ∷ b ∷ c ∷ []
  unfolding fill_shards write_from set_at
  fill_first j [] front h = refl
  fill_first j (x ∷ xs) front h =
      let d : j / n ≡ 0 = div-eq_of_lt (omega arith) in
      let m : j % n ≡ j = mod-eq_of_lt (omega arith) in
      rw (d, m) (fill_first (j + 1) xs (set front j x) (omega arith))

  fill_second :
      (j : ℕ) (bs front : Bytes)
      → j + length bs ≤ n
      → fill_shards n (n + j) bs (a ∷ front ∷ c ∷ []) ≡ a ∷ write_from j bs front ∷ c ∷ []
  unfolding fill_shards write_from set_at
  fill_second j [] front h = refl
  fill_second j (x ∷ xs) front h =
      let d : (n + j) / n ≡ 1 =
        add-div_left j (omega arith) ∙ ap (λ q. q + 1) (div-eq_of_lt (omega arith)) in
      let m : (n + j) % n ≡ j = add-mod_left n j ∙ mod-eq_of_lt (omega arith) in
      let k : n + j + 1 ≡ n + (j + 1) = omega arith in
      rw (d, m, k) (fill_second (j + 1) xs (set front j x) (omega arith))

fill-append :
    (n j : ℕ) (xs ys : Bytes) (s : List Bytes)
    → fill_shards n j (xs ++ ys) s ≡ fill_shards n (j + length xs) ys (fill_shards n j xs s)
unfolding fill_shards
fill-append n j [] ys s = let e : j + 0 ≡ j = omega arith in rw e
fill-append n j (x ∷ xs) ys s =
    let e : j + suc (length xs) ≡ j + 1 + length xs = omega arith in
    rw e (fill-append n (j + 1) xs ys (set_at s (j / n) (j % n) x))

take-drop : (n : ℕ) (xs : Bytes) → take n xs ++ drop n xs ≡ xs
take-drop zero xs = refl
take-drop (suc n) [] = refl
take-drop (suc n) (x ∷ xs) = ap (λ (ys : Bytes). x ∷ ys) (take-drop n xs)

length-replicate : (n b : ℕ) → length (replicate n b) ≡ n
length-replicate zero b = refl
length-replicate (suc n) b = ap suc (length-replicate n b)

-- The two data shards are equally long, and hold the ciphertext and padding.
pub record IsSplit (ciphertext : Bytes) (shards : List Bytes) : Type 0 where
  pub first : Bytes
  pub second : Bytes
  pub padding : ℕ
  pub first_length : length first ≡ shard_len_of ciphertext
  pub second_length : length second ≡ shard_len_of ciphertext
  pub shards_eq : shards ≡ first ∷ second ∷ replicate (shard_len_of ciphertext) 0 ∷ []
  pub whole : first ++ second ≡ ciphertext ++ replicate padding 0

module _ (n : ℕ) (xs ys : Bytes) (l : length xs ≡ n) (k : length ys ≤ n) where
  fill_both :
      fill_shards n 0 (xs ++ ys) (replicate 3 (replicate n 0))
      ≡ xs ∷ (ys ++ replicate (n - length ys) 0) ∷ replicate n 0 ∷ []
  fill_both =
      let z : Bytes = replicate n 0 in
      let first : write_from 0 xs z ≡ xs =
        ap (λ m. write_from 0 xs (replicate m 0)) (omega arith)
        ∙ (write_from-zeros 0 xs [] 0 refl ∙ append-nil xs) in
      let second : write_from 0 ys z ≡ ys ++ replicate (n - length ys) 0 =
        ap (λ m. write_from 0 ys (replicate m 0)) (omega arith)
        ∙ write_from-zeros 0 ys [] (n - length ys) refl in
      fill-append n 0 xs ys (z ∷ z ∷ z ∷ [])
      ∙ (ap (fill_shards n (0 + length xs) ys)
            (fill_first n z z z 0 xs z (omega arith) ∙ ap (λ (s : Bytes). s ∷ z ∷ z ∷ []) first)
          ∙ (ap (λ m. fill_shards n m ys (xs ∷ z ∷ z ∷ [])) (omega arith)
              ∙ (fill_second n xs z z 0 ys z (omega arith)
                  ∙ ap (λ (s : Bytes). xs ∷ s ∷ z ∷ []) second)))

shard_len_bounds :
    (ct : Bytes)
    → 0 < length ct
    → (shard_len_of ct ≤ length ct) × (length ct ≤ shard_len_of ct + shard_len_of ct)
unfolding shard_len_of
shard_len_bounds ct h = (ground arith, ground arith)

empty-IsSplit : IsSplit [] (fill_shards 1 0 [] ((0 ∷ []) ∷ (0 ∷ []) ∷ (0 ∷ []) ∷ []))
unfolding fill_shards shard_len_of
empty-IsSplit = record {
  first = 0 ∷ [];
  second = 0 ∷ [];
  padding = 2;
  first_length = refl;
  second_length = refl;
  shards_eq = refl;
  whole = refl;
}

pub fill-IsSplit :
    (ciphertext : Bytes)
    → IsSplit ciphertext (
        fill_shards
          (shard_len_of ciphertext)
          0
          ciphertext
          (replicate total_shards (replicate (shard_len_of ciphertext) 0)))
fill-IsSplit [] = unfold shard_len_of in empty-IsSplit
fill-IsSplit (x ∷ xs) =
    let ct : Bytes = x ∷ xs in
    let n = shard_len_of ct in
    let big : n ≤ length ct = (shard_len_bounds ct (omega arith)).0 in
    let half : length ct ≤ n + n = (shard_len_bounds ct (omega arith)).1 in
    let l : length (take n ct) ≡ n = length-take n ct big in
    let k : length (drop n ct) ≤ n = omega (arith, length-drop n ct) in
    record {
      first = take n ct;
      second = drop n ct ++ replicate (n - length (drop n ct)) 0;
      padding = n - length (drop n ct);
      first_length = l;
      second_length = omega (
        arith,
        length-append (drop n ct) (replicate (n - length (drop n ct)) 0),
        length-replicate (n - length (drop n ct)) 0,
      );
      shards_eq =
          ap (λ (b : Bytes). fill_shards n 0 b (replicate 3 (replicate n 0))) (sym (take-drop n ct))
          ∙ fill_both n (take n ct) (drop n ct) l k;
      whole =
          sym (append_assoc (take n ct) (drop n ct) (replicate (n - length (drop n ct)) 0))
          ∙ ap (λ (b : Bytes). b ++ replicate (n - length (drop n ct)) 0) (take-drop n ct);
    }
