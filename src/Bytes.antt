-- ===== src/Bytes.antt =====
-- Byte sequences: Rust's slices, comparison, and the big-endian integers of the pack format.
use omnidrive.Prelude.{
  ℕ, zero, suc, ◌+◌, ◌-◌, ◌*◌, ◌/◌, ◌%◌, ◌^◌, ◌≤◌, ◌<◌, ◌≡◌, refl, ap, ◌∙◌, subst, Bool, true,
  false, ◌&&◌, Option, none, some, List, [], ◌∷◌, ◌++◌, leb, ◌==◌, if◌then◌else◌, length, take,
  drop, length-append, take-append, length-take, length-drop, le→leb, arith,
}

-- Each entry is below 256.
abbrev pub Bytes : Type 0
Bytes = List ℕ

unfoldable pub bytes_eq : Bytes → Bytes → Bool
bytes_eq [] [] = true
bytes_eq [] (y ∷ ys) = false
bytes_eq (x ∷ xs) [] = false
bytes_eq (x ∷ xs) (y ∷ ys) = (x == y) && bytes_eq xs ys

pub bytes_eq_refl : (xs : Bytes) → bytes_eq xs xs ≡ true
unfolding bytes_eq
bytes_eq_refl [] = refl
bytes_eq_refl (x ∷ xs) = ground (arith, bytes_eq_refl xs)

pub bytes_eq-eq : (xs ys : Bytes) → bytes_eq xs ys ≡ true → xs ≡ ys
unfolding bytes_eq
bytes_eq-eq [] [] h = refl
bytes_eq-eq [] (y ∷ ys) h = cc
bytes_eq-eq (x ∷ xs) [] h = cc
bytes_eq-eq (x ∷ xs) (y ∷ ys) h = ground (arith, bytes_eq-eq xs ys)

-- `&b[from..to]`; `none` is the panic of a range out of bounds.
unfoldable pub slice : ℕ → ℕ → Bytes → Option Bytes
slice from to b =
    if leb from to && leb to (length b) then some (take (to - from) (drop from b)) else none

pub slice_in_bounds :
    (from to : ℕ) (b : Bytes)
    → from ≤ to
    → to ≤ length b
    → slice from to b ≡ some (take (to - from) (drop from b))
unfolding slice
slice_in_bounds from to b h k = rw (le→leb from to h, le→leb to (length b) k)

pub length-take-drop :
    (from to : ℕ) (b : Bytes)
    → from ≤ to
    → to ≤ length b
    → length (take (to - from) (drop from b)) ≡ to - from
length-take-drop from to b h k =
    length-take (to - from) (drop from b) (omega (arith, length-drop from b))

drop_past : (a b : Bytes) (n : ℕ) → drop (length a + n) (a ++ b) ≡ drop n b
drop_past [] b n = let e : 0 + n ≡ n = omega arith in rw e
drop_past (x ∷ a) b n =
    let e : suc (length a) + n ≡ suc (length a + n) = omega arith in rw e (drop_past a b n)

-- A slice behind the first part of a sequence.
pub slice_past :
    (a b : Bytes) (k from to from' to' : ℕ)
    → length a ≡ k
    → from ≡ k + from'
    → to ≡ k + to'
    → slice from to (a ++ b) ≡ slice from' to' b
unfolding slice
slice_past a b k from to from' to' l f t =
    let d : drop from (a ++ b) ≡ drop from' b =
      ap (λ n. drop n (a ++ b)) (omega arith) ∙ drop_past a b from' in
    let n : to - from ≡ to' - from' = omega arith in rw (d, n) (ground (arith, length-append a b))

-- A slice that is the first part of a sequence.
pub slice_first : (a b : Bytes) (k : ℕ) → length a ≡ k → slice 0 k (a ++ b) ≡ some a
unfolding slice
slice_first a b k l =
    let z : k ≡ k - 0 = omega arith in
    let t : take (k - 0) (a ++ b) ≡ a =
      subst (λ n. take n (a ++ b) ≡ a) (l ∙ z) (take-append a b) in
    rw (le→leb 0 k (omega arith), le→leb k (length (a ++ b)) (omega (arith, length-append a b)))
      (ap some t)

-- `to_be_bytes` of a `w`-byte integer in front of `rest`, and `from_be_bytes` behind a prefix.
unfoldable pub push_be_bytes : ℕ → ℕ → Bytes → Bytes
push_be_bytes zero n rest = rest
push_be_bytes (suc w) n rest = push_be_bytes w (n / 256) (n % 256 ∷ rest)

unfoldable pub to_be_bytes : ℕ → ℕ → Bytes
unfolding push_be_bytes
to_be_bytes w n = push_be_bytes w n []

unfoldable pub read_be_bytes : ℕ → Bytes → ℕ
read_be_bytes n [] = n
read_be_bytes n (b ∷ bs) = read_be_bytes (n * 256 + b) bs

unfoldable pub from_be_bytes : Bytes → ℕ
unfolding read_be_bytes
from_be_bytes bs = read_be_bytes 0 bs

length-push : (w n : ℕ) (rest : Bytes) → length (push_be_bytes w n rest) ≡ w + length rest
unfolding push_be_bytes
length-push zero n rest = omega arith
length-push (suc w) n rest = omega (arith, length-push w (n / 256) (n % 256 ∷ rest))

pub length-to_be_bytes : (w n : ℕ) → length (to_be_bytes w n) ≡ w
unfolding to_be_bytes
length-to_be_bytes w n = omega (arith, length-push w n [])

read-push :
    (w n : ℕ) (rest : Bytes)
    → n < 256 ^ w
    → read_be_bytes 0 (push_be_bytes w n rest) ≡ read_be_bytes n rest
unfolding push_be_bytes read_be_bytes
read-push zero n rest h = let e : n ≡ 0 = omega arith in rw e
read-push (suc w) n rest h =
    let less : n < 256 * 256 ^ w = ground arith in
    let e : n / 256 * 256 + n % 256 ≡ n = omega arith in
    read-push w (n / 256) (n % 256 ∷ rest) (omega arith) ∙ ap (λ m. read_be_bytes m rest) e

-- A value of `w` bytes is read back.
pub from-to_be_bytes : (w n : ℕ) → n < 256 ^ w → from_be_bytes (to_be_bytes w n) ≡ n
unfolding from_be_bytes to_be_bytes read_be_bytes
from-to_be_bytes w n h = read-push w n [] h
