-- ===== src/Ranges/Window.antt =====
-- Windows of a sequence: what part of a range lies in which chunk.
use omnidrive.Prelude.{
  ℕ, zero, suc, ◌+◌, ◌-◌, ◌≤◌, ◌<◌, ◌≡◌, refl, ◌∙◌, sym, ap, max, min, [], ◌∷◌, ◌++◌, length, take,
  drop, leb, leb→le, Bool-cases, inl, inr, length-take-le, length-drop, arith,
}
use omnidrive.Bytes.{Bytes}

pub take_all : (n : ℕ) (xs : Bytes) → length xs ≤ n → take n xs ≡ xs
take_all zero [] h = refl
take_all zero (x ∷ xs) h = absurd (omega arith)
take_all (suc n) [] h = refl
take_all (suc n) (x ∷ xs) h = ap (λ (ys : Bytes). x ∷ ys) (take_all n xs (omega arith))

pub drop_all : (n : ℕ) (xs : Bytes) → length xs ≤ n → drop n xs ≡ []
drop_all zero [] h = refl
drop_all zero (x ∷ xs) h = absurd (omega arith)
drop_all (suc n) [] h = refl
drop_all (suc n) (x ∷ xs) h = drop_all n xs (omega arith)

nil_of_length : (xs : Bytes) → length xs ≤ 0 → xs ≡ []
nil_of_length [] h = refl
nil_of_length (x ∷ xs) h = absurd (omega arith)

length-take-le_self : (n : ℕ) (xs : Bytes) → length (take n xs) ≤ length xs
length-take-le_self zero xs = omega arith
length-take-le_self (suc n) [] = omega arith
length-take-le_self (suc n) (x ∷ xs) = omega (arith, length-take-le_self n xs)

pub take-append_split :
    (n : ℕ) (xs ys : Bytes) → take n (xs ++ ys) ≡ take n xs ++ take (n - length xs) ys
take-append_split zero xs ys = let e : 0 - length xs ≡ 0 = omega arith in rw e
take-append_split (suc n) [] ys = let e : suc n - 0 ≡ suc n = omega arith in rw e
take-append_split (suc n) (x ∷ xs) ys =
    let e : suc n - suc (length xs) ≡ n - length xs = omega arith in
    rw e (ap (λ (zs : Bytes). x ∷ zs) (take-append_split n xs ys))

pub drop-append_split :
    (n : ℕ) (xs ys : Bytes) → drop n (xs ++ ys) ≡ drop n xs ++ drop (n - length xs) ys
drop-append_split zero xs ys = let e : 0 - length xs ≡ 0 = omega arith in rw e
drop-append_split (suc n) [] ys = let e : suc n - 0 ≡ suc n = omega arith in rw e
drop-append_split (suc n) (x ∷ xs) ys =
    let e : suc n - suc (length xs) ≡ n - length xs = omega arith in
    rw e (drop-append_split n xs ys)

-- The bytes from `offset` up to `end` of a file whose part from `start` on is `xs`.
unfoldable pub window : ℕ → ℕ → ℕ → Bytes → Bytes
window offset end start xs = take (end - max start offset) (drop (offset - start) xs)

pub window-append :
    (offset end start : ℕ) (xs ys : Bytes)
    → window offset end start (xs ++ ys)
      ≡ window offset end start xs ++ window offset end (start + length xs) ys
unfolding window
window-append offset end start xs ys =
    ap (take (end - max start offset)) (drop-append_split (offset - start) xs ys)
    ∙ (take-append_split (end - max start offset) (drop (offset - start) xs)
          (drop (offset - start - length xs) ys)
        ∙ ap (λ (zs : Bytes). take (end - max start offset) (drop (offset - start) xs) ++ zs)
            (ap (λ m. take m (drop (offset - start - length xs) ys)) count
              ∙ ap (λ m. take (end - max (start + length xs) offset) (drop m ys)) rest))
  where
    l : length (drop (offset - start) xs) ≡ length xs - (offset - start)
    l = length-drop (offset - start) xs

    rest : offset - start - length xs ≡ offset - (start + length xs)
    rest = omega arith

    count :
        end - max start offset - length (drop (offset - start) xs)
        ≡ end - max (start + length xs) offset
    count = omega (arith, l)

pub window_nil : (offset end start : ℕ) → window offset end start [] ≡ []
unfolding window
window_nil offset end start =
    ap (take (end - max start offset)) (drop_all (offset - start) [] (omega arith))
    ∙ take_all (end - max start offset) [] (omega arith)

-- A part before the range, or behind it, has nothing of it.
pub window_outside :
    (offset end start : ℕ) (xs : Bytes)
    → min end (start + length xs) ≤ max offset start
    → window offset end start xs ≡ []
unfolding window
window_outside offset end start xs h =
    nil_of_length (take (end - max start offset) (drop (offset - start) xs)) (
      omega (
        arith,
        length-take-le (end - max start offset) (drop (offset - start) xs),
        length-take-le_self (end - max start offset) (drop (offset - start) xs),
        length-drop (offset - start) xs,
      ))

-- The slice of a chunk that the loop takes.
pub window_slice :
    (offset end start : ℕ) (xs : Bytes)
    → max offset start < min end (start + length xs)
    → take
        (min end (start + length xs) - start - (max offset start - start))
        (drop (max offset start - start) xs)
      ≡ window offset end start xs
unfolding window
window_slice offset end start xs h =
    let d : max offset start - start ≡ offset - start = omega arith in
    let k = min end (start + length xs) - start - (offset - start) in
    let n = end - max start offset in
    let l : length (drop (offset - start) xs) ≡ length xs - (offset - start) =
      length-drop (offset - start) xs in
    rw d (elim (Bool-cases (leb end (start + length xs))) [
      | inl e ↦
          let e' : end ≤ start + length xs = leb→le end (start + length xs) e in
          ap (λ m. take m (drop (offset - start) xs)) (omega arith)
      | inr e ↦
          let e' : start + length xs < end = ground arith in
          take_all k (drop (offset - start) xs) (omega (arith, l))
          ∙ sym (take_all n (drop (offset - start) xs) (omega (arith, l)))
    ])
