-- ===== src/Gc/NotFound.antt =====
-- What the texts say that `is_not_found_details` of angeld/src/gc.rs accepts.
use Prim.Native.Char.{code}
use omnidrive.Prelude.{
  ℕ, ◌≡◌, refl, ap, String, true, ◌⊎◌, inl, inr, List, [], ◌∷◌, ◌++◌, Bool-cases, arith,
}
use omnidrive.Gc.{lower_code, lower_starts, lower_contains, is_not_found_details}

-- The codes of a text, as it is and in lower case.
pub codes : String → List ℕ
codes String.[] = []
codes (String.◌∷◌ c text) = code c ∷ codes text

pub lowered : String → List ℕ
lowered String.[] = []
lowered (String.◌∷◌ c text) = lower_code (code c) ∷ lowered text

-- The word stands somewhere in the text, in whatever case.
abbrev pub Mentions : String → String → Type 0
Mentions word text = (front back : List ℕ) × (lowered text ≡ front ++ (codes word ++ back))

abbrev pub SaysNotFound : String → Type 0
SaysNotFound text = Mentions "404" text ⊎ (Mentions "notfound" text ⊎ Mentions "nosuchkey" text)

starts-Mentions :
    (word text : String)
    → lower_starts word text ≡ true
    → (back : List ℕ) × (lowered text ≡ codes word ++ back)
unfolding lower_starts codes lowered
starts-Mentions String.[] text h = (lowered text, refl)
starts-Mentions (String.◌∷◌ w word) String.[] h = absurd (ground arith)
starts-Mentions (String.◌∷◌ w word) (String.◌∷◌ c text) h =
    let (back, e) = starts-Mentions word text (ground arith) in
    let same : lower_code (code c) ≡ code w = ground arith in (back, rw (same, e))

contains-Mentions : (word text : String) → lower_contains word text ≡ true → Mentions word text
unfolding lower_contains lowered
contains-Mentions word String.[] h =
    let (back, e) = starts-Mentions word String.[] h in ([], back, e)
contains-Mentions word (String.◌∷◌ c text) h =
    elim (Bool-cases (lower_starts word (String.◌∷◌ c text))) [
      | inl e ↦ let (back, q) = starts-Mentions word (String.◌∷◌ c text) e in ([], back, q)
      | inr e ↦
          let (front, back, q) = contains-Mentions word text (ground arith) in
          (lower_code (code c) ∷ front, back, ap (λ (xs : List ℕ). lower_code (code c) ∷ xs) q)
    ]

-- A text that the code takes for "not found" holds one of the three words.
pub is_not_found-SaysNotFound :
    (text : String) → is_not_found_details text ≡ true → SaysNotFound text
unfolding is_not_found_details
is_not_found-SaysNotFound text h = elim (Bool-cases (lower_contains "404" text)) [
  | inl e ↦ inl (contains-Mentions "404" text e)
  | inr e ↦ elim (Bool-cases (lower_contains "notfound" text)) [
    | inl f ↦ inr (inl (contains-Mentions "notfound" text f))
    | inr f ↦ inr (inr (contains-Mentions "nosuchkey" text (ground arith)))
  ]
]
