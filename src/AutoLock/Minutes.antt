-- ===== src/AutoLock/Minutes.antt =====
-- The stored timeout in minutes: how angeld/src/auto_lock.rs parses, prints and resolves it to a
-- preset.
use Prim.Native.Char.{Char, code}
use omnidrive.Prelude.{
  ℕ, zero, suc, ◌+◌, ◌-◌, ◌*◌, ◌/◌, ◌%◌, ◌^◌, String, Bool, ◌&&◌, Option, none, some, List, [], ◌∷◌,
  ltb, leb, ◌==◌, if◌then◌else◌, any_where,
}

abbrev pub default_idle_min : ℕ
default_idle_min = 15

abbrev pub allowed_presets : List ℕ
allowed_presets = 5 ∷ 15 ∷ 30 ∷ 60 ∷ []

abbrev pub is_preset : ℕ → Bool
is_preset m = any_where (◌==◌ m) allowed_presets

-- `v.parse::<u32>()`: an optional plus sign, and at least one digit; overflow is an error.
abbrev pub u32_max : ℕ
u32_max = 2 ^ 32 - 1

abbrev pub is_digit : Char → Bool
is_digit c = leb 48 (code c) && leb (code c) 57

abbrev pub push_digit : ℕ → Char → ℕ
push_digit n c = n * 10 + (code c - 48)

unfoldable pub parse_digits : ℕ → String → Option ℕ
parse_digits n String.[] = some n
parse_digits n (String.◌∷◌ c s) =
    let rest = parse_digits (push_digit n c) s in
    if is_digit c && leb (push_digit n c) u32_max then rest else none

-- At least one digit.
unfoldable pub parse_unsigned : String → Option ℕ
unfolding parse_digits
parse_unsigned String.[] = none
parse_unsigned (String.◌∷◌ c s) = parse_digits 0 (String.◌∷◌ c s)

unfoldable pub parse_u32 : String → Option ℕ
unfolding parse_unsigned
parse_u32 String.[] = none
parse_u32 (String.◌∷◌ c s) =
    if code c == 43 then parse_unsigned s else parse_unsigned (String.◌∷◌ c s)

-- `m.to_string()`
abbrev pub digit_char : ℕ → Char
digit_char d =
    if d == 0
    then "0"
    else (if d == 1
        then "1"
        else (if d == 2
            then "2"
            else (if d == 3
                then "3"
                else (if d == 4
                    then "4"
                    else (if d == 5
                        then "5"
                        else (if d == 6
                            then "6"
                            else (if d == 7 then "7" else (if d == 8 then "8" else "9"))))))))

abbrev pub digit : ℕ → String → String
digit d s = String.◌∷◌ (digit_char d) s

-- A u32 has at most ten digits.
unfoldable pub digits : ℕ → ℕ → String → String
digits zero n s = s
digits (suc fuel) n s =
    let more = digits fuel (n / 10) (digit (n % 10) s) in if ltb n 10 then digit n s else more

unfoldable pub to_string : ℕ → String
unfolding digits
to_string n = digits 10 n ""

-- `(i64::from(p) - i64::from(n)).abs()` of two u32
abbrev pub distance : ℕ → ℕ → ℕ
distance p n = (p - n) + (n - p)

-- `min_by_key`: the first of the nearest.
unfoldable pub min_by_key : (ℕ → ℕ) → ℕ → List ℕ → ℕ
min_by_key key best [] = best
min_by_key key best (p ∷ ps) = min_by_key key (if ltb (key p) (key best) then p else best) ps

unfoldable pub clamp_to_preset : ℕ → ℕ
unfolding min_by_key
clamp_to_preset n = min_by_key (λ p. distance p n) 5 (15 ∷ 30 ∷ 60 ∷ [])

abbrev pub resolve_parsed : Option ℕ → ℕ
resolve_parsed none = default_idle_min
resolve_parsed (some n) = if is_preset n then n else clamp_to_preset n

abbrev pub parsed : Option String → Option ℕ
parsed none = none
parsed (some v) = parse_u32 v

unfoldable pub resolve_minutes_from_db : Option String → ℕ
resolve_minutes_from_db value = resolve_parsed (parsed value)
