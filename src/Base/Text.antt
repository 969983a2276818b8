-- ===== src/Base/Text.antt =====
-- Numbers as texts, and texts letter by letter.
use Prim.Native.Char.{Char, code}
use Prim.Native.String.{len, len, String, ◌++◌ as text_append}
use Prim.Native.Nat.{◌≤◌, ◌<◌, ℕ, zero, suc, ◌/◌, ◌%◌}
use text.Mathlib.TextPositions.{len-append}
use native.Mathlib.Omega.{arith}
use mathlib.Core.Logic.{inl, inr}
use mathlib.Core.List.{List, [], ◌∷◌}
use integration_service.Base.Tests.{Bool-cases, if◌then◌else◌, ltb, nat_eq}

digit_at : List String → ℕ → String
digit_at [] k = ""
digit_at (d ∷ l) zero = d
digit_at (d ∷ l) (suc k) = digit_at l k

digit : ℕ → String
unfolding digit_at
digit = digit_at ("0" ∷ "1" ∷ "2" ∷ "3" ∷ "4" ∷ "5" ∷ "6" ∷ "7" ∷ "8" ∷ "9" ∷ [])

digits : ℕ → ℕ → String
unfolding digit
digits zero n = ""
digits (suc f) n =
    let front = digits f (n / 10) in
    if ltb n 10 then digit n else text_append front (digit (n % 10))

-- The %d of fmt.Sprintf. A number has fewer digits than its successor counts.
unfoldable pub show_nat : ℕ → String
unfolding digits
show_nat n = digits (suc n) n

unfoldable pub swap_char : List (Char × Char) → Char → Char
swap_char [] c = c
swap_char ((a, b) ∷ table) c = if nat_eq (code a) (code c) then b else swap_char table c

unfoldable pub map_chars : (Char → Char) → String → String
map_chars f String.[] = String.[]
map_chars f (String.◌∷◌ c s) = String.◌∷◌ (f c) (map_chars f s)

abbrev lower_table : List (Char × Char)
lower_table =
    ("A", "a")
    ∷ ("B", "b")
    ∷ ("C", "c")
    ∷ ("D", "d")
    ∷ ("E", "e")
    ∷ ("F", "f")
    ∷ ("G", "g")
    ∷ ("H", "h")
    ∷ ("I", "i")
    ∷ ("J", "j")
    ∷ ("K", "k")
    ∷ ("L", "l")
    ∷ ("M", "m")
    ∷ ("N", "n")
    ∷ ("O", "o")
    ∷ ("P", "p")
    ∷ ("Q", "q")
    ∷ ("R", "r")
    ∷ ("S", "s")
    ∷ ("T", "t")
    ∷ ("U", "u")
    ∷ ("V", "v")
    ∷ ("W", "w")
    ∷ ("X", "x")
    ∷ ("Y", "y")
    ∷ ("Z", "z")
    ∷ []

-- strings.ToLower at ASCII texts
unfoldable pub to_lower : String → String
unfolding swap_char map_chars
to_lower = map_chars (swap_char lower_table)

AllShort : List String → Type 0
AllShort [] = Unit
AllShort (d ∷ l) = (len d ≤ 1) × AllShort l

len-digit_at : (l : List String) (k : ℕ) → AllShort l → len (digit_at l k) ≤ 1
unfolding AllShort digit_at
len-digit_at [] k h = omega arith
len-digit_at (d ∷ l) zero h = h.0
len-digit_at (d ∷ l) (suc k) h = len-digit_at l k h.1

len-digit : (n : ℕ) → len (digit n) ≤ 1
unfolding AllShort digit
len-digit n = len-digit_at ("0" ∷ "1" ∷ "2" ∷ "3" ∷ "4" ∷ "5" ∷ "6" ∷ "7" ∷ "8" ∷ "9" ∷ []) n (
  omega arith,
  (
    omega arith,
    (
      omega arith,
      (
        omega arith,
        (
          omega arith,
          (omega arith, (omega arith, (omega arith, (omega arith, (omega arith, tt))))),
        ),
      ),
    ),
  ),
)

len-digits_one : (f n : ℕ) → n < 10 → len (digits f n) ≤ 1
unfolding digits
len-digits_one zero n small = omega arith
len-digits_one (suc f) n small = elim (Bool-cases (ltb n 10)) [
  | inl one ↦ rw one (len-digit n)
  | inr more ↦ ground arith
]

len-digits_two : (f n : ℕ) → n < 100 → len (digits f n) ≤ 2
unfolding digits
len-digits_two zero n small = omega arith
len-digits_two (suc f) n small = elim (Bool-cases (ltb n 10)) [
  | inl one ↦ rw one (omega (arith, len-digit n))
  | inr more ↦
      rw (more, len-append (digits f (n / 10)) (digit (n % 10)))
        (omega (arith, len-digit (n % 10), len-digits_one f (n / 10) (omega arith)))
]

len-digits_three : (f n : ℕ) → n < 1000 → len (digits f n) ≤ 3
unfolding digits
len-digits_three zero n small = omega arith
len-digits_three (suc f) n small = elim (Bool-cases (ltb n 10)) [
  | inl one ↦ rw one (omega (arith, len-digit n))
  | inr more ↦
      rw (more, len-append (digits f (n / 10)) (digit (n % 10)))
        (omega (arith, len-digit (n % 10), len-digits_two f (n / 10) (omega arith)))
]

pub len-show_nat_one : (n : ℕ) → n < 10 → len (show_nat n) ≤ 1
unfolding show_nat
len-show_nat_one n = len-digits_one (suc n) n

pub len-show_nat_two : (n : ℕ) → n < 100 → len (show_nat n) ≤ 2
unfolding show_nat
len-show_nat_two n = len-digits_two (suc n) n

pub len-show_nat_three : (n : ℕ) → n < 1000 → len (show_nat n) ≤ 3
unfolding show_nat
len-show_nat_three n = len-digits_three (suc n) n
