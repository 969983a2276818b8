-- ===== src/Base/Lists.antt =====
-- Lists measured by native numbers, and Boolean membership of texts.
use Prim.Native.Nat.{ℕ, suc, ◌+◌, ◌≤◌}
use Prim.Native.String.{String}
use mathlib.Core.Path.{◌≡◌, refl}
use mathlib.Core.Bool.{Bool, true, false, ◌||◌}
use mathlib.Core.List.{List, [], ◌∷◌, ◌++◌}
use native.Mathlib.Omega.{arith}
use text.Mathlib.TextEquality.{eq_iff}
use integration_service.Base.Tests.{◌==◌, if◌then◌else◌}

module _ {ℓ} {A : Type ℓ} where
  abbrev pub length : List A → ℕ
  length [] = 0
  length (x ∷ xs) = suc (length xs)

  pub length-append : (xs ys : List A) → length (xs ++ ys) ≡ length xs + length ys
  length-append [] ys = omega arith
  length-append (x ∷ xs) ys = omega (arith, length-append xs ys)

-- `slices.Contains` at texts
abbrev pub contains : List String → String → Bool
contains [] k = false
contains (x ∷ xs) k = x == k || contains xs k

-- Every text of the one list is in the other.
abbrev pub IsSubset : List String → List String → Type 0
IsSubset xs ys = (k : String) → contains xs k ≡ true → contains ys k ≡ true

-- No text occurs twice.
abbrev pub IsNodup : List String → Type 0
IsNodup [] = Unit
IsNodup (x ∷ xs) = (contains xs x ≡ false) × IsNodup xs

pub contains-append :
    (xs ys : List String) (k : String) → contains (xs ++ ys) k ≡ (contains xs k || contains ys k)
contains-append [] ys k = refl
contains-append (x ∷ xs) ys k = ground (arith, contains-append xs ys k)

-- The list without the first occurrence of a text.
erase : String → List String → List String
erase k [] = []
erase k (x ∷ xs) = let rest = erase k xs in if x == k then xs else x ∷ rest

length-erase :
    (k : String) (xs : List String) → contains xs k ≡ true → suc (length (erase k xs)) ≡ length xs
unfolding erase
length-erase k [] h = ground arith
length-erase k (x ∷ xs) h = ground (arith, length-erase k xs)

contains-erase :
    (k j : String) (xs : List String)
    → (k == j) ≡ false
    → contains xs j ≡ true
    → contains (erase k xs) j ≡ true
unfolding erase
contains-erase k j [] ne h = h
contains-erase k j (x ∷ xs) ne h =
    ground (arith, contains-erase k j xs, eq_iff x k, eq_iff x j, eq_iff k j)

-- A list without repetition is at most as long as one that holds all its texts.
pub IsNodup-length-le : (xs ys : List String) → IsNodup xs → IsSubset xs ys → length xs ≤ length ys
IsNodup-length-le [] ys n s = omega arith
IsNodup-length-le (x ∷ xs) ys (fresh, n) s =
    let here : contains ys x ≡ true = s x (ground (arith, eq_iff x x)) in
    let rest : IsSubset xs (erase x ys) =
      λ j h. contains-erase x j ys (ground (arith, eq_iff x j)) (s j (ground arith)) in
    omega (arith, IsNodup-length-le xs (erase x ys) n rest, length-erase x ys here)
