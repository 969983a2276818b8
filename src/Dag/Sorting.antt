-- ===== src/Dag/Sorting.antt =====
-- sort.Strings. Texts that compare equal are the same, so every sort has this result.
use Prim.Native.Nat.{Ordering}
use Prim.Native.String.{compare}
use integration_service.Base.{
  List, String, [], ap, arith, contains, refl, ◌==◌, ◌||◌, ◌∙◌, ◌∷◌, ◌≡◌,
}

insert_sorted : String → List String → List String
insert_sorted x [] = x ∷ []
insert_sorted x (y ∷ ys) =
    let rest = insert_sorted x ys in elim (compare y x) [ Ordering.lt ↦ y ∷ rest | _ ↦ x ∷ y ∷ ys ]

unfoldable pub sort_strings : List String → List String
unfolding insert_sorted
sort_strings [] = []
sort_strings (x ∷ xs) = insert_sorted x (sort_strings xs)

contains-insert_sorted :
    (x k : String) (xs : List String) → contains (insert_sorted x xs) k ≡ (x == k || contains xs k)
unfolding insert_sorted
contains-insert_sorted x k [] = refl
contains-insert_sorted x k (y ∷ ys) = ground (arith, contains-insert_sorted x k ys)

pub contains-sort_strings :
    (xs : List String) (k : String) → contains (sort_strings xs) k ≡ contains xs k
unfolding sort_strings
contains-sort_strings [] k = refl
contains-sort_strings (x ∷ xs) k =
    contains-insert_sorted x k (sort_strings xs)
    ∙ ap (λ b. x == k || b) (contains-sort_strings xs k)
