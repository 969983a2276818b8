-- ===== src/Base/Sort.antt =====
-- What sorting with a given test promises, and an insertion sort that keeps the promise.
use mathlib.Core.Path.{◌≡◌, refl}
use mathlib.Core.Bool.{Bool, true, false}
use mathlib.Core.List.{List, [], ◌∷◌}
use integration_service.Base.{Bool-cases, arith, if◌then◌else◌, inl, inr, ℕ, ◌+◌, ◌⊎◌}

abbrev pub Every : {A : Type 0} → (A → Type 0) → List A → Type 0
Every P [] = Unit
Every P (x ∷ l) = P x × Every P l

abbrev pub count : {A : Type 0} → (A → Bool) → List A → ℕ
count test [] = 0
count test (x ∷ l) = (if test x then 1 else 0) + count test l

-- x is an element of the list.
abbrev pub IsIn : {A : Type 0} → A → List A → Type 0
IsIn x [] = true ≡ false
IsIn x (y ∷ l) = (x ≡ y) ⊎ IsIn x l

-- No element is less than one before it.
abbrev pub IsOrdered : {A : Type 0} → (A → A → Bool) → List A → Type 0
IsOrdered less [] = Unit
IsOrdered less (x ∷ l) = Every (λ y. less y x ≡ false) l × IsOrdered less l

-- A strict weak order, as sort.Slice and sort.Sort ask of their test.
pub record IsWeakOrder {A : Type 0} (less : A → A → Bool) : Type 0 where
  pub asym : (x y : A) → less x y ≡ true → less y x ≡ false
  pub not_less_trans : (x y z : A) → less y x ≡ false → less z y ≡ false → less z x ≡ false

-- A sort moves the elements, and keeps each.
pub record Keeps {A : Type 0} (sort : (A → A → Bool) → List A → List A) : Type 1 where
  pub keeps_every :
      (less : A → A → Bool) (P : A → Type 0) (l : List A) → Every P l → Every P (sort less l)
  pub keeps_count :
      (less : A → A → Bool) (test : A → Bool) (l : List A) → count test (sort less l) ≡ count test l

-- A sort puts the elements in order.
pub record Orders {A : Type 0} (sort : (A → A → Bool) → List A → List A) : Type 0 where
  pub orders :
      (less : A → A → Bool) → IsWeakOrder less → (l : List A) → IsOrdered less (sort less l)

module _ {A : Type 0} where
  pub Every-map : (P Q : A → Type 0) (l : List A) → ((x : A) → P x → Q x) → Every P l → Every Q l
  Every-map P Q [] f h = tt
  Every-map P Q (x ∷ l) f h = (f x h.0, Every-map P Q l f h.1)

  pub Every-at : (P : A → Type 0) (x : A) (l : List A) → Every P l → IsIn x l → P x
  Every-at P x [] h i = cc
  Every-at P x (y ∷ l) h (inl e) = rw e h.0
  Every-at P x (y ∷ l) h (inr i) = Every-at P x l h.1 i

  pub Every-IsIn : (l : List A) → Every (λ x. IsIn x l) l
  Every-IsIn [] = tt
  Every-IsIn (x ∷ l) =
      (inl refl, Every-map (λ y. IsIn y l) (λ y. IsIn y (x ∷ l)) l (λ y i. inr i) (Every-IsIn l))

  pub count-of_Every :
      (test : A → Bool) (l : List A) → Every (λ x. test x ≡ false) l → count test l ≡ 0
  count-of_Every test [] h = refl
  count-of_Every test (x ∷ l) h = rw (h.0, count-of_Every test l h.1) refl

  pub Every-of_count :
      (test : A → Bool) (l : List A) → count test l ≡ 0 → Every (λ x. test x ≡ false) l
  Every-of_count test [] h = tt
  Every-of_count test (x ∷ l) h = elim (Bool-cases (test x)) [
    | inl e ↦ ground (arith, e, h)
    | inr e ↦ (e, Every-of_count test l (ground (arith, e, h)))
  ]

  -- What no element of the sorted list is, no element is.
  pub Every-of_sorted :
      (sort : (A → A → Bool) → List A → List A) (less : A → A → Bool) (test : A → Bool) (l : List A)
      → Keeps sort
      → Every (λ x. test x ≡ false) (sort less l)
      → Every (λ x. test x ≡ false) l
  Every-of_sorted sort less test l keeps h =
      Every-of_count test l
        (ground (arith, keeps.keeps_count less test l, count-of_Every test (sort less l) h))

  -- Nothing sorts to nothing.
  pub sort-nil :
      (sort : (A → A → Bool) → List A → List A) (less : A → A → Bool)
      → Keeps sort
      → sort less [] ≡ []
  sort-nil sort less keeps =
      nothing (sort less []) (keeps.keeps_every less (λ x. true ≡ false) [] tt)
    where
      nothing : (l : List A) → Every (λ x. true ≡ false) l → l ≡ []
      nothing [] h = refl
      nothing (x ∷ l) h = cc

  unfoldable pub insert_sorted : (A → A → Bool) → A → List A → List A
  insert_sorted less x [] = x ∷ []
  insert_sorted less x (y ∷ l) =
      let rest = insert_sorted less x l in if less y x then y ∷ rest else x ∷ y ∷ l

  unfoldable pub insertion_sort : (A → A → Bool) → List A → List A
  unfolding insert_sorted
  insertion_sort less [] = []
  insertion_sort less (x ∷ l) = insert_sorted less x (insertion_sort less l)

  insert_sorted-Every :
      (less : A → A → Bool) (P : A → Type 0) (x : A) (l : List A)
      → P x
      → Every P l
      → Every P (insert_sorted less x l)
  unfolding insert_sorted
  insert_sorted-Every less P x [] p h = (p, tt)
  insert_sorted-Every less P x (y ∷ l) p h = elim (Bool-cases (less y x)) [
    | inl e ↦ rw e (h.0, insert_sorted-Every less P x l p h.1)
    | inr e ↦ rw e (p, h)
  ]

  insertion_sort-Every :
      (less : A → A → Bool) (P : A → Type 0) (l : List A)
      → Every P l
      → Every P (insertion_sort less l)
  unfolding insertion_sort
  insertion_sort-Every less P [] h = tt
  insertion_sort-Every less P (x ∷ l) h =
      insert_sorted-Every less P x (insertion_sort less l) h.0 (insertion_sort-Every less P l h.1)

  insert_sorted-count :
      (less : A → A → Bool) (test : A → Bool) (x : A) (l : List A)
      → count test (insert_sorted less x l) ≡ count test (x ∷ l)
  unfolding insert_sorted
  insert_sorted-count less test x [] = refl
  insert_sorted-count less test x (y ∷ l) = elim (Bool-cases (less y x)) [
    | inl e ↦ rw e (ground (arith, insert_sorted-count less test x l))
    | inr e ↦ rw e refl
  ]

  insertion_sort-count :
      (less : A → A → Bool) (test : A → Bool) (l : List A)
      → count test (insertion_sort less l) ≡ count test l
  unfolding insertion_sort
  insertion_sort-count less test [] = refl
  insertion_sort-count less test (x ∷ l) = ground (
    arith,
    insertion_sort-count less test l,
    insert_sorted-count less test x (insertion_sort less l),
  )

  insert_sorted-IsOrdered :
      (less : A → A → Bool) (x : A) (l : List A)
      → IsWeakOrder less
      → IsOrdered less l
      → IsOrdered less (insert_sorted less x l)
  unfolding insert_sorted
  insert_sorted-IsOrdered less x [] order h = (tt, tt)
  insert_sorted-IsOrdered less x (y ∷ l) order h = elim (Bool-cases (less y x)) [
    | inl e ↦ rw e (
      insert_sorted-Every less (λ z. less z y ≡ false) x l (order.asym y x e) h.0,
      insert_sorted-IsOrdered less x l order h.1,
    )
    | inr e ↦ rw e (
      (
        e,
        Every-map (λ z. less z y ≡ false) (λ z. less z x ≡ false) l
            (λ z k. order.not_less_trans x y z e k) h.0,
      ),
      h,
    )
  ]

  insertion_sort-IsOrdered :
      (less : A → A → Bool)
      → IsWeakOrder less
      → (l : List A) → IsOrdered less (insertion_sort less l)
  unfolding insertion_sort
  insertion_sort-IsOrdered less order [] = tt
  insertion_sort-IsOrdered less order (x ∷ l) =
      insert_sorted-IsOrdered less x (insertion_sort less l) order
        (insertion_sort-IsOrdered less order l)

  pub insertion_sort-Keeps : Keeps {A = A} insertion_sort
  insertion_sort-Keeps = record {
    keeps_every = insertion_sort-Every;
    keeps_count = insertion_sort-count;
  }

  pub insertion_sort-Orders : Orders {A = A} insertion_sort
  insertion_sort-Orders = record { orders = insertion_sort-IsOrdered }
