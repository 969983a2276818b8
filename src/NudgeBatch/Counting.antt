-- ===== src/NudgeBatch/Counting.antt =====
-- Counts of the batches that pass a test, and what a write at one position does to them.
use integration_service.Base.{
  subst, inl, inr, Bool-cases, Bool, List, [], ap, arith, false, none, refl, some, true, ℕ, ◌++◌,
  ◌+◌, ◌∷◌, ◌≡◌,
}
use integration_service.NudgeBatch.{ActiveBatch, find_first, store_first}

abbrev pub one_if : Bool → ℕ
one_if true = 1
one_if false = 0

abbrev pub count : (ActiveBatch → Bool) → List ActiveBatch → ℕ
count test [] = 0
count test (b ∷ batches) = one_if (test b) + count test batches

abbrev pub EveryBatch : (ActiveBatch → Type 0) → List ActiveBatch → Type 0
EveryBatch P [] = Unit
EveryBatch P (b ∷ batches) = P b × EveryBatch P batches

pub count-append :
    (test : ActiveBatch → Bool) (l : List ActiveBatch) (b : ActiveBatch) (rest : List ActiveBatch)
    → count test (l ++ b ∷ rest) ≡ count test l + one_if (test b) + count test rest
count-append test [] b rest = omega arith
count-append test (a ∷ l) b rest = rw (count-append test l b rest) (omega arith)

pub EveryBatch-replace :
    (P : ActiveBatch → Type 0) (l : List ActiveBatch) (b b' : ActiveBatch) (rest : List ActiveBatch)
    → (P b → P b')
    → EveryBatch P (l ++ b ∷ rest)
    → EveryBatch P (l ++ b' ∷ rest)
EveryBatch-replace P [] b b' rest f h = (f h.0, h.1)
EveryBatch-replace P (a ∷ l) b b' rest f h = (h.0, EveryBatch-replace P l b b' rest f h.1)

pub EveryBatch-snoc :
    (P : ActiveBatch → Type 0) (l : List ActiveBatch) (b : ActiveBatch)
    → EveryBatch P l
    → P b
    → EveryBatch P (l ++ b ∷ [])
EveryBatch-snoc P [] b h p = (p, tt)
EveryBatch-snoc P (a ∷ l) b h p = (h.0, EveryBatch-snoc P l b h.1 p)

pub EveryBatch-at :
    (P : ActiveBatch → Type 0) (l : List ActiveBatch) (b : ActiveBatch) (rest : List ActiveBatch)
    → EveryBatch P (l ++ b ∷ rest)
    → P b
EveryBatch-at P [] b rest h = h.0
EveryBatch-at P (a ∷ l) b rest h = EveryBatch-at P l b rest h.1

pub append-snoc :
    (l : List ActiveBatch) (b : ActiveBatch) (rest : List ActiveBatch)
    → ((l ++ b ∷ []) ++ rest) ≡ (l ++ b ∷ rest)
append-snoc [] b rest = refl
append-snoc (a ∷ l) b rest = ap (λ x. a ∷ x) (append-snoc l b rest)

-- Where the first batch that passes a test stands, and what a write to it gives.
pub store_first-found :
    (test : ActiveBatch → Bool) (batches : List ActiveBatch) (b : ActiveBatch)
    → find_first test batches ≡ some b
    → (l : List ActiveBatch) × (rest : List ActiveBatch) × (batches ≡ (l ++ b ∷ rest))
      × (test b ≡ true)
      × ((new : ActiveBatch) → store_first test new batches ≡ (l ++ new ∷ rest))
store_first-found test [] b = λ h. cc
store_first-found test (a ∷ batches) b = elim (Bool-cases (test a)) [
  | inl t ↦ rw t (λ h. ([], batches, (cc), subst (λ x. test x ≡ true) (cc) t, λ new. refl))
  | inr f ↦ rw f (λ h.
      let (l, rest, at, passes, write) = store_first-found test batches b h in
      (a ∷ l, rest, ap (λ x. a ∷ x) at, passes, λ new. ap (λ x. a ∷ x) (write new)))
]

pub store_first-missing :
    (test : ActiveBatch → Bool) (batches : List ActiveBatch) (new : ActiveBatch)
    → find_first test batches ≡ none
    → (store_first test new batches ≡ (batches ++ new ∷ [])) × (count test batches ≡ 0)
store_first-missing test [] new = λ h. (refl, refl)
store_first-missing test (a ∷ batches) new = elim (Bool-cases (test a)) [
  | inl t ↦ rw t (λ h. cc)
  | inr f ↦
      rw f
        (λ h. let m = store_first-missing test batches new h in (ap (λ x. a ∷ x) m.0, omega arith))
]

pub count-snoc :
    (test : ActiveBatch → Bool) (l : List ActiveBatch) (b : ActiveBatch)
    → count test (l ++ b ∷ []) ≡ count test l + one_if (test b)
count-snoc test [] b = omega arith
count-snoc test (a ∷ l) b = rw (count-snoc test l b) (omega arith)

pub append-nil : (l : List ActiveBatch) → (l ++ []) ≡ l
append-nil [] = refl
append-nil (a ∷ l) = ap (λ x. a ∷ x) (append-nil l)

pub find_first-cong :
    (f g : ActiveBatch → Bool) (batches : List ActiveBatch)
    → ((b : ActiveBatch) → f b ≡ g b)
    → find_first f batches ≡ find_first g batches
find_first-cong f g [] h = refl
find_first-cong f g (b ∷ batches) h = rw (h b) (rw (find_first-cong f g batches h) refl)
