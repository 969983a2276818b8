-- ===== src/Base/Dict.antt =====
-- Go's maps with text keys, as association lists. Go ranges over a map in no fixed order: the order
-- of the entries stands for the order that a run happens to see.
use Prim.Native.String.{String}
use mathlib.Core.Path.{◌≡◌, refl, subst}
use mathlib.Core.Logic.{inl, inr}
use mathlib.Core.Bool.{Bool, true, false, not, ◌&&◌, ◌||◌}
use mathlib.Core.Option.{Option, none, some}
use mathlib.Core.List.{List, [], ◌∷◌}
use native.Mathlib.Omega.{arith}
use text.Mathlib.TextEquality.{eq_iff}
use integration_service.Base.Tests.{==_comm, ◌==◌, if◌then◌else◌, Bool-cases, eq_of_==}
use integration_service.Base.Lists.{IsNodup, contains}

abbrev pub Dict {ℓ} : Type ℓ → Type ℓ
Dict V = List (String × V)

module _ {ℓ} {V : Type ℓ} where
  -- v, ok := m[k]
  abbrev pub lookup : String → Dict V → Option V
  lookup k [] = none
  lookup k ((j, v) ∷ m) = if j == k then some v else lookup k m

  -- m[k] = v
  abbrev pub insert : String → V → Dict V → Dict V
  insert k v [] = (k, v) ∷ []
  insert k v ((j, w) ∷ m) = let rest = insert k v m in if j == k then (k, v) ∷ m else (j, w) ∷ rest

  -- delete(m, k)
  abbrev pub remove : String → Dict V → Dict V
  remove k [] = []
  remove k ((j, w) ∷ m) = let rest = remove k m in if j == k then rest else (j, w) ∷ rest

  abbrev pub keys : Dict V → List String
  keys [] = []
  keys ((j, w) ∷ m) = j ∷ keys m

  -- _, ok := m[k]
  abbrev pub has_key : String → Dict V → Bool
  has_key k m = contains (keys m) k

  pub lookup-insert :
      (k j : String) (v : V) (m : Dict V)
      → lookup j (insert k v m) ≡ (if k == j then some v else lookup j m)
  lookup-insert k j v [] = refl
  lookup-insert k j v ((i, w) ∷ m) =
      ground (arith, eq_iff k j, eq_iff i k, eq_iff i j, lookup-insert k j v m)

  pub lookup-remove :
      (k j : String) (m : Dict V) → lookup j (remove k m) ≡ (if k == j then none else lookup j m)
  lookup-remove k j [] = ground arith
  lookup-remove k j ((i, w) ∷ m) =
      ground (arith, eq_iff k j, eq_iff i k, eq_iff i j, lookup-remove k j m)

-- Every entry meets the predicate.
abbrev pub AllEntries {ℓ κ} : {V : Type ℓ} → (String → V → Type κ) → Dict V → Type κ
AllEntries P [] = Unit
AllEntries P ((k, v) ∷ m) = P k v × AllEntries P m

module _ {ℓ κ} {V : Type ℓ} (P : String → V → Type κ) where
  pub AllEntries-insert :
      (k : String) (v : V) (m : Dict V) → P k v → AllEntries P m → AllEntries P (insert k v m)
  AllEntries-insert k v [] p h = (p, tt)
  AllEntries-insert k v ((j, w) ∷ m) p h = elim (Bool-cases (j == k)) [
    | inl same ↦ rw same (p, h.1)
    | inr other ↦ rw other (h.0, AllEntries-insert k v m p h.1)
  ]

  pub AllEntries-remove : (k : String) (m : Dict V) → AllEntries P m → AllEntries P (remove k m)
  AllEntries-remove k [] h = h
  AllEntries-remove k ((j, w) ∷ m) h = elim (Bool-cases (j == k)) [
    | inl same ↦ rw same (AllEntries-remove k m h.1)
    | inr other ↦ rw other (h.0, AllEntries-remove k m h.1)
  ]

  pub AllEntries-lookup :
      (k : String) (v : V) (m : Dict V) → AllEntries P m → lookup k m ≡ some v → P k v
  AllEntries-lookup k v [] h e = cc
  AllEntries-lookup k v ((j, w) ∷ m) h e = elim (Bool-cases (j == k)) [
    | inl same ↦
        let value : w ≡ v = ground arith in
        subst (λ x. P k x) value (subst (λ x. P x w) (eq_of_== j k same) h.0)
    | inr other ↦ AllEntries-lookup k v m h.1 (rw other at e)
  ]

module _ {ℓ} {V : Type ℓ} where
  pub keys-insert :
      (k j : String) (v : V) (m : Dict V) → has_key j (insert k v m) ≡ (k == j || has_key j m)
  keys-insert k j v [] = refl
  keys-insert k j v ((i, w) ∷ m) =
      ground (arith, eq_iff k j, eq_iff i k, eq_iff i j, keys-insert k j v m)

  pub keys-remove :
      (k j : String) (m : Dict V) → has_key j (remove k m) ≡ (not (k == j) && has_key j m)
  keys-remove k j [] = ground arith
  keys-remove k j ((i, w) ∷ m) =
      ground (arith, eq_iff k j, eq_iff i k, eq_iff i j, keys-remove k j m)

  pub has_key-eq_of_lookup :
      (k : String) (v : V) (m : Dict V) → lookup k m ≡ some v → has_key k m ≡ true
  has_key-eq_of_lookup k v [] e = cc
  has_key-eq_of_lookup k v ((j, w) ∷ m) e = ground (arith, has_key-eq_of_lookup k v m)

  pub has_key-eq_of_missing : (k : String) (m : Dict V) → lookup k m ≡ none → has_key k m ≡ false
  has_key-eq_of_missing k [] e = refl
  has_key-eq_of_missing k ((j, w) ∷ m) e = ground (arith, has_key-eq_of_missing k m)

  -- Writing back what is there changes nothing.
  pub insert-lookup_self :
      (k : String) (v : V) (m : Dict V) → lookup k m ≡ some v → insert k v m ≡ m
  insert-lookup_self k v [] e = cc
  insert-lookup_self k v ((j, w) ∷ m) e = ground (arith, eq_iff j k, insert-lookup_self k v m)

  pub lookup-eq_of_absent : (k : String) (m : Dict V) → has_key k m ≡ false → lookup k m ≡ none
  lookup-eq_of_absent k [] e = refl
  lookup-eq_of_absent k ((j, w) ∷ m) e = ground (arith, lookup-eq_of_absent k m)

  pub IsNodup-insert :
      (k : String) (v : V) (m : Dict V) → IsNodup (keys m) → IsNodup (keys (insert k v m))
  IsNodup-insert k v [] h = (refl, tt)
  IsNodup-insert k v ((j, w) ∷ m) h = elim (Bool-cases (j == k)) [
    | inl same ↦ rw same (subst (λ x. contains (keys m) x ≡ false) (eq_of_== j k same) h.0, h.1)
    | inr other ↦
        rw other (ground (arith, keys-insert k j v m, ==_comm j k), IsNodup-insert k v m h.1)
  ]
