-- ===== src/NudgeBatch/Entries.antt =====
-- The entries of a batch, and the lists of them: one entry for each source component.
use integration_service.Base.{
  Bool-cases, IsNodup, List, Option, String, [], arith, contains, eq_iff, if◌then◌else◌, inl, inr,
  none, not, refl, some, ℕ, ◌&&◌, ◌==◌, ◌||◌, ◌∷◌, ◌≡◌,
}

pub record AccumulatedEntry : Type 0 where
  pub from : String
  pub image_digest : String
  pub build_pipeline_run : String
  pub built_image_repository : String
  pub built_image_tag : String
  pub nudge_file_matches : String
  pub git_repo_at_sha_link : String
  pub build_pipeline_run_uid : String
  pub build_service_account_name : String
  pub captured_at : ℕ

pub record FailedEntry : Type 0 where
  pub from : String
  pub build_pipeline_run : String
  pub reason : String
  pub captured_at : ℕ

abbrev pub from_of : AccumulatedEntry → String
from_of e = e.from

abbrev pub failed_from_of : FailedEntry → String
failed_from_of e = e.from

module _ {ℓ} {A : Type ℓ} (key : A → String) where
  -- Replaces the first entry with the same key, or appends.
  abbrev pub upsert : A → List A → List A
  upsert entry [] = entry ∷ []
  upsert entry (e ∷ l) =
      let rest = upsert entry l in if key e == key entry then entry ∷ l else e ∷ rest

  -- The entries with another key.
  abbrev pub without : String → List A → List A
  without from [] = []
  without from (e ∷ l) = let rest = without from l in if key e == from then rest else e ∷ rest

  abbrev pub froms : List A → List String
  froms [] = []
  froms (e ∷ l) = key e ∷ froms l

  pub froms-upsert :
      (entry : A) (l : List A) (k : String)
      → contains (froms (upsert entry l)) k ≡ (key entry == k || contains (froms l) k)
  froms-upsert entry [] k = refl
  froms-upsert entry (e ∷ l) k = ground (
    arith,
    froms-upsert entry l k,
    eq_iff (key e) (key entry),
    eq_iff (key e) k,
    eq_iff (key entry) k,
  )

  pub froms-without :
      (from : String) (l : List A) (k : String)
      → contains (froms (without from l)) k ≡ (not (from == k) && contains (froms l) k)
  froms-without from [] k = ground arith
  froms-without from (e ∷ l) k =
      ground (arith, froms-without from l k, eq_iff (key e) from, eq_iff (key e) k, eq_iff from k)

  pub upsert-IsNodup :
      (entry : A) (l : List A) → IsNodup (froms l) → IsNodup (froms (upsert entry l))
  upsert-IsNodup entry [] n = (refl, tt)
  upsert-IsNodup entry (e ∷ l) n = elim (Bool-cases (key e == key entry)) [
    | inl same ↦ rw same (ground (arith, eq_iff (key e) (key entry)), n.1)
    | inr other ↦ rw other (
      ground (
        arith,
        froms-upsert entry l (key e),
        eq_iff (key e) (key entry),
        eq_iff (key entry) (key e),
      ),
      upsert-IsNodup entry l n.1,
    )
  ]

  pub without-IsNodup :
      (from : String) (l : List A) → IsNodup (froms l) → IsNodup (froms (without from l))
  without-IsNodup from [] n = tt
  without-IsNodup from (e ∷ l) n = elim (Bool-cases (key e == from)) [
    | inl same ↦ rw same (without-IsNodup from l n.1)
    | inr other ↦
        rw other (ground (arith, froms-without from l (key e)), without-IsNodup from l n.1)
  ]

  -- The first entry with a key.
  abbrev pub entry_of : String → List A → Option A
  entry_of from [] = none
  entry_of from (e ∷ l) = if key e == from then some e else entry_of from l

  pub entry_of-upsert :
      (entry : A) (l : List A) (k : String)
      → entry_of k (upsert entry l) ≡ (if key entry == k then some entry else entry_of k l)
  entry_of-upsert entry [] k = refl
  entry_of-upsert entry (e ∷ l) k = ground (
    arith,
    entry_of-upsert entry l k,
    eq_iff (key e) (key entry),
    eq_iff (key e) k,
    eq_iff (key entry) k,
  )
