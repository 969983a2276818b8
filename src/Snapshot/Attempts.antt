-- ===== src/Snapshot/Attempts.antt =====
-- One attempt to create a Snapshot, case by case.
use integration_service.Base.{
  String, [], false, inl, inr, ltb, none, refl, some, suc, true, ℕ, ◌+◌, ◌∷◌, ◌≡◌, ◌⊎◌,
}
use integration_service.Snapshot.Naming.{
  CreateAnswer, World, already_exists, also_tried, collision, create_attempts, create_error,
  created, generate_snapshot_name_with_timestamp, other_error, stored,
}

pub answer_cases : (a : CreateAnswer) → (a ≡ created) ⊎ ((a ≡ other_error) ⊎ (a ≡ already_exists))
answer_cases created = inl refl
answer_cases other_error = inr (inl refl)
answer_cases already_exists = inr (inr refl)

module _ (world : World) (group : String) (left attempt : ℕ) (name : String) where
  pub attempt-eq_of_created :
      world.answer attempt name ≡ created
      → create_attempts world group (suc left) attempt name ≡ (name ∷ [], stored name)
  unfolding create_attempts
  attempt-eq_of_created done = rw (create_attempts, done) refl

  pub attempt-eq_of_other :
      world.answer attempt name ≡ other_error
      → create_attempts world group (suc left) attempt name ≡ (name ∷ [], create_error)
  unfolding create_attempts
  attempt-eq_of_other other = rw (create_attempts, other) refl

  pub attempt-eq_of_last :
      world.answer attempt name ≡ already_exists
      → ltb attempt 4 ≡ false
      → create_attempts world group (suc left) attempt name ≡ (name ∷ [], collision)
  unfolding create_attempts
  attempt-eq_of_last taken last = rw (create_attempts, taken, last) refl

  pub attempt-eq_of_no_suffix :
      world.answer attempt name ≡ already_exists
      → ltb attempt 4 ≡ true
      → world.suffix attempt ≡ none
      → create_attempts world group (suc left) attempt name ≡ (name ∷ [], collision)
  unfolding create_attempts
  attempt-eq_of_no_suffix taken more absent = rw (create_attempts, taken, more, absent) refl

  pub attempt-eq_of_suffix :
      (suffix : String)
      → world.answer attempt name ≡ already_exists
      → ltb attempt 4 ≡ true
      → world.suffix attempt ≡ some suffix
      → create_attempts world group (suc left) attempt name
        ≡ also_tried name (
            create_attempts world group left (attempt + 1) (
              generate_snapshot_name_with_timestamp world.format group
                (world.unix_milli attempt)
                suffix))
  unfolding create_attempts
  attempt-eq_of_suffix suffix taken more given = rw (create_attempts, taken, more, given) refl
