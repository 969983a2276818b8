-- ===== src/Snapshot/Collisions.antt =====
-- What the creation of a Snapshot reports, attempt by attempt.
use integration_service.Base.{
  Bool, Bool-cases, List, Option-cases, String, [], arith, inl, inr, ltb, ltb→lt, none, refl, suc,
  true, zero, ℕ, ◌+◌, ◌<◌, ◌∷◌, ◌≡◌, ◌⊎◌,
}
use integration_service.Snapshot.Naming.{
  CreateAnswer, Outcome, World, already_exists, collision, create_attempts, create_error,
  create_snapshot_with_collision_handling, created, generate_snapshot_name_with_timestamp,
  other_error, stored,
}
use integration_service.Snapshot.Attempts.{
  answer_cases, attempt-eq_of_created, attempt-eq_of_last, attempt-eq_of_no_suffix,
  attempt-eq_of_other, attempt-eq_of_suffix,
}

-- What the last attempt comes to, by its answer.
abbrev pub Ends : World → ℕ → String → Outcome → CreateAnswer → Type 0
Ends world attempt name outcome created = outcome ≡ stored name
Ends world attempt name outcome other_error = outcome ≡ create_error
Ends world attempt name outcome already_exists =
    (outcome ≡ collision) × ((attempt ≡ 4) ⊎ (world.suffix attempt ≡ none))

-- All attempts but the last meet a name that is taken.
abbrev pub Reports : World → ℕ → List String → Outcome → Type 0
Reports world attempt [] outcome = Bool.false ≡ true
Reports world attempt (name ∷ []) outcome =
    Ends world attempt name outcome (world.answer attempt name)
Reports world attempt (name ∷ next ∷ tried) outcome =
    (world.answer attempt name ≡ already_exists)
    × Reports world (attempt + 1) (next ∷ tried) outcome

Reports-also_tried :
    (world : World) (attempt : ℕ) (name : String) (tried : List String) (outcome : Outcome)
    → world.answer attempt name ≡ already_exists
    → Reports world (attempt + 1) tried outcome
    → Reports world attempt (name ∷ tried) outcome
Reports-also_tried world attempt name [] outcome taken rest = cc
Reports-also_tried world attempt name (next ∷ tried) outcome taken rest = (taken, rest)

no_attempt :
    (world : World) (group : String) (attempt : ℕ) (name : String)
    → Bool.false ≡ true
    → Reports world attempt
        (create_attempts world group zero attempt name).0
        (create_attempts world group zero attempt name).1
unfolding create_attempts
no_attempt world group attempt name absurd = absurd

create_attempts-Reports :
    (world : World) (group : String) (left attempt : ℕ) (name : String)
    → left + attempt ≡ 5
    → attempt < 5
    → Reports world attempt
        (create_attempts world group left attempt name).0
        (create_attempts world group left attempt name).1
create_attempts-Reports world group zero attempt name all early =
    no_attempt world group attempt name (ground arith)
create_attempts-Reports world group (suc left) attempt name all early =
    elim (answer_cases (world.answer attempt name)) [
      | inl done ↦ rw (attempt-eq_of_created world group left attempt name done, done) refl
      | inr (inl other) ↦ rw (attempt-eq_of_other world group left attempt name other, other) refl
      | inr (inr taken) ↦ elim (Bool-cases (ltb attempt 4)) [
        | inr last ↦
            let fourth : attempt ≡ 4 = ground arith in
            rw (attempt-eq_of_last world group left attempt name taken last, taken)
              (refl, inl fourth)
        | inl more ↦ elim (Option-cases (world.suffix attempt)) [
          | inl absent ↦
              rw (attempt-eq_of_no_suffix world group left attempt name taken more absent, taken)
                (refl, inr absent)
          | inr (suffix, given) ↦
              let next =
                generate_snapshot_name_with_timestamp world.format group
                  (world.unix_milli attempt) in
              rw (attempt-eq_of_suffix world group left attempt name suffix taken more given) (
                Reports-also_tried world attempt name
                  (create_attempts world group left (attempt + 1) (next suffix)).0
                  (create_attempts world group left (attempt + 1) (next suffix)).1 taken
                  (create_attempts-Reports world group left (attempt + 1) (next suffix)
                    (omega arith) (omega (arith, ltb→lt attempt 4 more))))
        ]
      ]
    ]

-- There is at least one attempt, and all but the last meet a name that is taken. The outcome is what
-- the last one meets: the name that is stored, the error of the API server, or a collision, when it is
-- the fifth or no suffix can be made.
pub create_snapshot_with_collision_handling-Reports :
    (world : World) (group name : String)
    → Reports world 0
        (create_snapshot_with_collision_handling world group name).0
        (create_snapshot_with_collision_handling world group name).1
unfolding create_snapshot_with_collision_handling
create_snapshot_with_collision_handling-Reports world group name =
    create_attempts-Reports world group 5 0 name refl (omega arith)
