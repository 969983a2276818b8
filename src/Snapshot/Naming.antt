-- ===== src/Snapshot/Naming.antt =====
-- The names of Snapshots, and their creation when a name is taken: GenerateSnapshotNameWithTimestamp
-- of gitops/snapshot.go and CreateSnapshotWithCollisionHandling.
use Prim.Native.String.{◌++◌ as text_append, len, slice}
use integration_service.Base.{
  List, Option, String, [], if◌then◌else◌, ltb, none, some, suc, zero, ℕ, ◌%◌, ◌+◌, ◌-◌, ◌==◌, ◌∷◌,
}
use integration_service.Base.Text.{show_nat}

abbrev pub max_prefix_length : ℕ
max_prefix_length = 43

abbrev pub max_prefix_length_with_suffix : ℕ
max_prefix_length_with_suffix = 40

-- %03d of a number below 1000
unfoldable pub three_digits : ℕ → String
three_digits n =
    let text = show_nat n in
    if ltb n 10 then text_append "00" text else if ltb n 100 then text_append "0" text else text

abbrev pub truncated : String → ℕ → String
truncated prefix limit = if ltb limit (len prefix) then slice prefix 0 limit else prefix

-- The date and time in UTC, by `format`, are time.Format with the layout 20060102-150405. A suffix that
-- is not given is the empty one.
unfoldable pub generate_snapshot_name_with_timestamp : (ℕ → String) → String → ℕ → String → String
unfolding three_digits
generate_snapshot_name_with_timestamp format prefix unix_milli suffix =
    let limit = if suffix == "" then max_prefix_length else max_prefix_length_with_suffix in
    let name = text_append (truncated prefix limit) (
      text_append "-"
        (text_append (format unix_milli) (text_append "-" (three_digits (unix_milli % 1000))))) in
    if suffix == "" then name else text_append name (text_append "-" suffix)

pub data CreateAnswer : Type 0 where
  created : CreateAnswer
  already_exists : CreateAnswer
  other_error : CreateAnswer

-- What the attempts meet, by their number: the answer of the API server, the random suffix, none where
-- the source of random numbers fails, and the time in milliseconds.
pub record World : Type 0 where
  pub answer : ℕ → String → CreateAnswer
  pub suffix : ℕ → Option String
  pub unix_milli : ℕ → ℕ
  pub format : ℕ → String

pub data Outcome : Type 0 where
  stored : String → Outcome
  collision : Outcome
  create_error : Outcome
  unreachable : Outcome

abbrev pub max_retries : ℕ
max_retries = 5

-- The names tried, in order, and the outcome.
abbrev pub also_tried : String → List String × Outcome → List String × Outcome
also_tried name (l, o) = (name ∷ l, o)

-- The loop with the attempts that are left, from an attempt on.
unfoldable pub create_attempts : World → String → ℕ → ℕ → String → List String × Outcome
unfolding generate_snapshot_name_with_timestamp
create_attempts world group zero attempt name = ([], unreachable)
create_attempts world group (suc left) attempt name =
    let next = λ (suffix : String). create_attempts world group left (attempt + 1) (
      generate_snapshot_name_with_timestamp world.format group (world.unix_milli attempt) suffix) in
    elim (world.answer attempt name) [
      | created ↦ (name ∷ [], stored name)
      | other_error ↦ (name ∷ [], create_error)
      | already_exists ↦
          if ltb attempt (max_retries - 1)
          then elim (world.suffix attempt) [
            | none ↦ (name ∷ [], collision)
            | some suffix ↦ also_tried name (next suffix)
          ]
          else (name ∷ [], collision)
    ]

unfoldable pub create_snapshot_with_collision_handling :
    World → String → String → List String × Outcome
unfolding create_attempts
create_snapshot_with_collision_handling world group name =
    create_attempts world group max_retries 0 name
