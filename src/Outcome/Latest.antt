-- ===== src/Outcome/Latest.antt =====
-- Which test output of a task counts when its TaskRuns are sorted.
use integration_service.Base.{
  Bool, Bool-cases, List, Option, Option-cases, String, [], arith, eq_of_==, false, if◌then◌else◌,
  inl, inr, is_none, ltb, none, not, refl, some, ◌&&◌, ◌==◌, ◌∷◌, ◌≡◌,
}
use integration_service.Base.Sort.{
  Every, Every-IsIn, Every-at, Every-map, Every-of_sorted, IsIn, IsOrdered, IsWeakOrder, Keeps,
}
use integration_service.Outcome.{
  IntegrationTestTaskResult, Libraries, TaskRun, get_start_time, get_test_result, less,
}

-- The last test output of a task among its TaskRuns in the order of the list.
abbrev pub last_output : Libraries → String → List TaskRun → Option IntegrationTestTaskResult
last_output libs task [] = none
last_output libs task (t ∷ l) =
    let rest = last_output libs task l in
    elim rest [
      | some r ↦ some r
      | none ↦ if t.pipeline_task_name == task then get_test_result libs t else none
    ]

pub less-IsWeakOrder : IsWeakOrder less
unfolding less get_start_time
less-IsWeakOrder = record {
  asym = λ s t h. ground arith;
  not_less_trans = λ s t u h k. ground arith;
}

-- Whether a TaskRun starts before another; one without a start time does so at the zero time.
abbrev pub starts_before : TaskRun → TaskRun → Bool
starts_before s t =
    ltb (elim s.start_time [ none ↦ 0 | some time ↦ time ])
      (elim t.start_time [ none ↦ 0 | some time ↦ time ])

starts_before_irrefl : (t : TaskRun) → starts_before t t ≡ false
starts_before_irrefl t = ground arith

-- A TaskRun of the task that has a test output.
abbrev pub has_output : Libraries → String → TaskRun → Bool
has_output libs task t = t.pipeline_task_name == task && not (is_none (get_test_result libs t))

-- The test output of the task that counts: that of a TaskRun of the task with a test output than which
-- no other such TaskRun starts later, or none if there is no such TaskRun.
abbrev pub IsLatestOutput :
    Libraries → String → List TaskRun → Option IntegrationTestTaskResult → Type 0
IsLatestOutput libs task runs none = Every (λ t. has_output libs task t ≡ false) runs
IsLatestOutput libs task runs (some x) =
    (r : TaskRun) × IsIn r runs
    × (r.pipeline_task_name ≡ task)
    × (get_test_result libs r ≡ some x)
    × Every (λ t. (has_output libs task t && starts_before r t) ≡ false) runs

IsLatestOutput-cons :
    (libs : Libraries) (task : String) (t : TaskRun) (l : List TaskRun)
    (rest : Option IntegrationTestTaskResult)
    → Every (λ y. starts_before y t ≡ false) l
    → IsLatestOutput libs task l rest
    → IsLatestOutput libs task (t ∷ l) (elim rest [
      | some r ↦ some r
      | none ↦ if t.pipeline_task_name == task then get_test_result libs t else none
    ])
IsLatestOutput-cons libs task t l (some x) first h =
    let here : starts_before h.0 t ≡ false =
      Every-at (λ y. starts_before y t ≡ false) h.0 l first h.1 in
    (h.0, inr h.1, h.2, h.3, (ground (arith, here), h.4))
IsLatestOutput-cons libs task t l none first h = elim (Bool-cases (t.pipeline_task_name == task)) [
  | inr other ↦ rw other (rw other refl, h)
  | inl same ↦ elim (Option-cases (get_test_result libs t)) [
    | inl absent ↦ rw (same, absent) (rw (same, absent) refl, h)
    | inr (x, given) ↦
        rw (same, given)
          (
            t,
            inl refl,
            eq_of_== t.pipeline_task_name task same,
            given,
            (
              ground (arith, starts_before_irrefl t),
              Every-map (λ y. has_output libs task y ≡ false)
                  (λ y. (has_output libs task y && starts_before t y) ≡ false) l (λ y k. rw k refl)
                  h,
            ),
          )
  ]
]

pub last_output-IsLatestOutput :
    (libs : Libraries) (task : String) (l : List TaskRun)
    → IsOrdered starts_before l
    → IsLatestOutput libs task l (last_output libs task l)
last_output-IsLatestOutput libs task [] h = tt
last_output-IsLatestOutput libs task (t ∷ l) h =
    IsLatestOutput-cons libs task t l (last_output libs task l) h.0
      (last_output-IsLatestOutput libs task l h.1)

-- What counts among the sorted TaskRuns counts among them as they came.
pub IsLatestOutput-unsorted :
    (libs : Libraries) (task : String) (runs : List TaskRun) (x : Option IntegrationTestTaskResult)
    → Keeps libs.sort
    → IsLatestOutput libs task (libs.sort less runs) x
    → IsLatestOutput libs task runs x
IsLatestOutput-unsorted libs task runs none keeps h =
    Every-of_sorted libs.sort less (has_output libs task) runs keeps h
IsLatestOutput-unsorted libs task runs (some x) keeps h = (
  h.0,
  Every-at (λ t. IsIn t runs) h.0 (libs.sort less runs)
      (keeps.keeps_every less (λ t. IsIn t runs) runs (Every-IsIn runs)) h.1,
  h.2,
  h.3,
  Every-of_sorted libs.sort less (λ t. has_output libs task t && starts_before h.0 t) runs keeps
      h.4,
)
