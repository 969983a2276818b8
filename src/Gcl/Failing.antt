-- ===== src/Gcl/Failing.antt =====
-- When an update with a build fails.
use integration_service.Base.{
  Bool, Bool-cases, List, Option, Option-cases, String, [], ap, false, if◌then◌else◌, inl, inr,
  is_none, none, not, refl, some, sym, true, ◌&&◌, ◌||◌, ◌∙◌, ◌∷◌, ◌≡◌,
}
use integration_service.Gcl.{
  ComponentState, Update, before, is_version, keep_first, not_found, patch, patch_failed, refused,
  replace_gcl_entry, same_state, send, update_gcl_entry,
}
use integration_service.Gcl.Latest.{entry_at}

-- The list with the new state in place of the first entry of its version.
abbrev pub with_entry : ComponentState → List ComponentState → List ComponentState
with_entry new [] = []
with_entry new (e ∷ l) =
    let rest = with_entry new l in if is_version new.name new.version e then new ∷ l else e ∷ rest

abbrev pub is_error : Update → Bool
is_error not_found = true
is_error refused = false
is_error (patch l) = false
is_error (patch_failed error) = true

-- An entry that is the same already, or of a later build.
abbrev pub is_stale : ComponentState → ComponentState → Bool
is_stale new e = same_state e new || before new.last_promoted_build_time e.last_promoted_build_time

abbrev replacement : ComponentState → List ComponentState → Option ComponentState → Update
replacement new l none = not_found
replacement new l (some e) = if is_stale new e then refused else patch (with_entry new l)

keep_first-replacement :
    (e new : ComponentState) (l : List ComponentState) (o : Option ComponentState)
    → is_version new.name new.version e ≡ false
    → keep_first e (replacement new l o) ≡ replacement new (e ∷ l) o
keep_first-replacement e new l none other = refl
keep_first-replacement e new l (some x) other = elim (Bool-cases (is_stale new x)) [
  | inl stale ↦ rw stale refl
  | inr fresh ↦ rw (fresh, other) refl
]

two_tests :
    (a b : Bool) (u : Update)
    → (if a then refused else (if b then refused else u)) ≡ (if a || b then refused else u)
two_tests true b u = refl
two_tests false b u = refl

if_true {ℓ} : {A : Type ℓ} (b : Bool) (x y : A) → b ≡ true → (if b then x else y) ≡ x
if_true true x y h = refl
if_true false x y h = cc

replace_gcl_entry_lem :
    (new : ComponentState) (l : List ComponentState)
    → replace_gcl_entry new l ≡ replacement new l (entry_at new.name new.version l)
unfolding replace_gcl_entry
replace_gcl_entry_lem new [] = refl
replace_gcl_entry_lem new (e ∷ l) = elim (Bool-cases (is_version new.name new.version e)) [
  | inl here ↦
      if_true (is_version new.name new.version e) _ _ here
      ∙ two_tests (same_state e new)
          (before new.last_promoted_build_time e.last_promoted_build_time) (patch (new ∷ l))
      ∙ sym (
          ap (replacement new (e ∷ l)) (if_true (is_version new.name new.version e) _ _ here)
          ∙ ap (λ p. if is_stale new e then refused else patch p)
              (if_true (is_version new.name new.version e) _ _ here))
  | inr other ↦
      rw (replace_gcl_entry, other, replace_gcl_entry_lem new l)
        (keep_first-replacement e new l (entry_at new.name new.version l) other)
]

is_error-send :
    (answer : List ComponentState → Option String) (new : ComponentState) (l : List ComponentState)
    (o : Option ComponentState)
    → is_error (send answer (replacement new l o)) ≡ elim o [
      | none ↦ true
      | some e ↦ not (is_stale new e) && not (is_none (answer (with_entry new l)))
    ]
is_error-send answer new l none = refl
is_error-send answer new l (some e) = elim (Bool-cases (is_stale new e)) [
  | inl stale ↦ rw stale refl
  | inr fresh ↦ elim (Option-cases (answer (with_entry new l))) [
    | inl accepted ↦ rw (fresh, accepted) refl
    | inr (error, failed) ↦ rw (fresh, failed) refl
  ]
]

-- The update fails exactly when the list has no entry of the version, or when the new state is to
-- replace the first such entry, which is neither the same already nor of a later build, and the API
-- server does not accept the list with the new state in its place.
pub update_gcl_entry-is_error :
    (answer : List ComponentState → Option String) (new : ComponentState) (l : List ComponentState)
    → is_error (update_gcl_entry answer new l) ≡ elim (entry_at new.name new.version l) [
      | none ↦ true
      | some e ↦ not (is_stale new e) && not (is_none (answer (with_entry new l)))
    ]
unfolding update_gcl_entry
update_gcl_entry-is_error answer new l =
    ap (λ u. is_error (send answer u)) (replace_gcl_entry_lem new l)
    ∙ is_error-send answer new l (entry_at new.name new.version l)
