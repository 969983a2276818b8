-- ===== src/Webhook/Admissible.antt =====
-- Only admissible specs are ever stored.
use mathlib.Core.Option
use integration_service.Base.{
  Bool, List, Option, String, [], false, if◌then◌else◌, is_none, none, not, refl, some, subst, true,
  ◌==◌, ◌∷◌, ◌≡◌,
}
use integration_service.Dag.{TestGraph, validate_test_graph}
use integration_service.Dag.Validation.{HasNoCycle, has_declared_parent, validate_test_graph_iff}
use integration_service.Gcl.{ComponentReference}
use integration_service.Snapshot.{is_group_kind}
use integration_service.Webhook.{
  AdmissionError, DeepEqual, GroupSpec, after_updates, contains_itself, graph_error,
  is_zero_version, missing_version, or_then, test_graph_error, validate_create,
  validate_spec_components, validate_update, version_of_group,
}

-- A reference to a group has no version and is not to the group itself; another one has a version.
abbrev pub IsFit : String → ComponentReference → Type 0
IsFit group c =
    if is_group_kind c.kind
    then (is_zero_version c.component_version ≡ true) × ((c.name == group) ≡ false)
    else (is_zero_version c.component_version ≡ false)

abbrev pub AllFitIn : String → List ComponentReference → Type 0
AllFitIn group [] = Unit
AllFitIn group (c ∷ l) = IsFit group c × AllFitIn group l

abbrev pub IsAcyclic : Option TestGraph → Type 0
IsAcyclic none = Unit
IsAcyclic (some graph) = HasNoCycle (has_declared_parent graph)

abbrev pub IsAdmissible : String → GroupSpec → Type 0
IsAdmissible group spec = IsAcyclic spec.test_graph × AllFitIn group spec.components

fit_step :
    (kind zero self : Bool) (rest : Option AdmissionError)
    → (if kind
        then if not zero then some version_of_group else if self then some contains_itself else rest
        else if zero
        then some missing_version
        else rest)
      ≡ none
    → (if kind then (zero ≡ true) × (self ≡ false) else (zero ≡ false)) × (rest ≡ none)
fit_step true true true rest h = cc
fit_step true true false rest h = ((refl, refl), h)
fit_step true false self rest h = cc
fit_step false true self rest h = cc
fit_step false false self rest h = (refl, h)

validate_spec_components-AllFitIn :
    (group : String) (l : List ComponentReference)
    → validate_spec_components l group ≡ none
    → AllFitIn group l
unfolding validate_spec_components
validate_spec_components-AllFitIn group [] h = tt
validate_spec_components-AllFitIn group (c ∷ l) h =
    let passed =
      fit_step (is_group_kind c.kind) (is_zero_version c.component_version) (c.name == group)
        (validate_spec_components l group) h in
    (passed.0, validate_spec_components-AllFitIn group l passed.1)

or_then-none : (a b : Option AdmissionError) → or_then a b ≡ none → (a ≡ none) × (b ≡ none)
or_then-none none b h = (refl, h)
or_then-none (some e) b h = cc

map-none : (o : Option String) → Option.map test_graph_error o ≡ none → o ≡ none
map-none none h = refl
map-none (some e) h = cc

graph_error-IsAcyclic : (g : Option TestGraph) → graph_error g ≡ none → IsAcyclic g
graph_error-IsAcyclic none h = tt
graph_error-IsAcyclic (some graph) h =
    (validate_test_graph_iff graph []).0 (map-none (validate_test_graph graph []) h)

validate_create-IsAdmissible :
    (group : String) (spec : GroupSpec)
    → validate_create group spec ≡ none
    → IsAdmissible group spec
unfolding validate_create
validate_create-IsAdmissible group spec h =
    let both =
      or_then-none (if is_none spec.test_graph then none else graph_error spec.test_graph)
        (validate_spec_components spec.components group) h in
    (created spec.test_graph both.0, validate_spec_components-AllFitIn group spec.components both.1)
  where
    created :
        (g : Option TestGraph) → (if is_none g then none else graph_error g) ≡ none → IsAcyclic g
    created none e = tt
    created (some graph) e = graph_error-IsAcyclic (some graph) e

-- reflect.DeepEqual is true only of values that are the same.
pub record IsDeepEqual (deep : DeepEqual) : Type 0 where
  pub graphs-eq : (g h : Option TestGraph) → deep.graphs g h ≡ true → g ≡ h
  pub components-eq : (l m : List ComponentReference) → deep.components l m ≡ true → l ≡ m

validate_update-IsAdmissible :
    (deep : DeepEqual) (group : String) (old new : GroupSpec)
    → IsDeepEqual deep
    → IsAdmissible group old
    → validate_update deep group old new ≡ none
    → IsAdmissible group new
unfolding validate_update
validate_update-IsAdmissible deep group old new laws h accepted = (
  graph (deep.graphs old.test_graph new.test_graph) refl both.0,
  components (deep.components old.components new.components) refl both.1,
)
  where
    both :
        ((if not (deep.graphs old.test_graph new.test_graph)
            then graph_error new.test_graph
            else none)
          ≡ none)
        × ((if not (deep.components old.components new.components)
              then validate_spec_components new.components group
              else none)
            ≡ none)
    both =
        or_then-none
          (if not (deep.graphs old.test_graph new.test_graph)
            then graph_error new.test_graph
            else none)
          (if not (deep.components old.components new.components)
            then validate_spec_components new.components group
            else none)
          accepted

    graph :
        (b : Bool)
        → deep.graphs old.test_graph new.test_graph ≡ b
        → (if not b then graph_error new.test_graph else none) ≡ none
        → IsAcyclic new.test_graph
    graph true same e = subst IsAcyclic (laws.graphs-eq old.test_graph new.test_graph same) h.0
    graph false other e = graph_error-IsAcyclic new.test_graph e

    components :
        (b : Bool)
        → deep.components old.components new.components ≡ b
        → (if not b then validate_spec_components new.components group else none) ≡ none
        → AllFitIn group new.components
    components true same e =
        subst (AllFitIn group) (laws.components-eq old.components new.components same) h.1
    components false other e = validate_spec_components-AllFitIn group new.components e

after_updates-keeps :
    (deep : DeepEqual) (group : String) (spec : GroupSpec) (updates : List GroupSpec)
    → IsDeepEqual deep
    → IsAdmissible group spec
    → IsAdmissible group (after_updates deep group spec updates)
unfolding after_updates
after_updates-keeps deep group spec [] laws h = h
after_updates-keeps deep group spec (new ∷ updates) laws h =
    after_updates-keeps deep group
      (if is_none (validate_update deep group spec new) then new else spec) updates laws
      (kept (validate_update deep group spec new) refl)
  where
    kept :
        (o : Option AdmissionError)
        → validate_update deep group spec new ≡ o
        → IsAdmissible group (if is_none o then new else spec)
    kept none accepted = validate_update-IsAdmissible deep group spec new laws h accepted
    kept (some e) not_accepted = h

-- A component group that is admitted, after any updates, each admitted or refused, has a test graph
-- without cycles, if it has one, and references that fit: one to a group has no component version and
-- is not to the group itself, and any other has a component version.
pub after_updates-IsAdmissible :
    (deep : DeepEqual) (group : String) (spec : GroupSpec) (updates : List GroupSpec)
    → IsDeepEqual deep
    → validate_create group spec ≡ none
    → IsAdmissible group (after_updates deep group spec updates)
after_updates-IsAdmissible deep group spec updates laws created =
    after_updates-keeps deep group spec updates laws
      (validate_create-IsAdmissible group spec created)
