-- ===== src/Webhook.antt =====
-- internal/webhook/v1beta2/componentgroup_webhook.go: the admission of component groups.
--
-- An update never changes the name of a group. The objects are component groups, so the tests of their Go
-- type succeed.
pub mod Admissible
mod Tests
use mathlib.Core.Option
use integration_service.Base.{
  Bool, List, Option, String, [], if◌then◌else◌, is_none, none, not, some, ◌&&◌, ◌==◌, ◌∷◌,
}
use integration_service.Dag.{TestGraph, validate_test_graph}
use integration_service.Gcl.{ComponentReference, ComponentVersionReference}
use integration_service.Snapshot.{is_group_kind}

pub record GroupSpec : Type 0 where
  pub components : List ComponentReference
  pub test_graph : Option TestGraph

-- reflect.DeepEqual at the two fields.
pub record DeepEqual : Type 0 where
  pub graphs : Option TestGraph → Option TestGraph → Bool
  pub components : List ComponentReference → List ComponentReference → Bool

pub data AdmissionError : Type 0 where
  test_graph_error : String → AdmissionError
  version_of_group : AdmissionError
  contains_itself : AdmissionError
  missing_version : AdmissionError

-- Whether a component version is the zero value of its type.
abbrev pub is_zero_version : ComponentVersionReference → Bool
is_zero_version v = v.name == "" && v.revision == "" && v.context == ""

unfoldable pub validate_spec_components : List ComponentReference → String → Option AdmissionError
validate_spec_components [] group = none
validate_spec_components (c ∷ components) group =
    let rest = validate_spec_components components group in
    if is_group_kind c.kind
    then if not (is_zero_version c.component_version)
      then some version_of_group
      else if c.name == group
      then some contains_itself
      else rest
    else if is_zero_version c.component_version
    then some missing_version
    else rest

-- dag.ValidateTestGraph, where a nil graph has no entries
abbrev pub graph_error : Option TestGraph → Option AdmissionError
graph_error none = Option.map test_graph_error (validate_test_graph [] [])
graph_error (some graph) = Option.map test_graph_error (validate_test_graph graph [])

abbrev pub or_then : Option AdmissionError → Option AdmissionError → Option AdmissionError
or_then (some e) next = some e
or_then none next = next

unfoldable pub validate_create : String → GroupSpec → Option AdmissionError
unfolding validate_spec_components
validate_create group spec =
    or_then (if is_none spec.test_graph then none else graph_error spec.test_graph)
      (validate_spec_components spec.components group)

unfoldable pub validate_update : DeepEqual → String → GroupSpec → GroupSpec → Option AdmissionError
unfolding validate_spec_components
validate_update deep group old new =
    or_then
      (if not (deep.graphs old.test_graph new.test_graph) then graph_error new.test_graph else none)
      (if not (deep.components old.components new.components)
        then validate_spec_components new.components group
        else none)

-- The spec that is stored after some updates: one that is refused changes nothing.
unfoldable pub after_updates : DeepEqual → String → GroupSpec → List GroupSpec → GroupSpec
unfolding validate_update
after_updates deep group spec [] = spec
after_updates deep group spec (new ∷ updates) =
    after_updates deep group (if is_none (validate_update deep group spec new) then new else spec)
      updates
