-- ===== src/Webhook/Tests.antt =====
-- A group with a component, and updates of it.
use integration_service.Base.{
  Bool, List, Option, String, [], false, is_none, none, refl, some, true, ◌&&◌, ◌∷◌, ◌≡◌,
}
use integration_service.Base.Text.{to_lower}
use integration_service.Dag.{TestGraph}
use integration_service.Gcl.{ComponentReference}
use integration_service.Snapshot.{is_group_kind}
use integration_service.Webhook.{DeepEqual, GroupSpec, after_updates, validate_create}
use integration_service.Webhook.Admissible.{IsAdmissible, IsDeepEqual, after_updates-IsAdmissible}

abbrev reference : String → String → String → ComponentReference
reference name kind version = record {
  name = name;
  kind = kind;
  component_version = record { name = version; revision = ""; context = "" };
}

abbrev spec : GroupSpec
spec = record { components = reference "api" "component" "main" ∷ []; test_graph = none }

abbrev after_smoke : TestGraph
after_smoke = ("deploy", record { name = "smoke"; fail_fast = false } ∷ []) ∷ []

abbrev cyclic : TestGraph
cyclic = ("smoke", record { name = "smoke"; fail_fast = false } ∷ []) ∷ []

-- The first two updates are refused: one has a cycle, the other nests the group in itself.
abbrev updates : List GroupSpec
updates =
    record spec { test_graph = some cyclic }
    ∷ record spec { components = reference "group" "ComponentGroup" "" ∷ [] }
    ∷ record spec { test_graph = some after_smoke }
    ∷ []

-- It tells two graphs or lists apart unless both are empty.
abbrev deep : DeepEqual
deep = record { graphs = λ g h. is_none g && is_none h; components = both_empty }
  where
    both_empty : List ComponentReference → List ComponentReference → Bool
    both_empty [] [] = true
    both_empty _ _ = false

deep-IsDeepEqual : IsDeepEqual deep
deep-IsDeepEqual = record { graphs-eq = graphs; components-eq = components }
  where
    graphs : (g h : Option TestGraph) → deep.graphs g h ≡ true → g ≡ h
    graphs none none e = refl
    graphs none (some h) e = cc
    graphs (some g) h e = cc

    components : (l m : List ComponentReference) → deep.components l m ≡ true → l ≡ m
    components [] [] e = refl
    components [] (c ∷ m) e = cc
    components (c ∷ l) m e = cc

after_updates-IsAdmissible_example : IsAdmissible "group" (after_updates deep "group" spec updates)
unfolding validate_create is_group_kind to_lower
after_updates-IsAdmissible_example =
    after_updates-IsAdmissible deep "group" spec updates deep-IsDeepEqual refl
