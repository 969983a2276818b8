-- ===== src/Gcl/Aligned.antt =====
-- The list after it is aligned with spec.components, and after an override Snapshot.
use integration_service.Base.{
  Bool, Bool-cases, List, Option, Option-cases, String, [], ap, arith, if◌then◌else◌, inl, inr,
  is_none, map, none, not, refl, some, true, ◌&&◌, ◌==◌, ◌∙◌, ◌∷◌, ◌≡◌,
}
use integration_service.Base.Dict.{Dict, insert, lookup, lookup-insert}
use integration_service.Gcl.{
  ComponentGroup, ComponentReference, ComponentState, SnapshotComponent,
  align_gcl_with_spec_components, aligned_entry, blank_state, components_to_add, gcl_components,
  get_component_version_string, key_of, snapshot_component_to_component_state,
  update_gcl_for_override_snapshot, update_multiple_gcl_entries,
}

-- The last entry of the list with a key.
abbrev pub last_of : String → List ComponentState → Option ComponentState
last_of key [] = none
last_of key (e ∷ l) =
    let rest = last_of key l in
    elim rest [ some e' ↦ some e' | none ↦ if key_of e == key then some e else none ]

abbrev pub or_else : Option ComponentState → Option ComponentState → Option ComponentState
or_else (some a) b = some a
or_else none b = b

lookup-gcl_components :
    (key : String) (l : List ComponentState) (m : Dict ComponentState)
    → lookup key (gcl_components l m) ≡ or_else (last_of key l) (lookup key m)
unfolding gcl_components
lookup-gcl_components key [] m = refl
lookup-gcl_components key (e ∷ l) m =
    lookup-gcl_components key l (insert (key_of e) e m)
    ∙ rw (lookup-insert (key_of e) key e m) (ground (arith, Option-cases (last_of key l)))

abbrev pub key_in_spec : ComponentReference → String
key_in_spec c = get_component_version_string c.name c.component_version.name

abbrev pub aligned_with : List ComponentState → ComponentReference → ComponentState
aligned_with l c = elim (last_of (key_in_spec c) l) [
  | some e ↦ e
  | none ↦ blank_state c.name c.component_version.name
]

aligned_entry_lem :
    (l : List ComponentState) (c : ComponentReference)
    → aligned_entry (gcl_components l []) c ≡ aligned_with l c
unfolding aligned_entry
aligned_entry_lem l c =
    rw (aligned_entry, lookup-gcl_components (key_in_spec c) l [])
      (elim (Option-cases (last_of (key_in_spec c) l)) [
        | inl absent ↦ rw (absent, aligned_with) refl
        | inr (e, found) ↦ rw (found, aligned_with) refl
      ])

aligned_all :
    (l : List ComponentState) (components : List ComponentReference)
    → map (aligned_entry (gcl_components l [])) components ≡ map (aligned_with l) components
aligned_all l [] = refl
aligned_all l (c ∷ components) = rw (aligned_entry_lem l c, aligned_all l components) refl

-- After aligning, the list has one entry for each component of the spec, in its order: the last one
-- of the old list for this component version, or else a blank one.
pub align_gcl_with_spec_components_lem :
    (g : ComponentGroup)
    → align_gcl_with_spec_components g ≡ map (aligned_with g.global_candidate_list) g.components
unfolding align_gcl_with_spec_components
align_gcl_with_spec_components_lem g = aligned_all g.global_candidate_list g.components

-- The last component of a Snapshot with a key.
abbrev pub last_component : String → List SnapshotComponent → Option SnapshotComponent
last_component key [] = none
last_component key (c ∷ l) =
    let rest = last_component key l in
    elim rest [
      | some c' ↦ some c'
      | none ↦ if get_component_version_string c.name c.version == key then some c else none
    ]

abbrev pub have_sources : List SnapshotComponent → Bool
have_sources [] = true
have_sources (c ∷ l) = not (is_none c.git_source) && have_sources l

abbrev pub source_of : SnapshotComponent → String × String
source_of c = elim c.git_source [ some s ↦ s | none ↦ ("", "") ]

-- The image and source of the component, with the build time of the entry.
abbrev pub promoted : SnapshotComponent → ComponentState → ComponentState
promoted c e = record {
  name = c.name;
  version = c.version;
  url = (source_of c).0;
  last_promoted_image = c.container_image;
  last_promoted_commit = (source_of c).1;
  last_promoted_build_time = e.last_promoted_build_time;
}

abbrev pub overridden : List SnapshotComponent → ComponentState → ComponentState
overridden components e = elim (last_component (key_of e) components) [
  | some c ↦ promoted c e
  | none ↦ e
]

abbrev state_of : SnapshotComponent → ComponentState
state_of c = record (promoted c (blank_state "" "")) { last_promoted_build_time = none }

abbrev with_states : List SnapshotComponent → Dict ComponentState → Dict ComponentState
with_states [] m = m
with_states (c ∷ l) m =
    with_states l (insert (get_component_version_string c.name c.version) (state_of c) m)

components_to_add_lem :
    (l : List SnapshotComponent) (m : Dict ComponentState)
    → components_to_add l m ≡ (if have_sources l then some (with_states l m) else none)
unfolding components_to_add snapshot_component_to_component_state
components_to_add_lem [] m = refl
components_to_add_lem (c ∷ l) m = elim (Option-cases c.git_source) [
  | inl absent ↦ rw absent refl
  | inr (s, found) ↦ rw found (
      components_to_add_lem l (
        insert (get_component_version_string c.name c.version)
          (state_of (record c { git_source = some s })) m))
]

lookup-with_states :
    (key : String) (l : List SnapshotComponent) (m : Dict ComponentState)
    → lookup key (with_states l m)
      ≡ elim (last_component key l) [ some c ↦ some (state_of c) | none ↦ lookup key m ]
lookup-with_states key [] m = refl
lookup-with_states key (c ∷ l) m =
    lookup-with_states key l (insert (get_component_version_string c.name c.version) (state_of c) m)
    ∙ elim (Option-cases (last_component key l)) [
      | inr (c', found) ↦ rw found refl
      | inl absent ↦
          rw
            (
              absent,
              lookup-insert (get_component_version_string c.name c.version) key (state_of c) m,
            )
            (ground arith)
    ]

update_multiple_gcl_entries_lem :
    (components : List SnapshotComponent) (l : List ComponentState)
    → update_multiple_gcl_entries (with_states components []) l ≡ map (overridden components) l
unfolding update_multiple_gcl_entries
update_multiple_gcl_entries_lem components [] = refl
update_multiple_gcl_entries_lem components (e ∷ l) =
    rw (update_multiple_gcl_entries, lookup-with_states (key_of e) components [])
      (elim (Option-cases (last_component (key_of e) components)) [
        | inl absent ↦
            rw (absent, overridden) (ap (λ x. e ∷ x) (update_multiple_gcl_entries_lem components l))
        | inr (c, found) ↦
            rw (found, overridden)
              (ap (λ x. promoted c e ∷ x) (update_multiple_gcl_entries_lem components l))
      ])

-- The function panics exactly when a component of the Snapshot has no git source. Otherwise every
-- entry that has components of its version in the Snapshot takes over the last of them and keeps its
-- build time, and the other entries stay.
pub update_gcl_for_override_snapshot_lem :
    (components : List SnapshotComponent) (l : List ComponentState)
    → update_gcl_for_override_snapshot components l
      ≡ (if have_sources components then some (map (overridden components) l) else none)
unfolding update_gcl_for_override_snapshot
update_gcl_for_override_snapshot_lem components l = elim (Bool-cases (have_sources components)) [
  | inl all ↦
      rw
        (
          update_gcl_for_override_snapshot,
          components_to_add_lem components [],
          all,
          update_multiple_gcl_entries_lem components l,
        )
        refl
  | inr missing ↦
      rw (update_gcl_for_override_snapshot, components_to_add_lem components [], missing) refl
]
