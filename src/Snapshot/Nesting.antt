-- ===== src/Snapshot/Nesting.antt =====
-- The walk over the nested component groups.
use integration_service.Base.{
  Bool, Bool-cases, List, Option-cases, String, [], ap, arith, contains, false, inl, inr, is_none,
  length, length-append, ltb, none, refl, some, subst, suc, sym, true, zero, ℕ, ◌++◌, ◌+◌, ◌<◌, ◌∷◌,
  ◌≡◌, ◌≤◌, ◌⊎◌,
}
use integration_service.Gcl.{ComponentGroup}
use integration_service.Snapshot.{
  Gathered, Nested, NestingError, Services, collect, copied, cycle_found, failed, gathered,
  get_all_nested_snapshot_components, get_nested_component_groups_for_component_group,
  get_snapshot_components_from_gcl, max_depth, not_loaded, nothing, out_of_fuel, then_with,
  too_deep, with_own,
}

abbrev pub IsIn : ComponentGroup → List ComponentGroup → Type 0
IsIn h [] = Bool.false ≡ true
IsIn h (g ∷ l) = (h ≡ g) ⊎ IsIn h l

append_one : (l : List String) (x : String) (m : List String) → ((l ++ x ∷ []) ++ m) ≡ (l ++ x ∷ m)
append_one [] x m = refl
append_one (y ∷ l) x m = ap (λ z. y ∷ z) (append_one l x m)

append_none : (l : List String) → (l ++ []) ≡ l
append_none [] = refl
append_none (y ∷ l) = ap (λ z. y ∷ z) (append_none l)

module _ (services : Services) where
  -- A chain of nested groups from one down to another, with the names that are passed before the last.
  abbrev pub Chain : ComponentGroup → List String → ComponentGroup → Type 0
  Chain g [] h = g ≡ h
  Chain g (name ∷ names) h =
      (name ≡ g.name)
      × ((groups : List ComponentGroup) × (get_nested_component_groups_for_component_group services
              g
            ≡ some groups)
          × ((i : ComponentGroup) × IsIn i groups × Chain i names h))

  -- The last group of a chain stops the walk, with this error.
  abbrev pub Stops : NestingError → List String → ComponentGroup → Type 0
  Stops (cycle_found names) passed h =
      (contains passed h.name ≡ true) × (names ≡ (passed ++ h.name ∷ []))
  Stops too_deep passed h = max_depth < length passed
  Stops not_loaded passed h = get_nested_component_groups_for_component_group services h ≡ none
  Stops out_of_fuel passed h = Bool.false ≡ true

  abbrev pub IsPassable : List String → ComponentGroup → Type 0
  IsPassable passed h =
      (contains passed h.name ≡ false)
      × (length passed ≤ max_depth)
      × (is_none (get_nested_component_groups_for_component_group services h) ≡ false)

  abbrev pub Explains : ComponentGroup → List String → Nested → Type 0
  Explains g used (failed e) =
      (passed : List String) × (h : ComponentGroup) × Chain g passed h × Stops e (used ++ passed) h
  Explains g used (gathered r) =
      (passed : List String) (h : ComponentGroup) → Chain g passed h → IsPassable (used ++ passed) h

  ExplainsAll : List ComponentGroup → List String → Nested → Type 0
  ExplainsAll groups used (failed e) =
      (i : ComponentGroup) × IsIn i groups × Explains i used (failed e)
  ExplainsAll groups used (gathered r) =
      (i : ComponentGroup) → IsIn i groups → Explains i used (gathered r)

  ExplainsAll-then_with :
      (g : ComponentGroup) (groups : List ComponentGroup) (used : List String) (v : Nested)
      (next : Gathered → Nested)
      → Explains g used v
      → ((r : Gathered) → ExplainsAll groups used (next r))
      → ExplainsAll (g ∷ groups) used (then_with v next)
  unfolding ExplainsAll
  ExplainsAll-then_with g groups used (failed e) next first later = (g, inl refl, first)
  ExplainsAll-then_with g groups used (gathered r) next first later = go (next r) (later r)
    where
      go : (n : Nested) → ExplainsAll groups used n → ExplainsAll (g ∷ groups) used n
      go (failed e) h = (h.0, inr h.1, h.2)
      go (gathered r') h =
          λ i. λ within. elim within [ inl same ↦ rw same first | inr later ↦ h i later ]

  collect-ExplainsAll :
      (visit : ComponentGroup → Nested) (groups : List ComponentGroup) (used : List String)
      (acc : Gathered)
      → ((i : ComponentGroup) → Explains i used (visit i))
      → ExplainsAll groups used (collect visit groups acc)
  unfolding ExplainsAll
  collect-ExplainsAll visit [] used acc each = λ i. λ h. cc
  collect-ExplainsAll visit (g ∷ groups) used acc each =
      ExplainsAll-then_with g groups used (visit g) (λ r. collect visit groups (copied acc r))
        (each g) (λ r. collect-ExplainsAll visit groups used (copied acc r) each)

  -- What a group adds to what is known of the groups that it nests.
  with_own-Explains :
      (g : ComponentGroup) (groups : List ComponentGroup) (used : List String) (n : Nested)
      → get_nested_component_groups_for_component_group services g ≡ some groups
      → contains used g.name ≡ false
      → length used ≤ max_depth
      → ExplainsAll groups (used ++ g.name ∷ []) n
      → Explains g used (with_own (get_snapshot_components_from_gcl services g) n)
  unfolding ExplainsAll
  with_own-Explains g groups used (failed e) loaded new shallow h = (
    g.name ∷ h.2.0,
    h.2.1,
    (refl, (groups, loaded, (h.0, h.1, h.2.2))),
    subst (λ l. Stops e l h.2.1) (append_one used g.name h.2.0) h.2.3,
  )
  with_own-Explains g groups used (gathered r) loaded new shallow h = go
    where
      go :
          (passed : List String) (i : ComponentGroup)
          → Chain g passed i
          → IsPassable (used ++ passed) i
      go [] i same =
          subst (λ l. IsPassable l i) (sym (append_none used))
            (subst (λ k. IsPassable used k) same (new, shallow, rw loaded refl))
      go (name ∷ passed) i chain =
          let next = chain.1.2 in
          let groups_same : chain.1.0 ≡ groups = cc in
          let within : IsIn next.0 groups = subst (λ l. IsIn next.0 l) groups_same next.1 in
          let rest = h next.0 within passed i next.2 in
          rw chain.0 (subst (λ l. IsPassable l i) (append_one used g.name passed) rest)

  get_all-Explains :
      (fuel : ℕ) (g : ComponentGroup) (used : List String) (depth : ℕ)
      → depth ≡ length used
      → max_depth + 1 < fuel + depth
      → depth ≤ max_depth + 1
      → Explains g used (get_all_nested_snapshot_components services fuel g used depth)
  unfolding get_all_nested_snapshot_components
  get_all-Explains zero g used depth same enough shallow = ([], g, refl, ground arith)
  get_all-Explains (suc fuel) g used depth same enough shallow =
      elim (Bool-cases (contains used g.name)) [
        | inl seen ↦ rw seen ([], g, refl, (rw (append_none used) seen, rw (append_none used) refl))
        | inr new ↦ elim (Bool-cases (ltb max_depth depth)) [
          | inl deep ↦ rw (new, deep) ([], g, refl, rw (append_none used) (ground arith))
          | inr high ↦
              elim (Option-cases (get_nested_component_groups_for_component_group services g)) [
                | inl absent ↦ rw (new, high, absent) ([], g, refl, absent)
                | inr (groups, loaded) ↦
                    let low : depth ≤ max_depth = ground arith in
                    let fits : length used ≤ max_depth = omega arith in
                    let each = λ (i : ComponentGroup).
                      get_all-Explains fuel i (used ++ g.name ∷ []) (depth + 1)
                        (omega (arith, length-append used (g.name ∷ []))) (omega arith)
                        (omega arith) in
                    rw (new, high, loaded)
                      (with_own-Explains g groups used
                        (collect
                          (λ i.
                            get_all_nested_snapshot_components services fuel i (used ++ g.name ∷ [])
                              (depth + 1))
                          groups nothing)
                        loaded new fits
                        (collect-ExplainsAll
                          (λ i.
                            get_all_nested_snapshot_components services fuel i (used ++ g.name ∷ [])
                              (depth + 1))
                          groups (used ++ g.name ∷ []) nothing each))
              ]
        ]
      ]

  -- The walk from a group ends within its fuel. If it fails, there is a chain of nested groups whose
  -- last one gives that error: its name is passed before, it lies deeper than 15, or a group that it
  -- nests cannot be read. If it succeeds, no chain has such a last group.
  pub get_all_nested_snapshot_components-Explains :
      (g : ComponentGroup)
      → Explains g [] (get_all_nested_snapshot_components services (max_depth + 2) g [] 0)
  get_all_nested_snapshot_components-Explains g =
      get_all-Explains (max_depth + 2) g [] 0 refl (omega arith) (omega arith)
