-- ===== src/Dag/Scan.antt =====
-- Each part of the search finishes what it has to finish, or comes to a cycle.
use integration_service.Base.{
  Bool-cases, IsNodup-length-le, IsSubset, List, String, [], ap, arith, contains, eq_iff, eq_of_==,
  inl, inr, length, refl, subst, suc, sym, true, zero, ℕ, ◌+◌, ◌==◌, ◌∙◌, ◌∷◌, ◌≡◌, ◌≤◌, ◌⊎◌,
}
use integration_service.Dag.{
  Color, Graph, Outcome, Search, and_then, assign, black, clean, cycle, dfs_visit, exhausted, gray,
  neighbors, paint, scan, search_from, sort_strings, texts, trace_cycle, white,
}
use integration_service.Dag.Sorting.{contains-sort_strings}
use integration_service.Dag.Trace.{FindsCycle, IsChain, trace_cycle-FindsCycle}
use integration_service.Dag.Visits.{
  Inv, Inv-enter, Inv-leave, Inv-parent, Post, is_gray, neighbors-known,
}

Color-cases : (c : Color) → (c ≡ gray) ⊎ ((c ≡ white) ⊎ (c ≡ black))
Color-cases gray = inl refl
Color-cases white = inr (inl refl)
Color-cases black = inr (inr refl)

-- With `next` done already, a search that finishes the other goals finishes it too.
Post-cons :
    (adj : Graph) (stack done done' goals : List String) (next : String) (o : Outcome)
    → IsSubset done done'
    → contains done' next ≡ true
    → Post adj stack done' goals o
    → Post adj stack done (next ∷ goals) o
Post-cons adj stack done done' goals next (cycle c) sub h p = p
Post-cons adj stack done done' goals next exhausted sub h p = p
Post-cons adj stack done done' goals next (clean s) sub h (last, i, grown, reached) = (
  last,
  i,
  (λ k m. grown k (sub k m)),
  (λ k m. elim (Bool-cases (next == k)) [
    | inl same ↦ grown k (subst (λ j. contains done' j ≡ true) (eq_of_== next k same) h)
    | inr other ↦ reached k (ground arith)
  ]),
)

FindsCycle-Post :
    (adj : Graph) (stack done goals : List String) (o : Outcome)
    → FindsCycle adj o
    → Post adj stack done goals o
FindsCycle-Post adj stack done goals (cycle c) h = h
FindsCycle-Post adj stack done goals (clean s) h = elim h [ ]
FindsCycle-Post adj stack done goals exhausted h = h

module _ (adj : Graph) (bound : ℕ) (roomy : length (texts adj) ≤ bound) where
  -- A visit does its work where the fuel and the path add up to one more than there are texts.
  abbrev Visits : ℕ → (String → Search → Outcome) → Type 0
  Visits f visit =
      (stack done : List String) (node : String) (s : Search)
      → f + length stack ≡ suc (length (texts adj))
      → Inv adj stack done s
      → s.color node ≡ white
      → contains (texts adj) node ≡ true
      → IsChain adj s.parent (node ∷ stack)
      → Post adj stack done (node ∷ []) (visit node s)

  module _ (f : ℕ) (visit : String → Search → Outcome) (visits : Visits f visit) (node : String)
      (stack : List String) (fuel : f + length (node ∷ stack) ≡ suc (length (texts adj))) where
    -- What comes after the visit of a white neighbour.
    after_visit :
        (done : List String) (next : String) (goals : List String) (o : Outcome)
        (rest : Search → Outcome)
        → Post adj (node ∷ stack) done (next ∷ []) o
        → ((done' : List String) (s : Search)
            → Inv adj (node ∷ stack) done' s
            → Post adj (node ∷ stack) done' goals (rest s))
        → Post adj (node ∷ stack) done (next ∷ goals) (and_then o rest)
    after_visit done next goals (cycle c) rest p go = p
    after_visit done next goals exhausted rest p go = p
    after_visit done next goals (clean s) rest (done', i, sub, reached) go =
        Post-cons adj (node ∷ stack) done done' goals next (rest s) sub
          (reached next (ground (arith, eq_iff next next))) (go done' s i)

    scan-Post :
        (rest done : List String) (s : Search)
        → Inv adj (node ∷ stack) done s
        → IsSubset rest (neighbors adj node)
        → Post adj (node ∷ stack) done rest (scan visit bound node rest s)
    unfolding scan
    scan-Post [] done s i sub = (done, i, (λ k h. h), (λ k h. cc))
    scan-Post (next ∷ rest) done s i sub =
        let near : contains (neighbors adj node) next ≡ true =
          sub next (ground (arith, eq_iff next next)) in
        let sub' : IsSubset rest (neighbors adj node) = λ k h. sub k (ground arith) in
        elim (Color-cases (s.color next)) [
          | inl g ↦
              rw (g, scan)
                (FindsCycle-Post adj (node ∷ stack) done (next ∷ rest)
                  (trace_cycle bound node next s.parent)
                  (trace_cycle-FindsCycle adj bound node next s.parent stack i.chain
                    (ground (arith, i.grays next))
                    (omega (
                      arith,
                      roomy,
                      IsNodup-length-le (node ∷ stack) (texts adj) i.distinct i.known,
                    ))
                    near))
          | inr (inl w) ↦
              rw (w, scan)
                (after_visit done next rest
                  (visit next (record s { parent = assign next node s.parent }))
                  (λ s'. scan visit bound node rest s')
                  (let s₁ : Search = record s { parent = assign next node s.parent } in
                    let i₁ = Inv-parent adj stack done node s next i w in
                    visits (node ∷ stack) done next s₁ fuel i₁ w
                      (neighbors-known adj node next near)
                      (ground (arith, eq_iff next next), near, i₁.chain))
                  (λ done' s' i'. scan-Post rest done' s' i' sub'))
          | inr (inr b) ↦
              rw (b, scan)
                (Post-cons adj (node ∷ stack) done done rest next (scan visit bound node rest s)
                  (λ k h. h) (ground (arith, i.blacks next)) (scan-Post rest done s i sub'))
        ]

    finish :
        (done : List String) (o : Outcome)
        → Post adj (node ∷ stack) done (sort_strings (neighbors adj node)) o
        → Post adj stack done (node ∷ []) (and_then o (λ s'. clean (paint node black s')))
    finish done (cycle c) p = p
    finish done exhausted p = p
    finish done (clean s) (done', i, sub, reached) = (
      node ∷ done',
      Inv-leave adj stack done' node s i
          (λ k h. reached k (contains-sort_strings (neighbors adj node) k ∙ h)),
      (λ k h. ground (arith, sub k)),
      (λ k h. ground arith),
    )

  dfs_visit-Visits : (f : ℕ) → Visits f (dfs_visit adj bound f)
  unfolding dfs_visit
  dfs_visit-Visits zero stack done node s fuel i w k c =
      absurd (omega (arith, fuel, IsNodup-length-le stack (texts adj) i.distinct i.known))
  dfs_visit-Visits (suc f) stack done node s fuel i w k c =
      let fuel' : f + length (node ∷ stack) ≡ suc (length (texts adj)) = omega arith in
      finish f (dfs_visit adj bound f) (dfs_visit-Visits f) node stack fuel' done
        (scan (dfs_visit adj bound f) bound node (sort_strings (neighbors adj node))
          (paint node gray s))
        (scan-Post f (dfs_visit adj bound f) (dfs_visit-Visits f) node stack fuel'
          (sort_strings (neighbors adj node)) done (paint node gray s)
          (Inv-enter adj stack done node s i w k c)
          (λ x h. sym (contains-sort_strings (neighbors adj node) x) ∙ h))

  after_root :
      (done : List String) (node : String) (rest : List String) (o : Outcome)
      (go : Search → Outcome)
      → Post adj [] done (node ∷ []) o
      → ((done' : List String) (s : Search) → Inv adj [] done' s → Post adj [] done' rest (go s))
      → Post adj [] done (node ∷ rest) (and_then o go)
  after_root done node rest (cycle c) go p h = p
  after_root done node rest exhausted go p h = p
  after_root done node rest (clean s) go (done', i, sub, reached) h =
      Post-cons adj [] done done' rest node (go s) sub
        (reached node (ground (arith, eq_iff node node))) (h done' s i)

  pub search_from-Post :
      (nodes done : List String) (s : Search)
      → bound ≡ suc (length (texts adj))
      → Inv adj [] done s
      → IsSubset nodes (texts adj)
      → Post adj [] done nodes (search_from adj bound nodes s)
  unfolding search_from
  search_from-Post [] done s e i sub = (done, i, (λ k h. h), (λ k h. cc))
  search_from-Post (node ∷ rest) done s e i sub =
      let sub' : IsSubset rest (texts adj) = λ k h. sub k (ground arith) in
      elim (Color-cases (s.color node)) [
        | inl g ↦ cc (i.grays node, ap is_gray g)
        | inr (inl w) ↦
            rw (w, search_from)
              (after_root done node rest (dfs_visit adj bound bound node s)
                (λ s'. search_from adj bound rest s')
                (dfs_visit-Visits bound [] done node s (omega arith) i w
                  (sub node (ground (arith, eq_iff node node))) tt)
                (λ done' s' i'. search_from-Post rest done' s' e i' sub'))
        | inr (inr b) ↦
            rw (b, search_from)
              (Post-cons adj [] done done rest node (search_from adj bound rest s) (λ k h. h)
                (ground (arith, i.blacks node)) (search_from-Post rest done s e i sub'))
      ]
