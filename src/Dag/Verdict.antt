-- ===== src/Dag/Verdict.antt =====
-- The search finds a cycle exactly when there is one, and its fuel is enough.
use integration_service.Base.{
  Bool-cases, IsSubset, String, [], arith, contains, contains-append, inl, inr, length, refl, suc,
  sym, true, ◌∙◌, ◌∷◌, ◌≡◌,
}
use integration_service.Base.Dict.{has_key, keys, lookup-eq_of_absent}
use integration_service.Dag.{
  Graph, Outcome, clean, cycle, exhausted, find_cycle, fresh_search, neighbors, sort_strings, texts,
}
use integration_service.Dag.Sorting.{contains-sort_strings}
use integration_service.Dag.Walks.{IsAcyclic, IsCycle, IsTopo-no_cycle, Walk, edge, step}
use integration_service.Dag.Visits.{Inv, Post}
use integration_service.Dag.Scan.{search_from-Post}

keys-known : (adj : Graph) → IsSubset (keys adj) (texts adj)
keys-known [] k h = h
keys-known ((j, l) ∷ adj) k h = ground (arith, contains-append l (texts adj) k, keys-known adj k)

Inv-start : (adj : Graph) → Inv adj [] [] fresh_search
Inv-start adj = record {
  grays = λ k. refl;
  blacks = λ k. refl;
  topo = tt;
  chain = tt;
  distinct = tt;
  known = λ k h. cc;
}

-- The result of the search against the graph: a cycle that it names is one, a search that comes to
-- its end means that there is none, and the fuel does not run out.
abbrev pub Verdict : Graph → Outcome → Type 0
Verdict adj (cycle c) = IsCycle adj c
Verdict adj (clean s) = IsAcyclic adj
Verdict adj exhausted = ⊥

has_neighbor :
    (adj : Graph) (x y : String)
    → contains (neighbors adj x) y ≡ true
    → contains (keys adj) x ≡ true
has_neighbor adj x y h = elim (Bool-cases (has_key x adj)) [
  | inl there ↦ there
  | inr absent ↦ cc (rw (lookup-eq_of_absent x adj absent, neighbors) at h)
]

Walk-key : {adj : Graph} {x y : String} → Walk adj x y → contains (keys adj) x ≡ true
Walk-key {adj} {x} {y} (edge n) = has_neighbor adj x y n
Walk-key {adj} {x} (step {y = m} n w) = has_neighbor adj x m n

Post-Verdict :
    (adj : Graph) (o : Outcome) → Post adj [] [] (sort_strings (keys adj)) o → Verdict adj o
Post-Verdict adj (cycle c) p = p
Post-Verdict adj exhausted p = p
Post-Verdict adj (clean s) (done, i, sub, reached) = λ x w.
    IsTopo-no_cycle done i.topo (reached x (contains-sort_strings (keys adj) x ∙ Walk-key w)) w

-- For every graph the search comes to a result: either a path that is a cycle of the graph, or the
-- end of the search, and then the graph has no cycle. It never runs out of fuel.
pub find_cycle-Verdict : (adj : Graph) → Verdict adj (find_cycle adj)
unfolding find_cycle
find_cycle-Verdict adj = Post-Verdict adj (find_cycle adj) (
    search_from-Post adj (suc (length (texts adj))) (omega arith) (sort_strings (keys adj)) []
      fresh_search refl (Inv-start adj)
      (λ k h. keys-known adj k (sym (contains-sort_strings (keys adj) k) ∙ h)))
