-- ===== src/Dag/Visits.antt =====
-- The invariant of the depth-first search.
use integration_service.Base.{
  Bool, IsNodup, IsSubset, List, String, [], arith, contains, contains-append, eq_iff, false, true,
  ◌==◌, ◌∷◌, ◌≡◌,
}
use integration_service.Dag.{
  Color, Graph, Outcome, Search, assign, black, clean, cycle, exhausted, gray, neighbors, paint,
  texts, white,
}
use integration_service.Dag.Walks.{IsCycle, IsTopo}
use integration_service.Dag.Trace.{IsChain}

abbrev pub is_gray : Color → Bool
is_gray gray = true
is_gray _ = false

abbrev pub is_black : Color → Bool
is_black black = true
is_black _ = false

-- The gray texts are the current path, each reached from the next one. The black ones are `done`,
-- the latest first, and all their neighbours are done before them.
pub record Inv (adj : Graph) (stack done : List String) (s : Search) : Type 0 where
  pub grays : (k : String) → is_gray (s.color k) ≡ contains stack k
  pub blacks : (k : String) → is_black (s.color k) ≡ contains done k
  pub topo : IsTopo adj done
  pub chain : IsChain adj s.parent stack
  pub distinct : IsNodup stack
  pub known : IsSubset stack (texts adj)

-- What a part of the search that has to finish `goals` comes to: a cycle, or all of them done.
abbrev pub Post : Graph → List String → List String → List String → Outcome → Type 0
Post adj stack done goals (cycle c) = IsCycle adj c
Post adj stack done goals (clean s) =
    (done' : List String) × Inv adj stack done' s × IsSubset done done' × IsSubset goals done'
Post adj stack done goals exhausted = ⊥

pub neighbors-known :
    (adj : Graph) (node k : String)
    → contains (neighbors adj node) k ≡ true
    → contains (texts adj) k ≡ true
neighbors-known [] node k h = cc
neighbors-known ((j, l) ∷ adj) node k h =
    ground (arith, contains-append l (texts adj) k, neighbors-known adj node k)

-- A set of parents that agree on the path is as good.
IsChain-assign :
    (adj : Graph) (k v : String) (parent : String → String) (l : List String)
    → contains l k ≡ false
    → IsChain adj parent l
    → IsChain adj (assign k v parent) l
IsChain-assign adj k v parent [] h c = tt
IsChain-assign adj k v parent (x ∷ []) h c = tt
IsChain-assign adj k v parent (x ∷ p ∷ rest) h c =
    let other : (k == x) ≡ false = ground (arith, eq_iff k x, eq_iff x k) in
    (rw other c.0, c.1, IsChain-assign adj k v parent (p ∷ rest) (ground arith) c.2)

module _ (adj : Graph) (stack done : List String) (node : String) (s : Search) where
  pub Inv-enter :
      Inv adj stack done s
      → s.color node ≡ white
      → contains (texts adj) node ≡ true
      → IsChain adj s.parent (node ∷ stack)
      → Inv adj (node ∷ stack) done (paint node gray s)
  Inv-enter i w k c = record {
    grays = λ x. ground (arith, i.grays x, eq_iff node x);
    blacks = λ x. ground (arith, i.blacks x, i.blacks node, eq_iff node x);
    topo = i.topo;
    chain = c;
    distinct = (ground (arith, i.grays node), i.distinct);
    known = λ x h. ground (arith, i.known x, eq_iff node x);
  }

  pub Inv-leave :
      Inv adj (node ∷ stack) done s
      → IsSubset (neighbors adj node) done
      → Inv adj stack (node ∷ done) (paint node black s)
  Inv-leave i n = record {
    grays = λ x. ground (arith, i.grays x, i.distinct.0, eq_iff node x);
    blacks = λ x. ground (arith, i.blacks x, eq_iff node x);
    topo = (ground (arith, i.grays node, i.blacks node, eq_iff node node), n, i.topo);
    chain = IsChain-tail stack i.chain;
    distinct = i.distinct.1;
    known = λ x h. i.known x (ground arith);
  }
    where
      IsChain-tail : (l : List String) → IsChain adj s.parent (node ∷ l) → IsChain adj s.parent l
      IsChain-tail [] c = tt
      IsChain-tail (p ∷ l) c = c.2

  pub Inv-parent :
      (next : String)
      → Inv adj (node ∷ stack) done s
      → s.color next ≡ white
      → Inv adj (node ∷ stack) done (record s { parent = assign next node s.parent })
  Inv-parent next i w = record {
    grays = i.grays;
    blacks = i.blacks;
    topo = i.topo;
    chain =
        IsChain-assign adj next node s.parent (node ∷ stack) (ground (arith, i.grays next)) i.chain;
    distinct = i.distinct;
    known = i.known;
  }
