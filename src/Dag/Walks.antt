-- ===== src/Dag/Walks.antt =====
-- What it means for a graph to have a cycle, apart from any search.
use integration_service.Base.{
  Bool-cases, IsSubset, List, String, [], arith, contains, eq_of_==, false, inl, inr, subst, sym,
  true, ◌++◌, ◌==◌, ◌∷◌, ◌≡◌,
}
use integration_service.Dag.{Graph, neighbors}

-- A walk of one edge or more.
pub data Walk (adj : Graph) : String → String → Type 0 where
  edge : {x y : String} → contains (neighbors adj x) y ≡ true → Walk adj x y
  step : {x y z : String} → contains (neighbors adj x) y ≡ true → Walk adj y z → Walk adj x z

abbrev pub IsAcyclic : Graph → Type 0
IsAcyclic adj = (x : String) → ¬ Walk adj x x

-- Each text is a neighbour of the one before it.
abbrev pub IsPath : Graph → List String → Type 0
IsPath adj [] = Unit
IsPath adj (x ∷ []) = Unit
IsPath adj (x ∷ y ∷ l) = (contains (neighbors adj x) y ≡ true) × IsPath adj (y ∷ l)

-- A path that comes back to its first text.
pub record IsCycle (adj : Graph) (c : List String) : Type 0 where
  pub start : String
  pub middle : List String
  pub closed : c ≡ start ∷ (middle ++ start ∷ [])
  pub path : IsPath adj c

IsPath-Walk :
    (adj : Graph) (x z : String) (l : List String) → IsPath adj (x ∷ (l ++ z ∷ [])) → Walk adj x z
IsPath-Walk adj x z [] p = edge p.0
IsPath-Walk adj x z (y ∷ l) p = step p.0 (IsPath-Walk adj y z l p.1)

pub IsCycle-Walk : (adj : Graph) (c : List String) → IsCycle adj c → (x : String) × Walk adj x x
IsCycle-Walk adj c k =
    (k.start, IsPath-Walk adj k.start k.start k.middle (subst (IsPath adj) k.closed k.path))

-- All neighbours of each text stand behind it, and it stands there once.
abbrev pub IsTopo : Graph → List String → Type 0
IsTopo adj [] = Unit
IsTopo adj (x ∷ rest) =
    (contains rest x ≡ false) × IsSubset (neighbors adj x) rest × IsTopo adj rest

IsTopo-neighbors :
    (adj : Graph) (l : List String) (x y : String)
    → IsTopo adj l
    → contains l x ≡ true
    → contains (neighbors adj x) y ≡ true
    → contains l y ≡ true
IsTopo-neighbors adj [] x y t h n = cc
IsTopo-neighbors adj (z ∷ l) x y t h n = elim (Bool-cases (z == x)) [
  | inl same ↦
      let e = eq_of_== z x same in
      let behind = t.1 y (subst (λ w. contains (neighbors adj w) y ≡ true) (sym e) n) in
      ground arith
  | inr other ↦
      let there : contains l x ≡ true = ground arith in
      ground (arith, IsTopo-neighbors adj l x y t.2 there n)
]

IsTopo-Walk :
    {adj : Graph} {x y : String} (l : List String)
    → IsTopo adj l
    → contains l x ≡ true
    → Walk adj x y
    → contains l y ≡ true
IsTopo-Walk {adj} {x} {y} l t h (edge n) = IsTopo-neighbors adj l x y t h n
IsTopo-Walk {adj} {x} l t h (step {y = m} n w) =
    IsTopo-Walk l t (IsTopo-neighbors adj l x m t h n) w

IsTopo-Walk_head :
    {adj : Graph} {x y : String} (l : List String)
    → IsTopo adj (x ∷ l)
    → Walk adj x y
    → contains l y ≡ true
IsTopo-Walk_head {y = y} l t (edge n) = t.1 y n
IsTopo-Walk_head l t (step {y = m} n w) = IsTopo-Walk l t.2 (t.1 m n) w

pub IsTopo-no_cycle :
    {adj : Graph} {x : String} (l : List String)
    → IsTopo adj l
    → contains l x ≡ true
    → ¬ Walk adj x x
IsTopo-no_cycle [] t h w = cc
IsTopo-no_cycle {adj} {x} (z ∷ l) t h w = elim (Bool-cases (z == x)) [
  | inl same ↦
      let e = eq_of_== z x same in
      let w' : Walk adj z z = subst (λ u. Walk adj u u) (sym e) w in
      cc (IsTopo-Walk_head l t w', t.0)
  | inr other ↦ let there : contains l x ≡ true = ground arith in IsTopo-no_cycle l t.2 there w
]
