-- ===== src/Graph/AllPaths/Explore.antt =====
-- The same search as a recursion on the number of nodes that are still to be visited.
use mathlib.Core.List.{reverse}
use zl_zpr_visaservice.Base.{
  ℕ, zero, suc, ◌+◌, ◌≤◌, ◌<◌, String, String-HasEq, ◌==◌, ◌≡◌, refl, sym, ap, ◌∙◌, true, false,
  not, List, [], ◌∷◌, ◌++◌, Option, none, some, if◌then◌else◌, Map, lookup, contains, length,
  is_some, arith, Bool-cases, inl, inr, eq_of_beq, beq_refl, some_inj, filter,
}
use zl_zpr_visaservice.IpAddr.{IpAddr, IpAddr-HasEq}
use zl_zpr_visaservice.Graph.{Node, Link, Graph, far_end, edges_of}
use zl_zpr_visaservice.Graph.Dijkstra.{saturated}
use zl_zpr_visaservice.Graph.AllPaths.{max_links}

abbrev pub Paths : Type 0
Paths = List (List String × ℕ)

-- the search from a node, given the nodes visited, the path so far, last link first, and its cost
abbrev pub Deeper : Type 0
Deeper = IpAddr → List IpAddr → List String → ℕ → Paths

abbrev pub enter : Deeper → IpAddr → List IpAddr → List String → ℕ → Option Node → Paths
enter deeper n visited path cost none = []
enter deeper n visited path cost (some node) = deeper n (n ∷ visited) path cost

abbrev pub branch_to :
    Deeper → Graph → IpAddr → IpAddr → List IpAddr → List String → ℕ → String → Option Link → Paths
branch_to deeper g end cur visited path cost id none = []
branch_to deeper g end cur visited path cost id (some link) =
    if contains visited (far_end link cur)
    then []
    else if far_end link cur == end
    then (reverse (id ∷ path), saturated (cost + link.cost)) ∷ []
    else enter deeper (far_end link cur) visited (id ∷ path) (saturated (cost + link.cost))
        (lookup (far_end link cur) g.nodes)

abbrev pub branch :
    Deeper → Graph → IpAddr → IpAddr → List IpAddr → List String → ℕ → String → Paths
branch deeper g end cur visited path cost id =
    branch_to deeper g end cur visited path cost id (lookup id g.edges)

abbrev pub gather : (String → Paths) → List String → Paths
gather f [] = []
gather f (id ∷ ids) = f id ++ gather f ids

unfoldable pub explore : ℕ → Graph → IpAddr → Deeper
explore zero g end cur visited path cost = []
explore (suc k) g end cur visited path cost =
    gather (branch (explore k g end) g end cur visited path cost) (edges_of (lookup cur g.nodes))

-- the nodes that have not been visited
abbrev pub ahead : List IpAddr → Map IpAddr Node → ℕ
ahead visited [] = 0
ahead visited ((n, x) ∷ ns) = (if contains visited n then 0 else 1) + ahead visited ns

pub ahead-le-length : (visited : List IpAddr) (ns : Map IpAddr Node) → ahead visited ns ≤ length ns
ahead-le-length visited [] = omega arith
ahead-le-length visited ((n, x) ∷ ns) = ground (arith, ahead-le-length visited ns)

ahead-cons-le :
    (k : IpAddr) (visited : List IpAddr) (ns : Map IpAddr Node)
    → ahead (k ∷ visited) ns ≤ ahead visited ns
ahead-cons-le k visited [] = omega arith
ahead-cons-le k visited ((n, x) ∷ ns) = ground (arith, ahead-cons-le k visited ns)

-- a node that is entered is ahead no more
pub ahead-cons-lt :
    (k : IpAddr) (visited : List IpAddr) (ns : Map IpAddr Node)
    → is_some (lookup k ns) ≡ true
    → contains visited k ≡ false
    → ahead (k ∷ visited) ns < ahead visited ns
unfolding lookup
ahead-cons-lt k visited [] node new = absurd (cc node)
ahead-cons-lt k visited ((n, x) ∷ ns) node new = elim (Bool-cases (n == k)) [
  | inl same ↦ rw (eq_of_beq n k same, beq_refl k, new) (omega (arith, ahead-cons-le k visited ns))
  | inr other ↦
      let rest = ahead-cons-lt k visited ns (rw other at node) new in
      let unlike : (k == n) ≡ false = elim (Bool-cases (k == n)) [
        | inl same ↦ absurd (cc (sym other ∙ ap (λ y. n == y) (eq_of_beq k n same) ∙ beq_refl n))
        | inr apart ↦ apart
      ] in
      rw unlike (omega (arith, rest))
]

-- the set of a node has no more links than the largest
pub length-le-max_links :
    (n : IpAddr) (node : Node) (ns : Map IpAddr Node)
    → lookup n ns ≡ some node
    → length node.edges ≤ max_links ns
unfolding lookup
length-le-max_links n node [] h = absurd (cc h)
length-le-max_links n node ((j, x) ∷ ns) h = elim (Bool-cases (j == n)) [
  | inl same ↦
      let is_node : x ≡ node = some_inj (rw same at h) in
      let as_long : length x.edges ≡ length node.edges = ap (λ y. length y.edges) is_node in
      ground (arith, as_long)
  | inr other ↦ ground (arith, length-le-max_links n node ns (rw other at h))
]

-- a node that is entered and left is visited no more
pub filter_absent :
    (n : IpAddr) (visited : List IpAddr)
    → contains visited n ≡ false
    → filter (λ m. not (m == n)) visited ≡ visited
filter_absent n [] h = refl
filter_absent n (x ∷ visited) h = elim (Bool-cases (x == n)) [
  | inl same ↦ absurd (cc (rw same at h))
  | inr other ↦ rw other (ap (λ xs. x ∷ xs) (filter_absent n visited (rw other at h)))
]
