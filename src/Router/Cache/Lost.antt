-- ===== src/Router/Cache/Lost.antt =====
-- The links that a topology loses by a change.
use zl_zpr_visaservice.Base.{
  String, String-HasEq, ◌==◌, ◌≡◌, refl, ap, ◌∙◌, Bool, false, List, [], ◌∷◌, none, if◌then◌else◌,
  lookup, lookup-remove, is_some, true, not, ◌&&◌, remove, contains, arith, Bool-cases,
  Option-cases, inl, inr, Result, ok, err, panic,
}
use zl_zpr_visaservice.IpAddr.{IpAddr, IpAddr-HasEq}
use zl_zpr_visaservice.Graph.{Graph, TopologyError, edges_of, has_node}
use zl_zpr_visaservice.Graph.Change
use zl_zpr_visaservice.Graph.Walks.{has_edge}
use zl_zpr_visaservice.Graph.Change.Edges.{remove_link_impl_edges}
use zl_zpr_visaservice.Graph.Change.Valid.{remove_links-IsValid, without_node-IsValid}
use zl_zpr_visaservice.Graph.Change.Best.{changes-Safe}
use zl_zpr_visaservice.Graph.Change.Current.{IsCurrent, Leaves, recompute-IsCurrent}
use zl_zpr_visaservice.Router.{RouteCacheKey-HasEq}
use zl_zpr_visaservice.Router.Batch.{remove_link_lem}
use zl_zpr_visaservice.Router.Cache.Kept.{KeptBut}

-- a current topology that has lost the links for which `gone` holds
abbrev pub Loses : (String → Bool) → Graph → Graph → Type 0
Loses gone g g' = IsCurrent g' × KeptBut gone g g'

Leaves-both :
    (P Q : Graph → Type 0) (r : Result TopologyError Graph)
    → Leaves P r
    → Leaves Q r
    → Leaves (λ g. P g × Q g) r
Leaves-both P Q (ok g) p q = (p, q)
Leaves-both P Q (err e) p q = tt
Leaves-both P Q panic p q = p

pub node_added :
    (g : Graph) (n : IpAddr) → IsCurrent g → Leaves (Loses (λ i. false) g) (Change.add_node g n)
unfolding Change.add_node
node_added g n current =
    Leaves-both IsCurrent (KeptBut (λ i. false) g) (Change.add_node g n)
      (changes-Safe g n n "" [] 0 current).0
      (elim (Bool-cases (has_node g n)) [
        | inl old ↦ rw (Change.add_node, old) tt
        | inr new ↦ rw (Change.add_node, new) (λ i. refl)
      ])

pub link_removed :
    (g : Graph) (id : String)
    → IsCurrent g
    → Leaves (Loses (λ i. id == i) g) (Change.remove_link g id)
link_removed g id current =
    let (g', made, after, edges, _) = remove_link_lem g id current in rw made (after, edges)

remove_links_edges :
    (ids : List String) (g : Graph) (i : String)
    → lookup i (Change.remove_links ids g).edges
      ≡ (if contains ids i then none else lookup i g.edges)
remove_links_edges [] g i = refl
remove_links_edges (id ∷ ids) g i =
    remove_links_edges ids (Change.remove_link_impl g id) i
    ∙ rw (remove_link_impl_edges g id i) (ground arith)

-- a node that is there leaves with its links
pub remove_node_lem :
    (g : Graph) (n : IpAddr)
    → IsCurrent g
    → has_node g n ≡ true
    → (g' : Graph) × (Change.remove_node g n ≡ ok g')
      × Loses (has_edge g n) g g'
      × ((q : IpAddr) → has_node g' q ≡ (has_node g q && not (n == q)))
unfolding Change.remove_node
remove_node_lem g n current there = elim (Option-cases (lookup n g.nodes)) [
  | inl absent ↦ absurd (cc (rw absent at there))
  | inr (node, found) ↦
      let g' = Change.remove_links node.edges g in
      let (after, sets, kept) = remove_links-IsValid node.edges g current.valid in
      let own : (i : String) → has_edge g n i ≡ contains node.edges i =
        λ i. ap (λ o. contains (edges_of o) i) found in
      let (t, made, current') =
        recompute-IsCurrent (record g' { nodes = remove n g'.nodes })
          (without_node-IsValid g' n after (λ i. sets n i ∙ ground (arith, own i))) in
      (
        record g' { nodes = remove n g'.nodes; best_routes = t },
        rw (Change.remove_node, found) made,
        (current', λ i. rw (own i) (remove_links_edges node.edges g i)),
        λ q. ap is_some (lookup-remove n q g'.nodes) ∙ elim (Bool-cases (n == q)) [
          | inl same ↦ rw same (ground arith)
          | inr other ↦ rw (other, kept q) (ground arith)
        ],
      )
]

pub node_removed :
    (g : Graph) (n : IpAddr)
    → IsCurrent g
    → Leaves (Loses (has_edge g n) g) (Change.remove_node g n)
unfolding Change.remove_node
node_removed g n current = elim (Bool-cases (has_node g n)) [
  | inl there ↦ let (g', made, after, _) = remove_node_lem g n current there in rw made after
  | inr missing ↦ elim (Option-cases (lookup n g.nodes)) [
    | inl absent ↦ rw (Change.remove_node, absent) (current, λ i. rw absent refl)
    | inr (node, found) ↦ absurd (cc (rw found at missing))
  ]
]
