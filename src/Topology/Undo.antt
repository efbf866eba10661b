-- ===== src/Topology/Undo.antt =====
-- What the router's operations leave of a topology when a change is taken back.
use zl_zpr_visaservice.Base.{
  ℕ, suc, String, String-HasEq, ◌==◌, ◌≡◌, ◌≢◌, ◌⊎◌, refl, sym, ap, ◌∙◌, true, false, not, ◌&&◌,
  ◌||◌, List, [], Option, none, some, is_some, insert, remove, filter, keys, to_set, lookup,
  lookup-insert, contains, arith, Bool-cases, Option-cases, inl, inr, eq_of_beq, beq_refl, Result,
  ok, if◌then◌else◌,
}
use zl_zpr_visaservice.IpAddr.{IpAddr, IpAddr-HasEq}
use zl_zpr_visaservice.Attribute.{Attribute}
use zl_zpr_visaservice.Graph.{
  Graph, Link, TopologyError, link_exists, node_not_found, link_to_self, edges_of, has_node,
}
use zl_zpr_visaservice.Graph.Change
use zl_zpr_visaservice.Graph.Change.{no_links, remove_links}
use zl_zpr_visaservice.Graph.Walks.{has_edge}
use zl_zpr_visaservice.Graph.Change.Added.{WithLink, add_link_lem}
use zl_zpr_visaservice.Graph.Change.Best.{changes-Safe}
use zl_zpr_visaservice.Graph.Change.Current.{IsCurrent}
use zl_zpr_visaservice.Router
use zl_zpr_visaservice.Router.{
  RouterInner, RouteCacheKey, RouteCacheKey-HasEq, flushed, invalidate_keys, keys_of, keys_of_links,
  at_endpoint, with_topology,
}
use zl_zpr_visaservice.Router.Batch.{remove_link_lem}
use zl_zpr_visaservice.Router.Cache.Evict.{invalidate_keys-IsWithout}
use zl_zpr_visaservice.Router.Cache.Lost

-- the same nodes and links
pub record Unchanged (g g' : Graph) : Type 0 where
  pub current : IsCurrent g'
  pub edges : (i : String) → lookup i g'.edges ≡ lookup i g.edges
  pub nodes : (q : IpAddr) → has_node g' q ≡ has_node g q

-- one more node, and perhaps a link of it
pub record WithNode (g : Graph) (n : IpAddr) (g' : Graph) : Type 0 where
  pub current : IsCurrent g'
  pub edges :
      (i : String)
      → (lookup i g'.edges ≡ lookup i g.edges)
        ⊎ ((lookup i g.edges ≡ none) × (has_edge g' n i ≡ true))
  pub nodes : (q : IpAddr) → has_node g' q ≡ (n == q || has_node g q)

pub add_node_lem :
    (r : RouterInner) (n : IpAddr)
    → IsCurrent r.topology
    → has_node r.topology n ≡ false
    → (r' : RouterInner) × (Router.add_node r n ≡ ok r')
      × IsCurrent r'.topology
      × (r'.topology.edges ≡ r.topology.edges)
      × ((q : IpAddr) → has_node r'.topology q ≡ (n == q || has_node r.topology q))
unfolding Router.add_node Change.add_node
add_node_lem r n current new =
    let g : Graph = record r.topology { nodes = insert n no_links r.topology.nodes } in
    let made : Change.add_node r.topology n ≡ ok g = rw new refl in
    let after : IsCurrent g = rw made at (changes-Safe r.topology n n "" [] 0 current).0 in
    (
      record r { topology = g; topo_generation = suc r.topo_generation },
      rw made refl,
      after,
      refl,
      λ q. ap is_some (lookup-insert n q no_links r.topology.nodes) ∙ ground arith,
    )

pub remove_node_lem :
    (r : RouterInner) (n : IpAddr)
    → IsCurrent r.topology
    → has_node r.topology n ≡ true
    → (r' : RouterInner) × (Router.remove_node r n ≡ ok r')
      × IsCurrent r'.topology
      × ((i : String)
          → lookup i r'.topology.edges
            ≡ (if has_edge r.topology n i then none else lookup i r.topology.edges))
      × ((q : IpAddr) → has_node r'.topology q ≡ (has_node r.topology q && not (n == q)))
unfolding Router.remove_node
remove_node_lem r n current there =
    let ks = to_set (keys_of_links (edges_of (lookup n r.topology.nodes)) r.link_to_cache_keys) in
    let s1 = invalidate_keys ks r in
    let ks' = filter (at_endpoint n) (keys s1.route_cache) in
    let s2 = invalidate_keys ks' s1 in
    let same : s2.topology ≡ r.topology =
      (invalidate_keys-IsWithout ks' s1).topology ∙ (invalidate_keys-IsWithout ks r).topology in
    let (g, made, (after, edges), nodes) = Lost.remove_node_lem r.topology n current there in
    (
      record s2 { topology = g; topo_generation = suc s2.topo_generation },
      ap (λ x. with_topology s2 (Change.remove_node x n)) same ∙ rw made refl,
      after,
      edges,
      nodes,
    )

-- a node that is taken back leaves nothing
pub WithNode-undone :
    (r r' : RouterInner) (n : IpAddr)
    → IsCurrent r.topology
    → has_node r.topology n ≡ false
    → WithNode r.topology n r'.topology
    → (u : RouterInner) × (Router.remove_node r' n ≡ ok u) × Unchanged r.topology u.topology
WithNode-undone r r' n current new h =
    let (u, made, after, edges, nodes) =
      remove_node_lem r' n h.current (h.nodes n ∙ ground (arith, beq_refl n)) in
    (
      u,
      made,
      record {
        current = after;
        nodes = λ q. nodes q ∙ elim (Bool-cases (n == q)) [
          | inl same ↦
              rw (same, ap (has_node r.topology) (sym (eq_of_beq n q same)) ∙ new) (ground arith)
          | inr other ↦ rw (h.nodes q, other) (ground arith)
        ];
        edges = λ i. edges i ∙ elim (h.edges i) [
          | inr (free, own) ↦ rw own (sym free)
          | inl same ↦ elim (Bool-cases (has_edge r'.topology n i)) [
            | inr other ↦ rw other same
            | inl own ↦
                let (link, found, ends) = h.current.valid.named n i own in
                let was : lookup i r.topology.edges ≡ some link = sym same ∙ found in
                let at_n : has_edge r.topology n i ≡ true = elim ends [
                  | inl at_a ↦
                      ap (λ x. has_edge r.topology x i) (sym at_a) ∙ current.valid.at_a i link was
                  | inr at_b ↦
                      ap (λ x. has_edge r.topology x i) (sym at_b) ∙ current.valid.at_b i link was
                ] in
                elim (Option-cases (lookup n r.topology.nodes)) [
                  | inl absent ↦ absurd (cc (sym at_n ∙ ap (λ o. contains (edges_of o) i) absent))
                  | inr (node, known) ↦ absurd (cc (rw known at new))
                ]
          ]
        ];
      },
    )

-- a link that is taken back leaves nothing
pub WithLink-undone :
    (g : Graph) (r' : RouterInner) (id : String) (link : Link)
    → lookup id g.edges ≡ none
    → WithLink g id link r'.topology
    → (u : RouterInner) × (Router.remove_link r' id ≡ ok u) × Unchanged g u.topology
unfolding Router.remove_link
WithLink-undone g r' id link free (current, edges, nodes) =
    let s1 = invalidate_keys (keys_of (lookup id r'.link_to_cache_keys)) r' in
    let s2 = record s1 { link_to_cache_keys = remove id s1.link_to_cache_keys } in
    let same : s2.topology ≡ r'.topology =
      (invalidate_keys-IsWithout (keys_of (lookup id r'.link_to_cache_keys)) r').topology in
    let (g1, made, after, left, kept) = remove_link_lem r'.topology id current in
    (
      record s2 { topology = g1; topo_generation = suc s2.topo_generation },
      ap (λ x. with_topology s2 (Change.remove_link x id)) same ∙ rw made refl,
      record {
        current = after;
        nodes = λ q. kept q ∙ nodes q;
        edges = λ i. left i ∙ elim (Bool-cases (id == i)) [
          | inl here ↦ rw here (sym free ∙ ap (λ x. lookup x g.edges) (eq_of_beq id i here))
          | inr other ↦ rw (edges i, other) refl
        ];
      },
    )

-- how the addition of a link ends
pub data Added (r : RouterInner) (a b : IpAddr) (id : String) (attributes : List Attribute)
    (cost : ℕ) (out : Result TopologyError (RouterInner × Option TopologyError)) : Type 0 where
  taken :
      out ≡ ok (flushed r, some link_exists)
      → lookup id r.topology.edges ≢ none
      → Added r a b id attributes cost out
  refused :
      (e : TopologyError)
      → out ≡ ok (flushed r, some e)
      → (e ≡ link_to_self) ⊎ (e ≡ node_not_found)
      → Added r a b id attributes cost out
  linked :
      (r' : RouterInner)
      → out ≡ ok (r', none)
      → lookup id r.topology.edges ≡ none
      → WithLink r.topology id
          (record { a = a; b = b; attributes = attributes; cost = cost })
          r'.topology
      → Added r a b id attributes cost out

pub add_link-Added :
    (r : RouterInner) (a b : IpAddr) (id : String) (attributes : List Attribute) (cost : ℕ)
    → IsCurrent r.topology
    → Added r a b id attributes cost (Router.add_link r a b id attributes cost)
unfolding Router.add_link Change.add_link
add_link-Added r a b id attributes cost current = elim (Bool-cases (a == b)) [
  | inl loop ↦ refused link_to_self (rw (Router.add_link, Change.add_link, loop) refl) (inl refl)
  | inr apart ↦ elim (Bool-cases (has_node r.topology a)) [
    | inr no_a ↦
        refused node_not_found (rw (Router.add_link, Change.add_link, apart, no_a) refl) (inr refl)
    | inl at_a ↦ elim (Bool-cases (has_node r.topology b)) [
      | inr no_b ↦
          refused node_not_found (rw (Router.add_link, Change.add_link, apart, at_a, no_b) refl)
            (inr refl)
      | inl at_b ↦ elim (Option-cases (lookup id r.topology.edges)) [
        | inr (link, found) ↦
            taken (rw (Router.add_link, Change.add_link, apart, at_a, at_b, found) refl)
              (λ free. cc (sym found ∙ free))
        | inl free ↦
            let (g, made, left) =
              add_link_lem r.topology a b id attributes cost current apart at_a at_b free in
            linked (record (flushed r) { topology = g; topo_generation = suc r.topo_generation })
              (rw (Router.add_link, made) refl) free left
      ]
    ]
  ]
]
