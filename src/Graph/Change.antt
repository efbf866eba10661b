-- ===== src/Graph/Change.antt =====
-- vs/src/router.rs, Graph: the operations that change the graph. `unwrap` of a node that is not there
-- would panic.
pub mod Current
pub mod Edges
pub mod Valid
pub mod Best
pub mod Added
use zl_zpr_visaservice.Base.{
  ℕ, String, String-HasEq, ◌==◌, Bool, true, false, not, ◌&&◌, List, [], ◌∷◌, Option, none, some,
  if◌then◌else◌, is_some, Map, lookup, insert, remove, filter, set_insert, Result, ok, err, panic,
  ◌>>=◌,
}
use zl_zpr_visaservice.IpAddr.{IpAddr, IpAddr-HasEq}
use zl_zpr_visaservice.Attribute.{Attribute}
use zl_zpr_visaservice.Graph.{
  Node, Link, Graph, TopologyError, node_exists, link_exists, link_to_self, node_not_found,
  link_not_found, Pair-HasEq, has_node, link_id_between,
}
use zl_zpr_visaservice.Graph.Dijkstra.{recompute}

abbrev pub no_links : Node
no_links = record { edges = [] }

unfoldable pub add_node : Graph → IpAddr → Result TopologyError Graph
unfolding insert
add_node g n =
    if has_node g n then err node_exists else ok (record g { nodes = insert n no_links g.nodes })

abbrev pub with_edge : String → Node → Node
with_edge id n = record { edges = set_insert id n.edges }

abbrev pub without_edge : String → Node → Node
without_edge id n = record { edges = filter (λ i. not (i == id)) n.edges }

-- `get_mut(n).unwrap()`
abbrev pub modified :
    IpAddr → (Node → Node) → Option Node → Map IpAddr Node → Result TopologyError (Map IpAddr Node)
modified n f none m = panic
modified n f (some node) m = ok (insert n (f node) m)

abbrev pub attach : String → IpAddr → Map IpAddr Node → Result TopologyError (Map IpAddr Node)
attach id n m = modified n (with_edge id) (lookup n m) m

-- a link enters the table, and the sets of its two ends
unfoldable pub put_link : Graph → String → Link → Result TopologyError Graph
put_link g id link = do
  nodes ← attach id link.a g.nodes
  nodes ← attach id link.b nodes
  ok (record g { nodes = nodes; edges = insert id link g.edges })

unfoldable pub add_link :
    Graph → IpAddr → IpAddr → String → List Attribute → ℕ → Result TopologyError Graph
add_link g a b id attributes cost =
    if a == b
    then err link_to_self
    else if not (has_node g a)
    then err node_not_found
    else if not (has_node g b)
    then err node_not_found
    else if is_some (lookup id g.edges)
    then err link_exists
    else put_link g id (record { a = a; b = b; attributes = attributes; cost = cost }) >>= recompute

-- `if let Some(node) = get_mut(n)`
abbrev pub detached : String → IpAddr → Option Node → Map IpAddr Node → Map IpAddr Node
detached id n none m = m
detached id n (some node) m = insert n (without_edge id node) m

abbrev pub detach : String → IpAddr → Map IpAddr Node → Map IpAddr Node
detach id n m = detached id n (lookup n m) m

abbrev pub cut : Graph → String → Option Link → Graph
cut g id none = g
cut g id (some link) = record g {
  nodes = detach id link.b (detach id link.a g.nodes);
  edges = remove id g.edges;
}

unfoldable pub remove_link_impl : Graph → String → Graph
remove_link_impl g id = cut g id (lookup id g.edges)

unfoldable pub remove_link : Graph → String → Result TopologyError Graph
unfolding remove_link_impl
remove_link g id = recompute (remove_link_impl g id)

abbrev pub remove_links : List String → Graph → Graph
remove_links [] g = g
remove_links (id ∷ ids) g = remove_links ids (remove_link_impl g id)

-- a node that is not there changes nothing
unfoldable pub remove_node : Graph → IpAddr → Result TopologyError Graph
unfolding remove remove_link_impl
remove_node g n = elim (lookup n g.nodes) [
  | none ↦ ok g
  | some node ↦
      let g' = remove_links node.edges g in recompute (record g' { nodes = remove n g'.nodes })
]

unfoldable pub replace_link :
    Graph → IpAddr → IpAddr → String → List Attribute → ℕ → Result TopologyError Graph
replace_link g a b new_id attributes cost =
    if a == b
    then err link_to_self
    else if not (has_node g a)
    then err node_not_found
    else if not (has_node g b)
    then err node_not_found
    else elim (link_id_between g a b) [
      | none ↦ err link_not_found
      | some old_id ↦
          if not (new_id == old_id) && is_some (lookup new_id g.edges)
          then err link_exists
          else put_link (remove_link_impl g old_id) new_id
              (record { a = a; b = b; attributes = attributes; cost = cost })
            >>= recompute
    ]

unfoldable pub get_low_cost_path : Graph → IpAddr → IpAddr → Option (List String × ℕ)
get_low_cost_path g a b = lookup (a, b) g.best_routes
