-- ===== src/Graph.antt =====
-- vs/src/router.rs, Graph: the nodes and links of the network. `Dijkstra` computes the best routes
-- between all nodes, `AllPaths` lists the simple paths between two, `Change` has the operations that
-- change the graph; each computes the best routes anew.
pub mod Dijkstra
pub mod Change
pub mod Walks
pub mod AllPaths
pub mod Tests
use zl_zpr_visaservice.Base.{
  ℕ, String, String-HasEq, ◌==◌, Bool, true, false, ◌&&◌, ◌↔◌, ◌≡◌, List, [], ◌∷◌, Option, none,
  some, if◌then◌else◌, is_some, Map, lookup, HasEq, arith, Result, ok, err, panic,
}
use zl_zpr_visaservice.IpAddr.{IpAddr, IpAddr-HasEq}
use zl_zpr_visaservice.Attribute.{Attribute}

-- a set of the ids of links
pub record Node : Type 0 where
  pub edges : List String

pub record Link : Type 0 where
  pub a : IpAddr
  pub b : IpAddr
  pub attributes : List Attribute
  pub cost : ℕ

pub record Graph : Type 0 where
  pub nodes : Map IpAddr Node
  pub edges : Map String Link
  pub best_routes : Map (IpAddr × IpAddr) (List String × ℕ)

pub data TopologyError : Type 0 where
  node_exists link_exists link_to_self node_not_found link_not_found : TopologyError

abbrev pub pair_beq : IpAddr × IpAddr → IpAddr × IpAddr → Bool
pair_beq (a, b) (c, d) = (a == c) && (b == d)

pub pair_beq_iff : (p q : IpAddr × IpAddr) → (pair_beq p q ≡ true) ↔ (p ≡ q)
pair_beq_iff (a, b) (c, d) = ground (arith, IpAddr-HasEq.is_eq_iff a c, IpAddr-HasEq.is_eq_iff b d)

-- a key of the table of best routes
instance abbrev pub Pair-HasEq : HasEq (IpAddr × IpAddr)
Pair-HasEq = record { is_eq = pair_beq; is_eq_iff = pair_beq_iff }

-- the other end of a link of a node
abbrev pub far_end : Link → IpAddr → IpAddr
far_end link node = if link.a == node then link.b else link.a

abbrev pub edges_of : Option Node → List String
edges_of none = []
edges_of (some n) = n.edges

-- `contains_key` of the nodes
abbrev pub has_node : Graph → IpAddr → Bool
has_node g n = is_some (lookup n g.nodes)

-- the first of a node's links that leads to the other; `get(..)?` ends the scan
abbrev pub find_link : Map String Link → IpAddr → IpAddr → List String → Option String
find_link edges a b [] = none
find_link edges a b (id ∷ ids) = elim (lookup id edges) [
  | none ↦ none
  | some link ↦ if far_end link a == b then some id else find_link edges a b ids
]

unfoldable pub link_id_between : Graph → IpAddr → IpAddr → Option String
link_id_between g a b = elim (lookup a g.nodes) [
  | none ↦ none
  | some node ↦ find_link g.edges a b node.edges
]

abbrev pub far_ends : Map String Link → IpAddr → List String → Option (List IpAddr)
far_ends edges n [] = some []
far_ends edges n (id ∷ ids) = elim (lookup id edges) [
  | none ↦ none
  | some link ↦ elim (far_ends edges n ids) [
    | none ↦ none
    | some rest ↦ some (far_end link n ∷ rest)
  ]
]

unfoldable pub neighbors : Graph → IpAddr → Option (List IpAddr)
neighbors g n = elim (lookup n g.nodes) [ none ↦ none | some node ↦ far_ends g.edges n node.edges ]
