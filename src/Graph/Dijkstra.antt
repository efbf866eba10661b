-- ===== src/Graph/Dijkstra.antt =====
-- vs/src/router.rs: Graph::dijkstra_from and Graph::recompute. The heap is a list from which the least
-- entry is taken; costs are u64 that add up without overflow, since each is at most the largest cost
-- of a link times the number of nodes. `search_fuel` and `trace_fuel` bound the two `while` loops.
pub mod Tree
pub mod Relax
pub mod Rounds
pub mod Bounds
pub mod Ends
pub mod Chain
pub mod Shortest
pub mod Best
use zl_zpr_visaservice.Base.{
  ℕ, zero, suc, ◌+◌, ◌*◌, ◌-◌, ◌^◌, ℕ-HasEq, String, String-HasEq, ◌==◌, Bool, true, false, ◌&&◌,
  ◌||◌, List, [], ◌∷◌, Option, none, some, if◌then◌else◌, ltb, leb, length, Map, lookup, insert,
  keys, Result, ok, err, panic,
}
use zl_zpr_visaservice.IpAddr.{IpAddr, v4, v6, IpAddr-HasEq}
use zl_zpr_visaservice.Graph.{Node, Link, Graph, TopologyError, Pair-HasEq, far_end, edges_of}

pub record Search : Type 0 where
  pub dist : Map IpAddr ℕ
  pub prev : Map IpAddr String
  pub heap : List (ℕ × IpAddr)

-- the derived order of addresses
abbrev pub ip_leb : IpAddr → IpAddr → Bool
ip_leb (v4 a) (v4 b) = leb a b
ip_leb (v4 a) (v6 b) = true
ip_leb (v6 a) (v4 b) = false
ip_leb (v6 a) (v6 b) = leb a b

abbrev pub entry_leb : ℕ × IpAddr → ℕ × IpAddr → Bool
entry_leb (c, n) (d, m) = ltb c d || ((c == d) && ip_leb n m)

-- `BinaryHeap::pop` of a heap that is not empty: the least entry, and the others
unfoldable pub pop_min : ℕ × IpAddr → List (ℕ × IpAddr) → (ℕ × IpAddr) × List (ℕ × IpAddr)
pop_min x [] = (x, [])
pop_min x (y ∷ ys) =
    let p = pop_min y ys in if entry_leb x p.0 then (x, p.0 ∷ p.1) else (p.0, x ∷ p.1)

abbrev pub closer : ℕ → Option ℕ → Bool
closer c none = true
closer c (some d) = ltb c d

unfoldable pub offer : ℕ → IpAddr → String → Search → Search
offer cost node id s =
    if closer cost (lookup node s.dist)
    then record {
      dist = insert node cost s.dist;
      prev = insert node id s.prev;
      heap = (cost, node) ∷ s.heap;
    }
    else s

unfoldable pub relax : Graph → ℕ → IpAddr → String → Search → Search
relax g cost node id s = elim (lookup id g.edges) [
  | none ↦ s
  | some link ↦ offer (cost + link.cost) (far_end link node) id s
]

unfoldable pub relax_all : Graph → ℕ → IpAddr → List String → Search → Search
relax_all g cost node [] s = s
relax_all g cost node (id ∷ ids) s = relax_all g cost node ids (relax g cost node id s)

-- a shorter way to the node has been found since the entry was pushed
abbrev pub stale : ℕ → Option ℕ → Bool
stale c none = false
stale c (some d) = ltb d c

unfoldable pub expand : Graph → ℕ × IpAddr → Search → Search
expand g (cost, node) s =
    if stale cost (lookup node s.dist)
    then s
    else relax_all g cost node (edges_of (lookup node g.nodes)) s

unfoldable pub search : ℕ → Graph → Search → Search
search zero g s = s
search (suc fuel) g s = elim s.heap [
  | [] ↦ s
  | x ∷ xs ↦ search fuel g (expand g (pop_min x xs).0 (record s { heap = (pop_min x xs).1 }))
]

abbrev pub max_cost : Map String Link → ℕ
max_cost [] = 0
max_cost ((id, link) ∷ m) = if ltb (max_cost m) link.cost then link.cost else max_cost m

abbrev pub search_fuel : Graph → ℕ
search_fuel g = 2 * (length g.nodes * (max_cost g.edges * length g.nodes + 1)) + 2

-- the links back to the start, first to last; the link of a node is unwrapped
unfoldable pub trace :
    ℕ
    → Map String Link
    → Map IpAddr String
    → IpAddr
    → List String
    → Result TopologyError (List String)
trace zero edges prev cur path = panic
trace (suc fuel) edges prev cur path = elim (lookup cur prev) [
  | none ↦ ok path
  | some id ↦ elim (lookup id edges) [
    | none ↦ panic
    | some link ↦ trace fuel edges prev (far_end link cur) (id ∷ path)
  ]
]

abbrev pub u32_max : ℕ
u32_max = 2 ^ 32 - 1

abbrev pub saturated : ℕ → ℕ
saturated c = if ltb u32_max c then u32_max else c

-- the distance is read by its index
abbrev pub route_entry :
    IpAddr
    → Option ℕ
    → Result TopologyError (Map IpAddr (List String × ℕ))
    → Result TopologyError (List String)
    → Result TopologyError (Map IpAddr (List String × ℕ))
route_entry dest (some d) (ok rest) (ok path) = ok (insert dest (path, saturated d) rest)
route_entry dest _ _ _ = panic

-- one entry for each destination but the start
unfoldable pub collect :
    Graph → IpAddr → Search → List IpAddr → Result TopologyError (Map IpAddr (List String × ℕ))
unfolding insert
collect g start s [] = ok []
collect g start s (dest ∷ dests) =
    let rest = collect g start s dests in
    if dest == start
    then rest
    else route_entry dest (lookup dest s.dist) rest
        (trace (suc (length s.prev)) g.edges s.prev dest [])

abbrev pub seed : IpAddr → Search
seed start = record { dist = (start, 0) ∷ []; prev = []; heap = (0, start) ∷ [] }

unfoldable pub dijkstra_from : Graph → IpAddr → Result TopologyError (Map IpAddr (List String × ℕ))
unfolding search collect
dijkstra_from g start =
    let s = search (search_fuel g) g (seed start) in collect g start s (keys s.dist)

abbrev pub Table : Type 0
Table = Map (IpAddr × IpAddr) (List String × ℕ)

abbrev pub store_from : IpAddr → Map IpAddr (List String × ℕ) → Table → Table
store_from start [] t = t
store_from start ((dest, r) ∷ m) t = store_from start m (insert (start, dest) r t)

abbrev pub store_routes :
    IpAddr
    → Result TopologyError (Map IpAddr (List String × ℕ))
    → Table
    → Result TopologyError Table
store_routes start (ok m) t = ok (store_from start m t)
store_routes start (err e) t = err e
store_routes start panic t = panic

abbrev pub and_then :
    Result TopologyError Table → (Table → Result TopologyError Table) → Result TopologyError Table
and_then (ok t) f = f t
and_then (err e) f = err e
and_then panic f = panic

unfoldable pub best_from : Graph → List IpAddr → Table → Result TopologyError Table
best_from g [] t = ok t
best_from g (n ∷ ns) t = and_then (store_routes n (dijkstra_from g n) t) (best_from g ns)

abbrev pub with_best : Graph → Result TopologyError Table → Result TopologyError Graph
with_best g (ok t) = ok (record g { best_routes = t })
with_best g (err e) = err e
with_best g panic = panic

unfoldable pub recompute : Graph → Result TopologyError Graph
unfolding best_from
recompute g = with_best g (best_from g (keys g.nodes) [])
