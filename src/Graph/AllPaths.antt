-- ===== src/Graph/AllPaths.antt =====
-- vs/src/router.rs, Graph::get_all_paths: the loop with its own stack. The top of a stack is the head of
-- its list, and `path` has the last link first. `paths_fuel` bounds the rounds of the loop.
pub mod Explore
pub mod Loop
pub mod Simple
use mathlib.Core.List.{reverse}
use zl_zpr_visaservice.Base.{
  ℕ, zero, suc, ◌+◌, ◌*◌, String, String-HasEq, ◌==◌, not, List, [], ◌∷◌, ◌++◌, Option, none, some,
  if◌then◌else◌, ltb, length, Map, lookup, contains, filter, set_insert,
}
use zl_zpr_visaservice.IpAddr.{IpAddr, IpAddr-HasEq}
use zl_zpr_visaservice.Graph.{Node, Link, Graph, far_end}
use zl_zpr_visaservice.Graph.Dijkstra.{saturated}

pub record Frame : Type 0 where
  pub current : IpAddr
  pub remaining : List String
  pub entered_via : Option String
  pub entered_neighbor : Option IpAddr
  pub cost : ℕ

-- the results, in order; the visited nodes; the path; the stack
pub record Search : Type 0 where
  pub results : List (List String × ℕ)
  pub visited : List IpAddr
  pub path : List String
  pub stack : List Frame

-- `path.pop()`
abbrev pub pop_path : Option String → List String → List String
pop_path none path = path
pop_path (some id) [] = []
pop_path (some id) (l ∷ path) = path

abbrev pub unvisit : Option IpAddr → List IpAddr → List IpAddr
unvisit none visited = visited
unvisit (some n) visited = filter (λ m. not (m == n)) visited

-- the frame's links are exhausted
abbrev pub backtrack : Frame → List Frame → Search → Search
backtrack f fs s = record {
  results = s.results;
  visited = unvisit f.entered_neighbor s.visited;
  path = pop_path f.entered_via s.path;
  stack = fs;
}

abbrev pub descend : String → IpAddr → ℕ → Option Node → Search → Search
descend id n cost none s = s
descend id n cost (some node) s = record {
  results = s.results;
  visited = set_insert n s.visited;
  path = id ∷ s.path;
  stack =
      (record {
        current = n;
        remaining = node.edges;
        entered_via = some id;
        entered_neighbor = some n;
        cost = cost;
      })
      ∷ s.stack;
}

-- a link has been taken from the top frame, which is at the node `current` and has the cost `cost`
abbrev pub follow : Graph → IpAddr → String → IpAddr → ℕ → Option Link → Search → Search
follow g end id current cost none s = s
follow g end id current cost (some link) s =
    let n = far_end link current in
    if contains s.visited n
    then s
    else if n == end
    then record s {
      results = s.results ++ ((reverse (id ∷ s.path), saturated (cost + link.cost)) ∷ []);
    }
    else descend id n (saturated (cost + link.cost)) (lookup n g.nodes) s

abbrev pub try_links : Graph → IpAddr → Frame → List Frame → List String → Search → Search
try_links g end f fs [] s = backtrack f fs s
try_links g end f fs (id ∷ ids) s =
    follow g end id f.current f.cost (lookup id g.edges)
      (record s { stack = record f { remaining = ids } ∷ fs })

-- one round of the loop
unfoldable pub round : Graph → IpAddr → Frame → List Frame → Search → Search
unfolding lookup set_insert
round g end f fs s = try_links g end f fs f.remaining s

-- `none` if the rounds are used up
unfoldable pub run : ℕ → Graph → IpAddr → Search → Option (List (List String × ℕ))
unfolding round
run zero g end s = none
run (suc fuel) g end s = elim s.stack [
  | [] ↦ some s.results
  | f ∷ fs ↦ run fuel g end (round g end f fs s)
]

abbrev pub max_links : Map IpAddr Node → ℕ
max_links [] = 0
max_links ((n, node) ∷ m) =
    if ltb (max_links m) (length node.edges) then length node.edges else max_links m

-- the rounds of a frame with so many nodes ahead, where a node has so many links
abbrev pub frame_rounds : ℕ → ℕ → ℕ
frame_rounds zero links = 1
frame_rounds (suc nodes) links = links * suc (frame_rounds nodes links) + 1

unfoldable pub paths_fuel : Graph → ℕ
paths_fuel g = suc (frame_rounds (suc (length g.nodes)) (max_links g.nodes))

abbrev pub first_frame : IpAddr → Node → Frame
first_frame start node = record {
  current = start;
  remaining = node.edges;
  entered_via = none;
  entered_neighbor = none;
  cost = 0;
}

abbrev pub first_search : IpAddr → Node → Search
first_search start node = record {
  results = [];
  visited = start ∷ [];
  path = [];
  stack = first_frame start node ∷ [];
}

unfoldable pub get_all_paths : Graph → IpAddr → IpAddr → Option (List (List String × ℕ))
unfolding run paths_fuel lookup
get_all_paths g start end =
    if start == end then some (([], 0) ∷ []) else elim (lookup start g.nodes) [
      | none ↦ some []
      | some node ↦ run (paths_fuel g) g end (first_search start node)
    ]
