-- ===== src/Graph/Tests.antt =====
-- A network of three nodes, where the way over the third is shorter than the direct link.
use zl_zpr_visaservice.Base.{
  ℕ, String, List, String-HasEq, ◌≡◌, refl, [], ◌∷◌, some, lookup, insert, remove, set_insert,
  Result, ok, err, panic, ◌>>=◌, Among, ◌↔◌,
}
use zl_zpr_visaservice.IpAddr.{IpAddr, IpAddr-HasEq, v6}
use zl_zpr_visaservice.Graph.{Graph, TopologyError, link_to_self, Pair-HasEq, link_id_between}
use zl_zpr_visaservice.Graph.Dijkstra.{
  pop_min, offer, relax, relax_all, expand, search, trace, collect, dijkstra_from, best_from,
  recompute,
}
use zl_zpr_visaservice.Graph.Change.{
  add_node, put_link, add_link, remove_link_impl, remove_link, remove_node, replace_link,
  get_low_cost_path,
}
use zl_zpr_visaservice.Graph.Change.Best.{changes-Safe}
use zl_zpr_visaservice.Graph.Change.Current.{IsCurrent, blank-IsCurrent, Safe}
use zl_zpr_visaservice.Graph.Dijkstra.{saturated}
use zl_zpr_visaservice.Graph.AllPaths.Explore.{Paths}
use zl_zpr_visaservice.Graph.AllPaths.Simple.{SimplePath, get_all_paths-SimplePath}
use zl_zpr_visaservice.Graph.AllPaths.{round, run, paths_fuel, get_all_paths}

abbrev blank : Graph
blank = record { nodes = []; edges = []; best_routes = [] }

code : Unit {0}
unfolding lookup insert remove set_insert pop_min offer relax relax_all expand search trace collect
    dijkstra_from best_from recompute add_node put_link add_link remove_link_impl remove_link
    remove_node replace_link get_low_cost_path link_id_between round run paths_fuel get_all_paths
code = tt

built : Result TopologyError Graph
unfolding code
built = do
  g ← add_node blank (v6 1)
  g ← add_node g (v6 2)
  g ← add_node g (v6 3)
  g ← add_link g (v6 1) (v6 2) "l12" [] 5
  g ← add_link g (v6 1) (v6 3) "l13" [] 1
  add_link g (v6 3) (v6 2) "l32" [] 2

abbrev pub net : Graph
net = record {
  nodes =
      (v6 1, record { edges = "l13" ∷ "l12" ∷ [] })
      ∷ (v6 2, record { edges = "l32" ∷ "l12" ∷ [] })
      ∷ (v6 3, record { edges = "l32" ∷ "l13" ∷ [] })
      ∷ [];
  edges =
      ("l12", record { a = v6 1; b = v6 2; attributes = []; cost = 5 })
      ∷ ("l13", record { a = v6 1; b = v6 3; attributes = []; cost = 1 })
      ∷ ("l32", record { a = v6 3; b = v6 2; attributes = []; cost = 2 })
      ∷ [];
  best_routes =
      ((v6 1, v6 2), ("l13" ∷ "l32" ∷ [], 3))
      ∷ ((v6 1, v6 3), ("l13" ∷ [], 1))
      ∷ ((v6 2, v6 1), ("l32" ∷ "l13" ∷ [], 3))
      ∷ ((v6 2, v6 3), ("l32" ∷ [], 2))
      ∷ ((v6 3, v6 1), ("l13" ∷ [], 1))
      ∷ ((v6 3, v6 2), ("l32" ∷ [], 2))
      ∷ [];
}

building : built ≡ ok net
unfolding built code
building = refl

-- Both ways from the first node to the second.
all_paths : get_all_paths net (v6 1) (v6 2) ≡ some (("l13" ∷ "l32" ∷ [], 3) ∷ ("l12" ∷ [], 5) ∷ [])
unfolding code
all_paths = refl

self_link : add_link net (v6 1) (v6 1) "l11" [] 1 ≡ err link_to_self
unfolding code
self_link = refl

-- a chain of changes that does not fail
current_after :
    (m : Result TopologyError Graph) (f : Graph → Result TopologyError Graph)
    → Safe m
    → ((g : Graph) → IsCurrent g → Safe (f g))
    → Safe (m >>= f)
current_after (ok g) f h keep = keep g h
current_after (err e) f h keep = tt
current_after panic f h keep = h

built-Safe : Safe built
unfolding built
built-Safe =
    let node = λ (g : Graph) (n : IpAddr) (h : IsCurrent g). (changes-Safe g n n "" [] 0 h).0 in
    let link = λ (g : Graph) (a b : IpAddr) (id : String) (cost : ℕ) (h : IsCurrent g).
      (changes-Safe g a b id [] cost h).1 in
    current_after (add_node blank (v6 1)) _ (node blank (v6 1) blank-IsCurrent) λ g1 h1.
      current_after (add_node g1 (v6 2)) _ (node g1 (v6 2) h1) λ g2 h2.
        current_after (add_node g2 (v6 3)) _ (node g2 (v6 3) h2) λ g3 h3.
          current_after (add_link g3 (v6 1) (v6 2) "l12" [] 5) _ (link g3 (v6 1) (v6 2) "l12" 5 h3)
            λ g4 h4.
              current_after (add_link g4 (v6 1) (v6 3) "l13" [] 1) _
                (link g4 (v6 1) (v6 3) "l13" 1 h4) λ g5 h5. link g5 (v6 3) (v6 2) "l32" 2 h5

pub net-IsCurrent : IsCurrent net
net-IsCurrent = rw building at built-Safe

changes-Safe_example :
    Safe (add_node net (v6 3))
    × Safe (add_link net (v6 3) (v6 1) "l31" [] 4)
    × Safe (remove_link net "l31")
    × Safe (remove_node net (v6 3))
    × Safe (replace_link net (v6 3) (v6 1) "l31" [] 4)
changes-Safe_example = changes-Safe net (v6 3) (v6 1) "l31" [] 4 net-IsCurrent

get_all_paths-SimplePath_example :
    (paths : Paths) × (get_all_paths net (v6 1) (v6 2) ≡ some paths)
    × ((ls : List String) (c : ℕ)
        → Among (ls, c) paths ↔ (
            (total : ℕ) × (c ≡ saturated total)
            × SimplePath net (v6 2) (v6 1 ∷ []) (v6 1) ls total))
unfolding lookup
get_all_paths-SimplePath_example =
    get_all_paths-SimplePath net net-IsCurrent.valid (v6 2) (v6 1) refl refl
