-- ===== src/Router/Tests.antt =====
-- The router over the network of three nodes.
use zl_zpr_visaservice.Base.{
  String-HasEq, ◌≡◌, refl, List, [], ◌∷◌, none, some, lookup, insert, remove, set_insert, to_set,
  ok, length,
}
use zl_zpr_visaservice.IpAddr.{IpAddr, IpAddr-HasEq, v6}
use zl_zpr_visaservice.Eval.{Route, multihop}
use zl_zpr_visaservice.Graph.{link_exists, Pair-HasEq}
use zl_zpr_visaservice.Graph.Tests.{net, net-IsCurrent}
use zl_zpr_visaservice.Graph.Change.{get_low_cost_path}
use zl_zpr_visaservice.Graph.Change
use zl_zpr_visaservice.Graph.Dijkstra.{
  pop_min, offer, relax, relax_all, expand, search, trace, collect, dijkstra_from, best_from,
  recompute,
}
use zl_zpr_visaservice.Graph.AllPaths.{round, run, paths_fuel, get_all_paths}
use zl_zpr_visaservice.Router.{
  RouterInner, RouteCacheKey, RouteCacheKey-HasEq, invalidate_keys, add_link, remove_link,
  remove_node, apply_link_batch, new, add_node,
}
use zl_zpr_visaservice.Router.Routes.{
  follow_links, route_to_path, get_best_route, compute_routes, get_routes,
}
use zl_zpr_visaservice.Router.Best.{Best, get_best_route-Best}
use zl_zpr_visaservice.Router.Batch.{Batched, apply_link_batch-Batched}
use zl_zpr_visaservice.Router.Cache.{AllRoutes}
use zl_zpr_visaservice.Router.Cache.Calls.{
  Reach, start, node_added, link_added, link_removed, get_routes-AllRoutes,
}
use zl_zpr_visaservice.Router.Paths.{last_of, route_to_path-get_best_route}

abbrev router : RouterInner
router = record { topology = net; route_cache = []; link_to_cache_keys = []; topo_generation = 6 }

abbrev over_three : Route
over_three = record { kind = multihop; links = "l13" ∷ "l32" ∷ []; cost = 3 }

abbrev straight : Route
straight = record { kind = multihop; links = "l12" ∷ []; cost = 5 }

code : Unit {0}
unfolding lookup insert remove set_insert to_set pop_min offer relax relax_all expand search trace
    collect dijkstra_from best_from recompute Change.put_link Change.add_link
    Change.remove_link_impl Change.remove_link get_low_cost_path round run paths_fuel get_all_paths
    invalidate_keys add_link remove_link remove_node apply_link_batch follow_links route_to_path
    get_best_route compute_routes get_routes add_node Change.add_node
code = tt

best : get_best_route router (v6 1) (v6 2) ≡ some over_three
unfolding code
best = refl

path : route_to_path router over_three (v6 1) ≡ ok (v6 1 ∷ v6 3 ∷ v6 2 ∷ [])
unfolding code
path = refl

abbrev key : RouteCacheKey
key = record { a = v6 1; b = v6 2; hint = none }

abbrev cached : RouterInner
cached = record router {
  route_cache = (key, over_three ∷ straight ∷ []) ∷ [];
  link_to_cache_keys = ("l13", key ∷ []) ∷ ("l32", key ∷ []) ∷ ("l12", key ∷ []) ∷ [];
}

-- All routes are computed once, and then come from the cache.
first : get_routes router router (v6 1) (v6 2) none ≡ some (over_three ∷ straight ∷ [], cached)
unfolding code
first = refl

again : get_routes cached cached (v6 1) (v6 2) none ≡ some (over_three ∷ straight ∷ [], cached)
unfolding code
again = refl

-- A batch whose second link is refused takes the first back, but not the removals.
batch_refused :
    (s : RouterInner) × (apply_link_batch router ("l13" ∷ []) (
        (record { a = v6 1; b = v6 3; id = "n1"; attributes = []; cost = 7 })
        ∷ (record { a = v6 1; b = v6 2; id = "l12"; attributes = []; cost = 7 })
        ∷ [])
      ≡ ok (s, some link_exists))
    × (lookup "l13" s.topology.edges ≡ none)
    × (lookup "n1" s.topology.edges ≡ none)
unfolding code
batch_refused = (_, refl, refl, refl)

route_to_path-get_best_route_example :
    (ns : List IpAddr) × (route_to_path router over_three (v6 1) ≡ ok (v6 1 ∷ ns))
    × (last_of (v6 1) ns ≡ v6 2)
    × (length ns ≡ 2)
route_to_path-get_best_route_example =
    route_to_path-get_best_route router (v6 1) (v6 2) over_three net-IsCurrent best

apply_link_batch-Batched_example : Batched ("l13" ∷ []) (
    apply_link_batch router
      ("l13" ∷ [])
      ((record { a = v6 1; b = v6 2; id = "l12"; attributes = []; cost = 7 }) ∷ []))
apply_link_batch-Batched_example =
    apply_link_batch-Batched router ("l13" ∷ [])
      ((record { a = v6 1; b = v6 2; id = "l12"; attributes = []; cost = 7 }) ∷ []) net-IsCurrent

-- A router of two nodes and a link, and then without the link.
abbrev two : RouterInner
two = record {
  topology = record {
    nodes = (v6 1, record { edges = "l12" ∷ [] }) ∷ (v6 2, record { edges = "l12" ∷ [] }) ∷ [];
    edges = ("l12", record { a = v6 1; b = v6 2; attributes = []; cost = 5 }) ∷ [];
    best_routes = ((v6 1, v6 2), ("l12" ∷ [], 5)) ∷ ((v6 2, v6 1), ("l12" ∷ [], 5)) ∷ [];
  };
  route_cache = [];
  link_to_cache_keys = [];
  topo_generation = 3;
}

abbrev parted : RouterInner
parted = record {
  topology = record {
    nodes = (v6 1, record { edges = [] }) ∷ (v6 2, record { edges = [] }) ∷ [];
    edges = [];
    best_routes = [];
  };
  route_cache = [];
  link_to_cache_keys = [];
  topo_generation = 4;
}

new-two : Reach new two
unfolding code
new-two =
    link_added (node_added (node_added (start new) (v6 1) refl) (v6 2) refl) (v6 1) (v6 2) "l12" []
      5 none refl

-- The one link is the best route.
get_best_route-Best_example : Best two.topology (v6 1) (v6 2) (get_best_route two (v6 1) (v6 2))
unfolding lookup
get_best_route-Best_example = get_best_route-Best two (v6 1) (v6 2) new-two refl

two-parted : Reach two parted
unfolding code
two-parted = link_removed (start two) "l12" refl

-- The link goes while a call of get_routes waits for the write lock.
get_routes-AllRoutes_example :
    (routes : List Route) × (u : RouterInner) × (get_routes two parted (v6 1) (v6 2) none
      ≡ some (routes, u))
    × AllRoutes parted.topology (v6 1) (v6 2) routes
unfolding lookup
get_routes-AllRoutes_example = get_routes-AllRoutes two parted (v6 1) (v6 2) none new-two two-parted
