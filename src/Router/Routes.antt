-- ===== src/Router/Routes.antt =====
-- vs/src/router.rs, Router: the methods that read the topology, and the cache of all routes.
use zl_zpr_visaservice.Base.{
  Bool, is_some, ℕ, ℕ-HasEq, String, String-HasEq, ◌==◌, not, List, [], ◌∷◌, Option, none, some,
  if◌then◌else◌, map, Map, lookup, insert, set_insert, Result, ok, err, ◌>>=◌,
}
use zl_zpr_visaservice.IpAddr.{IpAddr, IpAddr-HasEq}
use zl_zpr_visaservice.Attribute.{Attribute}
use zl_zpr_visaservice.Eval.{Route, RouteKind, direct_same_node, multihop}
use zl_zpr_visaservice.Graph.{
  Link, Graph, TopologyError, node_not_found, link_not_found, Pair-HasEq, link_id_between,
  neighbors,
}
use zl_zpr_visaservice.Graph.Change.{get_low_cost_path}
use zl_zpr_visaservice.Graph.AllPaths.{get_all_paths}
use zl_zpr_visaservice.Router.{
  RouteHint, RouteCacheKey, RouteCacheKey-HasEq, RouterInner, links_of, keys_of,
}

unfoldable pub has_node : RouterInner → IpAddr → Bool
has_node s n = is_some (lookup n s.topology.nodes)

-- one link of a route, from the node where it is met
abbrev pub next_node : Link → IpAddr → Result TopologyError IpAddr
next_node link n =
    if link.a == n then ok link.b else if link.b == n then ok link.a else err node_not_found

abbrev pub cross : Option Link → IpAddr → Result TopologyError IpAddr
cross none n = err link_not_found
cross (some link) n = next_node link n

unfoldable pub follow_links : Graph → List String → IpAddr → Result TopologyError (List IpAddr)
follow_links g [] n = ok []
follow_links g (id ∷ ids) n = do
  next ← cross (lookup id g.edges) n
  rest ← follow_links g ids next
  ok (next ∷ rest)

abbrev pub path_along :
    RouterInner → List String → IpAddr → RouteKind → Result TopologyError (List IpAddr)
path_along s links n (direct_same_node m) = if m == n then ok (n ∷ []) else err node_not_found
path_along s links n multihop = do rest ← follow_links s.topology links n; ok (n ∷ rest)

unfoldable pub route_to_path : RouterInner → Route → IpAddr → Result TopologyError (List IpAddr)
unfolding follow_links
route_to_path s route start = path_along s route.links start route.kind

pub record RouterLink : Type 0 where
  pub a : IpAddr
  pub b : IpAddr
  pub id : String
  pub attributes : List Attribute
  pub cost : ℕ

abbrev pub shown_link : String → Link → RouterLink
shown_link id link = record {
  a = link.a;
  b = link.b;
  id = id;
  attributes = link.attributes;
  cost = link.cost;
}

unfoldable pub link_between : RouterInner → IpAddr → IpAddr → Option RouterLink
link_between s a b = elim (link_id_between s.topology a b) [
  | none ↦ none
  | some id ↦ elim (lookup id s.topology.edges) [
    | none ↦ none
    | some link ↦ some (shown_link id link)
  ]
]

unfoldable pub link_snapshot : RouterInner → List RouterLink
link_snapshot s = map (λ e. shown_link e.0 e.1) s.topology.edges

abbrev pub or_none : Option (List IpAddr) → List IpAddr
or_none none = []
or_none (some ns) = ns

unfoldable pub get_peers : RouterInner → IpAddr → List IpAddr
get_peers s n = or_none (neighbors s.topology n)

abbrev pub direct : IpAddr → Route
direct n = record { kind = direct_same_node n; links = []; cost = 0 }

abbrev pub hops : List String × ℕ → Route
hops (links, cost) = record { kind = multihop; links = links; cost = cost }

unfoldable pub get_best_route : RouterInner → IpAddr → IpAddr → Option Route
get_best_route s a b =
    if a == b
    then some (direct a)
    else elim (get_low_cost_path s.topology a b) [ none ↦ none | some r ↦ some (hops r) ]

-- `none` if the loop of `get_all_paths` ran out of rounds
unfoldable pub compute_routes : Graph → IpAddr → IpAddr → Option (List Route)
compute_routes g a b =
    if a == b
    then some (direct a ∷ [])
    else elim (get_all_paths g a b) [ none ↦ none | some ps ↦ some (map hops ps) ]

abbrev pub index_links :
    RouteCacheKey → List String → Map String (List RouteCacheKey) → Map String (List RouteCacheKey)
index_links key [] index = index
index_links key (id ∷ ids) index =
    index_links key ids (insert id (set_insert key (keys_of (lookup id index))) index)

abbrev pub committed : RouteCacheKey → List Route → RouterInner → List Route × RouterInner
committed key routes s = (
  routes,
  record s {
    route_cache = insert key routes s.route_cache;
    link_to_cache_keys = index_links key (links_of routes) s.link_to_cache_keys;
  },
)

-- with the write lock: another call may have stored the routes, or changed the graph
abbrev pub commit : RouteCacheKey → ℕ → List Route → RouterInner → Option (List Route × RouterInner)
commit key generation computed s =
    if not (s.topo_generation == generation)
    then elim (compute_routes s.topology key.a key.b) [
      | none ↦ none
      | some routes ↦ some (routes, s)
    ]
    else elim (lookup key s.route_cache) [
      | some routes ↦ some (routes, s)
      | none ↦ some (committed key computed s)
    ]

unfoldable pub get_routes :
    RouterInner
    → RouterInner
    → IpAddr
    → IpAddr
    → Option RouteHint
    → Option (List Route × RouterInner)
unfolding insert set_insert compute_routes
get_routes s gap a b hint =
    let key : RouteCacheKey = record { a = a; b = b; hint = hint } in
    elim (lookup key s.route_cache) [
      | some routes ↦ some (routes, s)
      | none ↦ elim (compute_routes s.topology a b) [
        | none ↦ none
        | some routes ↦ commit key s.topo_generation routes gap
      ]
    ]
