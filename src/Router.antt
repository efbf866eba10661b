-- ===== src/Router.antt =====
-- vs/src/router.rs, Router: the graph with a cache of routes, behind a lock. A method holds the write
-- lock from first to last, but for `get_routes`: it computes under the read lock, and `gap` is the state
-- that it finds when it has the write lock. The hint is a part of the cache's key and is not used.
pub mod Routes
pub mod Paths
pub mod Best
pub mod Batch
pub mod Cache
mod Tests
use zl_zpr_visaservice.Base.{
  ℕ, suc, ◌+◌, ℕ-HasEq, String, String-HasEq, ◌==◌, Bool, true, false, not, ◌&&◌, ◌||◌, ◌↔◌, ◌≡◌,
  arith, List, [], ◌∷◌, ◌++◌, Option, none, some, if◌then◌else◌, is_empty, map, Map, lookup, insert,
  remove, keys, filter, contains, set_insert, to_set, Result, ok, err, panic, ◌>>=◌, HasEq,
}
use zl_zpr_visaservice.IpAddr.{IpAddr, IpAddr-HasEq}
use zl_zpr_visaservice.Attribute.{Attribute}
use zl_zpr_visaservice.Eval.{Route, RouteKind, direct_same_node, multihop}
use zl_zpr_visaservice.Graph.{
  Node, Link, Graph, TopologyError, node_not_found, link_not_found, Pair-HasEq, edges_of,
  link_id_between, neighbors,
}
use zl_zpr_visaservice.Graph.Change
use zl_zpr_visaservice.Graph.Change.{get_low_cost_path}
use zl_zpr_visaservice.Graph.AllPaths.{get_all_paths}

-- libeval/src/eval_route.rs; a match on an attribute has no fields yet, so a list of them is its length
pub record RouteHint : Type 0 where
  pub direct_only : Bool
  pub require_linked_path : Bool
  pub any_link_has : ℕ
  pub no_link_has : ℕ
  pub all_links_have : ℕ

pub record RouteCacheKey : Type 0 where
  pub a : IpAddr
  pub b : IpAddr
  pub hint : Option RouteHint

abbrev pub same_bool : Bool → Bool → Bool
same_bool true b = b
same_bool false b = not b

abbrev pub same_hint : Option RouteHint → Option RouteHint → Bool
same_hint none none = true
same_hint (some h) (some k) =
    same_bool h.direct_only k.direct_only
    && same_bool h.require_linked_path k.require_linked_path
    && h.any_link_has == k.any_link_has
    && h.no_link_has == k.no_link_has
    && h.all_links_have == k.all_links_have
same_hint _ _ = false

pub same_hint_iff : (h k : Option RouteHint) → (same_hint h k ≡ true) ↔ (h ≡ k)
same_hint_iff none none = ground arith
same_hint_iff none (some k) = ground arith
same_hint_iff (some h) none = ground arith
same_hint_iff (some h) (some k) = ground arith

abbrev pub key_beq : RouteCacheKey → RouteCacheKey → Bool
key_beq k l = k.a == l.a && k.b == l.b && same_hint k.hint l.hint

pub key_beq_iff : (k l : RouteCacheKey) → (key_beq k l ≡ true) ↔ (k ≡ l)
key_beq_iff k l = ground (
  arith,
  IpAddr-HasEq.is_eq_iff k.a l.a,
  IpAddr-HasEq.is_eq_iff k.b l.b,
  same_hint_iff k.hint l.hint,
)

instance abbrev pub RouteCacheKey-HasEq : HasEq RouteCacheKey
RouteCacheKey-HasEq = record { is_eq = key_beq; is_eq_iff = key_beq_iff }

pub record RouterInner : Type 0 where
  pub topology : Graph
  pub route_cache : Map RouteCacheKey (List Route)
  pub link_to_cache_keys : Map String (List RouteCacheKey)
  pub topo_generation : ℕ

-- `Router::new`
abbrev pub new : RouterInner
new = record {
  topology = record { nodes = []; edges = []; best_routes = [] };
  route_cache = [];
  link_to_cache_keys = [];
  topo_generation = 0;
}

-- a key leaves the set of a link; a set that is empty leaves the index
abbrev pub unlinked :
    RouteCacheKey
    → String
    → Option (List RouteCacheKey)
    → Map String (List RouteCacheKey)
    → Map String (List RouteCacheKey)
unlinked key id none index = index
unlinked key id (some keys') index =
    let rest = filter (λ k. not (k == key)) keys' in
    if is_empty rest then remove id index else insert id rest index

abbrev pub unlink_all :
    RouteCacheKey → List String → Map String (List RouteCacheKey) → Map String (List RouteCacheKey)
unlink_all key [] index = index
unlink_all key (id ∷ ids) index = unlink_all key ids (unlinked key id (lookup id index) index)

-- the links of all routes
abbrev pub links_of : List Route → List String
links_of [] = []
links_of (r ∷ rs) = r.links ++ links_of rs

abbrev pub evict : RouteCacheKey → Option (List Route) → RouterInner → RouterInner
evict key none s = s
evict key (some routes) s = record s {
  route_cache = remove key s.route_cache;
  link_to_cache_keys = unlink_all key (to_set (links_of routes)) s.link_to_cache_keys;
}

unfoldable pub invalidate_keys : List RouteCacheKey → RouterInner → RouterInner
unfolding remove insert to_set
invalidate_keys [] s = s
invalidate_keys (key ∷ ks) s = invalidate_keys ks (evict key (lookup key s.route_cache) s)

-- an error leaves the graph as it is
abbrev pub with_topology :
    RouterInner → Result TopologyError Graph → Result TopologyError RouterInner
with_topology s (ok g) = ok (record s { topology = g; topo_generation = suc s.topo_generation })
with_topology s (err e) = err e
with_topology s panic = panic

unfoldable pub add_node : RouterInner → IpAddr → Result TopologyError RouterInner
add_node s n = with_topology s (Change.add_node s.topology n)

abbrev pub keys_of : Option (List RouteCacheKey) → List RouteCacheKey
keys_of none = []
keys_of (some ks) = ks

abbrev pub keys_of_links : List String → Map String (List RouteCacheKey) → List RouteCacheKey
keys_of_links [] index = []
keys_of_links (id ∷ ids) index = keys_of (lookup id index) ++ keys_of_links ids index

abbrev pub at_endpoint : IpAddr → RouteCacheKey → Bool
at_endpoint n k = k.a == n || k.b == n

-- the routes over the node's links, then those from or to the node, then the node
unfoldable pub remove_node : RouterInner → IpAddr → Result TopologyError RouterInner
unfolding invalidate_keys to_set
remove_node s n =
    let links = edges_of (lookup n s.topology.nodes) in
    let s1 = invalidate_keys (to_set (keys_of_links links s.link_to_cache_keys)) s in
    let s2 = invalidate_keys (filter (at_endpoint n) (keys s1.route_cache)) s1 in
    with_topology s2 (Change.remove_node s2.topology n)

abbrev pub flushed : RouterInner → RouterInner
flushed s = record s { route_cache = []; link_to_cache_keys = [] }

-- the state afterwards, with the error if there was one
abbrev pub reported :
    RouterInner
    → Result TopologyError RouterInner
    → Result TopologyError (RouterInner × Option TopologyError)
reported s (ok s') = ok (s', none)
reported s (err e) = ok (s, some e)
reported s panic = panic

-- the cache is flushed first, and stays so if the link is refused
unfoldable pub add_link :
    RouterInner
    → IpAddr
    → IpAddr
    → String
    → List Attribute
    → ℕ
    → Result TopologyError (RouterInner × Option TopologyError)
add_link s a b id attributes cost =
    reported (flushed s)
      (with_topology (flushed s) (Change.add_link s.topology a b id attributes cost))

unfoldable pub remove_link : RouterInner → String → Result TopologyError RouterInner
unfolding invalidate_keys remove
remove_link s id =
    let s1 = invalidate_keys (keys_of (lookup id s.link_to_cache_keys)) s in
    let s2 = record s1 { link_to_cache_keys = remove id s1.link_to_cache_keys } in
    with_topology s2 (Change.remove_link s2.topology id)

unfoldable pub replace_link_between :
    RouterInner → IpAddr → IpAddr → String → List Attribute → ℕ → Result TopologyError RouterInner
replace_link_between s a b id attributes cost =
    with_topology (flushed s) (Change.replace_link s.topology a b id attributes cost)

pub record LinkSpec : Type 0 where
  pub a : IpAddr
  pub b : IpAddr
  pub id : String
  pub attributes : List Attribute
  pub cost : ℕ

abbrev pub remove_each : List String → Graph → Result TopologyError Graph
remove_each [] g = ok g
remove_each (id ∷ ids) g = Change.remove_link g id >>= remove_each ids

-- the links added so far, last first, are removed again at an error
abbrev pub rolled_back :
    List String → Graph → TopologyError → Result TopologyError (Graph × Option TopologyError)
rolled_back added g e = do g' ← remove_each added g; ok (g', some e)

abbrev pub after_add :
    List String
    → Graph
    → LinkSpec
    → (Graph → Result TopologyError (Graph × Option TopologyError))
    → Result TopologyError Graph
    → Result TopologyError (Graph × Option TopologyError)
after_add added g spec rest (ok g') = rest g'
after_add added g spec rest (err e) = rolled_back added g e
after_add added g spec rest panic = panic

abbrev pub add_each :
    List LinkSpec → List String → Graph → Result TopologyError (Graph × Option TopologyError)
add_each [] added g = ok (g, none)
add_each (spec ∷ specs) added g =
    after_add added g spec (add_each specs (spec.id ∷ added))
      (Change.add_link g spec.a spec.b spec.id spec.attributes spec.cost)

-- the state afterwards, with the error if a link was refused; the links that were removed first stay removed
unfoldable pub apply_link_batch :
    RouterInner
    → List String
    → List LinkSpec
    → Result TopologyError (RouterInner × Option TopologyError)
apply_link_batch s removals additions = do
  g ← remove_each removals s.topology
  r ← add_each additions [] g
  ok (record (flushed s) { topology = r.0; topo_generation = suc s.topo_generation }, r.1)
