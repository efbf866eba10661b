-- ===== src/Router/Cache.antt =====
-- The cache of routes: what a list of all routes is, and a cache that has it for each of its keys.
pub mod Coherent
pub mod Commit
pub mod Lost
pub mod Kept
pub mod Evict
pub mod Change
pub mod Calls
use zl_zpr_visaservice.Base.{
  ℕ, zero, suc, ◌+◌, String, String-HasEq, ◌==◌, ◌≡◌, ◌↔◌, refl, sym, ap, ◌∙◌, Bool, true, false,
  not, ◌&&◌, ◌||◌, List, [], ◌∷◌, ◌++◌, Option, none, some, if◌then◌else◌, Map, map, lookup,
  contains, is_some, arith, Bool-cases, Option-cases, inl, inr, eq_of_beq, beq_refl, some_inj,
  contains-append, Among, Among-head, Among-tail, Among-cons,
}
use zl_zpr_visaservice.IpAddr.{IpAddr, IpAddr-HasEq}
use zl_zpr_visaservice.Eval.{Route, multihop}
use zl_zpr_visaservice.Graph.{Link, Graph, has_node, edges_of}
use zl_zpr_visaservice.Graph.Dijkstra.{saturated}
use zl_zpr_visaservice.Graph.Walks.{IsValid, Hop, Hop-near, edge_node}
use zl_zpr_visaservice.Graph.Change.Current.{IsCurrent}
use zl_zpr_visaservice.Graph.AllPaths.{get_all_paths}
use zl_zpr_visaservice.Graph.AllPaths.Explore.{Paths}
use zl_zpr_visaservice.Graph.AllPaths.Simple.{SimplePath, arrive, pass, get_all_paths-SimplePath}
use zl_zpr_visaservice.Router.{RouteCacheKey, RouteCacheKey-HasEq, RouterInner, keys_of, links_of}
use zl_zpr_visaservice.Router.Routes.{direct, hops, compute_routes}

-- a simple path as a route
pub record IsRoute (g : Graph) (a b : IpAddr) (r : Route) : Type 0 where
  pub total : ℕ
  pub shown : r ≡ hops (r.links, saturated total)
  pub simple : SimplePath g b (a ∷ []) a r.links total

pub record AllRoutes (g : Graph) (a b : IpAddr) (routes : List Route) : Type 0 where
  pub home : (a == b) ≡ true → routes ≡ direct a ∷ []
  pub away : (a == b) ≡ false → (r : Route) → Among r routes ↔ IsRoute g a b r

Among-map :
    (r : Route) (ps : Paths)
    → Among r (map hops ps)
    → (p : List String × ℕ) × (r ≡ hops p) × Among p ps
Among-map r [] (i, h) = absurd (cc h)
Among-map r (p ∷ ps) m = elim (Among-cons r (hops p) (map hops ps) m) [
  | inl here ↦ (p, sym here, Among-head p ps)
  | inr later ↦ let (q, is_r, among) = Among-map r ps later in (q, is_r, Among-tail q p ps among)
]

map-Among : (p : List String × ℕ) (ps : Paths) → Among p ps → Among (hops p) (map hops ps)
map-Among p [] (i, h) = absurd (cc h)
map-Among p (q ∷ ps) m = elim (Among-cons p q ps m) [
  | inl here ↦ (0, ap (λ x. some (hops x)) here)
  | inr later ↦ Among-tail (hops p) (hops q) (map hops ps) (map-Among p ps later)
]

start-node :
    (g : Graph)
    → IsValid g
    → (end u : IpAddr) (visited : List IpAddr) (ls : List String) (c : ℕ)
    → SimplePath g end visited u ls c
    → has_node g u ≡ true
start-node g valid end u visited ls c (arrive _ _ id w hop new) =
    edge_node g (lookup u g.nodes) id (Hop-near g valid u end id w hop)
start-node g valid end u visited ls c (pass _ _ id w v ls' c' hop new on_way simple) =
    edge_node g (lookup u g.nodes) id (Hop-near g valid u v id w hop)

get_all_paths-absent :
    (g : Graph) (a b : IpAddr)
    → (a == b) ≡ false
    → has_node g a ≡ false
    → get_all_paths g a b ≡ some []
unfolding get_all_paths
get_all_paths-absent g a b other gone = elim (Option-cases (lookup a g.nodes)) [
  | inl absent ↦ rw (get_all_paths, other, absent) refl
  | inr (node, found) ↦ absurd (cc (sym gone ∙ ap is_some found))
]

-- all simple paths as routes
hops-AllRoutes :
    (g : Graph) (a b : IpAddr) (paths : Paths)
    → (a == b) ≡ false
    → ((ls : List String) (c : ℕ)
        → Among (ls, c) paths
          ↔ ((total : ℕ) × (c ≡ saturated total) × SimplePath g b (a ∷ []) a ls total))
    → AllRoutes g a b (map hops paths)
hops-AllRoutes g a b paths other exact = record {
  home = λ same. absurd (cc (sym same ∙ other));
  away = λ _ r. (
    (λ m.
        let ((ls, c), is_r, among) = Among-map r paths m in
        let (total, is_c, simple) = (exact ls c).0 among in
        rw (is_r) (record { total = total; shown = ap (λ x. hops (ls, x)) is_c; simple = simple })),
    λ h.
        let among = (exact r.links (saturated h.total)).1 (h.total, refl, h.simple) in
        rw (h.shown) (map-Among (r.links, saturated h.total) paths among),
  );
}

pub compute_routes-AllRoutes :
    (g : Graph) (a b : IpAddr)
    → IsValid g
    → (routes : List Route) × (compute_routes g a b ≡ some routes) × AllRoutes g a b routes
unfolding compute_routes
compute_routes-AllRoutes g a b valid = elim (Bool-cases (a == b)) [
  | inl same ↦ (
    direct a ∷ [],
    rw (compute_routes, same) refl,
    record { home = λ _. refl; away = λ other. absurd (cc (sym same ∙ other)) },
  )
  | inr other ↦ elim (Bool-cases (has_node g a)) [
    | inl node ↦
        let (paths, made, exact) = get_all_paths-SimplePath g valid b a node other in
        (
          map hops paths,
          rw (compute_routes, other, made) refl,
          hops-AllRoutes g a b paths other exact,
        )
    | inr gone ↦ (
      [],
      rw (compute_routes, other, get_all_paths-absent g a b other gone) refl,
      hops-AllRoutes g a b [] other (λ ls c. (
        (λ (i, h). absurd (cc h)),
        λ (total, _, simple).
            absurd (cc (sym gone ∙ start-node g valid b a (a ∷ []) ls total simple)),
      )),
    )
  ]
]

-- whether the set of a link has the key
abbrev pub indexed_at : Map String (List RouteCacheKey) → String → RouteCacheKey → Bool
indexed_at index id key = contains (keys_of (lookup id index)) key

-- between two calls
pub record IsCoherent (s : RouterInner) : Type 0 where
  pub current : IsCurrent s.topology
  pub fresh :
      (key : RouteCacheKey) (routes : List Route)
      → lookup key s.route_cache ≡ some routes
      → AllRoutes s.topology key.a key.b routes
  pub indexed :
      (key : RouteCacheKey) (routes : List Route) (id : String)
      → lookup key s.route_cache ≡ some routes
      → contains (links_of routes) id ≡ true
      → indexed_at s.link_to_cache_keys id key ≡ true
