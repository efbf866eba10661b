-- ===== src/Router/Cache/Calls.antt =====
-- What calls of all methods, in any order and interleaved at the locks, make of a router, and what
-- `get_routes` answers then.
use zl_zpr_visaservice.Base.{
  ℕ, ℕ-HasEq, String, String-HasEq, ◌≡◌, refl, ◌∙◌, List, [], Option, none, some, lookup, arith,
  Option-cases, inl, inr, Result, ok,
}
use zl_zpr_visaservice.IpAddr.{IpAddr, IpAddr-HasEq, v6}
use zl_zpr_visaservice.Attribute.{Attribute}
use zl_zpr_visaservice.Eval.{Route}
use zl_zpr_visaservice.Graph.{TopologyError}
use zl_zpr_visaservice.Graph.Change.Current.{blank-IsCurrent}
use zl_zpr_visaservice.Router.{
  RouteHint, RouteCacheKey, RouteCacheKey-HasEq, RouterInner, LinkSpec, new, add_node, remove_node,
  add_link, remove_link, replace_link_between, apply_link_batch,
}
use zl_zpr_visaservice.Router.Routes.{get_routes}
use zl_zpr_visaservice.Router.Cache.{AllRoutes, IsCoherent}
use zl_zpr_visaservice.Router.Cache.Change.{changes-IsCoherent}
use zl_zpr_visaservice.Router.Cache.Coherent.{Moves, Keeps, Reports, blank-IsCoherent}
use zl_zpr_visaservice.Router.Cache.Commit.{key_of, Reads, get_routes-Reads}

-- the states that a router comes to, call after call; `get_routes` reads at one state and writes at a
-- later one
pub data Reach : RouterInner → RouterInner → Type 0 where
  start : (s : RouterInner) → Reach s s
  node_added : {s t u : RouterInner} → Reach s t → (n : IpAddr) → add_node t n ≡ ok u → Reach s u
  node_removed :
      {s t u : RouterInner} → Reach s t → (n : IpAddr) → remove_node t n ≡ ok u → Reach s u
  link_removed :
      {s t u : RouterInner} → Reach s t → (id : String) → remove_link t id ≡ ok u → Reach s u
  link_replaced :
      {s t u : RouterInner}
      → Reach s t
      → (a b : IpAddr) (id : String) (attributes : List Attribute) (cost : ℕ)
      → replace_link_between t a b id attributes cost ≡ ok u
      → Reach s u
  link_added :
      {s t u : RouterInner}
      → Reach s t
      → (a b : IpAddr) (id : String) (attributes : List Attribute) (cost : ℕ)
        (e : Option TopologyError)
      → add_link t a b id attributes cost ≡ ok (u, e)
      → Reach s u
  batch_applied :
      {s t u : RouterInner}
      → Reach s t
      → (removals : List String) (additions : List LinkSpec) (e : Option TopologyError)
      → apply_link_batch t removals additions ≡ ok (u, e)
      → Reach s u
  routes_read :
      {s t gap u : RouterInner}
      → Reach s t
      → Reach t gap
      → (a b : IpAddr) (hint : Option RouteHint) (routes : List Route)
      → lookup (key_of a b hint) t.route_cache ≡ none
      → get_routes t gap a b hint ≡ some (routes, u)
      → Reach s u

Moves-trans : (s t u : RouterInner) → Moves s t → Moves t u → Moves s u
Moves-trans s t u (inl less) (inl less') = inl (omega arith)
Moves-trans s t u (inl less) (inr (same, _)) = inl (omega (arith, less, same))
Moves-trans s t u (inr (same, _)) (inl less) = inl (omega (arith, less, same))
Moves-trans s t u (inr (same, top)) (inr (same', top')) = inr (same' ∙ same, top' ∙ top)

read_state :
    (key : RouteCacheKey) (gap u : RouterInner) (routes : List Route)
    (r : Option (List Route × RouterInner))
    → Reads key gap r
    → r ≡ some (routes, u)
    → IsCoherent u × Moves gap u
read_state key gap u routes r reads yields =
    let (_, coherent, generation, topology) = rw yields at reads in
    (coherent, inr (generation, topology))

read_answer :
    (key : RouteCacheKey) (gap : RouterInner) (r : Option (List Route × RouterInner))
    → Reads key gap r
    → (routes : List Route) × (u : RouterInner) × (r ≡ some (routes, u))
      × AllRoutes gap.topology key.a key.b routes
read_answer key gap none reads = absurd reads
read_answer key gap (some (routes, u)) (all, _, _, _) = (routes, u, refl, all)

reported_state :
    (t u : RouterInner) (e : Option TopologyError)
    (r : Result TopologyError (RouterInner × Option TopologyError))
    → Reports t r
    → r ≡ ok (u, e)
    → IsCoherent u × Moves t u
reported_state t u e r reports yields = rw yields at reports

kept_state :
    (t u : RouterInner) (r : Result TopologyError RouterInner)
    → Keeps t r
    → r ≡ ok u
    → IsCoherent u × Moves t u
kept_state t u r keeps yields = rw yields at keeps

-- one more call
further : (s t u : RouterInner) → Moves s t → IsCoherent u × Moves t u → IsCoherent u × Moves s u
further s t u before (coherent, after) = (coherent, Moves-trans s t u before after)

pub new-IsCoherent : IsCoherent new
new-IsCoherent = blank-IsCoherent new refl blank-IsCurrent

pub Reach-IsCoherent : {s u : RouterInner} → Reach s u → IsCoherent s → IsCoherent u × Moves s u
Reach-IsCoherent (start s) h = (h, inr (refl, refl))
Reach-IsCoherent {s} {u} (node_added {t = t} r n yields) h =
    let (coherent, moves) = Reach-IsCoherent r h in
    further s t u moves
      (kept_state t u (add_node t n) (changes-IsCoherent t n n "" [] 0 [] [] coherent).0 yields)
Reach-IsCoherent {s} {u} (node_removed {t = t} r n yields) h =
    let (coherent, moves) = Reach-IsCoherent r h in
    further s t u moves
      (kept_state t u (remove_node t n) (changes-IsCoherent t n n "" [] 0 [] [] coherent).1 yields)
Reach-IsCoherent {s} {u} (link_removed {t = t} r id yields) h =
    let (coherent, moves) = Reach-IsCoherent r h in
    let changes = changes-IsCoherent t (v6 0) (v6 0) id [] 0 [] [] coherent in
    further s t u moves (kept_state t u (remove_link t id) changes.2 yields)
Reach-IsCoherent {s} {u} (link_replaced {t = t} r a b id attributes cost yields) h =
    let (coherent, moves) = Reach-IsCoherent r h in
    let changes = changes-IsCoherent t a b id attributes cost [] [] coherent in
    further s t u moves
      (kept_state t u (replace_link_between t a b id attributes cost) changes.3 yields)
Reach-IsCoherent {s} {u} (link_added {t = t} r a b id attributes cost e yields) h =
    let (coherent, moves) = Reach-IsCoherent r h in
    let changes = changes-IsCoherent t a b id attributes cost [] [] coherent in
    further s t u moves (reported_state t u e (add_link t a b id attributes cost) changes.4 yields)
Reach-IsCoherent {s} {u} (batch_applied {t = t} r removals additions e yields) h =
    let (coherent, moves) = Reach-IsCoherent r h in
    let changes = changes-IsCoherent t (v6 0) (v6 0) "" [] 0 removals additions coherent in
    further s t u moves
      (reported_state t u e (apply_link_batch t removals additions) changes.5 yields)
Reach-IsCoherent {s} {u} (routes_read {t = t} {gap = gap} r later a b hint routes miss yields) h =
    let (coherent, moves) = Reach-IsCoherent r h in
    let (coherent', moves') = Reach-IsCoherent later coherent in
    let reads = get_routes-Reads t gap a b hint coherent coherent' moves' miss in
    further s gap u (Moves-trans s t gap moves moves')
      (read_state (key_of a b hint) gap u routes (get_routes t gap a b hint) reads yields)

-- the answer to a call: all routes of the topology at the time of its last lock
abbrev pub answers_at : Option (List Route) → RouterInner → RouterInner → RouterInner
answers_at none t gap = gap
answers_at (some routes) t gap = t

-- A call of get_routes on a router that started empty always returns, whatever other calls came before
-- it and came between its two locks. Its list is complete for the topology at the time of its last
-- lock: for two different nodes, exactly the simple paths between them, each with the sum of its
-- links' costs as a u32 that saturates.
pub get_routes-AllRoutes :
    (t gap : RouterInner) (a b : IpAddr) (hint : Option RouteHint)
    → Reach new t
    → Reach t gap
    → (routes : List Route) × (u : RouterInner) × (get_routes t gap a b hint ≡ some (routes, u))
      × AllRoutes (answers_at (lookup (key_of a b hint) t.route_cache) t gap).topology a b routes
unfolding get_routes
get_routes-AllRoutes t gap a b hint reached later =
    let (coherent, _) = Reach-IsCoherent reached new-IsCoherent in
    let (coherent', moves) = Reach-IsCoherent later coherent in
    elim (Option-cases (lookup (key_of a b hint) t.route_cache)) [
      | inr (stored, found) ↦ (
        stored,
        t,
        rw (get_routes, found) refl,
        rw found (coherent.fresh (key_of a b hint) stored found),
      )
      | inl miss ↦
          let (routes, u, made, all) =
            read_answer (key_of a b hint) gap (get_routes t gap a b hint)
              (get_routes-Reads t gap a b hint coherent coherent' moves miss) in
          (routes, u, made, rw miss all)
    ]
