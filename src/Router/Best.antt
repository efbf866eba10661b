-- ===== src/Router/Best.antt =====
-- What the best route of a router is, whatever calls came before.
use zl_zpr_visaservice.Base.{
  String-HasEq, contains, String, ◌==◌, ◌≡◌, ◌≢◌, ◌⊎◌, some_inj, refl, sym, ap, ◌∙◌, true, List,
  Option, none, some, lookup, Option-cases, Bool-cases, inl, inr, eq_of_beq, beq_refl, is_some, ℕ,
}
use zl_zpr_visaservice.IpAddr.{IpAddr, IpAddr-HasEq}
use zl_zpr_visaservice.Eval.{Route, multihop}
use zl_zpr_visaservice.Graph.{Graph, Pair-HasEq, edges_of, has_node}
use zl_zpr_visaservice.Graph.Walks.{IsValid, Walk, stay, walk, Hop-near}
use zl_zpr_visaservice.Graph.Change.{get_low_cost_path}
use zl_zpr_visaservice.Graph.Change.Best.{get_low_cost_path-Answers}
use zl_zpr_visaservice.Graph.Change.Current.{IsCurrent}
use zl_zpr_visaservice.Graph.Dijkstra.Shortest.{Shortest}
use zl_zpr_visaservice.Router.{RouterInner, new}
use zl_zpr_visaservice.Router.Routes.{direct, hops, get_best_route}
use zl_zpr_visaservice.Router.Cache.Calls.{Reach, Reach-IsCoherent, new-IsCoherent}

-- a node is its own route; elsewhere the links of a walk of the least cost, or none where no walk is
abbrev pub Best : Graph → IpAddr → IpAddr → Option Route → Type 0
Best g a b none = (a ≢ b) × ¬ ((ls : List String) × (c : ℕ) × Walk g a b ls c)
Best g a b (some r) =
    ((a ≡ b) × (r ≡ direct a)) ⊎ ((a ≢ b) × (r.kind ≡ multihop) × Shortest g a b r.links r.cost)

pub Reach-IsCurrent : (s : RouterInner) → Reach new s → IsCurrent s.topology
Reach-IsCurrent s reached = (Reach-IsCoherent reached new-IsCoherent).0.current

-- a route that a router answers with
pub get_best_route-some :
    (s : RouterInner) (a b : IpAddr) (r : Route)
    → Reach new s
    → get_best_route s a b ≡ some r
    → Best s.topology a b (some r)
unfolding get_best_route get_low_cost_path
get_best_route-some s a b r reached is_r = elim (Bool-cases (a == b)) [
  | inl same ↦ inl (eq_of_beq a b same, sym (some_inj (rw (get_best_route, same) at is_r)))
  | inr other ↦ elim (Option-cases (get_low_cost_path s.topology a b)) [
    | inl nowhere ↦ absurd (cc (rw (get_best_route, other, nowhere) at is_r))
    | inr (path, found) ↦
        let same : hops path ≡ r = some_inj (rw (get_best_route, other, found) at is_r) in
        rw (← same) (
          inr (
            (λ is. cc (sym other ∙ ap (λ x. a == x) (sym is) ∙ beq_refl a)),
            refl,
            (Reach-IsCurrent s reached).best.sound (a, b) path found,
          ))
  ]
]

-- A router that started empty, whatever calls have changed it since, routes a node to itself directly,
-- and to another node over a walk along links of its present topology whose cost is the least of all
-- walks, shown as a u32; it has no route only where no walk is.
pub get_best_route-Best :
    (s : RouterInner) (a b : IpAddr)
    → Reach new s
    → has_node s.topology a ≡ true
    → Best s.topology a b (get_best_route s a b)
unfolding get_best_route
get_best_route-Best s a b reached node = elim (Bool-cases (a == b)) [
  | inl same ↦ rw same (inl (eq_of_beq a b same, refl))
  | inr other ↦
      let apart : a ≢ b = λ same. cc (sym other ∙ ap (λ x. a == x) (sym same) ∙ beq_refl a) in
      let answers =
        get_low_cost_path-Answers s.topology a b (Reach-IsCurrent s reached) node other in
      elim (Option-cases (get_low_cost_path s.topology a b)) [
        | inl nowhere ↦ rw (other, nowhere) (apart, rw nowhere at answers)
        | inr (path, found) ↦ rw (other, found) (inr (apart, refl, rw found at answers))
      ]
]

-- a walk that leaves a node starts at a node of the graph
Walk-first :
    (g : Graph)
    → IsValid g
    → {a b : IpAddr} {ls : List String} {c : ℕ} → Walk g a b ls c
    → (a ≡ b) ⊎ (has_node g a ≡ true)
Walk-first g valid stay = inl refl
Walk-first g valid {a} (walk {v} w id k u h) = elim (Walk-first g valid w) [
  | inr node ↦ inr node
  | inl same ↦ elim (Option-cases (lookup v g.nodes)) [
    | inl absent ↦
        absurd (cc (sym (Hop-near g valid v u id k h) ∙ ap (λ o. contains (edges_of o) id) absent))
    | inr (node, found) ↦ inr (ap (has_node g) same ∙ ap is_some found)
  ]
]

-- a router that finds a route wherever there is one
pub get_best_route-found :
    (s : RouterInner) (a b : IpAddr) (r : Route)
    → Reach new s
    → Best s.topology a b (some r)
    → (r' : Route) × (get_best_route s a b ≡ some r')
unfolding get_best_route
get_best_route-found s a b r reached (inl (same, _)) =
    (direct a, rw (get_best_route, ap (λ x. a == x) (sym same), beq_refl a) refl)
get_best_route-found s a b r reached (inr (apart, _, shortest)) =
    elim (Option-cases (get_best_route s a b)) [
      | inr found ↦ found
      | inl nowhere ↦ elim (Walk-first s.topology (Reach-IsCurrent s reached).valid shortest.way) [
        | inl same ↦ absurd (apart same)
        | inr node ↦
            let (_, no_walk) = rw nowhere at (get_best_route-Best s a b reached node) in
            absurd (no_walk (r.links, shortest.total, shortest.way))
      ]
    ]
