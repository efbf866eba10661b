-- ===== src/Router/Paths.antt =====
-- The best route leads from node to node.
use zl_zpr_visaservice.Base.{
  ℕ, String, String-HasEq, ◌==◌, ◌≡◌, refl, sym, ap, ◌∙◌, List, [], ◌∷◌, ◌++◌, some, lookup,
  Bool-cases, Option-cases, inl, inr, arith, some_inj, length, length-append, eq_of_beq, beq_refl,
  ok, ◌>>=◌, ok-of_chain, ok_inj,
}
use zl_zpr_visaservice.IpAddr.{IpAddr, IpAddr-HasEq}
use zl_zpr_visaservice.Eval.{Route}
use zl_zpr_visaservice.Graph.{Graph, Pair-HasEq}
use zl_zpr_visaservice.Graph.Change.{get_low_cost_path}
use zl_zpr_visaservice.Graph.Walks.{IsValid, Hop, Hop-far, Walk, stay, walk}
use zl_zpr_visaservice.Graph.Change.Current.{IsCurrent}
use zl_zpr_visaservice.Router.{RouterInner}
use zl_zpr_visaservice.Router.Routes.{
  cross, follow_links, route_to_path, direct, hops, get_best_route,
}

-- the last node of a path from a node
abbrev pub last_of : IpAddr → List IpAddr → IpAddr
last_of n [] = n
last_of n (m ∷ ms) = last_of m ms

follow_links-append :
    (g : Graph) (id : String) (next : IpAddr) (ls : List String) (n : IpAddr) (ns : List IpAddr)
    → follow_links g ls n ≡ ok ns
    → cross (lookup id g.edges) (last_of n ns) ≡ ok next
    → follow_links g (ls ++ (id ∷ [])) n ≡ ok (ns ++ (next ∷ []))
unfolding follow_links
follow_links-append g id next [] n [] h last = rw last refl
follow_links-append g id next [] n (m ∷ ms) h last = absurd (ground (arith, h))
follow_links-append g id next (l ∷ ls) n ns h last =
    let (m, crossed, rest) =
      ok-of_chain (cross (lookup l g.edges) n) (λ m. follow_links g ls m >>= λ r. ok (m ∷ r)) h in
    let (ms, followed, made) = ok-of_chain (follow_links g ls m) (λ r. ok (m ∷ r)) rest in
    let is_ns : m ∷ ms ≡ ns = ok_inj made in
    let last' : cross (lookup id g.edges) (last_of m ms) ≡ ok next = rw (← is_ns) at last in
    rw (← is_ns) (rw crossed (rw (follow_links-append g id next ls m ms followed last') refl))

last_of-append : (n next : IpAddr) (ns : List IpAddr) → last_of n (ns ++ (next ∷ [])) ≡ next
last_of-append n next [] = refl
last_of-append n next (m ∷ ns) = last_of-append m next ns

-- a hop is crossed to its far end
cross-Hop :
    (g : Graph)
    → IsValid g
    → (u v : IpAddr) (id : String) (w : ℕ) → Hop g u id w v
    → cross (lookup id g.edges) u ≡ ok v
cross-Hop g valid u v id w h = rw h.found (elim (Bool-cases (h.link.a == u)) [
  | inl at_a ↦ rw at_a (ap ok (rw at_a at (Hop-far g valid u v id w h)))
  | inr not_a ↦ elim h.ends [
    | inl (is_a, _) ↦ absurd (cc (sym not_a ∙ ap (λ x. x == u) is_a ∙ beq_refl u))
    | inr (is_b, is_v) ↦ rw not_a (rw (is_b, beq_refl u) (ap ok is_v))
  ]
])

follow_links-Walk :
    (g : Graph)
    → IsValid g
    → (a : IpAddr) {b : IpAddr} {ls : List String} {c : ℕ} → Walk g a b ls c
    → (ns : List IpAddr) × (follow_links g ls a ≡ ok ns)
      × (last_of a ns ≡ b)
      × (length ns ≡ length ls)
unfolding follow_links
follow_links-Walk g valid a stay = ([], refl, refl, refl)
follow_links-Walk g valid a (walk {v} {ls} w id k u h) =
    let (ns, followed, last, same) = follow_links-Walk g valid a w in
    (
      ns ++ (u ∷ []),
      follow_links-append g id u ls a ns followed
          (ap (cross (lookup id g.edges)) last ∙ cross-Hop g valid v u id k h),
      last_of-append a u ns,
      omega (arith, length-append ns (u ∷ []), length-append ls (id ∷ [])),
    )

-- The best route between two nodes becomes a path without an error: from the one node over as many
-- others as the route has links, the last of which is the other node.
pub route_to_path-get_best_route :
    (s : RouterInner) (a b : IpAddr) (r : Route)
    → IsCurrent s.topology
    → get_best_route s a b ≡ some r
    → (ns : List IpAddr) × (route_to_path s r a ≡ ok (a ∷ ns))
      × (last_of a ns ≡ b)
      × (length ns ≡ length r.links)
unfolding route_to_path get_best_route get_low_cost_path
route_to_path-get_best_route s a b r current best = elim (Bool-cases (a == b)) [
  | inl same ↦
      let is_r : direct a ≡ r = some_inj (rw (get_best_route, same) at best) in
      rw (← is_r) ([], rw (beq_refl a) refl, eq_of_beq a b same, refl)
  | inr other ↦ elim (Option-cases (lookup (a, b) s.topology.best_routes)) [
    | inl unreached ↦ absurd (cc (rw (get_best_route, other, unreached) at best))
    | inr (path, found) ↦
        let is_r : hops path ≡ r = some_inj (rw (get_best_route, other, found) at best) in
        let shortest = current.best.sound (a, b) path found in
        let (ns, followed, last, same) =
          follow_links-Walk s.topology current.valid a shortest.way in
        rw (← is_r) (ns, rw followed refl, last, same)
  ]
]
