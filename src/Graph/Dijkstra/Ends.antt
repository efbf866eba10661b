-- ===== src/Graph/Dijkstra/Ends.antt =====
-- A search ends with an empty heap: distances only fall, and have a common bound.
use native.Mathlib.Nat.{mul-le-mul_left, mul-suc, suc-mul}
use zl_zpr_visaservice.Base.{
  ℕ, zero, suc, ◌+◌, ◌*◌, ◌≤◌, ◌<◌, ℕ-HasEq, String, String-HasEq, ◌==◌, ◌≡◌, refl, ap, true, List,
  [], ◌∷◌, some, lookup, insert, lookup-insert, Map, Bool-cases, Option-cases, List-cases, inl, inr,
  arith, some_inj, length, ltb, beq_refl, contains,
}
use zl_zpr_visaservice.IpAddr.{IpAddr, IpAddr-HasEq}
use zl_zpr_visaservice.Graph.{Graph, Node, has_node, edges_of, far_end}
use zl_zpr_visaservice.Graph.Dijkstra.{
  Search, closer, offer, relax, relax_all, pop_min, entry_leb, expand, search, seed, max_cost,
  search_fuel,
}
use zl_zpr_visaservice.Graph.Dijkstra.Bounds.{
  cost-le, seen, value, total, seen-le-length, seen-insert, seen-insert_new, total-lt,
}
use zl_zpr_visaservice.Graph.Dijkstra.Relax.{Inv}
use zl_zpr_visaservice.Graph.Dijkstra.Rounds.{pop_min-Among, seed-Inv, round-Inv}
use zl_zpr_visaservice.Graph.Walks.{IsValid, has_edge, far_end-Hop, Hop-node}

-- above every distance
abbrev top : Graph → ℕ
top g = max_cost g.edges * length g.nodes + 1

-- a distance is at most the largest cost times the number of nodes that are known
abbrev pub reach : Graph → Search → ℕ
reach g s = max_cost g.edges * seen s.dist g.nodes

abbrev pub IsBounded : Graph → Search → Type 0
IsBounded g s = (x : IpAddr) (d : ℕ) → lookup x s.dist ≡ some d → d ≤ reach g s

abbrev pub work : Graph → Search → ℕ
work g s = 2 * total (top g) s.dist g.nodes + length s.heap

module _ (g : Graph) where
  offer_bounds :
      (c : ℕ) (v : IpAddr) (id : String) (s : Search)
      → IsBounded g s
      → has_node g v ≡ true
      → c ≤ max_cost g.edges * seen s.dist g.nodes + max_cost g.edges
      → IsBounded g (offer c v id s)
        × (work g (offer c v id s) ≤ work g s)
        × (reach g s ≤ reach g (offer c v id s))
  unfolding offer
  offer_bounds c v id s bound node le = elim (Bool-cases (closer c (lookup v s.dist))) [
    | inr no_nearer ↦ rw (offer, no_nearer) (bound, omega arith, omega arith)
    | inl nearer ↦
        let m = max_cost g.edges in
        let before = seen s.dist g.nodes in
        let after = seen (insert v c s.dist) g.nodes in
        let grows : m * before ≤ m * after = mul-le-mul_left m (seen-insert v c s.dist g.nodes) in
        let most : m * after ≤ m * length g.nodes =
          mul-le-mul_left m (seen-le-length (insert v c s.dist) g.nodes) in
        let (near, less) : (c ≤ m * after) × (c < value (top g) (lookup v s.dist)) =
          elim (Option-cases (lookup v s.dist)) [
            | inl new ↦
                let step : m * suc before ≤ m * after =
                  mul-le-mul_left m (seen-insert_new v c s.dist g.nodes node new) in
                rw new (omega (arith, mul-suc m before), omega (arith, mul-suc m before))
            | inr (d, at_v) ↦
                let shorter : closer c (some d) ≡ true = rw at_v at nearer in
                let old : d ≤ m * before = bound v d at_v in
                rw at_v (ground (arith, shorter, old, grows), ground (arith, shorter))
          ] in
        let falls = total-lt (top g) v c s.dist g.nodes node less in
        rw (offer, nearer)
          (
            λ x d at_x. elim (Bool-cases (v == x)) [
              | inl same ↦
                  let is_c : c ≡ d = some_inj (rw (lookup-insert v x c s.dist, same) at at_x) in
                  omega (arith, is_c, near)
              | inr other ↦
                  let old = bound x d (rw (lookup-insert v x c s.dist, other) at at_x) in
                  omega (arith, old, grows)
            ],
            omega (arith, falls),
            grows,
          )
  ]

  module _ (valid : IsValid g) (u : IpAddr) where
    relax_bounds :
        (d : ℕ) (id : String) (s : Search)
        → has_edge g u id ≡ true
        → IsBounded g s
        → d ≤ reach g s
        → IsBounded g (relax g d u id s)
          × (work g (relax g d u id s) ≤ work g s)
          × (d ≤ reach g (relax g d u id s))
    unfolding relax
    relax_bounds d id s near bound le =
        let (link, found, _) = valid.named u id near in
        let hop = far_end-Hop g valid u id link found near in
        let step : d + link.cost ≤ reach g s + max_cost g.edges =
          omega (arith, cost-le id link g.edges found) in
        let (bound', falls, grows) =
          offer_bounds (d + link.cost) (far_end link u) id s bound
            (Hop-node g valid u (far_end link u) id link.cost hop) step in
        rw (relax, found) (bound', falls, omega arith)

    relax_all_bounds :
        (d : ℕ) (ids : List String) (s : Search)
        → ((id : String) → contains ids id ≡ true → has_edge g u id ≡ true)
        → IsBounded g s
        → d ≤ reach g s
        → IsBounded g (relax_all g d u ids s) × (work g (relax_all g d u ids s) ≤ work g s)
    unfolding relax_all
    relax_all_bounds d [] s near bound le = (bound, omega arith)
    relax_all_bounds d (id ∷ ids) s near bound le =
        let (bound1, falls1, le1) =
          relax_bounds d id s (near id (rw (beq_refl id) refl)) bound le in
        let (bound2, falls2) =
          relax_all_bounds d ids (relax g d u id s) (λ i listed. near i (ground (arith, listed)))
            bound1 le1 in
        (bound2, omega arith)

    expand_bounds :
        (c d : ℕ) (s : Search)
        → IsBounded g s
        → lookup u s.dist ≡ some d
        → IsBounded g (expand g (c, u) s) × (work g (expand g (c, u) s) ≤ work g s)
    unfolding expand
    expand_bounds c d s bound at_u = elim (Bool-cases (ltb d c)) [
      | inl late ↦ rw (expand, at_u, late) (bound, omega arith)
      | inr timely ↦
          let no_more : c ≤ d = ground (arith, timely) in
          rw (expand, at_u, timely)
            (relax_all_bounds c (edges_of (lookup u g.nodes)) s (λ id listed. listed) bound
              (omega (arith, bound u d at_u)))
    ]

  length-popped : (x : ℕ × IpAddr) (xs : List (ℕ × IpAddr)) → length (pop_min x xs).1 ≡ length xs
  unfolding pop_min
  length-popped x [] = refl
  length-popped x (y ∷ ys) = elim (Bool-cases (entry_leb x (pop_min y ys).0)) [
    | inl first ↦ rw first (omega (arith, length-popped y ys))
    | inr second ↦ rw second (omega (arith, length-popped y ys))
  ]

  pub search_ends :
      (valid : IsValid g) (start : IpAddr) (fuel : ℕ) (v : IpAddr) (s : Search)
      → Inv g start v [] s
      → IsBounded g s
      → work g s < fuel
      → (search fuel g s).heap ≡ []
  unfolding search
  search_ends valid start zero v s h bound le = absurd (omega arith)
  search_ends valid start (suc fuel) v s h bound le = elim (List-cases s.heap) [
    | inl empty ↦ rw (search, empty) empty
    | inr (x, xs, heap) ↦
        let s' = record s { heap = (pop_min x xs).1 } in
        let (c, u) = (pop_min x xs).0 in
        let (d, at_u, _) =
          h.queued u c (rw heap (pop_min-Among (pop_min x xs).0 x xs (inl refl))) in
        let (bound', falls) = expand_bounds valid u c d s' bound at_u in
        let fewer : length s.heap ≡ suc (length xs) = ap length heap in
        rw (search, heap)
          (search_ends valid start fuel u (expand g (pop_min x xs).0 s')
            (round-Inv g valid start v s x xs h heap) bound' (omega (arith, length-popped x xs)))
  ]

  -- the first state of a search
  total-seed :
      (start : IpAddr) (ns : Map IpAddr Node)
      → total (top g) ((start, 0) ∷ []) ns ≤ length ns * top g
  unfolding lookup
  total-seed start [] = omega arith
  total-seed start ((n, x) ∷ ns) =
      let rest = total-seed start ns in
      elim (Bool-cases (start == n)) [
        | inl same ↦ rw same (omega (arith, rest))
        | inr other ↦ rw other (omega (arith, rest, suc-mul (length ns) (top g)))
      ]

  pub dijkstra_ends :
      (valid : IsValid g) (start : IpAddr)
      → has_node g start ≡ true
      → (search (search_fuel g) g (seed start)).heap ≡ []
  unfolding lookup
  dijkstra_ends valid start node =
      search_ends valid start (search_fuel g) start (seed start) (seed-Inv g valid start node)
        (λ x d at_x. elim (Bool-cases (start == x)) [
          | inl same ↦ let zero_d : 0 ≡ d = some_inj (rw same at at_x) in omega (arith, zero_d)
          | inr other ↦ absurd (cc (rw other at at_x))
        ])
        (omega (arith, total-seed start g.nodes))
