-- ===== src/Graph/Dijkstra/Shortest.antt =====
-- What the search from a node finds: to each node that can be reached, a walk of the least cost.
use zl_zpr_visaservice.Base.{
  ℕ, suc, ◌≤◌, String, String-HasEq, ◌==◌, ◌≡◌, refl, sym, ap, ◌∙◌, true, false, List, [], ◌∷◌,
  some, lookup, insert, lookup-insert, Map, Bool-cases, inl, inr, arith, some_inj, length, is_some,
  is_some-some, eq_of_beq, keys, contains, contains-keys, All, All-insert, ok,
}
use zl_zpr_visaservice.IpAddr.{IpAddr, IpAddr-HasEq}
use zl_zpr_visaservice.Graph.{Graph, has_node}
use zl_zpr_visaservice.Graph.Dijkstra.{
  Search, search, search_fuel, seed, trace, saturated, collect, dijkstra_from,
}
use zl_zpr_visaservice.Graph.Walks.{IsValid, Walk, stay, walk}
use zl_zpr_visaservice.Graph.Dijkstra.Tree.{Tree-Walk, Tree-le}
use zl_zpr_visaservice.Graph.Dijkstra.Relax.{Within, Inv}
use zl_zpr_visaservice.Graph.Dijkstra.Rounds.{seed-Inv, search-Inv}
use zl_zpr_visaservice.Graph.Dijkstra.Ends.{dijkstra_ends}
use zl_zpr_visaservice.Graph.Dijkstra.Chain.{trace-Tree}

-- a walk of the least cost, with its cost as a u32 holds it
pub record Shortest (g : Graph) (a b : IpAddr) (ls : List String) (c : ℕ) : Type 0 where
  pub total : ℕ
  pub way : Walk g a b ls total
  pub least : (ls' : List String) (c' : ℕ) → Walk g a b ls' c' → total ≤ c'
  pub shown : c ≡ saturated total

module _ (g : Graph) (valid : IsValid g) (start : IpAddr) where
  module _ (v : IpAddr) (s : Search) (h : Inv g start v [] s) (ended : s.heap ≡ []) where
    -- the distances are at most the costs of all walks
    near : {u : IpAddr} {ls : List String} {c : ℕ} → Walk g start u ls c → Within s.dist c u
    near stay = (0, h.at_start, omega arith)
    near (walk {v = x} w id k u hop) =
        let (d, at_x, le) = near w in
        elim (h.settled x d at_x) [
          | inl (i, waits) ↦ absurd (cc (rw ended at waits))
          | inr done ↦ elim (done id k u hop) [
            | inl (_, listed) ↦ absurd (cc listed)
            | inr (du, at_u, le_u) ↦ (du, at_u, omega arith)
          ]
        ]

    -- each node with a distance has a walk of that cost, which is found again
    reached :
        (u : IpAddr) (d : ℕ)
        → lookup u s.dist ≡ some d
        → (ls : List String) × (trace (suc (length s.prev)) g.edges s.prev u [] ≡ ok ls)
          × Shortest g start u ls (saturated d)
    reached u d at_u =
        let (ls, c, t) = h.tree u d at_u in
        let within = near (Tree-Walk t) in
        let same : d ≡ within.0 = some_inj (sym at_u ∙ within.1) in
        let exact : c ≡ d = omega (arith, Tree-le d t at_u) in
        (
          ls,
          trace-Tree g start valid s.dist s.prev h.no_prev t,
          record {
            total = c;
            way = Tree-Walk t;
            least = λ ls' c' w.
                let (d', at_u', le) = near w in
                let same' : d ≡ d' = some_inj (sym at_u ∙ at_u') in omega arith;
            shown = ap saturated (sym exact);
          },
        )

    abbrev IsShortest : IpAddr × (List String × ℕ) → Type 0
    IsShortest (b, r) = Shortest g start b r.0 r.1

    collected :
        (dests : List IpAddr)
        → ((b : IpAddr) → contains dests b ≡ true → is_some (lookup b s.dist) ≡ true)
        → (m : Map IpAddr (List String × ℕ)) × (collect g start s dests ≡ ok m)
          × All IsShortest m
          × ((b : IpAddr)
              → contains dests b ≡ true
              → (b == start) ≡ false
              → is_some (lookup b m) ≡ true)
    unfolding collect
    collected [] known = ([], refl, tt, λ b listed _. absurd (cc listed))
    collected (x ∷ dests) known =
        let (m, rest, sound, full) =
          collected dests (λ b listed. known b (ground (arith, listed))) in
        elim (Bool-cases (x == start)) [
          | inl same ↦ (
            m,
            rw (collect, same) rest,
            sound,
            λ b listed other. elim (Bool-cases (x == b)) [
              | inl is_b ↦
                  absurd (cc (sym other ∙ ap (λ y. y == start) (sym (eq_of_beq x b is_b)) ∙ same))
              | inr later ↦ full b (rw later at listed) other
            ],
          )
          | inr other ↦
              let (d, at_x) =
                is_some-some (lookup x s.dist)
                  (known x (rw ((IpAddr-HasEq.is_eq_iff x x).1 refl) refl)) in
              let (ls, traced, shortest) = reached x d at_x in
              (
                insert x (ls, saturated d) m,
                rw (collect, other, at_x, rest, traced) refl,
                All-insert IsShortest x (ls, saturated d) m sound shortest,
                λ b listed apart. elim (Bool-cases (x == b)) [
                  | inl same ↦ rw (lookup-insert x b (ls, saturated d) m, same) refl
                  | inr later ↦
                      rw (lookup-insert x b (ls, saturated d) m, later)
                        (full b (rw later at listed) apart)
                ],
              )
        ]

  pub dijkstra_from_lem :
      has_node g start ≡ true
      → (m : Map IpAddr (List String × ℕ)) × (dijkstra_from g start ≡ ok m)
        × All (λ e. Shortest g start e.0 e.1.0 e.1.1) m
        × ((b : IpAddr) (ls : List String) (c : ℕ)
            → Walk g start b ls c
            → (b == start) ≡ false
            → is_some (lookup b m) ≡ true)
  unfolding dijkstra_from
  dijkstra_from_lem node =
      let s = search (search_fuel g) g (seed start) in
      let ended = dijkstra_ends g valid start node in
      let (v, h) =
        search-Inv g valid start (search_fuel g) start (seed start) (seed-Inv g valid start node) in
      let (m, made, sound, full) =
        collected v s h ended (keys s.dist) (λ b listed. sym (contains-keys b s.dist) ∙ listed) in
      (
        m,
        made,
        sound,
        λ b ls c w other. full b (contains-keys b s.dist ∙ ap is_some (near v s h ended w).1) other,
      )
