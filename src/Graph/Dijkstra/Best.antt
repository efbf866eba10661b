-- ===== src/Graph/Dijkstra/Best.antt =====
-- The table of best routes after `recompute`.
use zl_zpr_visaservice.Base.{
  ℕ, String, String-HasEq, ◌==◌, ◌≡◌, refl, sym, ap, ◌∙◌, true, false, List, [], ◌∷◌, some, lookup,
  insert, lookup-insert, Map, Bool-cases, inl, inr, arith, some_inj, is_some, eq_of_beq, keys,
  contains, contains-keys, All, ok,
}
use zl_zpr_visaservice.IpAddr.{IpAddr, IpAddr-HasEq}
use zl_zpr_visaservice.Graph.{Graph, has_node, Pair-HasEq}
use zl_zpr_visaservice.Graph.Dijkstra.{Table, store_from, best_from, recompute}
use zl_zpr_visaservice.Graph.Walks.{IsValid, Walk}
use zl_zpr_visaservice.Graph.Dijkstra.Shortest.{Shortest, dijkstra_from_lem}

-- each route in the table is a shortest one
abbrev pub AllShortest : Graph → Table → Type 0
AllShortest g t =
    (k : IpAddr × IpAddr) (r : List String × ℕ) → lookup k t ≡ some r → Shortest g k.0 k.1 r.0 r.1

-- The table has a shortest route between any two different nodes that a walk joins, and no others.
pub record IsBest (g : Graph) (t : Table) : Type 0 where
  pub sound : AllShortest g t
  pub full :
      (a b : IpAddr) (ls : List String) (c : ℕ)
      → has_node g a ≡ true
      → Walk g a b ls c
      → (a == b) ≡ false
      → is_some (lookup (a, b) t) ≡ true

-- the routes in the table stay, or are replaced
abbrev Keeps : Table → Table → Type 0
Keeps t t' = (a b : IpAddr) → is_some (lookup (a, b) t) ≡ true → is_some (lookup (a, b) t') ≡ true

module _ (g : Graph) where
  insert-Keeps : (k : IpAddr × IpAddr) (r : List String × ℕ) (t : Table) → Keeps t (insert k r t)
  insert-Keeps k r t a b there = elim (Bool-cases (k == (a, b))) [
    | inl same ↦ rw (lookup-insert k (a, b) r t, same) refl
    | inr other ↦ rw (lookup-insert k (a, b) r t, other) there
  ]

  insert-AllShortest :
      (k : IpAddr × IpAddr) (r : List String × ℕ) (t : Table)
      → Shortest g k.0 k.1 r.0 r.1
      → AllShortest g t
      → AllShortest g (insert k r t)
  insert-AllShortest k r t new old q r' at_q = elim (Bool-cases (k == q)) [
    | inl same ↦
        let is_r : r ≡ r' = some_inj (rw (lookup-insert k q r t, same) at at_q) in
        rw (← is_r, ← eq_of_beq k q same) new
    | inr other ↦ old q r' (rw (lookup-insert k q r t, other) at at_q)
  ]

  stored :
      (start : IpAddr) (m : Map IpAddr (List String × ℕ)) (t : Table)
      → All (λ e. Shortest g start e.0 e.1.0 e.1.1) m
      → AllShortest g t
      → AllShortest g (store_from start m t)
        × Keeps t (store_from start m t)
        × ((b : IpAddr)
            → contains (keys m) b ≡ true
            → is_some (lookup (start, b) (store_from start m t)) ≡ true)
  stored start [] t h old = (old, λ a b there. there, λ b listed. absurd (cc listed))
  stored start ((dest, r) ∷ m) t h old =
      let (sound, keeps, full) =
        stored start m (insert (start, dest) r t) h.1
          (insert-AllShortest (start, dest) r t h.0 old) in
      (
        sound,
        λ a b there. keeps a b (insert-Keeps (start, dest) r t a b there),
        λ b listed. elim (Bool-cases (dest == b)) [
          | inl same ↦ keeps start b (
              rw
                (
                  lookup-insert (start, dest) (start, b) r t,
                  (IpAddr-HasEq.is_eq_iff start start).1 refl,
                  same,
                )
                refl)
          | inr other ↦ full b (rw other at listed)
        ],
      )

  module _ (valid : IsValid g) where
    best_from_lem :
        (ns : List IpAddr) (t : Table)
        → ((n : IpAddr) → contains ns n ≡ true → has_node g n ≡ true)
        → AllShortest g t
        → (t' : Table) × (best_from g ns t ≡ ok t')
          × AllShortest g t'
          × Keeps t t'
          × ((a b : IpAddr) (ls : List String) (c : ℕ)
              → contains ns a ≡ true
              → Walk g a b ls c
              → (b == a) ≡ false
              → is_some (lookup (a, b) t') ≡ true)
    unfolding best_from
    best_from_lem [] t nodes old =
        (t, refl, old, λ a b there. there, λ a b ls c listed w other. absurd (cc listed))
    best_from_lem (n ∷ ns) t nodes old =
        let (m, made, short, all) =
          dijkstra_from_lem g valid n (nodes n (rw ((IpAddr-HasEq.is_eq_iff n n).1 refl) refl)) in
        let (sound, keeps, full) = stored n m t short old in
        let (t', made', sound', keeps', full') =
          best_from_lem ns (store_from n m t) (λ a listed. nodes a (ground (arith, listed)))
            sound in
        (
          t',
          rw (best_from, made) made',
          sound',
          λ a b there. keeps' a b (keeps a b there),
          λ a b ls c listed w other. elim (Bool-cases (n == a)) [
            | inl same ↦
                let is_a : n ≡ a = eq_of_beq n a same in
                keeps' a b (
                  rw (← is_a) (full b (contains-keys b m ∙ all b ls c (rw is_a w) (rw is_a other))))
            | inr later ↦ full' a b ls c (rw later at listed) w other
          ],
        )

    -- the table is made, without a panic, and is the best one
    pub recompute_lem : (t : Table) × (recompute g ≡ ok (record g { best_routes = t })) × IsBest g t
    unfolding recompute lookup
    recompute_lem =
        let (t, made, sound, keeps, full) =
          best_from_lem (keys g.nodes) [] (λ n listed. sym (contains-keys n g.nodes) ∙ listed)
            (λ k r absent. absurd (cc absent)) in
        (
          t,
          rw (recompute, made) refl,
          record {
            sound = sound;
            full = λ a b ls c node w other.
                full a b ls c (contains-keys a g.nodes ∙ node) w (elim (Bool-cases (b == a)) [
                  | inl same ↦ absurd (
                      cc (
                        sym other
                        ∙ ap (λ x. a == x) (eq_of_beq b a same)
                        ∙ (IpAddr-HasEq.is_eq_iff a a).1 refl))
                  | inr apart ↦ apart
                ]);
          },
        )
