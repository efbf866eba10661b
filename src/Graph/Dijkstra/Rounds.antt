-- ===== src/Graph/Dijkstra/Rounds.antt =====
-- The rounds of a search: an entry of the heap is taken, and its node expanded unless it is stale.
use zl_zpr_visaservice.Base.{
  ℕ, zero, suc, ◌<◌, ℕ-HasEq, String-HasEq, ◌==◌, ◌≡◌, ◌⊎◌, refl, sym, ap, ◌∙◌, true, List, [], ◌∷◌,
  some, lookup, Bool-cases, List-cases, inl, inr, arith, some_inj, Among, Among-head, Among-tail,
  Among-cons, beq_refl, ltb,
}
use zl_zpr_visaservice.IpAddr.{IpAddr, IpAddr-HasEq}
use zl_zpr_visaservice.Graph.{Graph, has_node, edges_of}
use zl_zpr_visaservice.Graph.Dijkstra.{Search, pop_min, entry_leb, expand, search, seed}
use zl_zpr_visaservice.Graph.Walks.{IsValid, Hop-near}
use zl_zpr_visaservice.Graph.Dijkstra.Tree.{root}
use zl_zpr_visaservice.Graph.Dijkstra.Relax.{Inv, pair_inj, relax_all-Inv}

abbrev pub Entry : Type 0
Entry = ℕ × IpAddr

-- what is taken and what is left are the entries of the heap
Among-pop_min :
    (e x : Entry) (xs : List Entry)
    → Among e (x ∷ xs)
    → (e ≡ (pop_min x xs).0) ⊎ Among e (pop_min x xs).1
unfolding pop_min
Among-pop_min e x [] m = elim (Among-cons e x [] m) [
  | inl same ↦ inl (sym same)
  | inr later ↦ inr later
]
Among-pop_min e x (y ∷ ys) m = elim (Bool-cases (entry_leb x (pop_min y ys).0)) [
  | inl first ↦ rw first (elim (Among-cons e x (y ∷ ys) m) [
    | inl same ↦ inl (sym same)
    | inr later ↦ elim (Among-pop_min e y ys later) [
      | inl least ↦ inr (rw least (Among-head (pop_min y ys).0 (pop_min y ys).1))
      | inr others ↦ inr (Among-tail e (pop_min y ys).0 (pop_min y ys).1 others)
    ]
  ])
  | inr second ↦ rw second (elim (Among-cons e x (y ∷ ys) m) [
    | inl same ↦ inr (rw (← same) (Among-head x (pop_min y ys).1))
    | inr later ↦ elim (Among-pop_min e y ys later) [
      | inl least ↦ inl least
      | inr others ↦ inr (Among-tail e x (pop_min y ys).1 others)
    ]
  ])
]

pub pop_min-Among :
    (e x : Entry) (xs : List Entry)
    → (e ≡ (pop_min x xs).0) ⊎ Among e (pop_min x xs).1
    → Among e (x ∷ xs)
unfolding pop_min
pop_min-Among e x [] (inl same) = rw same (Among-head x [])
pop_min-Among e x [] (inr later) = Among-tail e x [] later
pop_min-Among e x (y ∷ ys) m = elim (Bool-cases (entry_leb x (pop_min y ys).0)) [
  | inl first ↦ elim (rw first at m) [
    | inl same ↦ rw same (Among-head x (y ∷ ys))
    | inr later ↦ Among-tail e x (y ∷ ys) (
        pop_min-Among e y ys (elim (Among-cons e (pop_min y ys).0 (pop_min y ys).1 later) [
          | inl least ↦ inl (sym least)
          | inr others ↦ inr others
        ]))
  ]
  | inr second ↦ elim (rw second at m) [
    | inl least ↦ Among-tail e x (y ∷ ys) (pop_min-Among e y ys (inl least))
    | inr later ↦ elim (Among-cons e x (pop_min y ys).1 later) [
      | inl same ↦ rw (← same) (Among-head x (y ∷ ys))
      | inr others ↦ Among-tail e x (y ∷ ys) (pop_min-Among e y ys (inr others))
    ]
  ]
]

module _ (g : Graph) (valid : IsValid g) (start : IpAddr) where
  pub seed-Inv : has_node g start ≡ true → Inv g start start [] (seed start)
  unfolding lookup
  seed-Inv node =
      let only : (x : IpAddr) (d : ℕ)
          → lookup x ((start, 0) ∷ []) ≡ some d
          → (start ≡ x) × (0 ≡ d) =
        λ x d at_x. elim (Bool-cases (start == x)) [
          | inl same ↦ ((IpAddr-HasEq.is_eq_iff start x).0 same, some_inj (rw same at at_x))
          | inr other ↦ absurd (cc (rw other at at_x))
        ] in
      record {
        at_start = rw (beq_refl start) refl;
        no_prev = refl;
        known = λ x d at_x. rw (← (only x d at_x).0) node;
        tree = λ x d at_x. ([], 0, rw (← (only x d at_x).0) root);
        queued = λ x c m. elim (Among-cons (c, x) (0, start) [] m) [
          | inl same ↦
              let (same_c, same_x) = pair_inj same in
              (0, rw (← same_x) (rw (beq_refl start) refl), omega arith)
          | inr later ↦ absurd (cc (later.1))
        ];
        settled = λ x d at_x.
            let (same_x, same_d) = only x d at_x in
            inl (rw (← same_x, ← same_d) (Among-head (0, start) []));
      }

  -- an entry is taken whose cost is the distance of its node
  popped-Inv :
      (u v : IpAddr) (s : Search) (x : Entry) (xs : List Entry) (d : ℕ)
      → Inv g start v [] s
      → s.heap ≡ x ∷ xs
      → (pop_min x xs).0 ≡ (d, u)
      → Inv g start u (edges_of (lookup u g.nodes)) (record s { heap = (pop_min x xs).1 })
  popped-Inv u v s x xs d h heap top = record {
    at_start = h.at_start;
    no_prev = h.no_prev;
    known = h.known;
    tree = h.tree;
    queued = λ y c m. h.queued y c (rw heap (pop_min-Among (c, y) x xs (inr m)));
    settled = λ y dy at_y. elim (h.settled y dy at_y) [
      | inl waits ↦ elim (Among-pop_min (dy, y) x xs (rw heap at waits)) [
        | inr left ↦ inl left
        | inl taken ↦
            let is_u : y ≡ u = (pair_inj (taken ∙ top)).1 in
            inr (λ id w z hop. inl (is_u, Hop-near g valid u z id w (rw (← is_u) hop)))
      ]
      | inr done ↦ inr (λ id w z hop. elim (done id w z hop) [
        | inl (_, listed) ↦ absurd (cc listed)
        | inr near ↦ inr near
      ])
    ];
  }

  -- a stale entry is taken
  dropped-Inv :
      (u v : IpAddr) (s : Search) (x : Entry) (xs : List Entry) (c d : ℕ)
      → Inv g start v [] s
      → s.heap ≡ x ∷ xs
      → (pop_min x xs).0 ≡ (c, u)
      → lookup u s.dist ≡ some d
      → d < c
      → Inv g start u [] (record s { heap = (pop_min x xs).1 })
  dropped-Inv u v s x xs c d h heap top at_u less = record {
    at_start = h.at_start;
    no_prev = h.no_prev;
    known = h.known;
    tree = h.tree;
    queued = λ y b m. h.queued y b (rw heap (pop_min-Among (b, y) x xs (inr m)));
    settled = λ y dy at_y. elim (h.settled y dy at_y) [
      | inl waits ↦ elim (Among-pop_min (dy, y) x xs (rw heap at waits)) [
        | inr left ↦ inl left
        | inl taken ↦
            let (is_c, is_u) = pair_inj (taken ∙ top) in
            let same : d ≡ dy = some_inj (sym at_u ∙ ap (λ z. lookup z s.dist) (sym is_u) ∙ at_y) in
            absurd (omega arith)
      ]
      | inr done ↦ inr (λ id w z hop. elim (done id w z hop) [
        | inl (_, listed) ↦ absurd (cc listed)
        | inr near ↦ inr near
      ])
    ];
  }

  pub round-Inv :
      (v : IpAddr) (s : Search) (x : Entry) (xs : List Entry)
      → Inv g start v [] s
      → s.heap ≡ x ∷ xs
      → Inv g start
          (pop_min x xs).0.1
          []
          (expand g (pop_min x xs).0 (record s { heap = (pop_min x xs).1 }))
  unfolding expand
  round-Inv v s x xs h heap =
      let c = (pop_min x xs).0.0 in
      let u = (pop_min x xs).0.1 in
      let (d, at_u, le) = h.queued u c (rw heap (pop_min-Among (pop_min x xs).0 x xs (inl refl))) in
      elim (Bool-cases (ltb d c)) [
        | inl late ↦
            rw (expand, at_u, late)
              (dropped-Inv u v s x xs c d h heap refl at_u (ground (arith, late)))
        | inr timely ↦
            let same : d ≡ c = ground (arith, timely) in
            rw (expand, at_u, timely)
              (relax_all-Inv g valid start u (edges_of (lookup u g.nodes))
                (record s { heap = (pop_min x xs).1 }) c (λ id listed. listed)
                (popped-Inv u v s x xs c h heap refl) (at_u ∙ ap some same))
      ]

  pub search-Inv :
      (fuel : ℕ) (v : IpAddr) (s : Search)
      → Inv g start v [] s
      → (u : IpAddr) × Inv g start u [] (search fuel g s)
  unfolding search
  search-Inv zero v s h = (v, h)
  search-Inv (suc fuel) v s h = elim (List-cases s.heap) [
    | inl empty ↦ rw (search, empty) (v, h)
    | inr (x, xs, heap) ↦
        rw (search, heap)
          (search-Inv fuel (pop_min x xs).0.1
            (expand g (pop_min x xs).0 (record s { heap = (pop_min x xs).1 }))
            (round-Inv v s x xs h heap))
  ]
