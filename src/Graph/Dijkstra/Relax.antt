-- ===== src/Graph/Dijkstra/Relax.antt =====
-- The invariant of a search, which the relaxation of a node's links keeps.
use zl_zpr_visaservice.Base.{
  ℕ, ◌+◌, ◌≤◌, String, String-HasEq, ◌==◌, ◌≡◌, ◌⊎◌, refl, sym, ap, ◌∙◌, true, false, List, [], ◌∷◌,
  ◌++◌, none, some, lookup, insert, lookup-insert, Map, Bool-cases, Option-cases, inl, inr, arith,
  some_inj, beq_refl, eq_of_beq, contains, Among, Among-head, Among-tail, Among-cons,
}
use zl_zpr_visaservice.IpAddr.{IpAddr, IpAddr-HasEq}
use zl_zpr_visaservice.Graph.{Graph, far_end, has_node}
use zl_zpr_visaservice.Graph.Dijkstra.{Search, closer, offer, relax, relax_all}
use zl_zpr_visaservice.Graph.Walks.{IsValid, has_edge, Hop, far_end-Hop, Hop-unique, Hop-node}
use zl_zpr_visaservice.Graph.Dijkstra.Tree.{Tree, below, rerouted, moved, fallen}

-- a node is known to be no farther than that
abbrev pub Within : Map IpAddr ℕ → ℕ → IpAddr → Type 0
Within dist b v = (d : ℕ) × (lookup v dist ≡ some d) × (d ≤ b)

-- While the node `u` is expanded, `rest` are the links that are still to be relaxed; between two nodes
-- there are none.
pub record Inv (g : Graph) (start u : IpAddr) (rest : List String) (s : Search) : Type 0 where
  pub at_start : lookup start s.dist ≡ some 0
  pub no_prev : lookup start s.prev ≡ none
  pub known : (x : IpAddr) (d : ℕ) → lookup x s.dist ≡ some d → has_node g x ≡ true
  pub tree :
      (x : IpAddr) (d : ℕ)
      → lookup x s.dist ≡ some d
      → (ls : List String) × (c : ℕ) × Tree g start s.dist s.prev x ls c
  pub queued : (x : IpAddr) (c : ℕ) → Among (c, x) s.heap → Within s.dist c x
  pub settled :
      (x : IpAddr) (d : ℕ)
      → lookup x s.dist ≡ some d
      → Among (d, x) s.heap
        ⊎ ((id : String) (w : ℕ) (v : IpAddr)
            → Hop g x id w v
            → ((x ≡ u) × (contains rest id ≡ true)) ⊎ Within s.dist (d + w) v)

pub pair_inj : {c d : ℕ} {x y : IpAddr} → ◌≡◌ {A = ℕ × IpAddr} (c, x) (d, y) → (c ≡ d) × (x ≡ y)
pair_inj h = (ap (λ p. p.0) h, ap (λ p. p.1) h)

module _ (g : Graph) (valid : IsValid g) (start u : IpAddr) where
  -- a link that leads no nearer
  skipped :
      (id : String) (rest : List String) (s : Search) (d w : ℕ) (v : IpAddr)
      → Inv g start u (id ∷ rest) s
      → lookup u s.dist ≡ some d
      → Hop g u id w v
      → closer (d + w) (lookup v s.dist) ≡ false
      → Inv g start u rest s
  skipped id rest s d w v h at_u hop far =
      let within : Within s.dist (d + w) v = elim (Option-cases (lookup v s.dist)) [
        | inl unknown ↦ absurd (cc (rw unknown at far))
        | inr (dv, at_v) ↦
            let no_less : closer (d + w) (some dv) ≡ false = rw at_v at far in
            (dv, at_v, ground (arith, no_less))
      ] in
      record {
        at_start = h.at_start;
        no_prev = h.no_prev;
        known = h.known;
        tree = h.tree;
        queued = h.queued;
        settled = λ x dx at_x. elim (h.settled x dx at_x) [
          | inl waits ↦ inl waits
          | inr done ↦ inr (λ i wi y hi. elim (done i wi y hi) [
            | inr near ↦ inr near
            | inl (is_u, listed) ↦ elim (Bool-cases (id == i)) [
              | inl same ↦
                  let is_id : id ≡ i = eq_of_beq id i same in
                  let at_u' : Hop g u id wi y = rw (← is_u) (rw is_id hi) in
                  let (same_w, same_v) = Hop-unique g valid u v y id w wi hop at_u' in
                  let same_d : d ≡ dx =
                    some_inj (sym at_u ∙ ap (λ z. lookup z s.dist) (sym is_u) ∙ at_x) in
                  inr (rw (← same_w, ← same_v, ← same_d) within)
              | inr other ↦ inl (is_u, rw other at listed)
            ]
          ])
        ];
      }

  -- a link that leads nearer
  taken :
      (id : String) (rest : List String) (s : Search) (d w : ℕ) (v : IpAddr)
      → Inv g start u (id ∷ rest) s
      → lookup u s.dist ≡ some d
      → Hop g u id w v
      → closer (d + w) (lookup v s.dist) ≡ true
      → Inv g start u rest (record {
        dist = insert v (d + w) s.dist;
        prev = insert v id s.prev;
        heap = (d + w, v) ∷ s.heap;
      })
  taken id rest s d w v h at_u hop near =
      let dist' : Map IpAddr ℕ = insert v (d + w) s.dist in
      let at_v : lookup v dist' ≡ some (d + w) =
        rw (lookup-insert v v (d + w) s.dist, beq_refl v) refl in
      let falls = fallen g start s.dist s.prev u v id w d h.at_start hop at_u near in
      let not_start : (v == start) ≡ false = elim (Bool-cases (v == start)) [
        | inl same ↦
            let zero_at : lookup v s.dist ≡ some 0 =
              ap (λ x. lookup x s.dist) (eq_of_beq v start same) ∙ h.at_start in
            let less : closer (d + w) (some 0) ≡ true = rw zero_at at near in
            absurd (ground (arith, less))
        | inr other ↦ other
      ] in
      let (lu, cu, tu) = h.tree u d at_u in
      let within : (b : ℕ) (y : IpAddr) → Within s.dist b y → Within dist' b y =
        λ b y old. let (d', at_y, le) = falls y old.0 old.1 in (d', at_y, omega (arith, old.2)) in
      record {
        at_start = rw (lookup-insert v start (d + w) s.dist, not_start) h.at_start;
        no_prev = rw (lookup-insert v start id s.prev, not_start) h.no_prev;
        known = λ x dx at_x. elim (Bool-cases (v == x)) [
          | inl same ↦ rw (← eq_of_beq v x same) (Hop-node g valid u v id w hop)
          | inr other ↦ h.known x dx (rw (lookup-insert v x (d + w) s.dist, other) at at_x)
        ];
        tree = λ x dx at_x. elim (Bool-cases (v == x)) [
          | inl same ↦ (
            lu ++ (id ∷ []),
            cu + w,
            rw (← eq_of_beq v x same)
                (rerouted g start s.dist s.prev u v id w d h.at_start hop at_u near lu cu tu),
          )
          | inr other ↦
              let (lx, cx, tx) =
                h.tree x dx (rw (lookup-insert v x (d + w) s.dist, other) at at_x) in
              moved g start s.dist s.prev u v id w d h.at_start hop at_u near lu cu tu tx
        ];
        queued = λ x c among. elim (Among-cons (c, x) (d + w, v) s.heap among) [
          | inl same ↦
              let (same_c, same_x) = pair_inj same in
              (d + w, ap (λ y. lookup y dist') (sym same_x) ∙ at_v, omega (arith, same_c))
          | inr later ↦ within c x (h.queued x c later)
        ];
        settled = λ x dx at_x. elim (Bool-cases (v == x)) [
          | inl same ↦
              let is_x : v ≡ x = eq_of_beq v x same in
              let same_d : d + w ≡ dx =
                some_inj (sym at_v ∙ ap (λ y. lookup y dist') is_x ∙ at_x) in
              inl (rw (← same_d, ← is_x) (Among-head (d + w, v) s.heap))
          | inr other ↦
              let was : lookup x s.dist ≡ some dx =
                rw (lookup-insert v x (d + w) s.dist, other) at at_x in
              elim (h.settled x dx was) [
                | inl waits ↦ inl (Among-tail (dx, x) (d + w, v) s.heap waits)
                | inr done ↦ inr (λ i wi y hi. elim (done i wi y hi) [
                  | inr close ↦ inr (within (dx + wi) y close)
                  | inl (is_u, listed) ↦ elim (Bool-cases (id == i)) [
                    | inl same ↦
                        let is_id : id ≡ i = eq_of_beq id i same in
                        let at_u' : Hop g u id wi y = rw (← is_u) (rw is_id hi) in
                        let (same_w, same_v) = Hop-unique g valid u v y id w wi hop at_u' in
                        let same_d : d ≡ dx =
                          some_inj (sym at_u ∙ ap (λ z. lookup z s.dist) (sym is_u) ∙ was) in
                        inr (
                          d + w,
                          ap (λ z. lookup z dist') (sym same_v) ∙ at_v,
                          omega (arith, same_w, same_d),
                        )
                    | inr unlike ↦ inl (is_u, rw unlike at listed)
                  ]
                ])
              ]
        ];
      }

  -- one link of the node
  pub relax-Inv :
      (id : String) (rest : List String) (s : Search) (d : ℕ)
      → has_edge g u id ≡ true
      → Inv g start u (id ∷ rest) s
      → lookup u s.dist ≡ some d
      → Inv g start u rest (relax g d u id s) × (lookup u (relax g d u id s).dist ≡ some d)
  unfolding relax offer
  relax-Inv id rest s d near h at_u =
      let (link, found, _) = valid.named u id near in
      let hop = far_end-Hop g valid u id link found near in
      elim (Bool-cases (closer (d + link.cost) (lookup (far_end link u) s.dist))) [
        | inl nearer ↦
            let other =
              below g start s.dist s.prev u (far_end link u) id link.cost d h.at_start hop at_u
                nearer u d at_u (omega arith) in
            rw (relax, found)
              (rw (offer, nearer)
                (
                  taken id rest s d link.cost (far_end link u) h at_u hop nearer,
                  rw (lookup-insert (far_end link u) u (d + link.cost) s.dist, other) at_u,
                ))
        | inr no_nearer ↦
            rw (relax, found)
              (rw (offer, no_nearer)
                (skipped id rest s d link.cost (far_end link u) h at_u hop no_nearer, at_u))
      ]

  pub relax_all-Inv :
      (ids : List String) (s : Search) (d : ℕ)
      → ((id : String) → contains ids id ≡ true → has_edge g u id ≡ true)
      → Inv g start u ids s
      → lookup u s.dist ≡ some d
      → Inv g start u [] (relax_all g d u ids s)
  unfolding relax_all
  relax_all-Inv [] s d near h at_u = h
  relax_all-Inv (id ∷ ids) s d near h at_u =
      let (h', at_u') = relax-Inv id ids s d (near id (rw (beq_refl id) refl)) h at_u in
      relax_all-Inv ids (relax g d u id s) d (λ i listed. near i (ground (arith, listed))) h' at_u'
