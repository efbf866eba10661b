-- ===== src/Graph/AllPaths/Loop.antt =====
-- The loop with its stack finds what the recursion finds, in the same order, within its rounds.
use mathlib.Core.List.{append-nil, append_assoc}
use native.Mathlib.Nat.{mul-le-mul_right, suc-mul}
use zl_zpr_visaservice.Base.{
  ℕ, zero, suc, ◌+◌, ◌*◌, ◌-◌, ◌≤◌, String, String-HasEq, ◌==◌, ◌≡◌, refl, sym, ap, ◌∙◌, true,
  false, List, [], ◌∷◌, ◌++◌, some, lookup, contains, length, is_some, arith, Bool-cases,
  Option-cases, inl, inr, beq_refl, set_insert,
}
use zl_zpr_visaservice.IpAddr.{IpAddr, IpAddr-HasEq}
use zl_zpr_visaservice.Graph.{Node, Graph, far_end, has_node}
use zl_zpr_visaservice.Graph.Dijkstra.{saturated}
use zl_zpr_visaservice.Graph.AllPaths.{
  Frame, Search, backtrack, descend, follow, round, run, max_links, frame_rounds, paths_fuel,
  first_frame, get_all_paths,
}
use zl_zpr_visaservice.Graph.AllPaths.Explore.{
  Paths, branch, gather, explore, ahead, ahead-le-length, ahead-cons-lt, length-le-max_links,
  filter_absent,
}

-- the frame on top, with those links left
abbrev at : Frame → List String → List Frame → Search → Search
at f ids fs s = record s { stack = record f { remaining = ids } ∷ fs }

abbrev found : Search → Paths → Search
found s ps = record s { results = s.results ++ ps }

-- so many rounds lead from one state to another
abbrev Leads : Graph → IpAddr → ℕ → Search → Search → Type 0
Leads g end r s t = (fuel : ℕ) → run (r + fuel) g end s ≡ run fuel g end t

Leads-trans :
    (g : Graph) (end : IpAddr) (q r : ℕ) (s t u : Search)
    → Leads g end q s t
    → Leads g end r t u
    → Leads g end (q + r) s u
Leads-trans g end q r s t u first second fuel =
    let regroup : q + r + fuel ≡ q + (r + fuel) = omega arith in
    ap (λ n. run n g end s) regroup ∙ first (r + fuel) ∙ second fuel

module _ (g : Graph) (end : IpAddr) where
  abbrev most : ℕ → ℕ
  most k = suc (frame_rounds k (max_links g.nodes))

  -- what the recursion finds over one link, and over several
  abbrev over : ℕ → Frame → Search → String → Paths
  over k f s = branch (explore k g end) g end f.current s.visited s.path f.cost

  -- a frame is worked off
  abbrev FrameEnds : ℕ → Type 0
  FrameEnds k =
      (ids : List String) (f : Frame) (fs : List Frame) (s : Search)
      → ahead s.visited g.nodes ≤ k
      → (r : ℕ) × (r ≤ length ids * most k + 1)
        × Leads g end r (at f ids fs s) (backtrack f fs (found s (gather (over k f s) ids)))

  -- a node is entered, and left again
  abbrev NodeEnds : ℕ → Type 0
  NodeEnds k =
      (n : IpAddr) (node : Node) (id : String) (cost : ℕ) (f : Frame) (fs : List Frame) (s : Search)
      → ahead s.visited g.nodes ≤ k
      → lookup n g.nodes ≡ some node
      → contains s.visited n ≡ false
      → (r : ℕ) × (r ≤ frame_rounds k (max_links g.nodes))
        × Leads g end r (descend id n cost (some node) (record s { stack = f ∷ fs }))
            (record (found s (explore k g end n (n ∷ s.visited) (id ∷ s.path) cost)) {
              stack = f ∷ fs;
            })

  no_node : NodeEnds zero
  no_node n node id cost f fs s few at_n new =
      absurd (omega (arith, ahead-cons-lt n s.visited g.nodes (ap is_some at_n) new))

  a_node : (k : ℕ) → FrameEnds k → NodeEnds (suc k)
  unfolding set_insert explore
  a_node k deeper n node id cost f fs s few at_n new =
      let child : Frame = record {
        current = n;
        remaining = node.edges;
        entered_via = some id;
        entered_neighbor = some n;
        cost = cost;
      } in
      let s' : Search = record {
        results = s.results;
        visited = n ∷ s.visited;
        path = id ∷ s.path;
        stack = [];
      } in
      let fewer = ahead-cons-lt n s.visited g.nodes (ap is_some at_n) new in
      let (r, le, leads) = deeper node.edges child (f ∷ fs) s' (omega arith) in
      let short = mul-le-mul_right (most k) (length-le-max_links n node g.nodes at_n) in
      (
        r,
        omega arith,
        λ fuel. rw new (leads fuel ∙ rw (beq_refl n, filter_absent n s.visited new, at_n) refl),
      )

  -- one link of the frame
  abbrev LinkEnds : ℕ → Type 0
  LinkEnds k =
      (id : String) (ids : List String) (f : Frame) (fs : List Frame) (s : Search)
      → ahead s.visited g.nodes ≤ k
      → (r : ℕ) × (r ≤ most k)
        × Leads g end r (at f (id ∷ ids) fs s) (at f ids fs (found s (over k f s id)))

  one_round :
      (id : String) (ids : List String) (f : Frame) (fs : List Frame) (s : Search)
      → Leads g end 1
          (at f (id ∷ ids) fs s)
          (follow g end id f.current f.cost (lookup id g.edges) (at f ids fs s))
  unfolding run round
  one_round id ids f fs s fuel = let one : 1 + fuel ≡ suc fuel = omega arith in rw one refl

  unchanged :
      (s : Search) (stack : List Frame)
      → ◌≡◌ {A = Search} (record s { stack = stack }) (record (found s []) { stack = stack })
  unchanged s stack = rw (append-nil s.results) refl

  a_link : (k : ℕ) → NodeEnds k → LinkEnds k
  a_link k enters id ids f fs s few = elim (Option-cases (lookup id g.edges)) [
    | inl gone ↦ (
      1,
      omega arith,
      λ fuel. one_round id ids f fs s fuel ∙ rw gone (ap (run fuel g end) (unchanged s _)),
    )
    | inr (link, there) ↦
        let n = far_end link f.current in
        elim (Bool-cases (contains s.visited n)) [
          | inl old ↦ (
            1,
            omega arith,
            λ fuel.
                one_round id ids f fs s fuel
                ∙ rw (there, old) (ap (run fuel g end) (unchanged s _)),
          )
          | inr new ↦ elim (Bool-cases (n == end)) [
            | inl arrived ↦ (
              1,
              omega arith,
              λ fuel. one_round id ids f fs s fuel ∙ rw (there, new, arrived) refl,
            )
            | inr on_way ↦ elim (Option-cases (lookup n g.nodes)) [
              | inl no_such ↦ (
                1,
                omega arith,
                λ fuel.
                    one_round id ids f fs s fuel
                    ∙ rw (there, new, on_way, no_such) (ap (run fuel g end) (unchanged s _)),
              )
              | inr (node, at_n) ↦
                  let cost = saturated (f.cost + link.cost) in
                  let (r, le, leads) =
                    enters n node id cost (record f { remaining = ids }) fs s few at_n new in
                  (
                    1 + r,
                    omega arith,
                    Leads-trans g end 1 r _ _ _ (one_round id ids f fs s)
                        (λ fuel. rw (there, new, on_way, at_n) (leads fuel)),
                  )
            ]
          ]
        ]
  ]

  all_links : (k : ℕ) → LinkEnds k → FrameEnds k
  unfolding run round
  all_links k links [] f fs s few = (
    1,
    omega arith,
    λ fuel. let one : 1 + fuel ≡ suc fuel = omega arith in rw (one, append-nil s.results) refl,
  )
  all_links k links (id ∷ ids) f fs s few =
      let (q, small, first) = links id ids f fs s few in
      let (r, le, rest) = all_links k links ids f fs (found s (over k f s id)) few in
      (
        q + r,
        omega (arith, suc-mul (length ids) (most k)),
        λ fuel.
            Leads-trans g end q r _ _ _ first rest fuel
            ∙ rw (append_assoc s.results (over k f s id) (gather (over k f s) ids)) refl,
      )

  frame_ends : (k : ℕ) → FrameEnds k
  frame_ends zero = all_links zero (a_link zero no_node)
  frame_ends (suc k) = all_links (suc k) (a_link (suc k) (a_node k (frame_ends k)))

  -- The loop ends within its rounds, and finds what the recursion finds.
  pub get_all_paths-explore :
      (start : IpAddr)
      → has_node g start ≡ true
      → (start == end) ≡ false
      → get_all_paths g start end
        ≡ some (explore (suc (length g.nodes)) g end start (start ∷ []) [] 0)
  unfolding get_all_paths run paths_fuel explore
  get_all_paths-explore start node apart = elim (Option-cases (lookup start g.nodes)) [
    | inl gone ↦ absurd (cc (sym node ∙ ap is_some gone))
    | inr (x, there) ↦
        let k = length g.nodes in
        let links = max_links g.nodes in
        let s : Search = record { results = []; visited = start ∷ []; path = []; stack = [] } in
        let (r, le, leads) =
          frame_ends k x.edges (first_frame start x) [] s (ahead-le-length (start ∷ []) g.nodes) in
        let short = mul-le-mul_right (most k) (length-le-max_links start x g.nodes there) in
        let spare : r + suc (frame_rounds (suc k) links - r) ≡ paths_fuel g = omega arith in
        rw (get_all_paths, apart, there)
          (rw (← spare) (leads (suc (frame_rounds (suc k) links - r))))
  ]
