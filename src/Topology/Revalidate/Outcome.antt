-- ===== src/Topology/Revalidate/Outcome.antt =====
-- How a pass over the links ends.
use mathlib.Core.Path.{subst}
use zl_zpr_visaservice.Base.{
  ℕ, String, String-HasEq, ◌≡◌, refl, sym, ap, ◌∙◌, Bool, true, false, List, [], Option, none, map,
  lookup, contains, Option-cases, inl, inr, Bool-cases, Result, ok, err, panic, ok_inj,
}
use zl_zpr_visaservice.IpAddr.{IpAddr, IpAddr-HasEq}
use zl_zpr_visaservice.Policy.Links.{ℤ, Peering, LinkDescription, load_links}
use zl_zpr_visaservice.Policy.Links.First.{first_joining, peerings_of}
use zl_zpr_visaservice.Graph.{Graph, TopologyError, Pair-HasEq, has_node}
use zl_zpr_visaservice.Graph.Change.Current.{IsCurrent}
use zl_zpr_visaservice.Router.{RouterInner}
use zl_zpr_visaservice.Router.Routes.{link_snapshot, shown_link}
use zl_zpr_visaservice.Topology.{ServiceError, Write, Edges, TopologyMgr, decide_edge}
use zl_zpr_visaservice.Topology.Revalidate.{
  Plan, RevalidationReport, persisted_set, work_edges, plan_edges, collision, save_missing,
  rewrite_router, carry_out, when_planned, when_read, revalidate_against_policy,
}
use zl_zpr_visaservice.Topology.Snapshot.{Describes, describe_link, describe_link-Describes}
use zl_zpr_visaservice.Topology.Revalidate.Nodes.{add_nodes_lem}
use zl_zpr_visaservice.Topology.Revalidate.Plan.{install_inj, plan_edges-IsPlan}
use zl_zpr_visaservice.Topology.Revalidate.Reconciled.{NoParallel, Reconciled}
use zl_zpr_visaservice.Topology.Revalidate.Pairs.{work_edges-IsOrdered}
use zl_zpr_visaservice.Topology.Revalidate.Stored.{Persisted, described-HasEdge}
use zl_zpr_visaservice.Topology.Revalidate.Accepted.{Planned}
use zl_zpr_visaservice.Topology.Revalidate.Carried.{batch-Reconciled}
use zl_zpr_visaservice.Topology.Revalidate.Described.{plan_edges-total}

module _ (describe : IpAddr → IpAddr → Result ServiceError LinkDescription)
    (known : List IpAddr) where
  -- each link is in its own pair, and so under the one id that policy gives the pair
  Reconciled-NoParallel :
      (pairs : Edges) (g : Graph) → Reconciled describe known pairs g → NoParallel g
  Reconciled-NoParallel pairs g h i j x y at_i at_j same =
      let (p, desc, _, decides, is_i, fits) = h.sound i x at_i in
      let (q, desc', _, decides', is_j, fits') = h.sound j y at_j in
      let same_pair : p ≡ q = sym fits.between ∙ same ∙ fits'.between in
      let same_desc : desc ≡ desc' = install_inj desc desc' (
        ok_inj (sym decides ∙ ap (λ x. decide_edge describe known x.0 x.1) same_pair ∙ decides')) in
      sym is_i ∙ ap (λ (d : LinkDescription). d.link_id) same_desc ∙ is_j

  -- a pass never panics; an error leaves each link, and otherwise the links are those of policy
  abbrev pub Passed :
      TopologyMgr
      → Result TopologyError (TopologyMgr × Result ServiceError RevalidationReport)
      → Type 0
  Passed m (ok (m', ok report)) =
      IsCurrent m'.router.topology
      × NoParallel m'.router.topology
      × Reconciled describe known (work_edges m.edges (link_snapshot m.router)) m'.router.topology
      × Persisted describe known (work_edges m.edges (link_snapshot m.router)) m'.edges
  Passed m (ok (m', err e)) =
      IsCurrent m'.router.topology × (m'.router.topology.edges ≡ m.router.topology.edges)
  Passed m (ok (m', panic)) = ⊥
  Passed m (err e) = ⊥
  Passed m panic = ⊥

  Passed-grown :
      (m : TopologyMgr) (r : RouterInner)
      → r.topology.edges ≡ m.router.topology.edges
      → (out : Result TopologyError (TopologyMgr × Result ServiceError RevalidationReport))
      → Passed (record m { router = r }) out
      → Passed m out
  unfolding link_snapshot
  Passed-grown m r same (ok (m', ok report)) (current, single, left, edges) =
      let links = ap (map (λ e. shown_link e.0 e.1)) same in
      (
        current,
        single,
        subst (λ ls. Reconciled describe known (work_edges m.edges ls) m'.router.topology) links
            left,
        subst (λ ls. Persisted describe known (work_edges m.edges ls) m'.edges) links edges,
      )
  Passed-grown m r same (ok (m', err e)) (current, kept) = (current, kept ∙ same)
  Passed-grown m r same (ok (m', panic)) h = h
  Passed-grown m r same (err e) h = h
  Passed-grown m r same panic h = h

module _ (describe : IpAddr → IpAddr → Result ServiceError LinkDescription)
    (policy : Describes describe) (encode : IpAddr → String) (save erase : IpAddr → IpAddr → Write)
    (known : List IpAddr) where
  -- the router with its nodes, and the database as the pass found it
  carry_out-Passed :
      (m : TopologyMgr) (plan : Plan)
      → IsCurrent m.router.topology
      → NoParallel m.router.topology
      → ((n : IpAddr) → contains known n ≡ true → has_node m.router.topology n ≡ true)
      → plan_edges describe m.router known
          (persisted_set m.edges)
          (work_edges m.edges (link_snapshot m.router))
        ≡ ok plan
      → Passed describe known m (carry_out encode save erase describe known plan m)
  unfolding carry_out rewrite_router
  carry_out-Passed m plan current single nodes yields = elim (Option-cases (collision [] plan.0)) [
    | inr (id, taken) ↦ rw (carry_out, taken) (current, refl)
    | inl claims ↦
        let h : Planned describe m.router known (persisted_set m.edges) m.edges plan = record {
          current = current;
          single = single;
          nodes = nodes;
          no_loop = policy.no_loop;
          items =
              plan_edges-IsPlan describe m.router known (persisted_set m.edges)
                (work_edges m.edges (link_snapshot m.router)) plan yields;
          claims = claims;
        } in
        let (g, made, after, left) =
          batch-Reconciled describe m.router known (persisted_set m.edges) m.edges plan h in
        let saving = save_missing encode save erase plan.0 m.edges in
        elim (Bool-cases saving.0) [
          | inl done ↦
              rw (carry_out, claims, done)
                (rw made (
                  after,
                  Reconciled-NoParallel describe known _ g left,
                  left,
                  described-HasEdge encode save erase describe m.router known m.edges
                      (work_edges m.edges (link_snapshot m.router)) plan h.items
                      (work_edges-IsOrdered m.edges (link_snapshot m.router)) done,
                ))
          | inr failed ↦ rw (carry_out, claims, failed) (current, refl)
        ]
  ]

  read-Passed :
      (readable : Bool) (m : TopologyMgr)
      → IsCurrent m.router.topology
      → NoParallel m.router.topology
      → ((n : IpAddr) → contains known n ≡ true → has_node m.router.topology n ≡ true)
      → Passed describe known m (when_read encode save erase describe readable known m)
  read-Passed false m current single nodes = (current, refl)
  read-Passed true m current single nodes =
      planned_by
        (plan_edges describe m.router known (persisted_set m.edges)
          (work_edges m.edges (link_snapshot m.router)))
        refl
    where
      planned_by :
          (x : Result ServiceError Plan)
          → plan_edges describe m.router known
              (persisted_set m.edges)
              (work_edges m.edges (link_snapshot m.router))
            ≡ x
          → Passed describe known m (when_planned encode save erase describe known m x)
      planned_by (ok plan) is_x = carry_out-Passed m plan current single nodes is_x
      planned_by (err e) is_x = (current, refl)
      planned_by panic is_x = absurd (
          plan_edges-total describe policy.total m.router known (persisted_set m.edges)
            (work_edges m.edges (link_snapshot m.router)) is_x)

  revalidate_against_policy-Passed :
      (readable : Bool) (m : TopologyMgr)
      → IsCurrent m.router.topology
      → NoParallel m.router.topology
      → Passed describe known m
          (revalidate_against_policy encode save erase describe readable known m)
  unfolding revalidate_against_policy link_snapshot
  revalidate_against_policy-Passed readable m current single =
      let (r, made, grown, nodes) = add_nodes_lem known m.router current in
      let alone : NoParallel r.topology = λ i j x y at_i at_j.
        single i j x y (ap (lookup i) (sym grown.edges) ∙ at_i)
          (ap (lookup j) (sym grown.edges) ∙ at_j) in
      rw (revalidate_against_policy, made)
        (Passed-grown describe known m r grown.edges _
          (read-Passed readable (record m { router = r }) grown.current alone nodes))

-- Where no peering of the policy joins a node to itself, and no two links of the current topology join
-- the same two nodes, a pass never panics and leaves a current topology. A pass that ends in an error
-- leaves each link as it was. A pass without an error leaves no two links between the same two nodes,
-- and the links are those that policy describes for the pairs of known nodes that had an edge in the
-- database or the router: each such pair has its link, under the id, with the cost and with attributes
-- equivalent to those of policy, and there is no other link; and each such pair has its edge in the
-- database.
pub revalidate-described :
    (parse_i32 : String → Option ℤ) (now : ℕ) (peerings : Option (List Peering))
    (encode : IpAddr → String) (save erase : IpAddr → IpAddr → Write) (readable : Bool)
    (known : List IpAddr) (m : TopologyMgr)
    → ((n : IpAddr) → first_joining n n (peerings_of peerings) ≡ none)
    → IsCurrent m.router.topology
    → NoParallel m.router.topology
    → let describe = describe_link parse_i32 now (load_links peerings) in
      Passed describe known m
        (revalidate_against_policy encode save erase describe readable known m)
revalidate-described parse_i32 now peerings encode save erase readable known m apart current
      single =
    revalidate_against_policy-Passed (describe_link parse_i32 now (load_links peerings))
      (describe_link-Describes parse_i32 now peerings apart) encode save erase known readable m
      current single
