-- ===== src/Topology/Revalidate/Accepted.antt =====
-- The batch of a plan is never refused: each id that it adds is free by then.
use zl_zpr_visaservice.Base.{
  ℕ-HasEq, String, String-HasEq, ◌==◌, ◌≡◌, ◌≢◌, refl, sym, ap, ◌∙◌, Bool, true, false, not, ◌||◌,
  List, [], ◌++◌, none, some, if◌then◌else◌, lookup, contains, contains-append, arith, Bool-cases,
  Option-cases, inl, inr, eq_of_beq, some_inj, Result, ok,
}
use zl_zpr_visaservice.IpAddr.{IpAddr, IpAddr-HasEq}
use zl_zpr_visaservice.Policy.Links.{LinkDescription}
use zl_zpr_visaservice.Graph.{Graph, Link, Pair-HasEq, has_node}
use zl_zpr_visaservice.Graph.Walks.{Hop}
use zl_zpr_visaservice.Graph.Change.Current.{IsCurrent}
use zl_zpr_visaservice.Router.{RouterInner}
use zl_zpr_visaservice.Router.Routes.{shown_link, link_between, link_snapshot}
use zl_zpr_visaservice.Topology.{
  ServiceError, Edges, EdgeDecision, install, gc, describe_policy_link_either, fate, decide_edge,
}
use zl_zpr_visaservice.Topology.Revalidate.{
  keep, canonical_pair, work_edges, is_changed, Surviving, Plan, old_ids, replaced_ids, collision,
}
use zl_zpr_visaservice.Topology.Revalidate.Pairs.{live_edge, work_edges-IsOrdered}
use zl_zpr_visaservice.Topology.Revalidate.Between.{apart, joined, link_between-Between}
use zl_zpr_visaservice.Topology.Revalidate.Batch.{changes_router, AllCanAdd, same_edge}
use zl_zpr_visaservice.Topology.Revalidate.Plan.{
  Decides, surviving_at, removal_at, IsPlan, old_ids-to, replaced_ids-to,
}
use zl_zpr_visaservice.Topology.Revalidate.Reconciled.{
  Matches, NoParallel, ends_of_pair, Hop-pair, kept_id,
}
use zl_zpr_visaservice.Topology.Revalidate.Described.{fate_install, loop_described}

or_true : (b : Bool) → (b || true) ≡ true
or_true b = ground arith

-- A plan for the pairs of a router whose nodes are the known ones, with no id claimed twice.
pub record Planned (describe : IpAddr → IpAddr → Result ServiceError LinkDescription)
    (r : RouterInner) (known : List IpAddr) (persisted edges : Edges) (plan : Plan) : Type 0 where
  pub current : IsCurrent r.topology
  pub single : NoParallel r.topology
  pub nodes : (n : IpAddr) → contains known n ≡ true → has_node r.topology n ≡ true
  pub no_loop : (n : IpAddr) (desc : LinkDescription) → describe n n ≢ ok desc
  pub items : IsPlan describe r known persisted (work_edges edges (link_snapshot r)) plan
  pub claims : collision [] plan.0 ≡ none

module _ (describe : IpAddr → IpAddr → Result ServiceError LinkDescription) (r : RouterInner)
    (known : List IpAddr) (persisted edges : Edges) (plan : Plan)
    (h : Planned describe r known persisted edges plan) where
  abbrev pub Pairs : Edges
  Pairs = work_edges edges (link_snapshot r)

  abbrev pub removal_ids : List String
  removal_ids = old_ids plan.1 ++ replaced_ids plan.0

  -- a live link is the one that the router finds for its pair
  pub live_item :
      (id : String) (link : Link)
      → lookup id r.topology.edges ≡ some link
      → (p : IpAddr × IpAddr) × (contains Pairs p ≡ true)
        × (canonical_pair link.a link.b ≡ p)
        × (link_between r p.0 p.1 ≡ some (shown_link id link))
  unfolding link_snapshot
  live_item id link found =
      let p = canonical_pair link.a link.b in
      let within = live_edge edges r.topology.edges id link found in
      let ordered = work_edges-IsOrdered edges (link_snapshot r) p within in
      let hop : Hop r.topology p.0 id link.cost p.1 = record {
        link = link;
        found = found;
        cost = refl;
        ends = ends_of_pair link.a link.b p.0 p.1 refl;
      } in
      elim (link_between-Between r p.0 p.1 h.current.valid) [
        | apart is_none no_hop ↦ absurd (no_hop id link.cost hop)
        | joined id' link' is_some found' hop' ↦
            let same_pair : canonical_pair link'.a link'.b ≡ p =
              ap (λ (l : Link). canonical_pair l.a l.b) (some_inj (sym found' ∙ hop'.found))
              ∙ Hop-pair r.topology p.0 p.1 id' link'.cost hop'
              ∙ ordered in
            let same_id : id' ≡ id = h.single id' id link' link found' found same_pair in
            let same_link : link' ≡ link =
              some_inj (sym found' ∙ ap (λ i. lookup i r.topology.edges) same_id ∙ found) in
            (
              p,
              within,
              refl,
              is_some
                  ∙ ap some (ap (λ i. shown_link i link') same_id ∙ ap (shown_link id) same_link),
            )
      ]

  install_kept :
      (n : IpAddr) (desc : LinkDescription)
      → decide_edge describe known n n ≡ ok (install desc)
      → fate describe (describe_policy_link_either describe n n) ≡ ok (install desc)
  unfolding decide_edge
  install_kept n desc decides =
      elim (Bool-cases (not (contains known n) || not (contains known n))) [
        | inl missing ↦ absurd (cc (rw missing at decides))
        | inr there ↦ rw there at decides
      ]

  listed_old : (id : String) → contains (old_ids plan.1) id ≡ true → contains removal_ids id ≡ true
  listed_old id listed =
      contains-append id (old_ids plan.1) (replaced_ids plan.0)
      ∙ ap (λ b. b || contains (replaced_ids plan.0) id) listed

  listed_new :
      (id : String) → contains (replaced_ids plan.0) id ≡ true → contains removal_ids id ≡ true
  listed_new id listed =
      contains-append id (old_ids plan.1) (replaced_ids plan.0)
      ∙ ap (λ b. contains (old_ids plan.1) id || b) listed
      ∙ or_true (contains (old_ids plan.1) id)

  -- policy describes no link of a node with itself
  no_loop_at :
      (n : IpAddr) (desc : LinkDescription) → decide_edge describe known n n ≢ ok (install desc)
  unfolding decide_edge describe_policy_link_either
  no_loop_at n desc decides = h.no_loop n desc (
      loop_described describe n desc (
        fate_install describe (describe_policy_link_either describe n n) desc
          (install_kept n desc decides)))

  known_ends :
      (a b : IpAddr) (desc : LinkDescription)
      → decide_edge describe known a b ≡ ok (install desc)
      → (contains known a ≡ true) × (contains known b ≡ true)
  unfolding decide_edge
  known_ends a b desc decides =
      elim (Bool-cases (not (contains known a) || not (contains known b))) [
        | inl missing ↦ absurd (cc (rw missing at decides))
        | inr there ↦ (ground (arith, there), ground (arith, there))
      ]

  -- a live link that is not removed is one that is kept
  pub unremoved :
      (id : String) (link : Link)
      → lookup id r.topology.edges ≡ some link
      → contains removal_ids id ≡ false
      → (p : IpAddr × IpAddr) × (desc : LinkDescription) × (contains Pairs p ≡ true)
        × Decides describe r known persisted p (install desc)
        × ((surviving_at describe r known persisted p desc).action ≡ keep)
        × (desc.link_id ≡ id)
        × Matches p desc link
  unremoved id link found stays =
      let (p, within, is_p, shown) = live_item id link found in
      let (d, decides) = h.items.decided p within in by_decision p within is_p shown d decides
    where
      by_decision :
          (p : IpAddr × IpAddr)
          → contains Pairs p ≡ true
          → canonical_pair link.a link.b ≡ p
          → link_between r p.0 p.1 ≡ some (shown_link id link)
          → (d : EdgeDecision) → Decides describe r known persisted p d
          → (q : IpAddr × IpAddr) × (desc : LinkDescription) × (contains Pairs q ≡ true)
            × Decides describe r known persisted q (install desc)
            × ((surviving_at describe r known persisted q desc).action ≡ keep)
            × (desc.link_id ≡ id)
            × Matches q desc link
      by_decision p within is_p shown gc decides =
          let listed =
            old_ids-to plan.1 (removal_at describe r known persisted p) id
              (h.items.collected p within decides) (rw shown refl) in
          absurd (cc (sym stays ∙ listed_old id listed))
      by_decision p within is_p shown (install desc) decides =
          elim (Bool-cases (is_changed (shown_link id link) desc)) [
            | inl changed ↦
                let listed =
                  replaced_ids-to plan.0 (surviving_at describe r known persisted p desc) id
                    (h.items.installed p desc within decides) (rw (shown, changed) refl) in
                absurd (cc (sym stays ∙ listed_new id listed))
            | inr same ↦
                let (same_id, same_cost, same_attrs) = kept_id (shown_link id link) desc same in
                (
                  p,
                  desc,
                  within,
                  decides,
                  rw (shown, same) refl,
                  sym same_id,
                  record { between = is_p; cost = same_cost; attributes = same_attrs },
                )
          ]

  -- each edge that changes the router can be added once the ids are gone
  pub removed-AllCanAdd :
      (g : Graph)
      → ((i : String)
          → lookup i g.edges ≡ (if contains removal_ids i then none else lookup i r.topology.edges))
      → ((q : IpAddr) → has_node g q ≡ has_node r.topology q)
      → AllCanAdd g plan.0
  removed-AllCanAdd g gone nodes e among changed =
      let (p, desc, within, decides, is_e) = h.items.survives e among in
      let (at_a, at_b) = known_ends p.0 p.1 desc decides in
      rw (← is_e) (record {
        apart = elim (Bool-cases (p.0 == p.1)) [
          | inr other ↦ other
          | inl same ↦ absurd (
              no_loop_at p.0 desc
                (ap (λ x. decide_edge describe known p.0 x) (eq_of_beq p.0 p.1 same) ∙ decides))
        ];
        node_a = nodes p.0 ∙ h.nodes p.0 at_a;
        node_b = nodes p.1 ∙ h.nodes p.1 at_b;
        free = elim (Bool-cases (contains removal_ids desc.link_id)) [
          | inl out ↦ gone desc.link_id ∙ rw out refl
          | inr stays ↦ elim (Option-cases (lookup desc.link_id r.topology.edges)) [
            | inl absent ↦ gone desc.link_id ∙ rw stays absent
            | inr (link, found) ↦
                let (q, desc', within', decides', kept, same_id, _) =
                  unremoved desc.link_id link found stays in
                let other = surviving_at describe r known persisted q desc' in
                let same : other ≡ e =
                  same_edge [] plan.0 h.claims other e (h.items.installed q desc' within' decides')
                    among (same_id ∙ ap (λ (x : Surviving). x.desc.link_id) is_e) in
                absurd (
                  cc (
                    sym changed
                    ∙ ap (λ (x : Surviving). changes_router x.action) (sym same)
                    ∙ ap changes_router kept))
          ]
        ];
      })
