-- ===== src/Topology/Revalidate/Carried.antt =====
-- The links that the batch of a plan leaves: each as policy describes it.
use zl_zpr_visaservice.Base.{
  ℕ-HasEq, suc, String, String-HasEq, ◌≡◌, refl, sym, ap, ◌∙◌, true, false, List, [], Option, none,
  some, if◌then◌else◌, lookup, contains, contains-append, Bool-cases, inl, inr, some_inj, Result,
  ok, ok_inj,
}
use mathlib.Core.Path.{subst}
use zl_zpr_visaservice.IpAddr.{IpAddr, IpAddr-HasEq}
use zl_zpr_visaservice.Attribute.Equivalent.{attributes_equivalent_refl}
use zl_zpr_visaservice.Policy.Links.{LinkDescription}
use zl_zpr_visaservice.Graph.{Graph, Link, Pair-HasEq}
use zl_zpr_visaservice.Graph.Change.Current.{IsCurrent}
use zl_zpr_visaservice.Router.{RouterInner, flushed, apply_link_batch}
use zl_zpr_visaservice.Router.Batch.{remove_each_lem}
use zl_zpr_visaservice.Router.Routes.{RouterLink, shown_link, link_between, link_snapshot}
use zl_zpr_visaservice.Topology.{ServiceError, Edges, install, decide_edge}
use zl_zpr_visaservice.Topology.Revalidate.{
  replace, canonical_pair, is_changed, action_of, id_of, Surviving, Removal, Plan, old_ids,
  replaced_ids, additions,
}
use zl_zpr_visaservice.Topology.Revalidate.Pairs.{work_edges-IsOrdered}
use zl_zpr_visaservice.Topology.Revalidate.Between.{apart, joined, link_between-Between}
use zl_zpr_visaservice.Topology.Revalidate.Batch.{
  changes_router, link_of, added_link, added_link-cases, same_edge, add_each_lem,
}
use zl_zpr_visaservice.Topology.Revalidate.Plan.{
  install_inj, Decides, surviving_at, old_ids-from, replaced_ids-from,
}
use zl_zpr_visaservice.Topology.Revalidate.Reconciled.{Matches, Reconciled, Hop-pair, kept_id}
use zl_zpr_visaservice.Topology.Revalidate.Accepted.{
  Planned, Pairs, removal_ids, unremoved, removed-AllCanAdd,
}

of_replace :
    (o : Option RouterLink) (desc : LinkDescription) (id : String)
    → action_of o desc ≡ replace id
    → id_of o ≡ some id
of_replace none desc id h = absurd (cc h)
of_replace (some rl) desc id h = elim (Bool-cases (is_changed rl desc)) [
  | inl changed ↦ cc (rw changed at h)
  | inr same ↦ absurd (cc (rw same at h))
]

module _ (describe : IpAddr → IpAddr → Result ServiceError LinkDescription) (r : RouterInner)
    (known : List IpAddr) (persisted edges : Edges) (plan : Plan)
    (h : Planned describe r known persisted edges plan) where
  abbrev At : IpAddr × IpAddr → LinkDescription → Surviving
  At p desc = surviving_at describe r known persisted p desc

  abbrev Listed : IpAddr × IpAddr → Type 0
  Listed p = contains (Pairs describe r known persisted edges plan h) p ≡ true

  added-Matches :
      (p : IpAddr × IpAddr) (desc : LinkDescription)
      → Listed p
      → Matches p desc (link_of (At p desc))
  added-Matches p desc within = record {
    between = work_edges-IsOrdered edges (link_snapshot r) p within;
    cost = refl;
    attributes = attributes_equivalent_refl desc.attrs;
  }

  -- the pair whose link has a known id
  pair_of_id :
      (q : IpAddr × IpAddr) (id : String) (link : Link)
      → Listed q
      → id_of (link_between r q.0 q.1) ≡ some id
      → lookup id r.topology.edges ≡ some link
      → canonical_pair link.a link.b ≡ q
  pair_of_id q id link within is_id found = elim (link_between-Between r q.0 q.1 h.current.valid) [
    | apart is_none no_hop ↦ absurd (cc (rw is_none at is_id))
    | joined id' link' is_some found' hop ↦
        let same_id : id' ≡ id = some_inj (rw is_some at is_id) in
        let same : hop.link ≡ link =
          some_inj (sym hop.found ∙ ap (λ i. lookup i r.topology.edges) same_id ∙ found) in
        ap (λ (l : Link). canonical_pair l.a l.b) (sym same)
        ∙ Hop-pair r.topology q.0 q.1 id' link'.cost hop
        ∙ work_edges-IsOrdered edges (link_snapshot r) q within
  ]

  -- a link that policy wants as it is keeps its id
  stays :
      (p : IpAddr × IpAddr) (desc : LinkDescription) (link : Link)
      → Listed p
      → Decides describe r known persisted p (install desc)
      → changes_router (At p desc).action ≡ false
      → lookup desc.link_id r.topology.edges ≡ some link
      → canonical_pair link.a link.b ≡ p
      → contains (removal_ids describe r known persisted edges plan h) desc.link_id ≡ false
  stays p desc link within decides kept found is_p =
      elim (Bool-cases (contains (old_ids plan.1) desc.link_id)) [
        | inl old ↦
            let (x, among, is_id) = old_ids-from plan.1 desc.link_id old in
            let (q, within', gone, is_x) = h.items.removed x among in
            let same : p ≡ q =
              sym is_p
              ∙ pair_of_id q desc.link_id link within' (ap (λ (y : Removal). y.old_id) is_x ∙ is_id)
                  found in
            absurd (cc (sym decides ∙ ap (λ x. decide_edge describe known x.0 x.1) same ∙ gone))
        | inr not_old ↦ elim (Bool-cases (contains (replaced_ids plan.0) desc.link_id)) [
          | inl new ↦
              let (e, among, is_id) = replaced_ids-from plan.0 desc.link_id new in
              let (q, desc', within', decides', is_e) = h.items.survives e among in
              let action : (At q desc').action ≡ replace desc.link_id =
                ap (λ (y : Surviving). y.action) is_e ∙ is_id in
              let same : p ≡ q =
                sym is_p
                ∙ pair_of_id q desc.link_id link within' (of_replace _ desc' desc.link_id action)
                    found in
              let same_desc : desc ≡ desc' = install_inj desc desc' (
                ok_inj
                  (sym decides ∙ ap (λ x. decide_edge describe known x.0 x.1) same ∙ decides')) in
              absurd (
                cc (
                  sym kept
                  ∙ ap (λ x. changes_router (At x desc).action) same
                  ∙ ap (λ d. changes_router (At q d).action) same_desc
                  ∙ ap changes_router action))
          | inr not_new ↦
              contains-append desc.link_id (old_ids plan.1) (replaced_ids plan.0)
              ∙ rw (not_old, not_new) refl
        ]
      ]

  module _ (g g' : Graph)
      (gone : (i : String)
        → lookup i g.edges ≡ (
            if contains (removal_ids describe r known persisted edges plan h) i
            then none
            else lookup i r.topology.edges))
      (put : (i : String) → lookup i g'.edges ≡ added_link plan.0 i (lookup i g.edges)) where
    abbrev Wanted : String → Link → Type 0
    Wanted id link =
        (p : IpAddr × IpAddr) × (desc : LinkDescription) × Listed p
        × (decide_edge describe known p.0 p.1 ≡ ok (install desc))
        × (desc.link_id ≡ id)
        × Matches p desc link

    left_sound : (id : String) (link : Link) → lookup id g'.edges ≡ some link → Wanted id link
    left_sound id link found = elim (added_link-cases plan.0 id (lookup id g.edges)) [
      | inl (e, among, changed, is_id, yields) ↦
          let (p, desc, within, decides, is_e) = h.items.survives e among in
          let same : link_of (At p desc) ≡ link =
            ap link_of is_e ∙ some_inj (sym yields ∙ sym (put id) ∙ found) in
          (
            p,
            desc,
            within,
            decides,
            ap (λ (x : Surviving). x.desc.link_id) is_e ∙ is_id,
            subst (Matches p desc) same (added-Matches p desc within),
          )
      | inr (none_added, before) ↦
          let there : lookup id g.edges ≡ some link = sym before ∙ sym (put id) ∙ found in
          elim (Bool-cases (contains (removal_ids describe r known persisted edges plan h) id)) [
            | inl out ↦
                let none_left : lookup id g.edges ≡ none = gone id ∙ rw out refl in
                absurd (cc (sym there ∙ none_left))
            | inr in_place ↦
                let (p, desc, within, decides, _, is_id, fits) =
                  unremoved describe r known persisted edges plan h id link
                    (sym (rw in_place at (gone id)) ∙ there) in_place in
                (p, desc, within, decides, is_id, fits)
          ]
    ]

    left_kept :
        (p : IpAddr × IpAddr) (desc : LinkDescription)
        → Listed p
        → Decides describe r known persisted p (install desc)
        → changes_router (At p desc).action ≡ false
        → (link : Link) × (lookup desc.link_id g'.edges ≡ some link) × Matches p desc link
    left_kept p desc within decides kept = elim (link_between-Between r p.0 p.1 h.current.valid) [
      | apart is_none no_hop ↦ absurd (cc (rw is_none at kept))
      | joined id link is_some found hop ↦
          elim (Bool-cases (is_changed (shown_link id link) desc)) [
            | inl changed ↦ absurd (cc (rw (is_some, changed) at kept))
            | inr same ↦
                let (same_id, same_cost, same_attrs) = kept_id (shown_link id link) desc same in
                let same_link : hop.link ≡ link = some_inj (sym hop.found ∙ found) in
                let is_p : canonical_pair link.a link.b ≡ p =
                  ap (λ (l : Link). canonical_pair l.a l.b) (sym same_link)
                  ∙ Hop-pair r.topology p.0 p.1 id link.cost hop
                  ∙ work_edges-IsOrdered edges (link_snapshot r) p within in
                let there : lookup desc.link_id r.topology.edges ≡ some link =
                  ap (λ i. lookup i r.topology.edges) (sym same_id) ∙ found in
                let left : lookup desc.link_id g.edges ≡ some link =
                  gone desc.link_id ∙ rw (stays p desc link within decides kept there is_p) there in
                let fits : Matches p desc link = record {
                  between = is_p;
                  cost = same_cost;
                  attributes = same_attrs;
                } in
                elim (added_link-cases plan.0 desc.link_id (lookup desc.link_id g.edges)) [
                  | inr (none_added, before) ↦ (link, put desc.link_id ∙ before ∙ left, fits)
                  | inl (e, among, changed, is_id, yields) ↦
                      let same_e : At p desc ≡ e =
                        same_edge [] plan.0 h.claims (At p desc) e
                          (h.items.installed p desc within decides) among (sym is_id) in
                      absurd (
                        cc (
                          sym kept
                          ∙ ap (λ (x : Surviving). changes_router x.action) same_e
                          ∙ changed))
                ]
          ]
    ]

    left_full :
        (p : IpAddr × IpAddr) (desc : LinkDescription)
        → Listed p
        → Decides describe r known persisted p (install desc)
        → (link : Link) × (lookup desc.link_id g'.edges ≡ some link) × Matches p desc link
    left_full p desc within decides = elim (Bool-cases (changes_router (At p desc).action)) [
      | inr kept ↦ left_kept p desc within decides kept
      | inl changed ↦
          let among = h.items.installed p desc within decides in
          elim (added_link-cases plan.0 desc.link_id (lookup desc.link_id g.edges)) [
            | inr (none_added, before) ↦ absurd (none_added (At p desc) among changed refl)
            | inl (e, among', changed', is_id, yields) ↦
                let same_e : e ≡ At p desc =
                  same_edge [] plan.0 h.claims e (At p desc) among' among is_id in
                (
                  link_of (At p desc),
                  put desc.link_id ∙ yields ∙ ap (λ x. some (link_of x)) same_e,
                  added-Matches p desc within,
                )
          ]
    ]

  -- the batch is carried out, and leaves the described links
  pub batch-Reconciled :
      (g' : Graph) × (apply_link_batch r
          (removal_ids describe r known persisted edges plan h)
          (additions plan.0)
        ≡ ok (record (flushed r) { topology = g'; topo_generation = suc r.topo_generation }, none))
      × IsCurrent g'
      × Reconciled describe known (Pairs describe r known persisted edges plan h) g'
  unfolding apply_link_batch
  batch-Reconciled =
      let (g, made, current, gone, nodes) =
        remove_each_lem (removal_ids describe r known persisted edges plan h) r.topology
          h.current in
      let (g', added, current', put) =
        add_each_lem [] plan.0 [] g current h.claims
          (removed-AllCanAdd describe r known persisted edges plan h g gone nodes) in
      (
        g',
        rw (apply_link_batch, made, added) refl,
        current',
        record { sound = left_sound g g' gone put; full = left_full g g' gone put },
      )
