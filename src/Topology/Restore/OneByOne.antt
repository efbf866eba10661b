-- ===== src/Topology/Restore/OneByOne.antt =====
-- What a restore makes of the edges of the database, one after the other.
use zl_zpr_visaservice.Base.{
  String, String-HasEq, ◌==◌, ◌≡◌, ◌≢◌, ◌⊎◌, refl, sym, ap, ◌∙◌, true, false, List, [], ◌∷◌, none,
  some, lookup, contains, arith, Bool-cases, inl, inr, eq_of_beq, beq_refl, some_inj, ok_inj,
  Result, ok, err, panic,
}
use mathlib.Core.Path.{subst}
use zl_zpr_visaservice.IpAddr.{IpAddr, IpAddr-HasEq}
use zl_zpr_visaservice.Policy.Links.{LinkDescription}
use zl_zpr_visaservice.Graph.{Link, Pair-HasEq, has_node}
use zl_zpr_visaservice.Graph.Change.Current.{IsCurrent}
use zl_zpr_visaservice.Graph.Change.Added.{WithLink}
use zl_zpr_visaservice.Router.{RouterInner, flushed}
use zl_zpr_visaservice.Topology.{
  ServiceError, Write, Edges, TopologyMgr, EdgeDecision, install, gc, decide_edge,
}
use zl_zpr_visaservice.Topology.Undo.{Added, add_link-Added}
use zl_zpr_visaservice.Topology.Linked.{described_link}
use zl_zpr_visaservice.Topology.Restore.{Restored, restore_edge, restore_edges}
use zl_zpr_visaservice.Topology.Revalidate.Plan.{install_inj}
use zl_zpr_visaservice.Topology.Revalidate.Described.{decide_edge-total}

module _ (encode : IpAddr → String) (erase : IpAddr → IpAddr → Write)
    (describe : IpAddr → IpAddr → Result ServiceError LinkDescription)
    (total : (a b : IpAddr) → describe a b ≢ panic) (known : List IpAddr) (m0 : TopologyMgr) where
  -- a link of an edge of the database, as policy describes it
  abbrev pub Restorable : String → Link → Type 0
  Restorable id link =
      (e : IpAddr × IpAddr) × (desc : LinkDescription) × (contains m0.edges e ≡ true)
      × (decide_edge describe known e.0 e.1 ≡ ok (install desc))
      × (desc.link_id ≡ id)
      × (described_link e.0 e.1 desc ≡ link)

  -- no link but those that were there and those of the database
  pub record Sound (m : TopologyMgr) : Type 0 where
    pub current : IsCurrent m.router.topology
    pub links :
        (id : String) (link : Link)
        → lookup id m.router.topology.edges ≡ some link
        → (lookup id m0.router.topology.edges ≡ some link) ⊎ Restorable id link

  -- the known nodes are there, and each edge of the database that policy describes has its link's id in use
  pub record Full (m : TopologyMgr) : Type 0 where
    pub nodes : (n : IpAddr) → contains known n ≡ true → has_node m.router.topology n ≡ true
    pub ids :
        (e : IpAddr × IpAddr) (desc : LinkDescription)
        → contains m0.edges e ≡ true
        → decide_edge describe known e.0 e.1 ≡ ok (install desc)
        → lookup desc.link_id m.router.topology.edges ≢ none

  abbrev pub Restores : Restored → Type 0
  Restores (ok (m, none)) = Sound m × Full m
  Restores (ok (m, some e)) = Sound m
  Restores (err e) = ⊥
  Restores panic = ⊥

  -- on the way through the edges
  abbrev pub Seen : Edges → TopologyMgr → Type 0
  Seen es m =
      (e : IpAddr × IpAddr) (desc : LinkDescription)
      → contains m0.edges e ≡ true
      → contains es e ≡ false
      → decide_edge describe known e.0 e.1 ≡ ok (install desc)
      → lookup desc.link_id m.router.topology.edges ≢ none

  pub record Underway (es : Edges) (m : TopologyMgr) : Type 0 where
    pub sound : Sound m
    pub nodes : (n : IpAddr) → contains known n ≡ true → has_node m.router.topology n ≡ true
    pub listed : (e : IpAddr × IpAddr) → contains es e ≡ true → contains m0.edges e ≡ true
    pub seen : Seen es m

  -- one edge further
  Seen-next :
      (x : IpAddr × IpAddr) (es : Edges) (m m' : TopologyMgr)
      → Seen (x ∷ es) m
      → ((id : String)
          → lookup id m.router.topology.edges ≢ none
          → lookup id m'.router.topology.edges ≢ none)
      → ((desc : LinkDescription)
          → decide_edge describe known x.0 x.1 ≡ ok (install desc)
          → lookup desc.link_id m'.router.topology.edges ≢ none)
      → Seen es m'
  Seen-next x es m m' seen kept here e desc within later decides = elim (Bool-cases (x == e)) [
    | inl same ↦
        here desc (ap (λ y. decide_edge describe known y.0 y.1) (eq_of_beq x e same) ∙ decides)
    | inr other ↦ kept desc.link_id (seen e desc within (rw (other, later) refl) decides)
  ]

  module _ (x : IpAddr × IpAddr) (es : Edges) (rest : TopologyMgr → Restored) (m : TopologyMgr)
      (h : Underway (x ∷ es) m)
      (next : (m' : TopologyMgr) → Underway es m' → Restores (rest m')) where
    at_edge : contains m0.edges x ≡ true
    at_edge = h.listed x (rw (beq_refl x) refl)

    -- a router with the same topology
    passed :
        (m' : TopologyMgr)
        → m'.router.topology ≡ m.router.topology
        → ((desc : LinkDescription)
            → decide_edge describe known x.0 x.1 ≡ ok (install desc)
            → lookup desc.link_id m.router.topology.edges ≢ none)
        → Restores (rest m')
    passed m' same here = next m' (record {
      sound = record {
        current = subst IsCurrent (sym same) h.sound.current;
        links =
            λ id link found. h.sound.links id link (ap (λ g. lookup id g.edges) (sym same) ∙ found);
      };
      nodes = λ n k. ap (λ g. has_node g n) same ∙ h.nodes n k;
      listed = λ e within. h.listed e (rw within (ground arith));
      seen =
          Seen-next x es m m' h.seen
            (λ id there gone. there (ap (λ g. lookup id g.edges) (sym same) ∙ gone))
            (λ desc decides gone.
              here desc decides (ap (λ g. lookup desc.link_id g.edges) (sym same) ∙ gone));
    })

    with_link :
        (desc : LinkDescription) (r : RouterInner)
        → decide_edge describe known x.0 x.1 ≡ ok (install desc)
        → WithLink m.router.topology desc.link_id (described_link x.0 x.1 desc) r.topology
        → Restores (rest (record m { router = r }))
    with_link desc r decides (after, edges, nodes) =
        next (record m { router = r })
          (record {
            sound = record {
              current = after;
              links = λ id link found. elim (Bool-cases (desc.link_id == id)) [
                | inl here ↦ inr (
                  x,
                  desc,
                  at_edge,
                  decides,
                  eq_of_beq desc.link_id id here,
                  some_inj (sym (edges id ∙ rw here refl) ∙ found),
                )
                | inr other ↦ h.sound.links id link (sym (edges id ∙ rw other refl) ∙ found)
              ];
            };
            nodes = λ n k. nodes n ∙ h.nodes n k;
            listed = λ e within. h.listed e (rw within (ground arith));
            seen =
                Seen-next x es m (record m { router = r }) h.seen
                  (λ id there gone. elim (Bool-cases (desc.link_id == id)) [
                    | inl here ↦
                        let now : lookup id r.topology.edges ≡ some (described_link x.0 x.1 desc) =
                          edges id ∙ rw here refl in
                        cc (sym now ∙ gone)
                    | inr other ↦ there (sym (edges id ∙ rw other refl) ∙ gone)
                  ])
                  (λ desc' decides' gone.
                    let same : desc ≡ desc' =
                      install_inj desc desc' (ok_inj (sym decides ∙ decides')) in
                    let now : lookup desc.link_id r.topology.edges
                        ≡ some (described_link x.0 x.1 desc) =
                      edges desc.link_id ∙ rw (beq_refl desc.link_id) refl in
                    cc (
                      sym now
                      ∙ ap (λ (d : LinkDescription). lookup d.link_id r.topology.edges) same
                      ∙ gone));
          })

    restore_edge-Restores :
        (d : Result ServiceError EdgeDecision)
        → decide_edge describe known x.0 x.1 ≡ d
        → Restores (restore_edge encode erase x rest m d)
    restore_edge-Restores (err e) is_d = h.sound
    restore_edge-Restores panic is_d = absurd (decide_edge-total describe total known x.0 x.1 is_d)
    restore_edge-Restores (ok gc) is_d =
        passed _ refl (λ desc decides. absurd (cc (sym is_d ∙ decides)))
    restore_edge-Restores (ok (install desc)) is_d =
        elim (add_link-Added m.router x.0 x.1 desc.link_id desc.attrs desc.cost h.sound.current) [
          | Added.taken is_out used ↦ rw is_out (
              passed (record m { router = flushed m.router }) refl
                (λ desc' decides gone. used (
                  ap (λ (d : LinkDescription). lookup d.link_id m.router.topology.edges)
                    (install_inj desc desc' (ok_inj (sym is_d ∙ decides)))
                  ∙ gone)))
          | Added.refused e is_out which ↦ elim which [
            | inl is_e ↦
                rw (is_out, is_e) (record { current = h.sound.current; links = h.sound.links })
            | inr is_e ↦
                rw (is_out, is_e) (record { current = h.sound.current; links = h.sound.links })
          ]
          | Added.linked r is_out free linked ↦ rw is_out (with_link desc r is_d linked)
        ]

  pub restore_edges-Restores :
      (es : Edges) (m : TopologyMgr)
      → Underway es m
      → Restores (restore_edges encode erase describe known es m)
  restore_edges-Restores [] m h = (
    h.sound,
    record { nodes = h.nodes; ids = λ e desc within decides. h.seen e desc within refl decides },
  )
  restore_edges-Restores (x ∷ es) m h =
      restore_edge-Restores x es (restore_edges encode erase describe known es) m h
        (restore_edges-Restores es) (decide_edge describe known x.0 x.1) refl
