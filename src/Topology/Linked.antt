-- ===== src/Topology/Linked.antt =====
-- How the addition of a linked node ends.
pub mod Ending
use zl_zpr_visaservice.Base.{
  String, String-HasEq, ◌==◌, ◌≡◌, ◌≢◌, ◌⊎◌, refl, sym, ap, ◌∙◌, Bool, true, false, not, ◌||◌, List,
  [], ◌∷◌, Option, none, some, set_insert, contains-set_insert, lookup, contains, arith, Bool-cases,
  inl, inr, eq_of_beq, beq_refl, Result, ok, err, panic, ◌>>=◌, if◌then◌else◌,
}
use zl_zpr_visaservice.IpAddr.{IpAddr, IpAddr-HasEq}
use zl_zpr_visaservice.Policy.Links.{LinkDescription}
use zl_zpr_visaservice.Graph.{
  Graph, Link, TopologyError, link_exists, link_to_self, node_not_found, Pair-HasEq, has_node,
}
use zl_zpr_visaservice.Graph.Walks.{has_edge}
use zl_zpr_visaservice.Graph.Change.Current.{IsCurrent}
use zl_zpr_visaservice.Graph.Change.Added.{WithLink}
use zl_zpr_visaservice.Router
use zl_zpr_visaservice.Router.{RouterInner, flushed}
use zl_zpr_visaservice.Router.Routes
use zl_zpr_visaservice.Router.Routes.{get_peers}
use zl_zpr_visaservice.Topology.{
  ServiceError, topology, store, AddLinkedNodeError, new_node_failed, existing_node_failed, failure,
  Write, written, refused, unconfirmed, Edges, TopologyMgr, ActorMgr, canonical, add_edge,
  rollback_created_node, undone, failing, saved, persist_link, after_install, link_node, with_actor,
  created, linked_again, add_described, add_linked_node, install_router_link,
}
use zl_zpr_visaservice.Topology.Undo.{
  Unchanged, WithNode, add_node_lem, remove_node_lem, WithNode-undone, WithLink-undone, Added,
  add_link-Added,
}

abbrev pub described_link : IpAddr → IpAddr → LinkDescription → Link
described_link via n desc = record { a = via; b = n; attributes = desc.attrs; cost = desc.cost }

module _ (encode : IpAddr → String) (actors : ActorMgr)
    (describe : IpAddr → IpAddr → Result ServiceError LinkDescription) (via n : IpAddr) where
  -- no other edge of the database is touched
  abbrev pub Stores : Edges → Edges → Type 0
  Stores before edges =
      (e : IpAddr × IpAddr)
      → (canonical encode via n == e) ≡ false
      → contains edges e ≡ contains before e

  -- the described link is new, or the nodes were peers, or they were none and its id was in use
  abbrev pub LinkedBy : LinkDescription → RouterInner → Graph → Type 0
  LinkedBy desc r g =
      ((lookup desc.link_id r.topology.edges ≡ none)
        × ((i : String)
            → lookup i g.edges ≡ (
                if desc.link_id == i
                then some (described_link via n desc)
                else lookup i r.topology.edges)))
      ⊎ (((contains (get_peers r n) via ≡ true)
            ⊎ ((contains (get_peers r n) via ≡ false)
                × (lookup desc.link_id r.topology.edges ≢ none)))
          × ((i : String) → lookup i g.edges ≡ lookup i r.topology.edges))

  -- the node is there, linked, and its edge is persisted
  pub record Linked (desc : LinkDescription) (m m' : TopologyMgr) : Type 0 where
    pub current : IsCurrent m'.router.topology
    pub nodes :
        (q : IpAddr) → has_node m'.router.topology q ≡ (n == q || has_node m.router.topology q)
    pub link : LinkedBy desc m.router m'.router.topology
    pub edge : contains m'.edges (canonical encode via n) ≡ true

  -- success, or an error that says whether the node was there, and leaves the nodes and the links
  abbrev pub Completes :
      TopologyMgr × actors.State
      → Result TopologyError ((TopologyMgr × actors.State) × Option AddLinkedNodeError)
      → Type 0
  Completes (m, st) (ok ((m', st'), none)) =
      (desc : LinkDescription) × (describe via n ≡ ok desc)
      × Linked desc m m'
      × Stores m.edges m'.edges
  Completes (m, st) (ok ((m', st'), some (new_node_failed e))) =
      (has_node m.router.topology n ≡ false)
      × Unchanged m.router.topology m'.router.topology
      × Stores m.edges m'.edges
  Completes (m, st) (ok ((m', st'), some (existing_node_failed e))) =
      (has_node m.router.topology n ≡ true)
      × Unchanged m.router.topology m'.router.topology
      × Stores m.edges m'.edges
      × (st' ≡ st)
  Completes (m, st) (err e) = ⊥
  Completes (m, st) panic = ⊥

  module _ (desc : LinkDescription) (policy : describe via n ≡ ok desc) (m0 : TopologyMgr)
      (st0 : actors.State) (current : IsCurrent m0.router.topology) where
    -- what there is to take back
    abbrev pub Stage : Bool → Bool → Graph → Type 0
    Stage false added g = WithNode m0.router.topology n g
    Stage true true g =
        (lookup desc.link_id m0.router.topology.edges ≡ none)
        × WithLink m0.router.topology desc.link_id (described_link via n desc) g
    Stage true false g = Unchanged m0.router.topology g

    pub failing-Completes :
        (pre added : Bool) (e : ServiceError) (m : TopologyMgr) (st : actors.State)
        → has_node m0.router.topology n ≡ pre
        → Stage pre added m.router.topology
        → Stores m0.edges m.edges
        → (pre ≡ true → st ≡ st0)
        → Completes
            (m0, st0)
            (failing encode actors
              (failure pre e)
              (undone encode actors pre added desc.link_id n (m, st)))
    unfolding undone rollback_created_node
    failing-Completes false added e m st was stage stores same =
        let (u, made, after) = WithNode-undone m0.router m.router n current was stage in
        rw (undone, rollback_created_node, made) (was, after, stores)
    failing-Completes true true e m st was (free, stage) stores same =
        let (u, made, after) =
          WithLink-undone m0.router.topology m.router desc.link_id (described_link via n desc) free
            stage in
        rw (undone, made) (was, after, stores, same refl)
    failing-Completes true false e m st was stage stores same = (was, stage, stores, same refl)

    -- an edge is written, or it is not, or nobody knows
    pub persist_link-Completes :
        (w : Write) (pre added : Bool) (m : TopologyMgr) (st : actors.State)
        → has_node m0.router.topology n ≡ pre
        → Stage pre added m.router.topology
        → m.edges ≡ m0.edges
        → (pre ≡ true → st ≡ st0)
        → IsCurrent m.router.topology
        → ((q : IpAddr) → has_node m.router.topology q ≡ (n == q || has_node m0.router.topology q))
        → LinkedBy desc m0.router m.router.topology
        → Completes (m0, st0) (persist_link encode actors w pre added desc.link_id via n (m, st))
    unfolding persist_link add_edge
    persist_link-Completes w pre added m st was stage same same_st after nodes link = by_write w
      where
        stored : Stores m0.edges (set_insert (canonical encode via n) m.edges)
        stored e other =
            contains-set_insert (canonical encode via n) e m.edges ∙ rw (other, same) refl

        by_write :
            (x : Write)
            → Completes
                (m0, st0)
                (persist_link encode actors x pre added desc.link_id via n (m, st))
        by_write written = (
          desc,
          policy,
          record {
            current = after;
            nodes = nodes;
            link = link;
            edge =
                contains-set_insert (canonical encode via n) (canonical encode via n) m.edges
                ∙ rw (beq_refl (canonical encode via n)) refl;
          },
          stored,
        )
        by_write refused =
            failing-Completes pre added store m st was stage
              (λ e other. ap (λ x. contains x e) same) same_st
        by_write unconfirmed =
            failing-Completes pre added store
              (record m { edges = set_insert (canonical encode via n) m.edges }) st was stage stored
              same_st

    -- the node without the link
    pub record Placed (pre : Bool) (m : TopologyMgr) (st : actors.State) : Type 0 where
      pub was : has_node m0.router.topology n ≡ pre
      pub now : IsCurrent m.router.topology
      pub edges :
          (i : String) → lookup i m.router.topology.edges ≡ lookup i m0.router.topology.edges
      pub nodes :
          (q : IpAddr) → has_node m.router.topology q ≡ (n == q || has_node m0.router.topology q)
      pub stored : m.edges ≡ m0.edges
      pub same_actors : pre ≡ true → st ≡ st0
      pub strangers : contains (get_peers m0.router n) via ≡ false

    pub known_node :
        has_node m0.router.topology n ≡ true
        → (q : IpAddr) → (n == q || has_node m0.router.topology q) ≡ has_node m0.router.topology q
    known_node there q = elim (Bool-cases (n == q)) [
      | inl same ↦
          rw same (sym (ap (has_node m0.router.topology) (sym (eq_of_beq n q same)) ∙ there))
      | inr other ↦ rw other refl
    ]

    pub Placed-Stage :
        (pre : Bool) (m : TopologyMgr) (st : actors.State)
        → Placed pre m st
        → Stage pre false m.router.topology
    Placed-Stage false m st h = record {
      current = h.now;
      edges = λ i. inl (h.edges i);
      nodes = h.nodes;
    }
    Placed-Stage true m st h = record {
      current = h.now;
      edges = h.edges;
      nodes = λ q. h.nodes q ∙ known_node h.was q;
    }

    pub linked-Stage :
        (pre : Bool) (m : TopologyMgr) (st : actors.State) (r : RouterInner)
        → Placed pre m st
        → lookup desc.link_id m.router.topology.edges ≡ none
        → WithLink m.router.topology desc.link_id (described_link via n desc) r.topology
        → Stage pre true r.topology
    linked-Stage false m st r h free (after, edges, nodes) = record {
      current = after;
      edges = λ i. elim (Bool-cases (desc.link_id == i)) [
        | inl here ↦
            let is_i = eq_of_beq desc.link_id i here in
            inr (
              ap (λ x. lookup x m0.router.topology.edges) (sym is_i)
                  ∙ sym (h.edges desc.link_id)
                  ∙ free,
              after.valid.at_b i (described_link via n desc) (edges i ∙ rw here refl),
            )
        | inr other ↦ inl (edges i ∙ rw (other, h.edges i) refl)
      ];
      nodes = λ q. nodes q ∙ h.nodes q;
    }
    linked-Stage true m st r h free (after, edges, nodes) = (
      sym (h.edges desc.link_id) ∙ free,
      (after, (λ i. edges i ∙ rw (h.edges i) refl), λ q. nodes q ∙ h.nodes q ∙ known_node h.was q),
    )
