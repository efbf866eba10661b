-- ===== src/Topology/Restore/Outcome.antt =====
-- How a restore at the start ends.
use zl_zpr_visaservice.Base.{
  String, String-HasEq, ◌==◌, ◌≡◌, ◌≢◌, refl, sym, ap, ◌∙◌, Bool, true, false, List, [], ◌∷◌,
  lookup, contains, arith, Bool-cases, inl, inr, Result, err, panic,
}
use zl_zpr_visaservice.IpAddr.{IpAddr, IpAddr-HasEq}
use zl_zpr_visaservice.Policy.Links.{LinkDescription}
use zl_zpr_visaservice.Graph.{node_exists, Pair-HasEq, has_node}
use zl_zpr_visaservice.Graph.Change
use zl_zpr_visaservice.Graph.Change.Current.{IsCurrent}
use zl_zpr_visaservice.Router
use zl_zpr_visaservice.Router.{RouterInner, flushed}
use zl_zpr_visaservice.Topology.{ServiceError, Write, TopologyMgr}
use zl_zpr_visaservice.Topology.Undo.{add_node_lem}
use zl_zpr_visaservice.Topology.Restore.{Restored, restore_nodes, restore_read, restore_from_state}
use zl_zpr_visaservice.Topology.Restore.OneByOne.{Sound, Restores, restore_edges-Restores}

there_already :
    (r : RouterInner) (n : IpAddr)
    → has_node r.topology n ≡ true
    → Router.add_node r n ≡ err node_exists
unfolding Router.add_node Change.add_node
there_already r n old = rw old refl

module _ (encode : IpAddr → String) (erase : IpAddr → IpAddr → Write)
    (describe : IpAddr → IpAddr → Result ServiceError LinkDescription)
    (total : (a b : IpAddr) → describe a b ≢ panic) (known : List IpAddr) (m0 : TopologyMgr) where
  -- the router with more nodes, and the same links and edges
  record Prepared (ns : List IpAddr) (m m' : TopologyMgr) : Type 0 where
    pub current : IsCurrent m'.router.topology
    pub links : m'.router.topology.edges ≡ m0.router.topology.edges
    pub edges : m'.edges ≡ m0.edges
    pub nodes : (n : IpAddr) → contains ns n ≡ true → has_node m'.router.topology n ≡ true
    pub kept :
        (n : IpAddr) → has_node m.router.topology n ≡ true → has_node m'.router.topology n ≡ true

  as_before :
      (m : TopologyMgr)
      → IsCurrent m.router.topology
      → m.router.topology.edges ≡ m0.router.topology.edges
      → Sound encode erase describe total known m0 m
  as_before m current same = record {
    current = current;
    links = λ id link found. inl (ap (lookup id) (sym same) ∙ found);
  }

  restore_nodes-Restores :
      (ns : List IpAddr) (rest : TopologyMgr → Restored) (m : TopologyMgr)
      → IsCurrent m.router.topology
      → m.router.topology.edges ≡ m0.router.topology.edges
      → m.edges ≡ m0.edges
      → ((m' : TopologyMgr)
          → Prepared ns m m'
          → Restores encode erase describe total known m0 (rest m'))
      → Restores encode erase describe total known m0 (restore_nodes ns rest m)
  restore_nodes-Restores [] rest m current links edges next = next m (record {
    current = current;
    links = links;
    edges = edges;
    nodes = λ n within. absurd (cc within);
    kept = λ n h. h;
  })
  restore_nodes-Restores (n ∷ ns) rest m current links edges next =
      elim (Bool-cases (has_node m.router.topology n)) [
        | inl old ↦ rw (there_already m.router n old) (as_before m current links)
        | inr new ↦
            let (r, made, after, same, nodes) = add_node_lem m.router n current new in
            rw made (
              restore_nodes-Restores ns rest (record m { router = r }) after (same ∙ links) edges
                (λ m' h. next m' (record {
                  current = h.current;
                  links = h.links;
                  edges = h.edges;
                  nodes = λ q within. elim (Bool-cases (n == q)) [
                    | inl here ↦ h.kept q (nodes q ∙ ground (arith, here))
                    | inr other ↦ h.nodes q (rw other at within)
                  ];
                  kept = λ q h'. h.kept q (nodes q ∙ ground (arith, h'));
                })))
      ]

  -- On a current topology, where policy answers for any two nodes, a restore never panics. It leaves a
  -- current topology whose links were there before or are those of edges of the database between known
  -- nodes, as policy describes them; so also where it ends in an error. Without an error each known node
  -- is there, and the id of each link that policy describes for such an edge is in use.
  pub restore_from_state-Restores :
      (readable : Bool)
      → IsCurrent m0.router.topology
      → Restores encode erase describe total known m0
          (restore_from_state encode erase describe readable known m0)
  unfolding restore_from_state
  restore_from_state-Restores readable current =
      restore_nodes-Restores known (restore_read encode erase describe readable known) m0 current
        refl refl (λ m h. read m h readable)
    where
      read :
          (m : TopologyMgr)
          → Prepared known m0 m
          → (b : Bool)
          → Restores encode erase describe total known m0
              (restore_read encode erase describe b known m)
      read m h false = as_before m h.current h.links
      read m h true =
          restore_edges-Restores encode erase describe total known m0 m.edges m (record {
            sound = as_before m h.current h.links;
            nodes = h.nodes;
            listed = λ e within. ap (λ es. contains es e) (sym h.edges) ∙ within;
            seen = λ e desc within later.
                absurd (cc (sym later ∙ ap (λ es. contains es e) h.edges ∙ within));
          })
