-- ===== src/Topology/Restore.antt =====
-- vs/src/topology_mgr.rs: `restore_from_state`, at the start. `readable` is whether the edges could be
-- listed, `erase` how the removal of an edge ends.
pub mod OneByOne
pub mod Outcome
use zl_zpr_visaservice.Base.{
  ℕ-HasEq, String, String-HasEq, Bool, true, false, List, [], ◌∷◌, Option, none, some, Result, ok,
  err, panic, ◌>>=◌,
}
use zl_zpr_visaservice.IpAddr.{IpAddr, IpAddr-HasEq}
use zl_zpr_visaservice.Policy.Links.{LinkDescription}
use zl_zpr_visaservice.Graph.{TopologyError, link_exists, Pair-HasEq}
use zl_zpr_visaservice.Router
use zl_zpr_visaservice.Router.{RouterInner, LinkSpec, apply_link_batch}
use zl_zpr_visaservice.Topology.{
  ServiceError, topology, store, Write, Edges, TopologyMgr, remove_edge, install_router_link,
  EdgeDecision, install, gc, decide_edge,
}

-- at the start; `none` if all went well
abbrev pub Restored : Type 0
Restored = Result TopologyError (TopologyMgr × Option ServiceError)

abbrev pub after_node :
    TopologyMgr → (TopologyMgr → Restored) → Result TopologyError RouterInner → Restored
after_node m rest (ok r) = rest (record m { router = r })
after_node m rest (err e) = ok (m, some (topology e))
after_node m rest panic = panic

abbrev pub restore_nodes : List IpAddr → (TopologyMgr → Restored) → TopologyMgr → Restored
restore_nodes [] rest m = rest m
restore_nodes (n ∷ ns) rest m = after_node m (restore_nodes ns rest) (Router.add_node m.router n)

abbrev pub after_link : (TopologyMgr → Restored) → TopologyMgr → Option TopologyError → Restored
after_link rest m none = rest m
after_link rest m (some link_exists) = rest m
after_link rest m (some e) = ok (m, some (topology e))

module _ (encode : IpAddr → String) (erase : IpAddr → IpAddr → Write) where
  abbrev pub restore_edge :
      IpAddr × IpAddr
      → (TopologyMgr → Restored)
      → TopologyMgr
      → Result ServiceError EdgeDecision
      → Restored
  restore_edge (a, b) rest m (err e) = ok (m, some e)
  restore_edge (a, b) rest m panic = panic
  restore_edge (a, b) rest m (ok gc) =
      rest (record m { edges = (remove_edge encode (erase a b) a b m.edges).1 })
  restore_edge (a, b) rest m (ok (install desc)) = do
    r ← install_router_link m.router a b desc
    after_link rest (record m { router = r.0 }) r.1

  module _ (describe : IpAddr → IpAddr → Result ServiceError LinkDescription) where
    abbrev pub restore_edges : List IpAddr → Edges → TopologyMgr → Restored
    restore_edges known [] m = ok (m, none)
    restore_edges known ((a, b) ∷ es) m =
        restore_edge (a, b) (restore_edges known es) m (decide_edge describe known a b)

    abbrev pub restore_read : Bool → List IpAddr → TopologyMgr → Restored
    restore_read false known m = ok (m, some store)
    restore_read true known m = restore_edges known m.edges m

    unfoldable pub restore_from_state : Bool → List IpAddr → TopologyMgr → Restored
    unfolding decide_edge remove_edge
    restore_from_state readable known m = restore_nodes known (restore_read readable known) m
