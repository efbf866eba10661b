-- ===== src/Topology/Tests.antt =====
-- A policy of two peerings, and what the topology does with it.
use zl_zpr_visaservice.Base.{
  ℕ, suc, String, String-HasEq, ◌==◌, Map, if◌then◌else◌, arith, ◌≡◌, refl, true, List, [], ◌∷◌,
  Option, none, some, lookup, insert, remove, set_insert, to_set, Result, ok, panic, ◌≢◌,
}
use zl_zpr_visaservice.IpAddr.{IpAddr, IpAddr-HasEq, v6, v4}
use zl_zpr_visaservice.Attribute.Equivalent.{normalize, attributes_equivalent}
use zl_zpr_visaservice.Policy.Links
use zl_zpr_visaservice.Policy.Links.{ℤ, pos, Peering, LinkDescription, load_links}
use zl_zpr_visaservice.Graph.Dijkstra.{
  pop_min, offer, relax, relax_all, expand, search, trace, collect, dijkstra_from, best_from,
  recompute,
}
use zl_zpr_visaservice.Policy.Links.First.{first_joining, described, describe_link-first_joining}
use zl_zpr_visaservice.Graph.{Link, TopologyError, Pair-HasEq, link_id_between, neighbors}
use zl_zpr_visaservice.Graph.Change
use zl_zpr_visaservice.Graph.Change.Best.{changes-Safe}
use zl_zpr_visaservice.Router
use zl_zpr_visaservice.Router.{RouterInner, apply_link_batch, invalidate_keys}
use zl_zpr_visaservice.Router.Routes.{has_node, get_peers, link_between, link_snapshot}
use zl_zpr_visaservice.Topology
use zl_zpr_visaservice.Topology.{
  ServiceError, store, Edges, Write, written, unconfirmed, TopologyMgr, ActorMgr,
  AddLinkedNodeError, new_node_failed, existing_node_failed,
}
use zl_zpr_visaservice.Topology.Snapshot.{describe_link, describe_link-Describes}
use zl_zpr_visaservice.Topology.Restore.{Restored, restore_from_state}
use zl_zpr_visaservice.Topology.Restore.OneByOne.{Restores}
use zl_zpr_visaservice.Topology.Restore.Outcome.{restore_from_state-Restores}
use zl_zpr_visaservice.Topology.Revalidate.{
  RevalidationReport, work_edges, plan_edges, add_nodes, carry_out, rewrite_router,
  revalidate_against_policy,
}
use zl_zpr_visaservice.Topology.Revalidate.Outcome.{Passed, revalidate-described}
use zl_zpr_visaservice.Topology.Linked.{Completes}
use zl_zpr_visaservice.Topology.Linked.Ending.{add_linked_node-Completes}
use zl_zpr_visaservice.Graph.Change.Current.{IsCurrent, blank-IsCurrent}

abbrev no_number : String → Option ℤ
no_number s = none

abbrev net_policy : List Peering
net_policy =
    record { link_id = "l12"; node_a = v6 1; node_b = v6 2; attributes = [] }
    ∷ record { link_id = "l23"; node_a = v6 2; node_b = v6 3; attributes = [] }
    ∷ []

abbrev moved_policy : List Peering
moved_policy =
    record { link_id = "l12"; node_a = v6 3; node_b = v6 2; attributes = [] }
    ∷ record { link_id = "m12"; node_a = v6 1; node_b = v6 2; attributes = [] }
    ∷ []

abbrev text_of : IpAddr → String
text_of n = if n == v6 1 then "1" else if n == v6 2 then "2" else "3"

abbrev goes_well : IpAddr → IpAddr → Write
goes_well a b = written

abbrev known : List IpAddr
known = v6 1 ∷ v6 2 ∷ v6 3 ∷ []

abbrev empty_router : RouterInner
empty_router = record {
  topology = record { nodes = []; edges = []; best_routes = [] };
  route_cache = [];
  link_to_cache_keys = [];
  topo_generation = 0;
}

abbrev start : TopologyMgr
start = record { router = empty_router; edges = (v6 1, v6 2) ∷ (v6 1, v6 3) ∷ (v6 2, v6 3) ∷ [] }

code : Unit {0}
unfolding lookup insert remove set_insert to_set Links.describe_link Links.get_peers_for_node
    Links.load_links Links.load_peer_table Links.get_link_attrs Links.get_attributes_for_link
    Links.get_link_cost Links.description describe_link pop_min offer relax relax_all expand search
    trace collect dijkstra_from best_from recompute Change.put_link Change.add_link Change.add_node
    neighbors Change.remove_link_impl Change.remove_link link_id_between Change.remove_node
    Router.remove_node Router.remove_link Router.add_link Router.add_node invalidate_keys
    apply_link_batch has_node get_peers link_between link_snapshot normalize attributes_equivalent
    Topology.add_edge Topology.remove_edge Topology.rollback_created_node Topology.undone
    Topology.persist_link Topology.link_node Topology.add_linked_node
    Topology.add_node_if_not_exists Topology.describe_policy_link_either Topology.decide_edge
    restore_from_state work_edges add_nodes plan_edges rewrite_router carry_out
    revalidate_against_policy
code = tt

describes :
    describe_link no_number 0 (load_links (some net_policy)) (v6 2) (v6 1)
    ≡ ok (record { link_id = "l12"; attrs = []; cost = 1 })
unfolding code
describes = refl

describe_link-first_joining_example :
    (Links.describe_link no_number 0 (load_links (some net_policy)) (v6 2) (v6 1)
      ≡ described (Links.description no_number 0 (load_links (some net_policy))) (some "l12"))
    × (Links.describe_link no_number 0 (load_links (some net_policy)) (v6 2) (v6 1)
        ≡ Links.describe_link no_number 0 (load_links (some net_policy)) (v6 1) (v6 2))
describe_link-first_joining_example =
    describe_link-first_joining no_number 0 (some net_policy) (v6 2) (v6 1)

-- the links after a pass, and what it reports
abbrev Pass : Type 0
Pass = Result TopologyError (TopologyMgr × Result ServiceError RevalidationReport)

abbrev manager_of : Pass → TopologyMgr
manager_of (ok (m, r)) = m
manager_of _ = start

abbrev summary : Pass → Option (Map String Link × Edges × RevalidationReport)
summary (ok (m, ok report)) = some (m.router.topology.edges, m.edges, report)
summary _ = none

abbrev pass : List Peering → TopologyMgr → Pass
pass policy m =
    revalidate_against_policy text_of goes_well goes_well
      (describe_link no_number 0 (load_links (some policy))) true known m

abbrev plain : IpAddr → IpAddr → Link
plain a b = record { a = a; b = b; attributes = []; cost = 1 }

first_pass :
    summary (pass net_policy start)
    ≡ some (
      ("l12", plain (v6 1) (v6 2)) ∷ ("l23", plain (v6 2) (v6 3)) ∷ [],
      (v6 1, v6 2) ∷ (v6 2, v6 3) ∷ [],
      record { links_removed = 1; links_updated = 0; links_repaired = 2; orphaned_nodes = [] },
    )
unfolding code
first_pass = refl

-- an id moves to other nodes
second_pass :
    summary (pass moved_policy (manager_of (pass net_policy start)))
    ≡ some (
      ("m12", plain (v6 1) (v6 2)) ∷ ("l12", plain (v6 2) (v6 3)) ∷ [],
      (v6 1, v6 2) ∷ (v6 2, v6 3) ∷ [],
      record { links_removed = 0; links_updated = 2; links_repaired = 0; orphaned_nodes = [] },
    )
unfolding code
second_pass = refl

joins_other_nodes : (n : IpAddr) → first_joining n n net_policy ≡ none
joins_other_nodes (v4 m) = refl
joins_other_nodes (v6 m) = ground arith

revalidate-described_example :
    Passed
      (describe_link no_number 0 (load_links (some net_policy)))
      known
      start
      (pass net_policy start)
unfolding lookup
revalidate-described_example =
    revalidate-described no_number 0 (some net_policy) text_of goes_well goes_well true known start
      joins_other_nodes blank-IsCurrent (λ i j x y at_i. absurd (cc at_i))

abbrev actors : ActorMgr
actors = record {
  State = ℕ;
  add_node = λ n. (none, suc n);
  remove_node = λ a n. n;
  remove_actor_by_zpr_addr = λ a n. n;
}

abbrev one_node : TopologyMgr
one_node = record {
  router = record empty_router {
    topology = record { nodes = (v6 1, record { edges = [] }) ∷ []; edges = []; best_routes = [] };
  };
  edges = [];
}

one_node-IsCurrent : IsCurrent one_node.router.topology
unfolding code
one_node-IsCurrent = (changes-Safe empty_router.topology (v6 1) (v6 1) "" [] 0 blank-IsCurrent).0

abbrev Ended : Type 0
Ended = Result TopologyError ((TopologyMgr × ℕ) × Option AddLinkedNodeError)

abbrev connect : Write → TopologyMgr → Ended
connect w m =
    Topology.add_linked_node text_of actors
      (describe_link no_number 0 (load_links (some net_policy))) w (v6 1) (v6 2) (m, 0)

add_linked_node-Completes_example :
    Completes text_of actors
      (describe_link no_number 0 (load_links (some net_policy)))
      (v6 1)
      (v6 2)
      (one_node, 0)
      (connect written one_node)
unfolding code
add_linked_node-Completes_example =
    add_linked_node-Completes text_of actors
      (describe_link no_number 0 (load_links (some net_policy))) (v6 1) (v6 2) written one_node 0
      one_node-IsCurrent (λ panics. cc panics)

-- the peers of the new node, the database, the actors and the error
abbrev ending : Ended → Option (List IpAddr × Edges × ℕ × Option AddLinkedNodeError)
ending (ok ((m, st), e)) = some (get_peers m.router (v6 2), m.edges, st, e)
ending _ = none

linked : ending (connect written one_node) ≡ some (v6 1 ∷ [], (v6 1, v6 2) ∷ [], 1, none)
unfolding code
linked = refl

-- the write is not confirmed: the node goes again, and its edge may have stayed
taken_back :
    ending (connect unconfirmed one_node)
    ≡ some ([], (v6 1, v6 2) ∷ [], 1, some (new_node_failed store))
unfolding code
taken_back = refl

-- the link's id is that of two other nodes: the call succeeds, and the node has no link
id_in_use :
    ending (
      connect written (
        manager_of (
          pass
            (record { link_id = "l12"; node_a = v6 1; node_b = v6 3; attributes = [] } ∷ [])
            (record start { edges = (v6 1, v6 3) ∷ [] }))))
    ≡ some ([], (v6 1, v6 2) ∷ (v6 1, v6 3) ∷ [], 0, none)
unfolding code
id_in_use = refl

-- the links of a restored router, the database and the error
abbrev restored : Restored → Option (Map String Link × Edges × Option ServiceError)
restored (ok (m, e)) = some (m.router.topology.edges, m.edges, e)
restored _ = none

restoring :
    restored (
      restore_from_state text_of goes_well
        (describe_link no_number 0 (load_links (some net_policy)))
        true
        known
        start)
    ≡ some (
      ("l12", plain (v6 1) (v6 2)) ∷ ("l23", plain (v6 2) (v6 3)) ∷ [],
      (v6 1, v6 2) ∷ (v6 2, v6 3) ∷ [],
      none,
    )
unfolding code
restoring = refl

answers : (a b : IpAddr) → describe_link no_number 0 (load_links (some net_policy)) a b ≢ panic
answers = (describe_link-Describes no_number 0 (some net_policy) joins_other_nodes).total

restore_from_state-Restores_example :
    Restores text_of goes_well
      (describe_link no_number 0 (load_links (some net_policy)))
      answers
      known
      start
      (restore_from_state text_of goes_well
        (describe_link no_number 0 (load_links (some net_policy)))
        true
        known
        start)
restore_from_state-Restores_example =
    restore_from_state-Restores text_of goes_well
      (describe_link no_number 0 (load_links (some net_policy))) answers known start true
      blank-IsCurrent
