-- ===== src/Lib.antt =====
-- The visa service of a ZPR network, as a verification library: when a flow of packets is allowed, what
-- an approved connection is, and the state that these decisions rest on.
--
-- The parts and how they interact. An adapter that connects is authenticated elsewhere and arrives as
-- two lists of attributes, claims that are authenticated and claims that are not. The evaluator matches
-- them against the join policies and makes an actor of them (Eval/Connect). When a packet asks for a
-- visa, the evaluator weighs the communication policies against the actors at both ends (Eval), and each
-- hit of an allow becomes a visa (Eval/Visas). Around it the shared decision (VisaPolicy) checks that
-- both actors are still authenticated and docked and that a route joins their nodes. The router answers
-- with routes over the graph of the nodes and their links, from a cache that each change of the graph
-- keeps up to date (Router over Graph). Which links the graph has follows policy: the topology manager
-- (Topology) adds a node with the link that policy describes for it (Policy/Links), restores the links
-- from the database, and after a policy update brings the router and the database in line. Addresses come from the pools (NetMgr); denials are kept
-- in a bounded log (DenyLog). The visas that are out, and their state on each node, are in a repository
-- (VisaRepo); after a policy update or a change of attributes a sweep (VisaReconciler) takes the shared
-- decision again for each of them and reports its verdicts to the repository.
--
-- Which file models which part, with paths from the root of the repository:
--   Base            lists, maps, sets, results and tests that the other files share
--   IpAddr          std::net::IpAddr as family and number
--   Attribute       libeval/src/attribute.rs: Attribute, AttributeBuilder, the keys (Attribute/Key),
--                   attributes_equivalent (Attribute/Equivalent)
--   Actor           libeval/src/actor.rs: every method of Actor; Actor/Invariant and Actor/Identity hold
--                   what is true of an actor between calls
--   JoinPolicy      libeval/src/joinpolicy.rs: JPolicy::matches is policy_matches, contains_exactly keeps
--                   its name
--   Policy          libeval/src/policy.rs: match_join_policies, join_services, join_services_for_role,
--                   lookup_identity_keys; CPolicy, Scope and AttrExpr are the fields of the Cap'n Proto
--                   readers that the evaluator reads; Policy/Links: Policy::describe_link and its tables
--   Eval            libeval/src/eval.rs, eval_result.rs, visa.rs, error.rs: eval_request, match_policies
--                   (match_from is its loop, hit_direction its body), match_policy_conditions,
--                   match_condition_to_actor, policy_scope_matches, scope_matches, visa_info_for_hit
--   Eval/Connect    libeval/src/eval.rs: approve_connection (approve_claims, finish_actor and last_resort
--                   are its parts in order) and approve_connected
--   DenyLog         vs/src/deny_log.rs: record_at_ms and recent
--   NetMgr          vs/src/net_mgr.rs: NetMgr over the trait AddrAllocator, its two implementations
--                   (NetMgr/V6, NetMgr/V4) and the AAA networks (NetMgr/Aaa)
--   VisaRepo        vs/src/db/visa.rs: VisaRepo::record_allow_verdict, record_deny_verdict,
--                   mark_visa_revoked, transition_node_visa_state, remove_node_if_pending_revoke and
--                   purge_expired over VisaStore, the memory image that VisaStoreInner is; VisaRepo/Store:
--                   store_visa
--   VisaPolicy      vs/src/visa_policy.rs: evaluate_against_policy, the docking nodes and
--                   route_for_allow; vs/src/visa_mgr.rs: recheck_visa_allowed and path_for_flow;
--                   vs/src/actor_mgr.rs: get_docking_node_for_actor and get_docking_node_for_aaa.
--                   VisaPolicy/Docking says where an actor is docked
--   VisaReconciler  vs/src/visa_reconciler.rs: revalidate_visas (revalidate_all is its loop,
--                   revalidate_visa its body)
--   Graph           vs/src/router.rs: Graph, with its best routes by Dijkstra's search (Graph/Dijkstra), its
--                   changes (Graph/Change) and the loop over all paths (Graph/AllPaths); Graph/Walks says
--                   what a valid graph is
--   Router          vs/src/router.rs: Router and RouterInner, the changes and what they evict, and
--                   libeval/src/eval_route.rs: RouteHint; Router/Routes: the methods that read the graph
--                   and the cache; Router/Cache: when the cache is right, through calls in any order;
--                   Router/Best: what a best route is
--   Topology        vs/src/topology_mgr.rs: TopologyMgr::add_linked_node, remove_node, decide_edge, and
--                   vs/src/db/link.rs: LinkRepo; Topology/Restore: restore_from_state;
--                   Topology/Revalidate: revalidate_against_policy (plan_edges decides, carry_out acts);
--                   Topology/Snapshot: vs/src/policy_mgr.rs: PolicySnapshot::describe_link
-- A file named Tests runs the definitions and applies the theorems at concrete data.
--
-- How the code is read. A method that takes `&mut self` returns the new state. A `HashMap` is an
-- association list in which a key that is written anew goes last, a `HashSet` a list without repeats;
-- no theorem depends on their order. A panic is a value (`panic`, or `none` where that is said). Time is
-- a number of nanoseconds since the epoch, and one operation reads the clock once. Machine integers are
-- natural numbers with the wrap-around written out where the code can reach it. Log output and the texts
-- of messages are left out; an error is told by its kind and by what its text reports.
--
-- Parameters stand for what is not in the repository, or not modelled: `parse_ip` for
-- `str::parse::<IpAddr>`, `hash_of` for the text made of an actor's `DefaultHasher` hash, the fields of a packet's description, the result
-- of reading a policy (`policy_rdr`), the methods of a network of the ipnet crate (`Net`), and the
-- numbers that a random generator yields (`draw`), whether a write reached the database (`written`), and the
-- actors in the database (`get_actor_by_zpr_addr` of `Parts`). Topology takes the text of an
-- address (`encode`), the actor manager (`ActorMgr`), and how each call of the database ends (`Write`);
-- Policy/Links takes `str::parse::<i32>` (`parse_i32`). Where a theorem needs more of them, it says so by a
-- named hypothesis: `IsNet64` is what ipnet documents of a /64. The protocol numbers 6, 17 and 58 are
-- the IANA's, as in the service's admin API document.
--
-- Fuel. `to_decimal` counts down from the successor of the number it prints, which has fewer digits than
-- that. `draws_v6` and `draws_v4` count the 10,000 draws of the source's loop. `search_fuel` bounds
-- Dijkstra's rounds: each push lowers a node's distance, which is at most the largest cost times the number
-- of nodes. The way back along `prev` takes at most one step for each of its entries, `suc (length prev)`.
-- `paths_fuel` bounds the loop over all paths: a frame takes a round for each link of its node and those of
-- the frames that it pushes, and frames are at most as deep as there are nodes. It is proved of these
-- last three, Dijkstra's rounds, the way back and the loop over all paths, that the loop ends before its
-- fuel does. All other recursion is on the data.
--
-- A network of prefix length 0 is outside the model of `draws_v4`: the source's shift overflows there.
-- The sums of u32 costs in u64 do not wrap for any graph that fits in memory, nor does the count of
-- generations of a router; both are left unbounded.
--
-- Not modelled: route predicates (a stub in the source); reading and signing of policies (generated Cap'n
-- Proto code and cryptography); the path of a visa request, the authentication of a connection, how the tables
-- of connected actors are written, the swap of policy snapshots and the authentication sweep, which combine the parts
-- above with asynchronous I/O; the locks (each modelled operation holds its lock from first to last);
-- sessions with nodes, databases and identity providers, the HTTP interfaces, the command-line tools and
-- the dashboard.
pub mod Base
pub mod IpAddr
pub mod Attribute
pub mod Actor
pub mod JoinPolicy
pub mod Policy
pub mod Eval
pub mod DenyLog
pub mod NetMgr
pub mod VisaRepo
pub mod VisaPolicy
pub mod VisaReconciler
pub mod Graph
pub mod Router
pub mod Topology
