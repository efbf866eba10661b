-- ===== src/Topology.antt =====
-- vs/src/topology_mgr.rs: the router with the edges that are persisted, and vs/src/db/link.rs: LinkRepo.
-- `encode` is the text of a ZAddr; a member of the set of edges is a pair of addresses in the order of
-- their texts. `describe` is the snapshot's describe_link, `actors` stands for the actor manager, and
-- `Write` is how a call of the database ends. Calls of a manager follow one another.
pub mod Revalidate
pub mod Undo
pub mod Linked
pub mod Snapshot
pub mod Restore
mod Tests
use Prim.Native.Nat.{Ordering}
use Prim.Native.String.{compare}
use zl_zpr_visaservice.Base.{
  ℕ, String, String-HasEq, ◌==◌, Bool, true, false, not, ◌&&◌, ◌||◌, List, [], ◌∷◌, Option, none,
  some, if◌then◌else◌, filter, contains, set_insert, Result, ok, err, panic, ◌>>=◌,
}
use zl_zpr_visaservice.IpAddr.{IpAddr, IpAddr-HasEq}
use zl_zpr_visaservice.Policy.Links.{LinkDescription}
use zl_zpr_visaservice.Graph.{TopologyError, link_exists, node_exists, link_not_found, Pair-HasEq}
use zl_zpr_visaservice.Router
use zl_zpr_visaservice.Router.{RouterInner}
use zl_zpr_visaservice.Router.Routes.{has_node, get_peers}

pub data ServiceError : Type 0 where
  topology : TopologyError → ServiceError
  store internal : ServiceError

pub data AddLinkedNodeError : Type 0 where
  new_node_failed existing_node_failed : ServiceError → AddLinkedNodeError

-- `AddLinkedNodeError::new`
abbrev pub failure : Bool → ServiceError → AddLinkedNodeError
failure true e = existing_node_failed e
failure false e = new_node_failed e

-- a call that fails has had no effect, or has had it all the same
pub data Write : Type 0 where
  written refused unconfirmed : Write

abbrev pub Edges : Type 0
Edges = List (IpAddr × IpAddr)

pub record TopologyMgr : Type 0 where
  pub router : RouterInner
  pub edges : Edges

-- the calls of the actor manager, whose errors on a removal are logged
pub record ActorMgr : Type 1 where
  pub State : Type 0
  pub add_node : State → Option ServiceError × State
  pub remove_node : IpAddr → State → State
  pub remove_actor_by_zpr_addr : IpAddr → State → State

abbrev pub le_text : String → String → Bool
le_text s t = elim (compare s t) [ Ordering.gt ↦ false | _ ↦ true ]

-- the database after a write, and whether the call reports no error
abbrev pub ended : Write → Edges → Edges → Bool × Edges
ended written edges edges' = (true, edges')
ended refused edges edges' = (false, edges)
ended unconfirmed edges edges' = (false, edges')

module _ (encode : IpAddr → String) where
  abbrev pub canonical : IpAddr → IpAddr → IpAddr × IpAddr
  canonical a b = if le_text (encode a) (encode b) then (a, b) else (b, a)

  unfoldable pub add_edge : Write → IpAddr → IpAddr → Edges → Bool × Edges
  unfolding set_insert
  add_edge w a b edges = ended w edges (set_insert (canonical a b) edges)

  unfoldable pub remove_edge : Write → IpAddr → IpAddr → Edges → Bool × Edges
  remove_edge w a b edges = ended w edges (filter (λ e. not (e == canonical a b)) edges)

  unfoldable pub remove_edges : (IpAddr → Write) → IpAddr → List IpAddr → Edges → Edges
  unfolding remove_edge
  remove_edges erase a [] edges = edges
  remove_edges erase a (peer ∷ peers) edges =
      remove_edges erase a peers (remove_edge (erase peer) a peer edges).1

  -- `TopologyMgr::remove_node`; a failed removal of an edge is logged
  unfoldable pub remove_node :
      (IpAddr → Write) → IpAddr → TopologyMgr → Result TopologyError TopologyMgr
  unfolding remove_edges
  remove_node erase n m = do
    r ← Router.remove_node m.router n
    ok (record { router = r; edges = remove_edges erase n (get_peers m.router n) m.edges })

abbrev pub install_router_link :
    RouterInner
    → IpAddr
    → IpAddr
    → LinkDescription
    → Result TopologyError (RouterInner × Option TopologyError)
install_router_link r a b desc = Router.add_link r a b desc.link_id desc.attrs desc.cost

module _ (encode : IpAddr → String) (actors : ActorMgr) where
  abbrev pub Both : Type 0
  Both = TopologyMgr × actors.State

  abbrev pub Ending : Type 0
  Ending = Result TopologyError (Both × Option AddLinkedNodeError)

  unfoldable pub rollback_created_node : IpAddr → Both → Result TopologyError Both
  rollback_created_node n (m, st) = do
    r ← Router.remove_node m.router n
    ok (record m { router = r }, actors.remove_actor_by_zpr_addr n (actors.remove_node n st))

  -- what this call has made is undone, and the error that came first is returned
  unfoldable pub undone : Bool → Bool → String → IpAddr → Both → Result TopologyError Both
  unfolding rollback_created_node
  undone false added id n (m, st) = rollback_created_node n (m, st)
  undone true true id n (m, st) = do
    r ← Router.remove_link m.router id
    ok (record m { router = r }, st)
  undone true false id n (m, st) = ok (m, st)

  abbrev pub failing : AddLinkedNodeError → Result TopologyError Both → Ending
  failing e r = do b ← r; ok (b, some e)

  abbrev pub saved : Bool → Bool → String → IpAddr → Bool → Both → Ending
  saved preexisting added id n true b = ok (b, none)
  saved preexisting added id n false b =
      failing (failure preexisting store) (undone preexisting added id n b)

  unfoldable pub persist_link : Write → Bool → Bool → String → IpAddr → IpAddr → Both → Ending
  unfolding undone add_edge
  persist_link w preexisting added id via n (m, st) =
      let (done, edges) = add_edge encode w via n m.edges in
      saved preexisting added id n done (record m { edges = edges }, st)

  -- the link that is there already is not one that this call has made
  abbrev pub after_install :
      Write → Bool → String → IpAddr → IpAddr → Both → Option TopologyError → Ending
  after_install w preexisting id via n b none = persist_link w preexisting true id via n b
  after_install w preexisting id via n b (some link_exists) =
      persist_link w preexisting false id via n b
  after_install w preexisting id via n b (some e) =
      failing (failure preexisting (topology e)) (undone preexisting false id n b)

  unfoldable pub link_node : Write → Bool → LinkDescription → IpAddr → IpAddr → Both → Ending
  unfolding persist_link
  link_node w preexisting desc via n (m, st) = do
    r ← install_router_link m.router via n desc
    after_install w preexisting desc.link_id via n (record m { router = r.0 }, st) r.1

  abbrev pub with_actor :
      Write
      → LinkDescription
      → IpAddr
      → IpAddr
      → TopologyMgr
      → Option ServiceError × actors.State
      → Ending
  with_actor w desc via n m (none, st) = link_node w false desc via n (m, st)
  with_actor w desc via n m (some e, st) = do
    r ← Router.remove_node m.router n
    ok ((record m { router = r }, st), some (new_node_failed e))

  abbrev pub created :
      Write → LinkDescription → IpAddr → IpAddr → Both → Result TopologyError RouterInner → Ending
  created w desc via n (m, st) (ok r) =
      with_actor w desc via n (record m { router = r }) (actors.add_node st)
  created w desc via n (m, st) (err e) = ok ((m, st), some (new_node_failed (topology e)))
  created w desc via n (m, st) panic = panic

  -- a link that is there already is persisted once more
  abbrev pub linked_again : IpAddr → IpAddr → Both → Bool × Edges → Ending
  linked_again via n (m, st) (true, edges) = ok ((record m { edges = edges }, st), none)
  linked_again via n (m, st) (false, edges) =
      ok ((record m { edges = edges }, st), some (existing_node_failed store))

  abbrev pub add_described :
      Write → IpAddr → IpAddr → Both → Result ServiceError LinkDescription → Ending
  add_described w via n (m, st) (err e) = ok ((m, st), some (failure (has_node m.router n) e))
  add_described w via n (m, st) panic = panic
  add_described w via n (m, st) (ok desc) =
      if not (has_node m.router n)
      then created w desc via n (m, st) (Router.add_node m.router n)
      else if contains (get_peers m.router n) via
      then linked_again via n (m, st) (add_edge encode w via n m.edges)
      else link_node w true desc via n (m, st)

  unfoldable pub add_linked_node :
      (IpAddr → IpAddr → Result ServiceError LinkDescription)
      → Write
      → IpAddr
      → IpAddr
      → Both
      → Ending
  unfolding link_node has_node
  add_linked_node describe w via n b = add_described w via n b (describe via n)

-- `true` if the node was added; any other error is unreachable
abbrev pub if_not_exists :
    RouterInner → Result TopologyError RouterInner → Result TopologyError (RouterInner × Bool)
if_not_exists r (ok r') = ok (r', true)
if_not_exists r (err node_exists) = ok (r, false)
if_not_exists r (err _) = panic
if_not_exists r panic = panic

unfoldable pub add_node_if_not_exists :
    RouterInner → IpAddr → Result TopologyError (RouterInner × Bool)
add_node_if_not_exists r n = if_not_exists r (Router.add_node r n)

pub data EdgeDecision : Type 0 where
  install : LinkDescription → EdgeDecision
  gc : EdgeDecision

module _ (describe : IpAddr → IpAddr → Result ServiceError LinkDescription) where
  abbrev pub or_reversed :
      IpAddr → IpAddr → Result ServiceError LinkDescription → Result ServiceError LinkDescription
  or_reversed a b (err (topology link_not_found)) = describe b a
  or_reversed a b r = r

  unfoldable pub describe_policy_link_either : IpAddr → IpAddr → Result ServiceError LinkDescription
  describe_policy_link_either a b = or_reversed a b (describe a b)

  abbrev pub fate : Result ServiceError LinkDescription → Result ServiceError EdgeDecision
  fate (ok desc) = ok (install desc)
  fate (err (topology link_not_found)) = ok gc
  fate (err e) = err e
  fate panic = panic

  unfoldable pub decide_edge : List IpAddr → IpAddr → IpAddr → Result ServiceError EdgeDecision
  unfolding describe_policy_link_either
  decide_edge known a b =
      if not (contains known a) || not (contains known b)
      then ok gc
      else fate (describe_policy_link_either a b)
