-- ===== src/VisaPolicy.antt =====
-- vs/src/visa_policy.rs: the decision on a flow between two actors, shared by visa requests and the
-- sweep, VisaMgr::recheck_visa_allowed and path_for_flow of vs/src/visa_mgr.rs, which the sweep calls, and
-- the docking nodes of vs/src/actor_mgr.rs. All is read at one state and one time. The branch on
-- NeedsRoute is left out: the evaluator never answers so.
pub mod Docking
pub mod Outcome
pub mod Recheck
mod Tests
use zl_zpr_visaservice.Base.{
  ℕ, Bool, true, false, ◌&&◌, List, [], ◌∷◌, Option, none, some, Result, ok, err, panic, ◌>>=◌,
  if◌then◌else◌, ltb, HasEq, ◌==◌, Map, lookup,
}
use zl_zpr_visaservice.IpAddr.{IpAddr, IpAddr-HasEq}
use zl_zpr_visaservice.Actor.{Actor, get_authentication_expiration, is_node, get_zpr_addr}
use zl_zpr_visaservice.Graph.{TopologyError}
use zl_zpr_visaservice.Router.{RouterInner}
use zl_zpr_visaservice.Router.Routes.{get_best_route, route_to_path}
use zl_zpr_visaservice.Policy.{Policy}
use zl_zpr_visaservice.Eval.{
  EvalError, Hit, Route, direct_same_node, multihop, PacketDesc, PartialEvalResult, deny,
  allow_without_route, FinalDeny, no_match, denied, eval_request,
}
use zl_zpr_visaservice.DenyLog.{DenyCode}

-- the tables of the actor manager, the actors in the database, and the router
pub record Parts : Type 0 where
  pub connection_table : Map IpAddr IpAddr
  pub aaa_table : Map IpAddr (IpAddr × ℕ)
  pub get_actor_by_zpr_addr : IpAddr → Option Actor
  pub router : RouterInner

abbrev pub get_docking_node_for_adapter : Parts → IpAddr → Option IpAddr
get_docking_node_for_adapter parts adapter_addr = lookup adapter_addr parts.connection_table

unfoldable pub get_docking_node_for_actor : Parts → Actor → Option IpAddr
get_docking_node_for_actor parts actor =
    if is_node actor
    then get_zpr_addr actor
    else elim (get_zpr_addr actor) [ none ↦ none | some a ↦ get_docking_node_for_adapter parts a ]

-- an entry that has expired is evicted, and no later lookup would answer with it either
unfoldable pub get_docking_node_for_aaa : ℕ → Parts → IpAddr → Option IpAddr
get_docking_node_for_aaa now parts aaa_addr = elim (lookup aaa_addr parts.aaa_table) [
  | none ↦ none
  | some entry ↦ if ltb now entry.1 then some entry.0 else none
]

pub data PolicyOutcome : Type 0 where
  allow : List Hit → Option Route → IpAddr → IpAddr → PolicyOutcome
  deny_with : DenyCode → PolicyOutcome

-- `ServiceError`, by where it comes from
pub data ServiceError : Type 0 where
  eval_failed : EvalError → ServiceError
  no_route_at_all undocked : ServiceError
  no_path : TopologyError → ServiceError

abbrev or_else : Option IpAddr → Option IpAddr → Option IpAddr
or_else none o = o
or_else (some a) o = some a

unfoldable pub resolve_docking_node : ℕ → Parts → Actor → IpAddr → Option IpAddr
unfolding get_docking_node_for_actor get_docking_node_for_aaa
resolve_docking_node now parts actor zpr_addr =
    or_else (get_docking_node_for_actor parts actor) (get_docking_node_for_aaa now parts zpr_addr)

-- as above, for the address alone; an actor that is not stored may be an anonymous one
unfoldable pub docking_node_for_addr : ℕ → Parts → IpAddr → Option IpAddr
unfolding resolve_docking_node
docking_node_for_addr now parts zpr_addr = elim (parts.get_actor_by_zpr_addr zpr_addr) [
  | none ↦ get_docking_node_for_aaa now parts zpr_addr
  | some actor ↦ resolve_docking_node now parts actor zpr_addr
]

abbrev pub is_past : ℕ → Option ℕ → Bool
is_past now none = false
is_past now (some exp) = ltb exp now

-- the evaluator's answer, with the docking nodes and the best route at hand
abbrev pub outcome_of :
    Route → IpAddr → IpAddr → Result EvalError PartialEvalResult → Result ServiceError PolicyOutcome
outcome_of route a b (ok (deny (no_match r))) = ok (deny_with DenyCode.no_match)
outcome_of route a b (ok (allow_without_route hits)) = ok (allow hits (some route) a b)
outcome_of route a b (ok (deny (denied hits))) = ok (deny_with DenyCode.denied)
outcome_of route a b (err e) = err (eval_failed e)
outcome_of route a b panic = panic

unfoldable pub evaluate_against_policy :
    ℕ
    → Parts
    → Actor
    → Actor
    → IpAddr
    → IpAddr
    → PacketDesc
    → Policy
    → Result ServiceError PolicyOutcome
unfolding resolve_docking_node
evaluate_against_policy now parts src dst src_zpr dst_zpr pkt policy =
    if is_past now (get_authentication_expiration src)
    then ok (deny_with DenyCode.source_auth_error)
    else if is_past now (get_authentication_expiration dst)
    then ok (deny_with DenyCode.dest_auth_error)
    else elim (resolve_docking_node now parts src src_zpr) [
      | none ↦ ok (deny_with DenyCode.source_not_found)
      | some a ↦ elim (resolve_docking_node now parts dst dst_zpr) [
        | none ↦ ok (deny_with DenyCode.dest_not_found)
        | some b ↦ elim (get_best_route parts.router a b) [
          | none ↦ ok (deny_with DenyCode.no_route)
          | some route ↦ outcome_of route a b (eval_request now policy src dst pkt)
        ]
      ]
    ]

abbrev or_default : Option Route → Option Route → Result ServiceError Route
or_default (some route) d = ok route
or_default none (some route) = ok route
or_default none none = err no_route_at_all

-- `hits[0]` of an empty list panics
unfoldable pub route_for_allow : List Hit → Option Route → Result ServiceError Route
route_for_allow [] default_route = panic
route_for_allow (h ∷ hits) default_route = or_default h.route default_route

pub data VisaRecheck : Type 0 where
  skip_unresolved_actor allow_same_route revoke : VisaRecheck

abbrev same_addrs : List IpAddr → List IpAddr → Bool
same_addrs [] [] = true
same_addrs (a ∷ as') (b ∷ bs) = (a == b) && same_addrs as' bs
same_addrs _ _ = false

abbrev pub same_path : Option (List IpAddr) → Option (List IpAddr) → Bool
same_path none none = true
same_path (some p) (some q) = same_addrs p q
same_path _ _ = false

-- a path of the router; the nodes in the order of the flow
abbrev pub as_path : Result TopologyError (List IpAddr) → Result ServiceError (Option (List IpAddr))
as_path (ok nodes) = ok (some nodes)
as_path (err e) = err (no_path e)
as_path panic = panic

-- no path for a direct route
unfoldable pub path_for_flow :
    ℕ → Parts → IpAddr → Route → Result ServiceError (Option (List IpAddr))
unfolding docking_node_for_addr
path_for_flow now parts source_addr route = elim route.kind [
  | direct_same_node n ↦ ok none
  | multihop ↦ elim (docking_node_for_addr now parts source_addr) [
    | none ↦ err undocked
    | some ingress ↦ as_path (route_to_path parts.router route ingress)
  ]
]

abbrev pub compare_path :
    Option (List IpAddr)
    → Result ServiceError (Option (List IpAddr))
    → Result ServiceError VisaRecheck
compare_path stored (ok path) = ok (if same_path path stored then allow_same_route else revoke)
compare_path stored (err e) = ok revoke
compare_path stored panic = panic

abbrev pub recheck_outcome :
    ℕ
    → Parts
    → IpAddr
    → Option (List IpAddr)
    → Result ServiceError PolicyOutcome
    → Result ServiceError VisaRecheck
recheck_outcome now parts src_zpr stored (ok (allow hits default_route a b)) = do
  route ← route_for_allow hits default_route
  compare_path stored (path_for_flow now parts src_zpr route)
recheck_outcome now parts src_zpr stored (ok (deny_with code)) = ok revoke
recheck_outcome now parts src_zpr stored (err e) = err e
recheck_outcome now parts src_zpr stored panic = panic

-- for a visa between the packet's two addresses, with the path that is stored with it
unfoldable pub recheck_visa_allowed :
    ℕ → Parts → PacketDesc → Option (List IpAddr) → Policy → Result ServiceError VisaRecheck
unfolding evaluate_against_policy route_for_allow path_for_flow
recheck_visa_allowed now parts pkt stored policy =
    elim (parts.get_actor_by_zpr_addr pkt.source_addr) [
      | none ↦ ok skip_unresolved_actor
      | some src ↦ elim (parts.get_actor_by_zpr_addr pkt.dest_addr) [
        | none ↦ ok skip_unresolved_actor
        | some dst ↦
            recheck_outcome now parts pkt.source_addr stored
              (evaluate_against_policy now parts src dst pkt.source_addr pkt.dest_addr pkt policy)
      ]
    ]
