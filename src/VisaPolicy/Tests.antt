-- ===== src/VisaPolicy/Tests.antt =====
-- The shared decision at a concrete network of two nodes.
use zl_zpr_visaservice.Base.{
  String-HasEq, ◌==◌, ◌≡◌, ◌↔◌, refl, true, List, [], ◌∷◌, Option, none, some, ok, if◌then◌else◌,
  lookup, insert, remove, set_insert,
}
use zl_zpr_visaservice.IpAddr.{IpAddr, IpAddr-HasEq, v6}
use zl_zpr_visaservice.Attribute.{
  Attribute, value_has, is_expired, is_single_value, get_single_value,
}
use zl_zpr_visaservice.Attribute.Key
use zl_zpr_visaservice.Actor.{
  Actor, provides, get_attribute, has_attribute_value, get_authentication_expiration,
  get_authentication_expiration_with_gate, is_node, single, get_zpr_addr,
}
use zl_zpr_visaservice.JoinPolicy.{eq}
use zl_zpr_visaservice.Policy.{Policy, CPolicy, port, no_flag}
use zl_zpr_visaservice.Eval.{
  PacketDesc, Hit, forward, Route, multihop, tcp, hit_direction, eval_request, scope_matches,
  policy_scope_matches, decide, match_policies, match_policy_conditions, match_condition_to_actor,
}
use zl_zpr_visaservice.DenyLog.{DenyCode}
use zl_zpr_visaservice.Graph.{Pair-HasEq}
use zl_zpr_visaservice.Graph.Change
use zl_zpr_visaservice.Graph.Change.{get_low_cost_path}
use zl_zpr_visaservice.Graph.Dijkstra.{
  pop_min, offer, relax, relax_all, expand, search, trace, collect, dijkstra_from, best_from,
  recompute,
}
use zl_zpr_visaservice.Router.{RouterInner, new, add_node, add_link}
use zl_zpr_visaservice.Router.Routes.{get_best_route, route_to_path, follow_links}
use zl_zpr_visaservice.Router.Cache.Calls.{Reach, start, node_added, link_added}
use zl_zpr_visaservice.VisaPolicy.{
  Parts, allow, deny_with, resolve_docking_node, evaluate_against_policy, route_for_allow,
  allow_same_route, revoke, recheck_visa_allowed, get_docking_node_for_actor,
  get_docking_node_for_aaa, docking_node_for_addr, path_for_flow,
}
use zl_zpr_visaservice.VisaPolicy.Outcome.{Cleared, allow-Cleared}
use zl_zpr_visaservice.VisaPolicy.Recheck.{Kept, recheck_visa_allowed-Kept}

abbrev web : Attribute
web = record { key = Key.services; value = "web" ∷ []; expires_at = 1000; source = "zpr" }

abbrev ann : Attribute
ann = record { key = "user.id"; value = "ann" ∷ []; expires_at = 100; source = "hr" }

abbrev server : Actor
server = record { attrs = (Key.services, web) ∷ []; identity_keys = []; zpr_addr = some (v6 2) }

abbrev client : Actor
client = record {
  attrs = ("user.id", ann) ∷ [];
  identity_keys = "user.id" ∷ [];
  zpr_addr = some (v6 1);
}

abbrev http : PacketDesc
http = record {
  source_addr = v6 1;
  dest_addr = v6 2;
  protocol = tcp;
  source_port = 40000;
  dest_port = 80;
}

abbrev ann_web : CPolicy
ann_web = record {
  allow = true;
  service_id = "web";
  scope = record { protocol = tcp; ports = port 80; flag = no_flag } ∷ [];
  client_conds = some (record { key = "user.id"; op = eq; value = some ("ann" ∷ []) } ∷ []);
  service_conds = none;
  signal = none;
  zpl = "allow ann to access web";
}

abbrev policy : Policy
policy = record {
  policy_rdr = some (ok (record { com_policies = some (ann_web ∷ []) }));
  vinst = 1;
  join_policies = [];
  identity_attr_keys = [];
}

abbrev cable : Route
cable = record { kind = multihop; links = "l1" ∷ []; cost = 1 }

-- the client docks at node 10, the server at node 11
abbrev router : RouterInner
router = record {
  topology = record {
    nodes = (v6 10, record { edges = "l1" ∷ [] }) ∷ (v6 11, record { edges = "l1" ∷ [] }) ∷ [];
    edges = ("l1", record { a = v6 10; b = v6 11; attributes = []; cost = 1 }) ∷ [];
    best_routes = ((v6 10, v6 11), ("l1" ∷ [], 1)) ∷ ((v6 11, v6 10), ("l1" ∷ [], 1)) ∷ [];
  };
  route_cache = [];
  link_to_cache_keys = [];
  topo_generation = 3;
}

abbrev parts : Parts
parts = record {
  connection_table = (v6 1, v6 10) ∷ (v6 2, v6 11) ∷ [];
  aaa_table = [];
  get_actor_by_zpr_addr =
      λ a. if a == v6 1 then some client else if a == v6 2 then some server else none;
  router = router;
}

code : Unit {0}
unfolding eval_request decide match_policies hit_direction policy_scope_matches scope_matches
    provides lookup value_has match_policy_conditions match_condition_to_actor get_attribute
    is_expired has_attribute_value is_single_value evaluate_against_policy resolve_docking_node
    get_authentication_expiration get_authentication_expiration_with_gate recheck_visa_allowed
    route_for_allow get_docking_node_for_actor get_docking_node_for_aaa docking_node_for_addr
    path_for_flow is_node single get_single_value get_zpr_addr get_best_route get_low_cost_path
    route_to_path follow_links insert set_insert remove pop_min offer relax relax_all expand search
    trace collect dijkstra_from best_from recompute Change.put_link Change.add_link Change.add_node
    add_link add_node
code = tt

new-router : Reach new router
unfolding code
new-router =
    link_added (node_added (node_added (start new) (v6 10) refl) (v6 11) refl) (v6 10) (v6 11) "l1"
      [] 1 none refl

abbrev hit : Hit
hit = record { match_idx = 0; direction = forward; signal = none; route = none }

allowed :
    evaluate_against_policy 50 parts client server (v6 1) (v6 2) http policy
    ≡ ok (allow (hit ∷ []) (some cable) (v6 10) (v6 11))
unfolding code
allowed = refl

-- The authentication of the client has expired.
expired :
    evaluate_against_policy 101 parts client server (v6 1) (v6 2) http policy
    ≡ ok (deny_with DenyCode.source_auth_error)
unfolding code
expired = refl

kept : recheck_visa_allowed 50 parts http (some (v6 10 ∷ v6 11 ∷ [])) policy ≡ ok allow_same_route
unfolding code
kept = refl

-- An actor that is nowhere in the tables docks by the AAA table, until its entry expires.
anonymous :
    resolve_docking_node 5
      (record parts { connection_table = []; aaa_table = (v6 1, (v6 10, 6)) ∷ [] })
      client
      (v6 1)
    ≡ some (v6 10)
unfolding code
anonymous = refl

moved : recheck_visa_allowed 50 parts http (some (v6 10 ∷ v6 9 ∷ v6 11 ∷ [])) policy ≡ ok revoke
unfolding code
moved = refl

allow-Cleared_example :
    ((hits : List Hit) (default_route : Option Route) (a b : IpAddr)
      → evaluate_against_policy 50 parts client server (v6 1) (v6 2) http policy
        ≡ ok (allow hits default_route a b)
      → Cleared 50 parts client server (v6 1) (v6 2) http policy hits default_route a b)
    × ((hits : List Hit) (default_route : Option Route) (a b : IpAddr)
        → Cleared 50 parts client server (v6 1) (v6 2) http policy hits default_route a b
        → (hs : List Hit) × (r : Route) × (evaluate_against_policy 50 parts client server
              (v6 1)
              (v6 2)
              http
              policy
            ≡ ok (allow hs (some r) a b)))
allow-Cleared_example = allow-Cleared 50 parts client server (v6 1) (v6 2) http policy new-router

recheck_visa_allowed-Kept_example :
    (recheck_visa_allowed 50 parts http (some (v6 10 ∷ v6 11 ∷ [])) policy ≡ ok allow_same_route)
    ↔ Kept 50 parts http (some (v6 10 ∷ v6 11 ∷ [])) policy
recheck_visa_allowed-Kept_example =
    recheck_visa_allowed-Kept 50 parts http (some (v6 10 ∷ v6 11 ∷ [])) policy new-router

-- the recheck that keeps the visa finds the flow cleared
kept_lem : Kept 50 parts http (some (v6 10 ∷ v6 11 ∷ [])) policy
kept_lem =
    (recheck_visa_allowed-Kept 50 parts http (some (v6 10 ∷ v6 11 ∷ [])) policy new-router).0 kept
