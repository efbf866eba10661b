-- ===== src/Topology/Revalidate.antt =====
-- vs/src/topology_mgr.rs: `revalidate_against_policy` after a policy update: what becomes of each edge is decided first, and the router is changed last, in one
-- batch. `readable` is whether the edges could be listed, `save` and `erase` how a write of an edge ends.
pub mod Plan
pub mod Described
pub mod Batch
pub mod Pairs
pub mod Between
pub mod Reconciled
pub mod Accepted
pub mod Carried
pub mod Nodes
pub mod Stored
pub mod Outcome
use zl_zpr_visaservice.Base.{
  ℕ, suc, ◌+◌, ℕ-HasEq, String, String-HasEq, ◌==◌, Bool, true, false, not, ◌&&◌, ◌||◌, List, [],
  ◌∷◌, ◌++◌, Option, none, some, if◌then◌else◌, map, length, is_empty, is_some, contains, filter,
  set_insert, to_set, Result, ok, err, panic, ◌>>=◌,
}
use zl_zpr_visaservice.IpAddr.{IpAddr, IpAddr-HasEq}
use zl_zpr_visaservice.Attribute.Equivalent.{attributes_equivalent}
use zl_zpr_visaservice.Policy.Links.{LinkDescription}
use zl_zpr_visaservice.Graph.{TopologyError, link_exists, Pair-HasEq}
use zl_zpr_visaservice.Graph.Dijkstra.{ip_leb}
use zl_zpr_visaservice.Router
use zl_zpr_visaservice.Router.{RouterInner, LinkSpec, apply_link_batch}
use zl_zpr_visaservice.Router.Routes.{RouterLink, link_between, link_snapshot, get_peers}
use zl_zpr_visaservice.Topology.{
  ServiceError, topology, store, Write, Edges, TopologyMgr, add_edge, remove_edge,
  install_router_link, add_node_if_not_exists, EdgeDecision, install, gc, decide_edge,
}

abbrev pub canonical_pair : IpAddr → IpAddr → IpAddr × IpAddr
canonical_pair a b = if ip_leb a b then (a, b) else (b, a)

pub data Action : Type 0 where
  keep fresh : Action
  replace : String → Action

pub record Surviving : Type 0 where
  pub a : IpAddr
  pub b : IpAddr
  pub persisted : Bool
  pub desc : LinkDescription
  pub action : Action

pub record Removal : Type 0 where
  pub a : IpAddr
  pub b : IpAddr
  pub persisted : Bool
  pub old_id : Option String

pub record RevalidationReport : Type 0 where
  pub links_removed : ℕ
  pub links_updated : ℕ
  pub links_repaired : ℕ
  pub orphaned_nodes : List IpAddr

-- the pairs that the database or the router has an edge for
abbrev pub persisted_set : Edges → Edges
persisted_set edges = to_set (map (λ e. canonical_pair e.0 e.1) edges)

unfoldable pub work_edges : Edges → List RouterLink → Edges
unfolding set_insert to_set
work_edges edges [] = persisted_set edges
work_edges edges (link ∷ links) = set_insert (canonical_pair link.a link.b) (work_edges edges links)

abbrev pub is_changed : RouterLink → LinkDescription → Bool
is_changed rl desc =
    not (rl.id == desc.link_id)
    || not (rl.cost == desc.cost)
    || not (attributes_equivalent rl.attributes desc.attrs)

abbrev pub action_of : Option RouterLink → LinkDescription → Action
action_of none desc = fresh
action_of (some rl) desc = if is_changed rl desc then replace rl.id else keep

abbrev pub id_of : Option RouterLink → Option String
id_of none = none
id_of (some rl) = some rl.id

abbrev pub Plan : Type 0
Plan = List Surviving × List Removal

abbrev pub planned : RouterInner → Edges → IpAddr × IpAddr → EdgeDecision → Plan → Plan
planned r persisted (a, b) (install desc) (surviving, removals) = (
  record {
    a = a;
    b = b;
    persisted = contains persisted (a, b);
    desc = desc;
    action = action_of (link_between r a b) desc;
  }
      ∷ surviving,
  removals,
)
planned r persisted (a, b) gc (surviving, removals) = (
  surviving,
  record {
    a = a;
    b = b;
    persisted = contains persisted (a, b);
    old_id = id_of (link_between r a b);
  }
      ∷ removals,
)

-- the id that a second edge claims
abbrev pub collision : List String → List Surviving → Option String
collision claimed [] = none
collision claimed (e ∷ es) =
    if contains claimed e.desc.link_id
    then some e.desc.link_id
    else collision (e.desc.link_id ∷ claimed) es

abbrev pub old_ids : List Removal → List String
old_ids [] = []
old_ids (r ∷ rs) = elim r.old_id [ none ↦ old_ids rs | some id ↦ id ∷ old_ids rs ]

abbrev pub replaced_ids : List Surviving → List String
replaced_ids [] = []
replaced_ids (e ∷ es) = elim e.action [
  | keep ↦ replaced_ids es
  | fresh ↦ replaced_ids es
  | replace id ↦ id ∷ replaced_ids es
]

abbrev pub spec_of : Surviving → LinkSpec
spec_of e = record {
  a = e.a;
  b = e.b;
  id = e.desc.link_id;
  attributes = e.desc.attrs;
  cost = e.desc.cost;
}

abbrev pub additions : List Surviving → List LinkSpec
additions [] = []
additions (e ∷ es) = elim e.action [
  | keep ↦ additions es
  | fresh ↦ spec_of e ∷ additions es
  | replace id ↦ spec_of e ∷ additions es
]

abbrev pub is_fresh : Action → Bool
is_fresh fresh = true
is_fresh _ = false

abbrev pub removed_edge : Removal → Bool
removed_edge r = is_some r.old_id || r.persisted

abbrev pub unlinked_nodes : RouterInner → List IpAddr → List IpAddr
unlinked_nodes r = filter (λ n. is_empty (get_peers r n))

unfoldable pub add_nodes : List IpAddr → RouterInner → Result TopologyError RouterInner
add_nodes [] r = ok r
add_nodes (n ∷ ns) r = do r ← add_node_if_not_exists r n; add_nodes ns r.0

module _ (describe : IpAddr → IpAddr → Result ServiceError LinkDescription) where
  unfoldable pub plan_edges : RouterInner → List IpAddr → Edges → Edges → Result ServiceError Plan
  unfolding decide_edge link_between
  plan_edges r known persisted [] = ok ([], [])
  plan_edges r known persisted ((a, b) ∷ es) = do
    d ← decide_edge describe known a b
    rest ← plan_edges r known persisted es
    ok (planned r persisted (a, b) d rest)

module _ (encode : IpAddr → String) (save erase : IpAddr → IpAddr → Write) where
  -- stops at the first error; the count of the edges that were written
  abbrev pub save_missing : List Surviving → Edges → Bool × Edges × ℕ
  save_missing [] edges = (true, edges, 0)
  save_missing (e ∷ es) edges =
      let (done, edges') = add_edge encode (save e.a e.b) e.a e.b edges in
      let rest = save_missing es edges in
      let rest' = save_missing es edges' in
      if e.persisted
      then rest
      else if done
      then (rest'.0, rest'.1, suc rest'.2)
      else (false, edges', 0)

  -- errors are logged
  abbrev pub erase_stale : List Removal → Edges → Edges
  erase_stale [] edges = edges
  erase_stale (r ∷ rs) edges =
      erase_stale rs
        (if r.persisted then (remove_edge encode (erase r.a r.b) r.a r.b edges).1 else edges)

  module _ (describe : IpAddr → IpAddr → Result ServiceError LinkDescription) where
    abbrev pub Outcome : Type 0
    Outcome = Result TopologyError (TopologyMgr × Result ServiceError RevalidationReport)

    abbrev pub reported :
        List IpAddr → ℕ → Plan → Edges → RouterInner × Option TopologyError → Outcome
    reported known saved (surviving, removals) edges (r, some e) =
        ok (record { router = r; edges = edges }, err (topology e))
    reported known saved (surviving, removals) edges (r, none) = ok (
      record { router = r; edges = edges },
      ok (record {
        links_removed = length (filter removed_edge removals);
        links_updated = length (replaced_ids surviving);
        links_repaired = saved + length (filter (λ e. is_fresh e.action) surviving);
        orphaned_nodes = unlinked_nodes r known;
      }),
    )

    unfoldable pub rewrite_router : List IpAddr → ℕ → Plan → TopologyMgr → Outcome
    unfolding apply_link_batch
    rewrite_router known saved (surviving, removals) m = do
      r ←
          apply_link_batch m.router (old_ids removals ++ replaced_ids surviving)
            (additions surviving)
      reported known saved (surviving, removals) (erase_stale removals m.edges) r

    unfoldable pub carry_out : List IpAddr → Plan → TopologyMgr → Outcome
    unfolding rewrite_router
    carry_out known (surviving, removals) m = elim (collision [] surviving) [
      | some id ↦ ok (m, err (topology link_exists))
      | none ↦
          let (done, edges, saved) = save_missing surviving m.edges in
          let rest =
            rewrite_router known saved (surviving, removals) (record m { edges = edges }) in
          if done then rest else ok (record m { edges = edges }, err store)
    ]

    abbrev pub when_planned : List IpAddr → TopologyMgr → Result ServiceError Plan → Outcome
    when_planned known m (ok plan) = carry_out known plan m
    when_planned known m (err e) = ok (m, err e)
    when_planned known m panic = panic

    abbrev pub when_read : Bool → List IpAddr → TopologyMgr → Outcome
    when_read false known m = ok (m, err store)
    when_read true known m = when_planned known m (
        plan_edges describe m.router known (persisted_set m.edges)
          (work_edges m.edges (link_snapshot m.router)))

    unfoldable pub revalidate_against_policy : Bool → List IpAddr → TopologyMgr → Outcome
    unfolding add_nodes plan_edges carry_out link_snapshot work_edges
    revalidate_against_policy readable known m = do
      r ← add_nodes known m.router
      when_read readable known (record m { router = r })
