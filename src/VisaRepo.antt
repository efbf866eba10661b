-- ===== src/VisaRepo.antt =====
-- vs/src/db/visa.rs: the visas that are out, and their state on each node. Writers hold the `backing`
-- lock from first to last, so an operation is one step but for `purge_expired`, which takes no lock and
-- may run while a record is written: `gap` is its time, if it does. `written` says whether the record
-- reached the database. The visa's own bytes and the index by actor are left out.
pub mod States
pub mod Verdicts
pub mod Store
pub mod Indexed
mod Tests
use zl_zpr_visaservice.Base.{
  ℕ, ◌+◌, ◌-◌, ◌*◌, ◌/◌, ◌^◌, String, ℕ-HasEq, ◌==◌, Bool, true, false, not, ◌&&◌, List, [], ◌∷◌,
  Option, none, some, Result, ok, err, if◌then◌else◌, ltb, leb, map, filter, is_empty, Map, lookup,
  insert, remove, keys,
}
use zl_zpr_visaservice.IpAddr.{IpAddr, IpAddr-HasEq}
use zl_zpr_visaservice.Eval.{Direction}
use zl_zpr_visaservice.DenyLog.{VsapiFiveTuple}

pub data NodeVisaState : Type 0 where
  pending_install installed pending_revoke revoked : NodeVisaState

-- `NodeVisaState == NodeVisaState`
abbrev pub same_state : NodeVisaState → NodeVisaState → Bool
same_state pending_install pending_install = true
same_state installed installed = true
same_state pending_revoke pending_revoke = true
same_state revoked revoked = true
same_state _ _ = false

pub record NodeState : Type 0 where
  pub state : NodeVisaState
  pub revoke_vinst : Option ℕ

pub record VisaMetadata : Type 0 where
  pub requesting_node : IpAddr
  pub ctime : ℕ
  pub policy_version : ℕ
  pub created_vinst : ℕ
  pub checked_vinst : ℕ
  pub zpl : String
  pub signal_msgs : List String
  pub direction : Direction
  pub path : Option (List IpAddr)
  pub five_tuple : VsapiFiveTuple

-- the deadline in nanoseconds
pub record VisaEntry : Type 0 where
  pub metadata : VisaMetadata
  pub deadline : ℕ
  pub node_states : Map IpAddr NodeState

pub record VisaStore : Type 0 where
  pub visas : Map ℕ VisaEntry
  pub by_node : Map IpAddr (List ℕ)

pub data StoreError : Type 0 where
  write_failed : StoreError

-- whole seconds
unfoldable pub remaining_secs : ℕ → ℕ → ℕ
remaining_secs now deadline = (deadline - now) / 10 ^ 9

abbrev pub if_live : ℕ → Option VisaEntry → Option VisaEntry
if_live now none = none
if_live now (some e) = if ltb 0 (remaining_secs now e.deadline) then some e else none

unfoldable pub live_entry : ℕ → VisaStore → ℕ → Option VisaEntry
live_entry now s id = if_live now (lookup id s.visas)

-- `values_mut`
abbrev pub update_states : (NodeState → NodeState) → Map IpAddr NodeState → Map IpAddr NodeState
update_states f [] = []
update_states f ((k, v) ∷ m) = (k, f v) ∷ update_states f m

-- a revoke whose stamp predates the allow is cancelled
unfoldable pub allow_state : ℕ → NodeState → NodeState
allow_state vinst ns = elim ns.revoke_vinst [
  | none ↦ ns
  | some rv ↦
      if same_state ns.state pending_revoke && ltb rv vinst
      then record { state = pending_install; revoke_vinst = none }
      else ns
]

-- the stamp is only raised
unfoldable pub deny_state : ℕ → NodeState → NodeState
deny_state vinst ns = record {
  state = pending_revoke;
  revoke_vinst = elim ns.revoke_vinst [
    | none ↦ some vinst
    | some rv ↦ if ltb rv vinst then some vinst else some rv
  ];
}

unfoldable pub mark_state : NodeState → NodeState
mark_state ns = record ns { state = pending_revoke }

unfoldable pub allow_entry : ℕ → VisaEntry → VisaEntry
allow_entry vinst e = record e {
  metadata = record e.metadata { checked_vinst = vinst };
  node_states = update_states (allow_state vinst) e.node_states;
}

unfoldable pub deny_entry : ℕ → VisaEntry → VisaEntry
deny_entry vinst e = record e { node_states = update_states (deny_state vinst) e.node_states }

unfoldable pub mark_entry : VisaEntry → VisaEntry
mark_entry e = record e { node_states = update_states mark_state e.node_states }

-- the node leaves the index of the visa; a node without visas leaves the index
abbrev pub unindexed : ℕ → IpAddr → Option (List ℕ) → Map IpAddr (List ℕ) → Map IpAddr (List ℕ)
unindexed id node none m = m
unindexed id node (some ids) m =
    let rest = filter (λ i. not (i == id)) ids in
    if is_empty rest then remove node m else insert node rest m

abbrev pub unindex_node : ℕ → IpAddr → VisaStore → VisaStore
unindex_node id node s = record s { by_node = unindexed id node (lookup node s.by_node) s.by_node }

abbrev pub unindex_nodes : ℕ → List IpAddr → VisaStore → VisaStore
unindex_nodes id [] s = s
unindex_nodes id (n ∷ ns) s = unindex_nodes id ns (unindex_node id n s)

abbrev pub removed_entry : ℕ → Option VisaEntry → VisaStore → VisaStore
removed_entry id none s = s
removed_entry id (some e) s =
    unindex_nodes id (keys e.node_states) (record s { visas = remove id s.visas })

unfoldable pub remove_entry : ℕ → VisaStore → VisaStore
remove_entry id s = removed_entry id (lookup id s.visas) s

abbrev pub expired_ids : ℕ → Map ℕ VisaEntry → List ℕ
expired_ids now [] = []
expired_ids now ((id, e) ∷ m) =
    if ltb 0 (remaining_secs now e.deadline) then expired_ids now m else id ∷ expired_ids now m

abbrev pub remove_entries : List ℕ → VisaStore → VisaStore
remove_entries [] s = s
remove_entries (id ∷ ids) s = remove_entries ids (remove_entry id s)

-- a scan, which is skipped where the last was too short ago
unfoldable pub purge_expired : ℕ → VisaStore → VisaStore
purge_expired now s = remove_entries (expired_ids now s.visas) s

-- what happens while the record is written: nothing, or a purge at some time
abbrev pub after_gap : Option ℕ → VisaStore → VisaStore
after_gap none s = s
after_gap (some t) s = purge_expired t s

abbrev pub applied : ℕ → VisaEntry → Option VisaEntry → VisaStore → VisaStore
applied id e none s = s
applied id e (some old) s = record s { visas = insert id e s.visas }

-- the database first, then memory, unless the visa has been purged
abbrev pub commit : Bool → Option ℕ → ℕ → VisaEntry → VisaStore → Result StoreError Bool × VisaStore
commit false gap id e s = (err write_failed, after_gap gap s)
commit true gap id e s = let s' = after_gap gap s in (ok true, applied id e (lookup id s'.visas) s')

unfoldable pub record_allow_verdict :
    Bool → Option ℕ → ℕ → VisaStore → ℕ → ℕ → Result StoreError Bool × VisaStore
record_allow_verdict written gap now s id vinst = elim (live_entry now s id) [
  | none ↦ (ok false, s)
  | some e ↦
      if leb vinst e.metadata.checked_vinst
      then (ok false, s)
      else commit written gap id (allow_entry vinst e) s
]

unfoldable pub record_deny_verdict :
    Bool → Option ℕ → ℕ → VisaStore → ℕ → ℕ → Result StoreError Bool × VisaStore
record_deny_verdict written gap now s id vinst = elim (live_entry now s id) [
  | none ↦ (ok false, s)
  | some e ↦
      if leb vinst e.metadata.checked_vinst
      then (ok false, s)
      else commit written gap id (deny_entry vinst e) s
]

unfoldable pub mark_visa_revoked :
    Bool → Option ℕ → ℕ → VisaStore → ℕ → Result StoreError Bool × VisaStore
mark_visa_revoked written gap now s id = elim (live_entry now s id) [
  | none ↦ (ok false, s)
  | some e ↦ commit written gap id (mark_entry e) s
]

abbrev pub in_state : NodeVisaState → Option NodeState → Bool
in_state st none = false
in_state st (some ns) = same_state ns.state st

abbrev pub moved : IpAddr → NodeVisaState → Option NodeState → VisaEntry → VisaEntry
moved node new none e = e
moved node new (some ns) e = record e {
  node_states = insert node (record ns { state = new }) e.node_states;
}

unfoldable pub transition_node_visa_state :
    Bool
    → Option ℕ
    → ℕ
    → VisaStore
    → IpAddr
    → ℕ
    → NodeVisaState
    → NodeVisaState
    → Result StoreError Bool × VisaStore
transition_node_visa_state written gap now s node id expected new = elim (live_entry now s id) [
  | none ↦ (ok false, s)
  | some e ↦
      let ns = lookup node e.node_states in
      if not (in_state expected ns)
      then (ok false, s)
      else commit written gap id (moved node new ns e) s
]

abbrev pub unindex_written :
    ℕ → IpAddr → Result StoreError Bool × VisaStore → Result StoreError Bool × VisaStore
unindex_written id node (ok b, s) = (ok b, unindex_node id node s)
unindex_written id node r = r

unfoldable pub remove_node_if_pending_revoke :
    Bool → Option ℕ → ℕ → VisaStore → IpAddr → ℕ → Result StoreError Bool × VisaStore
remove_node_if_pending_revoke written gap now s node id = elim (live_entry now s id) [
  | none ↦ (ok false, s)
  | some e ↦
      if not (in_state pending_revoke (lookup node e.node_states))
      then (ok false, s)
      else unindex_written id node
          (commit written gap id (record e { node_states = remove node e.node_states }) s)
]

abbrev has_states : Option VisaEntry → Bool
has_states none = false
has_states (some e) = not (is_empty e.node_states)

unfoldable pub visa_has_node_refs : ℕ → VisaStore → ℕ → Bool
visa_has_node_refs now s id = has_states (live_entry now s id)
