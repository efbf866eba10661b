-- ===== src/VisaRepo/Store.antt =====
-- vs/src/db/visa.rs: a new visa is stored with its state on the nodes of its path, and indexed by them.
pub mod Stored
use zl_zpr_visaservice.Base.{
  ℕ, ◌+◌, ◌-◌, ◌*◌, ◌/◌, ◌^◌, ℕ-HasEq, ◌==◌, Bool, true, false, List, [], ◌∷◌, Option, none, some,
  Result, ok, err, if◌then◌else◌, Map, lookup, insert, keys, set_insert,
}
use zl_zpr_visaservice.IpAddr.{IpAddr, IpAddr-HasEq}
use zl_zpr_visaservice.VisaRepo.{
  NodeVisaState, NodeState, pending_install, VisaMetadata, VisaEntry, VisaStore, StoreError,
  write_failed, after_gap,
}

unfoldable pub seconds_until : ℕ → ℕ → ℕ
seconds_until now t = (t - now) / 10 ^ 9

-- a node state that no verdict has stamped
abbrev pub fresh : NodeVisaState → NodeState
fresh st = record { state = st; revoke_vinst = none }

-- the other nodes of the path
abbrev pub path_states : IpAddr → List IpAddr → Map IpAddr NodeState → Map IpAddr NodeState
path_states req [] m = m
path_states req (node ∷ path) m =
    path_states req path (if node == req then m else insert node (fresh pending_install) m)

abbrev pub path_nodes : Option (List IpAddr) → List IpAddr
path_nodes none = []
path_nodes (some path) = path

unfoldable pub initial_states : VisaMetadata → NodeVisaState → Map IpAddr NodeState
unfolding insert
initial_states md nstate =
    path_states md.requesting_node (path_nodes md.path) ((md.requesting_node, fresh nstate) ∷ [])

-- the entry of a visa that expires at a time
abbrev pub stored_entry : ℕ → ℕ → VisaMetadata → NodeVisaState → VisaEntry
stored_entry now expires md nstate = record {
  metadata = md;
  deadline = now + seconds_until now expires * 10 ^ 9;
  node_states = initial_states md nstate;
}

-- `entry(..).or_default()`
abbrev pub row_of : Option (List ℕ) → List ℕ
row_of none = []
row_of (some ids) = ids

abbrev pub index_nodes : ℕ → List IpAddr → Map IpAddr (List ℕ) → Map IpAddr (List ℕ)
index_nodes id [] b = b
index_nodes id (n ∷ ns) b = index_nodes id ns (insert n (set_insert id (row_of (lookup n b))) b)

unfoldable pub insert_entry : ℕ → VisaEntry → VisaStore → VisaStore
insert_entry id e s = record {
  visas = insert id e s.visas;
  by_node = index_nodes id (keys e.node_states) s.by_node;
}

-- the database first; a visa without a whole second left is not stored
unfoldable pub store_visa :
    Bool
    → Option ℕ
    → ℕ
    → VisaStore
    → ℕ
    → ℕ
    → VisaMetadata
    → NodeVisaState
    → Result StoreError (Unit {0}) × VisaStore
store_visa written gap now s id expires md nstate =
    let ttl = seconds_until now expires in
    if ttl == 0
    then (ok tt, s)
    else if written
    then (ok tt, insert_entry id (stored_entry now expires md nstate) (after_gap gap s))
    else (err write_failed, after_gap gap s)
