-- ===== src/VisaRepo/Tests.antt =====
-- Verdicts at a concrete visa.
use zl_zpr_visaservice.Base.{
  ◌*◌, ◌^◌, ◌||◌, ◌≡◌, refl, true, false, [], ◌∷◌, none, some, ok, err, arith, lookup, insert,
  remove, leb, ℕ-HasEq,
}
use zl_zpr_visaservice.IpAddr.{IpAddr, IpAddr-HasEq, v6}
use zl_zpr_visaservice.Eval.{forward}
use zl_zpr_visaservice.VisaRepo.{
  NodeState, installed, pending_install, pending_revoke, VisaMetadata, VisaEntry, VisaStore,
  live_entry, remaining_secs, allow_state, deny_state, mark_state, allow_entry, deny_entry,
  mark_entry, record_allow_verdict, record_deny_verdict, mark_visa_revoked,
  transition_node_visa_state, remove_node_if_pending_revoke, purge_expired, remove_entry,
  write_failed,
}
use zl_zpr_visaservice.VisaRepo.Store.{initial_states, seconds_until, stored_entry, store_visa}
use zl_zpr_visaservice.VisaRepo.Store.Stored.{has_row, store_visa_lem}
use zl_zpr_visaservice.VisaRepo.Indexed.{IsIndexed, store_visa-IsIndexed}
use zl_zpr_visaservice.VisaRepo.Indexed.Teardown.{writers-IsIndexed}
use zl_zpr_visaservice.VisaRepo.States.{is_revoking, stamped_from}
use zl_zpr_visaservice.VisaRepo.Verdicts.{node_state, deny_then_allow, mark_undone}

abbrev hub : IpAddr
hub = v6 9

abbrev up : NodeState
up = record { state = installed; revoke_vinst = none }

abbrev visa : VisaEntry
visa = record {
  metadata = record {
    requesting_node = v6 9;
    ctime = 0;
    policy_version = 1;
    created_vinst = 3;
    checked_vinst = 3;
    zpl = "allow staff to access web";
    signal_msgs = [];
    direction = forward;
    path = none;
    five_tuple = record {
      source_addr = v6 1;
      dest_addr = v6 2;
      l4_protocol = 6;
      source_port = 0;
      dest_port = 80;
    };
  };
  deadline = 60 * 10 ^ 9;
  node_states = (hub, up) ∷ [];
}

abbrev store : VisaStore
store = record { visas = (7, visa) ∷ []; by_node = (hub, 7 ∷ []) ∷ [] }

code : Unit {0}
unfolding live_entry remaining_secs lookup insert allow_state deny_state mark_state allow_entry
    deny_entry mark_entry record_allow_verdict record_deny_verdict mark_visa_revoked purge_expired
    remove_entry remove
code = tt

-- A write that fails changes nothing.
deny_unwritten : record_deny_verdict false none 0 store 7 4 ≡ (err write_failed, store)
unfolding code
deny_unwritten = refl

-- A purge after the deadline, while the deny is written, leaves no visa and no index row.
deny_purged :
    record_deny_verdict true (some (60 * 10 ^ 9)) 0 store 7 4
    ≡ (ok true, record { visas = []; by_node = [] })
unfolding code
deny_purged = refl

deny_then_allow_example :
    (ns' : NodeState) × (node_state
        (record_allow_verdict true none 10 (record_deny_verdict true none 5 store 7 4).1 7 5).1
        7
        hub
      ≡ some ns')
    × (is_revoking ns' ≡ (leb 5 4 || stamped_from 5 up))
unfolding code
deny_then_allow_example =
    deny_then_allow 5 10 4 5 7 store visa hub up refl refl (omega arith) (omega arith) refl

abbrev marked : VisaStore
marked = record store {
  visas = (7, record visa { node_states = (hub, record up { state = pending_revoke }) ∷ [] }) ∷ [];
}

mark_undone_example :
    ((marked_up : NodeState) × (node_state (mark_visa_revoked true none 1 store 7).1 7 hub
        ≡ some marked_up)
      × (is_revoking marked_up ≡ true)
      × (marked_up.revoke_vinst ≡ none))
    × (ns' : NodeState) × (node_state
          (record_allow_verdict true none 10
            (record_deny_verdict true none 5 (mark_visa_revoked true none 1 store 7).1 7 4).1
            7
            5).1
          7
          hub
        ≡ some ns')
    × (is_revoking ns' ≡ false)
unfolding code
mark_undone_example =
    mark_undone 1 5 10 4 5 7 store visa hub up refl refl refl (omega arith) (omega arith) refl refl

abbrev far : IpAddr
far = v6 11

abbrev routed : VisaMetadata
routed = record visa.metadata { path = some (hub ∷ far ∷ []) }

-- The hub asked for the visa; the far node of the path has yet to install it.
stored_states :
    initial_states routed installed ≡ (hub, up) ∷ (far, record up { state = pending_install }) ∷ []
unfolding initial_states insert
stored_states = refl

-- A visa that expires within the second is not stored.
stored_late : store_visa true none 0 store 8 999999999 routed installed ≡ (ok tt, store)
unfolding store_visa seconds_until
stored_late = refl

store_visa_lem_example :
    ((store_visa true none 0 store 8 2000000000 routed installed).0 ≡ ok tt)
    × (live_entry 0 (store_visa true none 0 store 8 2000000000 routed installed).1 8
        ≡ some (stored_entry 0 2000000000 routed installed))
    × (node_state (store_visa true none 0 store 8 2000000000 routed installed).1 8 far
        ≡ some (record up { state = pending_install }))
    × (has_row 8 far (store_visa true none 0 store 8 2000000000 routed installed).1.by_node ≡ true)
unfolding code store_visa seconds_until
store_visa_lem_example = store_visa_lem none 0 8 2000000000 store routed installed far (omega arith)

abbrev empty_store : VisaStore
empty_store = record { visas = []; by_node = [] }

empty_store-IsIndexed : IsIndexed empty_store
unfolding lookup
empty_store-IsIndexed id n = refl

abbrev first_store : VisaStore
first_store = (store_visa true none 0 empty_store 8 2000000000 routed installed).1

store_visa-IsIndexed_example : IsIndexed first_store
unfolding lookup
store_visa-IsIndexed_example =
    store_visa-IsIndexed true none 0 8 2000000000 empty_store routed installed refl
      empty_store-IsIndexed

writers-IsIndexed_example :
    IsIndexed (record_allow_verdict true none 1 first_store 8 4).1
    × IsIndexed (record_deny_verdict true none 1 first_store 8 4).1
    × IsIndexed (mark_visa_revoked true none 1 first_store 8).1
    × IsIndexed
        (transition_node_visa_state true none 1 first_store far 8 pending_install installed).1
    × IsIndexed (remove_node_if_pending_revoke true none 1 first_store far 8).1
unfolding lookup
writers-IsIndexed_example =
    writers-IsIndexed true none 1 8 4 first_store far pending_install installed (
      store_visa-IsIndexed true none 0 8 2000000000 empty_store routed installed refl
        empty_store-IsIndexed)
