-- ===== src/VisaReconciler/Tests.antt =====
-- A sweep at a concrete visa whose actors are docked nowhere.
use zl_zpr_visaservice.Base.{
  ◌*◌, ◌^◌, ◌≡◌, refl, true, [], ◌∷◌, none, some, ok, Result, arith, lookup, insert, ℕ-HasEq,
}
use zl_zpr_visaservice.IpAddr.{IpAddr, IpAddr-HasEq, v6}
use zl_zpr_visaservice.Actor.{
  Actor, get_authentication_expiration, get_authentication_expiration_with_gate, is_node,
  get_zpr_addr,
}
use zl_zpr_visaservice.Policy.{Policy}
use zl_zpr_visaservice.Eval.{forward}
use zl_zpr_visaservice.VisaRepo.{
  NodeState, installed, pending_revoke, VisaEntry, VisaMetadata, VisaStore, live_entry,
  remaining_secs, allow_state, deny_state, mark_state, allow_entry, deny_entry, mark_entry,
  record_allow_verdict, record_deny_verdict, mark_visa_revoked,
}
use zl_zpr_visaservice.VisaRepo.States.{is_revoking}
use zl_zpr_visaservice.VisaRepo.Verdicts.{node_state}
use zl_zpr_visaservice.Router.{new}
use zl_zpr_visaservice.VisaPolicy.{
  Parts, ServiceError, VisaRecheck, resolve_docking_node, get_docking_node_for_actor,
  get_docking_node_for_aaa, evaluate_against_policy, recheck_visa_allowed, revoke,
}
use zl_zpr_visaservice.VisaReconciler.{
  policy_update, attribute_change, recheck_visa, revalidate_visa, revalidate_all, revalidate_visas,
}
use zl_zpr_visaservice.VisaReconciler.Sweep.{revalidate_visas-deny}
use zl_zpr_visaservice.VisaReconciler.Marks.{is_revoking_at, revalidate_visas-attribute_change}

abbrev hub : IpAddr
hub = v6 9

abbrev up : NodeState
up = record { state = installed; revoke_vinst = none }

abbrev visa : VisaEntry
visa = record {
  metadata = record {
    requesting_node = v6 9;
    ctime = 0;
    policy_version = 1;
    created_vinst = 3;
    checked_vinst = 3;
    zpl = "allow staff to access web";
    signal_msgs = [];
    direction = forward;
    path = none;
    five_tuple = record {
      source_addr = v6 1;
      dest_addr = v6 2;
      l4_protocol = 6;
      source_port = 0;
      dest_port = 80;
    };
  };
  deadline = 60 * 10 ^ 9;
  node_states = (hub, up) ∷ [];
}

abbrev store : VisaStore
store = record { visas = (7, visa) ∷ []; by_node = (hub, 7 ∷ []) ∷ [] }

abbrev nobody : Actor
nobody = record { attrs = []; identity_keys = []; zpr_addr = none }

abbrev undocked : Parts
undocked = record {
  connection_table = [];
  aaa_table = [];
  get_actor_by_zpr_addr = λ a. some nobody;
  router = new;
}

abbrev policy : Policy
policy = record { policy_rdr = none; vinst = 4; join_policies = []; identity_attr_keys = [] }

abbrev recheck : VisaMetadata → Result ServiceError VisaRecheck
recheck = recheck_visa 5 undocked policy

code : Unit {0}
unfolding live_entry remaining_secs lookup insert allow_state deny_state mark_state allow_entry
    deny_entry mark_entry record_allow_verdict record_deny_verdict mark_visa_revoked recheck_visa
    recheck_visa_allowed evaluate_against_policy resolve_docking_node get_docking_node_for_actor
    get_docking_node_for_aaa is_node get_zpr_addr get_authentication_expiration
    get_authentication_expiration_with_gate revalidate_visa revalidate_all revalidate_visas
code = tt

recheck_revokes : recheck visa.metadata ≡ ok revoke
unfolding code
recheck_revokes = refl

abbrev swept : VisaStore
swept = record store {
  visas =
      (
        7,
        record visa {
          node_states = (hub, record { state = pending_revoke; revoke_vinst = some 4 }) ∷ [];
        },
      )
      ∷ [];
}

sweep : revalidate_visas 5 recheck (λ i. 4) (λ i. true) policy_update 4 store ≡ some swept
unfolding code
sweep = refl

-- A newer policy is live: the verdict is dropped.
outdated : revalidate_visas 5 recheck (λ i. 5) (λ i. true) policy_update 4 store ≡ some store
unfolding code
outdated = refl

again : revalidate_visas 5 recheck (λ i. 4) (λ i. true) attribute_change 4 swept ≡ some swept
unfolding code
again = refl

revalidate_visas-deny_example :
    (ns' : NodeState) × (node_state swept 7 hub ≡ some ns') × (is_revoking ns' ≡ true)
unfolding code
revalidate_visas-deny_example =
    revalidate_visas-deny 5 recheck (λ i. 4) (λ i. true) 4 7 store swept visa hub up (refl, tt) refl
      (omega arith) recheck_revokes refl refl refl sweep

revalidate_visas-attribute_change_example : is_revoking_at swept 7 hub ≡ true
unfolding code
revalidate_visas-attribute_change_example =
    revalidate_visas-attribute_change 5 recheck (λ i. 4) (λ i. true) 4 7 swept swept hub refl again
