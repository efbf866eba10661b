-- ===== src/VisaReconciler.antt =====
-- vs/src/visa_reconciler.rs: the sweep over the visas that are out, after a policy update or a change
-- of attributes. `recheck` is VisaMgr::recheck_visa_allowed at a visa, `live_vinst` the generation that
-- is live when the visa with a number is looked at, and `written` whether its verdict reached the
-- database. A sweep is taken at one time, and nothing else writes to the store meanwhile. The counts,
-- which are only logged, are left out.
pub mod Writes
pub mod Sweep
pub mod Marks
mod Tests
use zl_zpr_visaservice.Base.{
  ℕ, ℕ-HasEq, ◌==◌, Bool, true, false, not, ◌&&◌, List, [], ◌∷◌, Option, none, some, Result, ok,
  err, panic, if◌then◌else◌, leb, Map, ltb,
}
use zl_zpr_visaservice.Policy.{Policy}
use zl_zpr_visaservice.Eval.{PacketDesc}
use zl_zpr_visaservice.VisaRepo.{
  VisaMetadata, VisaEntry, VisaStore, remaining_secs, record_allow_verdict, record_deny_verdict,
  mark_visa_revoked,
}
use zl_zpr_visaservice.VisaPolicy.{
  Parts, ServiceError, VisaRecheck, skip_unresolved_actor, allow_same_route, revoke,
  recheck_visa_allowed,
}

pub data SweepReason : Type 0 where
  policy_update attribute_change : SweepReason

abbrev pub is_policy_update : SweepReason → Bool
is_policy_update policy_update = true
is_policy_update attribute_change = false

-- `VisaRepo::list_visa_metadata`
abbrev pub list_visa_metadata : ℕ → Map ℕ VisaEntry → List (ℕ × VisaMetadata)
list_visa_metadata now [] = []
list_visa_metadata now ((id, e) ∷ m) =
    let rest = list_visa_metadata now m in
    if ltb 0 (remaining_secs now e.deadline) then (id, e.metadata) ∷ rest else rest

-- the packet that a visa is for, and the recheck of the visa
unfoldable pub recheck_visa : ℕ → Parts → Policy → VisaMetadata → Result ServiceError VisaRecheck
recheck_visa now parts policy md =
    recheck_visa_allowed now parts
      (record {
        source_addr = md.five_tuple.source_addr;
        dest_addr = md.five_tuple.dest_addr;
        protocol = md.five_tuple.l4_protocol;
        source_port = md.five_tuple.source_port;
        dest_port = md.five_tuple.dest_port;
      })
      md.path policy

module _ (now : ℕ) (recheck : VisaMetadata → Result ServiceError VisaRecheck) (live_vinst : ℕ → ℕ)
    (written : ℕ → Bool) where
  -- a verdict is recorded only while the sweep's generation is the live one
  abbrev pub deny_of : SweepReason → ℕ → ℕ → VisaStore → VisaStore
  deny_of policy_update target id s = (record_deny_verdict (written id) none now s id target).1
  deny_of attribute_change target id s = (mark_visa_revoked (written id) none now s id).1

  abbrev pub allow_of : SweepReason → ℕ → ℕ → VisaStore → VisaStore
  allow_of policy_update target id s =
      if live_vinst id == target
      then (record_allow_verdict (written id) none now s id target).1
      else s
  allow_of attribute_change target id s = s

  -- an error is logged; `none` is a panic
  abbrev pub verdict_of :
      SweepReason → ℕ → ℕ → VisaStore → Result ServiceError VisaRecheck → Option VisaStore
  verdict_of reason target id s (ok skip_unresolved_actor) = some s
  verdict_of reason target id s (ok allow_same_route) = some (allow_of reason target id s)
  verdict_of reason target id s (ok revoke) =
      some (if live_vinst id == target then deny_of reason target id s else s)
  verdict_of reason target id s (err e) = some s
  verdict_of reason target id s panic = none

  unfoldable pub revalidate_visa : SweepReason → ℕ → ℕ × VisaMetadata → VisaStore → Option VisaStore
  revalidate_visa reason target (id, md) s =
      if is_policy_update reason && leb target md.checked_vinst
      then some s
      else verdict_of reason target id s (recheck md)

  abbrev sweep_on : (VisaStore → Option VisaStore) → Option VisaStore → Option VisaStore
  sweep_on rest none = none
  sweep_on rest (some s) = rest s

  unfoldable pub revalidate_all :
      SweepReason → ℕ → List (ℕ × VisaMetadata) → VisaStore → Option VisaStore
  revalidate_all reason target [] s = some s
  revalidate_all reason target (v ∷ vs) s =
      sweep_on (revalidate_all reason target vs) (revalidate_visa reason target v s)

  unfoldable pub revalidate_visas : SweepReason → ℕ → VisaStore → Option VisaStore
  unfolding revalidate_all
  revalidate_visas reason target s = revalidate_all reason target (list_visa_metadata now s.visas) s
