-- ===== src/VisaReconciler/Sweep.antt =====
-- What a sweep after a policy update leaves of the visas.
use zl_zpr_visaservice.Base.{
  ℕ, ◌<◌, ℕ-HasEq, ◌==◌, ◌≡◌, refl, ap, ◌∙◌, Bool, true, false, List, [], ◌∷◌, none, some, Result,
  ok, err, panic, arith, leb, lookup, insert, lookup-insert, NoDupKeys, Bool-cases, Option-cases,
  inl, inr, some_inj, beq_refl, nat_beq_iff,
}
use zl_zpr_visaservice.IpAddr.{IpAddr, IpAddr-HasEq}
use zl_zpr_visaservice.VisaRepo.{
  NodeState, VisaMetadata, VisaEntry, VisaStore, live_entry, deny_entry, record_allow_verdict,
  record_deny_verdict, deny_state,
}
use zl_zpr_visaservice.VisaRepo.States.{is_revoking, optional, lookup-update_states}
use zl_zpr_visaservice.VisaRepo.Verdicts.{node_state, states_of, live_entry-lookup, deny_takes}
use zl_zpr_visaservice.VisaPolicy.{
  ServiceError, VisaRecheck, skip_unresolved_actor, allow_same_route, revoke,
}
use zl_zpr_visaservice.VisaReconciler.{
  SweepReason, policy_update, list_visa_metadata, verdict_of, revalidate_visa, revalidate_all,
  revalidate_visas,
}
use zl_zpr_visaservice.VisaReconciler.Writes.{
  deny_other, allow_other, lookup-listed, listed-NoDupKeys, still_live_at,
}

module _ (now : ℕ) (recheck : VisaMetadata → Result ServiceError VisaRecheck) (live_vinst : ℕ → ℕ)
    (written : ℕ → Bool) where
  -- one visa of a policy sweep, from the point of view of another
  verdict_other :
      (target j id : ℕ) (s s' : VisaStore) (q : Result ServiceError VisaRecheck)
      → (j == id) ≡ false
      → verdict_of now recheck live_vinst written policy_update target j s q ≡ some s'
      → lookup id s'.visas ≡ lookup id s.visas
  verdict_other target j id s s' (ok skip_unresolved_actor) h e = rw (← some_inj e) refl
  verdict_other target j id s s' (ok allow_same_route) h e =
      elim (Bool-cases (live_vinst j == target)) [
        | inl live ↦
            let made : (record_allow_verdict (written j) none now s j target).1 ≡ s' =
              some_inj (rw live at e) in
            rw (← made) (allow_other (written j) now j id target s h)
        | inr stale ↦ let same : s ≡ s' = some_inj (rw stale at e) in rw (← same) refl
      ]
  verdict_other target j id s s' (ok revoke) h e = elim (Bool-cases (live_vinst j == target)) [
    | inl live ↦
        let made : (record_deny_verdict (written j) none now s j target).1 ≡ s' =
          some_inj (rw live at e) in
        rw (← made) (deny_other (written j) now j id target s h)
    | inr stale ↦ let same : s ≡ s' = some_inj (rw stale at e) in rw (← same) refl
  ]
  verdict_other target j id s s' (err x) h e = rw (← some_inj e) refl
  verdict_other target j id s s' panic h e = absurd (cc e)

  visa_other :
      (target j id : ℕ) (md : VisaMetadata) (s s' : VisaStore)
      → (j == id) ≡ false
      → revalidate_visa now recheck live_vinst written policy_update target (j, md) s ≡ some s'
      → lookup id s'.visas ≡ lookup id s.visas
  unfolding revalidate_visa
  visa_other target j id md s s' h e = elim (Bool-cases (leb target md.checked_vinst)) [
    | inl current ↦
        let same : s ≡ s' = some_inj (rw (revalidate_visa, current) at e) in rw (← same) refl
    | inr old ↦ verdict_other target j id s s' (recheck md) h (rw (revalidate_visa, old) at e)
  ]

  -- the first step of a sweep that ends, and the rest
  pub first_step :
      (r : SweepReason) (target : ℕ) (v : ℕ × VisaMetadata) (vs : List (ℕ × VisaMetadata))
      (s s' : VisaStore)
      → revalidate_all now recheck live_vinst written r target (v ∷ vs) s ≡ some s'
      → (s1 : VisaStore) × (revalidate_visa now recheck live_vinst written r target v s ≡ some s1)
        × (revalidate_all now recheck live_vinst written r target vs s1 ≡ some s')
  unfolding revalidate_all
  first_step r target v vs s s' h =
      elim (Option-cases (revalidate_visa now recheck live_vinst written r target v s)) [
        | inl ends ↦ absurd (cc (rw (revalidate_all, ends) at h))
        | inr (s1, e) ↦ (s1, e, rw (revalidate_all, e) at h)
      ]

  all_other :
      (target id : ℕ) (vs : List (ℕ × VisaMetadata)) (s s' : VisaStore)
      → lookup id vs ≡ none
      → revalidate_all now recheck live_vinst written policy_update target vs s ≡ some s'
      → lookup id s'.visas ≡ lookup id s.visas
  unfolding revalidate_all lookup
  all_other target id [] s s' h e = rw (← some_inj e) refl
  all_other target id ((j, md) ∷ vs) s s' h e =
      let (s1, step, rest) = first_step policy_update target (j, md) vs s s' e in
      elim (Bool-cases (j == id)) [
        | inl same ↦ absurd (cc (rw same at h))
        | inr other ↦
            all_other target id vs s1 s' (rw other at h) rest
            ∙ visa_other target j id md s s1 other step
      ]

  -- the visa's own step
  own_step :
      (target id : ℕ) (s s' : VisaStore) (e : VisaEntry)
      → live_entry now s id ≡ some e
      → e.metadata.checked_vinst < target
      → recheck e.metadata ≡ ok revoke
      → live_vinst id ≡ target
      → written id ≡ true
      → revalidate_visa now recheck live_vinst written policy_update target (id, e.metadata) s
        ≡ some s'
      → lookup id s'.visas ≡ some (deny_entry target e)
  unfolding revalidate_visa
  own_step target id s s' e live lt denied current w h =
      let newer : leb target e.metadata.checked_vinst ≡ false = ground (arith, lt) in
      let at_target : (live_vinst id == target) ≡ true =
        (nat_beq_iff (live_vinst id) target).1 current in
      let taken : record_deny_verdict (written id) none now s id target
          ≡ (ok true, record s { visas = insert id (deny_entry target e) s.visas }) =
        rw w (deny_takes now target id s e live lt) in
      let made : (record_deny_verdict (written id) none now s id target).1 ≡ s' =
        some_inj (rw (revalidate_visa, newer, denied, at_target) at h) in
      rw (← made, taken) (rw (lookup-insert id id (deny_entry target e) s.visas, beq_refl id) refl)

  swept :
      (target id : ℕ) (vs : List (ℕ × VisaMetadata)) (s s' : VisaStore) (e : VisaEntry)
      → NoDupKeys vs
      → lookup id vs ≡ some e.metadata
      → live_entry now s id ≡ some e
      → e.metadata.checked_vinst < target
      → recheck e.metadata ≡ ok revoke
      → live_vinst id ≡ target
      → written id ≡ true
      → revalidate_all now recheck live_vinst written policy_update target vs s ≡ some s'
      → lookup id s'.visas ≡ some (deny_entry target e)
  unfolding revalidate_all lookup
  swept target id [] s s' e d at_id live lt denied current w h = absurd (cc at_id)
  swept target id ((j, md) ∷ vs) s s' e d at_id live lt denied current w h =
      let (s1, step, rest) = first_step policy_update target (j, md) vs s s' h in
      elim (Bool-cases (j == id)) [
        | inl same ↦
            let is_id : j ≡ id = (nat_beq_iff j id).0 same in
            let is_md : md ≡ e.metadata = some_inj (rw same at at_id) in
            all_other target id vs s1 s' (rw (← is_id) d.0) rest
            ∙ own_step target id s s1 e live lt denied current w (rw (is_id, is_md) at step)
        | inr other ↦
            let kept = visa_other target j id md s s1 other step in
            swept target id vs s1 s' e d.1 (rw other at at_id)
              (still_live_at now s s1 id e kept live) lt denied current w rest
      ]

  -- A policy sweep that ends has queued every visa that it denies for a revoke on each of its nodes:
  -- a visa that is live, not yet checked at the sweep's generation and denied by its recheck, whose
  -- verdict is written while that generation is the live one. Visas have different numbers.
  pub revalidate_visas-deny :
      (target id : ℕ) (s s' : VisaStore) (e : VisaEntry) (n : IpAddr) (ns : NodeState)
      → NoDupKeys s.visas
      → live_entry now s id ≡ some e
      → e.metadata.checked_vinst < target
      → recheck e.metadata ≡ ok revoke
      → live_vinst id ≡ target
      → written id ≡ true
      → lookup n e.node_states ≡ some ns
      → revalidate_visas now recheck live_vinst written policy_update target s ≡ some s'
      → (ns' : NodeState) × (node_state s' id n ≡ some ns') × (is_revoking ns' ≡ true)
  unfolding revalidate_visas deny_entry deny_state
  revalidate_visas-deny target id s s' e n ns d live lt denied current w at_n h =
      let (found, in_time) = live_entry-lookup now s id e live in
      let left =
        swept target id (list_visa_metadata now s.visas) s s' e (listed-NoDupKeys now s.visas d)
          (lookup-listed now id s.visas e found in_time) live lt denied current w h in
      (
        deny_state target ns,
        ap (λ o. lookup n (states_of o)) left
            ∙ lookup-update_states (deny_state target) n e.node_states
            ∙ ap (optional (deny_state target)) at_n,
        refl,
      )
