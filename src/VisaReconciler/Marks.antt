-- ===== src/VisaReconciler/Marks.antt =====
-- What a sweep after a change of attributes leaves of the revokes.
use zl_zpr_visaservice.Base.{
  ℕ, ℕ-HasEq, ◌==◌, ◌≡◌, refl, sym, ap, ◌∙◌, Bool, true, false, List, [], ◌∷◌, Option, none, some,
  Result, ok, err, panic, lookup, lookup-insert, Bool-cases, Option-cases, inl, inr, some_inj,
  beq_refl, nat_beq_iff,
}
use zl_zpr_visaservice.IpAddr.{IpAddr, IpAddr-HasEq}
use zl_zpr_visaservice.VisaRepo.{
  NodeState, VisaMetadata, VisaEntry, VisaStore, live_entry, mark_entry, commit, mark_visa_revoked,
  mark_state,
}
use zl_zpr_visaservice.VisaRepo.States.{is_revoking, lookup-update_states}
use zl_zpr_visaservice.VisaRepo.Verdicts.{node_state, states_of, live_entry-lookup}
use zl_zpr_visaservice.VisaPolicy.{
  ServiceError, VisaRecheck, skip_unresolved_actor, allow_same_route, revoke,
}
use zl_zpr_visaservice.VisaReconciler.{
  attribute_change, list_visa_metadata, verdict_of, revalidate_visa, revalidate_all,
  revalidate_visas,
}
use zl_zpr_visaservice.VisaReconciler.Writes.{commit_other}
use zl_zpr_visaservice.VisaReconciler.Sweep.{first_step}

-- whether a visa is being revoked on a node
abbrev pub revoking : Option NodeState → Bool
revoking none = false
revoking (some ns) = is_revoking ns

abbrev pub is_revoking_at : VisaStore → ℕ → IpAddr → Bool
is_revoking_at s id n = revoking (node_state s id n)

module _ (now : ℕ) (recheck : VisaMetadata → Result ServiceError VisaRecheck) (live_vinst : ℕ → ℕ)
    (written : ℕ → Bool) where
  mark_own :
      (w : Bool) (j id : ℕ) (s : VisaStore) (e : VisaEntry) (n : IpAddr)
      → j ≡ id
      → lookup j s.visas ≡ some e
      → is_revoking_at s id n ≡ true
      → is_revoking_at (commit w none j (mark_entry e) s).1 id n ≡ true
  unfolding mark_entry mark_state
  mark_own false j id s e n same found h = h
  mark_own true j id s e n same found h =
      let here : revoking (lookup n e.node_states) ≡ true =
        sym (
          ap (λ o. revoking (lookup n (states_of o)))
            (ap (λ i. lookup i s.visas) (sym same) ∙ found))
        ∙ h in
      elim (Option-cases (lookup n e.node_states)) [
        | inl gone ↦ absurd (cc (sym (ap revoking gone) ∙ here))
        | inr (ns, at_n) ↦
            rw
              (
                found,
                lookup-insert j id (mark_entry e) s.visas,
                same,
                beq_refl id,
                lookup-update_states mark_state n e.node_states,
                at_n,
              )
              refl
      ]

  mark_keeps :
      (w : Bool) (j id : ℕ) (s : VisaStore) (n : IpAddr)
      → is_revoking_at s id n ≡ true
      → is_revoking_at (mark_visa_revoked w none now s j).1 id n ≡ true
  unfolding mark_visa_revoked mark_entry mark_state
  mark_keeps w j id s n h = elim (Option-cases (live_entry now s j)) [
    | inl absent ↦ rw (mark_visa_revoked, absent) h
    | inr (e, live) ↦ elim (Bool-cases (j == id)) [
      | inl same ↦
          let found = (live_entry-lookup now s j e live).0 in
          let is_id : j ≡ id = (nat_beq_iff j id).0 same in
          rw (mark_visa_revoked, live) (mark_own w j id s e n is_id found h)
      | inr other ↦
          rw (mark_visa_revoked, live)
            (ap (λ o. revoking (lookup n (states_of o)))
                (commit_other w j id (mark_entry e) s other)
              ∙ h)
    ]
  ]

  verdict_keeps :
      (target j id : ℕ) (s s' : VisaStore) (n : IpAddr) (q : Result ServiceError VisaRecheck)
      → is_revoking_at s id n ≡ true
      → verdict_of now recheck live_vinst written attribute_change target j s q ≡ some s'
      → is_revoking_at s' id n ≡ true
  verdict_keeps target j id s s' n (ok skip_unresolved_actor) h e = rw (← some_inj e) h
  verdict_keeps target j id s s' n (ok allow_same_route) h e = rw (← some_inj e) h
  verdict_keeps target j id s s' n (ok revoke) h e = elim (Bool-cases (live_vinst j == target)) [
    | inl live ↦
        let made : (mark_visa_revoked (written j) none now s j).1 ≡ s' = some_inj (rw live at e) in
        rw (← made) (mark_keeps (written j) j id s n h)
    | inr stale ↦ let same : s ≡ s' = some_inj (rw stale at e) in rw (← same) h
  ]
  verdict_keeps target j id s s' n (err x) h e = rw (← some_inj e) h
  verdict_keeps target j id s s' n panic h e = absurd (cc e)

  all_keep :
      (target id : ℕ) (vs : List (ℕ × VisaMetadata)) (s s' : VisaStore) (n : IpAddr)
      → is_revoking_at s id n ≡ true
      → revalidate_all now recheck live_vinst written attribute_change target vs s ≡ some s'
      → is_revoking_at s' id n ≡ true
  unfolding revalidate_all revalidate_visa
  all_keep target id [] s s' n h e = rw (← some_inj e) h
  all_keep target id ((j, md) ∷ vs) s s' n h e =
      let (s1, step, rest) =
        first_step now recheck live_vinst written attribute_change target (j, md) vs s s' e in
      all_keep target id vs s1 s' n (verdict_keeps target j id s s1 n (recheck md) h step) rest

  -- A sweep after a change of attributes that ends leaves every revoke that is queued in place.
  pub revalidate_visas-attribute_change :
      (target id : ℕ) (s s' : VisaStore) (n : IpAddr)
      → is_revoking_at s id n ≡ true
      → revalidate_visas now recheck live_vinst written attribute_change target s ≡ some s'
      → is_revoking_at s' id n ≡ true
  unfolding revalidate_visas
  revalidate_visas-attribute_change target id s s' n h e =
      all_keep target id (list_visa_metadata now s.visas) s s' n h e
