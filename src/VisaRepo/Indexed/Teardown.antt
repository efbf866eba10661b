-- ===== src/VisaRepo/Indexed/Teardown.antt =====
-- The teardown of a revoked visa on a node, and the index.
use zl_zpr_visaservice.Base.{
  ◌⊎◌, ℕ, ℕ-HasEq, ◌==◌, ◌≡◌, refl, sym, ap, ◌∙◌, Bool, true, false, Option, none, some, is_some,
  lookup, lookup-insert, lookup-remove, remove, arith, Bool-cases, Option-cases, inl, inr,
}
use zl_zpr_visaservice.IpAddr.{IpAddr, IpAddr-HasEq}
use zl_zpr_visaservice.VisaRepo.{
  NodeVisaState, pending_revoke, unindex_node, unindex_written, remove_node_if_pending_revoke,
  VisaEntry, VisaStore, after_gap, applied, commit, live_entry, in_state,
  transition_node_visa_state, record_allow_verdict, record_deny_verdict, mark_visa_revoked,
}
use zl_zpr_visaservice.VisaRepo.Verdicts.{node_state, states_of, live_entry-lookup}
use zl_zpr_visaservice.VisaRepo.Store.Stored.{has_row}
use zl_zpr_visaservice.VisaRepo.Indexed.{
  IsIndexed, no_states, has_row-unindexed, after_gap-IsIndexed,
}
use zl_zpr_visaservice.VisaRepo.Indexed.Writers.{
  gap_some, verdicts-IsIndexed, transition_node_visa_state-IsIndexed,
}

torn_down :
    (id : ℕ) (node : IpAddr) (e : VisaEntry) (s : VisaStore) (o : Option VisaEntry)
    → lookup id s.visas ≡ o
    → (o ≡ none) ⊎ (o ≡ some e)
    → IsIndexed s
    → IsIndexed (
        unindex_node id node
          (applied id (record e { node_states = remove node e.node_states }) o s))
torn_down id node e s none found known h i n =
    has_row-unindexed id i node n (lookup node s.by_node) s.by_node refl
    ∙ elim (Bool-cases (id == i)) [
      | inl same ↦
          let gone : node_state s i n ≡ lookup n (states_of none) =
            ap (λ j. node_state s j n) (sym ((ℕ-HasEq.is_eq_iff id i).0 same))
            ∙ ap (λ o. lookup n (states_of o)) found in
          let unknown : is_some (node_state s i n) ≡ false = ap is_some gone ∙ no_states n in
          rw (h i n) (ground (arith, unknown))
      | inr other ↦ rw (h i n) (ground (arith, other))
    ]
torn_down id node e s (some x) found (inl gone) h i n = absurd (cc gone)
torn_down id node e s (some x) found (inr there) h i n =
    let cut = remove node e.node_states in
    has_row-unindexed id i node n (lookup node s.by_node) s.by_node refl
    ∙ elim (Bool-cases (id == i)) [
      | inl same ↦
          let before : has_row i n s.by_node ≡ is_some (lookup n e.node_states) =
            h i n
            ∙ ap (λ j. is_some (node_state s j n)) (sym ((ℕ-HasEq.is_eq_iff id i).0 same))
            ∙ ap (λ o. is_some (lookup n (states_of o))) (found ∙ there) in
          rw
            (
              lookup-insert id i (record e { node_states = cut }) s.visas,
              same,
              before,
              lookup-remove node n e.node_states,
            )
            (elim (Bool-cases (node == n)) [
              | inl at_node ↦ rw at_node (ground arith)
              | inr elsewhere ↦ rw elsewhere (ground arith)
            ])
      | inr other ↦
          rw (lookup-insert id i (record e { node_states = cut }) s.visas, other)
            (rw (h i n) (ground arith))
    ]

written_teardown :
    (written : Bool) (gap : Option ℕ) (id : ℕ) (node : IpAddr) (e : VisaEntry) (s : VisaStore)
    → lookup id s.visas ≡ some e
    → IsIndexed s
    → IsIndexed
        (unindex_written id node
          (commit written gap id (record e { node_states = remove node e.node_states }) s)).1
written_teardown false gap id node e s found h = after_gap-IsIndexed gap s h
written_teardown true gap id node e s found h =
    torn_down id node e (after_gap gap s) (lookup id (after_gap gap s).visas) refl
      (elim (Option-cases (lookup id (after_gap gap s).visas)) [
        | inl gone ↦ inl gone
        | inr (x, there) ↦ inr (there ∙ sym (gap_some gap id s x there) ∙ found)
      ])
      (after_gap-IsIndexed gap s h)

-- The teardown of a revoked visa on a node keeps the index the inverse of the states on the nodes, on
-- every branch and whatever purge runs meanwhile.
remove_node_if_pending_revoke-IsIndexed :
    (written : Bool) (gap : Option ℕ) (now id : ℕ) (s : VisaStore) (node : IpAddr)
    → IsIndexed s
    → IsIndexed (remove_node_if_pending_revoke written gap now s node id).1
unfolding remove_node_if_pending_revoke
remove_node_if_pending_revoke-IsIndexed written gap now id s node h =
    elim (Option-cases (live_entry now s id)) [
      | inl absent ↦ rw (remove_node_if_pending_revoke, absent) h
      | inr (e, live) ↦ elim (Bool-cases (in_state pending_revoke (lookup node e.node_states))) [
        | inl pending ↦
            rw (remove_node_if_pending_revoke, live, pending)
              (written_teardown written gap id node e s (live_entry-lookup now s id e live).0 h)
        | inr differs ↦ rw (remove_node_if_pending_revoke, live, differs) h
      ]
    ]

-- Verdicts of both kinds, marks, transitions and the teardown keep the index the inverse of the states
-- on the nodes, on every branch and whatever purge runs meanwhile.
pub writers-IsIndexed :
    (written : Bool) (gap : Option ℕ) (now id vinst : ℕ) (s : VisaStore) (node : IpAddr)
    (expected new : NodeVisaState)
    → IsIndexed s
    → IsIndexed (record_allow_verdict written gap now s id vinst).1
      × IsIndexed (record_deny_verdict written gap now s id vinst).1
      × IsIndexed (mark_visa_revoked written gap now s id).1
      × IsIndexed (transition_node_visa_state written gap now s node id expected new).1
      × IsIndexed (remove_node_if_pending_revoke written gap now s node id).1
writers-IsIndexed written gap now id vinst s node expected new h =
    let (for_allow, for_deny, for_mark) = verdicts-IsIndexed written gap now id vinst s h in
    (
      for_allow,
      for_deny,
      for_mark,
      transition_node_visa_state-IsIndexed written gap now id s node expected new h,
      remove_node_if_pending_revoke-IsIndexed written gap now id s node h,
    )
