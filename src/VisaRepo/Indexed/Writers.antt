-- ===== src/VisaRepo/Indexed/Writers.antt =====
-- The operations that change the states of a visa that is out, and the index.
use zl_zpr_visaservice.Base.{
  ◌⊎◌, ℕ, ℕ-HasEq, ◌==◌, ◌≡◌, refl, sym, ap, ◌∙◌, Bool, true, false, List, [], ◌∷◌, Option, none,
  some, is_some, leb, if◌then◌else◌, Map, lookup, lookup-insert, Bool-cases, Option-cases, inl, inr,
}
use zl_zpr_visaservice.IpAddr.{IpAddr, IpAddr-HasEq}
use zl_zpr_visaservice.VisaRepo.{
  NodeVisaState, NodeState, VisaEntry, VisaStore, remove_entry, remove_entries, expired_ids,
  purge_expired, after_gap, applied, commit, update_states, live_entry, moved, in_state,
  transition_node_visa_state, allow_state, deny_state, mark_state, allow_entry, deny_entry,
  mark_entry, record_allow_verdict, record_deny_verdict, mark_visa_revoked,
}
use zl_zpr_visaservice.VisaRepo.States.{optional, lookup-update_states}
use zl_zpr_visaservice.VisaRepo.Verdicts.{node_state, states_of, live_entry-lookup}
use zl_zpr_visaservice.VisaRepo.Store.Stored.{has_row}
use zl_zpr_visaservice.VisaRepo.Indexed.{IsIndexed, after_gap-IsIndexed, lookup-removed_entry}

still_some :
    (ids : List ℕ) (i : ℕ) (s : VisaStore) (e : VisaEntry)
    → lookup i (remove_entries ids s).visas ≡ some e
    → lookup i s.visas ≡ some e
unfolding remove_entry
still_some [] i s e h = h
still_some (id ∷ ids) i s e h =
    let before = still_some ids i (remove_entry id s) e h in
    let kept : (if id == i then none else lookup i s.visas) ≡ some e =
      sym (lookup-removed_entry id i s (lookup id s.visas) refl) ∙ before in
    elim (Bool-cases (id == i)) [
      | inl same ↦ absurd (cc (rw same at kept))
      | inr other ↦ rw other at kept
    ]

pub gap_some :
    (gap : Option ℕ) (i : ℕ) (s : VisaStore) (e : VisaEntry)
    → lookup i (after_gap gap s).visas ≡ some e
    → lookup i s.visas ≡ some e
unfolding purge_expired
gap_some none i s e h = h
gap_some (some t) i s e h = still_some (expired_ids t s.visas) i s e h

-- whether two maps have the same keys
abbrev SameNodes : Map IpAddr NodeState → Map IpAddr NodeState → Type 0
SameNodes a b = (n : IpAddr) → is_some (lookup n a) ≡ is_some (lookup n b)

applied-IsIndexed :
    (id : ℕ) (e old : VisaEntry) (s : VisaStore) (o : Option VisaEntry)
    → lookup id s.visas ≡ o
    → (o ≡ none) ⊎ (o ≡ some old)
    → SameNodes e.node_states old.node_states
    → IsIndexed s
    → IsIndexed (applied id e o s)
applied-IsIndexed id e old s none found known agree h i n = h i n
applied-IsIndexed id e old s (some x) found (inl gone) agree h i n = absurd (cc gone)
applied-IsIndexed id e old s (some x) found (inr there) agree h i n = elim (Bool-cases (id == i)) [
  | inl same ↦
      let before : has_row i n s.by_node ≡ is_some (lookup n old.node_states) =
        h i n
        ∙ ap (λ j. is_some (node_state s j n)) (sym ((ℕ-HasEq.is_eq_iff id i).0 same))
        ∙ ap (λ o. is_some (lookup n (states_of o))) (found ∙ there) in
      rw (lookup-insert id i e s.visas, same, before, agree n) refl
  | inr other ↦ rw (lookup-insert id i e s.visas, other) (h i n)
]

commit-IsIndexed :
    (written : Bool) (gap : Option ℕ) (id : ℕ) (e old : VisaEntry) (s : VisaStore)
    → lookup id s.visas ≡ some old
    → SameNodes e.node_states old.node_states
    → IsIndexed s
    → IsIndexed (commit written gap id e s).1
commit-IsIndexed false gap id e old s found agree h = after_gap-IsIndexed gap s h
commit-IsIndexed true gap id e old s found agree h =
    applied-IsIndexed id e old (after_gap gap s) (lookup id (after_gap gap s).visas) refl
      (elim (Option-cases (lookup id (after_gap gap s).visas)) [
        | inl gone ↦ inl gone
        | inr (x, there) ↦ inr (there ∙ sym (gap_some gap id s x there) ∙ found)
      ])
      agree (after_gap-IsIndexed gap s h)

optional-is_some :
    (f : NodeState → NodeState) (o : Option NodeState) → is_some (optional f o) ≡ is_some o
optional-is_some f none = refl
optional-is_some f (some ns) = refl

updated-SameNodes :
    (f : NodeState → NodeState) (m : Map IpAddr NodeState) → SameNodes (update_states f m) m
updated-SameNodes f m n = ap is_some (lookup-update_states f n m) ∙ optional-is_some f (lookup n m)

-- Verdicts of both kinds and marks keep the index the inverse of the states on the nodes, whether or
-- not they are recorded and whatever purge runs meanwhile.
pub verdicts-IsIndexed :
    (written : Bool) (gap : Option ℕ) (now id vinst : ℕ) (s : VisaStore)
    → IsIndexed s
    → IsIndexed (record_allow_verdict written gap now s id vinst).1
      × IsIndexed (record_deny_verdict written gap now s id vinst).1
      × IsIndexed (mark_visa_revoked written gap now s id).1
unfolding record_allow_verdict record_deny_verdict mark_visa_revoked allow_entry deny_entry
    mark_entry
verdicts-IsIndexed written gap now id vinst s h = elim (Option-cases (live_entry now s id)) [
  | inl absent ↦ (
    rw (record_allow_verdict, absent) h,
    rw (record_deny_verdict, absent) h,
    rw (mark_visa_revoked, absent) h,
  )
  | inr (e, live) ↦
      let found = (live_entry-lookup now s id e live).0 in
      let marked : IsIndexed (mark_visa_revoked written gap now s id).1 =
        rw (mark_visa_revoked, live)
          (commit-IsIndexed written gap id (mark_entry e) e s found
            (updated-SameNodes mark_state e.node_states) h) in
      elim (Bool-cases (leb vinst e.metadata.checked_vinst)) [
        | inl old ↦
            (rw (record_allow_verdict, live, old) h, rw (record_deny_verdict, live, old) h, marked)
        | inr newer ↦ (
          rw (record_allow_verdict, live, newer)
              (commit-IsIndexed written gap id (allow_entry vinst e) e s found
                (updated-SameNodes (allow_state vinst) e.node_states) h),
          rw (record_deny_verdict, live, newer)
              (commit-IsIndexed written gap id (deny_entry vinst e) e s found
                (updated-SameNodes (deny_state vinst) e.node_states) h),
          marked,
        )
      ]
]

moved-SameNodes :
    (node : IpAddr) (new : NodeVisaState) (o : Option NodeState) (e : VisaEntry)
    → lookup node e.node_states ≡ o
    → SameNodes (moved node new o e).node_states e.node_states
moved-SameNodes node new none e at_node n = refl
moved-SameNodes node new (some ns) e at_node n = elim (Bool-cases (node == n)) [
  | inl same ↦
      let there : lookup n e.node_states ≡ some ns =
        ap (λ k. lookup k e.node_states) (sym ((IpAddr-HasEq.is_eq_iff node n).0 same)) ∙ at_node in
      rw (lookup-insert node n (record ns { state = new }) e.node_states, same, there) refl
  | inr other ↦ rw (lookup-insert node n (record ns { state = new }) e.node_states, other) refl
]

-- A transition keeps the index the inverse of the states on the nodes, on every branch and whatever
-- purge runs meanwhile.
pub transition_node_visa_state-IsIndexed :
    (written : Bool) (gap : Option ℕ) (now id : ℕ) (s : VisaStore) (node : IpAddr)
    (expected new : NodeVisaState)
    → IsIndexed s
    → IsIndexed (transition_node_visa_state written gap now s node id expected new).1
unfolding transition_node_visa_state
transition_node_visa_state-IsIndexed written gap now id s node expected new h =
    elim (Option-cases (live_entry now s id)) [
      | inl absent ↦ rw (transition_node_visa_state, absent) h
      | inr (e, live) ↦ elim (Bool-cases (in_state expected (lookup node e.node_states))) [
        | inl meets ↦
            rw (transition_node_visa_state, live, meets)
              (commit-IsIndexed written gap id (moved node new (lookup node e.node_states) e) e s
                (live_entry-lookup now s id e live).0
                (moved-SameNodes node new (lookup node e.node_states) e refl) h)
        | inr differs ↦ rw (transition_node_visa_state, live, differs) h
      ]
    ]
