-- ===== src/VisaRepo/Verdicts.antt =====
-- Verdicts of policy sweeps and departures, one after the other, on the visas that are out.
use zl_zpr_visaservice.Base.{
  ℕ, ◌<◌, ℕ-HasEq, ◌≡◌, refl, ap, ◌∙◌, true, false, ◌||◌, [], Option, none, some, ok, arith, ltb,
  leb, lookup, insert, lookup-insert, Map, Bool-cases, inl, inr, some_inj, beq_refl,
}
use zl_zpr_visaservice.IpAddr.{IpAddr, IpAddr-HasEq}
use zl_zpr_visaservice.VisaRepo.{
  NodeState, VisaEntry, VisaStore, remaining_secs, if_live, live_entry, update_states, allow_state,
  deny_state, mark_state, allow_entry, deny_entry, mark_entry, record_allow_verdict,
  record_deny_verdict, mark_visa_revoked,
}
use zl_zpr_visaservice.VisaRepo.States.{
  is_revoking, stamped_from, optional, lookup-update_states, deny-allow,
}

abbrev pub states_of : Option VisaEntry → Map IpAddr NodeState
states_of none = []
states_of (some e) = e.node_states

-- the state of a visa on a node, as it stands in memory
abbrev pub node_state : VisaStore → ℕ → IpAddr → Option NodeState
node_state s id n = lookup n (states_of (lookup id s.visas))

if_live-some :
    (now : ℕ) (o : Option VisaEntry) (e : VisaEntry)
    → if_live now o ≡ some e
    → (o ≡ some e) × (ltb 0 (remaining_secs now e.deadline) ≡ true)
if_live-some now none e h = absurd (cc h)
if_live-some now (some x) e h = elim (Bool-cases (ltb 0 (remaining_secs now x.deadline))) [
  | inl live ↦ let same : x ≡ e = some_inj (rw live at h) in (ap some same, rw (← same) live)
  | inr expired ↦ absurd (cc (rw expired at h))
]

-- an entry that is live is the one under its number, before its deadline
pub live_entry-lookup :
    (now : ℕ) (s : VisaStore) (id : ℕ) (e : VisaEntry)
    → live_entry now s id ≡ some e
    → (lookup id s.visas ≡ some e) × (ltb 0 (remaining_secs now e.deadline) ≡ true)
unfolding live_entry
live_entry-lookup now s id e h = if_live-some now (lookup id s.visas) e h

live_entry-insert :
    (now : ℕ) (s : VisaStore) (id : ℕ) (e : VisaEntry)
    → ltb 0 (remaining_secs now e.deadline) ≡ true
    → live_entry now (record s { visas = insert id e s.visas }) id ≡ some e
unfolding live_entry
live_entry-insert now s id e h = rw (lookup-insert id id e s.visas, beq_refl id, h) refl

pub deny_takes :
    (now v id : ℕ) (s : VisaStore) (e : VisaEntry)
    → live_entry now s id ≡ some e
    → e.metadata.checked_vinst < v
    → record_deny_verdict true none now s id v
      ≡ (ok true, record s { visas = insert id (deny_entry v e) s.visas })
unfolding record_deny_verdict
deny_takes now v id s e h lt =
    let newer : leb v e.metadata.checked_vinst ≡ false = ground (arith, lt) in
    rw (record_deny_verdict, h, newer, (live_entry-lookup now s id e h).0) refl

allow_takes :
    (now w id : ℕ) (s : VisaStore) (e : VisaEntry)
    → live_entry now s id ≡ some e
    → e.metadata.checked_vinst < w
    → record_allow_verdict true none now s id w
      ≡ (ok true, record s { visas = insert id (allow_entry w e) s.visas })
unfolding record_allow_verdict
allow_takes now w id s e h lt =
    let newer : leb w e.metadata.checked_vinst ≡ false = ground (arith, lt) in
    rw (record_allow_verdict, h, newer, (live_entry-lookup now s id e h).0) refl

pub mark_takes :
    (now id : ℕ) (s : VisaStore) (e : VisaEntry)
    → live_entry now s id ≡ some e
    → mark_visa_revoked true none now s id
      ≡ (ok true, record s { visas = insert id (mark_entry e) s.visas })
unfolding mark_visa_revoked
mark_takes now id s e h = rw (mark_visa_revoked, h, (live_entry-lookup now s id e h).0) refl

pub node_state-insert :
    (s : VisaStore) (id : ℕ) (e : VisaEntry) (n : IpAddr)
    → node_state (record s { visas = insert id e s.visas }) id n ≡ lookup n e.node_states
node_state-insert s id e n = rw (lookup-insert id id e s.visas, beq_refl id) refl

-- A newer deny reaches a visa, then a newer allow does: on each node the visa is still being revoked
-- exactly when the allow is no newer than the deny, or than an earlier deny the node is stamped with.
-- Both are newer than the visa's last check, the visa is live at both, and both are written.
pub deny_then_allow :
    (now later v w id : ℕ) (s : VisaStore) (e : VisaEntry) (n : IpAddr) (ns : NodeState)
    → live_entry now s id ≡ some e
    → ltb 0 (remaining_secs later e.deadline) ≡ true
    → e.metadata.checked_vinst < v
    → e.metadata.checked_vinst < w
    → lookup n e.node_states ≡ some ns
    → (ns' : NodeState) × (node_state
          (record_allow_verdict true none later (record_deny_verdict true none now s id v).1 id w).1
          id
          n
        ≡ some ns')
      × (is_revoking ns' ≡ (leb w v || stamped_from w ns))
unfolding deny_entry allow_entry
deny_then_allow now later v w id s e n ns h live lv lw at_n =
    let s1 = record s { visas = insert id (deny_entry v e) s.visas } in
    let step1 = deny_takes now v id s e h lv in
    let live1 = live_entry-insert later s id (deny_entry v e) live in
    let step2 = allow_takes later w id s1 (deny_entry v e) live1 lw in
    (
      allow_state w (deny_state v ns),
      ap (λ r. node_state (record_allow_verdict true none later r.1 id w).1 id n) step1
          ∙ ap (λ r. node_state r.1 id n) step2
          ∙ node_state-insert s1 id (allow_entry w (deny_entry v e)) n
          ∙ lookup-update_states (allow_state w) n (update_states (deny_state v) e.node_states)
          ∙ ap (optional (allow_state w)) (
              lookup-update_states (deny_state v) n e.node_states
              ∙ ap (optional (deny_state v)) at_n),
      deny-allow v w ns,
    )

ends :
    (w v : ℕ) (ns : NodeState)
    → v < w
    → ns.revoke_vinst ≡ none
    → (leb w v || stamped_from w (mark_state ns)) ≡ false
unfolding mark_state
ends w v ns vw fresh = ground (arith, vw, fresh)

-- On a node without a stamp, a departure that marks a live visa starts a revoke and leaves the node
-- without a stamp. The mark does not outlast verdicts of both kinds: a deny that is newer than the visa's
-- last check, and then an allow that is newer still, end the revoke. Both are written while the visa is
-- live.
pub mark_undone :
    (now middle later v w id : ℕ) (s : VisaStore) (e : VisaEntry) (n : IpAddr) (ns : NodeState)
    → live_entry now s id ≡ some e
    → ltb 0 (remaining_secs middle e.deadline) ≡ true
    → ltb 0 (remaining_secs later e.deadline) ≡ true
    → e.metadata.checked_vinst < v
    → v < w
    → lookup n e.node_states ≡ some ns
    → ns.revoke_vinst ≡ none
    → ((marked : NodeState) × (node_state (mark_visa_revoked true none now s id).1 id n
          ≡ some marked)
        × (is_revoking marked ≡ true)
        × (marked.revoke_vinst ≡ none))
      × (ns' : NodeState) × (node_state
            (record_allow_verdict true none later
              (record_deny_verdict true none middle (mark_visa_revoked true none now s id).1 id v).1
              id
              w).1
            id
            n
          ≡ some ns')
      × (is_revoking ns' ≡ false)
unfolding mark_entry mark_state
mark_undone now middle later v w id s e n ns h live1 live2 lv vw at_n fresh =
    let s1 = record s { visas = insert id (mark_entry e) s.visas } in
    let step = mark_takes now id s e h in
    let at_n' : lookup n (mark_entry e).node_states ≡ some (mark_state ns) =
      lookup-update_states mark_state n e.node_states ∙ ap (optional mark_state) at_n in
    let (ns', found, r) =
      deny_then_allow middle later v w id s1 (mark_entry e) n (mark_state ns)
        (live_entry-insert middle s id (mark_entry e) live1) live2 lv (omega (arith, lv, vw))
        at_n' in
    (
      (
        mark_state ns,
        ap (λ r. node_state r.1 id n) step ∙ node_state-insert s id (mark_entry e) n ∙ at_n',
        refl,
        fresh,
      ),
      ns',
      ap
            (λ r.
              node_state
                (record_allow_verdict true none later
                  (record_deny_verdict true none middle r.1 id v).1 id w).1
                id n)
            step
          ∙ found,
      r ∙ ends w v ns vw fresh,
    )
