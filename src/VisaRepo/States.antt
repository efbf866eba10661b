-- ===== src/VisaRepo/States.antt =====
-- What verdicts do to the state of a visa on one node.
use zl_zpr_visaservice.Base.{
  ℕ, ℕ-HasEq, ◌==◌, ◌≡◌, inl, inr, refl, Bool, false, ◌||◌, [], ◌∷◌, Option, none, some, arith, ltb,
  leb, lookup, Map, Bool-cases, Option-cases,
}
use zl_zpr_visaservice.IpAddr.{IpAddr, IpAddr-HasEq}
use zl_zpr_visaservice.VisaRepo.{
  NodeState, pending_revoke, same_state, update_states, allow_state, deny_state,
}

abbrev pub is_revoking : NodeState → Bool
is_revoking ns = same_state ns.state pending_revoke

-- the stamp of a node is at least a generation
abbrev pub stamped_from : ℕ → NodeState → Bool
stamped_from v ns = elim ns.revoke_vinst [ none ↦ false | some rv ↦ leb v rv ]

abbrev pub optional : (NodeState → NodeState) → Option NodeState → Option NodeState
optional f none = none
optional f (some ns) = some (f ns)

pub lookup-update_states :
    (f : NodeState → NodeState) (n : IpAddr) (m : Map IpAddr NodeState)
    → lookup n (update_states f m) ≡ optional f (lookup n m)
unfolding lookup
lookup-update_states f n [] = refl
lookup-update_states f n ((k, v) ∷ m) = elim (Bool-cases (k == n)) [
  | inl same ↦ rw same refl
  | inr other ↦ rw other (lookup-update_states f n m)
]

-- A deny, then an allow: the node is still being revoked exactly when the allow is no newer than the
-- deny, or than an earlier deny that the node is stamped with.
pub deny-allow :
    (v w : ℕ) (ns : NodeState)
    → is_revoking (allow_state w (deny_state v ns)) ≡ (leb w v || stamped_from w ns)
unfolding allow_state deny_state
deny-allow v w ns = elim (Option-cases ns.revoke_vinst) [
  | inl fresh ↦
      rw (fresh, allow_state, deny_state)
        (elim (Bool-cases (ltb v w)) [
          | inl newer ↦ rw (newer) (ground (arith, newer))
          | inr older ↦ rw (older) (ground (arith, older))
        ])
  | inr (rv, e) ↦ elim (Bool-cases (ltb rv v)) [
    | inl raised ↦ elim (Bool-cases (ltb v w)) [
      | inl newer ↦ rw (e, raised, newer) (ground (arith, raised, newer))
      | inr older ↦ rw (e, raised, older) (ground (arith, raised, older))
    ]
    | inr kept ↦ elim (Bool-cases (ltb rv w)) [
      | inl newer ↦ rw (e, kept, newer) (ground (arith, kept, newer))
      | inr older ↦ rw (e, kept, older) (ground (arith, kept, older))
    ]
  ]
]
