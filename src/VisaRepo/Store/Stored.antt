-- ===== src/VisaRepo/Store/Stored.antt =====
-- What is in the repository after a visa has been stored.
use zl_zpr_visaservice.Base.{
  ℕ, ◌+◌, ◌*◌, ◌^◌, ◌<◌, ℕ-HasEq, ◌==◌, ◌≡◌, refl, ap, ◌∙◌, Bool, true, false, ◌||◌, List, [], ◌∷◌,
  Option, none, some, is_some, ok, arith, if◌then◌else◌, ltb, Map, lookup, insert, keys, set_insert,
  contains, contains-set_insert, contains-keys, lookup-insert, Bool-cases, inl, inr, beq_refl,
}
use zl_zpr_visaservice.IpAddr.{IpAddr, IpAddr-HasEq}
use zl_zpr_visaservice.VisaRepo.{
  NodeVisaState, NodeState, pending_install, VisaMetadata, VisaStore, after_gap, remaining_secs,
  live_entry, if_live,
}
use zl_zpr_visaservice.VisaRepo.Verdicts.{node_state, states_of}
use zl_zpr_visaservice.VisaRepo.Store.{
  seconds_until, fresh, path_states, path_nodes, initial_states, stored_entry, row_of, index_nodes,
  insert_entry, store_visa,
}

-- the state that a node starts from
abbrev pub initial_state : VisaMetadata → NodeVisaState → IpAddr → Option NodeState
initial_state md nstate n =
    if md.requesting_node == n
    then some (fresh nstate)
    else if contains (path_nodes md.path) n
    then some (fresh pending_install)
    else none

lookup-path_states :
    (req n : IpAddr) (path : List IpAddr) (m : Map IpAddr NodeState)
    → lookup n (path_states req path m) ≡ (
        if req == n
        then lookup n m
        else if contains path n
        then some (fresh pending_install)
        else lookup n m)
lookup-path_states req n [] m = ground arith
lookup-path_states req n (x ∷ path) m = elim (Bool-cases (x == req)) [
  | inl same ↦ rw same (
      rw (lookup-path_states req n path m)
        (rw ((IpAddr-HasEq.is_eq_iff x req).0 same) (ground arith)))
  | inr other ↦ rw other (
      rw
        (
          lookup-path_states req n path (insert x (fresh pending_install) m),
          lookup-insert x n (fresh pending_install) m,
        )
        (ground (
          arith,
          IpAddr-HasEq.is_eq_iff x n,
          IpAddr-HasEq.is_eq_iff req n,
          IpAddr-HasEq.is_eq_iff x req,
          other,
        )))
]

lookup-initial_states :
    (md : VisaMetadata) (nstate : NodeVisaState) (n : IpAddr)
    → lookup n (initial_states md nstate) ≡ initial_state md nstate n
unfolding initial_states lookup
lookup-initial_states md nstate n =
    rw
      (lookup-path_states md.requesting_node n (path_nodes md.path)
        ((md.requesting_node, fresh nstate) ∷ []))
      (ground arith)

-- whether the row of a node names a visa
abbrev pub has_row : ℕ → IpAddr → Map IpAddr (List ℕ) → Bool
has_row id n b = contains (row_of (lookup n b)) id

has_row-index_nodes :
    (id : ℕ) (n : IpAddr) (ns : List IpAddr) (b : Map IpAddr (List ℕ))
    → has_row id n (index_nodes id ns b) ≡ (contains ns n || has_row id n b)
has_row-index_nodes id n [] b = refl
has_row-index_nodes id n (x ∷ ns) b =
    rw
      (
        has_row-index_nodes id n ns (insert x (set_insert id (row_of (lookup x b))) b),
        lookup-insert x n (set_insert id (row_of (lookup x b))) b,
      )
      (elim (Bool-cases (x == n)) [
        | inl same ↦
            rw (same, contains-set_insert id id (row_of (lookup x b)), beq_refl id) (ground arith)
        | inr other ↦ rw other refl
      ])

-- what is stored, before it is found again
store_visa-stored :
    (gap : Option ℕ) (now id expires : ℕ) (s : VisaStore) (md : VisaMetadata)
    (nstate : NodeVisaState)
    → 0 < seconds_until now expires
    → store_visa true gap now s id expires md nstate
      ≡ (ok tt, insert_entry id (stored_entry now expires md nstate) (after_gap gap s))
unfolding store_visa
store_visa-stored gap now id expires s md nstate left =
    let some_left : (seconds_until now expires == 0) ≡ false = ground (arith, left) in
    rw (store_visa, some_left) refl

whole_seconds : (now k : ℕ) → remaining_secs now (now + k * 10 ^ 9) ≡ k
unfolding remaining_secs
whole_seconds now k = omega arith

-- A visa with a whole second left that is written is stored without an error and is live at once. Its
-- requesting node has the state that is asked for, the other nodes of its path wait for the install,
-- and no other node has a state for it. The index has the visa in the row of exactly the nodes with a
-- state, and of those whose row had it before.
pub store_visa_lem :
    (gap : Option ℕ) (now id expires : ℕ) (s : VisaStore) (md : VisaMetadata)
    (nstate : NodeVisaState) (n : IpAddr)
    → 0 < seconds_until now expires
    → ((store_visa true gap now s id expires md nstate).0 ≡ ok tt)
      × (live_entry now (store_visa true gap now s id expires md nstate).1 id
          ≡ some (stored_entry now expires md nstate))
      × (node_state (store_visa true gap now s id expires md nstate).1 id n
          ≡ initial_state md nstate n)
      × (has_row id n (store_visa true gap now s id expires md nstate).1.by_node
          ≡ (is_some (initial_state md nstate n) || has_row id n (after_gap gap s).by_node))
unfolding insert_entry live_entry
store_visa_lem gap now id expires s md nstate n left =
    let e = stored_entry now expires md nstate in
    let b = (after_gap gap s).by_node in
    let found : lookup id (insert id e (after_gap gap s).visas) ≡ some e =
      rw (lookup-insert id id e (after_gap gap s).visas, beq_refl id) refl in
    let in_time : ltb 0 (remaining_secs now (now + seconds_until now expires * 10 ^ 9)) ≡ true =
      rw (whole_seconds now (seconds_until now expires)) (ground (arith, left)) in
    rw (store_visa-stored gap now id expires s md nstate left) (
      refl,
      ap (if_live now) found ∙ rw in_time refl,
      ap (λ o. lookup n (states_of o)) found ∙ lookup-initial_states md nstate n,
      has_row-index_nodes id n (keys (initial_states md nstate)) b
          ∙ ap (λ x. x || has_row id n b)
              (contains-keys n (initial_states md nstate)
                ∙ ap is_some (lookup-initial_states md nstate n)),
    )
