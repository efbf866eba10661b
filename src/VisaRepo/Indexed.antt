-- ===== src/VisaRepo/Indexed.antt =====
-- The index by node is the inverse of the states on the nodes.
pub mod Writers
pub mod Teardown
use zl_zpr_visaservice.Base.{
  ℕ, ℕ-HasEq, ◌==◌, ◌≡◌, refl, sym, ap, ◌∙◌, Bool, true, false, not, ◌&&◌, ◌||◌, List, [], ◌∷◌,
  Option, none, some, is_some, arith, if◌then◌else◌, Map, lookup, insert, remove, keys, set_insert,
  contains-set_insert, contains-keys, contains-filter_ne, filter, is_empty, contains, lookup-insert,
  lookup-remove, Bool-cases, Option-cases, inl, inr, beq_refl, Result, ok, err,
}
use zl_zpr_visaservice.IpAddr.{IpAddr, IpAddr-HasEq}
use zl_zpr_visaservice.VisaRepo.{
  NodeVisaState, NodeState, VisaMetadata, VisaEntry, VisaStore, unindexed, unindex_node,
  unindex_nodes, removed_entry, remove_entry, remove_entries, expired_ids, purge_expired, after_gap,
}
use zl_zpr_visaservice.VisaRepo.Verdicts.{node_state, states_of}
use zl_zpr_visaservice.VisaRepo.Store.{
  row_of, index_nodes, insert_entry, stored_entry, seconds_until, store_visa,
}
use zl_zpr_visaservice.VisaRepo.Store.Stored.{has_row}

-- the row of a node names a visa exactly when the visa has a state on the node
abbrev pub IsIndexed : VisaStore → Type 0
IsIndexed s = (id : ℕ) (n : IpAddr) → has_row id n s.by_node ≡ is_some (node_state s id n)

contains-empty : (i : ℕ) (ids : List ℕ) → is_empty ids ≡ true → contains ids i ≡ false
contains-empty i [] h = refl
contains-empty i (x ∷ ids) h = absurd (cc h)

pub has_row-unindexed :
    (id i : ℕ) (node n : IpAddr) (o : Option (List ℕ)) (b : Map IpAddr (List ℕ))
    → lookup node b ≡ o
    → has_row i n (unindexed id node o b) ≡ (has_row i n b && not (id == i && node == n))
has_row-unindexed id i node n none b h = elim (Bool-cases (node == n)) [
  | inl same ↦
      let gone : has_row i n b ≡ false =
        ap (λ k. contains (row_of (lookup k b)) i) (sym ((IpAddr-HasEq.is_eq_iff node n).0 same))
        ∙ ap (λ o. contains (row_of o) i) h in
      rw gone refl
  | inr other ↦ rw other (ground arith)
]
has_row-unindexed id i node n (some ids) b h =
    let rest = filter (λ j. not (j == id)) ids in
    let without = contains-filter_ne id i ids in
    let row : (node == n) ≡ true → has_row i n b ≡ contains ids i = λ same.
      ap (λ k. contains (row_of (lookup k b)) i) (sym ((IpAddr-HasEq.is_eq_iff node n).0 same))
      ∙ ap (λ o. contains (row_of o) i) h in
    elim (Bool-cases (is_empty rest)) [
      | inl empty ↦ elim (Bool-cases (node == n)) [
        | inl same ↦
            rw (empty, lookup-remove node n b, same, row same)
              (ground (arith, without, contains-empty i rest empty))
        | inr other ↦ rw (empty, lookup-remove node n b, other) (ground arith)
      ]
      | inr full ↦ elim (Bool-cases (node == n)) [
        | inl same ↦
            rw (full, lookup-insert node n rest b, same, row same) (ground (arith, without))
        | inr other ↦ rw (full, lookup-insert node n rest b, other) (ground arith)
      ]
    ]

has_row-unindex_nodes :
    (id i : ℕ) (n : IpAddr) (ns : List IpAddr) (s : VisaStore)
    → has_row i n (unindex_nodes id ns s).by_node
      ≡ (has_row i n s.by_node && not (id == i && contains ns n))
has_row-unindex_nodes id i n [] s = ground arith
has_row-unindex_nodes id i n (x ∷ ns) s =
    rw (has_row-unindex_nodes id i n ns (unindex_node id x s))
      (rw (has_row-unindexed id i x n (lookup x s.by_node) s.by_node refl) (ground arith))

visas-unindex_nodes :
    (id : ℕ) (ns : List IpAddr) (s : VisaStore) → (unindex_nodes id ns s).visas ≡ s.visas
visas-unindex_nodes id [] s = refl
visas-unindex_nodes id (x ∷ ns) s = visas-unindex_nodes id ns (unindex_node id x s)

pub no_states : (n : IpAddr) → is_some (lookup n (states_of none)) ≡ false
unfolding lookup
no_states n = refl

emptied : (b : Bool) (n : IpAddr) → (b && not (true && b)) ≡ is_some (lookup n (states_of none))
unfolding lookup
emptied true n = refl
emptied false n = refl

removed_entry-IsIndexed :
    (id : ℕ) (s : VisaStore) (o : Option VisaEntry)
    → lookup id s.visas ≡ o
    → IsIndexed s
    → IsIndexed (removed_entry id o s)
removed_entry-IsIndexed id s none found h i n = h i n
removed_entry-IsIndexed id s (some e) found h i n =
    let s1 : VisaStore = record s { visas = remove id s.visas } in
    let row = has_row-unindex_nodes id i n (keys e.node_states) s1 in
    let visas : (unindex_nodes id (keys e.node_states) s1).visas ≡ remove id s.visas =
      visas-unindex_nodes id (keys e.node_states) s1 in
    let states : node_state (unindex_nodes id (keys e.node_states) s1) i n
        ≡ lookup n (states_of (if id == i then none else lookup i s.visas)) =
      ap (λ m. lookup n (states_of (lookup i m))) visas
      ∙ ap (λ o. lookup n (states_of o)) (lookup-remove id i s.visas) in
    row ∙ elim (Bool-cases (id == i)) [
      | inl same ↦
          let here : has_row i n s.by_node ≡ is_some (lookup n e.node_states) =
            h i n
            ∙ ap (λ j. is_some (node_state s j n)) (sym ((ℕ-HasEq.is_eq_iff id i).0 same))
            ∙ ap (λ o. is_some (lookup n (states_of o))) found in
          rw (states, same, here, contains-keys n e.node_states)
            (emptied (is_some (lookup n e.node_states)) n)
      | inr other ↦ rw (states, other) (rw (h i n) (ground arith))
    ]

remove_entry-IsIndexed : (id : ℕ) (s : VisaStore) → IsIndexed s → IsIndexed (remove_entry id s)
unfolding remove_entry
remove_entry-IsIndexed id s h = removed_entry-IsIndexed id s (lookup id s.visas) refl h

remove_entries-IsIndexed :
    (ids : List ℕ) (s : VisaStore) → IsIndexed s → IsIndexed (remove_entries ids s)
remove_entries-IsIndexed [] s h = h
remove_entries-IsIndexed (id ∷ ids) s h =
    remove_entries-IsIndexed ids (remove_entry id s) (remove_entry-IsIndexed id s h)

pub after_gap-IsIndexed :
    (gap : Option ℕ) (s : VisaStore) → IsIndexed s → IsIndexed (after_gap gap s)
unfolding purge_expired
after_gap-IsIndexed none s h = h
after_gap-IsIndexed (some t) s h = remove_entries-IsIndexed (expired_ids t s.visas) s h

-- a purge only takes visas away
pub lookup-removed_entry :
    (id i : ℕ) (s : VisaStore) (o : Option VisaEntry)
    → lookup id s.visas ≡ o
    → lookup i (removed_entry id o s).visas ≡ (if id == i then none else lookup i s.visas)
lookup-removed_entry id i s none h = elim (Bool-cases (id == i)) [
  | inl same ↦ rw same (rw (← (ℕ-HasEq.is_eq_iff id i).0 same) h)
  | inr other ↦ rw other refl
]
lookup-removed_entry id i s (some e) h =
    ap (lookup i)
      (visas-unindex_nodes id (keys e.node_states) (record s { visas = remove id s.visas }))
    ∙ lookup-remove id i s.visas

still_none :
    (ids : List ℕ) (i : ℕ) (s : VisaStore)
    → lookup i s.visas ≡ none
    → lookup i (remove_entries ids s).visas ≡ none
unfolding remove_entry
still_none [] i s h = h
still_none (id ∷ ids) i s h = still_none ids i (remove_entry id s) (
    lookup-removed_entry id i s (lookup id s.visas) refl
    ∙ elim (Bool-cases (id == i)) [ inl same ↦ rw same refl | inr other ↦ rw other h ])

gap_none :
    (gap : Option ℕ) (i : ℕ) (s : VisaStore)
    → lookup i s.visas ≡ none
    → lookup i (after_gap gap s).visas ≡ none
unfolding purge_expired
gap_none none i s h = h
gap_none (some t) i s h = still_none (expired_ids t s.visas) i s h

has_row-indexed :
    (id i : ℕ) (n : IpAddr) (ns : List IpAddr) (b : Map IpAddr (List ℕ))
    → has_row i n (index_nodes id ns b) ≡ ((id == i && contains ns n) || has_row i n b)
has_row-indexed id i n [] b = ground arith
has_row-indexed id i n (x ∷ ns) b =
    rw
      (
        has_row-indexed id i n ns (insert x (set_insert id (row_of (lookup x b))) b),
        lookup-insert x n (set_insert id (row_of (lookup x b))) b,
      )
      (elim (Bool-cases (x == n)) [
        | inl same ↦
            rw
              (
                same,
                contains-set_insert id i (row_of (lookup x b)),
                (IpAddr-HasEq.is_eq_iff x n).0 same,
              )
              (ground arith)
        | inr other ↦ rw other refl
      ])

insert_entry-IsIndexed :
    (id : ℕ) (e : VisaEntry) (s : VisaStore)
    → lookup id s.visas ≡ none
    → IsIndexed s
    → IsIndexed (insert_entry id e s)
unfolding insert_entry
insert_entry-IsIndexed id e s new h i n =
    has_row-indexed id i n (keys e.node_states) s.by_node ∙ elim (Bool-cases (id == i)) [
      | inl same ↦
          let unknown : has_row i n s.by_node ≡ false =
            h i n
            ∙ ap (λ j. is_some (node_state s j n)) (sym ((ℕ-HasEq.is_eq_iff id i).0 same))
            ∙ ap (λ o. is_some (lookup n (states_of o))) new
            ∙ no_states n in
          rw (lookup-insert id i e s.visas, same, unknown, contains-keys n e.node_states)
            (ground arith)
      | inr other ↦ rw (lookup-insert id i e s.visas, other) (rw (h i n) (ground arith))
    ]

-- Storing a visa with a new number keeps the index the inverse of the states on the nodes, on every
-- branch and whatever purge runs meanwhile.
pub store_visa-IsIndexed :
    (written : Bool) (gap : Option ℕ) (now id expires : ℕ) (s : VisaStore) (md : VisaMetadata)
    (nstate : NodeVisaState)
    → lookup id s.visas ≡ none
    → IsIndexed s
    → IsIndexed (store_visa written gap now s id expires md nstate).1
unfolding store_visa
store_visa-IsIndexed written gap now id expires s md nstate new h =
    elim (Bool-cases (seconds_until now expires == 0)) [
      | inl late ↦ rw (store_visa, late) h
      | inr timely ↦ elim (Bool-cases written) [
        | inl done ↦
            rw (store_visa, timely, done)
              (insert_entry-IsIndexed id (stored_entry now expires md nstate) (after_gap gap s)
                (gap_none gap id s new) (after_gap-IsIndexed gap s h))
        | inr failed ↦ rw (store_visa, timely, failed) (after_gap-IsIndexed gap s h)
      ]
    ]
