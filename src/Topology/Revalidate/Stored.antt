-- ===== src/Topology/Revalidate/Stored.antt =====
-- The edges that a pass leaves in the database.
use zl_zpr_visaservice.Base.{
  ℕ, suc, String, ◌==◌, ◌≡◌, refl, sym, ap, ◌∙◌, Bool, true, false, List, [], ◌∷◌, map, set_insert,
  contains, contains-to_set, contains-set_insert, contains-filter_ne, arith, Bool-cases, inl, inr,
  eq_of_beq, beq_refl, if◌then◌else◌, Among, Among-head, Among-tail, Among-cons, Result, ok,
}
use mathlib.Core.Path.{subst}
use zl_zpr_visaservice.IpAddr.{IpAddr, IpAddr-HasEq}
use zl_zpr_visaservice.Policy.Links.{LinkDescription}
use zl_zpr_visaservice.Graph.{Pair-HasEq}
use zl_zpr_visaservice.Router.{RouterInner}
use zl_zpr_visaservice.Topology.{
  ServiceError, Write, written, refused, unconfirmed, Edges, install, canonical, add_edge,
  remove_edge, le_text, decide_edge,
}
use zl_zpr_visaservice.Topology.Revalidate.{
  Surviving, Removal, Plan, canonical_pair, persisted_set, save_missing, erase_stale,
}
use zl_zpr_visaservice.Topology.Revalidate.Pairs.{canonical_pair_comm, IsOrdered}
use zl_zpr_visaservice.Topology.Revalidate.Plan.{surviving_at, IsPlan}

-- a pair has an edge in the database
abbrev pub HasEdge : Edges → IpAddr × IpAddr → Type 0
HasEdge edges p = contains (persisted_set edges) p ≡ true

-- each pair that policy describes a link for has an edge
abbrev pub Persisted :
    (IpAddr → IpAddr → Result ServiceError LinkDescription) → List IpAddr → Edges → Edges → Type 0
Persisted describe known pairs edges =
    (p : IpAddr × IpAddr) (desc : LinkDescription)
    → contains pairs p ≡ true
    → decide_edge describe known p.0 p.1 ≡ ok (install desc)
    → HasEdge edges p

HasEdge-from :
    (edges : Edges) (p : IpAddr × IpAddr)
    → HasEdge edges p
    → (x : IpAddr × IpAddr) × (contains edges x ≡ true) × (canonical_pair x.0 x.1 ≡ p)
HasEdge-from edges p h =
    among edges (sym (contains-to_set p (map (λ e. canonical_pair e.0 e.1) edges)) ∙ h)
  where
    among :
        (xs : Edges)
        → contains (map (λ e. canonical_pair e.0 e.1) xs) p ≡ true
        → (x : IpAddr × IpAddr) × (contains xs x ≡ true) × (canonical_pair x.0 x.1 ≡ p)
    among [] k = absurd (cc k)
    among (x ∷ xs) k = elim (Bool-cases (canonical_pair x.0 x.1 == p)) [
      | inl here ↦ (x, rw (beq_refl x) refl, eq_of_beq (canonical_pair x.0 x.1) p here)
      | inr other ↦
          let (y, within, is_p) = among xs (rw other at k) in (y, rw within (ground arith), is_p)
    ]

HasEdge-to :
    (edges : Edges) (x : IpAddr × IpAddr)
    → contains edges x ≡ true
    → HasEdge edges (canonical_pair x.0 x.1)
HasEdge-to edges x h =
    contains-to_set (canonical_pair x.0 x.1) (map (λ e. canonical_pair e.0 e.1) edges)
    ∙ among edges h
  where
    among :
        (xs : Edges)
        → contains xs x ≡ true
        → contains (map (λ e. canonical_pair e.0 e.1) xs) (canonical_pair x.0 x.1) ≡ true
    among [] k = absurd (cc k)
    among (y ∷ ys) k = elim (Bool-cases (y == x)) [
      | inl here ↦ rw (eq_of_beq y x here, beq_refl (canonical_pair x.0 x.1)) refl
      | inr other ↦ rw (among ys (rw other at k)) (ground arith)
    ]

module _ (encode : IpAddr → String) where
  canonical_pair-canonical :
      (a b : IpAddr)
      → canonical_pair (canonical encode a b).0 (canonical encode a b).1 ≡ canonical_pair a b
  canonical_pair-canonical a b = elim (Bool-cases (le_text (encode a) (encode b))) [
    | inl below ↦ rw below refl
    | inr above ↦ rw above (canonical_pair_comm b a)
  ]

  module _ (save erase : IpAddr → IpAddr → Write) where
    -- what was there stays, and what was missing is written
    abbrev Saved : List Surviving → Edges → Edges → Type 0
    Saved es edges edges' =
        ((x : IpAddr × IpAddr) → contains edges x ≡ true → contains edges' x ≡ true)
        × ((e : Surviving)
            → Among e es
            → e.persisted ≡ false
            → contains edges' (canonical encode e.a e.b) ≡ true)

    save_missing-Saved :
        (es : List Surviving) (edges : Edges)
        → (save_missing encode save erase es edges).0 ≡ true
        → Saved es edges (save_missing encode save erase es edges).1
    unfolding add_edge
    save_missing-Saved [] edges done = ((λ x h. h), λ e (i, h) missing. absurd (cc h))
    save_missing-Saved (e ∷ es) edges done = elim (Bool-cases e.persisted) [
      | inl old ↦
          let (kept, added) = save_missing-Saved es edges (rw old at done) in
          (
            (λ x h. rw old (kept x h)),
            λ f m missing. elim (Among-cons f e es m) [
              | inl here ↦
                  absurd (cc (sym missing ∙ ap (λ (y : Surviving). y.persisted) (sym here) ∙ old))
              | inr later ↦ rw old (added f later missing)
            ],
          )
      | inr new ↦
          let (kept, added) = by_write (save_missing-Saved es) (save e.a e.b) (rw new at done) in
          ((λ x h. rw new (kept x h)), λ f m missing. rw new (added f m missing))
    ]
      where
        tried : Write → Bool × Edges × ℕ
        tried w =
            let (done', edges') = add_edge encode w e.a e.b edges in
            let rest' = save_missing encode save erase es edges' in
            if done' then (rest'.0, rest'.1, suc rest'.2) else (false, edges', 0)

        by_write :
            ((edges' : Edges)
              → (save_missing encode save erase es edges').0 ≡ true
              → Saved es edges' (save_missing encode save erase es edges').1)
            → (w : Write) → (tried w).0 ≡ true
            → Saved (e ∷ es) edges (tried w).1
        by_write rest written is_done =
            let c = canonical encode e.a e.b in
            let (kept, added) = rest (set_insert c edges) is_done in
            (
              λ x h. kept x (contains-set_insert c x edges ∙ rw h (ground arith)),
              λ f m missing. elim (Among-cons f e es m) [
                | inl here ↦
                    subst
                      (λ (y : Surviving).
                        contains (tried written).1 (canonical encode y.a y.b) ≡ true)
                      here (kept c (contains-set_insert c c edges ∙ rw (beq_refl c) refl))
                | inr later ↦ added f later missing
              ],
            )
        by_write rest refused is_done = absurd (cc is_done)
        by_write rest unconfirmed is_done = absurd (cc is_done)

    kept-erase_stale :
        (rs : List Removal) (edges : Edges) (x : IpAddr × IpAddr)
        → contains edges x ≡ true
        → ((r : Removal) → Among r rs → (canonical encode r.a r.b == x) ≡ false)
        → contains (erase_stale encode save erase rs edges) x ≡ true
    unfolding remove_edge
    kept-erase_stale [] edges x h apart = h
    kept-erase_stale (r ∷ rs) edges x h apart =
        kept-erase_stale rs _ x
          (elim (Bool-cases r.persisted) [
            | inr absent ↦ rw absent h
            | inl there ↦ rw there (by_write (erase r.a r.b))
          ])
          (λ s m. apart s (Among-tail s r rs m))
      where
        by_write : (w : Write) → contains (remove_edge encode w r.a r.b edges).1 x ≡ true
        by_write written =
            contains-filter_ne (canonical encode r.a r.b) x edges
            ∙ rw (apart r (Among-head r rs), h) refl
        by_write refused = h
        by_write unconfirmed =
            contains-filter_ne (canonical encode r.a r.b) x edges
            ∙ rw (apart r (Among-head r rs), h) refl

    -- each pair that keeps its link keeps its edge, or gets it
    pub described-HasEdge :
        (describe : IpAddr → IpAddr → Result ServiceError LinkDescription) (r : RouterInner)
        (known : List IpAddr) (edges es : Edges) (plan : Plan)
        → IsPlan describe r known (persisted_set edges) es plan
        → ((p : IpAddr × IpAddr) → contains es p ≡ true → IsOrdered p)
        → (save_missing encode save erase plan.0 edges).0 ≡ true
        → Persisted describe known es
            (erase_stale encode save erase plan.1 (save_missing encode save erase plan.0 edges).1)
    described-HasEdge describe r known edges es plan items ordered done p desc within decides =
        let (kept, added) = save_missing-Saved plan.0 edges done in
        let saved = (save_missing encode save erase plan.0 edges).1 in
        let (x, there, is_p) = by_persisted kept added in
        rw (← is_p) (
          HasEdge-to (erase_stale encode save erase plan.1 saved) x (
            kept-erase_stale plan.1 saved x there (λ s m.
              elim (Bool-cases (canonical encode s.a s.b == x)) [
                | inr other ↦ other
                | inl same ↦
                    let (q, within', gone, is_s) = items.removed s m in
                    let is_q : p ≡ q =
                      sym is_p
                      ∙ ap (λ y. canonical_pair y.0 y.1)
                          (sym (eq_of_beq (canonical encode s.a s.b) x same))
                      ∙ canonical_pair-canonical s.a s.b
                      ∙ ap (λ (y : Removal). canonical_pair y.a y.b) (sym is_s)
                      ∙ ordered q within' in
                    absurd
                      (cc (sym decides ∙ ap (λ y. decide_edge describe known y.0 y.1) is_q ∙ gone))
              ])))
      where
        by_persisted :
            ((x : IpAddr × IpAddr)
              → contains edges x ≡ true
              → contains (save_missing encode save erase plan.0 edges).1 x ≡ true)
            → ((e : Surviving)
                → Among e plan.0
                → e.persisted ≡ false
                → contains
                    (save_missing encode save erase plan.0 edges).1
                    (canonical encode e.a e.b)
                  ≡ true)
            → (x : IpAddr × IpAddr) × (contains (save_missing encode save erase plan.0 edges).1 x
                ≡ true)
              × (canonical_pair x.0 x.1 ≡ p)
        by_persisted kept added = elim (Bool-cases (contains (persisted_set edges) p)) [
          | inl old ↦ let (x, there, is_p) = HasEdge-from edges p old in (x, kept x there, is_p)
          | inr new ↦ (
            canonical encode p.0 p.1,
            added (surviving_at describe r known (persisted_set edges) p desc)
                (items.installed p desc within decides) new,
            canonical_pair-canonical p.0 p.1 ∙ ordered p within,
          )
        ]
