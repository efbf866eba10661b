-- ===== src/NetMgr/Laws/Handed.antt =====
-- Calls in sequence: no address is handed out while it is in use.
use zl_zpr_visaservice.Base.{
  ◌==◌, ◌≡◌, ◌≢◌, refl, ap, ◌∙◌, Bool, true, false, not, ◌||◌, List, [], ◌∷◌, Option, none, some,
  Result, ok, err, panic, all, contains, if◌then◌else◌, arith, Bool-cases, Option-cases, inl, inr,
}
use zl_zpr_visaservice.IpAddr.{IpAddr, IpAddr-HasEq, ip_beq_iff}
use zl_zpr_visaservice.Actor.{Role, unknown, adapter, node}
use zl_zpr_visaservice.NetMgr.{
  AddrAllocator, NetError, NetMgr, drawn_for_adapter, drawn_for_node, with_adapter, with_node,
  get_next_zpr_addr, take_zpr_addr, release_zpr_addr,
}
use zl_zpr_visaservice.NetMgr.Pool.{Changed, IsPool}
use zl_zpr_visaservice.NetMgr.Laws.{
  Op, get, take, release, keeps, IsGood, is_used, changed, step, handed, Spared, adapters-IsGood,
  nodes-IsGood, not_node, not_adapter, differs, get-Spared, stays_allocated, adapter-IsGood,
  node-IsGood,
}

module _ {S : Type 0} (alloc : AddrAllocator S) (Good : S → Type 0) (in_use : S → IpAddr → Bool)
    (pool : IsPool alloc Good in_use) where
  -- a call that changes the use of one address of the adapters' pool
  adapter_changed :
      (m : NetMgr alloc) (a b : IpAddr) (use_it : Bool) (o : Option IpAddr)
      → IsGood alloc Good in_use pool m
      → is_used alloc Good in_use pool m a ≡ true
      → (use_it || not (a == b)) ≡ true
      → (r : Result NetError S)
      → ((s : S)
          → r ≡ ok s
          → Good s × Changed alloc in_use m.adapter_addrs s b use_it × (o ≢ some a))
      → Spared alloc Good in_use pool m a
          (changed alloc Good in_use pool m o (with_adapter alloc m r))
  adapter_changed m a b use_it o g u k (err e) h = record {
    good = g;
    still_used = u;
    other = λ e'. cc e';
  }
  adapter_changed m a b use_it o g u k panic h = record {
    good = g;
    still_used = u;
    other = λ e'. cc e';
  }
  adapter_changed m a b use_it o g u k (ok s) h =
      let (gs, c, other) = h s refl in
      record {
        good = adapters-IsGood alloc Good in_use pool m s g gs c.same_net;
        still_used = ground (arith, u, k, c.after a, ip_beq_iff a b, ip_beq_iff b a);
        other = other;
      }

  node_changed :
      (m : NetMgr alloc) (a b : IpAddr) (use_it : Bool) (o : Option IpAddr)
      → IsGood alloc Good in_use pool m
      → is_used alloc Good in_use pool m a ≡ true
      → (use_it || not (a == b)) ≡ true
      → (r : Result NetError S)
      → ((s : S) → r ≡ ok s → Good s × Changed alloc in_use m.node_addrs s b use_it × (o ≢ some a))
      → Spared alloc Good in_use pool m a (changed alloc Good in_use pool m o (with_node alloc m r))
  node_changed m a b use_it o g u k (err e) h = record {
    good = g;
    still_used = u;
    other = λ e'. cc e';
  }
  node_changed m a b use_it o g u k panic h = record {
    good = g;
    still_used = u;
    other = λ e'. cc e';
  }
  node_changed m a b use_it o g u k (ok s) h =
      let (gs, c, other) = h s refl in
      record {
        good = nodes-IsGood alloc Good in_use pool m s g gs c.same_net;
        still_used = ground (arith, u, k, c.after a, ip_beq_iff a b, ip_beq_iff b a);
        other = other;
      }

  take-Spared :
      (m : NetMgr alloc) (a b : IpAddr)
      → IsGood alloc Good in_use pool m
      → is_used alloc Good in_use pool m a ≡ true
      → Spared alloc Good in_use pool m a
          (changed alloc Good in_use pool m (some b) (take_zpr_addr alloc m b))
  unfolding take_zpr_addr
  take-Spared m a b g u = elim (Bool-cases (alloc.holds m.adapter_addrs b)) [
    | inl adapters ↦ rw adapters (
        adapter_changed m a b true (some b) g u refl (alloc.take m.adapter_addrs b) (λ s h.
          let (gs, c) = pool.taken m.adapter_addrs s b g.adapters h in
          (
            gs,
            c,
            λ e.
                differs alloc Good in_use pool m a b u
                  (ground (arith, c.before, not_node alloc Good in_use pool m b g adapters)) e,
          )))
    | inr others ↦ elim (Bool-cases (alloc.holds m.node_addrs b)) [
      | inl nodes ↦
          rw (others, nodes)
            (node_changed m a b true (some b) g u refl (alloc.take m.node_addrs b) (λ s h.
              let (gs, c) = pool.taken m.node_addrs s b g.nodes h in
              (
                gs,
                c,
                λ e.
                    differs alloc Good in_use pool m a b u
                      (ground (arith, c.before, not_adapter alloc Good in_use pool m b g nodes)) e,
              )))
      | inr nowhere ↦ rw (others, nowhere) (record { good = g; still_used = u; other = λ h. cc h })
    ]
  ]

  release-Spared :
      (m : NetMgr alloc) (a b : IpAddr)
      → IsGood alloc Good in_use pool m
      → is_used alloc Good in_use pool m a ≡ true
      → not (a == b) ≡ true
      → Spared alloc Good in_use pool m a
          (changed alloc Good in_use pool m none (release_zpr_addr alloc m b))
  unfolding release_zpr_addr
  release-Spared m a b g u k = elim (Bool-cases (alloc.holds m.adapter_addrs b)) [
    | inl adapters ↦ rw adapters (
        adapter_changed m a b false none g u k (alloc.release m.adapter_addrs b) (λ s h.
          let (gs, c) = pool.released m.adapter_addrs s b g.adapters h in (gs, c, λ e. cc e)))
    | inr others ↦ elim (Bool-cases (alloc.holds m.node_addrs b)) [
      | inl nodes ↦
          rw (others, nodes)
            (node_changed m a b false none g u k (alloc.release m.node_addrs b)
              (λ s h. let (gs, c) = pool.released m.node_addrs s b g.nodes h in (gs, c, λ e. cc e)))
      | inr nowhere ↦ rw (others, nowhere) (record { good = g; still_used = u; other = λ h. cc h })
    ]
  ]

  other_beq : (a b : IpAddr) → some b ≢ some a → (b == a) ≡ false
  other_beq a b h = elim (Bool-cases (b == a)) [
    | inl same ↦ absurd (h (ap some ((ip_beq_iff b a).0 same)))
    | inr other ↦ other
  ]

  step-Spared :
      (m : NetMgr alloc) (op : Op) (a : IpAddr)
      → IsGood alloc Good in_use pool m
      → is_used alloc Good in_use pool m a ≡ true
      → keeps a op ≡ true
      → Spared alloc Good in_use pool m a (step alloc Good in_use pool m op)
  step-Spared m (get r) a g u k = get-Spared alloc Good in_use pool m r a g u
  step-Spared m (take b) a g u k = take-Spared m a b g u
  step-Spared m (release b) a g u k = release-Spared m a b g u k

  -- An address in use is not handed out again, by any calls of which none releases it, where no
  -- address belongs to both pools.
  pub handed_not_again :
      (m : NetMgr alloc) (ops : List Op) (a : IpAddr)
      → IsGood alloc Good in_use pool m
      → is_used alloc Good in_use pool m a ≡ true
      → all (keeps a) ops ≡ true
      → contains (handed alloc Good in_use pool m ops) a ≡ false
  handed_not_again m [] a g u k = refl
  handed_not_again m (op ∷ ops) a g u k =
      let s = step-Spared m op a g u (ground (arith, k)) in
      let rest =
        handed_not_again (step alloc Good in_use pool m op).1 ops a s.good s.still_used
          (ground (arith, k)) in
      elim (Option-cases (step alloc Good in_use pool m op).0) [
        | inl nothing ↦ rw nothing rest
        | inr (b, e) ↦ rw (e, other_beq a b (λ h. s.other (e ∙ h))) rest
      ]

  -- what a call that hands out an address has done
  pub record Fresh (m m' : NetMgr alloc) (a : IpAddr) : Type 0 where
    pub good : IsGood alloc Good in_use pool m'
    pub before : is_used alloc Good in_use pool m a ≡ false
    pub after : is_used alloc Good in_use pool m' a ≡ true
    pub others :
        (b : IpAddr)
        → is_used alloc Good in_use pool m b ≡ true
        → is_used alloc Good in_use pool m' b ≡ true

  adapter-Fresh :
      (m m' : NetMgr alloc) (a : IpAddr) (q : Option IpAddr × S)
      → IsGood alloc Good in_use pool m
      → alloc.allocate m.adapter_addrs ≡ q
      → drawn_for_adapter alloc m q ≡ (ok a, m')
      → Fresh m m' a
  adapter-Fresh m m' a (none, s) g e h = absurd (cc (ap (λ p. p.0) h))
  adapter-Fresh m m' a (some b, s) g e h =
      let new = pool.allocated m.adapter_addrs s b g.adapters e in
      let same : b ≡ a = ground (arith, ap (λ p. p.0) h) in
      rw (← same, ← ap (λ p. p.1) h)
        (record {
          good = adapter-IsGood alloc Good in_use pool m (some b, s) g e;
          before = ground (arith, new.free, not_node alloc Good in_use pool m b g new.inside);
          after = ground (arith, new.now_used);
          others = λ c u. ground (
            arith,
            u,
            stays_allocated alloc Good in_use pool m.adapter_addrs (some b, s) c g.adapters e,
          );
        })

  node-Fresh :
      (m m' : NetMgr alloc) (a : IpAddr) (q : Option IpAddr × S)
      → IsGood alloc Good in_use pool m
      → alloc.allocate m.node_addrs ≡ q
      → drawn_for_node alloc m q ≡ (ok a, m')
      → Fresh m m' a
  node-Fresh m m' a (none, s) g e h = absurd (cc (ap (λ p. p.0) h))
  node-Fresh m m' a (some b, s) g e h =
      let new = pool.allocated m.node_addrs s b g.nodes e in
      let same : b ≡ a = ground (arith, ap (λ p. p.0) h) in
      rw (← same, ← ap (λ p. p.1) h)
        (record {
          good = node-IsGood alloc Good in_use pool m (some b, s) g e;
          before = ground (arith, new.free, not_adapter alloc Good in_use pool m b g new.inside);
          after = ground (arith, new.now_used);
          others = λ c u. ground (
            arith,
            u,
            stays_allocated alloc Good in_use pool m.node_addrs (some b, s) c g.nodes e,
          );
        })

  -- An address that the manager hands out was not in use, is in use afterwards, and so are those
  -- that were, where no address belongs to both pools.
  pub get_next_zpr_addr-Fresh :
      (m m' : NetMgr alloc) (r : Role) (a : IpAddr)
      → IsGood alloc Good in_use pool m
      → get_next_zpr_addr alloc m r ≡ (ok a, m')
      → Fresh m m' a
  unfolding get_next_zpr_addr
  get_next_zpr_addr-Fresh m m' unknown a g h = absurd (cc (ap (λ p. p.0) h))
  get_next_zpr_addr-Fresh m m' adapter a g h =
      adapter-Fresh m m' a (alloc.allocate m.adapter_addrs) g refl h
  get_next_zpr_addr-Fresh m m' node a g h = node-Fresh m m' a (alloc.allocate m.node_addrs) g refl h

  -- what the release of an address has done
  pub record Freed (m m' : NetMgr alloc) (a : IpAddr) : Type 0 where
    pub good : IsGood alloc Good in_use pool m'
    pub after :
        (b : IpAddr)
        → is_used alloc Good in_use pool m' b
          ≡ (if a == b then false else is_used alloc Good in_use pool m b)

  adapter-Freed :
      (m : NetMgr alloc) (a : IpAddr)
      → IsGood alloc Good in_use pool m
      → in_use m.adapter_addrs a ≡ true
      → (m' : NetMgr alloc) × (with_adapter alloc m (alloc.release m.adapter_addrs a) ≡ ok m')
        × Freed m m' a
  adapter-Freed m a g u =
      let (s, e) = pool.release_ok m.adapter_addrs a g.adapters u in
      let (gs, c) = pool.released m.adapter_addrs s a g.adapters e in
      (
        record m { adapter_addrs = s },
        rw e refl,
        record {
          good = adapters-IsGood alloc Good in_use pool m s g gs c.same_net;
          after = λ b.
              ground
                (arith, c.after b, ip_beq_iff a b, not_node alloc Good in_use pool m a g c.inside);
        },
      )

  node-Freed :
      (m : NetMgr alloc) (a : IpAddr)
      → IsGood alloc Good in_use pool m
      → in_use m.node_addrs a ≡ true
      → (m' : NetMgr alloc) × (with_node alloc m (alloc.release m.node_addrs a) ≡ ok m')
        × Freed m m' a
  node-Freed m a g u =
      let (s, e) = pool.release_ok m.node_addrs a g.nodes u in
      let (gs, c) = pool.released m.node_addrs s a g.nodes e in
      (
        record m { node_addrs = s },
        rw e refl,
        record {
          good = nodes-IsGood alloc Good in_use pool m s g gs c.same_net;
          after = λ b.
              ground (
                arith,
                c.after b,
                ip_beq_iff a b,
                not_adapter alloc Good in_use pool m a g c.inside,
              );
        },
      )

  -- An address in use is released without an error; it is free afterwards, and every other address is
  -- in use or free as it was, where no address belongs to both pools.
  pub release_zpr_addr_ok :
      (m : NetMgr alloc) (a : IpAddr)
      → IsGood alloc Good in_use pool m
      → is_used alloc Good in_use pool m a ≡ true
      → (m' : NetMgr alloc) × (release_zpr_addr alloc m a ≡ ok m') × Freed m m' a
  unfolding release_zpr_addr
  release_zpr_addr_ok m a g u = elim (Bool-cases (in_use m.adapter_addrs a)) [
    | inl adapters ↦
        rw (pool.in_use_inside m.adapter_addrs a adapters) (adapter-Freed m a g adapters)
    | inr others ↦
        let nodes : in_use m.node_addrs a ≡ true = ground (arith, u, others) in
        let inside = pool.in_use_inside m.node_addrs a nodes in
        let outside : alloc.holds m.adapter_addrs a ≡ false =
          elim (Bool-cases (alloc.holds m.adapter_addrs a)) [
            | inl both ↦ absurd (cc (g.apart a both, inside))
            | inr f ↦ f
          ] in
        rw (outside, inside) (node-Freed m a g nodes)
  ]
