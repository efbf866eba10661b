-- ===== src/NetMgr/Laws.antt =====
-- The manager over any two pools: no address is handed out while it is in use.
pub mod Handed
use zl_zpr_visaservice.Base.{
  ◌==◌, ◌≡◌, ◌≢◌, refl, sym, ap, ◌∙◌, Bool, true, false, not, ◌&&◌, ◌||◌, List, [], ◌∷◌, Option,
  none, some, Result, ok, err, panic, all, contains, if◌then◌else◌, arith, Bool-cases, Option-cases,
  inl, inr, some_inj,
}
use zl_zpr_visaservice.IpAddr.{IpAddr, IpAddr-HasEq, ip_beq_iff}
use zl_zpr_visaservice.Actor.{Role, unknown, adapter, node}
use zl_zpr_visaservice.NetMgr.{
  AddrAllocator, NetError, NetMgr, drawn_for_adapter, drawn_for_node, with_adapter, with_node,
  get_next_zpr_addr, take_zpr_addr, release_zpr_addr,
}
use zl_zpr_visaservice.NetMgr.Pool.{Allocated, Changed, IsPool}

-- a call of the manager
pub data Op : Type 0 where
  get : Role → Op
  take : IpAddr → Op
  release : IpAddr → Op

abbrev pub keeps : IpAddr → Op → Bool
keeps a (get r) = true
keeps a (take b) = true
keeps a (release b) = not (a == b)

module _ {S : Type 0} (alloc : AddrAllocator S) (Good : S → Type 0) (in_use : S → IpAddr → Bool)
    (pool : IsPool alloc Good in_use) where
  -- both pools are good, and no address belongs to both
  pub record IsGood (m : NetMgr alloc) : Type 0 where
    pub adapters : Good m.adapter_addrs
    pub nodes : Good m.node_addrs
    pub apart :
        (a : IpAddr) → alloc.holds m.adapter_addrs a ≡ true → alloc.holds m.node_addrs a ≡ false

  abbrev pub is_used : NetMgr alloc → IpAddr → Bool
  is_used m a = in_use m.adapter_addrs a || in_use m.node_addrs a

  -- the address that a call hands out, if it does, and the manager after it
  abbrev pub got : Result NetError IpAddr × NetMgr alloc → Option IpAddr × NetMgr alloc
  got (ok a, m) = (some a, m)
  got (err e, m) = (none, m)
  got (panic, m) = (none, m)

  abbrev pub changed :
      NetMgr alloc → Option IpAddr → Result NetError (NetMgr alloc) → Option IpAddr × NetMgr alloc
  changed m a (ok m') = (a, m')
  changed m a (err e) = (none, m)
  changed m a panic = (none, m)

  abbrev pub step : NetMgr alloc → Op → Option IpAddr × NetMgr alloc
  step m (get r) = got (get_next_zpr_addr alloc m r)
  step m (take a) = changed m (some a) (take_zpr_addr alloc m a)
  step m (release a) = changed m none (release_zpr_addr alloc m a)

  abbrev pub noted : Option IpAddr → List IpAddr → List IpAddr
  noted none addrs = addrs
  noted (some a) addrs = a ∷ addrs

  -- the addresses that a list of calls hands out
  abbrev pub handed : NetMgr alloc → List Op → List IpAddr
  handed m [] = []
  handed m (op ∷ ops) = noted (step m op).0 (handed (step m op).1 ops)

  -- What one call does to an address in use that it does not release.
  pub record Spared (m : NetMgr alloc) (a : IpAddr) (r : Option IpAddr × NetMgr alloc)
      : Type 0 where
    pub good : IsGood r.1
    pub still_used : is_used r.1 a ≡ true
    pub other : r.0 ≢ some a

  pub adapters-IsGood :
      (m : NetMgr alloc) (s : S)
      → IsGood m
      → Good s
      → ((b : IpAddr) → alloc.holds s b ≡ alloc.holds m.adapter_addrs b)
      → IsGood (record m { adapter_addrs = s })
  adapters-IsGood m s g gs same = record {
    adapters = gs;
    nodes = g.nodes;
    apart = λ a h. g.apart a (sym (same a) ∙ h);
  }

  pub nodes-IsGood :
      (m : NetMgr alloc) (s : S)
      → IsGood m
      → Good s
      → ((b : IpAddr) → alloc.holds s b ≡ alloc.holds m.node_addrs b)
      → IsGood (record m { node_addrs = s })
  nodes-IsGood m s g gs same = record {
    adapters = g.adapters;
    nodes = gs;
    apart = λ a h. same a ∙ g.apart a h;
  }

  -- an address inside one pool is not in use in the other
  pub not_node :
      (m : NetMgr alloc) (a : IpAddr)
      → IsGood m
      → alloc.holds m.adapter_addrs a ≡ true
      → in_use m.node_addrs a ≡ false
  not_node m a g h = elim (Bool-cases (in_use m.node_addrs a)) [
    | inl u ↦ absurd (cc (g.apart a h, pool.in_use_inside m.node_addrs a u))
    | inr f ↦ f
  ]

  pub not_adapter :
      (m : NetMgr alloc) (a : IpAddr)
      → IsGood m
      → alloc.holds m.node_addrs a ≡ true
      → in_use m.adapter_addrs a ≡ false
  not_adapter m a g h = elim (Bool-cases (in_use m.adapter_addrs a)) [
    | inl u ↦ absurd (cc (g.apart a (pool.in_use_inside m.adapter_addrs a u), h))
    | inr f ↦ f
  ]

  pub adapter-IsGood :
      (m : NetMgr alloc) (q : Option IpAddr × S)
      → IsGood m
      → alloc.allocate m.adapter_addrs ≡ q
      → IsGood (record m { adapter_addrs = q.1 })
  adapter-IsGood m q g e = rw (← e) (
      adapters-IsGood m (alloc.allocate m.adapter_addrs).1 g
        (pool.allocate_keeps m.adapter_addrs g.adapters)
        (λ b. pool.allocate_same_net m.adapter_addrs b g.adapters))

  pub node-IsGood :
      (m : NetMgr alloc) (q : Option IpAddr × S)
      → IsGood m
      → alloc.allocate m.node_addrs ≡ q
      → IsGood (record m { node_addrs = q.1 })
  node-IsGood m q g e = rw (← e) (
      nodes-IsGood m (alloc.allocate m.node_addrs).1 g (pool.allocate_keeps m.node_addrs g.nodes)
        (λ b. pool.allocate_same_net m.node_addrs b g.nodes))

  pub stays_allocated :
      (s : S) (q : Option IpAddr × S) (a : IpAddr)
      → Good s
      → alloc.allocate s ≡ q
      → in_use s a ≡ true
      → in_use q.1 a ≡ true
  stays_allocated s q a g e u = rw (← e) (pool.allocate_frees_none s a g u)

  pub differs :
      (m : NetMgr alloc) (a b : IpAddr) → is_used m a ≡ true → is_used m b ≡ false → some b ≢ some a
  differs m a b u f h = cc (u, f, some_inj h)

  adapter-Spared :
      (m : NetMgr alloc) (a : IpAddr) (q : Option IpAddr × S)
      → IsGood m
      → is_used m a ≡ true
      → alloc.allocate m.adapter_addrs ≡ q
      → Spared m a (got (drawn_for_adapter alloc m q))
  adapter-Spared m a (none, s) g u e = record {
    good = adapter-IsGood m (none, s) g e;
    still_used = ground (arith, u, stays_allocated m.adapter_addrs (none, s) a g.adapters e);
    other = λ h. cc h;
  }
  adapter-Spared m a (some b, s) g u e =
      let new = pool.allocated m.adapter_addrs s b g.adapters e in
      record {
        good = adapter-IsGood m (some b, s) g e;
        still_used = ground (arith, u, stays_allocated m.adapter_addrs (some b, s) a g.adapters e);
        other = λ h. differs m a b u (ground (arith, new.free, not_node m b g new.inside)) h;
      }

  node-Spared :
      (m : NetMgr alloc) (a : IpAddr) (q : Option IpAddr × S)
      → IsGood m
      → is_used m a ≡ true
      → alloc.allocate m.node_addrs ≡ q
      → Spared m a (got (drawn_for_node alloc m q))
  node-Spared m a (none, s) g u e = record {
    good = node-IsGood m (none, s) g e;
    still_used = ground (arith, u, stays_allocated m.node_addrs (none, s) a g.nodes e);
    other = λ h. cc h;
  }
  node-Spared m a (some b, s) g u e =
      let new = pool.allocated m.node_addrs s b g.nodes e in
      record {
        good = node-IsGood m (some b, s) g e;
        still_used = ground (arith, u, stays_allocated m.node_addrs (some b, s) a g.nodes e);
        other = λ h. differs m a b u (ground (arith, new.free, not_adapter m b g new.inside)) h;
      }

  pub get-Spared :
      (m : NetMgr alloc) (r : Role) (a : IpAddr)
      → IsGood m
      → is_used m a ≡ true
      → Spared m a (got (get_next_zpr_addr alloc m r))
  unfolding get_next_zpr_addr
  get-Spared m unknown a g u = record { good = g; still_used = u; other = λ h. cc h }
  get-Spared m adapter a g u = adapter-Spared m a (alloc.allocate m.adapter_addrs) g u refl
  get-Spared m node a g u = node-Spared m a (alloc.allocate m.node_addrs) g u refl
