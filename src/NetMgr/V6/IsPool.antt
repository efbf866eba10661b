-- ===== src/NetMgr/V6/IsPool.antt =====
-- The IPv6 allocator is a pool.
use zl_zpr_visaservice.Base.{
  ℕ, zero, suc, ◌+◌, ◌≤◌, ◌<◌, ◌%◌, ◌^◌, ℕ-HasEq, ◌==◌, ◌≡◌, ◌↔◌, refl, sym, ap, ◌∙◌, Bool, true,
  false, not, ◌&&◌, Option, some, ok, if◌then◌else◌, contains, arith, Bool-cases, inl, inr,
  nat_beq_iff, some_inj,
}
use zl_zpr_visaservice.IpAddr.{IpAddr, IpAddr-HasEq, v4, v6}
use zl_zpr_visaservice.NetMgr.{Net, Addrs, mark, unmark}
use zl_zpr_visaservice.NetMgr.V6.{
  holds_v6, index_v6, release_v6, take_v6, next_v6, draws_v6, allocate_v6, pool_v6,
}
use zl_zpr_visaservice.NetMgr.Pool.{Allocated, Changed, IsPool, contains-mark, contains-unmark}

-- What the ipnet crate documents of a /64: it holds the addresses from its network address on, and
-- its hosts are all of them, in order.
pub record IsNet64 (n : Net) : Type 0 where
  pub holds_iff : (a : ℕ) → (n.holds a ≡ true) ↔ ((n.network ≤ a) × (a < n.network + 2 ^ 64))
  pub hosts : (i : ℕ) → i < 2 ^ 64 → n.hosts_nth i ≡ some (n.network + i)

abbrev pub Good6 : Addrs → Type 0
Good6 a = IsNet64 a.net

abbrev pub in_use_v6 : Addrs → IpAddr → Bool
in_use_v6 a (v6 addr) = a.net.holds addr && contains a.used (index_v6 a addr)
in_use_v6 a (v4 addr) = false

-- two addresses of the net with one index are the same
index_v6-same :
    (a : Addrs) (x y : ℕ)
    → Good6 a
    → a.net.holds x ≡ true
    → a.net.holds y ≡ true
    → (index_v6 a x == index_v6 a y) ≡ (x == y)
index_v6-same a x y g hx hy =
    let (lx, ux) = (g.holds_iff x).0 hx in let (ly, uy) = (g.holds_iff y).0 hy in ground arith

index_v6-host :
    (a : Addrs) (i : ℕ)
    → Good6 a
    → i < 2 ^ 64
    → (a.net.holds (a.net.network + i) ≡ true) × (index_v6 a (a.net.network + i) ≡ i)
index_v6-host a i g h =
    ((g.holds_iff (a.net.network + i)).1 (omega (arith, h), omega (arith, h)), omega (arith, h))

apart : (a : Addrs) (x y : ℕ) → a.net.holds x ≡ true → a.net.holds y ≡ false → (x == y) ≡ false
apart a x y hx hy = elim (Bool-cases (x == y)) [
  | inl same ↦ absurd (cc (sym hx ∙ ap (λ z. a.net.holds z) ((nat_beq_iff x y).0 same), hy))
  | inr other ↦ other
]

in_use-mark :
    (a : Addrs) (x : ℕ) (b : IpAddr)
    → Good6 a
    → a.net.holds x ≡ true
    → in_use_v6 (mark (index_v6 a x) a).1 b ≡ (if v6 x == b then true else in_use_v6 a b)
in_use-mark a x (v4 y) g hx = refl
in_use-mark a x (v6 y) g hx = elim (Bool-cases (a.net.holds y)) [
  | inl inside ↦
      ground (arith, contains-mark (index_v6 a x) (index_v6 a y) a, index_v6-same a x y g hx inside)
  | inr outside ↦ rw (outside, apart a x y hx outside) refl
]

in_use-unmark :
    (a : Addrs) (x : ℕ) (b : IpAddr)
    → Good6 a
    → a.net.holds x ≡ true
    → in_use_v6 (unmark (index_v6 a x) a).1 b ≡ (if v6 x == b then false else in_use_v6 a b)
in_use-unmark a x (v4 y) g hx = refl
in_use-unmark a x (v6 y) g hx = elim (Bool-cases (a.net.holds y)) [
  | inl inside ↦
      ground (
        arith,
        contains-unmark (index_v6 a x) (index_v6 a y) a.used,
        index_v6-same a x y g hx inside,
      )
  | inr outside ↦ rw (outside, apart a x y hx outside) refl
]

holds-same : (s t : Addrs) (b : IpAddr) → t.net ≡ s.net → holds_v6 t b ≡ holds_v6 s b
unfolding holds_v6
holds-same s t (v6 x) h = rw h refl
holds-same s t (v4 x) h = refl

taken_v6 :
    (draw : ℕ → ℕ) (s s' : Addrs) (a : IpAddr)
    → Good6 s
    → take_v6 s a ≡ ok s'
    → Good6 s' × Changed (pool_v6 draw) in_use_v6 s s' a true
unfolding take_v6 holds_v6
taken_v6 draw s s' (v4 x) g h = absurd (cc h)
taken_v6 draw s s' (v6 x) g h = elim (Bool-cases (s.net.holds x)) [
  | inl inside ↦ elim (Bool-cases (contains s.used (index_v6 s x))) [
    | inl used ↦ absurd (cc (rw (inside, used) at h))
    | inr free ↦
        let made : (mark (index_v6 s x) s).1 ≡ s' = ground (arith, inside, free, h) in
        rw (← made) (
          g,
          record {
            inside = inside;
            before = rw (inside, free) refl;
            after = λ b. in_use-mark s x b g inside;
            same_net = λ b. holds-same s (mark (index_v6 s x) s).1 b refl;
          },
        )
  ]
  | inr outside ↦ absurd (cc (rw outside at h))
]

released_v6 :
    (draw : ℕ → ℕ) (s s' : Addrs) (a : IpAddr)
    → Good6 s
    → release_v6 s a ≡ ok s'
    → Good6 s' × Changed (pool_v6 draw) in_use_v6 s s' a false
unfolding release_v6 holds_v6
released_v6 draw s s' (v4 x) g h = absurd (cc h)
released_v6 draw s s' (v6 x) g h = elim (Bool-cases (s.net.holds x)) [
  | inl inside ↦ elim (Bool-cases (contains s.used (index_v6 s x))) [
    | inl used ↦
        let made : (unmark (index_v6 s x) s).1 ≡ s' = ground (arith, inside, used, h) in
        rw (← made) (
          g,
          record {
            inside = inside;
            before = rw (inside, used) refl;
            after = λ b. in_use-unmark s x b g inside;
            same_net = λ b. holds-same s (unmark (index_v6 s x) s).1 b refl;
          },
        )
    | inr free ↦ absurd (cc (rw (inside, free) at h))
  ]
  | inr outside ↦ absurd (cc (rw outside at h))
]

release_ok_v6 :
    (s : Addrs) (a : IpAddr) → in_use_v6 s a ≡ true → (s' : Addrs) × (release_v6 s a ≡ ok s')
unfolding release_v6
release_ok_v6 s (v4 x) u = absurd (cc u)
release_ok_v6 s (v6 x) u = ((unmark (index_v6 s x) s).1, ground (arith, u))

in_use_inside_v6 : (s : Addrs) (a : IpAddr) → in_use_v6 s a ≡ true → holds_v6 s a ≡ true
unfolding holds_v6
in_use_inside_v6 s (v4 x) u = u
in_use_inside_v6 s (v6 x) u = ground (arith, u)

-- one draw: the host index, and the pool with it marked
abbrev drawn : (ℕ → ℕ) → Addrs → ℕ
drawn draw a = draw a.rng % 2 ^ 64

abbrev marked : (ℕ → ℕ) → Addrs → Addrs
marked draw a = (mark (drawn draw a) (record a { rng = suc a.rng })).1

mark_stays :
    (draw : ℕ → ℕ) (a : Addrs) (b : IpAddr)
    → in_use_v6 a b ≡ true
    → in_use_v6 (marked draw a) b ≡ true
mark_stays draw a (v4 y) u = u
mark_stays draw a (v6 y) u = ground (arith, u, contains-mark (drawn draw a) (index_v6 a y) a)

next_used :
    (b : Bool) (host : Option ℕ) (a : Addrs) (rest : Option IpAddr × Addrs)
    → b ≡ true
    → next_v6 (not b) host a rest ≡ rest
next_used b host a rest h = rw h refl

next_free :
    (b : Bool) (host : Option ℕ) (ip : ℕ) (a : Addrs) (rest : Option IpAddr × Addrs)
    → b ≡ false
    → host ≡ some ip
    → next_v6 (not b) host a rest ≡ (some (v6 ip), a)
next_free b host ip a rest h e = rw (h, e) refl

draws_used :
    (draw : ℕ → ℕ) (n : ℕ) (a : Addrs)
    → contains a.used (drawn draw a) ≡ true
    → draws_v6 draw (suc n) a ≡ draws_v6 draw n (marked draw a)
unfolding draws_v6
draws_used draw n a used =
    next_used (contains a.used (drawn draw a)) (a.net.hosts_nth (drawn draw a)) (marked draw a)
      (draws_v6 draw n (marked draw a)) used

draws_free :
    (draw : ℕ → ℕ) (n : ℕ) (a : Addrs)
    → Good6 a
    → contains a.used (drawn draw a) ≡ false
    → draws_v6 draw (suc n) a ≡ (some (v6 (a.net.network + drawn draw a)), marked draw a)
unfolding draws_v6
draws_free draw n a g free =
    next_free (contains a.used (drawn draw a)) (a.net.hosts_nth (drawn draw a))
      (a.net.network + drawn draw a) (marked draw a) (draws_v6 draw n (marked draw a)) free
      (g.hosts (drawn draw a) (omega arith))

draws-net : (draw : ℕ → ℕ) (n : ℕ) (a : Addrs) → Good6 a → (draws_v6 draw n a).1.net ≡ a.net
unfolding draws_v6
draws-net draw zero a g = refl
draws-net draw (suc n) a g = elim (Bool-cases (contains a.used (drawn draw a))) [
  | inl used ↦ ap (λ p. p.1.net) (draws_used draw n a used) ∙ draws-net draw n (marked draw a) g
  | inr free ↦ ap (λ p. p.1.net) (draws_free draw n a g free)
]

draws_free_none :
    (draw : ℕ → ℕ) (n : ℕ) (a : Addrs) (b : IpAddr)
    → Good6 a
    → in_use_v6 a b ≡ true
    → in_use_v6 (draws_v6 draw n a).1 b ≡ true
unfolding draws_v6
draws_free_none draw zero a b g u = u
draws_free_none draw (suc n) a b g u =
    let stays = mark_stays draw a b u in
    elim (Bool-cases (contains a.used (drawn draw a))) [
      | inl used ↦
          ap (λ p. in_use_v6 p.1 b) (draws_used draw n a used)
          ∙ draws_free_none draw n (marked draw a) b g stays
      | inr free ↦ ap (λ p. in_use_v6 p.1 b) (draws_free draw n a g free) ∙ stays
    ]

-- a host that was drawn and free is handed out
handed :
    (draw : ℕ → ℕ) (s : Addrs)
    → Good6 s
    → contains s.used (drawn draw s) ≡ false
    → Allocated (pool_v6 draw) in_use_v6 s (marked draw s) (v6 (s.net.network + drawn draw s))
unfolding holds_v6
handed draw s g free =
    let (inside, index) = index_v6-host s (drawn draw s) g (omega arith) in
    record {
      inside = inside;
      free = rw (inside, index, free) refl;
      now_used = ground (arith, inside, index, contains-mark (drawn draw s) (drawn draw s) s);
    }

draws-Allocated :
    (draw : ℕ → ℕ) (n : ℕ) (s s' : Addrs) (a : IpAddr)
    → Good6 s
    → draws_v6 draw n s ≡ (some a, s')
    → Allocated (pool_v6 draw) in_use_v6 s s' a
unfolding draws_v6 holds_v6
draws-Allocated draw zero s s' a g h = absurd (cc (ap (λ p. p.0) h))
draws-Allocated draw (suc n) s s' a g h = elim (Bool-cases (contains s.used (drawn draw s))) [
  | inl used ↦
      let later =
        draws-Allocated draw n (marked draw s) s' a g (sym (draws_used draw n s used) ∙ h) in
      record {
        inside = sym (holds-same s (marked draw s) a refl) ∙ later.inside;
        free = elim (Bool-cases (in_use_v6 s a)) [
          | inl u ↦ absurd (cc (later.free, mark_stays draw s a u))
          | inr f ↦ f
        ];
        now_used = later.now_used;
      }
  | inr free ↦
      let same = sym (draws_free draw n s g free) ∙ h in
      let addr : v6 (s.net.network + drawn draw s) ≡ a = some_inj (ap (λ p. p.0) same) in
      let state : marked draw s ≡ s' = ap (λ p. p.1) same in
      rw (← addr, ← state) (handed draw s g free)
]

-- The IPv6 allocator of a /64 is a pool, whatever numbers are drawn.
pub pool_v6-IsPool : (draw : ℕ → ℕ) → IsPool (pool_v6 draw) Good6 in_use_v6
unfolding allocate_v6
pool_v6-IsPool draw = record {
  in_use_inside = in_use_inside_v6;
  allocate_keeps = λ s g. rw (draws-net draw 10000 s g) g;
  allocate_same_net = λ s b g. holds-same s (draws_v6 draw 10000 s).1 b (draws-net draw 10000 s g);
  allocate_frees_none = λ s b g u. draws_free_none draw 10000 s b g u;
  allocated = λ s s' a g h. draws-Allocated draw 10000 s s' a g h;
  taken = taken_v6 draw;
  released = released_v6 draw;
  release_ok = λ s a g u. release_ok_v6 s a u;
}
