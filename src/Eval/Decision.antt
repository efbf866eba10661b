-- ===== src/Eval/Decision.antt =====
-- The decision of `eval_request`: a deny that hits wins, and without one every allow that hits is
-- reported.
use zl_zpr_visaservice.Base.{
  ℕ, ◌≡◌, ◌≢◌, ◌↔◌, refl, true, false, List, [], ◌∷◌, Option, none, some, ok, err, panic, get_elem?,
  Among, arith, Option-cases, inl, inr, ℕ-HasEq, ◌==◌, ◌||◌,
}
use zl_zpr_visaservice.Actor.{Actor}
use zl_zpr_visaservice.Policy.{Policy, CPolicy}
use zl_zpr_visaservice.Eval.{
  PacketDesc, Direction, Hit, deny, denied, allow_without_route, hit_direction, match_policies,
  decide, eval_request, tcp, udp, ipv6_icmp,
}
use zl_zpr_visaservice.Eval.Hits.{
  HitOf, match_policies_sound, match_policies_complete, HitOf-Among, Rising, match_policies-Rising,
}

-- The communication policies of a policy that decodes.
abbrev pub policies_of : Policy → Option (List CPolicy)
policies_of p = elim p.policy_rdr [
  | none ↦ none
  | some (ok root) ↦ root.com_policies
  | some (err e) ↦ none
  | some panic ↦ none
]

abbrev pub Supported : PacketDesc → Type 0
Supported r = ((r.protocol == tcp) || (r.protocol == udp) || (r.protocol == ipv6_icmp)) ≡ true

module _ (now : ℕ) (src dst : Actor) (r : PacketDesc) where
  decide-allow :
      (cpols : List CPolicy) (hs : List Hit)
      → decide now src dst r cpols ≡ allow_without_route hs
      → (match_policies now false src dst r cpols ≡ [])
        × (hs ≡ match_policies now true src dst r cpols)
        × (hs ≢ [])
  unfolding decide
  decide-allow cpols hs h = (ground arith, ground arith, ground arith)

  -- No deny policy of the list hits.
  abbrev pub NoDeny : List CPolicy → Type 0
  NoDeny cpols =
      (k : ℕ) (c : CPolicy)
      → get_elem? cpols k ≡ some c
      → c.allow ≡ false
      → hit_direction now false src dst r c ≡ none

  NoDeny-of_nil :
      (cpols : List CPolicy) → match_policies now false src dst r cpols ≡ [] → NoDeny cpols
  NoDeny-of_nil cpols e k c g a = elim (Option-cases (hit_direction now false src dst r c)) [
    | inl miss ↦ miss
    | inr (d, hit) ↦
        let m = match_policies_complete now false src dst r k cpols c d g (rw a) hit in
        absurd (cc (rw e at m.1))
  ]

  nil_of_NoDeny :
      (cpols : List CPolicy) → NoDeny cpols → match_policies now false src dst r cpols ≡ []
  nil_of_NoDeny cpols none_hits = go (match_policies now false src dst r cpols) refl
    where
      go :
          (hs : List Hit)
          → match_policies now false src dst r cpols ≡ hs
          → match_policies now false src dst r cpols ≡ []
      go [] e = e
      go (h ∷ hs) e =
          let o = match_policies_sound now false src dst r cpols h (rw e (0, refl)) in
          absurd (cc (none_hits o.place o.cpol o.found (ground (arith, o.effect)), o.way))

  pub record Permits (policy : Policy) (hs : List Hit) : Type 0 where
    pub cpols : List CPolicy
    pub loaded : policies_of policy ≡ some cpols
    pub supported : Supported r
    pub no_deny : NoDeny cpols
    pub exact : (h : Hit) → Among h hs ↔ HitOf now true src dst r 0 cpols h
    pub rising : Rising 0 hs
    pub some_hit : hs ≢ []

  decide_request :
      (policy : Policy) (cpols : List CPolicy)
      → policies_of policy ≡ some cpols
      → Supported r
      → eval_request now policy src dst r ≡ ok (decide now src dst r cpols)
  unfolding eval_request
  decide_request policy cpols l s = ground arith

  allow_request :
      (policy : Policy) (hs : List Hit)
      → eval_request now policy src dst r ≡ ok (allow_without_route hs)
      → (cpols : List CPolicy) × (policies_of policy ≡ some cpols)
        × Supported r
        × (decide now src dst r cpols ≡ allow_without_route hs)
  unfolding eval_request
  allow_request policy hs h = elim (Option-cases (policies_of policy)) [
    | inl absent ↦ absurd (ground arith)
    | inr (cpols, loaded) ↦ (cpols, loaded, ground arith, ground arith)
  ]

  -- What an allow means: the policy decodes, the protocol is one of the three, no deny policy hits,
  -- and the hits reported are exactly the allow policies that hit, in policy order; there is one.
  pub eval_allow_sound :
      (policy : Policy) (hs : List Hit)
      → eval_request now policy src dst r ≡ ok (allow_without_route hs)
      → Permits policy hs
  eval_allow_sound policy hs h =
      let (cpols, loaded, supported, e) = allow_request policy hs h in
      let (no_hits, all_hits, some_hit) = decide-allow cpols hs e in
      record {
        cpols = cpols;
        loaded = loaded;
        supported = supported;
        no_deny = NoDeny-of_nil cpols no_hits;
        exact = λ x. (
          λ m. match_policies_sound now true src dst r cpols x (rw all_hits at m),
          λ o. rw all_hits (HitOf-Among now true src dst r cpols x o),
        );
        rising = rw all_hits (match_policies-Rising now true src dst r cpols);
        some_hit = some_hit;
      }

  -- A deny policy that hits decides the request, whatever allow policies there are: the answer is a
  -- deny, and the policy is among the hits that it reports.
  pub deny_wins :
      (policy : Policy) (cpols : List CPolicy) (k : ℕ) (c : CPolicy) (d : Direction)
      → policies_of policy ≡ some cpols
      → Supported r
      → get_elem? cpols k ≡ some c
      → c.allow ≡ false
      → hit_direction now false src dst r c ≡ some d
      → (hs : List Hit) × (eval_request now policy src dst r ≡ ok (deny (denied hs)))
        × Among (record { match_idx = k; direction = d; signal = c.signal; route = none }) hs
  unfolding decide
  deny_wins policy cpols k c d loaded supported g a hit =
      let m = match_policies_complete now false src dst r k cpols c d g (rw a) hit in
      (
        match_policies now false src dst r cpols,
        rw (decide_request policy cpols loaded supported) (ground (arith, m.1)),
        m,
      )

  -- Where no deny policy hits and some allow policy does, the request is allowed.
  pub allow_complete :
      (policy : Policy) (cpols : List CPolicy) (k : ℕ) (c : CPolicy) (d : Direction)
      → policies_of policy ≡ some cpols
      → Supported r
      → NoDeny cpols
      → get_elem? cpols k ≡ some c
      → c.allow ≡ true
      → hit_direction now true src dst r c ≡ some d
      → (hs : List Hit) × (eval_request now policy src dst r ≡ ok (allow_without_route hs))
        × Among (record { match_idx = k; direction = d; signal = c.signal; route = none }) hs
  unfolding decide
  allow_complete policy cpols k c d loaded supported quiet g a hit =
      let m = match_policies_complete now true src dst r k cpols c d g (rw a) hit in
      let q = nil_of_NoDeny cpols quiet in
      (
        match_policies now true src dst r cpols,
        rw (decide_request policy cpols loaded supported) (ground (arith, m.1, q)),
        m,
      )
