-- ===== src/VisaPolicy/Outcome.antt =====
-- What an allow of the shared decision means.
use zl_zpr_visaservice.Base.{
  ℕ, ◌≤◌, ◌≡◌, refl, ap, ◌∙◌, false, ltb, List, [], ◌∷◌, Option, some, Result, ok, err, panic,
  arith, Bool-cases, Option-cases, inl, inr, Among-head,
}
use zl_zpr_visaservice.IpAddr.{IpAddr, IpAddr-HasEq}
use zl_zpr_visaservice.Actor.{Actor, get_authentication_expiration}
use zl_zpr_visaservice.Policy.{Policy}
use zl_zpr_visaservice.Eval.{
  EvalError, Hit, Route, PacketDesc, PartialEvalResult, deny, allow_without_route, no_match, denied,
  eval_request,
}
use zl_zpr_visaservice.Eval.Decision.{Permits, eval_allow_sound, allow_complete}
use zl_zpr_visaservice.Router.{new}
use zl_zpr_visaservice.Router.Routes.{get_best_route}
use zl_zpr_visaservice.Router.Best.{Best, get_best_route-found, get_best_route-some}
use zl_zpr_visaservice.Router.Cache.Calls.{Reach}
use zl_zpr_visaservice.VisaPolicy.{
  Parts, allow, resolve_docking_node, is_past, outcome_of, evaluate_against_policy, route_for_allow,
}
use zl_zpr_visaservice.VisaPolicy.Docking.{DocksAt, resolve-DocksAt, DocksAt-resolve}

-- no authentication of the actor has expired
abbrev pub Authenticated : ℕ → Actor → Type 0
Authenticated now actor = (exp : ℕ) → get_authentication_expiration actor ≡ some exp → now ≤ exp

is_past-Authenticated :
    (now : ℕ) (actor : Actor)
    → is_past now (get_authentication_expiration actor) ≡ false
    → Authenticated now actor
is_past-Authenticated now actor not_past exp is_exp =
    let later : ltb exp now ≡ false = rw is_exp at not_past in ground (arith, later)

Authenticated-is_past :
    (now : ℕ) (actor : Actor)
    → Authenticated now actor
    → is_past now (get_authentication_expiration actor) ≡ false
Authenticated-is_past now actor h = elim (Option-cases (get_authentication_expiration actor)) [
  | inl never ↦ rw never refl
  | inr (exp, is_exp) ↦ let later = h exp is_exp in rw is_exp (ground (arith, later))
]

-- Both actors are authenticated still and docked, the policy permits the flow with these hits, and the
-- route is a best one between the two nodes, which is the one picked for the flow.
pub record Cleared (now : ℕ) (parts : Parts) (src dst : Actor) (src_zpr dst_zpr : IpAddr)
    (pkt : PacketDesc) (policy : Policy) (hits : List Hit) (default_route : Option Route)
    (a b : IpAddr) : Type 0 where
  pub src_fresh : Authenticated now src
  pub dst_fresh : Authenticated now dst
  pub src_dock : DocksAt now parts src src_zpr a
  pub dst_dock : DocksAt now parts dst dst_zpr b
  pub permits : Permits now src dst pkt policy hits
  pub route : Route
  pub is_default : default_route ≡ some route
  pub best : Best parts.router.topology a b (some route)
  pub chosen : route_for_allow hits default_route ≡ ok route

-- the hits of an allow have no route of their own
route_of_permitted :
    (now : ℕ) (src dst : Actor) (pkt : PacketDesc) (policy : Policy) (hits : List Hit) (r : Route)
    → Permits now src dst pkt policy hits
    → route_for_allow hits (some r) ≡ ok r
unfolding route_for_allow
route_of_permitted now src dst pkt policy [] r p = absurd (p.some_hit refl)
route_of_permitted now src dst pkt policy (h ∷ hits) r p = rw (((p.exact h).0 (0, refl)).route) refl

outcome-allow :
    (r : Route) (a b : IpAddr) (q : Result EvalError PartialEvalResult)
    → (hits : List Hit) (d : Option Route) (a' b' : IpAddr)
    → outcome_of r a b q ≡ ok (allow hits d a' b')
    → (q ≡ ok (allow_without_route hits)) × (d ≡ some r) × (a ≡ a') × (b ≡ b')
outcome-allow r a b (ok (deny (no_match x))) hits d a' b' h = absurd (cc h)
outcome-allow r a b (ok (deny (denied x))) hits d a' b' h = absurd (cc h)
outcome-allow r a b (ok (allow_without_route hs)) hits d a' b' h =
    (ground arith, ground arith, ground arith, ground arith)
outcome-allow r a b (err e) hits d a' b' h = absurd (cc h)
outcome-allow r a b panic hits d a' b' h = absurd (cc h)

module _ (now : ℕ) (parts : Parts) (src dst : Actor) (src_zpr dst_zpr : IpAddr) (pkt : PacketDesc)
    (policy : Policy) where
  -- the steps of an allow, in the decision's order
  pub record Steps (hits : List Hit) (default_route : Option Route) (a b : IpAddr) : Type 0 where
    pub src_past : is_past now (get_authentication_expiration src) ≡ false
    pub dst_past : is_past now (get_authentication_expiration dst) ≡ false
    pub src_at : resolve_docking_node now parts src src_zpr ≡ some a
    pub dst_at : resolve_docking_node now parts dst dst_zpr ≡ some b
    pub route : Route
    pub found : get_best_route parts.router a b ≡ some route
    pub asked : eval_request now policy src dst pkt ≡ ok (allow_without_route hits)
    pub picked : default_route ≡ some route

  pub allow-Steps :
      (hits : List Hit) (default_route : Option Route) (a b : IpAddr)
      → evaluate_against_policy now parts src dst src_zpr dst_zpr pkt policy
        ≡ ok (allow hits default_route a b)
      → Steps hits default_route a b
  unfolding evaluate_against_policy
  allow-Steps hits default_route a b h =
      elim (Bool-cases (is_past now (get_authentication_expiration src))) [
        | inl t ↦ absurd (cc (rw (evaluate_against_policy, t) at h))
        | inr src_past ↦ elim (Bool-cases (is_past now (get_authentication_expiration dst))) [
          | inl t ↦ absurd (cc (rw (evaluate_against_policy, src_past, t) at h))
          | inr dst_past ↦ elim (Option-cases (resolve_docking_node now parts src src_zpr)) [
            | inl nowhere ↦
                absurd (cc (rw (evaluate_against_policy, src_past, dst_past, nowhere) at h))
            | inr (a', src_at) ↦ elim (Option-cases (resolve_docking_node now parts dst dst_zpr)) [
              | inl nowhere ↦
                  absurd
                    (cc (rw (evaluate_against_policy, src_past, dst_past, src_at, nowhere) at h))
              | inr (b', dst_at) ↦ elim (Option-cases (get_best_route parts.router a' b')) [
                | inl apart ↦ absurd (
                    cc (
                      rw (evaluate_against_policy, src_past, dst_past, src_at, dst_at, apart) at h))
                | inr (r, found) ↦
                    let (asked, picked, from, to) =
                      outcome-allow r a' b' (eval_request now policy src dst pkt) hits default_route
                        a b
                        (rw (evaluate_against_policy, src_past, dst_past, src_at, dst_at, found) at
                          h) in
                    rw (← from, ← to)
                      (record {
                        src_past = src_past;
                        dst_past = dst_past;
                        src_at = src_at;
                        dst_at = dst_at;
                        route = r;
                        found = found;
                        asked = asked;
                        picked = picked;
                      })
              ]
            ]
          ]
        ]
      ]

  -- a hit of a permitted flow is found by the evaluator
  permitted-asked :
      (hits : List Hit)
      → Permits now src dst pkt policy hits
      → (hs : List Hit) × (eval_request now policy src dst pkt ≡ ok (allow_without_route hs))
  permitted-asked [] p = absurd (p.some_hit refl)
  permitted-asked (h ∷ hits) p =
      let o = (p.exact h).0 (Among-head h hits) in
      let (hs, asked, _) =
        allow_complete now src dst pkt policy p.cpols o.place o.cpol h.direction p.loaded
          p.supported p.no_deny o.found (ground (arith, o.effect)) o.way in
      (hs, asked)

  -- On a router that started empty, whatever calls have changed it since, the shared decision allows
  -- exactly the flows that are cleared, between the same two nodes. Where it answers with an allow, the
  -- authentications of both actors last, each actor is docked at the node that the decision names, by
  -- its own address, the connection table or an unexpired entry of the AAA table, the policy permits the
  -- flow with those hits, the default route is one of the least cost between the two nodes in the
  -- present topology, and it is the one picked, without an error or a panic. Where all this holds, the
  -- decision is an allow between the two nodes.
  pub allow-Cleared :
      Reach new parts.router
      → ((hits : List Hit) (default_route : Option Route) (a b : IpAddr)
          → evaluate_against_policy now parts src dst src_zpr dst_zpr pkt policy
            ≡ ok (allow hits default_route a b)
          → Cleared now parts src dst src_zpr dst_zpr pkt policy hits default_route a b)
        × ((hits : List Hit) (default_route : Option Route) (a b : IpAddr)
            → Cleared now parts src dst src_zpr dst_zpr pkt policy hits default_route a b
            → (hs : List Hit) × (r : Route) × (evaluate_against_policy now parts src dst src_zpr
                  dst_zpr pkt policy
                ≡ ok (allow hs (some r) a b)))
  unfolding evaluate_against_policy
  allow-Cleared reached = (
    λ hits default_route a b h.
        let steps = allow-Steps hits default_route a b h in
        let permits = eval_allow_sound now src dst pkt policy hits steps.asked in
        record {
          src_fresh = is_past-Authenticated now src steps.src_past;
          dst_fresh = is_past-Authenticated now dst steps.dst_past;
          src_dock = resolve-DocksAt now parts src src_zpr a steps.src_at;
          dst_dock = resolve-DocksAt now parts dst dst_zpr b steps.dst_at;
          permits = permits;
          route = steps.route;
          is_default = steps.picked;
          best = get_best_route-some parts.router a b steps.route reached steps.found;
          chosen =
              ap (route_for_allow hits) steps.picked
              ∙ route_of_permitted now src dst pkt policy hits steps.route permits;
        },
    λ hits default_route a b c.
        let (hs, asked) = permitted-asked hits c.permits in
        let (r, found) = get_best_route-found parts.router a b c.route reached c.best in
        (
          hs,
          r,
          rw
              (
                evaluate_against_policy,
                Authenticated-is_past now src c.src_fresh,
                Authenticated-is_past now dst c.dst_fresh,
                DocksAt-resolve now parts src src_zpr a c.src_dock,
                DocksAt-resolve now parts dst dst_zpr b c.dst_dock,
                found,
                asked,
              )
              refl,
        ),
  )
