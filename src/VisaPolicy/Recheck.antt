-- ===== src/VisaPolicy/Recheck.antt =====
-- When a recheck keeps a visa.
use mathlib.Core.Path.{subst}
use zl_zpr_visaservice.Base.{
  ℕ, ◌≡◌, ◌≢◌, ◌↔◌, ◌==◌, refl, sym, ap, ◌∙◌, true, List, [], ◌∷◌, length, Option, none, some,
  Result, ok, err, panic, arith, Bool-cases, Option-cases, inl, inr, ok_inj, some_inj, eq_of_beq,
  beq_refl,
}
use zl_zpr_visaservice.IpAddr.{IpAddr, IpAddr-HasEq}
use zl_zpr_visaservice.Actor.{Actor}
use zl_zpr_visaservice.Policy.{Policy}
use zl_zpr_visaservice.Eval.{Hit, Route, PacketDesc}
use zl_zpr_visaservice.Router.{RouterInner, new}
use zl_zpr_visaservice.Router.Routes.{get_best_route, route_to_path}
use zl_zpr_visaservice.Router.Best.{get_best_route-some, Reach-IsCurrent}
use zl_zpr_visaservice.Router.Paths.{last_of, route_to_path-get_best_route}
use zl_zpr_visaservice.Router.Cache.Calls.{Reach}
use zl_zpr_visaservice.VisaPolicy.{
  Parts, PolicyOutcome, allow, deny_with, ServiceError, docking_node_for_addr,
  evaluate_against_policy, route_for_allow, allow_same_route, same_addrs, same_path, as_path,
  path_for_flow, recheck_outcome, recheck_visa_allowed,
}
use zl_zpr_visaservice.VisaPolicy.Outcome.{Steps, allow-Steps, allow-Cleared}

same_addrs-eq : (p q : List IpAddr) → same_addrs p q ≡ true → p ≡ q
same_addrs-eq [] [] h = refl
same_addrs-eq [] (b ∷ q) h = absurd (cc h)
same_addrs-eq (a ∷ p) [] h = absurd (cc h)
same_addrs-eq (a ∷ p) (b ∷ q) h =
    let same : (a == b) ≡ true = ground (arith, h) in
    let rest : same_addrs p q ≡ true = ground (arith, h) in
    ap (λ x. x ∷ p) (eq_of_beq a b same) ∙ ap (λ xs. b ∷ xs) (same_addrs-eq p q rest)

same_addrs_refl : (p : List IpAddr) → same_addrs p p ≡ true
same_addrs_refl [] = refl
same_addrs_refl (a ∷ p) = rw (beq_refl a, same_addrs_refl p) refl

same_path-eq : (p q : Option (List IpAddr)) → same_path p q ≡ true → p ≡ q
same_path-eq none none h = refl
same_path-eq none (some q) h = absurd (cc h)
same_path-eq (some p) none h = absurd (cc h)
same_path-eq (some p) (some q) h = ap some (same_addrs-eq p q h)

same_path_refl : (p : Option (List IpAddr)) → same_path p p ≡ true
same_path_refl none = refl
same_path_refl (some p) = same_addrs_refl p

-- the path of a flow over a route: none on one node, else the nodes along the route's links
pub data Taken (router : RouterInner) (a b : IpAddr) (r : Route) (path : Option (List IpAddr))
    : Type 0 where
  on_one_node : a ≡ b → path ≡ none → Taken router a b r path
  along :
      (ns : List IpAddr)
      → a ≢ b
      → path ≡ some (a ∷ ns)
      → route_to_path router r a ≡ ok (a ∷ ns)
      → last_of a ns ≡ b
      → length ns ≡ length r.links
      → Taken router a b r path

Taken-unique :
    (router : RouterInner) (a b : IpAddr) (r : Route) (p q : Option (List IpAddr))
    → Taken router a b r p
    → Taken router a b r q
    → p ≡ q
Taken-unique router a b r p q (on_one_node same is_p) (on_one_node same' is_q) = is_p ∙ sym is_q
Taken-unique router a b r p q (on_one_node same is_p) (along ns apart is_q path last l) =
    absurd (apart same)
Taken-unique router a b r p q (along ns apart is_p path last l) (on_one_node same is_q) =
    absurd (apart same)
Taken-unique router a b r p q (along ns apart is_p path last l)
      (along ms apart' is_q path' last' l') =
    is_p ∙ ap some (ok_inj (sym path ∙ path')) ∙ sym is_q

-- What a recheck that keeps a visa has found.
pub record Kept (now : ℕ) (parts : Parts) (pkt : PacketDesc) (stored : Option (List IpAddr))
    (policy : Policy) : Type 0 where
  pub src : Actor
  pub dst : Actor
  pub src_known : parts.get_actor_by_zpr_addr pkt.source_addr ≡ some src
  pub dst_known : parts.get_actor_by_zpr_addr pkt.dest_addr ≡ some dst
  pub hits : List Hit
  pub route : Route
  pub a : IpAddr
  pub b : IpAddr
  pub allowed :
      evaluate_against_policy now parts src dst pkt.source_addr pkt.dest_addr pkt policy
      ≡ ok (allow hits (some route) a b)
  pub on_path : Taken parts.router a b route stored

module _ (now : ℕ) (parts : Parts) (pkt : PacketDesc) (stored : Option (List IpAddr))
    (policy : Policy) (reached : Reach new parts.router) where
  -- the path that the recheck compares
  flow_path :
      (src dst : Actor) (hits : List Hit) (r : Route) (a b : IpAddr)
      → parts.get_actor_by_zpr_addr pkt.source_addr ≡ some src
      → Steps now parts src dst pkt.source_addr pkt.dest_addr pkt policy hits (some r) a b
      → (path : Option (List IpAddr)) × (path_for_flow now parts pkt.source_addr r ≡ ok path)
        × Taken parts.router a b r path
  unfolding path_for_flow docking_node_for_addr
  flow_path src dst hits r a b known steps =
      let found : get_best_route parts.router a b ≡ some r = steps.found ∙ sym steps.picked in
      elim (get_best_route-some parts.router a b r reached found) [
        | inl (same, is_direct) ↦ (none, rw (path_for_flow, is_direct) refl, on_one_node same refl)
        | inr (apart, hops, _) ↦
            let (ns, path, last, same) =
              route_to_path-get_best_route parts.router a b r (Reach-IsCurrent parts.router reached)
                found in
            (
              some (a ∷ ns),
              rw (path_for_flow, hops, docking_node_for_addr, known, steps.src_at)
                  (ap as_path path),
              along ns apart refl path last same,
            )
      ]

  kept :
      (src dst : Actor) (hits : List Hit) (d : Option Route) (a b : IpAddr)
      → parts.get_actor_by_zpr_addr pkt.source_addr ≡ some src
      → parts.get_actor_by_zpr_addr pkt.dest_addr ≡ some dst
      → evaluate_against_policy now parts src dst pkt.source_addr pkt.dest_addr pkt policy
        ≡ ok (allow hits d a b)
      → recheck_outcome now parts pkt.source_addr stored (ok (allow hits d a b))
        ≡ ok allow_same_route
      → Kept now parts pkt stored policy
  kept src dst hits d a b src_known dst_known allowed h =
      let c =
        (allow-Cleared now parts src dst pkt.source_addr pkt.dest_addr pkt policy reached).0 hits d
          a b allowed in
      let allowed' = allowed ∙ ap (λ x. ok (allow hits x a b)) c.is_default in
      let (path, on_path, taken) = flow_path src dst hits c.route a b src_known (
        allow-Steps now parts src dst pkt.source_addr pkt.dest_addr pkt policy hits (some c.route) a
          b allowed') in
      elim (Bool-cases (same_path path stored)) [
        | inr other ↦ absurd (cc (rw (c.chosen, on_path, other) at h))
        | inl same ↦ record {
          src = src;
          dst = dst;
          src_known = src_known;
          dst_known = dst_known;
          hits = hits;
          route = c.route;
          a = a;
          b = b;
          allowed = allowed';
          on_path = subst (Taken parts.router a b c.route) (same_path-eq path stored same) taken;
        }
      ]

  by_outcome :
      (src dst : Actor)
      → parts.get_actor_by_zpr_addr pkt.source_addr ≡ some src
      → parts.get_actor_by_zpr_addr pkt.dest_addr ≡ some dst
      → (q : Result ServiceError PolicyOutcome)
      → evaluate_against_policy now parts src dst pkt.source_addr pkt.dest_addr pkt policy ≡ q
      → recheck_outcome now parts pkt.source_addr stored q ≡ ok allow_same_route
      → Kept now parts pkt stored policy
  by_outcome src dst src_known dst_known (ok (allow hits d a b)) is_q h =
      kept src dst hits d a b src_known dst_known is_q h
  by_outcome src dst src_known dst_known (ok (deny_with code)) is_q h = absurd (cc h)
  by_outcome src dst src_known dst_known (err e) is_q h = absurd (cc h)
  by_outcome src dst src_known dst_known panic is_q h = absurd (cc h)

  -- On a router that started empty, whatever calls have changed it since, a recheck keeps a visa exactly
  -- when both actors are stored, the shared decision allows the flow now, and the path stored with the
  -- visa is that of the route the decision picks: none if the actors dock at one node, else the node of
  -- the source and then the nodes along the links of the route, the last of which is the node of the
  -- destination.
  pub recheck_visa_allowed-Kept :
      (recheck_visa_allowed now parts pkt stored policy ≡ ok allow_same_route)
      ↔ Kept now parts pkt stored policy
  unfolding recheck_visa_allowed
  recheck_visa_allowed-Kept = (
    λ h. elim (Option-cases (parts.get_actor_by_zpr_addr pkt.source_addr)) [
      | inl gone ↦ absurd (cc (rw (recheck_visa_allowed, gone) at h))
      | inr (src, src_known) ↦ elim (Option-cases (parts.get_actor_by_zpr_addr pkt.dest_addr)) [
        | inl gone ↦ absurd (cc (rw (recheck_visa_allowed, src_known, gone) at h))
        | inr (dst, dst_known) ↦
            by_outcome src dst src_known dst_known
              (evaluate_against_policy now parts src dst pkt.source_addr pkt.dest_addr pkt policy)
              refl (rw (recheck_visa_allowed, src_known, dst_known) at h)
      ]
    ],
    λ k.
        let c =
          (allow-Cleared now parts k.src k.dst pkt.source_addr pkt.dest_addr pkt policy reached).0
            k.hits (some k.route) k.a k.b k.allowed in
        let same_route : c.route ≡ k.route = some_inj (sym c.is_default) in
        let chosen : route_for_allow k.hits (some k.route) ≡ ok k.route =
          c.chosen ∙ ap ok same_route in
        let (path, on_path, taken) = flow_path k.src k.dst k.hits k.route k.a k.b k.src_known (
          allow-Steps now parts k.src k.dst pkt.source_addr pkt.dest_addr pkt policy k.hits
            (some k.route) k.a k.b k.allowed) in
        let same : path ≡ stored =
          Taken-unique parts.router k.a k.b k.route path stored taken k.on_path in
        let equal : same_path path stored ≡ true =
          ap (λ p. same_path p stored) same ∙ same_path_refl stored in
        rw (recheck_visa_allowed, k.src_known, k.dst_known, k.allowed)
          (rw (chosen, on_path, equal) refl),
  )
