-- ===== src/Eval/Time.antt =====
-- What the passing of time does to a decision: attributes expire, and expiry never grants.
use zl_zpr_visaservice.Base.{
  ℕ, ◌≡◌, ◌≤◌, refl, true, List, Option, none, some, arith, all_mono, ℕ-HasEq,
}
use zl_zpr_visaservice.Attribute.{Attribute, is_expired}
use zl_zpr_visaservice.Attribute.Times.{is_expired_mono}
use zl_zpr_visaservice.Actor.{Actor, get_attribute, is_some_and}
use zl_zpr_visaservice.Policy.{CPolicy, AttrExpr}
use zl_zpr_visaservice.Eval.{
  PacketDesc, Direction, match_condition_to_actor, match_conds, match_policy_conditions,
  hit_direction,
}

module _ (now later : ℕ) (le : now ≤ later) where
  expired-later :
      (o : Option Attribute)
      → is_some_and o (is_expired now) ≡ true
      → is_some_and o (is_expired later) ≡ true
  expired-later none h = h
  expired-later (some a) h = is_expired_mono now later a le h

  condition-earlier :
      (c : AttrExpr) (a : Actor)
      → match_condition_to_actor later c a true ≡ true
      → match_condition_to_actor now c a true ≡ true
  unfolding match_condition_to_actor
  condition-earlier c a h = ground (arith, expired-later (get_attribute a c.key))

  conds-earlier :
      (cs : Option (List AttrExpr)) (a : Actor)
      → match_conds later cs a true ≡ true
      → match_conds now cs a true ≡ true
  unfolding match_conds
  conds-earlier none a h = refl
  conds-earlier (some cs) a h = all_mono _ _ cs (λ c. condition-earlier c a) h

  conditions-earlier :
      (client server : Actor) (c : CPolicy)
      → match_policy_conditions later client server c true ≡ true
      → match_policy_conditions now client server c true ≡ true
  unfolding match_policy_conditions
  conditions-earlier client server c h =
      ground (arith, conds-earlier c.client_conds client, conds-earlier c.service_conds server)

  pub hit_direction-earlier :
      (src dst : Actor) (r : PacketDesc) (c : CPolicy) (d : Direction)
      → hit_direction later true src dst r c ≡ some d
      → hit_direction now true src dst r c ≡ some d
  unfolding hit_direction
  hit_direction-earlier src dst r c d h =
      ground (arith, conditions-earlier src dst c, conditions-earlier dst src c)
