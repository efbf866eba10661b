-- ===== src/Eval/Conditions.antt =====
-- The two passes compared: the deny pass does not read the clock, and is fail-closed.
use zl_zpr_visaservice.Base.{
  ℕ, String, ◌≡◌, refl, true, false, List, Option, none, some, arith, all_mono,
}
use zl_zpr_visaservice.Actor.{Actor}
use zl_zpr_visaservice.Policy.{CPolicy, AttrExpr}
use zl_zpr_visaservice.JoinPolicy.{AttrOp}
use zl_zpr_visaservice.Eval.{
  PacketDesc, Direction, PAttrValue, match_op, pattr_of, match_condition_to_actor, match_conds,
  match_policy_conditions, hit_direction,
}

-- What an operator admits for an allow, it admits for a deny.
op-deny :
    (op : AttrOp) (v : Option PAttrValue) (k : String) (a : Actor)
    → match_op op v k a true ≡ true
    → match_op op v k a false ≡ true
unfolding match_op
op-deny op v k a h = ground arith

condition-deny :
    (now now' : ℕ) (c : AttrExpr) (a : Actor)
    → match_condition_to_actor now c a true ≡ true
    → match_condition_to_actor now' c a false ≡ true
unfolding match_condition_to_actor
condition-deny now now' c a h = ground (arith, op-deny c.op (pattr_of c.value) c.key a)

conds-deny :
    (now now' : ℕ) (cs : Option (List AttrExpr)) (a : Actor)
    → match_conds now cs a true ≡ true
    → match_conds now' cs a false ≡ true
unfolding match_conds
conds-deny now now' none a h = refl
conds-deny now now' (some cs) a h = all_mono _ _ cs (λ c. condition-deny now now' c a) h

conditions-deny :
    (now now' : ℕ) (client server : Actor) (c : CPolicy)
    → match_policy_conditions now client server c true ≡ true
    → match_policy_conditions now' client server c false ≡ true
unfolding match_policy_conditions
conditions-deny now now' client server c h =
    ground
      (arith, conds-deny now now' c.client_conds client, conds-deny now now' c.service_conds server)

-- A policy whose scope, service and conditions make it hit in the allow pass hits in the deny pass
-- too, in the same direction, at whatever time each pass is made.
pub hit_direction-deny :
    (now now' : ℕ) (src dst : Actor) (r : PacketDesc) (c : CPolicy) (d : Direction)
    → hit_direction now true src dst r c ≡ some d
    → hit_direction now' false src dst r c ≡ some d
unfolding hit_direction
hit_direction-deny now now' src dst r c d h =
    ground (arith, conditions-deny now now' src dst c, conditions-deny now now' dst src c)

conds_timeless :
    (now now' : ℕ) (cs : Option (List AttrExpr)) (a : Actor)
    → match_conds now cs a false ≡ match_conds now' cs a false
unfolding match_conds match_condition_to_actor
conds_timeless now now' none a = refl
conds_timeless now now' (some cs) a = refl

-- The deny pass does not read the clock.
pub hit_direction-timeless :
    (now now' : ℕ) (src dst : Actor) (r : PacketDesc) (c : CPolicy)
    → hit_direction now false src dst r c ≡ hit_direction now' false src dst r c
unfolding hit_direction match_policy_conditions
hit_direction-timeless now now' src dst r c = rw (
  conds_timeless now now' c.client_conds src,
  conds_timeless now now' c.service_conds dst,
  conds_timeless now now' c.client_conds dst,
  conds_timeless now now' c.service_conds src,
)
