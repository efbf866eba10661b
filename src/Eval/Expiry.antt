-- ===== src/Eval/Expiry.antt =====
-- Requests as time passes, and an allow policy beside its deny twin.
use zl_zpr_visaservice.Base.{
  ℕ, String, ◌≡◌, ◌≢◌, ◌≤◌, refl, sym, ◌∙◌, true, false, List, [], ◌∷◌, Option, some, ok, get_elem?,
  Among, some_inj,
}
use zl_zpr_visaservice.Actor.{Actor}
use zl_zpr_visaservice.Policy.{Policy, CPolicy, Signal}
use zl_zpr_visaservice.Eval.{
  PacketDesc, Direction, Hit, allow_without_route, hit_direction, eval_request,
  match_policy_conditions, policy_scope_matches,
}
use zl_zpr_visaservice.Eval.Hits.{HitOf}
use zl_zpr_visaservice.Eval.Time.{hit_direction-earlier}
use zl_zpr_visaservice.Eval.Conditions.{hit_direction-deny, hit_direction-timeless}
use zl_zpr_visaservice.Eval.Decision.{
  policies_of, NoDeny, Permits, eval_allow_sound, allow_complete,
}

module _ (now later : ℕ) (le : now ≤ later) (src dst : Actor) (r : PacketDesc) where
  HitOf-earlier :
      (cpols : List CPolicy) (h : Hit)
      → HitOf later true src dst r 0 cpols h
      → HitOf now true src dst r 0 cpols h
  HitOf-earlier cpols h o = record {
    place = o.place;
    cpol = o.cpol;
    found = o.found;
    number = o.number;
    effect = o.effect;
    way = hit_direction-earlier now later le src dst r o.cpol h.direction o.way;
    signal = o.signal;
    route = o.route;
  }

  allow_from_hit :
      (policy : Policy) (h : Hit) (hs : List Hit)
      → Permits later src dst r policy hs
      → Among h hs
      → (hs' : List Hit) × (eval_request now policy src dst r ≡ ok (allow_without_route hs'))
  allow_from_hit policy h hs p m =
      let o = HitOf-earlier p.cpols h ((p.exact h).0 m) in
      let quiet : NoDeny now src dst r p.cpols =
        λ k c g a. hit_direction-timeless now later src dst r c ∙ p.no_deny k c g a in
      let (hs', e, _) =
        allow_complete now src dst r policy p.cpols o.place o.cpol h.direction p.loaded p.supported
          quiet o.found o.effect o.way in
      (hs', e)

  -- Expiry never grants: with the same policy and the same actors, what is allowed at a
  -- later time was allowed before, and every hit of the later answer was a hit of the earlier one.
  pub eval_allow_earlier :
      (policy : Policy) (hs : List Hit)
      → eval_request later policy src dst r ≡ ok (allow_without_route hs)
      → (hs' : List Hit) × (eval_request now policy src dst r ≡ ok (allow_without_route hs'))
        × ((h : Hit) → Among h hs → Among h hs')
  eval_allow_earlier policy [] e =
      absurd ((eval_allow_sound later src dst r policy [] e).some_hit refl)
  eval_allow_earlier policy (x ∷ hs) e =
      let p = eval_allow_sound later src dst r policy (x ∷ hs) e in
      let (hs', e') = allow_from_hit policy x (x ∷ hs) p (0, refl) in
      let p' = eval_allow_sound now src dst r policy hs' e' in
      let same : p.cpols ≡ p'.cpols = some_inj (sym p.loaded ∙ p'.loaded) in
      (hs', e', λ h m. (p'.exact h).1 (rw same at (HitOf-earlier p.cpols h ((p.exact h).0 m))))

-- Denies are fail-closed: where an allow policy hits, a deny policy with the same scopes, service
-- and conditions makes the request one that is not allowed, at that time and at every other.
pub deny_twin :
    (now now' : ℕ) (src dst : Actor) (r : PacketDesc) (policy : Policy) (cpols : List CPolicy)
    (c : CPolicy) (d : Direction) (k : ℕ) (sg : Option Signal) (zpl : String) (hs : List Hit)
    → policies_of policy ≡ some cpols
    → hit_direction now true src dst r c ≡ some d
    → get_elem? cpols k ≡ some (record c { allow = false; signal = sg; zpl = zpl })
    → eval_request now' policy src dst r ≢ ok (allow_without_route hs)
unfolding hit_direction match_policy_conditions policy_scope_matches
deny_twin now now' src dst r policy cpols c d k sg zpl hs loaded hit g e =
    let p = eval_allow_sound now' src dst r policy hs e in
    let same : p.cpols ≡ cpols = some_inj (sym p.loaded ∙ loaded) in
    let quiet = p.no_deny k (record c { allow = false; signal = sg; zpl = zpl }) (rw same g) refl in
    absurd (cc (sym quiet ∙ hit_direction-deny now now' src dst r c d hit))
