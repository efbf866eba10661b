-- ===== src/Eval/Tests.antt =====
-- The evaluator at concrete policies and packets.
use zl_zpr_visaservice.Base.{
  ℕ, ◌≡◌, ◌≢◌, refl, true, false, List, [], ◌∷◌, none, some, ok, arith, Among, any, ◌&&◌, zero, suc,
  get_elem?, lookup,
}
use zl_zpr_visaservice.IpAddr.{v6}
use zl_zpr_visaservice.Attribute.{Attribute, value_has, is_expired, is_single_value}
use zl_zpr_visaservice.Attribute.Key
use zl_zpr_visaservice.Actor.{Actor, provides, get_attribute, has_attribute_value}
use zl_zpr_visaservice.JoinPolicy.{eq}
use zl_zpr_visaservice.Policy.{Policy, CPolicy, Scope, port, port_range, no_flag, udp_one_way}
use zl_zpr_visaservice.Eval.{
  PacketDesc, Hit, forward, reverse, deny, denied, no_match, no_matching_policy, VisaProps,
  allow_without_route, tcp, udp, ipv6_icmp, hit_direction, eval_request, scope_matches,
  policy_scope_matches, visa_info_for_hit, decide, match_policies, match_policy_conditions,
  match_condition_to_actor,
}
use zl_zpr_visaservice.Eval.Decision.{
  Permits, eval_allow_sound, deny_wins, allow_complete, policies_of,
}
use zl_zpr_visaservice.Eval.Expiry.{eval_allow_earlier, deny_twin}
use zl_zpr_visaservice.Eval.Scopes.{swap_ends, two_way, reverse_scope}
use zl_zpr_visaservice.Eval.Visas.{Covers, hit_yields_visa}

abbrev web : Attribute
web = record { key = Key.services; value = "web" ∷ []; expires_at = 1000; source = "zpr" }

abbrev staff : Attribute
staff = record { key = "user.group"; value = "staff" ∷ []; expires_at = 100; source = "hr" }

abbrev server : Actor
server = record { attrs = (Key.services, web) ∷ []; identity_keys = []; zpr_addr = some (v6 2) }

abbrev client : Actor
client = record { attrs = ("user.group", staff) ∷ []; identity_keys = []; zpr_addr = some (v6 1) }

abbrev http : PacketDesc
http = record {
  source_addr = v6 1;
  dest_addr = v6 2;
  protocol = tcp;
  source_port = 40000;
  dest_port = 80;
}

abbrev staff_web : CPolicy
staff_web = record {
  allow = true;
  service_id = "web";
  scope = record { protocol = tcp; ports = port 80; flag = no_flag } ∷ [];
  client_conds = some (record { key = "user.group"; op = eq; value = some ("staff" ∷ []) } ∷ []);
  service_conds = none;
  signal = none;
  zpl = "allow staff to access web";
}

abbrev staff_deny : CPolicy
staff_deny = record staff_web { allow = false; signal = none; zpl = "never allow staff" }

abbrev policy_with : List CPolicy → Policy
policy_with cpols = record {
  policy_rdr = some (ok (record { com_policies = some cpols }));
  vinst = 1;
  join_policies = [];
  identity_attr_keys = [];
}

abbrev open_policy : Policy
open_policy = policy_with (staff_web ∷ [])

abbrev shut_policy : Policy
shut_policy = policy_with (staff_web ∷ staff_deny ∷ [])

abbrev web_hit : Hit
web_hit = record { match_idx = 0; direction = forward; signal = none; route = none }

-- what a run of the evaluator computes with
code : Unit {0}
unfolding eval_request decide match_policies hit_direction policy_scope_matches scope_matches
    provides lookup value_has match_policy_conditions match_condition_to_actor get_attribute
    is_expired has_attribute_value is_single_value
code = tt

http_allowed :
    eval_request 50 open_policy client server http ≡ ok (allow_without_route (web_hit ∷ []))
unfolding code
http_allowed = refl

-- The group of the client has expired.
http_expired :
    eval_request 150 open_policy client server http ≡ ok (deny (no_match no_matching_policy))
unfolding code
http_expired = refl

http_denied :
    eval_request 50 shut_policy client server http
    ≡ ok (
        deny (
          denied (record { match_idx = 1; direction = forward; signal = none; route = none } ∷ [])))
unfolding code
http_denied = refl

eval_allow_sound_example : Permits 50 client server http open_policy (web_hit ∷ [])
eval_allow_sound_example =
    eval_allow_sound 50 client server http open_policy (web_hit ∷ []) http_allowed

deny_wins_example :
    (hs : List Hit) × (eval_request 150 shut_policy client server http ≡ ok (deny (denied hs)))
    × Among (record { match_idx = 1; direction = forward; signal = none; route = none }) hs
unfolding code
deny_wins_example =
    deny_wins 150 client server http shut_policy (staff_web ∷ staff_deny ∷ []) 1 staff_deny forward
      refl refl refl refl refl

allow_complete_example :
    (hs : List Hit) × (eval_request 50 open_policy client server http ≡ ok (allow_without_route hs))
    × Among web_hit hs
unfolding code
allow_complete_example =
    allow_complete 50 client server http open_policy (staff_web ∷ []) 0 staff_web forward refl refl
      (λ k c g a. only_allows k c g a) refl refl refl
  where
    only_allows :
        (k : ℕ) (c : CPolicy)
        → get_elem? (staff_web ∷ []) k ≡ some c
        → c.allow ≡ false
        → hit_direction 50 false client server http c ≡ none
    only_allows zero c g a = absurd (ground arith)
    only_allows (suc k) c g a = absurd (ground arith)

eval_allow_earlier_example :
    (hs : List Hit) × (eval_request 20 open_policy client server http ≡ ok (allow_without_route hs))
    × ((h : Hit) → Among h (web_hit ∷ []) → Among h hs)
eval_allow_earlier_example =
    eval_allow_earlier 20 50 (omega arith) client server http open_policy (web_hit ∷ [])
      http_allowed

deny_twin_example :
    eval_request 10 shut_policy client server http ≢ ok (allow_without_route (web_hit ∷ []))
unfolding code
deny_twin_example =
    deny_twin 50 10 client server http shut_policy (staff_web ∷ staff_deny ∷ []) staff_web forward 1
      none "never allow staff" (web_hit ∷ []) refl refl refl

hit_yields_visa_example :
    (v : VisaProps) × (visa_info_for_hit open_policy web_hit http ≡ ok v)
    × Covers forward v http
    × (cpols : List CPolicy) × (c : CPolicy) × (policies_of open_policy ≡ some cpols)
    × (get_elem? cpols 0 ≡ some c)
    × (c.allow ≡ true)
    × (v.zpl ≡ c.zpl)
hit_yields_visa_example =
    hit_yields_visa 50 open_policy client server http (web_hit ∷ []) web_hit http_allowed (0, refl)

abbrev ping_reply : PacketDesc
ping_reply = record http { protocol = ipv6_icmp; source_port = 129; dest_port = 0 }

abbrev ping_scope : Scope
ping_scope = record { protocol = ipv6_icmp; ports = port_range 128 129; flag = no_flag }

abbrev dns_reply : PacketDesc
dns_reply = record http { protocol = udp; source_port = 53; dest_port = 40000 }

abbrev dns_policy : CPolicy
dns_policy = record staff_web {
  scope = record { protocol = udp; ports = port 53; flag = udp_one_way } ∷ [];
}

reverse_scope_example :
    policy_scope_matches dns_reply dns_policy reverse
    ≡ any
        (λ s. scope_matches (swap_ends dns_reply) forward s && two_way dns_reply s)
        dns_policy.scope
reverse_scope_example = reverse_scope dns_reply dns_policy (λ e. absurd (omega arith))
