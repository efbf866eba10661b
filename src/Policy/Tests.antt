-- ===== src/Policy/Tests.antt =====
-- The services that a concrete policy grants.
use zl_zpr_visaservice.Base.{
  String-HasEq, ◌≡◌, ◌↔◌, refl, true, false, [], ◌∷◌, none, some, any, contains, to_set,
}
use zl_zpr_visaservice.Attribute.{Attribute, is_expired, value_has, value_has_all}
use zl_zpr_visaservice.JoinPolicy.{
  has, JPolicy, no_flags, policy_matches, exp_matches, admits, is_empty_value,
}
use zl_zpr_visaservice.Policy.{
  Policy, match_join_policies, join_services, join_services_for_role, is_node_policy, service_ids,
}
use zl_zpr_visaservice.Policy.Services.{Grants, join_services_iff, join_services_for_role_iff}

abbrev cn_attr : Attribute
cn_attr = record { key = "device.cn"; value = "n1" ∷ []; expires_at = 100; source = "zpr" }

abbrev web_join : JPolicy
web_join = record {
  matches = record { key = "device.cn"; op = has; value = [] } ∷ [];
  flags = no_flags;
  services = some ("web" ∷ []);
}

abbrev node_join : JPolicy
node_join = record {
  matches = record { key = "device.cn"; op = has; value = "n1" ∷ [] } ∷ [];
  flags = record no_flags { is_node = true };
  services = some ("vss" ∷ "web" ∷ []);
}

abbrev joins : Policy
joins = record {
  policy_rdr = none;
  vinst = 1;
  join_policies = web_join ∷ node_join ∷ [];
  identity_attr_keys = [];
}

code : Unit {0}
unfolding join_services join_services_for_role match_join_policies service_ids policy_matches
    exp_matches admits is_empty_value is_expired value_has value_has_all to_set
code = tt

vss_granted : contains (join_services 50 joins (cn_attr ∷ [])) "vss" ≡ true
unfolding code
vss_granted = refl

-- An adapter keeps the services of the plain join policy only.
vss_not_restamped : contains (join_services_for_role 50 joins (cn_attr ∷ []) false) "vss" ≡ false
unfolding code
vss_not_restamped = refl

join_services_iff_example :
    (contains (join_services 50 joins (cn_attr ∷ [])) "vss" ≡ true)
    ↔ Grants 50 joins (cn_attr ∷ []) "vss"
join_services_iff_example = join_services_iff 50 joins (cn_attr ∷ []) "vss"

join_services_for_role_iff_example :
    (contains (join_services_for_role 50 joins (cn_attr ∷ []) false) "web" ≡ true) ↔ (
      (g : Grants 50 joins (cn_attr ∷ []) "web") × (false ≡ false → g.jp.flags.is_node ≡ false)
      × (false ≡ true → any is_node_policy (match_join_policies 50 joins (cn_attr ∷ [])) ≡ true))
join_services_for_role_iff_example = join_services_for_role_iff 50 joins (cn_attr ∷ []) false "web"
