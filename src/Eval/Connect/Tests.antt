-- ===== src/Eval/Connect/Tests.antt =====
-- A connection at a concrete policy.
use zl_zpr_visaservice.Base.{
  String, String-HasEq, ◌==◌, ◌≡◌, ◌≢◌, ◌↔◌, ◌⊎◌, refl, true, false, Bool, [], ◌∷◌, Option, none,
  some, ok, err, any, contains, if◌then◌else◌, lookup, insert, remove, Among, is_empty, to_set,
  sort,
}
use zl_zpr_visaservice.IpAddr.{IpAddr, v6}
use zl_zpr_visaservice.Attribute.{
  Attribute, builder, expires_in, with_value, with_values, never_expires, is_expired, value_has,
  value_has_all,
}
use zl_zpr_visaservice.Attribute.Key
use zl_zpr_visaservice.Actor.{
  Actor, add_attribute, add_identity_key, set_services, is_node, provides, has_attribute_named,
  single, get_authentication_expiration, attrs_iter, services_iter,
}
use zl_zpr_visaservice.Actor.Invariant.{IsValid}
use zl_zpr_visaservice.Actor.Identity.{HasIdentity}
use zl_zpr_visaservice.JoinPolicy.{
  eq, has, JPolicy, no_flags, policy_matches, exp_matches, admits, contains_exactly, is_empty_value,
}
use zl_zpr_visaservice.Policy.{
  Policy, match_join_policies, join_services, service_ids, is_node_policy, lookup_identity_keys,
}
use zl_zpr_visaservice.Policy.Services.{Grants}
use zl_zpr_visaservice.Eval.{attribute_missing}
use zl_zpr_visaservice.Eval.Connect.{
  pins, pins_zpr_addr, to_string, role_attr, vinst_attr, add_identity_keys, add_claims, last_resort,
  finish_actor, approve_claims, approve_connection, unauth_of, flags_of, covered, approve_connected,
}
use zl_zpr_visaservice.Eval.Connect.Outcome.{
  query, approval_total, approval_rights, claims_sourced, connected_iff,
}

abbrev parse_one : String → Option IpAddr
parse_one s = if s == "fd5a::1" then some (v6 1) else none

abbrev no_hash : Actor → String
no_hash a = "hash:0"

abbrev cn_claim : Attribute
cn_claim = record { key = Key.cn; value = "db" ∷ []; expires_at = 90; source = "ca" }

abbrev addr_claim : Attribute
addr_claim = record {
  key = Key.zpr_addr;
  value = "fd5a::1" ∷ [];
  expires_at = 80;
  source = "adapter";
}

-- pins the address and names a service
abbrev db_join : JPolicy
db_join = record {
  matches =
      record { key = Key.cn; op = has; value = "db" ∷ [] }
      ∷ record { key = Key.zpr_addr; op = eq; value = "fd5a::1" ∷ [] }
      ∷ [];
  flags = no_flags;
  services = some ("sql" ∷ []);
}

abbrev db_policy : Policy
db_policy = record {
  policy_rdr = none;
  vinst = 42;
  join_policies = db_join ∷ [];
  identity_attr_keys = Key.cn ∷ [];
}

code : Unit {0}
unfolding approve_connection approve_claims finish_actor last_resort add_claims add_identity_keys
    role_attr vinst_attr to_string pins_zpr_addr flags_of add_attribute add_identity_key
    set_services has_attribute_named lookup insert remove to_set sort builder expires_in with_value
    with_values is_expired value_has value_has_all policy_matches exp_matches admits
    contains_exactly is_empty_value match_join_policies join_services service_ids
    lookup_identity_keys
code = tt

-- without authenticated claims
refused :
    approve_connection parse_one no_hash 5 db_policy none (some (addr_claim ∷ []))
    ≡ err attribute_missing
unfolding code
refused = refl

abbrev db : Actor
db = record {
  attrs =
      (Key.cn, cn_claim)
      ∷ (Key.zpr_addr, addr_claim)
      ∷ (Key.role, role_attr 5 no_flags)
      ∷ (
        Key.services,
        with_values (expires_in 5 (builder 5 Key.services) never_expires) ("sql" ∷ []),
      )
      ∷ (Key.vinst, vinst_attr 5 db_policy)
      ∷ [];
  identity_keys = Key.cn ∷ [];
  zpr_addr = some (v6 1);
}

db_approved :
    approve_connection parse_one no_hash 5 db_policy (some (cn_claim ∷ [])) (some (addr_claim ∷ []))
    ≡ ok db
unfolding code
db_approved = refl

-- The same actor is still welcome later.
db_stays : approve_connected 50 db_policy db ≡ ok true
unfolding code approve_connected covered is_node single services_iter
db_stays = refl

approval_total_example :
    (d : Actor) × (approve_connection parse_one no_hash 5 db_policy
        (some (cn_claim ∷ []))
        (some (addr_claim ∷ []))
      ≡ ok d)
    × IsValid parse_one d
    × HasIdentity d
    × (get_authentication_expiration d ≢ none)
approval_total_example =
    approval_total parse_one no_hash 5 db_policy (cn_claim ∷ []) (some (addr_claim ∷ []))

approval_rights_example :
    (is_node db
      ≡ any is_node_policy
          (match_join_policies 5 db_policy (query (cn_claim ∷ []) (some (addr_claim ∷ [])))))
    × ((s : String)
        → (provides db s ≡ true)
          ↔ Grants 5 db_policy (query (cn_claim ∷ []) (some (addr_claim ∷ []))) s)
approval_rights_example =
    approval_rights parse_one no_hash 5 db_policy (cn_claim ∷ []) (some (addr_claim ∷ [])) db
      db_approved

claims_sourced_example :
    Among addr_claim (cn_claim ∷ [])
    ⊎ ((Key.zpr_addr ≡ Key.zpr_addr)
        × Among addr_claim (unauth_of (some (addr_claim ∷ [])))
        × (any pins
              (match_join_policies 5 db_policy (query (cn_claim ∷ []) (some (addr_claim ∷ []))))
            ≡ true))
unfolding code
claims_sourced_example =
    claims_sourced parse_one no_hash 5 db_policy (cn_claim ∷ []) (some (addr_claim ∷ [])) db
      Key.zpr_addr addr_claim db_approved refl refl

connected_iff_example :
    (b : Bool) × (approve_connected 50 db_policy db ≡ ok b)
    × ((b ≡ true) ↔ (
        (is_node db ≡ any is_node_policy (match_join_policies 50 db_policy (attrs_iter db)))
        × (is_empty (match_join_policies 50 db_policy (attrs_iter db)) ≡ false
            → (s : String) → contains (services_iter db) s ≡ true
            → Grants 50 db_policy (attrs_iter db) s)))
connected_iff_example = connected_iff 50 db_policy db
