-- ===== src/JoinPolicy/Tests.antt =====
-- Join policies at concrete attributes.
use zl_zpr_visaservice.Base.{
  String, String-HasEq, ◌≡◌, ◌↔◌, refl, true, false, [], ◌∷◌, none, count, all, insert, lookup,
}
use zl_zpr_visaservice.Attribute.{Attribute, is_expired, value_has, value_has_all, value_has_any}
use zl_zpr_visaservice.JoinPolicy.{
  AttrExp, eq, excludes, JPolicy, no_flags, contains_exactly, is_empty_value, admits, exp_matches,
  policy_matches,
}
use zl_zpr_visaservice.JoinPolicy.Exactly.{contains_exactly_iff}
use zl_zpr_visaservice.JoinPolicy.Matching.{find_attr, holds_of, policy_matches-find}

abbrev group : Attribute
group = record { key = "user.group"; value = "b" ∷ "a" ∷ "b" ∷ []; expires_at = 100; source = "hr" }

abbrev site : Attribute
site = record { key = "device.site"; value = "x" ∷ []; expires_at = 500; source = "mdm" }

abbrev group_is : AttrExp
group_is = record { key = "user.group"; op = eq; value = "a" ∷ "b" ∷ "b" ∷ [] }

abbrev no_contractor : AttrExp
no_contractor = record { key = "user.contractor"; op = excludes; value = [] }

abbrev staff_only : JPolicy
staff_only = record { matches = group_is ∷ no_contractor ∷ []; flags = no_flags; services = none }

code : Unit {0}
unfolding policy_matches exp_matches admits contains_exactly is_empty_value is_expired value_has
    value_has_all value_has_any insert lookup
code = tt

reordered : contains_exactly group_is group.value ≡ true
unfolding code
reordered = refl

-- A value too many, or one in the place of another.
other_values : contains_exactly group_is ("a" ∷ "a" ∷ "b" ∷ []) ≡ false
unfolding code
other_values = refl

staff_matches : policy_matches 99 staff_only (site ∷ group ∷ []) ≡ true
unfolding code
staff_matches = refl

-- The group expires with its last second.
staff_expired : policy_matches 101 staff_only (site ∷ group ∷ []) ≡ false
unfolding code
staff_expired = refl

contains_exactly_iff_example :
    (contains_exactly group_is group.value ≡ true)
    ↔ ((k : String) → count k group.value ≡ count k group_is.value)
contains_exactly_iff_example = contains_exactly_iff group_is group.value

policy_matches-find_example :
    policy_matches 99 staff_only (site ∷ group ∷ [])
    ≡ all (λ exp. holds_of 99 exp (find_attr exp.key (site ∷ group ∷ []))) staff_only.matches
policy_matches-find_example =
    policy_matches-find 99 staff_only (site ∷ group ∷ []) (refl, (refl, tt))
