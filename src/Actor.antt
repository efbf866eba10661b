-- ===== src/Actor.antt =====
-- libeval/src/actor.rs: an actor is a map of attributes, the names of those that identify it, and
-- the address parsed from its `zpr.addr` attribute. A method that takes `&mut self` returns the
-- new actor. `str::parse::<IpAddr>` is the parameter `parse_ip`.
pub mod Invariant
pub mod Identity
mod Tests
use zl_zpr_visaservice.Base.{
  ℕ, zero, suc, String, String-HasEq, ◌==◌, Bool, ◌&&◌, not, false, List, [], ◌∷◌, ◌++◌, Option,
  none, some, Result, ok, err, length, filter, leb, is_empty, head?, if◌then◌else◌, Map, lookup,
  insert, remove, values, is_some, sort,
}
use zl_zpr_visaservice.IpAddr.{IpAddr}
use zl_zpr_visaservice.Attribute.{
  Attribute, role_node, role_adapter, never_expires, builder, expires_in, with_values, value_has,
  value_has_all, value_has_any, is_single_value,
}
use zl_zpr_visaservice.Attribute.Key

pub data Role : Type 0 where
  unknown adapter node : Role

-- `AttributeError`, by what its message reports
pub data ActorError : Type 0 where
  identity_absent : String → ActorError
  invalid_ip : String → ActorError
  invalid_role : String → ActorError

pub record Actor : Type 0 where
  pub attrs : Map String Attribute
  pub identity_keys : List String
  pub zpr_addr : Option IpAddr

-- `Actor::new`
abbrev pub new : Actor
new = record { attrs = []; identity_keys = []; zpr_addr = none }

unfoldable pub get_attribute : Actor → String → Option Attribute
get_attribute a k = lookup k a.attrs

abbrev pub attrs_iter : Actor → List Attribute
attrs_iter a = values a.attrs

unfoldable pub has_attribute_named : Actor → String → Bool
has_attribute_named a k = is_some (lookup k a.attrs)

-- `Option::is_some_and`
abbrev pub is_some_and : Option Attribute → (Attribute → Bool) → Bool
is_some_and none p = false
is_some_and (some x) p = p x

unfoldable pub has_attribute_value : Actor → String → String → Bool
has_attribute_value a k v = is_some_and (lookup k a.attrs) (λ x. is_single_value x v)

unfoldable pub has_attribute_values : Actor → String → List String → Bool
has_attribute_values a k vs = is_some_and (lookup k a.attrs) (λ x. value_has_all x vs)

unfoldable pub has_any_attribute_values : Actor → String → List String → Bool
has_any_attribute_values a k vs = is_some_and (lookup k a.attrs) (λ x. value_has_any x vs)

abbrev first_of_attr : Option Attribute → Option String
first_of_attr none = none
first_of_attr (some x) = head? x.value

-- First value of the attribute named `k`, if the actor has one.
unfoldable pub single : Actor → String → Option String
single a k = first_of_attr (lookup k a.attrs)

-- `Option<&str> == Some(v)`
abbrev pub is_value : Option String → String → Bool
is_value none v = false
is_value (some w) v = w == v

abbrev non_empty : Option String → Bool
non_empty none = false
non_empty (some s) = not (s == "")

unfoldable pub is_provider : Actor → Bool
unfolding single
is_provider a = non_empty (single a Key.services)

unfoldable pub is_node : Actor → Bool
unfolding single
is_node a = is_value (single a Key.role) role_node

unfoldable pub get_role : Actor → Role
unfolding single
get_role a =
    let r = single a Key.role in
    if is_value r role_node then node else if is_value r role_adapter then adapter else unknown

unfoldable pub get_cn : Actor → Option String
unfolding single
get_cn a = single a Key.cn

unfoldable pub get_zpr_addr : Actor → Option IpAddr
get_zpr_addr a = a.zpr_addr

unfoldable pub provides : Actor → String → Bool
provides a service_id = is_some_and (lookup Key.services a.attrs) (λ x. value_has x service_id)

abbrev values_of : Option Attribute → List String
values_of none = []
values_of (some x) = x.value

unfoldable pub services_iter : Actor → List String
services_iter a = values_of (lookup Key.services a.attrs)

-- `Vec::insert`, for an index that is not past the end
insert_at : ℕ → String → List String → List String
insert_at zero k ks = k ∷ ks
insert_at (suc i) k [] = k ∷ []
insert_at (suc i) k (j ∷ ks) = j ∷ insert_at i k ks

unfoldable pub add_identity_key : Actor → ℕ → String → Result ActorError Actor
unfolding has_attribute_named insert_at
add_identity_key a order k =
    if not (has_attribute_named a k)
    then err (identity_absent k)
    else if leb (length a.identity_keys) order
    then ok (record a { identity_keys = a.identity_keys ++ (k ∷ []) })
    else ok (record a { identity_keys = insert_at order k a.identity_keys })

-- `.first().map(..).unwrap_or("")`
abbrev pub first_value : Attribute → String
first_value x = elim (head? x.value) [ none ↦ "" | some v ↦ v ]

module _ (parse_ip : String → Option IpAddr) where
  unfoldable pub add_attribute : Actor → Attribute → Result ActorError Actor
  add_attribute a x =
      let attrs' = insert x.key x a.attrs in
      let v = first_value x in
      if x.key == Key.zpr_addr
      then elim (parse_ip v) [
        | some ip ↦ ok (record a { attrs = attrs'; zpr_addr = some ip })
        | none ↦ err (invalid_ip v)
      ]
      else if x.key == Key.role
      then (if not (v == role_adapter) && not (v == role_node)
          then err (invalid_role v)
          else ok (record a { attrs = attrs' }))
      else ok (record a { attrs = attrs' })

unfoldable pub remove_attribute : Actor → String → Actor × Option Attribute
remove_attribute a k = elim (lookup k a.attrs) [
  | none ↦ (a, none)
  | some x ↦ (
    record {
      attrs = remove k a.attrs;
      zpr_addr = if k == Key.zpr_addr then none else a.zpr_addr;
      identity_keys = filter (λ j. not (j == k)) a.identity_keys;
    },
    some x,
  )
]

abbrev first_values : Actor → List String → List String
first_values a [] = []
first_values a (k ∷ ks) = elim (first_of_attr (lookup k a.attrs)) [
  | none ↦ first_values a ks
  | some v ↦ v ∷ first_values a ks
]

unfoldable pub get_identity : Actor → Option (List String)
get_identity a = if is_empty a.identity_keys then none else some (first_values a a.identity_keys)

unfoldable pub set_services : ℕ → Actor → List String → Actor
unfolding builder expires_in with_values
set_services now a services =
    let attrs' = remove Key.services a.attrs in
    if is_empty services then record a { attrs = attrs' } else record a {
      attrs =
          insert Key.services
            (with_values (expires_in now (builder now Key.services) never_expires) (sort services))
            attrs';
    }

-- `min_by_key` keeps the first of equal minima
abbrev earlier : Option (ℕ × String) → Option (ℕ × String) → Option (ℕ × String)
earlier none q = q
earlier (some p) none = some p
earlier (some p) (some q) = if leb p.0 q.0 then some p else some q

abbrev expiry_of : Actor → String → Option (ℕ × String)
expiry_of a k = elim (lookup k a.attrs) [ none ↦ none | some x ↦ some (x.expires_at, k) ]

earliest : Actor → List String → Option (ℕ × String)
earliest a [] = none
earliest a (k ∷ ks) = earlier (expiry_of a k) (earliest a ks)

unfoldable pub get_authentication_expiration_with_gate : Actor → Option (ℕ × String)
unfolding earliest
get_authentication_expiration_with_gate a =
    earliest a (Key.device_authority ∷ Key.user_authority ∷ a.identity_keys)

unfoldable pub get_authentication_expiration : Actor → Option ℕ
unfolding get_authentication_expiration_with_gate
get_authentication_expiration a = elim (get_authentication_expiration_with_gate a) [
  | none ↦ none
  | some p ↦ some p.0
]
