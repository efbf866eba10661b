-- ===== src/Actor/Tests.antt =====
-- Actors at concrete attributes.
use zl_zpr_visaservice.Base.{
  String, String-HasEq, ◌≡◌, ◌==◌, refl, [], ◌∷◌, Option, none, some, ok, lookup, if◌then◌else◌,
  arith, insert, eq_iff,
}
use zl_zpr_visaservice.IpAddr.{IpAddr, v6}
use zl_zpr_visaservice.Attribute.{Attribute}
use zl_zpr_visaservice.Attribute.Key
use zl_zpr_visaservice.Actor.{
  Actor, new, add_attribute, remove_attribute, add_identity_key, has_attribute_named,
  get_authentication_expiration, get_authentication_expiration_with_gate,
}
use zl_zpr_visaservice.Actor.Identity.{HasIdentity}

-- an address parser that knows one text
abbrev parse_one : String → Option IpAddr
parse_one s = if s == "fd5a::1" then some (v6 1) else none

abbrev addr : Attribute
addr = record { key = Key.zpr_addr; value = "fd5a::1" ∷ []; expires_at = 90; source = "zpr" }

abbrev user : Attribute
user = record { key = "user.id"; value = "ann" ∷ []; expires_at = 40; source = "hr" }

abbrev placed : Actor
placed = record { attrs = (Key.zpr_addr, addr) ∷ []; identity_keys = []; zpr_addr = some (v6 1) }

code : Unit {0}
unfolding add_attribute remove_attribute add_identity_key has_attribute_named lookup insert
    get_authentication_expiration get_authentication_expiration_with_gate
code = tt

addr_added : add_attribute parse_one new addr ≡ ok placed
unfolding code
addr_added = refl

abbrev named : Actor
named = record {
  attrs = ("user.id", user) ∷ (Key.zpr_addr, addr) ∷ [];
  identity_keys = "user.id" ∷ [];
  zpr_addr = some (v6 1);
}

named-HasIdentity : HasIdentity named
unfolding has_attribute_named lookup
named-HasIdentity = record { present = λ k m. ground (arith, eq_iff "user.id" k) }

expires_first : get_authentication_expiration named ≡ some 40
unfolding code
expires_first = refl
