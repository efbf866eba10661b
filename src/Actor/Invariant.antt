-- ===== src/Actor/Invariant.antt =====
-- What holds of an actor between two calls: its map has one attribute to a key, the cached address
-- is that of its `zpr.addr`, its role is one of the two, and its identity keys are present.
use zl_zpr_visaservice.Base.{
  ℕ, String, String-HasEq, ◌==◌, ◌≡◌, ◌≢◌, ◌⊎◌, refl, sym, ◌∙◌, true, false, List, Option, none,
  some, ok, if◌then◌else◌, arith, Bool-cases, inl, inr, contains, eq_iff, is_empty, lookup, insert,
  remove, lookup-insert, lookup-remove, NoDupKeys, insert-NoDupKeys, remove-NoDupKeys,
  contains-sort, sort,
}
use zl_zpr_visaservice.IpAddr.{IpAddr}
use zl_zpr_visaservice.Attribute.{
  Attribute, role_node, role_adapter, builder, expires_in, with_values, never_expires, value_has,
}
use zl_zpr_visaservice.Attribute.Key
use zl_zpr_visaservice.Actor.{Actor, new, add_attribute, set_services, provides, first_value}

-- What `set_services` leaves under each key.
pub lookup-set_services :
    (now : ℕ) (a : Actor) (services : List String) (k : String)
    → (Key.services == k) ≡ false
    → lookup k (set_services now a services).attrs ≡ lookup k a.attrs
unfolding set_services
lookup-set_services now a services k other = ground (
  arith,
  lookup-remove Key.services k a.attrs,
  lookup-insert Key.services k
      (with_values (expires_in now (builder now Key.services) never_expires) (sort services))
      (remove Key.services a.attrs),
)

zpr_addr-set_services :
    (now : ℕ) (a : Actor) (services : List String)
    → (set_services now a services).zpr_addr ≡ a.zpr_addr
unfolding set_services
zpr_addr-set_services now a services = ground arith

pub identity-set_services :
    (now : ℕ) (a : Actor) (services : List String)
    → (set_services now a services).identity_keys ≡ a.identity_keys
unfolding set_services
identity-set_services now a services = ground arith

-- what stands under the services key afterwards
services-set_services :
    (now : ℕ) (a : Actor) (services : List String)
    → lookup Key.services (set_services now a services).attrs ≡ (
        if is_empty services
        then none
        else some
            (with_values (expires_in now (builder now Key.services) never_expires) (sort services)))
unfolding set_services
services-set_services now a services = ground (
  arith,
  lookup-remove Key.services Key.services a.attrs,
  lookup-insert Key.services Key.services
      (with_values (expires_in now (builder now Key.services) never_expires) (sort services))
      (remove Key.services a.attrs),
)

services_key :
    (now : ℕ) (services : List String)
    → (with_values (expires_in now (builder now Key.services) never_expires) (sort services)).key
      ≡ Key.services
unfolding with_values expires_in builder
services_key now services = refl

set_services_keyed :
    (now : ℕ) (a : Actor) (services : List String)
    → ((k : String) (x : Attribute) → lookup k a.attrs ≡ some x → x.key ≡ k)
    → (k : String) (x : Attribute) → lookup k (set_services now a services).attrs ≡ some x
    → x.key ≡ k
set_services_keyed now a services keyed k x e = elim (Bool-cases (Key.services == k)) [
  | inl same ↦
      let is_k = (eq_iff Key.services k).0 same in
      ground
        (arith, rw (← is_k) at e, services-set_services now a services, services_key now services)
  | inr other ↦ keyed k x (sym (lookup-set_services now a services k other) ∙ e)
]

-- After `set_services` the actor provides exactly the services that were given, sorted or not.
pub provides-set_services :
    (now : ℕ) (a : Actor) (services : List String) (s : String)
    → provides (set_services now a services) s ≡ contains services s
unfolding provides value_has with_values
provides-set_services now a services s =
    ground (arith, services-set_services now a services, contains-sort s services)

set_services-NoDupKeys :
    (now : ℕ) (a : Actor) (services : List String)
    → NoDupKeys a.attrs
    → NoDupKeys (set_services now a services).attrs
unfolding set_services
set_services-NoDupKeys now a services d =
    let cleared = remove-NoDupKeys Key.services a.attrs d in
    elim (Bool-cases (is_empty services)) [
      | inl e ↦ rw e cleared
      | inr e ↦ rw e (insert-NoDupKeys Key.services _ (remove Key.services a.attrs) cleared)
    ]

module _ (parse_ip : String → Option IpAddr) where
  -- the address that an optional `zpr.addr` attribute stands for
  abbrev pub addr_of : Option Attribute → Option IpAddr
  addr_of none = none
  addr_of (some x) = parse_ip (first_value x)

  pub record IsValid (a : Actor) : Type 0 where
    pub distinct : NoDupKeys a.attrs
    pub keyed : (k : String) (x : Attribute) → lookup k a.attrs ≡ some x → x.key ≡ k
    pub addr : a.zpr_addr ≡ addr_of (lookup Key.zpr_addr a.attrs)
    pub parsed :
        (x : Attribute) → lookup Key.zpr_addr a.attrs ≡ some x → parse_ip (first_value x) ≢ none
    pub role :
        (x : Attribute)
        → lookup Key.role a.attrs ≡ some x
        → (first_value x ≡ role_adapter) ⊎ (first_value x ≡ role_node)

  pub IsValid-new : IsValid new
  unfolding lookup
  IsValid-new = record {
    distinct = tt;
    keyed = λ k x h. cc;
    addr = refl;
    parsed = λ x h. cc;
    role = λ x h. cc;
  }

  -- What a call that adds an attribute has done.
  pub record Added (a : Actor) (x : Attribute) (b : Actor) : Type 0 where
    pub attrs : b.attrs ≡ insert x.key x a.attrs
    pub identity : b.identity_keys ≡ a.identity_keys
    pub new_addr :
        (x.key == Key.zpr_addr) ≡ true
        → (b.zpr_addr ≡ parse_ip (first_value x)) × (parse_ip (first_value x) ≢ none)
    pub old_addr : (x.key == Key.zpr_addr) ≡ false → b.zpr_addr ≡ a.zpr_addr
    pub new_role :
        (x.key == Key.role) ≡ true → (first_value x ≡ role_adapter) ⊎ (first_value x ≡ role_node)

  pub add_attribute-Added :
      (a b : Actor) (x : Attribute) → add_attribute parse_ip a x ≡ ok b → Added a x b
  unfolding add_attribute
  add_attribute-Added a b x h = record {
    attrs = ground arith;
    identity = ground arith;
    new_addr = λ e. (ground arith, ground arith);
    old_addr = λ e. ground arith;
    new_role = λ e. ground (
      arith,
      eq_iff x.key Key.zpr_addr,
      eq_iff x.key Key.role,
      eq_iff Key.zpr_addr Key.role,
      eq_iff (first_value x) role_adapter,
      eq_iff (first_value x) role_node,
    );
  }

  Added-lookup :
      (a b : Actor) (x : Attribute) (k : String)
      → Added a x b
      → lookup k b.attrs ≡ (if x.key == k then some x else lookup k a.attrs)
  Added-lookup a b x k d = rw d.attrs (lookup-insert x.key k x a.attrs)

  Added-IsValid : (a b : Actor) (x : Attribute) → IsValid a → Added a x b → IsValid b
  Added-IsValid a b x v d =
      let at_addr = Added-lookup a b x Key.zpr_addr d in
      let at_role = Added-lookup a b x Key.role d in
      record {
        distinct = rw d.attrs (insert-NoDupKeys x.key x a.attrs v.distinct);
        keyed = λ k y e. ground (arith, Added-lookup a b x k d, v.keyed k y, eq_iff x.key k);
        addr = ground (arith, at_addr, v.addr, d.new_addr, d.old_addr);
        parsed = λ y e n. ground (arith, at_addr, v.parsed y, d.new_addr);
        role = λ y e. ground (arith, at_role, v.role y, d.new_role);
      }

  -- A valid actor is valid again after an attribute is added, or replaces one, without an error.
  pub add_attribute-IsValid :
      (a b : Actor) (x : Attribute) → IsValid a → add_attribute parse_ip a x ≡ ok b → IsValid b
  add_attribute-IsValid a b x v h = Added-IsValid a b x v (add_attribute-Added a b x h)

  -- Validity is about the attributes and the cached address only.
  pub IsValid-same :
      (a b : Actor) → IsValid a → b.attrs ≡ a.attrs → b.zpr_addr ≡ a.zpr_addr → IsValid b
  IsValid-same a b v same addr = record {
    distinct = rw same v.distinct;
    keyed = rw same v.keyed;
    addr = rw (same, addr) v.addr;
    parsed = rw same v.parsed;
    role = rw same v.role;
  }

  -- A valid actor is valid again after its services are set.
  pub set_services-IsValid :
      (now : ℕ) (a : Actor) (services : List String)
      → IsValid a
      → IsValid (set_services now a services)
  set_services-IsValid now a services v =
      let at_addr = lookup-set_services now a services Key.zpr_addr refl in
      let at_role = lookup-set_services now a services Key.role refl in
      record {
        distinct = set_services-NoDupKeys now a services v.distinct;
        keyed = λ k x e. set_services_keyed now a services v.keyed k x e;
        addr = zpr_addr-set_services now a services ∙ rw at_addr v.addr;
        parsed = λ x e. v.parsed x (sym at_addr ∙ e);
        role = λ x e. v.role x (sym at_role ∙ e);
      }
