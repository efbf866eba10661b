-- ===== src/Eval/Connect/Steps.antt =====
-- The steps that build the approved actor: none of them fails, and each keeps the actor valid.
use zl_zpr_visaservice.Base.{
  ℕ, String, String-HasEq, ◌==◌, ◌≡◌, ◌⊎◌, refl, ap, ◌∙◌, true, false, List, [], ◌∷◌, Option, some,
  Result, ok, err, panic, ◌>>=◌, if◌then◌else◌, arith, Bool-cases, inl, inr, contains, is_empty,
  lookup, insert, lookup-insert, Among, Among-tail, beq_refl,
}
use zl_zpr_visaservice.IpAddr.{IpAddr}
use zl_zpr_visaservice.Attribute.{
  Attribute, role_node, role_adapter, builder, expires_in, with_value,
}
use zl_zpr_visaservice.Attribute.Key
use zl_zpr_visaservice.Actor.{
  Actor, ActorError, has_attribute_named, add_attribute, add_identity_key, first_value,
}
use zl_zpr_visaservice.Actor.Invariant.{
  IsValid, IsValid-same, add_attribute-Added, add_attribute-IsValid,
}
use zl_zpr_visaservice.Actor.Identity.{
  HasIdentity, Named, add_identity_key-Named, Named-HasIdentity,
}
use zl_zpr_visaservice.Policy.{Policy}
use zl_zpr_visaservice.JoinPolicy.{JFlags}
use zl_zpr_visaservice.Eval.Connect.{
  must, usize_max, role_attr, vinst_attr, add_claims, add_identity_keys, last_resort,
}

module _ (parse_ip : String → Option IpAddr) (hash_of : Actor → String) where
  after : Actor → Result ActorError Actor → Actor
  after actor (ok a) = a
  after actor (err e) = actor
  after actor panic = actor

  -- one claim: added, or dropped because it is invalid
  claim-IsValid :
      (a : Actor) (x : Attribute)
      → IsValid parse_ip a
      → (r : Result ActorError Actor) → add_attribute parse_ip a x ≡ r
      → IsValid parse_ip (after a r)
  unfolding after
  claim-IsValid a x v (ok b) e = add_attribute-IsValid parse_ip a b x v e
  claim-IsValid a x v (err c) e = v
  claim-IsValid a x v panic e = v

  claim-from :
      (a : Actor) (x : Attribute) (k : String) (y : Attribute) (r : Result ActorError Actor)
      → add_attribute parse_ip a x ≡ r
      → lookup k (after a r).attrs ≡ some y
      → (x ≡ y) ⊎ (lookup k a.attrs ≡ some y)
  unfolding after
  claim-from a x k y (ok b) e h =
      let d = add_attribute-Added parse_ip a b x e in
      ground (arith, d.attrs, lookup-insert x.key k x a.attrs)
  claim-from a x k y (err c) e h = inr h
  claim-from a x k y panic e h = inr h

  claim-identity :
      (a : Actor) (x : Attribute) (r : Result ActorError Actor)
      → add_attribute parse_ip a x ≡ r
      → (after a r).identity_keys ≡ a.identity_keys
  unfolding after
  claim-identity a x (ok b) e = (add_attribute-Added parse_ip a b x e).identity
  claim-identity a x (err c) e = refl
  claim-identity a x panic e = refl

  add_claims-step :
      (a : Actor) (x : Attribute) (xs : List Attribute)
      → add_claims parse_ip hash_of a (x ∷ xs)
        ≡ add_claims parse_ip hash_of (after a (add_attribute parse_ip a x)) xs
  unfolding add_claims after
  add_claims-step a x xs = ground arith

  -- The claims, valid or not, leave a valid actor.
  pub add_claims-IsValid :
      (a : Actor) (xs : List Attribute)
      → IsValid parse_ip a
      → IsValid parse_ip (add_claims parse_ip hash_of a xs)
  unfolding add_claims
  add_claims-IsValid a [] v = v
  add_claims-IsValid a (x ∷ xs) v = rw (add_claims-step a x xs) (
      add_claims-IsValid (after a (add_attribute parse_ip a x)) xs
        (claim-IsValid a x v (add_attribute parse_ip a x) refl))

  -- What stands on the actor afterwards was a claim, or stood there before.
  pub add_claims_from :
      (a : Actor) (xs : List Attribute) (k : String) (y : Attribute)
      → lookup k (add_claims parse_ip hash_of a xs).attrs ≡ some y
      → Among y xs ⊎ (lookup k a.attrs ≡ some y)
  unfolding add_claims
  add_claims_from a [] k y h = inr h
  add_claims_from a (x ∷ xs) k y h =
      elim (add_claims_from (after a (add_attribute parse_ip a x)) xs k y
        (rw (add_claims-step a x xs) at h)) [
          | inl later ↦ inl (Among-tail y x xs later)
          | inr before ↦ elim (claim-from a x k y (add_attribute parse_ip a x) refl before) [
            | inl same ↦ inl (0, ap some same)
            | inr old ↦ inr old
          ]
        ]

  -- An attribute with another key than the two that are checked is always added.
  plain_ok :
      (a : Actor) (x : Attribute)
      → (x.key == Key.zpr_addr) ≡ false
      → (x.key == Key.role) ≡ false
      → (b : Actor) × (add_attribute parse_ip a x ≡ ok b)
  unfolding add_attribute
  plain_ok a x h k = (record a { attrs = insert x.key x a.attrs }, ground arith)

  pub vinst_ok :
      (now : ℕ) (p : Policy) (a : Actor)
      → (b : Actor) × (add_attribute parse_ip a (vinst_attr now p) ≡ ok b)
  unfolding vinst_attr
  vinst_ok now p a = plain_ok a (vinst_attr now p) refl refl

  pub role_attr_value :
      (now : ℕ) (f : JFlags)
      → first_value (role_attr now f) ≡ (if f.is_node then role_node else role_adapter)
  unfolding role_attr builder expires_in with_value
  role_attr_value now f = refl

  pub vinst_attr_key : (now : ℕ) (p : Policy) → (vinst_attr now p).key ≡ Key.vinst
  unfolding vinst_attr builder expires_in with_value
  vinst_attr_key now p = refl

  pub role_attr_key : (now : ℕ) (f : JFlags) → (role_attr now f).key ≡ Key.role
  unfolding role_attr builder expires_in with_value
  role_attr_key now f = refl

  role_value_ok :
      (a : Actor) (x : Attribute)
      → x.key ≡ Key.role
      → (first_value x ≡ role_adapter) ⊎ (first_value x ≡ role_node)
      → add_attribute parse_ip a x ≡ ok (record a { attrs = insert x.key x a.attrs })
  unfolding add_attribute
  role_value_ok a x k (inl v) = rw (k, v) refl
  role_value_ok a x k (inr v) = rw (k, v) refl

  pub role_ok :
      (now : ℕ) (f : JFlags) (a : Actor)
      → (b : Actor) × (add_attribute parse_ip a (role_attr now f) ≡ ok b)
  role_ok now f a = (
    record a { attrs = insert (role_attr now f).key (role_attr now f) a.attrs },
    role_value_ok a (role_attr now f) (role_attr_key now f) (elim (Bool-cases f.is_node) [
      | inl n ↦ inr (rw (role_attr_value now f, n) refl)
      | inr n ↦ inl (rw (role_attr_value now f, n) refl)
    ]),
  )

  -- no claim is an identity key
  pub add_claims-identity :
      (a : Actor) (xs : List Attribute)
      → (add_claims parse_ip hash_of a xs).identity_keys ≡ a.identity_keys
  unfolding add_claims
  add_claims-identity a [] = refl
  add_claims-identity a (x ∷ xs) =
      ap (λ r. r.identity_keys) (add_claims-step a x xs)
      ∙ add_claims-identity (after a (add_attribute parse_ip a x)) xs
      ∙ claim-identity a x (add_attribute parse_ip a x) refl

  -- The identity keys of the policy are added without an error; they change nothing else.
  pub add_identity_keys_ok :
      (a : Actor) (ks : List String)
      → HasIdentity a
      → (c : Actor) × (add_identity_keys a ks ≡ ok c)
        × (c.attrs ≡ a.attrs)
        × (c.zpr_addr ≡ a.zpr_addr)
        × HasIdentity c
  unfolding add_identity_keys
  add_identity_keys_ok a [] h = (a, refl, refl, refl, h)
  add_identity_keys_ok a (k ∷ ks) h = elim (Bool-cases (has_attribute_named a k)) [
    | inl here ↦
        let (b, added, n) = add_identity_key-Named a usize_max k here in
        let (c, e, same, addr, i) = add_identity_keys_ok b ks (Named-HasIdentity a b k here n h) in
        (c, rw (here, added) e, same ∙ n.attrs, addr ∙ n.addr, i)
    | inr absent ↦
        let (c, e, same, addr, i) = add_identity_keys_ok a ks h in (c, rw absent e, same, addr, i)
  ]

  first_key : (ks : List String) → is_empty ks ≡ false → (k : String) × (contains ks k ≡ true)
  first_key [] e = absurd cc
  first_key (k ∷ ks) e = (k, rw (beq_refl k) refl)

  -- The last resort never fails, and leaves the actor with an identity key it has the attribute of.
  -- Only the attribute of the actor's hash can be new.
  pub record Identified (a d : Actor) : Type 0 where
    pub valid : IsValid parse_ip a → IsValid parse_ip d
    pub identity : HasIdentity a → HasIdentity d
    pub named : (k : String) × (contains d.identity_keys k ≡ true)
    pub attrs : (k : String) → (Key.actor_hash == k) ≡ false → lookup k d.attrs ≡ lookup k a.attrs

  addr_identifies :
      (a d : Actor) (k : String) → has_attribute_named a k ≡ true → Named a k d → Identified a d
  addr_identifies a d k here n = record {
    valid = λ v. IsValid-same parse_ip a d v n.attrs n.addr;
    identity = λ h. Named-HasIdentity a d k here n h;
    named = (k, rw (n.names k, beq_refl k) refl);
    attrs = λ j e. rw n.attrs refl;
  }

  added_here :
      (a b : Actor) (x : Attribute) (k : String)
      → x.key ≡ k
      → add_attribute parse_ip a x ≡ ok b
      → has_attribute_named b k ≡ true
  unfolding has_attribute_named
  added_here a b x k key e =
      let added = add_attribute-Added parse_ip a b x e in
      rw (added.attrs, lookup-insert x.key k x a.attrs, key, beq_refl k) refl

  hash_identifies :
      (a b d : Actor) (x : Attribute)
      → x.key ≡ Key.actor_hash
      → add_attribute parse_ip a x ≡ ok b
      → is_empty a.identity_keys ≡ true
      → Named b Key.actor_hash d
      → Identified a d
  hash_identifies a b d x key e none_yet n =
      let added = add_attribute-Added parse_ip a b x e in
      let here = added_here a b x Key.actor_hash key e in
      record {
        valid = λ v.
            IsValid-same parse_ip b d (add_attribute-IsValid parse_ip a b x v e) n.attrs n.addr;
        identity = λ h.
            Named-HasIdentity b d Key.actor_hash here n
              (record { present = λ j m. ground (arith, added.identity) });
        named = (Key.actor_hash, rw (n.names Key.actor_hash, beq_refl Key.actor_hash) refl);
        attrs =
            λ k other. rw (n.attrs, added.attrs, lookup-insert x.key k x a.attrs, key, other) refl;
      }

  hash_attr : ℕ → Actor → Attribute
  hash_attr now a = with_value (builder now Key.actor_hash) (hash_of a)

  hash_attr-key : (now : ℕ) (a : Actor) → (hash_attr now a).key ≡ Key.actor_hash
  unfolding hash_attr with_value builder
  hash_attr-key now a = refl

  hashed :
      (now : ℕ) (a : Actor)
      → is_empty a.identity_keys ≡ true
      → (d : Actor) × ((must (add_attribute parse_ip a (hash_attr now a))
            >>= (λ b. must (add_identity_key b usize_max Key.actor_hash)))
          ≡ ok d)
        × Identified a d
  hashed now a bare =
      let x = hash_attr now a in
      let key = hash_attr-key now a in
      let (b, added) = plain_ok a x (rw key refl) (rw key refl) in
      let (d, e, n) =
        add_identity_key-Named b usize_max Key.actor_hash
          (added_here a b x Key.actor_hash key added) in
      (d, rw (added, e) refl, hash_identifies a b d x key added bare n)

  pub last_resort_ok :
      (now : ℕ) (a : Actor)
      → (d : Actor) × (last_resort parse_ip hash_of now a ≡ ok d) × Identified a d
  unfolding last_resort hash_attr
  last_resort_ok now a = elim (Bool-cases (is_empty a.identity_keys)) [
    | inl bare ↦ elim (Bool-cases (has_attribute_named a Key.zpr_addr)) [
      | inl here ↦
          let (d, e, n) = add_identity_key-Named a usize_max Key.zpr_addr here in
          (d, rw (bare, here, e) refl, addr_identifies a d Key.zpr_addr here n)
      | inr absent ↦ let (d, e, i) = hashed now a bare in (d, rw (bare, absent) e, i)
    ]
    | inr full ↦ (
      a,
      rw full refl,
      record {
        valid = λ v. v;
        identity = λ h. h;
        named = first_key a.identity_keys full;
        attrs = λ k e. refl;
      },
    )
  ]
