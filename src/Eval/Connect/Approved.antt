-- ===== src/Eval/Connect/Approved.antt =====
-- The actor that `approve_connection` answers with.
use zl_zpr_visaservice.Base.{
  ℕ, String, String-HasEq, ◌==◌, ◌≡◌, refl, sym, ap, ◌∙◌, Bool, true, false, ◌||◌, List, [], head?,
  Option, some, ok, if◌then◌else◌, arith, Bool-cases, Option-cases, inl, inr, contains, lookup,
  lookup-insert, Among,
}
use zl_zpr_visaservice.IpAddr.{IpAddr}
use zl_zpr_visaservice.Attribute.{Attribute, role_node, role_adapter}
use zl_zpr_visaservice.Attribute.Key
use zl_zpr_visaservice.Actor.{
  Actor, new, first_value, add_attribute, set_services, is_node, provides, single,
}
use zl_zpr_visaservice.Actor.Invariant.{
  IsValid, IsValid-same, IsValid-new, Added, add_attribute-Added, add_attribute-IsValid,
  set_services-IsValid, lookup-set_services, identity-set_services, provides-set_services,
}
use zl_zpr_visaservice.Actor.Identity.{HasIdentity}
use zl_zpr_visaservice.Policy.{Policy, lookup_identity_keys}
use zl_zpr_visaservice.JoinPolicy.{JFlags}
use zl_zpr_visaservice.Eval.Connect.{role_attr, vinst_attr, add_claims, finish_actor}
use zl_zpr_visaservice.Eval.Connect.Steps.{
  add_claims-IsValid, add_claims_from, add_claims-identity, vinst_ok, role_ok, role_attr_key,
  vinst_attr_key, role_attr_value, add_identity_keys_ok, Identified, last_resort_ok,
}

-- a key that the visa service stamps itself
abbrev pub stamped : String → Bool
stamped k = Key.role == k || Key.services == k || Key.vinst == k || Key.actor_hash == k

module _ (parse_ip : String → Option IpAddr) (hash_of : Actor → String) where
  -- What the actor `d` is, made of the committed claims `final`.
  pub record Approved (final : List Attribute) (flags : JFlags) (services : List String) (d : Actor)
      : Type 0 where
    pub valid : IsValid parse_ip d
    pub identity : HasIdentity d
    pub named : (k : String) × (contains d.identity_keys k ≡ true)
    pub node : is_node d ≡ flags.is_node
    pub served : (s : String) → provides d s ≡ contains services s
    pub claimed :
        (k : String) (x : Attribute) → stamped k ≡ false → lookup k d.attrs ≡ some x → Among x final

  -- the actor before the identity keys
  pub record Stamped (final : List Attribute) (flags : JFlags) (services : List String) (b : Actor)
      : Type 0 where
    pub valid : IsValid parse_ip b
    pub bare : b.identity_keys ≡ []
    pub node : is_node b ≡ flags.is_node
    pub served : (s : String) → provides b s ≡ contains services s
    pub claimed :
        (k : String) (x : Attribute) → stamped k ≡ false → lookup k b.attrs ≡ some x → Among x final

  node_of :
      (b : Actor) (x : Attribute) (n : Bool)
      → lookup Key.role b.attrs ≡ some x
      → first_value x ≡ (if n then role_node else role_adapter)
      → is_node b ≡ n
  unfolding is_node single
  node_of b x n h v = elim (Option-cases (head? x.value)) [
    | inl absent ↦ elim (Bool-cases n) [ inl t ↦ absurd (cc) | inr f ↦ rw (h, absent, f) refl ]
    | inr (w, e) ↦
        let fv : first_value x ≡ w = rw (first_value, e) refl in
        elim (Bool-cases n) [
          | inl t ↦ let named : w ≡ role_node = sym fv ∙ rw t at v in rw (h, e, named, t) refl
          | inr f ↦ let named : w ≡ role_adapter = sym fv ∙ rw f at v in rw (h, e, named, f) refl
        ]
  ]

  same_node :
      (a b : Actor) → lookup Key.role b.attrs ≡ lookup Key.role a.attrs → is_node b ≡ is_node a
  unfolding is_node single
  same_node a b h = rw h refl

  served_of :
      (a b : Actor) (s : String)
      → lookup Key.services b.attrs ≡ lookup Key.services a.attrs
      → provides b s ≡ provides a s
  unfolding provides
  served_of a b s h = rw h refl

  -- below each key but that of the services
  looked :
      (now : ℕ) (c a b : Actor) (x y : Attribute) (services : List String) (k : String)
      → Added parse_ip c x a
      → Added parse_ip (set_services now a services) y b
      → (y.key == k) ≡ false
      → lookup k b.attrs ≡ lookup k (set_services now a services).attrs
  looked now c a b x y services k da db other =
      rw (db.attrs, lookup-insert y.key k y (set_services now a services).attrs, other) refl

  below_role :
      (c a : Actor) (x : Attribute) (k : String)
      → Added parse_ip c x a
      → x.key ≡ Key.role
      → stamped k ≡ false
      → lookup k a.attrs ≡ lookup k c.attrs
  below_role c a x k d key u =
      let other : (Key.role == k) ≡ false = ground (arith, u) in
      rw (d.attrs, lookup-insert x.key k x c.attrs, key, other) refl

  claim_of :
      (final : List Attribute) (k : String) (x : Attribute)
      → lookup k (add_claims parse_ip hash_of new final).attrs ≡ some x
      → Among x final
  unfolding lookup
  claim_of final k x e = elim (add_claims_from parse_ip hash_of new final k x e) [
    | inl m ↦ m
    | inr before ↦ absurd (cc before)
  ]

  stamps :
      (now : ℕ) (p : Policy) (final : List Attribute) (flags : JFlags) (services : List String)
      → (a b : Actor)
      → add_attribute parse_ip (add_claims parse_ip hash_of new final) (role_attr now flags) ≡ ok a
      → add_attribute parse_ip (set_services now a services) (vinst_attr now p) ≡ ok b
      → Stamped final flags services b
  stamps now p final flags services a b ea eb =
      let c = add_claims parse_ip hash_of new final in
      let s = set_services now a services in
      let va =
        add_attribute-IsValid parse_ip c a (role_attr now flags)
          (add_claims-IsValid parse_ip hash_of new final (IsValid-new parse_ip)) ea in
      let da = add_attribute-Added parse_ip c a (role_attr now flags) ea in
      let db = add_attribute-Added parse_ip s b (vinst_attr now p) eb in
      let kv = vinst_attr_key parse_ip hash_of now p in
      let kr = role_attr_key parse_ip hash_of now flags in
      let past_vinst : (k : String)
          → (Key.vinst == k) ≡ false
          → lookup k b.attrs ≡ lookup k s.attrs =
        λ k other.
          looked now c a b (role_attr now flags) (vinst_attr now p) services k da db
            (rw kv other) in
      let at_role : lookup Key.role b.attrs ≡ some (role_attr now flags) =
        past_vinst Key.role refl
        ∙ lookup-set_services now a services Key.role refl
        ∙ rw
            (
              da.attrs,
              lookup-insert (role_attr now flags).key Key.role (role_attr now flags) c.attrs,
              kr,
            )
            refl in
      record {
        valid =
            add_attribute-IsValid parse_ip s b (vinst_attr now p)
              (set_services-IsValid parse_ip now a services va) eb;
        bare =
            db.identity
            ∙ identity-set_services now a services
            ∙ da.identity
            ∙ add_claims-identity parse_ip hash_of new final;
        node =
            node_of b (role_attr now flags) flags.is_node at_role
              (role_attr_value parse_ip hash_of now flags);
        served = λ t.
            served_of s b t (past_vinst Key.services refl) ∙ provides-set_services now a services t;
        claimed = λ k x u e. claim_of final k x (
            sym (below_role c a (role_attr now flags) k da kr u)
            ∙ sym (lookup-set_services now a services k (ground (arith, u)))
            ∙ sym (past_vinst k (ground (arith, u)))
            ∙ e);
      }

  -- The identity keys and the last resort turn it into an approved actor.
  approves :
      (final : List Attribute) (flags : JFlags) (services : List String) (b c d : Actor)
      → Stamped final flags services b
      → c.attrs ≡ b.attrs
      → c.zpr_addr ≡ b.zpr_addr
      → HasIdentity c
      → Identified parse_ip hash_of c d
      → Approved final flags services d
  approves final flags services b c d sb same addr h i =
      let at : (k : String) → (Key.actor_hash == k) ≡ false → lookup k d.attrs ≡ lookup k b.attrs =
        λ k other. i.attrs k other ∙ ap (lookup k) same in
      record {
        valid = i.valid (IsValid-same parse_ip b c sb.valid same addr);
        identity = i.identity h;
        named = i.named;
        node = same_node b d (at Key.role refl) ∙ sb.node;
        served = λ t. served_of b d t (at Key.services refl) ∙ sb.served t;
        claimed = λ k x u e. sb.claimed k x u (sym (at k (ground (arith, u))) ∙ e);
      }

  pub finished :
      (now : ℕ) (p : Policy) (final : List Attribute) (flags : JFlags) (services : List String)
      → (d : Actor) × (finish_actor parse_ip hash_of now p final flags services ≡ ok d)
        × Approved final flags services d
  unfolding finish_actor
  finished now p final flags services =
      let (a, ea) = role_ok parse_ip hash_of now flags (add_claims parse_ip hash_of new final) in
      let (b, eb) = vinst_ok parse_ip hash_of now p (set_services now a services) in
      let sb = stamps now p final flags services a b ea eb in
      let (c, ec, same, addr, h) =
        add_identity_keys_ok parse_ip hash_of b (lookup_identity_keys p)
          (record { present = λ k m. absurd (cc (rw sb.bare at m)) }) in
      let (d, ed, i) = last_resort_ok parse_ip hash_of now c in
      (d, rw (ea, eb, ec) ed, approves final flags services b c d sb same addr h i)
