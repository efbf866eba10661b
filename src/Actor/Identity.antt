-- ===== src/Actor/Identity.antt =====
-- The identity keys of an actor, and when its authentication expires.
use zl_zpr_visaservice.Base.{
  ℕ, zero, suc, ◌≤◌, String, String-HasEq, ◌==◌, ◌≡◌, ◌≢◌, refl, true, not, ◌&&◌, ◌||◌, List, [],
  ◌∷◌, ◌++◌, none, some, ok, arith, Bool-cases, Option-cases, inl, inr, contains, eq_iff, lookup,
  leb, length, beq_refl, filter,
}
use zl_zpr_visaservice.Attribute.{Attribute}
use zl_zpr_visaservice.Attribute.Key
use zl_zpr_visaservice.Actor.{
  Actor, has_attribute_named, add_identity_key, insert_at, earliest, get_authentication_expiration,
  get_authentication_expiration_with_gate,
}

-- Every identity key names an attribute that the actor has.
pub record HasIdentity (a : Actor) : Type 0 where
  pub present : (k : String) → contains a.identity_keys k ≡ true → has_attribute_named a k ≡ true

contains-snoc :
    (k j : String) (ks : List String) → contains (ks ++ (k ∷ [])) j ≡ (k == j || contains ks j)
contains-snoc k j [] = refl
contains-snoc k j (x ∷ ks) = ground (arith, contains-snoc k j ks)

contains-insert_at :
    (i : ℕ) (k j : String) (ks : List String)
    → contains (insert_at i k ks) j ≡ (k == j || contains ks j)
unfolding insert_at
contains-insert_at zero k j ks = refl
contains-insert_at (suc i) k j [] = refl
contains-insert_at (suc i) k j (x ∷ ks) = ground (arith, contains-insert_at i k j ks)

-- What a call that adds an identity key has done.
pub record Named (a : Actor) (k : String) (b : Actor) : Type 0 where
  pub attrs : b.attrs ≡ a.attrs
  pub addr : b.zpr_addr ≡ a.zpr_addr
  pub names : (j : String) → contains b.identity_keys j ≡ (k == j || contains a.identity_keys j)

-- An identity key that the actor has the attribute of is added without an error, at whatever place
-- the key is put; the attributes and the address stay, and the key joins those there were.
pub add_identity_key-Named :
    (a : Actor) (order : ℕ) (k : String)
    → has_attribute_named a k ≡ true
    → (b : Actor) × (add_identity_key a order k ≡ ok b) × Named a k b
unfolding add_identity_key
add_identity_key-Named a order k h = elim (Bool-cases (leb (length a.identity_keys) order)) [
  | inl last ↦ (
    record a { identity_keys = a.identity_keys ++ (k ∷ []) },
    rw (h, last),
    record { attrs = refl; addr = refl; names = λ j. contains-snoc k j a.identity_keys },
  )
  | inr inside ↦ (
    record a { identity_keys = insert_at order k a.identity_keys },
    rw (h, inside),
    record { attrs = refl; addr = refl; names = λ j. contains-insert_at order k j a.identity_keys },
  )
]

pub Named-HasIdentity :
    (a b : Actor) (k : String)
    → has_attribute_named a k ≡ true
    → Named a k b
    → HasIdentity a
    → HasIdentity b
unfolding has_attribute_named
Named-HasIdentity a b k here n h = record {
  present = λ j e. ground (arith, n.attrs, n.names j, eq_iff k j, h.present j);
}

-- The removal of an attribute takes its key out of the identity too.
contains-filter_ne :
    (k j : String) (ks : List String)
    → contains (filter (λ i. not (i == k)) ks) j ≡ (not (k == j) && contains ks j)
contains-filter_ne k j [] = ground arith
contains-filter_ne k j (x ∷ ks) =
    ground (arith, eq_iff x k, eq_iff x j, eq_iff k j, contains-filter_ne k j ks)

-- The keys that gate authentication.
abbrev pub gates : Actor → List String
gates a = Key.device_authority ∷ Key.user_authority ∷ a.identity_keys

earliest-none :
    (a : Actor) (ks : List String) (k : String)
    → earliest a ks ≡ none
    → contains ks k ≡ true
    → lookup k a.attrs ≡ none
unfolding earliest
earliest-none a [] k h m = cc
earliest-none a (j ∷ ks) k h m = ground (arith, eq_iff j k, earliest-none a ks k)

-- `gate` is one of the keys, its attribute expires at `t`, and none under the keys expires before.
pub record Soonest (a : Actor) (ks : List String) (t : ℕ) (gate : String) : Type 0 where
  pub attr : Attribute
  pub gated : contains ks gate ≡ true
  pub held : lookup gate a.attrs ≡ some attr
  pub expiry : attr.expires_at ≡ t
  pub soonest :
      (k : String) (x : Attribute)
      → contains ks k ≡ true
      → lookup k a.attrs ≡ some x
      → t ≤ x.expires_at

Soonest-skip :
    (a : Actor) (ks : List String) (t : ℕ) (gate j : String)
    → ((x : Attribute) → lookup j a.attrs ≡ some x → t ≤ x.expires_at)
    → Soonest a ks t gate
    → Soonest a (j ∷ ks) t gate
Soonest-skip a ks t gate j later s = record {
  attr = s.attr;
  gated = ground (arith, s.gated);
  held = s.held;
  expiry = s.expiry;
  soonest = λ k x m e. elim (Bool-cases (j == k)) [
    | inl same ↦ later x (rw ((eq_iff j k).0 same) e)
    | inr other ↦ s.soonest k x (rw other at m) e
  ];
}

Soonest-here :
    (a : Actor) (ks : List String) (j : String) (x : Attribute)
    → lookup j a.attrs ≡ some x
    → ((k : String) (y : Attribute)
        → contains ks k ≡ true
        → lookup k a.attrs ≡ some y
        → x.expires_at ≤ y.expires_at)
    → Soonest a (j ∷ ks) x.expires_at j
Soonest-here a ks j x here later = record {
  attr = x;
  gated = ground (arith, beq_refl j);
  held = here;
  expiry = refl;
  soonest = λ k y m e. elim (Bool-cases (j == k)) [
    | inl same ↦ ground (arith, here, rw (← (eq_iff j k).0 same) at e)
    | inr other ↦ later k y (rw other at m) e
  ];
}

earliest-Soonest :
    (a : Actor) (ks : List String) (t : ℕ) (gate : String)
    → earliest a ks ≡ some (t, gate)
    → Soonest a ks t gate
unfolding earliest
earliest-Soonest a [] t gate h = absurd (cc)
earliest-Soonest a (j ∷ ks) t gate h = elim (Option-cases (lookup j a.attrs)) [
  | inl absent ↦
      Soonest-skip a ks t gate j (λ x e. absurd (cc)) (earliest-Soonest a ks t gate (ground arith))
  | inr (x, here) ↦ elim (Option-cases (earliest a ks)) [
    | inl last ↦
        let time : x.expires_at ≡ t = ground arith in
        let name : j ≡ gate = ground arith in
        rw (← time, ← name)
          (Soonest-here a ks j x here (λ k y m e. absurd (cc (earliest-none a ks k last m))))
    | inr ((t', gate'), rest) ↦
        let later = earliest-Soonest a ks t' gate' rest in
        elim (Bool-cases (leb x.expires_at t')) [
          | inl first ↦
              let time : x.expires_at ≡ t = ground arith in
              let name : j ≡ gate = ground arith in
              rw (← time, ← name)
                (Soonest-here a ks j x here (λ k y m e. ground (arith, later.soonest k y m e)))
          | inr after ↦
              let time : t' ≡ t = ground arith in
              let name : gate' ≡ gate = ground arith in
              rw (← time, ← name) (Soonest-skip a ks t' gate' j (λ y e. ground arith) later)
        ]
  ]
]

-- The authentication of an actor expires with the first of its authority and identity attributes to
-- do so, which is named as the gate; it has no expiration exactly when it has none of them.
auth_expiration :
    (a : Actor)
    → ((t : ℕ) (gate : String)
        → get_authentication_expiration_with_gate a ≡ some (t, gate)
        → Soonest a (gates a) t gate)
      × (get_authentication_expiration_with_gate a ≡ none
          → (k : String) → contains (gates a) k ≡ true
          → lookup k a.attrs ≡ none)
unfolding get_authentication_expiration_with_gate
auth_expiration a =
    (λ t gate h. earliest-Soonest a (gates a) t gate h, λ h k m. earliest-none a (gates a) k h m)

-- An actor with an identity key, and with the attributes of all its identity keys, has an
-- authentication expiration.
pub expiration_of_identity :
    (a : Actor) (k : String)
    → HasIdentity a
    → contains a.identity_keys k ≡ true
    → get_authentication_expiration a ≢ none
unfolding get_authentication_expiration has_attribute_named
expiration_of_identity a k h m e =
    let quiet : get_authentication_expiration_with_gate a ≡ none = ground arith in
    absurd (cc (h.present k m, (auth_expiration a).1 quiet k (ground (arith, m))))
