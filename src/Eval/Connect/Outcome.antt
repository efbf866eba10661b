-- ===== src/Eval/Connect/Outcome.antt =====
-- What `approve_connection` and `approve_connected` promise.
use zl_zpr_visaservice.Base.{
  ℕ, String, String-HasEq, ◌==◌, ◌≡◌, ◌≢◌, ◌↔◌, ◌⊎◌, refl, sym, ◌∙◌, Bool, true, false, not, ◌||◌,
  List, [], ◌∷◌, ◌++◌, Option, none, some, ok, if◌then◌else◌, arith, Bool-cases, inl, inr, contains,
  eq_iff, is_empty, lookup, Among, any, all, beq_refl, Among-filter, Among-append,
}
use zl_zpr_visaservice.IpAddr.{IpAddr}
use zl_zpr_visaservice.Attribute.{Attribute}
use zl_zpr_visaservice.Attribute.Key
use zl_zpr_visaservice.Actor.{
  Actor, is_node, provides, get_authentication_expiration, attrs_iter, services_iter,
}
use zl_zpr_visaservice.Actor.Invariant.{IsValid}
use zl_zpr_visaservice.Actor.Identity.{HasIdentity, expiration_of_identity}
use zl_zpr_visaservice.Policy.{
  Policy, match_join_policies, join_services, is_node_policy, service_ids,
}
use zl_zpr_visaservice.Policy.Services.{Grants, join_services_iff, contains-join_services}
use zl_zpr_visaservice.JoinPolicy.{JFlags, no_flags, join_flags, JPolicy}
use zl_zpr_visaservice.Eval.Connect.{
  approve_claims, approve_connection, pins, unauth_of, flags_of, covered, approve_connected,
}
use zl_zpr_visaservice.Eval.Connect.Approved.{Approved, finished, stamped}

-- the attributes that join policies are matched against
abbrev pub query : List Attribute → Option (List Attribute) → List Attribute
query auth unauth = auth ++ unauth_of unauth

flags_of-is_node :
    (f : JFlags) (jps : List JPolicy)
    → (flags_of f jps).is_node ≡ (f.is_node || any is_node_policy jps)
unfolding flags_of
flags_of-is_node f [] = ground arith
flags_of-is_node f (jp ∷ jps) = ground (arith, flags_of-is_node (join_flags f jp.flags) jps)

-- an unauthenticated claim that is used is an address
unauth-key :
    (unauth : Option (List Attribute)) (x : Attribute)
    → Among x (unauth_of unauth)
    → x.key ≡ Key.zpr_addr
unauth-key none x m = absurd (cc m.1)
unauth-key (some uc) x m =
    (eq_iff x.key Key.zpr_addr).0 (Among-filter (λ y. y.key == Key.zpr_addr) x uc m).1

module _ (parse_ip : String → Option IpAddr) (hash_of : Actor → String) where
  -- the claims that are committed to the actor
  abbrev committed : ℕ → Policy → List Attribute → Option (List Attribute) → List Attribute
  committed now p auth unauth =
      if any pins (match_join_policies now p (query auth unauth)) then query auth unauth else auth

  approved :
      (now : ℕ) (p : Policy) (auth : List Attribute) (unauth : Option (List Attribute))
      → (d : Actor) × (approve_connection parse_ip hash_of now p (some auth) unauth ≡ ok d)
        × Approved parse_ip hash_of
            (committed now p auth unauth)
            (flags_of no_flags (match_join_policies now p (query auth unauth)))
            (join_services now p (query auth unauth))
            d
  unfolding approve_connection approve_claims
  approved now p auth unauth =
      finished parse_ip hash_of now p (committed now p auth unauth)
        (flags_of no_flags (match_join_policies now p (query auth unauth)))
        (join_services now p (query auth unauth))

  answer-Approved :
      (now : ℕ) (p : Policy) (auth : List Attribute) (unauth : Option (List Attribute)) (d : Actor)
      → approve_connection parse_ip hash_of now p (some auth) unauth ≡ ok d
      → Approved parse_ip hash_of
          (committed now p auth unauth)
          (flags_of no_flags (match_join_policies now p (query auth unauth)))
          (join_services now p (query auth unauth))
          d
  answer-Approved now p auth unauth d h =
      let (c, e, is_approved) = approved now p auth unauth in
      let same : c ≡ d = ground (arith, e, h) in rw (← same) is_approved

  -- With authenticated claims, whatever they are, the connection is approved without an error or a
  -- panic; the actor is valid, each of its identity keys names an attribute it has, and its
  -- authentication has an expiration.
  pub approval_total :
      (now : ℕ) (p : Policy) (auth : List Attribute) (unauth : Option (List Attribute))
      → (d : Actor) × (approve_connection parse_ip hash_of now p (some auth) unauth ≡ ok d)
        × IsValid parse_ip d
        × HasIdentity d
        × (get_authentication_expiration d ≢ none)
  approval_total now p auth unauth =
      let (d, e, a) = approved now p auth unauth in
      (d, e, a.valid, a.identity, expiration_of_identity d a.named.0 a.identity a.named.1)

  -- The approved actor is a node exactly when some matched join policy says so, and provides exactly
  -- the services that the matched join policies name.
  pub approval_rights :
      (now : ℕ) (p : Policy) (auth : List Attribute) (unauth : Option (List Attribute)) (d : Actor)
      → approve_connection parse_ip hash_of now p (some auth) unauth ≡ ok d
      → (is_node d ≡ any is_node_policy (match_join_policies now p (query auth unauth)))
        × ((s : String) → (provides d s ≡ true) ↔ Grants now p (query auth unauth) s)
  approval_rights now p auth unauth d h =
      let a = answer-Approved now p auth unauth d h in
      let matching = match_join_policies now p (query auth unauth) in
      (
        a.node ∙ flags_of-is_node no_flags matching,
        λ s.
            let granted = join_services_iff now p (query auth unauth) s in
            (λ e. granted.0 (sym (a.served s) ∙ e), λ g. a.served s ∙ granted.1 g),
      )

  -- An attribute of the approved actor that the service does not stamp itself is one of the
  -- authenticated claims, but for `zpr.addr`: that is also taken from the unauthenticated claims if
  -- a matched join policy pins it.
  pub claims_sourced :
      (now : ℕ) (p : Policy) (auth : List Attribute) (unauth : Option (List Attribute)) (d : Actor)
      → (k : String) (x : Attribute)
      → approve_connection parse_ip hash_of now p (some auth) unauth ≡ ok d
      → stamped k ≡ false
      → lookup k d.attrs ≡ some x
      → Among x auth
        ⊎ ((k ≡ Key.zpr_addr)
            × Among x (unauth_of unauth)
            × (any pins (match_join_policies now p (query auth unauth)) ≡ true))
  claims_sourced now p auth unauth d k x h u e =
      let a = answer-Approved now p auth unauth d h in
      let m = a.claimed k x u e in
      elim (Bool-cases (any pins (match_join_policies now p (query auth unauth)))) [
        | inl pinned ↦ elim (Among-append x auth (unauth_of unauth) (rw pinned at m)) [
          | inl in_auth ↦ inl in_auth
          | inr in_unauth ↦
              inr (sym (a.valid.keyed k x e) ∙ unauth-key unauth x in_unauth, in_unauth, pinned)
        ]
        | inr free ↦ inl (rw free at m)
      ]

any-is_empty : (q : JPolicy → Bool) (jps : List JPolicy) → is_empty jps ≡ true → any q jps ≡ false
any-is_empty q [] e = refl
any-is_empty q (jp ∷ jps) e = absurd (cc e)

all-contains_out :
    (p : String → Bool) (xs : List String)
    → all p xs ≡ true
    → (s : String) → contains xs s ≡ true
    → p s ≡ true
all-contains_out p [] h s m = absurd (cc m)
all-contains_out p (x ∷ xs) h s m =
    ground (arith, eq_iff x s, all-contains_out p xs (ground (arith, h)) s)

all-contains_in :
    (p : String → Bool) (xs : List String)
    → ((s : String) → contains xs s ≡ true → p s ≡ true)
    → all p xs ≡ true
all-contains_in p [] h = refl
all-contains_in p (x ∷ xs) h =
    let here : p x ≡ true = h x (rw (beq_refl x) refl) in
    let rest = all-contains_in p xs (λ s m. h s (ground (arith, m))) in ground (arith, here, rest)

all-contains :
    (p : String → Bool) (xs : List String)
    → (all p xs ≡ true) ↔ ((s : String) → contains xs s ≡ true → p s ≡ true)
all-contains p xs = (all-contains_out p xs, all-contains_in p xs)

covered_iff :
    (now : ℕ) (p : Policy) (d : Actor)
    → (covered d (match_join_policies now p (attrs_iter d)) ≡ true) ↔ (
        (is_node d ≡ any is_node_policy (match_join_policies now p (attrs_iter d)))
        × ((s : String) → contains (services_iter d) s ≡ true → Grants now p (attrs_iter d) s))
unfolding covered
covered_iff now p d =
    let matching = match_join_policies now p (attrs_iter d) in
    let agrees : (flags_of no_flags matching).is_node ≡ any is_node_policy matching =
      flags_of-is_node no_flags matching in
    let offered = all-contains (contains (service_ids matching)) (services_iter d) in
    (
      λ h. (
        ground (arith, agrees, h),
        λ s m.
            (join_services_iff now p (attrs_iter d) s).0
              (contains-join_services now p (attrs_iter d) s ∙ offered.0 (ground (arith, h)) s m),
      ),
      λ g.
          let served = offered.1 (λ s m.
            sym (contains-join_services now p (attrs_iter d) s)
            ∙ (join_services_iff now p (attrs_iter d) s).1 (g.1 s m)) in
          ground (arith, agrees, g.0, served),
    )

-- The check of a connected actor always answers. It answers yes exactly when the actor is a node if
-- and only if a matched join policy says so, and each service it provides is named by a matched join
-- policy, unless no join policy matches at all.
pub connected_iff :
    (now : ℕ) (p : Policy) (d : Actor)
    → (b : Bool) × (approve_connected now p d ≡ ok b)
      × ((b ≡ true) ↔ (
          (is_node d ≡ any is_node_policy (match_join_policies now p (attrs_iter d)))
          × (is_empty (match_join_policies now p (attrs_iter d)) ≡ false
              → (s : String) → contains (services_iter d) s ≡ true
              → Grants now p (attrs_iter d) s)))
unfolding approve_connected
connected_iff now p d = elim (Bool-cases (is_empty (match_join_policies now p (attrs_iter d)))) [
  | inl none_match ↦
      let no_node =
        any-is_empty is_node_policy (match_join_policies now p (attrs_iter d)) none_match in
      (
        not (is_node d),
        rw none_match refl,
        (
          λ h. (ground (arith, no_node, h), λ some_match. absurd (cc some_match)),
          λ g. ground (arith, no_node, g.0),
        ),
      )
  | inr some_match ↦
      let (out, in') = covered_iff now p d in
      (
        covered d (match_join_policies now p (attrs_iter d)),
        rw some_match refl,
        (λ h. ((out h).0, λ e. (out h).1), λ g. in' (g.0, g.1 some_match)),
      )
]
