-- ===== src/Policy/Services.antt =====
-- The services that join policies grant, at connect and at a refresh.
use zl_zpr_visaservice.Base.{
  ℕ, String, String-HasEq, ◌≡◌, ◌↔◌, refl, sym, ap, ◌∙◌, Bool, true, false, not, ◌&&◌, ◌||◌, List,
  [], ◌∷◌, ◌++◌, none, some, any, filter, arith, Bool-cases, Option-cases, inl, inr, contains,
  contains-to_set, Among, Among-filter, filter-Among, any-eq-true, any-get_elem?,
}
use zl_zpr_visaservice.Attribute.{Attribute}
use zl_zpr_visaservice.JoinPolicy.{JPolicy, policy_matches}
use zl_zpr_visaservice.Policy.{
  Policy, match_join_policies, service_ids, join_services, join_services_for_role, is_node_policy,
}

-- A join policy names a service.
abbrev pub names_service : String → JPolicy → Bool
names_service s jp = elim jp.services [ none ↦ false | some ss ↦ contains ss s ]

contains-append :
    (s : String) (xs ys : List String) → contains (xs ++ ys) s ≡ (contains xs s || contains ys s)
contains-append s [] ys = refl
contains-append s (x ∷ xs) ys = ground (arith, contains-append s xs ys)

contains-service_ids :
    (s : String) (jps : List JPolicy) → contains (service_ids jps) s ≡ any (names_service s) jps
unfolding service_ids
contains-service_ids s [] = refl
contains-service_ids s (jp ∷ jps) = elim (Option-cases jp.services) [
  | inl absent ↦ ground (arith, contains-service_ids s jps)
  | inr (ss, e) ↦ rw e (
      contains-append s ss (service_ids jps)
      ∙ ap (λ b. contains ss s || b) (contains-service_ids s jps))
]

-- A join policy of the policy that the attributes match, and that grants a service.
pub record Grants (now : ℕ) (p : Policy) (attrs : List Attribute) (s : String) : Type 0 where
  pub jp : JPolicy
  pub listed : Among jp p.join_policies
  pub matched : policy_matches now jp attrs ≡ true
  pub names : names_service s jp ≡ true

pub contains-join_services :
    (now : ℕ) (p : Policy) (attrs : List Attribute) (s : String)
    → contains (join_services now p attrs) s
      ≡ contains (service_ids (match_join_policies now p attrs)) s
unfolding join_services
contains-join_services now p attrs s =
    contains-to_set s (service_ids (match_join_policies now p attrs))

-- A service is granted exactly when some join policy that the attributes match names it.
pub join_services_iff :
    (now : ℕ) (p : Policy) (attrs : List Attribute) (s : String)
    → (contains (join_services now p attrs) s ≡ true) ↔ Grants now p attrs s
unfolding join_services match_join_policies
join_services_iff now p attrs s =
    let kept = filter (λ jp. policy_matches now jp attrs) p.join_policies in
    let is_granted = contains-to_set s (service_ids kept) ∙ contains-service_ids s kept in
    (
      λ h.
          let (i, jp, at_i, names) = any-eq-true (names_service s) kept (sym is_granted ∙ h) in
          let (listed, matched) = Among-filter _ jp p.join_policies (i, at_i) in
          record { jp = jp; listed = listed; matched = matched; names = names },
      λ g.
          let m =
            filter-Among (λ jp. policy_matches now jp attrs) g.jp p.join_policies g.listed
              g.matched in
          is_granted ∙ any-get_elem? (names_service s) kept m.0 g.jp m.1 g.names,
    )

not_node :
    (jps : List JPolicy) (jp : JPolicy)
    → any is_node_policy jps ≡ false
    → Among jp jps
    → jp.flags.is_node ≡ false
not_node jps jp h m = elim (Bool-cases jp.flags.is_node) [
  | inl node ↦ absurd (cc (any-get_elem? is_node_policy jps m.0 jp m.1 node))
  | inr other ↦ other
]

-- A service is restamped onto an actor with a fixed role exactly when a matched join policy names
-- it, that is no node policy unless the actor is a node; and a node has services only while it
-- matches a node policy.
pub join_services_for_role_iff :
    (now : ℕ) (p : Policy) (attrs : List Attribute) (is_node : Bool) (s : String)
    → (contains (join_services_for_role now p attrs is_node) s ≡ true) ↔ (
        (g : Grants now p attrs s) × (is_node ≡ false → g.jp.flags.is_node ≡ false)
        × (is_node ≡ true → any is_node_policy (match_join_policies now p attrs) ≡ true))
unfolding join_services_for_role match_join_policies
join_services_for_role_iff now p attrs is_node s =
    let kept = filter (λ jp. policy_matches now jp attrs) p.join_policies in
    let fit = filter (λ jp. is_node || not (is_node_policy jp)) kept in
    let is_granted = contains-to_set s (service_ids fit) ∙ contains-service_ids s fit in
    (
      λ h. elim (Bool-cases (is_node && not (any is_node_policy kept))) [
        | inl stripped ↦ absurd (cc (rw stripped at h))
        | inr serves ↦
            let (i, jp, at_i, names) =
              any-eq-true (names_service s) fit (sym is_granted ∙ rw serves at h) in
            let (m, role) = Among-filter _ jp kept (i, at_i) in
            let (listed, matched) = Among-filter _ jp p.join_policies m in
            (
              record { jp = jp; listed = listed; matched = matched; names = names },
              λ e. ground arith,
              λ e. ground arith,
            )
      ],
      λ g.
          let m =
            filter-Among (λ jp. policy_matches now jp attrs) g.0.jp p.join_policies g.0.listed
              g.0.matched in
          let m' =
            filter-Among (λ jp. is_node || not (is_node_policy jp)) g.0.jp kept m
              (ground (arith, g.1)) in
          let serves : (is_node && not (any is_node_policy kept)) ≡ false = ground (arith, g.2) in
          rw serves (is_granted ∙ any-get_elem? (names_service s) fit m'.0 g.0.jp m'.1 g.0.names),
    )
