-- ===== src/Topology/Revalidate/Described.antt =====
-- The answers of policy that a plan is made of.
use zl_zpr_visaservice.Base.{
  String-HasEq, ◌≡◌, ◌≢◌, ◌⊎◌, refl, sym, ap, ◌∙◌, not, ◌||◌, List, [], ◌∷◌, contains, inl, inr,
  Bool-cases, Result, ok, err, panic, ◌>>=◌, ok_inj, ℕ-HasEq,
}
use zl_zpr_visaservice.IpAddr.{IpAddr, IpAddr-HasEq, v4}
use zl_zpr_visaservice.Policy.Links.{LinkDescription}
use zl_zpr_visaservice.Graph.{
  link_exists, link_not_found, node_exists, link_to_self, node_not_found, Pair-HasEq,
}
use zl_zpr_visaservice.Router.{RouterInner}
use zl_zpr_visaservice.Topology.{
  ServiceError, topology, store, internal, Edges, describe_policy_link_either, or_reversed, fate,
  decide_edge, install, EdgeDecision,
}
use zl_zpr_visaservice.Topology.Revalidate.{plan_edges}
use zl_zpr_visaservice.Topology.Revalidate.Plan.{install_inj}

module _ (describe : IpAddr → IpAddr → Result ServiceError LinkDescription) where
  -- an answer as a decision, where no link is missing
  abbrev as_decision : Result ServiceError LinkDescription → Result ServiceError EdgeDecision
  as_decision (ok desc) = ok (install desc)
  as_decision (err e) = err e
  as_decision panic = panic

  answer-cases :
      (a b : IpAddr) (x : Result ServiceError LinkDescription)
      → (x ≡ err (topology link_not_found))
        ⊎ ((or_reversed describe a b x ≡ x) × (fate describe x ≡ as_decision x))
  answer-cases a b (ok desc) = inr (refl, refl)
  answer-cases a b (err (topology link_not_found)) = inl refl
  answer-cases a b (err (topology node_exists)) = inr (refl, refl)
  answer-cases a b (err (topology link_exists)) = inr (refl, refl)
  answer-cases a b (err (topology link_to_self)) = inr (refl, refl)
  answer-cases a b (err (topology node_not_found)) = inr (refl, refl)
  answer-cases a b (err store) = inr (refl, refl)
  answer-cases a b (err internal) = inr (refl, refl)
  answer-cases a b panic = inr (refl, refl)

  as_decision-install :
      (x : Result ServiceError LinkDescription) (desc : LinkDescription)
      → as_decision x ≡ ok (install desc)
      → x ≡ ok desc
  as_decision-install (ok d) desc same = ap ok (install_inj d desc (ok_inj same))
  as_decision-install (err e) desc same = absurd (cc same)
  as_decision-install panic desc same = absurd (cc same)

  as_decision-panic : (x : Result ServiceError LinkDescription) → as_decision x ≡ panic → x ≡ panic
  as_decision-panic (ok d) same = absurd (cc same)
  as_decision-panic (err e) same = absurd (cc same)
  as_decision-panic panic same = refl

  pub fate_install :
      (x : Result ServiceError LinkDescription) (desc : LinkDescription)
      → fate describe x ≡ ok (install desc)
      → x ≡ ok desc
  fate_install x desc same = elim (answer-cases (v4 0) (v4 0) x) [
    | inl missing ↦ absurd (cc (rw missing at same))
    | inr (_, plain) ↦ as_decision-install x desc (sym plain ∙ same)
  ]

  pub loop_described :
      (n : IpAddr) (desc : LinkDescription)
      → describe_policy_link_either describe n n ≡ ok desc
      → describe n n ≡ ok desc
  unfolding describe_policy_link_either
  loop_described n desc same = elim (answer-cases n n (describe n n)) [
    | inl missing ↦ sym (ap (or_reversed describe n n) missing) ∙ same
    | inr (plain, _) ↦ sym plain ∙ same
  ]

module _ (describe : IpAddr → IpAddr → Result ServiceError LinkDescription)
    (total : (a b : IpAddr) → describe a b ≢ panic) where
  either_total : (a b : IpAddr) → describe_policy_link_either describe a b ≢ panic
  unfolding describe_policy_link_either
  either_total a b panics = elim (answer-cases describe a b (describe a b)) [
    | inl missing ↦ total b a (sym (ap (or_reversed describe a b) missing) ∙ panics)
    | inr (plain, _) ↦ total a b (sym plain ∙ panics)
  ]

  fate_total : (x : Result ServiceError LinkDescription) → x ≢ panic → fate describe x ≢ panic
  fate_total x h panics = elim (answer-cases describe (v4 0) (v4 0) x) [
    | inl missing ↦ cc (rw missing at panics)
    | inr (_, plain) ↦ h (as_decision-panic describe x (sym plain ∙ panics))
  ]

  pub decide_edge-total :
      (known : List IpAddr) (a b : IpAddr) → decide_edge describe known a b ≢ panic
  unfolding decide_edge describe_policy_link_either
  decide_edge-total known a b same =
      elim (Bool-cases (not (contains known a) || not (contains known b))) [
        | inl missing ↦ cc (rw missing at same)
        | inr there ↦
            fate_total (describe_policy_link_either describe a b) (either_total a b)
              (rw there at same)
      ]

  planning_goes_on :
      {A B : Type 0} (x : Result ServiceError A) (f : A → Result ServiceError B)
      → x ≢ panic
      → ((a : A) → f a ≢ panic)
      → (x >>= f) ≢ panic
  planning_goes_on (ok a) f h k same = k a same
  planning_goes_on (err e) f h k same = cc same
  planning_goes_on panic f h k same = h refl

  pub plan_edges-total :
      (r : RouterInner) (known : List IpAddr) (persisted es : Edges)
      → plan_edges describe r known persisted es ≢ panic
  unfolding plan_edges
  plan_edges-total r known persisted [] same = cc same
  plan_edges-total r known persisted (p ∷ es) same =
      planning_goes_on (decide_edge describe known p.0 p.1) _ (decide_edge-total known p.0 p.1)
        (λ d.
          planning_goes_on (plan_edges describe r known persisted es) _
            (plan_edges-total r known persisted es) (λ rest panics. cc panics))
        same
