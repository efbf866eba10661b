-- ===== src/Topology/Revalidate/Plan.antt =====
-- What the plan of a pass holds: an item for each pair, as its edge was decided.
use zl_zpr_visaservice.Base.{
  String, String-HasEq, ◌==◌, ◌≡◌, ◌⊎◌, refl, sym, ap, ◌∙◌, true, List, [], ◌∷◌, some, contains,
  arith, Bool-cases, Option-cases, inl, inr, eq_of_beq, beq_refl, Result, ok, ok-of_chain, ok_inj,
  Among, Among-head, Among-tail, Among-cons,
}
use mathlib.Core.Path.{subst}
use zl_zpr_visaservice.IpAddr.{IpAddr, IpAddr-HasEq}
use zl_zpr_visaservice.Policy.Links.{LinkDescription}
use zl_zpr_visaservice.Graph.{Pair-HasEq}
use zl_zpr_visaservice.Router.{RouterInner}
use zl_zpr_visaservice.Router.Routes.{link_between}
use zl_zpr_visaservice.Topology.{ServiceError, Edges, EdgeDecision, install, gc, decide_edge}
use zl_zpr_visaservice.Topology.Revalidate.{
  Action, keep, fresh, replace, Surviving, Removal, Plan, action_of, id_of, planned, plan_edges,
  old_ids, replaced_ids,
}

pub install_inj : (d e : LinkDescription) → install d ≡ install e → d ≡ e
install_inj d e same = cc same

module _ (describe : IpAddr → IpAddr → Result ServiceError LinkDescription) (r : RouterInner)
    (known : List IpAddr) (persisted : Edges) where
  abbrev pub Decides : IpAddr × IpAddr → EdgeDecision → Type 0
  Decides p d = decide_edge describe known p.0 p.1 ≡ ok d

  abbrev pub surviving_at : IpAddr × IpAddr → LinkDescription → Surviving
  surviving_at p desc = record {
    a = p.0;
    b = p.1;
    persisted = contains persisted p;
    desc = desc;
    action = action_of (link_between r p.0 p.1) desc;
  }

  abbrev pub removal_at : IpAddr × IpAddr → Removal
  removal_at p = record {
    a = p.0;
    b = p.1;
    persisted = contains persisted p;
    old_id = id_of (link_between r p.0 p.1);
  }

  pub record IsPlan (es : Edges) (plan : Plan) : Type 0 where
    pub survives :
        (e : Surviving)
        → Among e plan.0
        → (p : IpAddr × IpAddr) × (desc : LinkDescription) × (contains es p ≡ true)
          × Decides p (install desc)
          × (surviving_at p desc ≡ e)
    pub installed :
        (p : IpAddr × IpAddr) (desc : LinkDescription)
        → contains es p ≡ true
        → Decides p (install desc)
        → Among (surviving_at p desc) plan.0
    pub removed :
        (x : Removal)
        → Among x plan.1
        → (p : IpAddr × IpAddr) × (contains es p ≡ true) × Decides p gc × (removal_at p ≡ x)
    pub collected :
        (p : IpAddr × IpAddr) → contains es p ≡ true → Decides p gc → Among (removal_at p) plan.1
    pub decided : (p : IpAddr × IpAddr) → contains es p ≡ true → (d : EdgeDecision) × Decides p d

  planned-IsPlan :
      (p : IpAddr × IpAddr) (es : Edges) (d : EdgeDecision) (plan : Plan)
      → Decides p d
      → IsPlan es plan
      → IsPlan (p ∷ es) (planned r persisted p d plan)
  planned-IsPlan p es (install desc) plan here h = record {
    survives = λ e m. elim (Among-cons e (surviving_at p desc) plan.0 m) [
      | inl first ↦ (p, desc, rw (beq_refl p) refl, here, first)
      | inr later ↦
          let (q, d, within, decides, is_e) = h.survives e later in
          (q, d, rw within (ground arith), decides, is_e)
    ];
    installed = λ q d within decides. elim (Bool-cases (p == q)) [
      | inl same ↦
          let is_q = eq_of_beq p q same in
          let same_d : install desc ≡ install d = ok_inj (sym (rw is_q at here) ∙ decides) in
          subst (λ x. Among x (surviving_at p desc ∷ plan.0))
            (ap (λ x. surviving_at x desc) is_q ∙ ap (surviving_at q) (install_inj desc d same_d))
            (Among-head (surviving_at p desc) plan.0)
      | inr other ↦
          Among-tail (surviving_at q d) (surviving_at p desc) plan.0
            (h.installed q d (rw other at within) decides)
    ];
    removed = λ x m.
        let (q, within, decides, is_x) = h.removed x m in
        (q, rw within (ground arith), decides, is_x);
    collected = λ q within decides. elim (Bool-cases (p == q)) [
      | inl same ↦ absurd (cc (sym (rw (eq_of_beq p q same) at here) ∙ decides))
      | inr other ↦ h.collected q (rw other at within) decides
    ];
    decided = λ q within. elim (Bool-cases (p == q)) [
      | inl same ↦ (install desc, rw (eq_of_beq p q same) at here)
      | inr other ↦ h.decided q (rw other at within)
    ];
  }
  planned-IsPlan p es gc plan here h = record {
    survives = λ e m.
        let (q, d, within, decides, is_e) = h.survives e m in
        (q, d, rw within (ground arith), decides, is_e);
    installed = λ q d within decides. elim (Bool-cases (p == q)) [
      | inl same ↦ absurd (cc (sym (rw (eq_of_beq p q same) at here) ∙ decides))
      | inr other ↦ h.installed q d (rw other at within) decides
    ];
    removed = λ x m. elim (Among-cons x (removal_at p) plan.1 m) [
      | inl first ↦ (p, rw (beq_refl p) refl, here, first)
      | inr later ↦
          let (q, within, decides, is_x) = h.removed x later in
          (q, rw within (ground arith), decides, is_x)
    ];
    collected = λ q within decides. elim (Bool-cases (p == q)) [
      | inl same ↦
          subst (λ x. Among x (removal_at p ∷ plan.1)) (ap removal_at (eq_of_beq p q same))
            (Among-head (removal_at p) plan.1)
      | inr other ↦
          Among-tail (removal_at q) (removal_at p) plan.1
            (h.collected q (rw other at within) decides)
    ];
    decided = λ q within. elim (Bool-cases (p == q)) [
      | inl same ↦ (gc, rw (eq_of_beq p q same) at here)
      | inr other ↦ h.decided q (rw other at within)
    ];
  }

  pub plan_edges-IsPlan :
      (es : Edges) (plan : Plan)
      → plan_edges describe r known persisted es ≡ ok plan
      → IsPlan es plan
  unfolding plan_edges
  plan_edges-IsPlan [] plan yields = rw (← ok_inj yields) (record {
    survives = λ e (i, h). absurd (cc h);
    installed = λ p desc within. absurd (cc within);
    removed = λ x (i, h). absurd (cc h);
    collected = λ p within. absurd (cc within);
    decided = λ p within. absurd (cc within);
  })
  plan_edges-IsPlan (p ∷ es) plan yields =
      let (d, here, next) = ok-of_chain (decide_edge describe known p.0 p.1) _ yields in
      let (rest, later, made) = ok-of_chain (plan_edges describe r known persisted es) _ next in
      rw (← ok_inj made) (planned-IsPlan p es d rest here (plan_edges-IsPlan es rest later))

-- the ids that the batch removes
pub old_ids-from :
    (rs : List Removal) (id : String)
    → contains (old_ids rs) id ≡ true
    → (x : Removal) × Among x rs × (x.old_id ≡ some id)
old_ids-from [] id h = absurd (cc h)
old_ids-from (x ∷ rs) id h =
    let later : contains (old_ids rs) id ≡ true
        → (y : Removal) × Among y (x ∷ rs) × (y.old_id ≡ some id) =
      λ k. let (y, among, is_id) = old_ids-from rs id k in (y, Among-tail y x rs among, is_id) in
    elim (Option-cases x.old_id) [
      | inl no_id ↦ later (rw (old_ids, no_id) at h)
      | inr (i, is_i) ↦ elim (Bool-cases (i == id)) [
        | inl same ↦ (x, Among-head x rs, is_i ∙ ap some (eq_of_beq i id same))
        | inr other ↦ later (rw (old_ids, is_i, other) at h)
      ]
    ]

pub old_ids-to :
    (rs : List Removal) (x : Removal) (id : String)
    → Among x rs
    → x.old_id ≡ some id
    → contains (old_ids rs) id ≡ true
old_ids-to [] x id (i, h) is_id = absurd (cc h)
old_ids-to (y ∷ rs) x id m is_id = elim (Among-cons x y rs m) [
  | inl here ↦ rw (old_ids, ap (λ (z : Removal). z.old_id) here ∙ is_id, beq_refl id) refl
  | inr later ↦ elim (Option-cases y.old_id) [
    | inl no_id ↦ rw (old_ids, no_id) (old_ids-to rs x id later is_id)
    | inr (i, is_i) ↦ rw (old_ids, is_i, old_ids-to rs x id later is_id) (ground arith)
  ]
]

Action-cases : (x : Action) → (x ≡ keep) ⊎ ((x ≡ fresh) ⊎ ((id : String) × (x ≡ replace id)))
Action-cases keep = inl refl
Action-cases fresh = inr (inl refl)
Action-cases (replace id) = inr (inr (id, refl))

pub replaced_ids-from :
    (es : List Surviving) (id : String)
    → contains (replaced_ids es) id ≡ true
    → (e : Surviving) × Among e es × (e.action ≡ replace id)
replaced_ids-from [] id h = absurd (cc h)
replaced_ids-from (e ∷ es) id h =
    let later : contains (replaced_ids es) id ≡ true
        → (f : Surviving) × Among f (e ∷ es) × (f.action ≡ replace id) =
      λ k.
        let (f, among, is_id) = replaced_ids-from es id k in (f, Among-tail f e es among, is_id) in
    elim (Action-cases e.action) [
      | inl kept ↦ later (rw (replaced_ids, kept) at h)
      | inr (inl new) ↦ later (rw (replaced_ids, new) at h)
      | inr (inr (i, is_i)) ↦ elim (Bool-cases (i == id)) [
        | inl same ↦ (e, Among-head e es, is_i ∙ ap replace (eq_of_beq i id same))
        | inr other ↦ later (rw (replaced_ids, is_i, other) at h)
      ]
    ]

pub replaced_ids-to :
    (es : List Surviving) (e : Surviving) (id : String)
    → Among e es
    → e.action ≡ replace id
    → contains (replaced_ids es) id ≡ true
replaced_ids-to [] e id (i, h) is_id = absurd (cc h)
replaced_ids-to (f ∷ es) e id m is_id = elim (Among-cons e f es m) [
  | inl here ↦ rw (replaced_ids, ap (λ (z : Surviving). z.action) here ∙ is_id, beq_refl id) refl
  | inr later ↦
      let rest = replaced_ids-to es e id later is_id in
      elim (Action-cases f.action) [
        | inl kept ↦ rw (replaced_ids, kept) rest
        | inr (inl new) ↦ rw (replaced_ids, new) rest
        | inr (inr (i, is_i)) ↦ rw (replaced_ids, is_i, rest) (ground arith)
      ]
]
