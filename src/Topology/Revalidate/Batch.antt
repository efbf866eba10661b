-- ===== src/Topology/Revalidate/Batch.antt =====
-- A batch whose additions all have new ids is carried out.
use zl_zpr_visaservice.Base.{
  String, String-HasEq, ◌==◌, ◌≡◌, ◌≢◌, ◌⊎◌, refl, sym, ap, ◌∙◌, Bool, true, false, ◌&&◌, List, [],
  ◌∷◌, Option, none, some, if◌then◌else◌, lookup, contains, arith, Bool-cases, inl, inr, eq_of_beq,
  beq_refl, eq_iff, ok, Among, Among-head, Among-tail, Among-cons,
}
use zl_zpr_visaservice.IpAddr.{IpAddr-HasEq}
use zl_zpr_visaservice.Graph.{Graph, Link, has_node}
use zl_zpr_visaservice.Graph.Change.Current.{IsCurrent}
use zl_zpr_visaservice.Graph.Change.Added.{add_link_lem}
use zl_zpr_visaservice.Router.{add_each}
use zl_zpr_visaservice.Topology.Revalidate.{
  Action, keep, fresh, replace, Surviving, spec_of, additions, collision,
}

abbrev pub changes_router : Action → Bool
changes_router keep = false
changes_router fresh = true
changes_router (replace id) = true

-- the link of an edge as policy describes it
abbrev pub link_of : Surviving → Link
link_of e = record { a = e.a; b = e.b; attributes = e.desc.attrs; cost = e.desc.cost }

-- what the additions put under an id
abbrev pub added_link : List Surviving → String → Option Link → Option Link
added_link [] i before = before
added_link (e ∷ es) i before =
    if changes_router e.action && e.desc.link_id == i
    then some (link_of e)
    else added_link es i before

-- an edge that the router can take
pub record CanAdd (g : Graph) (e : Surviving) : Type 0 where
  pub apart : (e.a == e.b) ≡ false
  pub node_a : has_node g e.a ≡ true
  pub node_b : has_node g e.b ≡ true
  pub free : lookup e.desc.link_id g.edges ≡ none

abbrev pub AllCanAdd : Graph → List Surviving → Type 0
AllCanAdd g es = (e : Surviving) → Among e es → changes_router e.action ≡ true → CanAdd g e

-- an id that has been claimed is not that of a later edge
pub collision-fresh :
    (claimed : List String) (es : List Surviving)
    → collision claimed es ≡ none
    → (e : Surviving) → Among e es
    → contains claimed e.desc.link_id ≡ false
collision-fresh claimed [] apart e (i, h) = absurd (cc h)
collision-fresh claimed (x ∷ es) apart e m = elim (Bool-cases (contains claimed x.desc.link_id)) [
  | inl taken ↦ absurd (cc (rw taken at apart))
  | inr new ↦ elim (Among-cons e x es m) [
    | inl here ↦ rw (← here) new
    | inr later ↦
        let rest = collision-fresh (x.desc.link_id ∷ claimed) es (rw new at apart) e later in
        ground (arith, rest)
  ]
]

pub collision-tail :
    (claimed : List String) (x : Surviving) (es : List Surviving)
    → collision claimed (x ∷ es) ≡ none
    → collision (x.desc.link_id ∷ claimed) es ≡ none
collision-tail claimed x es apart = elim (Bool-cases (contains claimed x.desc.link_id)) [
  | inl taken ↦ absurd (cc (rw taken at apart))
  | inr new ↦ rw new at apart
]

-- the first id is not that of a later edge
head-apart :
    (claimed : List String) (x : Surviving) (es : List Surviving)
    → collision claimed (x ∷ es) ≡ none
    → (e : Surviving) → Among e es
    → (x.desc.link_id == e.desc.link_id) ≡ false
head-apart claimed x es apart e m =
    ground
      (arith, collision-fresh (x.desc.link_id ∷ claimed) es (collision-tail claimed x es apart) e m)

pub same_edge :
    (claimed : List String) (es : List Surviving)
    → collision claimed es ≡ none
    → (e f : Surviving) → Among e es
    → Among f es
    → e.desc.link_id ≡ f.desc.link_id
    → e ≡ f
same_edge claimed [] apart e f (i, h) n same = absurd (cc h)
same_edge claimed (x ∷ es) apart e f m n same = elim (Among-cons e x es m) [
  | inl e_here ↦ elim (Among-cons f x es n) [
    | inl f_here ↦ sym e_here ∙ f_here
    | inr f_later ↦ absurd (
        cc (
          sym (head-apart claimed x es apart f f_later)
          ∙ ap (λ y. x.desc.link_id == y)
              (sym same ∙ ap (λ (s : Surviving). s.desc.link_id) (sym e_here))
          ∙ beq_refl x.desc.link_id))
  ]
  | inr e_later ↦ elim (Among-cons f x es n) [
    | inl f_here ↦ absurd (
        cc (
          sym (head-apart claimed x es apart e e_later)
          ∙ ap (λ y. x.desc.link_id == y)
              (same ∙ ap (λ (s : Surviving). s.desc.link_id) (sym f_here))
          ∙ beq_refl x.desc.link_id))
    | inr f_later ↦
        same_edge (x.desc.link_id ∷ claimed) es (collision-tail claimed x es apart) e f e_later
          f_later same
  ]
]

and_false : (b : Bool) → (b && false) ≡ false
and_false b = ground arith

additions-cons :
    (e : Surviving) (es : List Surviving)
    → additions (e ∷ es)
      ≡ (if changes_router e.action then spec_of e ∷ additions es else additions es)
additions-cons e es = by_action e.action refl
  where
    by_action :
        (x : Action)
        → e.action ≡ x
        → additions (e ∷ es) ≡ (if changes_router x then spec_of e ∷ additions es else additions es)
    by_action keep same = rw same refl
    by_action fresh same = rw same refl
    by_action (replace id) same = rw same refl

apart_comm : (s t : String) → (s == t) ≡ false → (t == s) ≡ false
apart_comm s t other = ground (arith, eq_iff s t, eq_iff t s)

added_link-absent :
    (es : List Surviving) (i : String) (before : Option Link)
    → ((f : Surviving) → Among f es → (f.desc.link_id == i) ≡ false)
    → added_link es i before ≡ before
added_link-absent [] i before absent = refl
added_link-absent (e ∷ es) i before absent =
    rw (absent e (Among-head e es), and_false (changes_router e.action))
      (added_link-absent es i before (λ f m. absent f (Among-tail f e es m)))

-- the addition that an id stands for, if there is one
pub added_link-cases :
    (es : List Surviving) (i : String) (before : Option Link)
    → ((e : Surviving) × Among e es
        × (changes_router e.action ≡ true)
        × (e.desc.link_id ≡ i)
        × (added_link es i before ≡ some (link_of e)))
      ⊎ (((e : Surviving) → Among e es → changes_router e.action ≡ true → e.desc.link_id ≢ i)
          × (added_link es i before ≡ before))
added_link-cases [] i before = inr ((λ e (k, h). absurd (cc h)), refl)
added_link-cases (e ∷ es) i before =
    elim (Bool-cases (changes_router e.action && e.desc.link_id == i)) [
      | inl here ↦
          let same : (e.desc.link_id == i) ≡ true = ground (arith, here) in
          inl (
            e,
            Among-head e es,
            ground (arith, here),
            eq_of_beq e.desc.link_id i same,
            rw here refl,
          )
      | inr other ↦ elim (added_link-cases es i before) [
        | inl (f, m, changed, is_i, yields) ↦
            inl (f, Among-tail f e es m, changed, is_i, rw other yields)
        | inr (absent, yields) ↦ inr (
          λ f m changed is_i. elim (Among-cons f e es m) [
            | inl first ↦ cc (
                sym (
                  rw
                    (
                      ap (λ (x : Surviving). x.action) first,
                      changed,
                      ap (λ (x : Surviving). x.desc.link_id) first,
                      is_i,
                      beq_refl i,
                    )
                    at other))
            | inr later ↦ absent f later changed is_i
          ],
          rw other yields,
        )
      ]
    ]

pub add_each_lem :
    (claimed : List String) (es : List Surviving) (added : List String) (g : Graph)
    → IsCurrent g
    → collision claimed es ≡ none
    → AllCanAdd g es
    → (g' : Graph) × (add_each (additions es) added g ≡ ok (g', none))
      × IsCurrent g'
      × ((i : String) → lookup i g'.edges ≡ added_link es i (lookup i g.edges))
add_each_lem claimed [] added g current apart can = (g, refl, current, λ i. refl)
add_each_lem claimed (e ∷ es) added g current apart can =
    elim (Bool-cases (changes_router e.action)) [
      | inr kept ↦
          let (g', made, current', edges) =
            add_each_lem (e.desc.link_id ∷ claimed) es added g current
              (collision-tail claimed e es apart) (λ f m. can f (Among-tail f e es m)) in
          (g', rw (additions-cons e es, kept) made, current', λ i. rw kept (edges i))
      | inl changed ↦
          let ready = can e (Among-head e es) changed in
          let (g1, made, (current1, edges1, nodes1)) =
            add_link_lem g e.a e.b e.desc.link_id e.desc.attrs e.desc.cost current ready.apart
              ready.node_a ready.node_b ready.free in
          let (g', rest, current', edges) =
            add_each_lem (e.desc.link_id ∷ claimed) es (e.desc.link_id ∷ added) g1 current1
              (collision-tail claimed e es apart)
              (λ f m f_changed.
                let before = can f (Among-tail f e es m) f_changed in
                record {
                  apart = before.apart;
                  node_a = nodes1 f.a ∙ before.node_a;
                  node_b = nodes1 f.b ∙ before.node_b;
                  free = edges1 f.desc.link_id ∙ rw (head-apart claimed e es apart f m) before.free;
                }) in
          (
            g',
            rw (additions-cons e es, changed) (rw made rest),
            current',
            λ i. edges i ∙ elim (Bool-cases (e.desc.link_id == i)) [
              | inl same ↦
                  rw (edges1 i, changed, same)
                    (added_link-absent es i (some (link_of e)) (λ f m.
                      ap (λ x. f.desc.link_id == x) (sym (eq_of_beq e.desc.link_id i same))
                      ∙ apart_comm e.desc.link_id f.desc.link_id
                          (head-apart claimed e es apart f m)))
              | inr other ↦ rw (edges1 i, changed, other) refl
            ],
          )
    ]
