-- ===== src/Topology/Revalidate/Reconciled.antt =====
-- A pass that carries out its plan leaves the links that policy describes, and no others.
use zl_zpr_visaservice.Base.{
  ℕ, ℕ-HasEq, String, String-HasEq, ◌≡◌, ◌⊎◌, ap, ◌∙◌, true, false, List, some, lookup, contains,
  arith, Bool-cases, inl, inr, eq_of_beq, Result, ok,
}
use zl_zpr_visaservice.IpAddr.{IpAddr, IpAddr-HasEq}
use zl_zpr_visaservice.Attribute.Equivalent.{attributes_equivalent}
use zl_zpr_visaservice.Policy.Links.{LinkDescription}
use zl_zpr_visaservice.Graph.{Graph, Link, Pair-HasEq}
use zl_zpr_visaservice.Graph.Dijkstra.{ip_leb}
use zl_zpr_visaservice.Graph.Walks.{Hop}
use zl_zpr_visaservice.Router.Routes.{RouterLink}
use zl_zpr_visaservice.Topology.{ServiceError, Edges, install, decide_edge}
use zl_zpr_visaservice.Topology.Revalidate.{canonical_pair, is_changed}
use zl_zpr_visaservice.Topology.Revalidate.Pairs.{canonical_pair_comm}

-- a link as policy describes it, between the two nodes of a pair
pub record Matches (p : IpAddr × IpAddr) (desc : LinkDescription) (link : Link) : Type 0 where
  pub between : canonical_pair link.a link.b ≡ p
  pub cost : link.cost ≡ desc.cost
  pub attributes : attributes_equivalent link.attributes desc.attrs ≡ true

-- no two links join the same two nodes
abbrev pub NoParallel : Graph → Type 0
NoParallel g =
    (i j : String) (x y : Link)
    → lookup i g.edges ≡ some x
    → lookup j g.edges ≡ some y
    → canonical_pair x.a x.b ≡ canonical_pair y.a y.b
    → i ≡ j

module _ (describe : IpAddr → IpAddr → Result ServiceError LinkDescription)
    (known : List IpAddr) where
  -- the links of a graph are those that policy describes for the pairs, each under its id
  pub record Reconciled (pairs : Edges) (g : Graph) : Type 0 where
    pub sound :
        (id : String) (link : Link)
        → lookup id g.edges ≡ some link
        → (p : IpAddr × IpAddr) × (desc : LinkDescription) × (contains pairs p ≡ true)
          × (decide_edge describe known p.0 p.1 ≡ ok (install desc))
          × (desc.link_id ≡ id)
          × Matches p desc link
    pub full :
        (p : IpAddr × IpAddr) (desc : LinkDescription)
        → contains pairs p ≡ true
        → decide_edge describe known p.0 p.1 ≡ ok (install desc)
        → (link : Link) × (lookup desc.link_id g.edges ≡ some link) × Matches p desc link

-- the two ends of a link of a pair
pub ends_of_pair :
    (x y a b : IpAddr) → canonical_pair x y ≡ (a, b) → ((x ≡ a) × (y ≡ b)) ⊎ ((y ≡ a) × (x ≡ b))
ends_of_pair x y a b same = elim (Bool-cases (ip_leb x y)) [
  | inl below ↦ let e : (x, y) ≡ (a, b) = rw below at same in inl (ap (λ p. p.0) e, ap (λ p. p.1) e)
  | inr above ↦ let e : (y, x) ≡ (a, b) = rw above at same in inr (ap (λ p. p.0) e, ap (λ p. p.1) e)
]

pub Hop-pair :
    (g : Graph) (a b : IpAddr) (id : String) (w : ℕ) (h : Hop g a id w b)
    → canonical_pair h.link.a h.link.b ≡ canonical_pair a b
Hop-pair g a b id w h = elim h.ends [
  | inl (at_a, at_b) ↦ ap (λ x. canonical_pair x h.link.b) at_a ∙ ap (canonical_pair a) at_b
  | inr (at_b, at_a) ↦
      ap (λ x. canonical_pair x h.link.b) at_a
      ∙ ap (canonical_pair b) at_b
      ∙ canonical_pair_comm b a
]

pub kept_id :
    (rl : RouterLink) (desc : LinkDescription)
    → is_changed rl desc ≡ false
    → (rl.id ≡ desc.link_id)
      × (rl.cost ≡ desc.cost)
      × (attributes_equivalent rl.attributes desc.attrs ≡ true)
kept_id rl desc same = (
  eq_of_beq rl.id desc.link_id (ground (arith, same)),
  eq_of_beq rl.cost desc.cost (ground (arith, same)),
  ground (arith, same),
)
