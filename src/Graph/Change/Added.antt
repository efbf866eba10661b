-- ===== src/Graph/Change/Added.antt =====
-- A link that can be added is added.
use zl_zpr_visaservice.Base.{
  ℕ, String, String-HasEq, ◌==◌, ◌≡◌, ◌≢◌, refl, sym, ap, ◌∙◌, true, false, List, none, some,
  lookup, lookup-insert, if◌then◌else◌, beq_refl, ok,
}
use zl_zpr_visaservice.IpAddr.{IpAddr, IpAddr-HasEq}
use zl_zpr_visaservice.Attribute.{Attribute}
use zl_zpr_visaservice.Graph.{Graph, Link, Pair-HasEq, has_node}
use zl_zpr_visaservice.Graph.Change.{add_link}
use zl_zpr_visaservice.Graph.Change.Valid.{put_link-IsValid}
use zl_zpr_visaservice.Graph.Change.Current.{IsCurrent, recompute-IsCurrent}

-- the graph with the link, and the nodes that it had
abbrev pub WithLink : Graph → String → Link → Graph → Type 0
WithLink g id link g' =
    IsCurrent g'
    × ((i : String) → lookup i g'.edges ≡ (if id == i then some link else lookup i g.edges))
    × ((q : IpAddr) → has_node g' q ≡ has_node g q)

pub add_link_lem :
    (g : Graph) (a b : IpAddr) (id : String) (attributes : List Attribute) (cost : ℕ)
    → IsCurrent g
    → (a == b) ≡ false
    → has_node g a ≡ true
    → has_node g b ≡ true
    → lookup id g.edges ≡ none
    → (g' : Graph) × (add_link g a b id attributes cost ≡ ok g')
      × WithLink g id (record { a = a; b = b; attributes = attributes; cost = cost }) g'
unfolding add_link
add_link_lem g a b id attributes cost current other at_a at_b new =
    let link : Link = record { a = a; b = b; attributes = attributes; cost = cost } in
    let apart : a ≢ b = λ same. cc (sym other ∙ ap (λ x. a == x) (sym same) ∙ beq_refl a) in
    let (g', made, valid, edges, nodes) =
      put_link-IsValid g id link current.valid apart at_a at_b new in
    let (t, best, current') = recompute-IsCurrent g' valid in
    (
      record g' { best_routes = t },
      rw (add_link, other, at_a, at_b, new) (rw (made, best) refl),
      (current', (λ i. ap (lookup i) edges ∙ lookup-insert id i link g.edges), nodes),
    )
