-- ===== src/Topology/Revalidate/Nodes.antt =====
-- The nodes that a pass adds before it looks at the links.
use zl_zpr_visaservice.Base.{
  ◌==◌, ◌≡◌, refl, ◌∙◌, Bool, true, false, List, [], ◌∷◌, contains, arith, Bool-cases, inl, inr,
  eq_of_beq, beq_refl, ok,
}
use mathlib.Core.Path.{subst}
use zl_zpr_visaservice.IpAddr.{IpAddr, IpAddr-HasEq}
use zl_zpr_visaservice.Graph.{has_node}
use zl_zpr_visaservice.Graph.Change
use zl_zpr_visaservice.Graph.Change.{no_links}
use zl_zpr_visaservice.Graph.Change.Current.{IsCurrent}
use zl_zpr_visaservice.Router
use zl_zpr_visaservice.Router.{RouterInner}
use zl_zpr_visaservice.Topology.{add_node_if_not_exists}
use zl_zpr_visaservice.Topology.Undo.{add_node_lem}
use zl_zpr_visaservice.Topology.Revalidate.{add_nodes}

-- a router with more nodes and the same links
pub record Grown (r r' : RouterInner) : Type 0 where
  pub current : IsCurrent r'.topology
  pub edges : r'.topology.edges ≡ r.topology.edges
  pub nodes : (q : IpAddr) → has_node r.topology q ≡ true → has_node r'.topology q ≡ true

added_node :
    (r : RouterInner) (n : IpAddr)
    → IsCurrent r.topology
    → (r' : RouterInner) × (b : Bool) × (add_node_if_not_exists r n ≡ ok (r', b))
      × Grown r r'
      × (has_node r'.topology n ≡ true)
unfolding add_node_if_not_exists Router.add_node Change.add_node
added_node r n current = elim (Bool-cases (has_node r.topology n)) [
  | inl old ↦
      (r, false, rw old refl, record { current = current; edges = refl; nodes = λ q h. h }, old)
  | inr new ↦
      let (r', made, after, edges, nodes) = add_node_lem r n current new in
      (
        r',
        true,
        rw made refl,
        record { current = after; edges = edges; nodes = λ q h. nodes q ∙ ground (arith, h) },
        nodes n ∙ ground (arith, beq_refl n),
      )
]

pub add_nodes_lem :
    (ns : List IpAddr) (r : RouterInner)
    → IsCurrent r.topology
    → (r' : RouterInner) × (add_nodes ns r ≡ ok r')
      × Grown r r'
      × ((n : IpAddr) → contains ns n ≡ true → has_node r'.topology n ≡ true)
unfolding add_nodes
add_nodes_lem [] r current = (
  r,
  refl,
  record { current = current; edges = refl; nodes = λ q h. h },
  λ n within. absurd (cc within),
)
add_nodes_lem (n ∷ ns) r current =
    let (r1, b, made, one, here) = added_node r n current in
    let (r2, rest, all, there) = add_nodes_lem ns r1 one.current in
    (
      r2,
      rw (add_nodes, made) rest,
      record {
        current = all.current;
        edges = all.edges ∙ one.edges;
        nodes = λ q h. all.nodes q (one.nodes q h);
      },
      λ q within. elim (Bool-cases (n == q)) [
        | inl same ↦
            all.nodes q (subst (λ x. has_node r1.topology x ≡ true) (eq_of_beq n q same) here)
        | inr other ↦ there q (rw other at within)
      ],
    )
