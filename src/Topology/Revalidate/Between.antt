-- ===== src/Topology/Revalidate/Between.antt =====
-- The link between two nodes that the router finds, in a valid graph.
use zl_zpr_visaservice.Base.{
  ℕ, String, String-HasEq, ◌==◌, ◌≡◌, ◌⊎◌, refl, sym, ap, ◌∙◌, true, List, [], ◌∷◌, Option, none,
  some, lookup, contains, arith, Bool-cases, Option-cases, inl, inr, eq_of_beq, beq_refl, some_inj,
}
use zl_zpr_visaservice.IpAddr.{IpAddr, IpAddr-HasEq}
use zl_zpr_visaservice.Graph.{Graph, Link, far_end, edges_of, find_link, link_id_between}
use zl_zpr_visaservice.Graph.Walks.{IsValid, has_edge, Hop, Hop-near, Hop-far, far_end-Hop}
use zl_zpr_visaservice.Router.{RouterInner}
use zl_zpr_visaservice.Router.Routes.{RouterLink, shown_link, link_between}

module _ (g : Graph) (valid : IsValid g) (a b : IpAddr) where
  -- a link that joins the nodes, or none of the links does
  abbrev Found : List String → Option String → Type 0
  Found ids o =
      ((o ≡ none) × ((id : String) (w : ℕ) → contains ids id ≡ true → Hop g a id w b → ⊥))
      ⊎ ((id : String) × (link : Link) × (o ≡ some id)
          × (lookup id g.edges ≡ some link)
          × Hop g a id link.cost b)

  find_link-Found :
      (ids : List String)
      → ((id : String) → contains ids id ≡ true → has_edge g a id ≡ true)
      → Found ids (find_link g.edges a b ids)
  find_link-Found [] near = inl (refl, λ id w within. absurd (cc within))
  find_link-Found (id ∷ ids) near =
      let at_id = near id (rw (beq_refl id) refl) in
      let (link, there, _) = valid.named a id at_id in
      let hop = far_end-Hop g valid a id link there at_id in
      elim (Bool-cases (far_end link a == b)) [
        | inl arrives ↦ inr (
          id,
          link,
          rw (find_link, there, arrives) refl,
          there,
          rw (eq_of_beq (far_end link a) b arrives) at hop,
        )
        | inr elsewhere ↦
            elim (find_link-Found ids (λ i within. near i (rw within (ground arith)))) [
              | inr (i, l, is_i, found, h) ↦
                  inr (i, l, rw (find_link, there, elsewhere) is_i, found, h)
              | inl (is_none, no_hop) ↦ inl (
                rw (find_link, there, elsewhere) is_none,
                λ i w within h. elim (Bool-cases (id == i)) [
                  | inr other ↦ no_hop i w (rw other at within) h
                  | inl same ↦
                      let is_link : h.link ≡ link = some_inj (
                        sym h.found
                        ∙ ap (λ x. lookup x g.edges) (sym (eq_of_beq id i same))
                        ∙ there) in
                      let far : far_end link a ≡ b =
                        ap (λ l. far_end l a) (sym is_link) ∙ Hop-far g valid a b i w h in
                      cc (sym elsewhere ∙ ap (λ x. x == b) far ∙ beq_refl b)
                ],
              )
            ]
      ]

-- the same of the router's method
pub data Between (g : Graph) (a b : IpAddr) (o : Option RouterLink) : Type 0 where
  apart : o ≡ none → ((id : String) (w : ℕ) → Hop g a id w b → ⊥) → Between g a b o
  joined :
      (id : String) (link : Link)
      → o ≡ some (shown_link id link)
      → lookup id g.edges ≡ some link
      → Hop g a id link.cost b
      → Between g a b o

pub link_between-Between :
    (s : RouterInner) (a b : IpAddr)
    → IsValid s.topology
    → Between s.topology a b (link_between s a b)
unfolding link_between link_id_between
link_between-Between s a b valid =
    let g = s.topology in
    elim (Option-cases (lookup a g.nodes)) [
      | inl absent ↦ apart (rw (link_between, absent) refl) (λ id w h.
          cc (sym (Hop-near g valid a b id w h) ∙ ap (λ o. contains (edges_of o) id) absent))
      | inr (node, at_a) ↦
          let own : (id : String) → has_edge g a id ≡ contains node.edges id =
            λ id. ap (λ o. contains (edges_of o) id) at_a in
          elim (find_link-Found g valid a b node.edges (λ id within. own id ∙ within)) [
            | inl (is_none, no_hop) ↦
                apart (rw (link_between, at_a, is_none) refl)
                  (λ id w h. no_hop id w (sym (own id) ∙ Hop-near g valid a b id w h) h)
            | inr (id, link, is_id, found, hop) ↦
                joined id link (rw (link_between, at_a, is_id, found) refl) found hop
          ]
    ]
