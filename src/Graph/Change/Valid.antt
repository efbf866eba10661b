-- ===== src/Graph/Change/Valid.antt =====
-- The parts of a change keep a graph valid.
use zl_zpr_visaservice.Base.{
  String, String-HasEq, ◌==◌, ◌≡◌, ◌≢◌, refl, sym, ap, ◌∙◌, true, false, not, ◌&&◌, ◌||◌, List, [],
  ◌∷◌, none, some, lookup, insert, remove, lookup-insert, lookup-remove, Bool-cases, inl, inr,
  if◌then◌else◌, arith, some_inj, eq_of_beq, beq_refl, contains, ok,
}
use zl_zpr_visaservice.IpAddr.{IpAddr, IpAddr-HasEq}
use zl_zpr_visaservice.Graph.{Graph, Link, has_node}
use zl_zpr_visaservice.Graph.Change.{no_links, put_link, remove_link_impl, remove_links}
use zl_zpr_visaservice.Graph.Walks.{IsValid, has_edge, edge_node}
use zl_zpr_visaservice.Graph.Change.Edges.{
  put_link_lem, remove_link_impl_edges, is_node-remove_link_impl, has_edge-remove_link_impl,
}

pub put_link-IsValid :
    (g : Graph) (id : String) (link : Link)
    → IsValid g
    → link.a ≢ link.b
    → has_node g link.a ≡ true
    → has_node g link.b ≡ true
    → lookup id g.edges ≡ none
    → (g' : Graph) × (put_link g id link ≡ ok g')
      × IsValid g'
      × (g'.edges ≡ insert id link g.edges)
      × ((q : IpAddr) → has_node g' q ≡ has_node g q)
put_link-IsValid g id link valid apart at_a at_b new =
    let (g', made, edges, sets, nodes) = put_link_lem g id link at_a at_b in
    let at : (i : String) → lookup i g'.edges ≡ (if id == i then some link else lookup i g.edges) =
      λ i. ap (lookup i) edges ∙ lookup-insert id i link g.edges in
    let old : (i : String) (x : Link)
        → (id == i) ≡ false
        → lookup i g'.edges ≡ some x
        → lookup i g.edges ≡ some x =
      λ i x other found.
        sym (at i ∙ ap (λ b. if b then some link else lookup i g.edges) other) ∙ found in
    let added : (i : String) (x : Link) → (id == i) ≡ true → lookup i g'.edges ≡ some x → link ≡ x =
      λ i x same found.
        some_inj (sym (at i ∙ ap (λ b. if b then some link else lookup i g.edges) same) ∙ found) in
    (
      g',
      made,
      record {
        apart = λ i x found. elim (Bool-cases (id == i)) [
          | inl same ↦ rw (← added i x same found) apart
          | inr other ↦ valid.apart i x (old i x other found)
        ];
        at_a = λ i x found. elim (Bool-cases (id == i)) [
          | inl same ↦
              rw (← added i x same found) (rw (sets link.a i, beq_refl link.a, same) (ground arith))
          | inr other ↦ rw (sets x.a i, valid.at_a i x (old i x other found)) refl
        ];
        at_b = λ i x found. elim (Bool-cases (id == i)) [
          | inl same ↦
              rw (← added i x same found) (rw (sets link.b i, beq_refl link.b, same) (ground arith))
          | inr other ↦ rw (sets x.b i, valid.at_b i x (old i x other found)) refl
        ];
        named = λ q i within. elim (Bool-cases (has_edge g q i)) [
          | inl before ↦
              let (x, found, ends) = valid.named q i before in
              let other : (id == i) ≡ false = elim (Bool-cases (id == i)) [
                | inl same ↦
                    absurd (cc (sym new ∙ ap (λ j. lookup j g.edges) (eq_of_beq id i same) ∙ found))
                | inr unlike ↦ unlike
              ] in
              (x, at i ∙ ap (λ b. if b then some link else lookup i g.edges) other ∙ found, ends)
          | inr out ↦
              let hit : ((link.a == q || link.b == q) && id == i) ≡ true =
                sym (ap (λ b. b || ((link.a == q || link.b == q) && id == i)) out)
                ∙ (sym (sets q i) ∙ within) in
              let same : (id == i) ≡ true = ground (arith, hit) in
              (
                link,
                at i ∙ ap (λ b. if b then some link else lookup i g.edges) same,
                elim (Bool-cases (link.a == q)) [
                  | inl is_a ↦ inl (eq_of_beq link.a q is_a)
                  | inr not_a ↦ inr (eq_of_beq link.b q (ground (arith, hit)))
                ],
              )
        ];
      },
      edges,
      nodes,
    )

pub remove_link_impl-IsValid :
    (g : Graph) (id : String) → IsValid g → IsValid (remove_link_impl g id)
remove_link_impl-IsValid g id valid =
    let before : (i : String) (x : Link)
        → lookup i (remove_link_impl g id).edges ≡ some x
        → (lookup i g.edges ≡ some x) × ((id == i) ≡ false) =
      λ i x found. elim (Bool-cases (id == i)) [
        | inl same ↦ absurd (cc (rw (remove_link_impl_edges g id i, same) at found))
        | inr other ↦ (rw (remove_link_impl_edges g id i, other) at found, other)
      ] in
    record {
      apart = λ i x found. valid.apart i x (before i x found).0;
      at_a = λ i x found.
          let (was, other) = before i x found in
          rw (has_edge-remove_link_impl g valid id x.a i, other, valid.at_a i x was) refl;
      at_b = λ i x found.
          let (was, other) = before i x found in
          rw (has_edge-remove_link_impl g valid id x.b i, other, valid.at_b i x was) refl;
      named = λ q i within.
          let both : (has_edge g q i && not (id == i)) ≡ true =
            sym (has_edge-remove_link_impl g valid id q i) ∙ within in
          let other : (id == i) ≡ false = ground (arith, both) in
          let (x, found, ends) = valid.named q i (ground (arith, both)) in
          (x, rw (remove_link_impl_edges g id i, other) found, ends);
    }

pub remove_links-IsValid :
    (ids : List String) (g : Graph)
    → IsValid g
    → IsValid (remove_links ids g)
      × ((q : IpAddr) (i : String)
          → has_edge (remove_links ids g) q i ≡ (has_edge g q i && not (contains ids i)))
      × ((q : IpAddr) → has_node (remove_links ids g) q ≡ has_node g q)
remove_links-IsValid [] g valid = (valid, λ q i. ground arith, λ q. refl)
remove_links-IsValid (id ∷ ids) g valid =
    let (after, sets, nodes) =
      remove_links-IsValid ids (remove_link_impl g id) (remove_link_impl-IsValid g id valid) in
    (
      after,
      λ q i. rw (sets q i, has_edge-remove_link_impl g valid id q i) (ground arith),
      λ q. nodes q ∙ is_node-remove_link_impl g id q,
    )

-- a node without links leaves
pub without_node-IsValid :
    (g : Graph) (n : IpAddr)
    → IsValid g
    → ((i : String) → has_edge g n i ≡ false)
    → IsValid (record g { nodes = remove n g.nodes })
without_node-IsValid g n valid alone =
    let kept : (q : IpAddr) (i : String) → has_edge g q i ≡ true → (n == q) ≡ false = λ q i within.
      elim (Bool-cases (n == q)) [
        | inl same ↦
            absurd (cc (sym (alone i) ∙ ap (λ x. has_edge g x i) (eq_of_beq n q same) ∙ within))
        | inr other ↦ other
      ] in
    record {
      apart = valid.apart;
      at_a = λ i x found.
          rw (lookup-remove n x.a g.nodes, kept x.a i (valid.at_a i x found))
            (valid.at_a i x found);
      at_b = λ i x found.
          rw (lookup-remove n x.b g.nodes, kept x.b i (valid.at_b i x found))
            (valid.at_b i x found);
      named = λ q i within. elim (Bool-cases (n == q)) [
        | inl same ↦ absurd (cc (rw (lookup-remove n q g.nodes, same) at within))
        | inr other ↦ valid.named q i (rw (lookup-remove n q g.nodes, other) at within)
      ];
    }

-- a node without links comes
pub with_node-IsValid :
    (g : Graph) (n : IpAddr)
    → IsValid g
    → has_node g n ≡ false
    → IsValid (record g { nodes = insert n no_links g.nodes })
with_node-IsValid g n valid new =
    let kept : (q : IpAddr) (i : String) → has_edge g q i ≡ true → (n == q) ≡ false = λ q i within.
      elim (Bool-cases (n == q)) [
        | inl same ↦ absurd (
            cc (
              sym new
              ∙ ap (has_node g) (eq_of_beq n q same)
              ∙ edge_node g (lookup q g.nodes) i within))
        | inr other ↦ other
      ] in
    record {
      apart = valid.apart;
      at_a = λ i x found.
          rw (lookup-insert n x.a no_links g.nodes, kept x.a i (valid.at_a i x found))
            (valid.at_a i x found);
      at_b = λ i x found.
          rw (lookup-insert n x.b no_links g.nodes, kept x.b i (valid.at_b i x found))
            (valid.at_b i x found);
      named = λ q i within. elim (Bool-cases (n == q)) [
        | inl same ↦ absurd (cc (rw (lookup-insert n q no_links g.nodes, same) at within))
        | inr other ↦ valid.named q i (rw (lookup-insert n q no_links g.nodes, other) at within)
      ];
    }
