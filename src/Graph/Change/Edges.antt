-- ===== src/Graph/Change/Edges.antt =====
-- What the parts of a change do to the nodes and their sets.
use zl_zpr_visaservice.Base.{
  String, String-HasEq, ◌==◌, ◌≡◌, refl, sym, ap, ◌∙◌, Bool, true, false, not, ◌&&◌, ◌||◌, none,
  some, lookup, insert, lookup-insert, lookup-remove, Map, Bool-cases, Option-cases, inl, inr,
  if◌then◌else◌, arith, some_inj, is_some, is_some-some, eq_of_beq, beq_refl, contains,
  contains-filter_ne, contains-set_insert, ok,
}
use zl_zpr_visaservice.IpAddr.{IpAddr, IpAddr-HasEq}
use zl_zpr_visaservice.Graph.{Graph, Node, Link, edges_of, has_node}
use zl_zpr_visaservice.Graph.Change.{
  with_edge, without_edge, attach, detach, put_link, remove_link_impl,
}
use zl_zpr_visaservice.Graph.Walks.{IsValid, has_edge}

abbrev pub named_at : Map IpAddr Node → IpAddr → String → Bool
named_at m n id = contains (edges_of (lookup n m)) id

pub detach_lem :
    (id i : String) (n q : IpAddr) (m : Map IpAddr Node)
    → named_at (detach id n m) q i ≡ (named_at m q i && not (n == q && id == i))
detach_lem id i n q m = elim (Option-cases (lookup n m)) [
  | inl absent ↦ elim (Bool-cases (n == q)) [
    | inl same ↦
        let none_q : lookup q m ≡ none = ap (λ x. lookup x m) (sym (eq_of_beq n q same)) ∙ absent in
        rw (absent, none_q) refl
    | inr other ↦ rw (absent, other) (ground arith)
  ]
  | inr (node, found) ↦ elim (Bool-cases (n == q)) [
    | inl same ↦
        let at_q : lookup q m ≡ some node =
          ap (λ x. lookup x m) (sym (eq_of_beq n q same)) ∙ found in
        rw (found, lookup-insert n q (without_edge id node) m, same, at_q)
          (contains-filter_ne id i node.edges)
    | inr other ↦ rw (found, lookup-insert n q (without_edge id node) m, other) (ground arith)
  ]
]

pub is_node-detach :
    (id : String) (n q : IpAddr) (m : Map IpAddr Node)
    → is_some (lookup q (detach id n m)) ≡ is_some (lookup q m)
is_node-detach id n q m = elim (Option-cases (lookup n m)) [
  | inl absent ↦ rw absent refl
  | inr (node, found) ↦ elim (Bool-cases (n == q)) [
    | inl same ↦
        let at_q : lookup q m ≡ some node =
          ap (λ x. lookup x m) (sym (eq_of_beq n q same)) ∙ found in
        rw (found, lookup-insert n q (without_edge id node) m, same, at_q) refl
    | inr other ↦ rw (found, lookup-insert n q (without_edge id node) m, other) refl
  ]
]

-- a node that is there takes the link
pub attach_lem :
    (id : String) (n : IpAddr) (m : Map IpAddr Node)
    → is_some (lookup n m) ≡ true
    → (m' : Map IpAddr Node) × (attach id n m ≡ ok m')
      × ((q : IpAddr) (i : String) → named_at m' q i ≡ (named_at m q i || (n == q && id == i)))
      × ((q : IpAddr) → is_some (lookup q m') ≡ is_some (lookup q m))
attach_lem id n m node =
    let (x, found) = is_some-some (lookup n m) node in
    (
      insert n (with_edge id x) m,
      rw found refl,
      λ q i. elim (Bool-cases (n == q)) [
        | inl same ↦
            let at_q : lookup q m ≡ some x =
              ap (λ y. lookup y m) (sym (eq_of_beq n q same)) ∙ found in
            rw (lookup-insert n q (with_edge id x) m, same, at_q, contains-set_insert id i x.edges)
              (ground arith)
        | inr other ↦ rw (lookup-insert n q (with_edge id x) m, other) (ground arith)
      ],
      λ q. elim (Bool-cases (n == q)) [
        | inl same ↦
            let at_q : lookup q m ≡ some x =
              ap (λ y. lookup y m) (sym (eq_of_beq n q same)) ∙ found in
            rw (lookup-insert n q (with_edge id x) m, same, at_q) refl
        | inr other ↦ rw (lookup-insert n q (with_edge id x) m, other) refl
      ],
    )

-- a link and its two ends
pub put_link_lem :
    (g : Graph) (id : String) (link : Link)
    → has_node g link.a ≡ true
    → has_node g link.b ≡ true
    → (g' : Graph) × (put_link g id link ≡ ok g')
      × (g'.edges ≡ insert id link g.edges)
      × ((q : IpAddr) (i : String)
          → has_edge g' q i ≡ (has_edge g q i || ((link.a == q || link.b == q) && id == i)))
      × ((q : IpAddr) → has_node g' q ≡ has_node g q)
unfolding put_link
put_link_lem g id link at_a at_b =
    let (m1, made1, edges1, nodes1) = attach_lem id link.a g.nodes at_a in
    let (m2, made2, edges2, nodes2) = attach_lem id link.b m1 (nodes1 link.b ∙ at_b) in
    (
      record g { nodes = m2; edges = insert id link g.edges },
      rw (put_link, made1) (rw made2 refl),
      refl,
      λ q i. rw (edges2 q i, edges1 q i) (ground arith),
      λ q. nodes2 q ∙ nodes1 q,
    )

pub remove_link_impl_edges :
    (g : Graph) (id i : String)
    → lookup i (remove_link_impl g id).edges ≡ (if id == i then none else lookup i g.edges)
unfolding remove_link_impl
remove_link_impl_edges g id i = elim (Option-cases (lookup id g.edges)) [
  | inl absent ↦ elim (Bool-cases (id == i)) [
    | inl same ↦ rw (absent, same) (ap (λ j. lookup j g.edges) (sym (eq_of_beq id i same)) ∙ absent)
    | inr other ↦ rw (absent, other) refl
  ]
  | inr (link, found) ↦ rw found (lookup-remove id i g.edges)
]

pub is_node-remove_link_impl :
    (g : Graph) (id : String) (q : IpAddr) → has_node (remove_link_impl g id) q ≡ has_node g q
unfolding remove_link_impl
is_node-remove_link_impl g id q = elim (Option-cases (lookup id g.edges)) [
  | inl absent ↦ rw absent refl
  | inr (link, found) ↦
      rw found
        (is_node-detach id link.b q (detach id link.a g.nodes) ∙ is_node-detach id link.a q g.nodes)
]

-- in a valid graph the link leaves every set
pub has_edge-remove_link_impl :
    (g : Graph)
    → IsValid g
    → (id : String) (q : IpAddr) (i : String)
    → has_edge (remove_link_impl g id) q i ≡ (has_edge g q i && not (id == i))
unfolding remove_link_impl
has_edge-remove_link_impl g valid id q i = elim (Option-cases (lookup id g.edges)) [
  | inl absent ↦ elim (Bool-cases (has_edge g q i)) [
    | inr out ↦ rw (absent, out) refl
    | inl within ↦
        let (link, found, _) = valid.named q i within in
        let other : (id == i) ≡ false = elim (Bool-cases (id == i)) [
          | inl same ↦
              absurd (cc (sym absent ∙ ap (λ j. lookup j g.edges) (eq_of_beq id i same) ∙ found))
          | inr unlike ↦ unlike
        ] in
        rw (absent, other, within) refl
  ]
  | inr (link, found) ↦
      let after = detach_lem id i link.b q (detach id link.a g.nodes) in
      let before = detach_lem id i link.a q g.nodes in
      rw found (
        after ∙ ap (λ x. x && not (link.b == q && id == i)) before ∙ elim (Bool-cases (id == i)) [
          | inr other ↦ rw other (ground arith)
          | inl same ↦ elim (Bool-cases (has_edge g q i)) [
            | inr out ↦ rw out (ground arith)
            | inl within ↦
                let (link', found', ends) = valid.named q i within in
                let is_link : link' ≡ link =
                  some_inj
                    (sym found' ∙ ap (λ j. lookup j g.edges) (sym (eq_of_beq id i same)) ∙ found) in
                let an_end : (link.a == q || link.b == q) ≡ true = elim ends [
                  | inl is_a ↦ rw (ap (λ l. l.a) (sym is_link) ∙ is_a, beq_refl q) refl
                  | inr is_b ↦ rw (ap (λ l. l.b) (sym is_link) ∙ is_b, beq_refl q) (ground arith)
                ] in
                ground (arith, an_end, same)
          ]
        ])
]
