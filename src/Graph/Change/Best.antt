-- ===== src/Graph/Change/Best.antt =====
-- Every change leaves a valid graph with its best routes, or reports an error; none panics.
use zl_zpr_visaservice.Base.{
  ℕ, String, String-HasEq, ◌==◌, ◌≡◌, ◌≢◌, refl, sym, ap, ◌∙◌, true, false, not, ◌&&◌, List, Option,
  none, some, lookup, insert, remove, lookup-insert, Bool-cases, Option-cases, inl, inr,
  if◌then◌else◌, arith, is_some, eq_of_beq, beq_refl, contains, ◌>>=◌,
}
use zl_zpr_visaservice.IpAddr.{IpAddr, IpAddr-HasEq}
use zl_zpr_visaservice.Attribute.{Attribute}
use zl_zpr_visaservice.Graph.{Graph, Link, Pair-HasEq, edges_of, has_node, link_id_between}
use zl_zpr_visaservice.Graph.Dijkstra.{recompute}
use zl_zpr_visaservice.Graph.Dijkstra.Shortest.{Shortest}
use zl_zpr_visaservice.Graph.Change.{
  no_links, put_link, remove_link_impl, remove_links, add_node, add_link, remove_link, remove_node,
  replace_link, get_low_cost_path,
}
use zl_zpr_visaservice.Graph.Walks.{IsValid, has_edge, edge_node, Walk, stay, walk, Hop-near}
use zl_zpr_visaservice.Graph.Change.Edges.{remove_link_impl_edges, is_node-remove_link_impl}
use zl_zpr_visaservice.Graph.Change.Valid.{
  put_link-IsValid, remove_link_impl-IsValid, remove_links-IsValid, without_node-IsValid,
  with_node-IsValid,
}
use zl_zpr_visaservice.Graph.Change.Current.{
  IsCurrent, Leaves, Safe, Leaves-mono, IsAdded, Walk-same, Shortest-same, recompute-IsCurrent,
  recompute-Safe,
}

-- a node that no link ends at is joined to no other
isolated :
    (g : Graph)
    → IsValid g
    → (n : IpAddr) → has_node g n ≡ false
    → {b : IpAddr} {ls : List String} {c : ℕ} → Walk g n b ls c
    → n ≡ b
isolated g valid n new stay = refl
isolated g valid n new (walk {v = v} w id k u h) =
    let here = isolated g valid n new w in
    absurd (
      cc (
        sym new
        ∙ ap (has_node g) here
        ∙ edge_node g (lookup v g.nodes) id (Hop-near g valid v u id k h)))

add_node-Safe : (g : Graph) (n : IpAddr) → IsCurrent g → Safe (add_node g n)
unfolding add_node
add_node-Safe g n current = elim (Bool-cases (has_node g n)) [
  | inl old ↦ rw (add_node, old) tt
  | inr new ↦
      let g' = record g { nodes = insert n no_links g.nodes } in
      rw (add_node, new)
        (record {
          valid = with_node-IsValid g n current.valid new;
          best = record {
            sound = λ k r found. Shortest-same g g' (λ i. refl) (current.best.sound k r found);
            full = λ a b ls c node w other. elim (Bool-cases (n == a)) [
              | inl same ↦
                  let from_n : Walk g n b ls c =
                    rw (eq_of_beq n a same) (Walk-same g' g (λ i. refl) w) in
                  let at_b : n ≡ b = isolated g current.valid n new from_n in
                  absurd
                    (cc (sym other ∙ ap (λ x. a == x) (sym at_b ∙ eq_of_beq n a same) ∙ beq_refl a))
              | inr unlike ↦
                  current.best.full a b ls c
                    (rw (lookup-insert n a no_links g.nodes, unlike) at node)
                    (Walk-same g' g (λ i. refl) w) other
            ];
          };
        })
]

put-IsAdded :
    (g : Graph) (id : String) (link : Link)
    → IsValid g
    → (link.a == link.b) ≡ false
    → has_node g link.a ≡ true
    → has_node g link.b ≡ true
    → lookup id g.edges ≡ none
    → Leaves (IsAdded g id link) (put_link g id link >>= recompute)
put-IsAdded g id link valid other at_a at_b new =
    let apart : link.a ≢ link.b =
      λ same. cc (sym other ∙ ap (λ x. link.a == x) (sym same) ∙ beq_refl link.a) in
    let (g', made, valid', edges, _) = put_link-IsValid g id link valid apart at_a at_b new in
    let (t, best, current) = recompute-IsCurrent g' valid' in
    rw (made, best) (current, λ i. ap (lookup i) edges ∙ lookup-insert id i link g.edges)

pub add_link-IsAdded :
    (g : Graph) (a b : IpAddr) (id : String) (attributes : List Attribute) (cost : ℕ)
    → IsCurrent g
    → Leaves
        (IsAdded g id (record { a = a; b = b; attributes = attributes; cost = cost }))
        (add_link g a b id attributes cost)
unfolding add_link
add_link-IsAdded g a b id attributes cost current =
    let link : Link = record { a = a; b = b; attributes = attributes; cost = cost } in
    elim (Bool-cases (a == b)) [
      | inl same ↦ rw (add_link, same) tt
      | inr other ↦ elim (Bool-cases (has_node g a)) [
        | inr no_a ↦ rw (add_link, other, no_a) tt
        | inl at_a ↦ elim (Bool-cases (has_node g b)) [
          | inr no_b ↦ rw (add_link, other, at_a, no_b) tt
          | inl at_b ↦ elim (Option-cases (lookup id g.edges)) [
            | inr (x, taken) ↦ rw (add_link, other, at_a, at_b, taken) tt
            | inl new ↦
                rw (add_link, other, at_a, at_b, new)
                  (put-IsAdded g id link current.valid other at_a at_b new)
          ]
        ]
      ]
    ]

remove_link-Safe : (g : Graph) (id : String) → IsCurrent g → Safe (remove_link g id)
unfolding remove_link
remove_link-Safe g id current =
    recompute-Safe (remove_link_impl g id) (remove_link_impl-IsValid g id current.valid)

remove_node-Safe : (g : Graph) (n : IpAddr) → IsCurrent g → Safe (remove_node g n)
unfolding remove_node
remove_node-Safe g n current = elim (Option-cases (lookup n g.nodes)) [
  | inl absent ↦ rw (remove_node, absent) current
  | inr (node, found) ↦
      let (after, sets, _) = remove_links-IsValid node.edges g current.valid in
      let g' = remove_links node.edges g in
      let own : (i : String) → has_edge g n i ≡ contains node.edges i =
        λ i. ap (λ o. contains (edges_of o) i) found in
      rw (remove_node, found)
        (recompute-Safe (record g' { nodes = remove n g'.nodes })
          (without_node-IsValid g' n after (λ i. sets n i ∙ ground (arith, own i))))
]

freed :
    (id old : String) (o : Option Link)
    → (not (id == old) && is_some o) ≡ false
    → (if old == id then none else o) ≡ none
freed id old none h = ground arith
freed id old (some x) h =
    ground (arith, h, String-HasEq.is_eq_iff id old, String-HasEq.is_eq_iff old id)

replace_link-Safe :
    (g : Graph) (a b : IpAddr) (id : String) (attributes : List Attribute) (cost : ℕ)
    → IsCurrent g
    → Safe (replace_link g a b id attributes cost)
unfolding replace_link
replace_link-Safe g a b id attributes cost current =
    let link : Link = record { a = a; b = b; attributes = attributes; cost = cost } in
    elim (Bool-cases (a == b)) [
      | inl same ↦ rw (replace_link, same) tt
      | inr other ↦ elim (Bool-cases (has_node g a)) [
        | inr no_a ↦ rw (replace_link, other, no_a) tt
        | inl at_a ↦ elim (Bool-cases (has_node g b)) [
          | inr no_b ↦ rw (replace_link, other, at_a, no_b) tt
          | inl at_b ↦ elim (Option-cases (link_id_between g a b)) [
            | inl no_link ↦ rw (replace_link, other, at_a, at_b, no_link) tt
            | inr (old, between) ↦
                elim (Bool-cases (not (id == old) && is_some (lookup id g.edges))) [
                  | inl taken ↦ rw (replace_link, other, at_a, at_b, between) (rw taken tt)
                  | inr free ↦
                      let new : lookup id (remove_link_impl g old).edges ≡ none =
                        remove_link_impl_edges g old id ∙ freed id old (lookup id g.edges) free in
                      rw (replace_link, other, at_a, at_b, between)
                        (rw free (
                          Leaves-mono (IsAdded (remove_link_impl g old) id link) IsCurrent _
                            (λ g' h. h.0)
                            (put-IsAdded (remove_link_impl g old) id link
                              (remove_link_impl-IsValid g old current.valid) other
                              (is_node-remove_link_impl g old a ∙ at_a)
                              (is_node-remove_link_impl g old b ∙ at_b) new)))
                ]
          ]
        ]
      ]
    ]

-- A change of a current graph, of any kind and at any nodes and links, does not panic; where it
-- reports no error, it leaves a current graph: each set of a node names exactly the node's links, and
-- the table has a shortest route between any two different nodes that a walk joins.
pub changes-Safe :
    (g : Graph) (a b : IpAddr) (id : String) (attributes : List Attribute) (cost : ℕ)
    → IsCurrent g
    → Safe (add_node g a)
      × Safe (add_link g a b id attributes cost)
      × Safe (remove_link g id)
      × Safe (remove_node g a)
      × Safe (replace_link g a b id attributes cost)
changes-Safe g a b id attributes cost current = (
  add_node-Safe g a current,
  Leaves-mono (IsAdded g id _) IsCurrent (add_link g a b id attributes cost) (λ g' h. h.0)
      (add_link-IsAdded g a b id attributes cost current),
  remove_link-Safe g id current,
  remove_node-Safe g a current,
  replace_link-Safe g a b id attributes cost current,
)

-- a shortest route, or no walk at all
abbrev pub Answers : Graph → IpAddr → IpAddr → Option (List String × ℕ) → Type 0
Answers g a b none = ¬ ((ls : List String) × (c : ℕ) × Walk g a b ls c)
Answers g a b (some r) = Shortest g a b r.0 r.1

-- the look-up of a route in a current graph
pub get_low_cost_path-Answers :
    (g : Graph) (a b : IpAddr)
    → IsCurrent g
    → has_node g a ≡ true
    → (a == b) ≡ false
    → Answers g a b (get_low_cost_path g a b)
unfolding get_low_cost_path
get_low_cost_path-Answers g a b current node other =
    elim (Option-cases (lookup (a, b) g.best_routes)) [
      | inl none_at ↦
          rw none_at
            (λ (ls, c, w). cc (sym (current.best.full a b ls c node w other) ∙ ap is_some none_at))
      | inr (r, found) ↦ rw found (current.best.sound (a, b) r found)
    ]
