-- ===== src/Router/Batch.antt =====
-- A batch of changes: removals, then additions, which are taken back if one is refused.
use zl_zpr_visaservice.Base.{
  ℕ, String, String-HasEq, ◌==◌, ◌≡◌, ◌⊎◌, refl, ◌∙◌, true, List, [], ◌∷◌, Option, none, some,
  lookup, Bool-cases, inl, inr, if◌then◌else◌, arith, contains, Result, ok, err, panic, ◌>>=◌,
}
use zl_zpr_visaservice.IpAddr.{IpAddr, IpAddr-HasEq}
use zl_zpr_visaservice.Graph.{Graph, Link, TopologyError, has_node}
use zl_zpr_visaservice.Graph.Change
use zl_zpr_visaservice.Graph.Change.Edges.{remove_link_impl_edges, is_node-remove_link_impl}
use zl_zpr_visaservice.Graph.Change.Valid.{remove_link_impl-IsValid}
use zl_zpr_visaservice.Graph.Change.Best.{add_link-IsAdded}
use zl_zpr_visaservice.Graph.Change.Current.{IsCurrent, IsAdded, Leaves, recompute-IsCurrent}
use zl_zpr_visaservice.Router.{
  RouterInner, LinkSpec, remove_each, rolled_back, after_add, add_each, flushed, apply_link_batch,
}

pub remove_link_lem :
    (g : Graph) (id : String)
    → IsCurrent g
    → (g' : Graph) × (Change.remove_link g id ≡ ok g')
      × IsCurrent g'
      × ((i : String) → lookup i g'.edges ≡ (if id == i then none else lookup i g.edges))
      × ((q : IpAddr) → has_node g' q ≡ has_node g q)
unfolding Change.remove_link
remove_link_lem g id current =
    let (t, made, after) =
      recompute-IsCurrent (Change.remove_link_impl g id)
        (remove_link_impl-IsValid g id current.valid) in
    (
      record (Change.remove_link_impl g id) { best_routes = t },
      made,
      after,
      remove_link_impl_edges g id,
      is_node-remove_link_impl g id,
    )

pub remove_each_lem :
    (ids : List String) (g : Graph)
    → IsCurrent g
    → (g' : Graph) × (remove_each ids g ≡ ok g')
      × IsCurrent g'
      × ((i : String) → lookup i g'.edges ≡ (if contains ids i then none else lookup i g.edges))
      × ((q : IpAddr) → has_node g' q ≡ has_node g q)
remove_each_lem [] g current = (g, refl, current, (λ i. refl), λ q. refl)
remove_each_lem (id ∷ ids) g current =
    let (g1, made, current1, edges1, nodes1) = remove_link_lem g id current in
    let (g2, rest, current2, edges2, nodes2) = remove_each_lem ids g1 current1 in
    (
      g2,
      rw made rest,
      current2,
      (λ i. edges2 i ∙ elim (Bool-cases (id == i)) [
        | inl same ↦ rw (edges1 i, same) (ground arith)
        | inr other ↦ rw (edges1 i, other) refl
      ]),
      λ q. nodes2 q ∙ nodes1 q,
    )

-- A graph in the middle of a batch: the links that were removed are gone, unless they were added again.
abbrev Midway : List String → List String → Graph → Type 0
Midway removals added g =
    IsCurrent g
    × ((i : String)
        → contains removals i ≡ true
        → (lookup i g.edges ≡ none) ⊎ (contains added i ≡ true))

-- the end of a batch: a current graph, without the removed links if an addition was refused
abbrev pub Ended : List String → Result TopologyError (Graph × Option TopologyError) → Type 0
Ended removals (ok (g, none)) = IsCurrent g
Ended removals (ok (g, some e)) =
    IsCurrent g × ((i : String) → contains removals i ≡ true → lookup i g.edges ≡ none)
Ended removals (err e) = ⊥
Ended removals panic = ⊥

rolled_back-Ended :
    (removals added : List String) (g : Graph) (e : TopologyError)
    → Midway removals added g
    → Ended removals (rolled_back added g e)
rolled_back-Ended removals added g e (current, gone) =
    let (g', made, current', edges, _) = remove_each_lem added g current in
    rw made (
      current',
      λ i removed. edges i ∙ elim (gone i removed) [
        | inl absent ↦ rw absent (ground arith)
        | inr again ↦ rw again refl
      ],
    )

added-Midway :
    (removals added : List String) (g g' : Graph) (id : String) (link : Link)
    → Midway removals added g
    → IsAdded g id link g'
    → Midway removals (id ∷ added) g'
added-Midway removals added g g' id link (current, gone) (current', edges) = (
  current',
  λ i removed. elim (Bool-cases (id == i)) [
    | inl same ↦ inr (rw same refl)
    | inr other ↦ elim (gone i removed) [
      | inl absent ↦ inl (edges i ∙ rw (other, absent) refl)
      | inr again ↦ inr (rw again (ground arith))
    ]
  ],
)

after_add-Ended :
    (removals added : List String) (g : Graph) (spec : LinkSpec) (link : Link)
    (rest : Graph → Result TopologyError (Graph × Option TopologyError))
    (r : Result TopologyError Graph)
    → Midway removals added g
    → Leaves (IsAdded g spec.id link) r
    → ((g' : Graph) → Midway removals (spec.id ∷ added) g' → Ended removals (rest g'))
    → Ended removals (after_add added g spec rest r)
after_add-Ended removals added g spec link rest (ok g') h p next =
    next g' (added-Midway removals added g g' spec.id link h p)
after_add-Ended removals added g spec link rest (err e) h p next =
    rolled_back-Ended removals added g e h
after_add-Ended removals added g spec link rest panic h p next = p

add_each-Ended :
    (removals : List String) (specs : List LinkSpec) (added : List String) (g : Graph)
    → Midway removals added g
    → Ended removals (add_each specs added g)
add_each-Ended removals [] added g h = h.0
add_each-Ended removals (spec ∷ specs) added g h =
    after_add-Ended removals added g spec
      (record { a = spec.a; b = spec.b; attributes = spec.attributes; cost = spec.cost })
      (add_each specs (spec.id ∷ added))
      (Change.add_link g spec.a spec.b spec.id spec.attributes spec.cost) h
      (add_link-IsAdded g spec.a spec.b spec.id spec.attributes spec.cost h.0)
      (λ g' h'. add_each-Ended removals specs (spec.id ∷ added) g' h')

-- what a batch leaves: a current topology and no cached route, and where an addition was refused, none
-- of the links that it removed
abbrev pub Batched :
    List String → Result TopologyError (RouterInner × Option TopologyError) → Type 0
Batched removals (ok (s, none)) = IsCurrent s.topology × (s.route_cache ≡ [])
Batched removals (ok (s, some e)) =
    IsCurrent s.topology
    × (s.route_cache ≡ [])
    × ((i : String) → contains removals i ≡ true → lookup i s.topology.edges ≡ none)
Batched removals (err e) = ⊥
Batched removals panic = ⊥

finished :
    (s : RouterInner) (removals : List String)
    (r : Result TopologyError (Graph × Option TopologyError)) (gen : ℕ)
    → Ended removals r
    → Batched removals
        (r >>= λ p. ok (record (flushed s) { topology = p.0; topo_generation = gen }, p.1))
finished s removals (ok (g, none)) gen h = (h, refl)
finished s removals (ok (g, some e)) gen h = (h.0, refl, h.1)
finished s removals (err e) gen h = h
finished s removals panic gen h = h

-- A batch on a current topology never panics, and leaves a current topology and an empty cache. Where
-- an addition is refused, the batch is not undone: each link that it removed is gone.
pub apply_link_batch-Batched :
    (s : RouterInner) (removals : List String) (additions : List LinkSpec)
    → IsCurrent s.topology
    → Batched removals (apply_link_batch s removals additions)
unfolding apply_link_batch
apply_link_batch-Batched s removals additions current =
    let (g, made, current', edges, _) = remove_each_lem removals s.topology current in
    rw (apply_link_batch, made)
      (finished s removals (add_each additions [] g) _ (
        add_each-Ended removals additions [] g
          (current', λ i removed. inl (edges i ∙ rw removed refl))))
