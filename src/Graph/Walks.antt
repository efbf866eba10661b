-- ===== src/Graph/Walks.antt =====
-- What a graph describes: hops along its links, and walks. A graph is valid if each node's set names
-- exactly the links that end at it, and a link joins two nodes.
use zl_zpr_visaservice.Base.{
  ℕ, ◌+◌, String, String-HasEq, ◌==◌, ◌≡◌, ◌≢◌, ◌⊎◌, inl, inr, refl, sym, ap, ◌∙◌, Bool, true, List,
  [], ◌∷◌, ◌++◌, Option, none, some, lookup, contains, is_some, some_inj, Bool-cases,
}
use zl_zpr_visaservice.IpAddr.{IpAddr, IpAddr-HasEq}
use zl_zpr_visaservice.Graph.{Node, Link, Graph, Pair-HasEq, far_end, edges_of, has_node}

-- whether the set of a node names a link
abbrev pub has_edge : Graph → IpAddr → String → Bool
has_edge g n id = contains (edges_of (lookup n g.nodes)) id

pub record IsValid (g : Graph) : Type 0 where
  pub apart : (id : String) (link : Link) → lookup id g.edges ≡ some link → link.a ≢ link.b
  pub at_a :
      (id : String) (link : Link) → lookup id g.edges ≡ some link → has_edge g link.a id ≡ true
  pub at_b :
      (id : String) (link : Link) → lookup id g.edges ≡ some link → has_edge g link.b id ≡ true
  pub named :
      (n : IpAddr) (id : String)
      → has_edge g n id ≡ true
      → (link : Link) × (lookup id g.edges ≡ some link) × ((link.a ≡ n) ⊎ (link.b ≡ n))

-- a link between two nodes, with its cost
pub record Hop (g : Graph) (u : IpAddr) (id : String) (w : ℕ) (v : IpAddr) : Type 0 where
  pub link : Link
  pub found : lookup id g.edges ≡ some link
  pub cost : link.cost ≡ w
  pub ends : ((link.a ≡ u) × (link.b ≡ v)) ⊎ ((link.b ≡ u) × (link.a ≡ v))

-- the links of a walk in order, with the sum of their costs
pub data Walk (g : Graph) (start : IpAddr) : IpAddr → List String → ℕ → Type 0 where
  stay : Walk g start start [] 0
  walk :
      {v : IpAddr} {ls : List String} {c : ℕ}
      → Walk g start v ls c
      → (id : String) (w : ℕ) (u : IpAddr) → Hop g v id w u
      → Walk g start u (ls ++ (id ∷ [])) (c + w)

pub edge_node :
    (g : Graph) (o : Option Node) (id : String) → contains (edges_of o) id ≡ true → is_some o ≡ true
edge_node g none id h = absurd (cc h)
edge_node g (some n) id h = refl

module _ (g : Graph) (valid : IsValid g) where
  -- the link of a hop is in the sets of both ends, and both are nodes
  pub Hop-near : (u v : IpAddr) (id : String) (w : ℕ) → Hop g u id w v → has_edge g u id ≡ true
  Hop-near u v id w h = elim h.ends [
    | inl (at_a, _) ↦ rw (← at_a) (valid.at_a id h.link h.found)
    | inr (at_b, _) ↦ rw (← at_b) (valid.at_b id h.link h.found)
  ]

  pub Hop-back : (u v : IpAddr) (id : String) (w : ℕ) → Hop g u id w v → Hop g v id w u
  Hop-back u v id w h = record {
    link = h.link;
    found = h.found;
    cost = h.cost;
    ends = elim h.ends [
      | inl (at_a, at_b) ↦ inr (at_b, at_a)
      | inr (at_b, at_a) ↦ inl (at_a, at_b)
    ];
  }

  pub Hop-node : (u v : IpAddr) (id : String) (w : ℕ) → Hop g u id w v → has_node g v ≡ true
  Hop-node u v id w h = edge_node g (lookup v g.nodes) id (Hop-near v u id w (Hop-back u v id w h))

  -- the far end of a link of the node is where its hop leads
  pub Hop-far : (u v : IpAddr) (id : String) (w : ℕ) (h : Hop g u id w v) → far_end h.link u ≡ v
  Hop-far u v id w h = elim h.ends [
    | inl (at_a, at_b) ↦ rw (at_a, (IpAddr-HasEq.is_eq_iff u u).1 refl) at_b
    | inr (at_b, at_a) ↦ elim (Bool-cases (h.link.a == u)) [
      | inl same ↦
          absurd
            (valid.apart id h.link h.found ((IpAddr-HasEq.is_eq_iff h.link.a u).0 same ∙ sym at_b))
      | inr other ↦ rw other at_a
    ]
  ]

  -- and the near end is where it leads back to
  pub Hop-origin : (u v : IpAddr) (id : String) (w : ℕ) (h : Hop g u id w v) → far_end h.link v ≡ u
  unfolding Hop-back
  Hop-origin u v id w h = Hop-far v u id w (Hop-back u v id w h)

  pub far_end-Hop :
      (u : IpAddr) (id : String) (link : Link)
      → lookup id g.edges ≡ some link
      → has_edge g u id ≡ true
      → Hop g u id link.cost (far_end link u)
  far_end-Hop u id link found near =
      let (x, at_id, ends) = valid.named u id near in
      let same : x ≡ link = some_inj (sym at_id ∙ found) in
      record {
        link = link;
        found = found;
        cost = refl;
        ends = elim (Bool-cases (link.a == u)) [
          | inl at_a ↦ inl ((IpAddr-HasEq.is_eq_iff link.a u).0 at_a, rw at_a refl)
          | inr not_a ↦ elim ends [
            | inl is_a ↦ absurd (
                cc (
                  sym not_a
                  ∙ (IpAddr-HasEq.is_eq_iff link.a u).1 (ap (λ l. l.a) (sym same) ∙ is_a)))
            | inr is_b ↦ inr (ap (λ l. l.b) (sym same) ∙ is_b, rw not_a refl)
          ]
        ];
      }

  -- the hop along a link from a node is unique
  pub Hop-unique :
      (u v v' : IpAddr) (id : String) (w w' : ℕ)
      → Hop g u id w v
      → Hop g u id w' v'
      → (w ≡ w') × (v ≡ v')
  Hop-unique u v v' id w w' h k =
      let same : h.link ≡ k.link = some_inj (sym h.found ∙ k.found) in
      (
        sym h.cost ∙ ap (λ l. l.cost) same ∙ k.cost,
        sym (Hop-far u v id w h) ∙ ap (λ l. far_end l u) same ∙ Hop-far u v' id w' k,
      )
