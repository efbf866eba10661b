-- ===== src/Graph/Dijkstra/Tree.antt =====
-- The links that a search has chosen form a tree of walks from the start, and stay one when a shorter
-- way to a node is found.
use zl_zpr_visaservice.Base.{
  ℕ, ◌+◌, ◌≤◌, String, ◌==◌, ◌≡◌, refl, sym, ap, ◌∙◌, true, false, List, [], ◌∷◌, ◌++◌, some,
  lookup, insert, lookup-insert, Map, Bool-cases, inl, inr, arith, some_inj, beq_refl, eq_of_beq,
}
use zl_zpr_visaservice.IpAddr.{IpAddr, IpAddr-HasEq}
use zl_zpr_visaservice.Graph.{Graph}
use zl_zpr_visaservice.Graph.Dijkstra.{closer}
use zl_zpr_visaservice.Graph.Walks.{Hop, Walk, stay, walk}

-- a walk along the links in `prev`, on which the distances grow by at least the costs
pub data Tree (g : Graph) (start : IpAddr) (dist : Map IpAddr ℕ) (prev : Map IpAddr String)
    : IpAddr → List String → ℕ → Type 0 where
  root : Tree g start dist prev start [] 0
  grow :
      {v : IpAddr} {ls : List String} {c : ℕ}
      → Tree g start dist prev v ls c
      → (id : String) (w : ℕ) (u : IpAddr) (dv du : ℕ) → lookup u prev ≡ some id
      → Hop g v id w u
      → lookup v dist ≡ some dv
      → lookup u dist ≡ some du
      → dv + w ≤ du
      → Tree g start dist prev u (ls ++ (id ∷ [])) (c + w)

pub Tree-Walk :
    {g : Graph} {start : IpAddr} {dist : Map IpAddr ℕ} {prev : Map IpAddr String} {u : IpAddr}
    {ls : List String} {c : ℕ}
    → Tree g start dist prev u ls c
    → Walk g start u ls c
Tree-Walk root = stay
Tree-Walk (grow t id w u dv du p h at_v at_u le) = walk (Tree-Walk t) id w u h

-- the cost of the walk is at most the distance
pub Tree-le :
    {g : Graph} {start : IpAddr} {dist : Map IpAddr ℕ} {prev : Map IpAddr String} {u : IpAddr}
    {ls : List String} {c : ℕ} (d : ℕ)
    → Tree g start dist prev u ls c
    → lookup u dist ≡ some d
    → c ≤ d
Tree-le d root at_u = omega arith
Tree-le d (grow t id w u dv du p h at_v at_u le) e =
    let same : d ≡ du = some_inj (sym e ∙ at_u) in omega (arith, Tree-le dv t at_v)

-- a shorter way of cost `dv + w` to the node `k` has been found, over the node `v`
module _ (g : Graph) (start : IpAddr) (dist : Map IpAddr ℕ) (prev : Map IpAddr String)
    (v k : IpAddr) (id : String) (w dv : ℕ) (at_start : lookup start dist ≡ some 0)
    (hop : Hop g v id w k) (at_v : lookup v dist ≡ some dv)
    (near : closer (dv + w) (lookup k dist) ≡ true) where
  abbrev Before : IpAddr → List String → ℕ → Type 0
  Before = Tree g start dist prev

  abbrev After : IpAddr → List String → ℕ → Type 0
  After = Tree g start (insert k (dv + w) dist) (insert k id prev)

  -- a node that is no farther than `v` is another node than `k`
  pub below : (y : IpAddr) (dy : ℕ) → lookup y dist ≡ some dy → dy ≤ dv → (k == y) ≡ false
  below y dy at_y le = elim (Bool-cases (k == y)) [
    | inl same ↦
        let at_k : lookup k dist ≡ some dy = ap (λ x. lookup x dist) (eq_of_beq k y same) ∙ at_y in
        let closest : closer (dv + w) (some dy) ≡ true = rw at_k at near in
        absurd (ground (arith, closest))
    | inr other ↦ other
  ]

  kept :
      (y : IpAddr) (dy : ℕ)
      → lookup y dist ≡ some dy
      → (k == y) ≡ false
      → lookup y (insert k (dv + w) dist) ≡ some dy
  kept y dy at_y other = rw (lookup-insert k y (dv + w) dist, other) at_y

  kept_prev :
      (y : IpAddr) (i : String)
      → lookup y prev ≡ some i
      → (k == y) ≡ false
      → lookup y (insert k id prev) ≡ some i
  kept_prev y i at_y other = rw (lookup-insert k y id prev, other) at_y

  low :
      {x : IpAddr} {ls : List String} {c : ℕ} (dx : ℕ)
      → Before x ls c
      → lookup x dist ≡ some dx
      → dx ≤ dv
      → After x ls c
  low dx root at_x le = root
  low dx (grow {v = y} t i wi u dy du p h at_y at_u step) at_x le =
      let same : dx ≡ du = some_inj (sym at_x ∙ at_u) in
      let le_u : du ≤ dv = omega arith in
      let le_y : dy ≤ dv = omega arith in
      grow (low dy t at_y le_y) i wi u dy du (kept_prev u i p (below u du at_u le_u)) h
        (kept y dy at_y (below y dy at_y le_y)) (kept u du at_u (below u du at_u le_u)) step

  at_k : lookup k (insert k (dv + w) dist) ≡ some (dv + w)
  at_k = rw (lookup-insert k k (dv + w) dist, beq_refl k) refl

  -- the new walk to `k`
  pub rerouted : (ls : List String) (c : ℕ) → Before v ls c → After k (ls ++ (id ∷ [])) (c + w)
  rerouted ls c t =
      grow (low dv t at_v (omega arith)) id w k dv (dv + w)
        (rw (lookup-insert k k id prev, beq_refl k) refl) hop
        (kept v dv at_v (below v dv at_v (omega arith))) at_k (omega arith)

  -- distances only fall
  pub fallen :
      (y : IpAddr) (dy : ℕ)
      → lookup y dist ≡ some dy
      → (d : ℕ) × (lookup y (insert k (dv + w) dist) ≡ some d) × (d ≤ dy)
  fallen y dy at_y = elim (Bool-cases (k == y)) [
    | inl same ↦
        let was : lookup k dist ≡ some dy = ap (λ x. lookup x dist) (eq_of_beq k y same) ∙ at_y in
        let less : closer (dv + w) (some dy) ≡ true = rw was at near in
        (
          dv + w,
          ap (λ x. lookup x (insert k (dv + w) dist)) (sym (eq_of_beq k y same)) ∙ at_k,
          ground (arith, less),
        )
    | inr other ↦ (dy, kept y dy at_y other, omega arith)
  ]

  pub moved :
      (lv : List String) (cv : ℕ)
      → Before v lv cv
      → {x : IpAddr} {ls : List String} {c : ℕ} → Before x ls c
      → (ls' : List String) × (c' : ℕ) × After x ls' c'
  moved lv cv tv root = ([], 0, root)
  moved lv cv tv (grow {v = y} t i wi u dy du p h at_y at_u step) = elim (Bool-cases (k == u)) [
    | inl same ↦ (lv ++ (id ∷ []), cv + w, rw (← eq_of_beq k u same) (rerouted lv cv tv))
    | inr other ↦
        let (ls', c', t') = moved lv cv tv t in
        let (d, at_y', le) = fallen y dy at_y in
        (
          ls' ++ (i ∷ []),
          c' + wi,
          grow t' i wi u d du (kept_prev u i p other) h at_y' (kept u du at_u other) (omega arith),
        )
  ]
