-- ===== src/Graph/AllPaths/Simple.antt =====
-- The paths that are found are the simple ones: walks that meet no node twice.
use mathlib.Core.List.{reverse, append_assoc, reverse-append}
use zl_zpr_visaservice.Base.{
  ℕ, zero, suc, ◌+◌, ◌≤◌, String, String-HasEq, ◌==◌, ◌≡◌, ◌↔◌, refl, sym, ap, ◌∙◌, true, false,
  List, [], ◌∷◌, ◌++◌, some, lookup, contains, length, is_some-some, arith, Bool-cases,
  Option-cases, inl, inr, eq_of_beq, beq_refl, Among, Among-tail, Among-cons, Among-append,
}
use zl_zpr_visaservice.IpAddr.{IpAddr, IpAddr-HasEq}
use zl_zpr_visaservice.Graph.{Graph, far_end, edges_of, has_node}
use zl_zpr_visaservice.Graph.Dijkstra.{saturated}
use zl_zpr_visaservice.Graph.Walks.{IsValid, Hop, Hop-near, Hop-far, Hop-node, far_end-Hop}
use zl_zpr_visaservice.Graph.AllPaths.{get_all_paths}
use zl_zpr_visaservice.Graph.AllPaths.Explore.{
  Paths, branch, gather, explore, ahead, ahead-le-length, ahead-cons-lt,
}
use zl_zpr_visaservice.Graph.AllPaths.Loop.{get_all_paths-explore}

-- a walk from a node to the end, at least one link long, that meets no visited node and no node twice
pub data SimplePath (g : Graph) (end : IpAddr)
    : List IpAddr → IpAddr → List String → ℕ → Type 0 where
  arrive :
      (visited : List IpAddr) (u : IpAddr) (id : String) (w : ℕ)
      → Hop g u id w end
      → contains visited end ≡ false
      → SimplePath g end visited u (id ∷ []) w
  pass :
      (visited : List IpAddr) (u : IpAddr) (id : String) (w : ℕ) (v : IpAddr) (ls : List String)
      (c : ℕ)
      → Hop g u id w v
      → contains visited v ≡ false
      → (v == end) ≡ false
      → SimplePath g end (v ∷ visited) v ls c
      → SimplePath g end visited u (id ∷ ls) (w + c)

Among-append_left : {e : List String × ℕ} (xs ys : Paths) → Among e xs → Among e (xs ++ ys)
Among-append_left [] ys (i, h) = absurd (cc h)
Among-append_left (x ∷ xs) ys (zero, h) = (zero, h)
Among-append_left {e} (x ∷ xs) ys (suc i, h) =
    Among-tail e x (xs ++ ys) (Among-append_left xs ys (i, h))

Among-append_right : {e : List String × ℕ} (xs ys : Paths) → Among e ys → Among e (xs ++ ys)
Among-append_right [] ys m = m
Among-append_right {e} (x ∷ xs) ys m = Among-tail e x (xs ++ ys) (Among-append_right xs ys m)

Among-gather :
    (f : String → Paths) (ids : List String) (e : List String × ℕ)
    → Among e (gather f ids)
    → (id : String) × (contains ids id ≡ true) × Among e (f id)
Among-gather f [] e (i, h) = absurd (cc h)
Among-gather f (id ∷ ids) e m = elim (Among-append e (f id) (gather f ids) m) [
  | inl here ↦ (id, rw (beq_refl id) refl, here)
  | inr later ↦
      let (i, listed, there) = Among-gather f ids e later in (i, rw listed (ground arith), there)
]

gather-Among :
    (f : String → Paths) (ids : List String) (e : List String × ℕ) (id : String)
    → contains ids id ≡ true
    → Among e (f id)
    → Among e (gather f ids)
gather-Among f [] e id listed m = absurd (cc listed)
gather-Among f (i ∷ ids) e id listed m = elim (Bool-cases (i == id)) [
  | inl same ↦ Among-append_left (f i) (gather f ids) (rw (eq_of_beq i id same) m)
  | inr other ↦
      Among-append_right (f i) (gather f ids) (gather-Among f ids e id (rw other at listed) m)
]

saturated_add : (a b : ℕ) → saturated (saturated a + b) ≡ saturated (a + b)
saturated_add a b = ground arith

zero_add : (a : ℕ) → 0 + a ≡ a
zero_add a = omega arith

regroup : (a b c : ℕ) → a + b + c ≡ a + (b + c)
regroup a b c = omega arith

-- the path so far, and what follows
joined :
    (path : List String) (id : String) (ls : List String)
    → reverse (id ∷ path) ++ ls ≡ reverse path ++ (id ∷ ls)
joined path id ls =
    ap (λ xs. xs ++ ls) (reverse-append (id ∷ []) path) ∙ append_assoc (reverse path) (id ∷ []) ls

module _ (g : Graph) (valid : IsValid g) (end : IpAddr) where
  sound :
      (k : ℕ) (u : IpAddr) (visited : List IpAddr) (path : List String) (cost : ℕ)
      (ls : List String) (c : ℕ)
      → Among (ls, c) (explore k g end u visited path cost)
      → (rest : List String) × (total : ℕ) × (ls ≡ reverse path ++ rest)
        × (c ≡ saturated (cost + total))
        × SimplePath g end visited u rest total
  unfolding explore
  sound zero u visited path cost ls c (i, h) = absurd (cc h)
  sound (suc k) u visited path cost ls c m =
      let (id, listed, here) =
        Among-gather (branch (explore k g end) g end u visited path cost)
          (edges_of (lookup u g.nodes)) (ls, c) m in
      let (link, there, _) = valid.named u id listed in
      let hop = far_end-Hop g valid u id link there listed in
      let v = far_end link u in
      elim (Bool-cases (contains visited v)) [
        | inl old ↦ absurd (cc ((rw (there, old) at here).1))
        | inr new ↦ elim (Bool-cases (v == end)) [
          | inl arrived ↦
              elim (Among-cons (ls, c) (reverse (id ∷ path), saturated (cost + link.cost)) []
                (rw (there, new, arrived) at here)) [
                  | inr (i, h) ↦ absurd (cc h)
                  | inl same ↦
                      let is_end : v ≡ end = eq_of_beq v end arrived in
                      (
                        id ∷ [],
                        link.cost,
                        sym (ap (λ p. p.0) same) ∙ reverse-append (id ∷ []) path,
                        sym (ap (λ p. p.1) same),
                        arrive visited u id link.cost (rw is_end at hop) (rw is_end at new),
                      )
                ]
          | inr on_way ↦ elim (Option-cases (lookup v g.nodes)) [
            | inl gone ↦ absurd (cc ((rw (there, new, on_way, gone) at here).1))
            | inr (node, at_v) ↦
                let (rest, total, is_ls, is_c, simple) =
                  sound k v (v ∷ visited) (id ∷ path) (saturated (cost + link.cost)) ls c
                    (rw (there, new, on_way, at_v) at here) in
                (
                  id ∷ rest,
                  link.cost + total,
                  is_ls ∙ joined path id rest,
                  is_c
                      ∙ saturated_add (cost + link.cost) total
                      ∙ ap saturated (regroup cost link.cost total),
                  pass visited u id link.cost v rest total hop new on_way simple,
                )
          ]
        ]
      ]

  full :
      (k : ℕ) (visited : List IpAddr) (u : IpAddr) (path : List String) (cost : ℕ)
      (rest : List String) (total : ℕ)
      → ahead visited g.nodes ≤ k
      → SimplePath g end visited u rest total
      → Among
          (reverse path ++ rest, saturated (cost + total))
          (explore (suc k) g end u visited path cost)
  unfolding explore
  full k visited u path cost rest total few (arrive _ _ id w hop new) =
      let far : far_end hop.link u ≡ end = Hop-far g valid u end id w hop in
      gather-Among (branch (explore k g end) g end u visited path cost)
        (edges_of (lookup u g.nodes)) _ id (Hop-near g valid u end id w hop)
        (rw (hop.found, far, new, beq_refl end)
          (0, ap some (λ i. (reverse-append (id ∷ []) path i, saturated (cost + hop.cost i)))))
  full zero visited u path cost rest total few (pass _ _ id w v ls c hop new on_way simple) =
      absurd (omega (arith, ahead-cons-lt v visited g.nodes (Hop-node g valid u v id w hop) new))
  full (suc k) visited u path cost rest total few (pass _ _ id w v ls c hop new on_way simple) =
      let far : far_end hop.link u ≡ v = Hop-far g valid u v id w hop in
      let fewer = ahead-cons-lt v visited g.nodes (Hop-node g valid u v id w hop) new in
      let (node, at_v) = is_some-some (lookup v g.nodes) (Hop-node g valid u v id w hop) in
      let deeper =
        full k (v ∷ visited) v (id ∷ path) (saturated (cost + hop.link.cost)) ls c (omega arith)
          simple in
      let sum : saturated (saturated (cost + hop.link.cost) + c) ≡ saturated (cost + (w + c)) =
        saturated_add (cost + hop.link.cost) c
        ∙ ap saturated (regroup cost hop.link.cost c)
        ∙ ap (λ x. saturated (cost + (x + c))) hop.cost in
      gather-Among (branch (explore (suc k) g end) g end u visited path cost)
        (edges_of (lookup u g.nodes)) _ id (Hop-near g valid u v id w hop)
        (rw (hop.found, far, new, on_way, at_v) (rw (← sum, ← joined path id ls) deeper))

  -- In a valid graph, the loop over all paths from a node of it to another ends within its rounds and lists
  -- exactly the simple paths, walks that meet no node twice, each with the sum of its links' costs as
  -- a u32 that saturates.
  pub get_all_paths-SimplePath :
      (start : IpAddr)
      → has_node g start ≡ true
      → (start == end) ≡ false
      → (paths : Paths) × (get_all_paths g start end ≡ some paths)
        × ((ls : List String) (c : ℕ)
            → Among (ls, c) paths ↔ (
                (total : ℕ) × (c ≡ saturated total) × SimplePath g end (start ∷ []) start ls total))
  get_all_paths-SimplePath start node apart =
      let k = length g.nodes in
      (
        explore (suc k) g end start (start ∷ []) [] 0,
        get_all_paths-explore g end start node apart,
        λ ls c.
            ((
              λ m.
                  let (rest, total, is_ls, is_c, simple) =
                    sound (suc k) start (start ∷ []) [] 0 ls c m in
                  (total, is_c ∙ ap saturated (zero_add total), rw is_ls simple),
              λ (total, is_c, simple).
                  let here =
                    full k (start ∷ []) start [] 0 ls total (ahead-le-length (start ∷ []) g.nodes)
                      simple in
                  rw (is_c, ← zero_add total) here,
            )),
      )
