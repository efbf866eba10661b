-- ===== src/Graph/Dijkstra/Chain.antt =====
-- The links of a tree lead back to the start: following them ends, within one round more than `prev`
-- has entries, and yields the walk.
use mathlib.Core.Path.{subst}
use mathlib.Core.List.{append_assoc, append-nil}
use zl_zpr_visaservice.Base.{
  ℕ, zero, suc, ◌≤◌, ◌<◌, String, String-HasEq, ◌==◌, ◌≡◌, ◌⊎◌, refl, sym, ap, ◌∙◌, List, [], ◌∷◌,
  ◌++◌, none, some, lookup, remove, lookup-remove, Map, Bool-cases, inl, inr, arith, some_inj,
  length, length-append, is_some, eq_of_beq, length-remove-lt, ok,
}
use zl_zpr_visaservice.IpAddr.{IpAddr, IpAddr-HasEq}
use zl_zpr_visaservice.Graph.{Graph, Link, far_end}
use zl_zpr_visaservice.Graph.Dijkstra.{trace}
use zl_zpr_visaservice.Graph.Walks.{IsValid, Hop-origin}
use zl_zpr_visaservice.Graph.Dijkstra.Tree.{Tree, root, grow}

module _ (g : Graph) (start : IpAddr) where
  -- so many links back to the start
  abbrev Chain : Map IpAddr String → ℕ → IpAddr → Type 0
  Chain prev zero u = u ≡ start
  Chain prev (suc n) u =
      (id : String) × (link : Link) × (lookup u prev ≡ some id)
      × (lookup id g.edges ≡ some link)
      × Chain prev n (far_end link u)

  Chain-unique :
      (prev : Map IpAddr String)
      → lookup start prev ≡ none
      → (n m : ℕ) (u : IpAddr) → Chain prev n u
      → Chain prev m u
      → n ≡ m
  Chain-unique prev none_at zero zero u c d = refl
  Chain-unique prev none_at zero (suc m) u c (id, link, at_u, found, d) =
      absurd (cc (sym none_at ∙ ap (λ x. lookup x prev) (sym c) ∙ at_u))
  Chain-unique prev none_at (suc n) zero u (id, link, at_u, found, c) d =
      absurd (cc (sym none_at ∙ ap (λ x. lookup x prev) (sym d) ∙ at_u))
  Chain-unique prev none_at (suc n) (suc m) u (id, link, at_u, found, c)
        (id', link', at_u', found', d) =
      let same_id : id ≡ id' = some_inj (sym at_u ∙ at_u') in
      let same : link ≡ link' =
        some_inj (sym found ∙ ap (λ i. lookup i g.edges) same_id ∙ found') in
      ap suc (
        Chain-unique prev none_at n m (far_end link u) c
          (subst (λ l. Chain prev m (far_end l u)) (sym same) d))

  -- a chain that does not pass through a node does without its link
  around :
      (prev : Map IpAddr String) (u : IpAddr) (n : ℕ) (v : IpAddr)
      → Chain prev n v
      → Chain (remove u prev) n v ⊎ ((k : ℕ) × (k ≤ n) × Chain prev k u)
  around prev u zero v c = inl c
  around prev u (suc n) v (id, link, at_v, found, c) = elim (Bool-cases (u == v)) [
    | inl same ↦ inr (suc n, omega arith, rw (eq_of_beq u v same) (id, link, at_v, found, c))
    | inr other ↦ elim (around prev u n (far_end link v) c) [
      | inl avoids ↦ inl (id, link, rw (lookup-remove u v prev, other) at_v, found, avoids)
      | inr (k, le, passes) ↦ inr (k, omega arith, passes)
    ]
  ]

  Chain-le :
      (n : ℕ) (prev : Map IpAddr String) (u : IpAddr)
      → lookup start prev ≡ none
      → Chain prev n u
      → n ≤ length prev
  Chain-le zero prev u none_at c = omega arith
  Chain-le (suc n) prev u none_at (id, link, at_u, found, c) =
      elim (around prev u n (far_end link u) c) [
        | inl avoids ↦
            let still : lookup start (remove u prev) ≡ none = elim (Bool-cases (u == start)) [
              | inl same ↦ rw (lookup-remove u start prev, same) refl
              | inr other ↦ rw (lookup-remove u start prev, other) none_at
            ] in
            let fewer = length-remove-lt u prev (ap is_some at_u) in
            omega (arith, fewer, Chain-le n (remove u prev) (far_end link u) still avoids)
        | inr (k, le, passes) ↦
            let same = Chain-unique prev none_at k (suc n) u passes (id, link, at_u, found, c) in
            absurd (omega (arith, same, le))
      ]

  module _ (valid : IsValid g) (dist : Map IpAddr ℕ) (prev : Map IpAddr String)
      (none_at : lookup start prev ≡ none) where
    Tree-Chain :
        {u : IpAddr} {ls : List String} {c : ℕ}
        → Tree g start dist prev u ls c
        → Chain prev (length ls) u
    Tree-Chain root = refl
    Tree-Chain (grow {v} {ls} t id w u dv du p h at_v at_u le) =
        let longer : suc (length ls) ≡ length (ls ++ (id ∷ [])) =
          omega (arith, length-append ls (id ∷ [])) in
        subst (λ n. Chain prev n u) longer
          (
            id,
            h.link,
            p,
            h.found,
            subst (Chain prev (length ls)) (sym (Hop-origin g valid v u id w h)) (Tree-Chain t),
          )

    traced :
        (fuel : ℕ) {u : IpAddr} {ls : List String} {c : ℕ} (path : List String)
        → Tree g start dist prev u ls c
        → length ls < fuel
        → trace fuel g.edges prev u path ≡ ok (ls ++ path)
    unfolding trace
    traced zero path t le = absurd (omega arith)
    traced (suc fuel) path root le = rw (trace, none_at) refl
    traced (suc fuel) path (grow {v} {ls} t id w u dv du p h at_v at_u step) le =
        let rest = traced fuel (id ∷ path) t (omega (arith, length-append ls (id ∷ []))) in
        let is_v : far_end h.link u ≡ v = Hop-origin g valid v u id w h in
        rw (trace, p, h.found, is_v) (rest ∙ ap ok (sym (append_assoc ls (id ∷ []) path)))

    pub trace-Tree :
        {u : IpAddr} {ls : List String} {c : ℕ}
        → Tree g start dist prev u ls c
        → trace (suc (length prev)) g.edges prev u [] ≡ ok ls
    trace-Tree {u} {ls} t =
        traced (suc (length prev)) [] t
          (omega (arith, Chain-le (length ls) prev u none_at (Tree-Chain t)))
        ∙ ap ok (append-nil ls)
