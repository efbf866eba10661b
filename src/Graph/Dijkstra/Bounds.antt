-- ===== src/Graph/Dijkstra/Bounds.antt =====
-- How many distances are known, and their sum, when one of them changes.
use zl_zpr_visaservice.Base.{
  ℕ, suc, ◌+◌, ◌≤◌, ◌<◌, ℕ-HasEq, String, String-HasEq, ◌==◌, ◌≡◌, sym, ap, ◌∙◌, true, [], ◌∷◌,
  Option, none, some, lookup, insert, lookup-insert, Map, Bool-cases, inl, inr, if◌then◌else◌,
  arith, some_inj, length, is_some, eq_of_beq, beq_refl,
}
use zl_zpr_visaservice.IpAddr.{IpAddr, IpAddr-HasEq}
use zl_zpr_visaservice.Graph.{Node, Link}
use zl_zpr_visaservice.Graph.Dijkstra.{max_cost}

pub cost-le :
    (id : String) (link : Link) (m : Map String Link)
    → lookup id m ≡ some link
    → link.cost ≤ max_cost m
unfolding lookup
cost-le id link [] h = absurd (cc h)
cost-le id link ((j, x) ∷ m) h = elim (Bool-cases (j == id)) [
  | inl same ↦
      let is_x : x ≡ link = some_inj (rw same at h) in
      let is_cost : x.cost ≡ link.cost = ap (λ l. l.cost) is_x in ground (arith, is_cost)
  | inr other ↦ ground (arith, cost-le id link m (rw other at h))
]

-- the nodes whose distance is known
abbrev pub seen : Map IpAddr ℕ → Map IpAddr Node → ℕ
seen dist [] = 0
seen dist ((n, x) ∷ ns) = (if is_some (lookup n dist) then 1 else 0) + seen dist ns

abbrev pub value : ℕ → Option ℕ → ℕ
value top none = top
value top (some d) = d

-- the sum of the distances, where one that is not known counts as the bound
abbrev pub total : ℕ → Map IpAddr ℕ → Map IpAddr Node → ℕ
total top dist [] = 0
total top dist ((n, x) ∷ ns) = value top (lookup n dist) + total top dist ns

pub seen-le-length : (dist : Map IpAddr ℕ) (ns : Map IpAddr Node) → seen dist ns ≤ length ns
seen-le-length dist [] = omega arith
seen-le-length dist ((n, x) ∷ ns) = ground (arith, seen-le-length dist ns)

pub seen-insert :
    (k : IpAddr) (c : ℕ) (dist : Map IpAddr ℕ) (ns : Map IpAddr Node)
    → seen dist ns ≤ seen (insert k c dist) ns
seen-insert k c dist [] = omega arith
seen-insert k c dist ((n, x) ∷ ns) =
    ground (arith, seen-insert k c dist ns, lookup-insert k n c dist)

pub seen-insert_new :
    (k : IpAddr) (c : ℕ) (dist : Map IpAddr ℕ) (ns : Map IpAddr Node)
    → is_some (lookup k ns) ≡ true
    → lookup k dist ≡ none
    → suc (seen dist ns) ≤ seen (insert k c dist) ns
unfolding lookup
seen-insert_new k c dist [] node new = absurd (cc node)
seen-insert_new k c dist ((n, x) ∷ ns) node new = elim (Bool-cases (n == k)) [
  | inl same ↦
      let is_k : n ≡ k = eq_of_beq n k same in
      rw (is_k, lookup-insert k k c dist, beq_refl k, new) (omega (arith, seen-insert k c dist ns))
  | inr other ↦
      let rest = seen-insert_new k c dist ns (rw other at node) new in
      ground (arith, rest, lookup-insert k n c dist)
]

total-le :
    (top : ℕ) (k : IpAddr) (c : ℕ) (dist : Map IpAddr ℕ) (ns : Map IpAddr Node)
    → c ≤ value top (lookup k dist)
    → total top (insert k c dist) ns ≤ total top dist ns
total-le top k c dist [] h = omega arith
total-le top k c dist ((n, x) ∷ ns) h = elim (Bool-cases (k == n)) [
  | inl same ↦
      rw (← eq_of_beq k n same, lookup-insert k k c dist, beq_refl k)
        (omega (arith, total-le top k c dist ns h))
  | inr other ↦ rw (lookup-insert k n c dist, other) (omega (arith, total-le top k c dist ns h))
]

pub total-lt :
    (top : ℕ) (k : IpAddr) (c : ℕ) (dist : Map IpAddr ℕ) (ns : Map IpAddr Node)
    → is_some (lookup k ns) ≡ true
    → c < value top (lookup k dist)
    → total top (insert k c dist) ns < total top dist ns
unfolding lookup
total-lt top k c dist [] node h = absurd (cc node)
total-lt top k c dist ((n, x) ∷ ns) node h = elim (Bool-cases (n == k)) [
  | inl same ↦
      rw (eq_of_beq n k same, lookup-insert k k c dist, beq_refl k)
        (omega (arith, total-le top k c dist ns))
  | inr other ↦
      let rest = total-lt top k c dist ns (rw other at node) h in
      elim (Bool-cases (k == n)) [
        | inl same ↦ absurd (cc (sym other ∙ ap (λ y. n == y) (eq_of_beq k n same) ∙ beq_refl n))
        | inr unlike ↦ rw (lookup-insert k n c dist, unlike) (omega (arith, rest))
      ]
]
