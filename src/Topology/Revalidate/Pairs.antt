-- ===== src/Topology/Revalidate/Pairs.antt =====
-- The pairs of addresses that stand for edges, and those that a pass looks at.
use zl_zpr_visaservice.Base.{
  String, String-HasEq, ◌==◌, ◌≡◌, refl, sym, ap, ◌∙◌, true, false, List, [], ◌∷◌, some, Map, map,
  lookup, contains, arith, Bool-cases, inl, inr, eq_of_beq, beq_refl, contains-set_insert,
  contains-to_set, some_inj,
}
use zl_zpr_visaservice.IpAddr.{IpAddr, IpAddr-HasEq, v4, v6}
use zl_zpr_visaservice.Graph.{Link, Pair-HasEq}
use zl_zpr_visaservice.Graph.Dijkstra.{ip_leb}
use zl_zpr_visaservice.Router.Routes.{RouterLink, shown_link}
use zl_zpr_visaservice.Topology.{Edges}
use zl_zpr_visaservice.Topology.Revalidate.{canonical_pair, work_edges}

ip_leb_total : (a b : IpAddr) → ip_leb a b ≡ false → ip_leb b a ≡ true
ip_leb_total (v4 a) (v4 b) h = ground arith
ip_leb_total (v4 a) (v6 b) h = absurd (cc h)
ip_leb_total (v6 a) (v4 b) h = refl
ip_leb_total (v6 a) (v6 b) h = ground arith

ip_leb_antisym : (a b : IpAddr) → ip_leb a b ≡ true → ip_leb b a ≡ true → a ≡ b
ip_leb_antisym (v4 a) (v4 b) h k = ground arith
ip_leb_antisym (v4 a) (v6 b) h k = absurd (cc k)
ip_leb_antisym (v6 a) (v4 b) h k = absurd (cc h)
ip_leb_antisym (v6 a) (v6 b) h k = ground arith

pub canonical_pair_comm : (a b : IpAddr) → canonical_pair a b ≡ canonical_pair b a
canonical_pair_comm a b = elim (Bool-cases (ip_leb a b)) [
  | inl below ↦ elim (Bool-cases (ip_leb b a)) [
    | inl above ↦
        rw (below, above)
          (ap (λ x. (x, b)) (ip_leb_antisym a b below above)
            ∙ ap (λ x. (b, x)) (sym (ip_leb_antisym a b below above)))
    | inr above ↦ rw (below, above) refl
  ]
  | inr above ↦ rw (above, ip_leb_total a b above) refl
]

-- a pair in its order
abbrev pub IsOrdered : IpAddr × IpAddr → Type 0
IsOrdered p = canonical_pair p.0 p.1 ≡ p

canonical_pair-IsOrdered : (a b : IpAddr) → IsOrdered (canonical_pair a b)
canonical_pair-IsOrdered a b = elim (Bool-cases (ip_leb a b)) [
  | inl below ↦ rw (below, below) refl
  | inr above ↦ rw (above, ip_leb_total a b above) refl
]

persisted-IsOrdered :
    (edges : Edges) (p : IpAddr × IpAddr)
    → contains (map (λ e. canonical_pair e.0 e.1) edges) p ≡ true
    → IsOrdered p
persisted-IsOrdered [] p h = absurd (cc h)
persisted-IsOrdered (e ∷ edges) p h = elim (Bool-cases (canonical_pair e.0 e.1 == p)) [
  | inl here ↦ rw (← eq_of_beq (canonical_pair e.0 e.1) p here) (canonical_pair-IsOrdered e.0 e.1)
  | inr other ↦ persisted-IsOrdered edges p (rw other at h)
]

pub work_edges-IsOrdered :
    (edges : Edges) (links : List RouterLink) (p : IpAddr × IpAddr)
    → contains (work_edges edges links) p ≡ true
    → IsOrdered p
unfolding work_edges
work_edges-IsOrdered edges [] p h =
    persisted-IsOrdered edges p
      (sym (contains-to_set p (map (λ e. canonical_pair e.0 e.1) edges)) ∙ h)
work_edges-IsOrdered edges (link ∷ links) p h =
    elim (Bool-cases (canonical_pair link.a link.b == p)) [
      | inl here ↦
          rw (← eq_of_beq (canonical_pair link.a link.b) p here)
            (canonical_pair-IsOrdered link.a link.b)
      | inr other ↦ work_edges-IsOrdered edges links p (
          rw (contains-set_insert (canonical_pair link.a link.b) p (work_edges edges links), other)
            at h)
    ]

pub live_edge :
    (edges : Edges) (m : Map String Link) (id : String) (link : Link)
    → lookup id m ≡ some link
    → contains (work_edges edges (map (λ e. shown_link e.0 e.1) m)) (canonical_pair link.a link.b)
      ≡ true
unfolding work_edges lookup
live_edge edges [] id link found = absurd (cc found)
live_edge edges ((i, l) ∷ m) id link found =
    contains-set_insert (canonical_pair l.a l.b) (canonical_pair link.a link.b)
      (work_edges edges (map (λ e. shown_link e.0 e.1) m))
    ∙ elim (Bool-cases (i == id)) [
      | inl here ↦ rw (some_inj (rw here at found), beq_refl (canonical_pair link.a link.b)) refl
      | inr other ↦ rw (live_edge edges m id link (rw other at found)) (ground arith)
    ]
