-- ===== src/Graph/Change/Current.antt =====
-- What a change leaves: a current graph, which is valid and has its best routes.
use zl_zpr_visaservice.Base.{
  ℕ, String, String-HasEq, ◌==◌, ◌≡◌, refl, sym, ◌∙◌, List, [], some, lookup, if◌then◌else◌, Result,
  ok, err, panic,
}
use zl_zpr_visaservice.IpAddr.{IpAddr, IpAddr-HasEq}
use zl_zpr_visaservice.Graph.{Graph, Link, TopologyError, Pair-HasEq}
use zl_zpr_visaservice.Graph.Dijkstra.{Table, recompute}
use zl_zpr_visaservice.Graph.Dijkstra.Shortest.{Shortest}
use zl_zpr_visaservice.Graph.Dijkstra.Best.{IsBest, recompute_lem}
use zl_zpr_visaservice.Graph.Walks.{IsValid, Walk, stay, walk}

-- between two changes
pub record IsCurrent (g : Graph) : Type 0 where
  pub valid : IsValid g
  pub best : IsBest g g.best_routes

pub blank-IsCurrent : IsCurrent (record { nodes = []; edges = []; best_routes = [] })
unfolding lookup
blank-IsCurrent = record {
  valid = record {
    apart = λ id link found. absurd (cc found);
    at_a = λ id link found. absurd (cc found);
    at_b = λ id link found. absurd (cc found);
    named = λ n id within. absurd (cc within);
  };
  best = record {
    sound = λ k r found. absurd (cc found);
    full = λ a b ls c node w other. absurd (cc node);
  };
}

-- no panic, and a graph with the property where there is no error
abbrev pub Leaves : (Graph → Type 0) → Result TopologyError Graph → Type 0
Leaves P (ok g) = P g
Leaves P (err e) = Unit
Leaves P panic = ⊥

abbrev pub Safe : Result TopologyError Graph → Type 0
Safe = Leaves IsCurrent

pub Leaves-mono :
    (P Q : Graph → Type 0) (r : Result TopologyError Graph)
    → ((g : Graph) → P g → Q g)
    → Leaves P r
    → Leaves Q r
Leaves-mono P Q (ok g) h p = h g p
Leaves-mono P Q (err e) h p = p
Leaves-mono P Q panic h p = p

-- a current graph with one more link
abbrev pub IsAdded : Graph → String → Link → Graph → Type 0
IsAdded g id link g' =
    IsCurrent g'
    × ((i : String) → lookup i g'.edges ≡ (if id == i then some link else lookup i g.edges))

module _ (g g' : Graph) (same : (i : String) → lookup i g'.edges ≡ lookup i g.edges) where
  pub Walk-same : {a b : IpAddr} {ls : List String} {c : ℕ} → Walk g a b ls c → Walk g' a b ls c
  Walk-same stay = stay
  Walk-same (walk w id k u h) =
      walk (Walk-same w) id k u
        (record { link = h.link; found = same id ∙ h.found; cost = h.cost; ends = h.ends })

module _ (g g' : Graph) (same : (i : String) → lookup i g'.edges ≡ lookup i g.edges) where
  pub Shortest-same :
      {a b : IpAddr} {ls : List String} {c : ℕ} → Shortest g a b ls c → Shortest g' a b ls c
  Shortest-same s = record {
    total = s.total;
    way = Walk-same g g' same s.way;
    least = λ ls' c' w. s.least ls' c' (Walk-same g' g (λ i. sym (same i)) w);
    shown = s.shown;
  }

pub recompute-IsCurrent :
    (g : Graph)
    → IsValid g
    → (t : Table) × (recompute g ≡ ok (record g { best_routes = t }))
      × IsCurrent (record g { best_routes = t })
recompute-IsCurrent g valid =
    let (t, made, best) = recompute_lem g valid in
    let g' = record g { best_routes = t } in
    (
      t,
      made,
      record {
        valid = record {
          apart = valid.apart;
          at_a = valid.at_a;
          at_b = valid.at_b;
          named = valid.named;
        };
        best = record {
          sound = λ k r found. Shortest-same g g' (λ i. refl) (best.sound k r found);
          full =
              λ a b ls c node w other. best.full a b ls c node (Walk-same g' g (λ i. refl) w) other;
        };
      },
    )

pub recompute-Safe : (g : Graph) → IsValid g → Safe (recompute g)
recompute-Safe g valid = let (t, made, current) = recompute-IsCurrent g valid in rw made current
