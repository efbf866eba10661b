-- ===== src/Router/Cache/Commit.antt =====
-- What a call of `get_routes` answers at its second lock.
use zl_zpr_visaservice.Base.{
  ℕ-HasEq, String-HasEq, ◌==◌, ◌≡◌, refl, ap, ◌∙◌, List, Option, none, some, lookup, lookup-insert,
  contains, arith, Bool-cases, Option-cases, inl, inr, eq_of_beq, some_inj,
}
use zl_zpr_visaservice.IpAddr.{IpAddr, IpAddr-HasEq}
use zl_zpr_visaservice.Eval.{Route}
use zl_zpr_visaservice.Router.{RouteHint, RouteCacheKey, RouteCacheKey-HasEq, RouterInner, links_of}
use zl_zpr_visaservice.Router.Routes.{committed, commit, get_routes}
use zl_zpr_visaservice.Router.Cache.{AllRoutes, IsCoherent, compute_routes-AllRoutes}
use zl_zpr_visaservice.Router.Cache.Evict.{index_links_lem}
use zl_zpr_visaservice.Router.Cache.Coherent.{Moves}

abbrev pub key_of : IpAddr → IpAddr → Option RouteHint → RouteCacheKey
key_of a b hint = record { a = a; b = b; hint = hint }

-- storing all routes of a key
committed-IsCoherent :
    (key : RouteCacheKey) (routes : List Route) (s : RouterInner)
    → AllRoutes s.topology key.a key.b routes
    → IsCoherent s
    → IsCoherent (committed key routes s).1
committed-IsCoherent key routes s all coherent = record {
  current = coherent.current;
  fresh = λ q rs found. elim (Bool-cases (key == q)) [
    | inl same ↦
        rw
          (
            ← eq_of_beq key q same,
            ← some_inj (rw (lookup-insert key q routes s.route_cache, same) at found),
          )
          all
    | inr other ↦
        coherent.fresh q rs (rw (lookup-insert key q routes s.route_cache, other) at found)
  ];
  indexed = λ q rs id found within.
      index_links_lem key q (links_of routes) id s.link_to_cache_keys
      ∙ elim (Bool-cases (key == q)) [
        | inl same ↦
            let is_routes : routes ≡ rs =
              some_inj (rw (lookup-insert key q routes s.route_cache, same) at found) in
            rw (ap (λ x. contains (links_of x) id) is_routes, within, same) (ground arith)
        | inr other ↦
            rw
              (coherent.indexed q rs id
                (rw (lookup-insert key q routes s.route_cache, other) at found) within)
              refl
      ];
}

-- what a call that found no routes in the cache at `t` answers at `gap`
abbrev pub Reads : RouteCacheKey → RouterInner → Option (List Route × RouterInner) → Type 0
Reads key gap none = ⊥
Reads key gap (some (routes, u)) =
    AllRoutes gap.topology key.a key.b routes
    × IsCoherent u
    × (u.topo_generation ≡ gap.topo_generation)
    × (u.topology ≡ gap.topology)

commit-Reads :
    (key : RouteCacheKey) (t gap : RouterInner) (routes : List Route)
    → IsCoherent gap
    → Moves t gap
    → AllRoutes t.topology key.a key.b routes
    → Reads key gap (commit key t.topo_generation routes gap)
commit-Reads key t gap routes coherent moves all =
    elim (Bool-cases (gap.topo_generation == t.topo_generation)) [
      | inr moved ↦
          let (now, made, all_now) =
            compute_routes-AllRoutes gap.topology key.a key.b coherent.current.valid in
          rw (moved, made) (all_now, coherent, refl, refl)
      | inl same ↦ elim (Option-cases (lookup key gap.route_cache)) [
        | inr (stored, found) ↦
            rw (same, found) (coherent.fresh key stored found, coherent, refl, refl)
        | inl absent ↦
            let is_top : gap.topology ≡ t.topology = elim moves [
              | inl less ↦
                  absurd (omega (arith, less, eq_of_beq gap.topo_generation t.topo_generation same))
              | inr (_, top) ↦ top
            ] in
            let all_gap : AllRoutes gap.topology key.a key.b routes = rw is_top all in
            rw (same, absent)
              (all_gap, committed-IsCoherent key routes gap all_gap coherent, refl, refl)
      ]
    ]

pub get_routes-Reads :
    (t gap : RouterInner) (a b : IpAddr) (hint : Option RouteHint)
    → IsCoherent t
    → IsCoherent gap
    → Moves t gap
    → lookup (key_of a b hint) t.route_cache ≡ none
    → Reads (key_of a b hint) gap (get_routes t gap a b hint)
unfolding get_routes
get_routes-Reads t gap a b hint coherent coherent' moves miss =
    let (routes, made, all) = compute_routes-AllRoutes t.topology a b coherent.current.valid in
    rw (get_routes, miss, made) (commit-Reads (key_of a b hint) t gap routes coherent' moves all)
