-- ===== src/Router/Cache/Coherent.antt =====
-- States that keep a coherent cache: what leaves of it, what it is flushed for, and a new topology.
use zl_zpr_visaservice.Base.{
  ◌<◌, String, String-HasEq, ◌≡◌, ◌⊎◌, refl, ◌∙◌, Bool, true, false, List, [], Option, some, lookup,
  contains, arith, Bool-cases, inl, inr, Result, ok, err, panic,
}
use zl_zpr_visaservice.IpAddr.{IpAddr-HasEq}
use zl_zpr_visaservice.Eval.{Route}
use zl_zpr_visaservice.Graph.{Graph, TopologyError}
use zl_zpr_visaservice.Graph.Change.Current.{IsCurrent, Leaves, Safe}
use zl_zpr_visaservice.Router.{
  RouteCacheKey, RouteCacheKey-HasEq, RouterInner, links_of, with_topology, flushed, reported,
}
use zl_zpr_visaservice.Router.Cache.{IsCoherent}
use zl_zpr_visaservice.Router.Cache.Kept.{AllRoutes-kept}
use zl_zpr_visaservice.Router.Cache.Evict.{IsWithout}
use zl_zpr_visaservice.Router.Cache.Lost.{Loses}

-- the topology is as it was, or the generation has moved on
abbrev pub Moves : RouterInner → RouterInner → Type 0
Moves s s' =
    (s.topo_generation < s'.topo_generation)
    ⊎ ((s'.topo_generation ≡ s.topo_generation) × (s'.topology ≡ s.topology))

-- a coherent state, unless there is an error
abbrev pub Keeps : RouterInner → Result TopologyError RouterInner → Type 0
Keeps s (ok s') = IsCoherent s' × Moves s s'
Keeps s (err e) = Unit
Keeps s panic = ⊥

-- the same of a method that leaves a state also where it reports an error
abbrev pub Reports :
    RouterInner → Result TopologyError (RouterInner × Option TopologyError) → Type 0
Reports s (ok (s', e)) = IsCoherent s' × Moves s s'
Reports s (err e) = ⊥
Reports s panic = ⊥

abbrev pub Unused : (String → Bool) → RouterInner → Type 0
Unused gone s =
    (key : RouteCacheKey) (routes : List Route) (id : String)
    → lookup key s.route_cache ≡ some routes
    → contains (links_of routes) id ≡ true
    → gone id ≡ false

pub with_topology-Keeps :
    (s t : RouterInner) (gone : String → Bool) (r : Result TopologyError Graph)
    → t.topo_generation ≡ s.topo_generation
    → IsCoherent t
    → Unused gone t
    → Leaves (Loses gone t.topology) r
    → Keeps s (with_topology t r)
with_topology-Keeps s t gone (ok g') same coherent unused (current, kept) = (
  record {
    current = current;
    fresh = λ key routes found.
        AllRoutes-kept gone t.topology g' kept key.a key.b routes (λ id. unused key routes id found)
          (coherent.fresh key routes found);
    indexed = coherent.indexed;
  },
  inl (omega (arith, same)),
)
with_topology-Keeps s t gone (err e) same coherent unused h = tt
with_topology-Keeps s t gone panic same coherent unused h = h

-- a key that stays was there before
pub stays :
    (ks : List RouteCacheKey) (s t : RouterInner)
    → IsWithout ks s t
    → (key : RouteCacheKey) (routes : List Route) → lookup key t.route_cache ≡ some routes
    → (lookup key s.route_cache ≡ some routes) × (contains ks key ≡ false)
stays ks s t without key routes found = elim (Bool-cases (contains ks key)) [
  | inl out ↦ absurd (cc (rw (without.cache key, out) at found))
  | inr within ↦ (rw (without.cache key, within) at found, within)
]

pub without-IsCoherent :
    (ks : List RouteCacheKey) (s t : RouterInner) → IsWithout ks s t → IsCoherent s → IsCoherent t
without-IsCoherent ks s t without coherent = record {
  current = rw (without.topology) coherent.current;
  fresh = λ key routes found.
      rw (without.topology) (coherent.fresh key routes (stays ks s t without key routes found).0);
  indexed = λ key routes id found within.
      let (was, out) = stays ks s t without key routes found in
      without.index id key out ∙ coherent.indexed key routes id was within;
}

pub blank-IsCoherent : (s : RouterInner) → s.route_cache ≡ [] → IsCurrent s.topology → IsCoherent s
unfolding lookup
blank-IsCoherent s blank current = record {
  current = current;
  fresh = λ key routes found. absurd (cc (rw blank at found));
  indexed = λ key routes id found. absurd (cc (rw blank at found));
}

pub flushed-Keeps :
    (s : RouterInner) (r : Result TopologyError Graph)
    → Safe r
    → Keeps s (with_topology (flushed s) r)
flushed-Keeps s (ok g) current = (blank-IsCoherent _ refl current, inl (omega arith))
flushed-Keeps s (err e) h = h
flushed-Keeps s panic h = h

pub reported-Reports :
    (s t : RouterInner) (r : Result TopologyError RouterInner)
    → IsCoherent t
    → Moves s t
    → Keeps s r
    → Reports s (reported t r)
reported-Reports s t (ok s') coherent moves h = h
reported-Reports s t (err e) coherent moves h = (coherent, moves)
reported-Reports s t panic coherent moves h = h
