-- ===== src/Router/Cache/Kept.antt =====
-- Routes over none of the links that a topology loses stay what they are.
use zl_zpr_visaservice.Base.{
  ℕ, String, String-HasEq, ◌≡◌, refl, ap, ◌∙◌, Bool, true, false, List, [], ◌∷◌, none,
  if◌then◌else◌, lookup, contains, arith, Bool-cases, inl, inr, beq_refl, contains-append, Among,
  Among-cons,
}
use zl_zpr_visaservice.IpAddr.{IpAddr, IpAddr-HasEq}
use zl_zpr_visaservice.Eval.{Route}
use zl_zpr_visaservice.Graph.{Graph}
use zl_zpr_visaservice.Graph.Walks.{Hop}
use zl_zpr_visaservice.Graph.AllPaths.Simple.{SimplePath, arrive, pass}
use zl_zpr_visaservice.Router.{RouteCacheKey-HasEq, links_of}
use zl_zpr_visaservice.Router.Cache.{AllRoutes}

-- a link of a route is a link of the list
links_of-Among :
    (r : Route) (routes : List Route) (id : String)
    → Among r routes
    → contains r.links id ≡ true
    → contains (links_of routes) id ≡ true
links_of-Among r [] id (i, h) within = absurd (cc h)
links_of-Among r (x ∷ routes) id m within = elim (Among-cons r x routes m) [
  | inl here ↦
      rw (contains-append id x.links (links_of routes), ap (λ y. contains y.links id) here, within)
        refl
  | inr later ↦
      rw (contains-append id x.links (links_of routes), links_of-Among r routes id later within)
        (ground arith)
]

-- the links for which `gone` holds are no longer there, and nothing else has changed
abbrev pub KeptBut : (String → Bool) → Graph → Graph → Type 0
KeptBut gone g g' = (i : String) → lookup i g'.edges ≡ (if gone i then none else lookup i g.edges)

module _ (gone : String → Bool) (g g' : Graph) (kept : KeptBut gone g g') where
  Hop-kept :
      (u v : IpAddr) (id : String) (w : ℕ) → gone id ≡ false → Hop g u id w v → Hop g' u id w v
  Hop-kept u v id w stays h = record {
    link = h.link;
    found = kept id ∙ rw stays h.found;
    cost = h.cost;
    ends = h.ends;
  }

  Hop-before : (u v : IpAddr) (id : String) (w : ℕ) → Hop g' u id w v → Hop g u id w v
  Hop-before u v id w h = record {
    link = h.link;
    found = elim (Bool-cases (gone id)) [
      | inl away ↦ absurd (cc (rw (kept id, away) at h.found))
      | inr stays ↦ rw (kept id, stays) at h.found
    ];
    cost = h.cost;
    ends = h.ends;
  }

  SimplePath-kept :
      (end u : IpAddr) (visited : List IpAddr) (ls : List String) (c : ℕ)
      → ((id : String) → contains ls id ≡ true → gone id ≡ false)
      → SimplePath g end visited u ls c
      → SimplePath g' end visited u ls c
  SimplePath-kept end u visited ls c stays (arrive _ _ id w hop new) =
      arrive visited u id w (Hop-kept u end id w (stays id (rw (beq_refl id) refl)) hop) new
  SimplePath-kept end u visited ls c stays (pass _ _ id w v ls' c' hop new on_way simple) =
      pass visited u id w v ls' c' (Hop-kept u v id w (stays id (rw (beq_refl id) refl)) hop) new
        on_way
        (SimplePath-kept end v (v ∷ visited) ls' c' (λ i within. stays i (ground (arith, within)))
          simple)

  SimplePath-before :
      (end u : IpAddr) (visited : List IpAddr) (ls : List String) (c : ℕ)
      → SimplePath g' end visited u ls c
      → SimplePath g end visited u ls c
  SimplePath-before end u visited ls c (arrive _ _ id w hop new) =
      arrive visited u id w (Hop-before u end id w hop) new
  SimplePath-before end u visited ls c (pass _ _ id w v ls' c' hop new on_way simple) =
      pass visited u id w v ls' c' (Hop-before u v id w hop) new on_way
        (SimplePath-before end v (v ∷ visited) ls' c' simple)

  -- a list of routes over none of these links stays complete
  pub AllRoutes-kept :
      (a b : IpAddr) (routes : List Route)
      → ((id : String) → contains (links_of routes) id ≡ true → gone id ≡ false)
      → AllRoutes g a b routes
      → AllRoutes g' a b routes
  AllRoutes-kept a b routes stays all = record {
    home = all.home;
    away = λ other r. (
      (λ m.
          let h = (all.away other r).0 m in
          record {
            total = h.total;
            shown = h.shown;
            simple =
                SimplePath-kept b a (a ∷ []) r.links h.total
                  (λ id within. stays id (links_of-Among r routes id m within)) h.simple;
          }),
      λ h. (all.away other r).1 (record {
        total = h.total;
        shown = h.shown;
        simple = SimplePath-before b a (a ∷ []) r.links h.total h.simple;
      }),
    );
  }
