-- ===== src/Router/Cache/Evict.antt =====
-- Keys that leave the cache, and the index of a key's links.
use zl_zpr_visaservice.Base.{
  String, String-HasEq, ◌==◌, ◌≡◌, refl, sym, ap, ◌∙◌, false, not, ◌&&◌, ◌||◌, List, [], ◌∷◌, none,
  if◌then◌else◌, is_empty, Map, lookup, insert, remove, lookup-insert, lookup-remove, contains,
  filter, set_insert, to_set, contains-filter_ne, contains-set_insert, arith, Bool-cases,
  Option-cases, inl, inr, eq_of_beq,
}
use zl_zpr_visaservice.Router.{
  RouteCacheKey, RouteCacheKey-HasEq, RouterInner, keys_of, links_of, unlinked, unlink_all, evict,
  invalidate_keys,
}
use zl_zpr_visaservice.Router.Routes.{index_links}
use zl_zpr_visaservice.Router.Cache.{indexed_at}

abbrev Index : Type 0
Index = Map String (List RouteCacheKey)

-- the set of a link without a key
shrunk :
    (key q : RouteCacheKey) (id i : String) (rest : List RouteCacheKey) (index : Index)
    → contains rest q ≡ indexed_at index id q
    → indexed_at (if is_empty rest then remove id index else insert id rest index) i q
      ≡ indexed_at index i q
shrunk key q id i [] index same = elim (Bool-cases (id == i)) [
  | inl here ↦
      rw (lookup-remove id i index, here)
        (same ∙ ap (λ x. indexed_at index x q) (eq_of_beq id i here))
  | inr other ↦ rw (lookup-remove id i index, other) refl
]
shrunk key q id i (k ∷ ks) index same = elim (Bool-cases (id == i)) [
  | inl here ↦
      rw (lookup-insert id i (k ∷ ks) index, here)
        (same ∙ ap (λ x. indexed_at index x q) (eq_of_beq id i here))
  | inr other ↦ rw (lookup-insert id i (k ∷ ks) index, other) refl
]

unlinked_lem :
    (key q : RouteCacheKey) (id i : String) (index : Index)
    → (key == q) ≡ false
    → indexed_at (unlinked key id (lookup id index) index) i q ≡ indexed_at index i q
unlinked_lem key q id i index other = elim (Option-cases (lookup id index)) [
  | inl absent ↦ rw absent refl
  | inr (ks, found) ↦ rw found (
      shrunk key q id i (filter (λ k. not (k == key)) ks) index
        (contains-filter_ne key q ks ∙ rw (other, found) (ground arith)))
]

unlink_all_lem :
    (key q : RouteCacheKey) (ids : List String) (i : String) (index : Index)
    → (key == q) ≡ false
    → indexed_at (unlink_all key ids index) i q ≡ indexed_at index i q
unlink_all_lem key q [] i index other = refl
unlink_all_lem key q (id ∷ ids) i index other =
    unlink_all_lem key q ids i (unlinked key id (lookup id index) index) other
    ∙ unlinked_lem key q id i index other

-- the cache without some keys
pub record IsWithout (ks : List RouteCacheKey) (s s' : RouterInner) : Type 0 where
  pub topology : s'.topology ≡ s.topology
  pub generation : s'.topo_generation ≡ s.topo_generation
  pub cache :
      (q : RouteCacheKey)
      → lookup q s'.route_cache ≡ (if contains ks q then none else lookup q s.route_cache)
  pub index :
      (i : String) (q : RouteCacheKey)
      → contains ks q ≡ false
      → indexed_at s'.link_to_cache_keys i q ≡ indexed_at s.link_to_cache_keys i q

evict-IsWithout :
    (key : RouteCacheKey) (s : RouterInner)
    → IsWithout (key ∷ []) s (evict key (lookup key s.route_cache) s)
evict-IsWithout key s = elim (Option-cases (lookup key s.route_cache)) [
  | inl absent ↦ rw absent (record {
    topology = refl;
    generation = refl;
    cache = λ q. elim (Bool-cases (key == q)) [
      | inl same ↦ rw same (ap (λ k. lookup k s.route_cache) (sym (eq_of_beq key q same)) ∙ absent)
      | inr other ↦ rw other refl
    ];
    index = λ i q out. refl;
  })
  | inr (routes, found) ↦ rw found (record {
    topology = refl;
    generation = refl;
    cache = λ q. lookup-remove key q s.route_cache ∙ ground arith;
    index = λ i q out.
        unlink_all_lem key q (to_set (links_of routes)) i s.link_to_cache_keys
          (ground (arith, out));
  })
]

pub invalidate_keys-IsWithout :
    (ks : List RouteCacheKey) (s : RouterInner) → IsWithout ks s (invalidate_keys ks s)
unfolding invalidate_keys
invalidate_keys-IsWithout [] s = record {
  topology = refl;
  generation = refl;
  cache = λ q. refl;
  index = λ i q out. refl;
}
invalidate_keys-IsWithout (key ∷ ks) s =
    let first = evict-IsWithout key s in
    let rest = invalidate_keys-IsWithout ks (evict key (lookup key s.route_cache) s) in
    record {
      topology = rest.topology ∙ first.topology;
      generation = rest.generation ∙ first.generation;
      cache = λ q. rest.cache q ∙ rw (first.cache q) (ground arith);
      index =
          λ i q out. rest.index i q (ground (arith, out)) ∙ first.index i q (ground (arith, out));
    }

pub index_links_lem :
    (key q : RouteCacheKey) (ids : List String) (i : String) (index : Index)
    → indexed_at (index_links key ids index) i q
      ≡ (indexed_at index i q || (contains ids i && key == q))
index_links_lem key q [] i index = ground arith
index_links_lem key q (id ∷ ids) i index =
    let next = insert id (set_insert key (keys_of (lookup id index))) index in
    index_links_lem key q ids i next ∙ elim (Bool-cases (id == i)) [
      | inl here ↦
          rw
            (
              lookup-insert id i (set_insert key (keys_of (lookup id index))) index,
              here,
              contains-set_insert key q (keys_of (lookup id index)),
              ap (λ x. indexed_at index x q) (eq_of_beq id i here),
            )
            (ground arith)
      | inr other ↦
          rw (lookup-insert id i (set_insert key (keys_of (lookup id index))) index, other) refl
    ]
