-- ===== src/Router/Cache/Change.antt =====
-- Every change of the router leaves a coherent cache, and moves the generation on if the topology changes.
use zl_zpr_visaservice.Base.{
  ℕ, suc, String, String-HasEq, ◌==◌, ◌≡◌, refl, sym, ap, ◌∙◌, true, false, List, [], ◌∷◌, Option,
  none, some, Map, lookup, remove, keys, filter, lookup-remove, contains, to_set, contains-to_set,
  arith, Bool-cases, inl, inr, eq_of_beq, Result, ok, err, panic, ◌>>=◌, ok_inj, ok-of_chain,
  contains-append,
}
use zl_zpr_visaservice.IpAddr.{IpAddr, IpAddr-HasEq}
use zl_zpr_visaservice.Attribute.{Attribute}
use zl_zpr_visaservice.Graph.{Graph, TopologyError, edges_of}
use zl_zpr_visaservice.Graph.Change
use zl_zpr_visaservice.Graph.Walks.{has_edge}
use zl_zpr_visaservice.Graph.Change.Best.{changes-Safe}
use zl_zpr_visaservice.Router.{
  RouteCacheKey, RouteCacheKey-HasEq, RouterInner, LinkSpec, invalidate_keys, keys_of,
  keys_of_links, at_endpoint, with_topology, flushed, add_node, remove_node, add_link, remove_link,
  replace_link_between, apply_link_batch, remove_each, add_each,
}
use zl_zpr_visaservice.Router.Batch.{Batched, apply_link_batch-Batched}
use zl_zpr_visaservice.Router.Cache.{IsCoherent, indexed_at}
use zl_zpr_visaservice.Router.Cache.Evict.{invalidate_keys-IsWithout}
use zl_zpr_visaservice.Router.Cache.Lost.{node_added, link_removed, node_removed}
use zl_zpr_visaservice.Router.Cache.Coherent.{
  Keeps, Reports, Unused, with_topology-Keeps, stays, without-IsCoherent, blank-IsCoherent,
  flushed-Keeps, reported-Reports,
}

add_node-Keeps : (s : RouterInner) (n : IpAddr) → IsCoherent s → Keeps s (add_node s n)
unfolding add_node
add_node-Keeps s n coherent =
    with_topology-Keeps s s (λ i. false) (Change.add_node s.topology n) refl coherent
      (λ key routes id found within. refl) (node_added s.topology n coherent.current)

remove_link-Keeps : (s : RouterInner) (id : String) → IsCoherent s → Keeps s (remove_link s id)
unfolding remove_link
remove_link-Keeps s id coherent =
    let ks = keys_of (lookup id s.link_to_cache_keys) in
    let s1 = invalidate_keys ks s in
    let without = invalidate_keys-IsWithout ks s in
    let coherent1 = without-IsCoherent ks s s1 without coherent in
    let unused : Unused (λ i. id == i) s1 = λ key routes i found within.
      let (was, out) = stays ks s s1 without key routes found in
      let listed = coherent.indexed key routes i was within in
      elim (Bool-cases (id == i)) [
        | inl same ↦ absurd (
            cc (
              sym out
              ∙ ap (λ x. indexed_at s.link_to_cache_keys x key) (eq_of_beq id i same)
              ∙ listed))
        | inr other ↦ other
      ] in
    let s2 = record s1 { link_to_cache_keys = remove id s1.link_to_cache_keys } in
    with_topology-Keeps s s2 (λ i. id == i) (Change.remove_link s1.topology id) without.generation
      (record {
        current = coherent1.current;
        fresh = coherent1.fresh;
        indexed = λ key routes i found within.
            rw (lookup-remove id i s1.link_to_cache_keys, unused key routes i found within)
              (coherent1.indexed key routes i found within);
      })
      unused (link_removed s1.topology id coherent1.current)

keys_of_links-lists :
    (ids : List String) (index : Map String (List RouteCacheKey)) (i : String) (key : RouteCacheKey)
    → contains ids i ≡ true
    → indexed_at index i key ≡ true
    → contains (keys_of_links ids index) key ≡ true
keys_of_links-lists [] index i key within listed = absurd (cc within)
keys_of_links-lists (id ∷ ids) index i key within listed = elim (Bool-cases (id == i)) [
  | inl same ↦
      rw
        (
          contains-append key (keys_of (lookup id index)) (keys_of_links ids index),
          ap (λ x. indexed_at index x key) (eq_of_beq id i same),
          listed,
        )
        refl
  | inr other ↦
      rw
        (
          contains-append key (keys_of (lookup id index)) (keys_of_links ids index),
          keys_of_links-lists ids index i key (rw other at within) listed,
        )
        (ground arith)
]

remove_node-Keeps : (s : RouterInner) (n : IpAddr) → IsCoherent s → Keeps s (remove_node s n)
unfolding remove_node
remove_node-Keeps s n coherent =
    let links = edges_of (lookup n s.topology.nodes) in
    let ks = to_set (keys_of_links links s.link_to_cache_keys) in
    let s1 = invalidate_keys ks s in
    let without1 = invalidate_keys-IsWithout ks s in
    let ks' = filter (at_endpoint n) (keys s1.route_cache) in
    let s2 = invalidate_keys ks' s1 in
    let without2 = invalidate_keys-IsWithout ks' s1 in
    let coherent2 =
      without-IsCoherent ks' s1 s2 without2 (without-IsCoherent ks s s1 without1 coherent) in
    let same : s2.topology ≡ s.topology = without2.topology ∙ without1.topology in
    with_topology-Keeps s s2 (has_edge s2.topology n) (Change.remove_node s2.topology n)
      (without2.generation ∙ without1.generation) coherent2
      (λ key routes i found within.
        let (was, out) =
          stays ks s s1 without1 key routes (stays ks' s1 s2 without2 key routes found).0 in
        elim (Bool-cases (has_edge s2.topology n i)) [
          | inr other ↦ other
          | inl at_n ↦ absurd (
              cc (
                sym out
                ∙ contains-to_set key (keys_of_links links s.link_to_cache_keys)
                ∙ keys_of_links-lists links s.link_to_cache_keys i key
                    (ap (λ g. has_edge g n i) (sym same) ∙ at_n)
                    (coherent.indexed key routes i was within)))
        ])
      (node_removed s2.topology n coherent2.current)

module _ (s : RouterInner) (a b : IpAddr) (id : String) (attributes : List Attribute) (cost : ℕ)
    (coherent : IsCoherent s) where
  add_link-Reports : Reports s (add_link s a b id attributes cost)
  unfolding add_link
  add_link-Reports =
      reported-Reports s (flushed s)
        (with_topology (flushed s) (Change.add_link s.topology a b id attributes cost))
        (blank-IsCoherent (flushed s) refl coherent.current) (inr (refl, refl))
        (flushed-Keeps s (Change.add_link s.topology a b id attributes cost)
          (changes-Safe s.topology a b id attributes cost coherent.current).1)

  replace_link_between-Keeps : Keeps s (replace_link_between s a b id attributes cost)
  unfolding replace_link_between
  replace_link_between-Keeps =
      flushed-Keeps s (Change.replace_link s.topology a b id attributes cost)
        (changes-Safe s.topology a b id attributes cost coherent.current).4

-- the state of a batch that ended
abbrev end_batch :
    RouterInner
    → Graph × Option TopologyError
    → Result TopologyError (RouterInner × Option TopologyError)
end_batch s p =
    ok (record (flushed s) { topology = p.0; topo_generation = suc s.topo_generation }, p.1)

batch_state :
    (s s' : RouterInner) (e : Option TopologyError)
    (r : Result TopologyError (Graph × Option TopologyError))
    → (r >>= end_batch s) ≡ ok (s', e)
    → s'.topo_generation ≡ suc s.topo_generation
batch_state s s' e (ok p) yields = sym (ap (λ x. x.0.topo_generation) (ok_inj yields))
batch_state s s' e (err x) yields = absurd (cc yields)
batch_state s s' e panic yields = absurd (cc yields)

Batched-Reports :
    (s : RouterInner) (removals : List String)
    (r : Result TopologyError (RouterInner × Option TopologyError))
    → ((s' : RouterInner) (e : Option TopologyError)
        → r ≡ ok (s', e)
        → s'.topo_generation ≡ suc s.topo_generation)
    → Batched removals r
    → Reports s r
Batched-Reports s removals (ok (s', none)) moved (current, blank) =
    (blank-IsCoherent s' blank current, inl (omega (arith, moved s' none refl)))
Batched-Reports s removals (ok (s', some e)) moved (current, blank, gone) =
    (blank-IsCoherent s' blank current, inl (omega (arith, moved s' (some e) refl)))
Batched-Reports s removals (err e) moved h = h
Batched-Reports s removals panic moved h = h

batch_generation :
    (s : RouterInner) (removals : List String) (additions : List LinkSpec) (s' : RouterInner)
    (e : Option TopologyError)
    → apply_link_batch s removals additions ≡ ok (s', e)
    → s'.topo_generation ≡ suc s.topo_generation
unfolding apply_link_batch
batch_generation s removals additions s' e yields =
    let (g, _, added) = ok-of_chain (remove_each removals s.topology) _ yields in
    batch_state s s' e (add_each additions [] g) added

apply_link_batch-Reports :
    (s : RouterInner) (removals : List String) (additions : List LinkSpec)
    → IsCoherent s
    → Reports s (apply_link_batch s removals additions)
apply_link_batch-Reports s removals additions coherent =
    Batched-Reports s removals (apply_link_batch s removals additions)
      (batch_generation s removals additions)
      (apply_link_batch-Batched s removals additions coherent.current)

-- Every change of a router whose cache is coherent leaves one whose cache is coherent, whether it
-- reports an error or not, and none panics.
pub changes-IsCoherent :
    (s : RouterInner) (a b : IpAddr) (id : String) (attributes : List Attribute) (cost : ℕ)
    (removals : List String) (additions : List LinkSpec)
    → IsCoherent s
    → Keeps s (add_node s a)
      × Keeps s (remove_node s a)
      × Keeps s (remove_link s id)
      × Keeps s (replace_link_between s a b id attributes cost)
      × Reports s (add_link s a b id attributes cost)
      × Reports s (apply_link_batch s removals additions)
changes-IsCoherent s a b id attributes cost removals additions coherent = (
  add_node-Keeps s a coherent,
  remove_node-Keeps s a coherent,
  remove_link-Keeps s id coherent,
  replace_link_between-Keeps s a b id attributes cost coherent,
  add_link-Reports s a b id attributes cost coherent,
  apply_link_batch-Reports s removals additions coherent,
)
