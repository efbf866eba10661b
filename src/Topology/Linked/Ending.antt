-- ===== src/Topology/Linked/Ending.antt =====
-- The addition of a linked node, from the answer of policy to its end.
use zl_zpr_visaservice.Base.{
  String, String-HasEq, ◌≡◌, ◌≢◌, refl, sym, ap, ◌∙◌, Bool, true, false, Option, none, some,
  set_insert, contains-set_insert, lookup, contains, Bool-cases, Option-cases, inl, inr, beq_refl,
  Result, ok, err, panic,
}
use zl_zpr_visaservice.IpAddr.{IpAddr, IpAddr-HasEq}
use zl_zpr_visaservice.Policy.Links.{LinkDescription}
use zl_zpr_visaservice.Graph.{link_to_self, node_not_found, Pair-HasEq, has_node, neighbors}
use zl_zpr_visaservice.Graph.Change.Current.{IsCurrent}
use zl_zpr_visaservice.Router.{flushed}
use zl_zpr_visaservice.Router.Routes
use zl_zpr_visaservice.Router.Routes.{get_peers}
use zl_zpr_visaservice.Topology.{
  ServiceError, topology, Write, written, refused, unconfirmed, TopologyMgr, ActorMgr, canonical,
  add_edge, link_node, with_actor, linked_again, add_described, add_linked_node,
}
use zl_zpr_visaservice.Topology.Undo.{
  Unchanged, add_node_lem, WithNode-undone, Added, add_link-Added,
}
use zl_zpr_visaservice.Topology.Linked.{
  Stores, Completes, failing-Completes, persist_link-Completes, Placed, known_node, Placed-Stage,
  linked-Stage,
}

module _ (encode : IpAddr → String) (actors : ActorMgr)
    (describe : IpAddr → IpAddr → Result ServiceError LinkDescription) (via n : IpAddr) where
  module _ (desc : LinkDescription) (policy : describe via n ≡ ok desc) (m0 : TopologyMgr)
      (st0 : actors.State) (current : IsCurrent m0.router.topology) where
    link_node-Completes :
        (w : Write) (pre : Bool) (m : TopologyMgr) (st : actors.State)
        → Placed encode actors describe via n desc policy m0 st0 current pre m st
        → Completes encode actors describe via n
            (m0, st0)
            (link_node encode actors w pre desc via n (m, st))
    unfolding link_node
    link_node-Completes w pre m st h =
        elim (add_link-Added m.router via n desc.link_id desc.attrs desc.cost h.now) [
          | Added.taken is_out used ↦
              rw (link_node, is_out)
                (persist_link-Completes encode actors describe via n desc policy m0 st0 current w
                  pre false (record m { router = flushed m.router }) st h.was
                  (Placed-Stage encode actors describe via n desc policy m0 st0 current pre m st h)
                  h.stored h.same_actors h.now h.nodes
                  (inr (inr (h.strangers, λ free. used (h.edges desc.link_id ∙ free)), h.edges)))
          | Added.refused e is_out which ↦ elim which [
            | inl is_e ↦
                rw (link_node, is_out, is_e)
                  (failing-Completes encode actors describe via n desc policy m0 st0 current pre
                    false (topology link_to_self) (record m { router = flushed m.router }) st h.was
                    (Placed-Stage encode actors describe via n desc policy m0 st0 current pre m st
                      h)
                    (λ x other. ap (λ y. contains y x) h.stored) h.same_actors)
            | inr is_e ↦
                rw (link_node, is_out, is_e)
                  (failing-Completes encode actors describe via n desc policy m0 st0 current pre
                    false (topology node_not_found) (record m { router = flushed m.router }) st
                    h.was
                    (Placed-Stage encode actors describe via n desc policy m0 st0 current pre m st
                      h)
                    (λ x other. ap (λ y. contains y x) h.stored) h.same_actors)
          ]
          | Added.linked r is_out free with_link ↦
              rw (link_node, is_out)
                (persist_link-Completes encode actors describe via n desc policy m0 st0 current w
                  pre true (record m { router = r }) st h.was
                  (linked-Stage encode actors describe via n desc policy m0 st0 current pre m st r h
                    free with_link)
                  h.stored h.same_actors with_link.0 (λ q. with_link.2 q ∙ h.nodes q)
                  (inl
                    (sym (h.edges desc.link_id) ∙ free, λ i. with_link.1 i ∙ rw (h.edges i) refl)))
        ]

    with_actor-Completes :
        (w : Write) (m : TopologyMgr)
        → Placed encode actors describe via n desc policy m0 st0 current false m st0
        → (added : Option ServiceError × actors.State)
        → Completes encode actors describe via n
            (m0, st0)
            (with_actor encode actors w desc via n m added)
    with_actor-Completes w m h (none, st) = link_node-Completes w false m st (record {
      was = h.was;
      now = h.now;
      edges = h.edges;
      nodes = h.nodes;
      stored = h.stored;
      same_actors = λ is. absurd (cc is);
      strangers = h.strangers;
    })
    with_actor-Completes w m h (some e, st) =
        let (u, made, after) =
          WithNode-undone m0.router m.router n current h.was
            (Placed-Stage encode actors describe via n desc policy m0 st0 current false m st0 h) in
        rw made (h.was, after, λ x other. ap (λ y. contains y x) h.stored)

    -- a node that is not there has no peers
    absent_peers :
        has_node m0.router.topology n ≡ false → contains (get_peers m0.router n) via ≡ false
    unfolding get_peers neighbors
    absent_peers new = elim (Option-cases (lookup n m0.router.topology.nodes)) [
      | inl absent ↦ rw (get_peers, neighbors, absent) refl
      | inr (node, found) ↦ absurd (cc (rw found at new))
    ]

    add_described-Completes :
        (w : Write)
        → Completes encode actors describe via n
            (m0, st0)
            (add_described encode actors w via n (m0, st0) (ok desc))
    unfolding Routes.has_node add_edge
    add_described-Completes w = elim (Bool-cases (has_node m0.router.topology n)) [
      | inr new ↦
          let (r, made, after, edges, nodes) = add_node_lem m0.router n current new in
          rw (new, made)
            (with_actor-Completes w (record m0 { router = r })
              (record {
                was = new;
                now = after;
                edges = λ i. ap (lookup i) edges;
                nodes = nodes;
                stored = refl;
                same_actors = λ is. refl;
                strangers = absent_peers new;
              })
              (actors.add_node st0))
      | inl there ↦ elim (Bool-cases (contains (get_peers m0.router n) via)) [
        | inr other ↦
            rw (there, other)
              (link_node-Completes w true m0 st0 (record {
                was = there;
                now = current;
                edges = λ i. refl;
                nodes = λ q.
                    sym
                      (known_node encode actors describe via n desc policy m0 st0 current there q);
                stored = refl;
                same_actors = λ is. refl;
                strangers = other;
              }))
        | inl peer ↦ rw (there, peer) (again there peer w)
      ]
    ]
      where
        stored :
            Stores encode actors describe via n m0.edges
              (set_insert (canonical encode via n) m0.edges)
        stored e other = contains-set_insert (canonical encode via n) e m0.edges ∙ rw other refl

        unchanged : Unchanged m0.router.topology m0.router.topology
        unchanged = record { current = current; edges = λ i. refl; nodes = λ q. refl }

        again :
            has_node m0.router.topology n ≡ true
            → contains (get_peers m0.router n) via ≡ true
            → (x : Write)
            → Completes encode actors describe via n
                (m0, st0)
                (linked_again encode actors via n (m0, st0) (add_edge encode x via n m0.edges))
        again there peer written = (
          desc,
          policy,
          record {
            current = current;
            nodes = λ q.
                sym (known_node encode actors describe via n desc policy m0 st0 current there q);
            link = inr (inl peer, λ i. refl);
            edge =
                contains-set_insert (canonical encode via n) (canonical encode via n) m0.edges
                ∙ rw (beq_refl (canonical encode via n)) refl;
          },
          stored,
        )
        again there peer refused = (there, unchanged, (λ e other. refl), refl)
        again there peer unconfirmed = (there, unchanged, stored, refl)

  -- On a current topology, where policy answers for the two nodes, the call never panics. It succeeds
  -- only for a link that policy describes: then the topology is current with the node, no node and no
  -- link is lost, the edge is persisted, and the described link is added, unless the nodes were peers
  -- before, or were none and the link's id was in use: then the links stay as they were. An error says whether the
  -- node was there before the call, and leaves the same nodes and links; for a node that was there it
  -- leaves the actors. On every branch each other edge of the database stays.
  pub add_linked_node-Completes :
      (w : Write) (m : TopologyMgr) (st : actors.State)
      → IsCurrent m.router.topology
      → describe via n ≢ panic
      → Completes encode actors describe via n
          (m, st)
          (add_linked_node encode actors describe w via n (m, st))
  unfolding add_linked_node Routes.has_node
  add_linked_node-Completes w m st current total = by_policy (describe via n) refl
    where
      by_policy :
          (x : Result ServiceError LinkDescription)
          → describe via n ≡ x
          → Completes encode actors describe via n
              (m, st)
              (add_described encode actors w via n (m, st) x)
      by_policy (ok desc) is_x = add_described-Completes desc is_x m st current w
      by_policy panic is_x = absurd (total is_x)
      by_policy (err e) is_x = elim (Bool-cases (has_node m.router.topology n)) [
        | inl there ↦ rw there (
          there,
          record { current = current; edges = λ i. refl; nodes = λ q. refl },
          (λ e other. refl),
          refl,
        )
        | inr new ↦ rw new (
          new,
          record { current = current; edges = λ i. refl; nodes = λ q. refl },
          λ e other. refl,
        )
      ]
