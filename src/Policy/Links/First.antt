-- ===== src/Policy/Links/First.antt =====
-- What a policy says of the link between two nodes, in terms of its peerings.
use zl_zpr_visaservice.Base.{
  ℕ, String, String-HasEq, ◌==◌, ◌≡◌, refl, sym, ap, ◌∙◌, Bool, ◌&&◌, ◌||◌, List, [], ◌∷◌, ◌++◌,
  Option, none, some, if◌then◌else◌, Map, lookup, lookup-insert, arith, Bool-cases, Option-cases,
  inl, inr, eq_of_beq, Result, ok, err,
}
use mathlib.Core.List.{append_assoc}
use zl_zpr_visaservice.IpAddr.{IpAddr, IpAddr-HasEq}
use zl_zpr_visaservice.Policy.Links.{
  ℤ, Peering, Peer, LinkDescription, PolicyError, link_not_found, LinkTables, peers_or_none,
  push_peer, add_peering, load_peers, load_links, get_peers_for_node, first_peer, description,
  describe_link,
}

-- a peering between two nodes, in either order
abbrev pub joins : IpAddr → IpAddr → Peering → Bool
joins a b p = (p.node_a == a && p.node_b == b) || (p.node_b == a && p.node_a == b)

abbrev pub first_joining : IpAddr → IpAddr → List Peering → Option Peering
first_joining a b [] = none
first_joining a b (p ∷ ps) = if joins a b p then some p else first_joining a b ps

abbrev pub peerings_of : Option (List Peering) → List Peering
peerings_of none = []
peerings_of (some ps) = ps

joins_comm : (a b : IpAddr) (p : Peering) → joins a b p ≡ joins b a p
joins_comm a b p = ground arith

first_joining_comm :
    (a b : IpAddr) (ps : List Peering) → first_joining a b ps ≡ first_joining b a ps
first_joining_comm a b [] = refl
first_joining_comm a b (p ∷ ps) = rw (joins_comm a b p, first_joining_comm a b ps) refl

-- what a table has for a node, and what a list of peerings adds to it
abbrev peers_at : Map IpAddr (List Peer) → IpAddr → List Peer
peers_at table n = peers_or_none (lookup n table)

abbrev seen_from : IpAddr → Peering → List Peer
seen_from n p =
    (if p.node_a == n then record { link_id = p.link_id; remote_zpr_addr = p.node_b } ∷ [] else [])
    ++ (if p.node_b == n
        then record { link_id = p.link_id; remote_zpr_addr = p.node_a } ∷ []
        else [])

abbrev all_seen : IpAddr → List Peering → List Peer
all_seen n [] = []
all_seen n (p ∷ ps) = seen_from n p ++ all_seen n ps

append_nil : (xs : List Peer) → xs ++ [] ≡ xs
append_nil [] = refl
append_nil (x ∷ xs) = ap (λ ys. x ∷ ys) (append_nil xs)

peers_at-push_peer :
    (k n : IpAddr) (peer : Peer) (table : Map IpAddr (List Peer))
    → peers_at (push_peer k peer table) n ≡ peers_at table n ++ (if k == n then peer ∷ [] else [])
peers_at-push_peer k n peer table = elim (Bool-cases (k == n)) [
  | inl same ↦
      rw (lookup-insert k n (peers_at table k ++ (peer ∷ [])) table, same)
        (ap (λ x. peers_at table x ++ (peer ∷ [])) (eq_of_beq k n same))
  | inr other ↦
      rw (lookup-insert k n (peers_at table k ++ (peer ∷ [])) table, other)
        (sym (append_nil (peers_at table n)))
]

peers_at-load_peers :
    (ps : List Peering) (table : Map IpAddr (List Peer)) (n : IpAddr)
    → peers_at (load_peers ps table) n ≡ peers_at table n ++ all_seen n ps
peers_at-load_peers [] table n = sym (append_nil (peers_at table n))
peers_at-load_peers (p ∷ ps) table n =
    let to_b : Peer = record { link_id = p.link_id; remote_zpr_addr = p.node_b } in
    let to_a : Peer = record { link_id = p.link_id; remote_zpr_addr = p.node_a } in
    let table' = push_peer p.node_a to_b table in
    let from_a = if p.node_a == n then to_b ∷ [] else [] in
    let from_b = if p.node_b == n then to_a ∷ [] else [] in
    peers_at-load_peers ps (add_peering p table) n
    ∙ ap (λ xs. xs ++ all_seen n ps)
        (peers_at-push_peer p.node_b n to_a table'
          ∙ ap (λ xs. xs ++ from_b) (peers_at-push_peer p.node_a n to_b table)
          ∙ append_assoc (peers_at table n) from_a from_b)
    ∙ append_assoc (peers_at table n) (from_a ++ from_b) (all_seen n ps)

abbrev id_of : Option Peer → Option String
id_of none = none
id_of (some peer) = some peer.link_id

abbrev pub link_id_of : Option Peering → Option String
link_id_of none = none
link_id_of (some p) = some p.link_id

-- the peers of a node in the order of the peerings
first_peer-all_seen :
    (a b : IpAddr) (ps : List Peering)
    → id_of (first_peer (all_seen a ps) b) ≡ link_id_of (first_joining a b ps)
first_peer-all_seen a b [] = refl
first_peer-all_seen a b (p ∷ ps) = ground (arith, first_peer-all_seen a b ps)

-- what a policy says of a link, if it has one
abbrev pub described :
    (String → LinkDescription) → Option String → Result PolicyError LinkDescription
described f none = err link_not_found
described f (some id) = ok (f id)

module _ (parse_i32 : String → Option ℤ) where
  described-peers :
      (now : ℕ) (t : LinkTables) (peers : Option (List Peer)) (b : IpAddr)
      → (elim peers [
        | none ↦ err link_not_found
        | some ps ↦ elim (first_peer ps b) [
          | none ↦ err link_not_found
          | some peer ↦ ok (description parse_i32 now t peer.link_id)
        ]
      ])
        ≡ described (description parse_i32 now t) (id_of (first_peer (peers_or_none peers) b))
  described-peers now t none b = refl
  described-peers now t (some ps) b = elim (Option-cases (first_peer ps b)) [
    | inl absent ↦ rw absent refl
    | inr (peer, found) ↦ rw found refl
  ]

  described-tables :
      (now : ℕ) (peerings : List Peering) (a b : IpAddr)
      → describe_link parse_i32 now (load_links (some peerings)) a b
        ≡ described
            (description parse_i32 now (load_links (some peerings)))
            (link_id_of (first_joining a b peerings))
  unfolding describe_link get_peers_for_node load_links lookup
  described-tables now peerings a b =
      let t = load_links (some peerings) in
      described-peers now t (lookup a (load_peers peerings [])) b
      ∙ ap (λ xs. described (description parse_i32 now t) (id_of (first_peer xs b)))
          (peers_at-load_peers peerings [] a)
      ∙ ap (described (description parse_i32 now t)) (first_peer-all_seen a b peerings)

  -- A policy describes the link between two nodes by the first of its peerings that joins them, in
  -- either order of the nodes, and by none if none does or it has no topology. The two nodes may be
  -- asked for in either order.
  pub describe_link-first_joining :
      (now : ℕ) (peerings : Option (List Peering)) (a b : IpAddr)
      → (describe_link parse_i32 now (load_links peerings) a b
          ≡ described
              (description parse_i32 now (load_links peerings))
              (link_id_of (first_joining a b (peerings_of peerings))))
        × (describe_link parse_i32 now (load_links peerings) a b
            ≡ describe_link parse_i32 now (load_links peerings) b a)
  unfolding describe_link get_peers_for_node load_links
  describe_link-first_joining now none a b = (refl, refl)
  describe_link-first_joining now (some ps) a b =
      let t = load_links (some ps) in
      (
        described-tables now ps a b,
        described-tables now ps a b
            ∙ ap (λ o. described (description parse_i32 now t) (link_id_of o))
                (first_joining_comm a b ps)
            ∙ sym (described-tables now ps b a),
      )
