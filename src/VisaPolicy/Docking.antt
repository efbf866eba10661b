-- ===== src/VisaPolicy/Docking.antt =====
-- Where an actor is docked, by the tables.
use zl_zpr_visaservice.Base.{
  ℕ, ◌<◌, ◌≡◌, refl, ◌∙◌, true, false, none, some, lookup, ltb, Option-cases, Bool-cases, inl, inr,
  arith, ap, some_inj,
}
use zl_zpr_visaservice.IpAddr.{IpAddr, IpAddr-HasEq}
use zl_zpr_visaservice.Actor.{Actor, is_node, get_zpr_addr}
use zl_zpr_visaservice.VisaPolicy.{
  Parts, get_docking_node_for_actor, get_docking_node_for_aaa, resolve_docking_node,
}

-- not in the connection table: an actor without an address, or an adapter without an entry
pub data Unlisted (parts : Parts) (actor : Actor) : Type 0 where
  no_address : get_zpr_addr actor ≡ none → Unlisted parts actor
  no_entry :
      (z : IpAddr)
      → get_zpr_addr actor ≡ some z
      → is_node actor ≡ false
      → lookup z parts.connection_table ≡ none
      → Unlisted parts actor

-- a node docks at itself, an adapter where the connection table says, and an anonymous actor where the
-- AAA table says, until its entry expires
pub data DocksAt (now : ℕ) (parts : Parts) (actor : Actor) (zpr_addr a : IpAddr) : Type 0 where
  itself : is_node actor ≡ true → get_zpr_addr actor ≡ some a → DocksAt now parts actor zpr_addr a
  connected :
      (z : IpAddr)
      → is_node actor ≡ false
      → get_zpr_addr actor ≡ some z
      → lookup z parts.connection_table ≡ some a
      → DocksAt now parts actor zpr_addr a
  anonymous :
      (expiry : ℕ)
      → Unlisted parts actor
      → lookup zpr_addr parts.aaa_table ≡ some (a, expiry)
      → now < expiry
      → DocksAt now parts actor zpr_addr a

module _ (now : ℕ) (parts : Parts) (actor : Actor) (zpr_addr a : IpAddr) where
  by_aaa :
      Unlisted parts actor
      → get_docking_node_for_aaa now parts zpr_addr ≡ some a
      → DocksAt now parts actor zpr_addr a
  unfolding get_docking_node_for_aaa
  by_aaa unlisted found = elim (Option-cases (lookup zpr_addr parts.aaa_table)) [
    | inl absent ↦ absurd (cc (rw (get_docking_node_for_aaa, absent) at found))
    | inr (entry, listed) ↦ elim (Bool-cases (ltb now entry.1)) [
      | inl alive ↦
          let same : entry.0 ≡ a =
            some_inj (rw (get_docking_node_for_aaa, listed, alive) at found) in
          anonymous entry.1 unlisted (listed ∙ ap (λ x. some (x, entry.1)) same)
            (ground (arith, alive))
      | inr over ↦ absurd (cc (rw (get_docking_node_for_aaa, listed, over) at found))
    ]
  ]

  pub resolve-DocksAt :
      resolve_docking_node now parts actor zpr_addr ≡ some a → DocksAt now parts actor zpr_addr a
  unfolding resolve_docking_node get_docking_node_for_actor
  resolve-DocksAt found = elim (Option-cases (get_zpr_addr actor)) [
    | inl nowhere ↦ elim (Bool-cases (is_node actor)) [
      | inl node ↦
          by_aaa (no_address nowhere)
            (rw (resolve_docking_node, get_docking_node_for_actor, node, nowhere) at found)
      | inr adapter ↦
          by_aaa (no_address nowhere)
            (rw (resolve_docking_node, get_docking_node_for_actor, adapter, nowhere) at found)
    ]
    | inr (z, at_z) ↦ elim (Bool-cases (is_node actor)) [
      | inl node ↦
          itself node
            (at_z ∙ (rw (resolve_docking_node, get_docking_node_for_actor, node, at_z) at found))
      | inr adapter ↦ elim (Option-cases (lookup z parts.connection_table)) [
        | inr (b, listed) ↦ connected z adapter at_z (
            listed
            ∙ (rw (resolve_docking_node, get_docking_node_for_actor, adapter, at_z, listed) at
                found))
        | inl absent ↦
            by_aaa (no_entry z at_z adapter absent) (
              rw (resolve_docking_node, get_docking_node_for_actor, adapter, at_z, absent) at found)
      ]
    ]
  ]

  alive_lem :
      (expiry : ℕ)
      → lookup zpr_addr parts.aaa_table ≡ some (a, expiry)
      → now < expiry
      → get_docking_node_for_aaa now parts zpr_addr ≡ some a
  unfolding get_docking_node_for_aaa
  alive_lem expiry listed later =
      let alive : ltb now expiry ≡ true = ground (arith, later) in
      rw (get_docking_node_for_aaa, listed, alive) refl

  pub DocksAt-resolve :
      DocksAt now parts actor zpr_addr a → resolve_docking_node now parts actor zpr_addr ≡ some a
  unfolding resolve_docking_node get_docking_node_for_actor
  DocksAt-resolve (itself node at_a) =
      rw (resolve_docking_node, get_docking_node_for_actor, node, at_a) refl
  DocksAt-resolve (connected z adapter at_z listed) =
      rw (resolve_docking_node, get_docking_node_for_actor, adapter, at_z, listed) refl
  DocksAt-resolve (anonymous expiry (no_address nowhere) listed later) =
      elim (Bool-cases (is_node actor)) [
        | inl node ↦
            rw (resolve_docking_node, get_docking_node_for_actor, node, nowhere)
              (alive_lem expiry listed later)
        | inr adapter ↦
            rw (resolve_docking_node, get_docking_node_for_actor, adapter, nowhere)
              (alive_lem expiry listed later)
      ]
  DocksAt-resolve (anonymous expiry (no_entry z at_z adapter absent) listed later) =
      rw (resolve_docking_node, get_docking_node_for_actor, adapter, at_z, absent)
        (alive_lem expiry listed later)
