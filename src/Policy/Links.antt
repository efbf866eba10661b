-- ===== src/Policy/Links.antt =====
-- libeval/src/policy.rs: the links that a policy describes. The substrate addresses of a peering are
-- handed on to the nodes and left out. `parse_i32` is `str::parse::<i32>`.
pub mod First
use zl_zpr_visaservice.Base.{
  ℕ, zero, suc, String, String-HasEq, ◌==◌, List, [], ◌∷◌, ◌++◌, Option, none, some, if◌then◌else◌,
  is_empty, map, Map, lookup, insert, Result, ok, err, panic,
}
use zl_zpr_visaservice.IpAddr.{IpAddr, IpAddr-HasEq}
use zl_zpr_visaservice.Attribute.{Attribute, AttributeError, builder, with_values, get_single_value}
use zl_zpr_visaservice.Attribute.Key.{link_cost}
use zl_zpr_visaservice.JoinPolicy.{AttrExp}

-- `negsuc n` is -(n + 1)
pub data ℤ : Type 0 where
  pos : ℕ → ℤ
  negsuc : ℕ → ℤ

-- the zpr crate's, with the fields that the code names
pub record Peering : Type 0 where
  pub link_id : String
  pub node_a : IpAddr
  pub node_b : IpAddr
  pub attributes : List AttrExp

pub record Peer : Type 0 where
  pub link_id : String
  pub remote_zpr_addr : IpAddr

pub record LinkDescription : Type 0 where
  pub link_id : String
  pub attrs : List Attribute
  pub cost : ℕ

pub data PolicyError : Type 0 where
  link_not_found : PolicyError

-- the two fields of Policy that come from its peerings
pub record LinkTables : Type 0 where
  pub peer_table : Option (Map IpAddr (List Peer))
  pub link_attrs : Option (Map String (List AttrExp))

abbrev pub peers_or_none : Option (List Peer) → List Peer
peers_or_none none = []
peers_or_none (some ps) = ps

-- `entry(k).or_insert_with(Vec::new).push(peer)`
abbrev pub push_peer : IpAddr → Peer → Map IpAddr (List Peer) → Map IpAddr (List Peer)
push_peer k peer table = insert k (peers_or_none (lookup k table) ++ (peer ∷ [])) table

abbrev pub add_peering : Peering → Map IpAddr (List Peer) → Map IpAddr (List Peer)
add_peering p table =
    push_peer p.node_b (record { link_id = p.link_id; remote_zpr_addr = p.node_a })
      (push_peer p.node_a (record { link_id = p.link_id; remote_zpr_addr = p.node_b }) table)

abbrev pub load_peers : List Peering → Map IpAddr (List Peer) → Map IpAddr (List Peer)
load_peers [] table = table
load_peers (p ∷ ps) table = load_peers ps (add_peering p table)

unfoldable pub load_peer_table : List Peering → Option (Map IpAddr (List Peer))
load_peer_table ps = some (load_peers ps [])

abbrev pub load_attrs : List Peering → Map String (List AttrExp) → Map String (List AttrExp)
load_attrs [] table = table
load_attrs (p ∷ ps) table = load_attrs ps (insert p.link_id p.attributes table)

-- a policy without a topology has neither table
unfoldable pub load_links : Option (List Peering) → LinkTables
unfolding load_peer_table
load_links none = record { peer_table = none; link_attrs = none }
load_links (some ps) = record {
  peer_table = load_peer_table ps;
  link_attrs = some (load_attrs ps []);
}

unfoldable pub get_peers_for_node : LinkTables → IpAddr → Option (List Peer)
get_peers_for_node t n = elim t.peer_table [ none ↦ none | some table ↦ lookup n table ]

unfoldable pub get_link_attrs : LinkTables → String → Option (List AttrExp)
get_link_attrs t id = elim t.link_attrs [ none ↦ none | some table ↦ lookup id table ]

unfoldable pub get_attributes_for_link : ℕ → LinkTables → String → List Attribute
get_attributes_for_link now t id = elim (get_link_attrs t id) [
  | none ↦ []
  | some exps ↦ map (λ ae. with_values (builder now ae.key) ae.value) exps
]

abbrev pub default_link_cost : ℕ
default_link_cost = 1

abbrev pub first_peer : List Peer → IpAddr → Option Peer
first_peer [] n = none
first_peer (peer ∷ peers) n = if peer.remote_zpr_addr == n then some peer else first_peer peers n

module _ (parse_i32 : String → Option ℤ) where
  abbrev pub parsed_cost : ℕ → Result AttributeError String → ℤ
  parsed_cost default_cost (ok s) = elim (parse_i32 s) [ none ↦ pos default_cost | some z ↦ z ]
  parsed_cost default_cost (err e) = pos default_cost
  parsed_cost default_cost panic = pos default_cost

  abbrev pub positive_cost : ℕ → ℤ → ℕ
  positive_cost default_cost (pos zero) = default_cost
  positive_cost default_cost (pos (suc n)) = suc n
  positive_cost default_cost (negsuc n) = default_cost

  unfoldable pub get_link_cost : List Attribute → ℕ → ℕ
  get_link_cost [] default_cost = default_cost
  get_link_cost (attr ∷ attrs) default_cost =
      if attr.key == link_cost
      then positive_cost default_cost (parsed_cost default_cost (get_single_value attr))
      else get_link_cost attrs default_cost

  unfoldable pub description : ℕ → LinkTables → String → LinkDescription
  unfolding get_link_cost
  description now t id =
      let attrs = get_attributes_for_link now t id in
      record {
        link_id = id;
        attrs = attrs;
        cost = if is_empty attrs then default_link_cost else get_link_cost attrs default_link_cost;
      }

  unfoldable pub describe_link :
      ℕ → LinkTables → IpAddr → IpAddr → Result PolicyError LinkDescription
  describe_link now t a b = elim (get_peers_for_node t a) [
    | none ↦ err link_not_found
    | some peers ↦ elim (first_peer peers b) [
      | none ↦ err link_not_found
      | some peer ↦ ok (description now t peer.link_id)
    ]
  ]
