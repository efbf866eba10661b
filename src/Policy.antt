-- ===== src/Policy.antt =====
-- libeval/src/policy.rs: the policy record and what the evaluator asks of it. The Cap'n Proto
-- reader is generated code: `policy_rdr` holds what `get_root` returns, the decoded communication
-- policies or the decoding error. An absent list or group (`has_x` false) is `none`.
pub mod Services
pub mod Links
mod Tests
use zl_zpr_visaservice.Base.{
  ℕ, String, String-HasEq, ◌==◌, Bool, ◌&&◌, ◌||◌, not, List, [], ◌∷◌, ◌++◌, Option, none, some,
  any, filter, if◌then◌else◌, Result, to_set,
}
use zl_zpr_visaservice.Attribute.{Attribute}
use zl_zpr_visaservice.Attribute.Key
use zl_zpr_visaservice.JoinPolicy.{AttrOp, JPolicy, policy_matches}

pub record AttrExpr : Type 0 where
  pub key : String
  pub op : AttrOp
  pub value : Option (List String)

pub data ScopeFlag : Type 0 where
  no_flag udp_one_way unknown_flag : ScopeFlag

pub data ScopePort : Type 0 where
  port : ℕ → ScopePort
  port_range : ℕ → ℕ → ScopePort
  not_in_schema : ScopePort

pub record Scope : Type 0 where
  pub protocol : ℕ
  pub ports : ScopePort
  pub flag : ScopeFlag

pub record Signal : Type 0 where
  pub message : String
  pub service : String

pub record CPolicy : Type 0 where
  pub allow : Bool
  pub service_id : String
  pub scope : List Scope
  pub client_conds : Option (List AttrExpr)
  pub service_conds : Option (List AttrExpr)
  pub signal : Option Signal
  pub zpl : String

pub data DecodeError : Type 0 where
  capnp : DecodeError

pub record PolicyRoot : Type 0 where
  pub com_policies : Option (List CPolicy)

pub record Policy : Type 0 where
  pub policy_rdr : Option (Result DecodeError PolicyRoot)
  pub vinst : ℕ
  pub join_policies : List JPolicy
  pub identity_attr_keys : List String

unfoldable pub match_join_policies : ℕ → Policy → List Attribute → List JPolicy
match_join_policies now p attrs = filter (λ jp. policy_matches now jp attrs) p.join_policies

-- `.filter_map(|jp| jp.services.as_ref()).flatten()`
unfoldable pub service_ids : List JPolicy → List String
service_ids [] = []
service_ids (jp ∷ jps) = elim jp.services [
  | none ↦ service_ids jps
  | some ss ↦ ss ++ service_ids jps
]

unfoldable pub join_services : ℕ → Policy → List Attribute → List String
unfolding service_ids
join_services now p attrs = to_set (service_ids (match_join_policies now p attrs))

abbrev pub is_node_policy : JPolicy → Bool
is_node_policy jp = jp.flags.is_node

unfoldable pub join_services_for_role : ℕ → Policy → List Attribute → Bool → List String
unfolding service_ids
join_services_for_role now p attrs is_node =
    let matching = match_join_policies now p attrs in
    if is_node && not (any is_node_policy matching)
    then []
    else to_set (service_ids (filter (λ jp. is_node || not (is_node_policy jp)) matching))

unfoldable pub lookup_identity_keys : Policy → List String
lookup_identity_keys p = Key.cn ∷ filter (λ k. not (k == Key.cn)) p.identity_attr_keys
