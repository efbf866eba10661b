-- ===== src/Eval.antt =====
-- libeval/src/eval.rs: the evaluator. `PacketDesc` is the zpr crate's: its record holds what the
-- accessors return. The protocol numbers are IANA's, as the admin API documents them.
pub mod Hits
pub mod Decision
pub mod Time
pub mod Scopes
pub mod Conditions
pub mod Expiry
pub mod Visas
pub mod Connect
mod Tests
use zl_zpr_visaservice.Base.{
  ℕ, suc, String, String-HasEq, ℕ-HasEq, ◌==◌, Bool, ◌&&◌, ◌||◌, not, true, false, List, [], ◌∷◌,
  Option, none, some, any, all, is_empty, get_elem?, leb, ltb, if◌then◌else◌, Result, ok, err,
  panic, ◌>>=◌,
}
use zl_zpr_visaservice.IpAddr.{IpAddr}
use zl_zpr_visaservice.Attribute.{is_expired}
use zl_zpr_visaservice.Actor.{
  Actor, get_attribute, is_some_and, has_attribute_named, has_attribute_value, has_attribute_values,
  has_any_attribute_values, provides,
}
use zl_zpr_visaservice.JoinPolicy.{AttrOp, eq, ne, has, excludes}
use zl_zpr_visaservice.Policy.{
  Policy, PolicyRoot, CPolicy, AttrExpr, Scope, ScopePort, port, port_range, not_in_schema,
  ScopeFlag, no_flag, udp_one_way, unknown_flag, Signal,
}

abbrev pub tcp : ℕ
tcp = 6

abbrev pub udp : ℕ
udp = 17

abbrev pub ipv6_icmp : ℕ
ipv6_icmp = 58

pub record PacketDesc : Type 0 where
  pub source_addr : IpAddr
  pub dest_addr : IpAddr
  pub protocol : ℕ
  pub source_port : ℕ
  pub dest_port : ℕ

-- eval_result.rs
pub data Direction : Type 0 where
  forward reverse : Direction

-- libeval/src/route.rs; a link is named by its id
pub data RouteKind : Type 0 where
  direct_same_node : IpAddr → RouteKind
  multihop : RouteKind

pub record Route : Type 0 where
  pub kind : RouteKind
  pub links : List String
  pub cost : ℕ

-- The route predicate, which is `None` in every hit and never read, is left out.
pub record Hit : Type 0 where
  pub match_idx : ℕ
  pub direction : Direction
  pub signal : Option Signal
  pub route : Option Route

pub data NoMatchReason : Type 0 where
  unsupported_protocol no_policy no_com_policies no_matching_policy : NoMatchReason

pub data FinalDeny : Type 0 where
  no_match : NoMatchReason → FinalDeny
  denied : List Hit → FinalDeny

-- `NeedsRoute` is never built by `eval_request`.
pub data PartialEvalResult : Type 0 where
  deny : FinalDeny → PartialEvalResult
  allow_without_route : List Hit → PartialEvalResult

pub data EvalError : Type 0 where
  capnp_error : EvalError
  unsupported_protocol_error : ℕ → EvalError
  invalid_request : EvalError
  empty_policy : EvalError
  attribute_missing : EvalError

pub data PAttrValue : Type 0 where
  atom : String → PAttrValue
  set_of : List String → PAttrValue

abbrev is_empty_pattr : PAttrValue → Bool
is_empty_pattr (atom s) = s == ""
is_empty_pattr (set_of vs) = is_empty vs

abbrev as_slice : PAttrValue → List String
as_slice (atom s) = s ∷ []
as_slice (set_of vs) = vs

-- `None` for no values, an atom for one, a set for more
pattr_of : Option (List String) → Option PAttrValue
pattr_of none = none
pattr_of (some []) = none
pattr_of (some (v ∷ [])) = some (atom v)
pattr_of (some (v ∷ w ∷ vs)) = some (set_of (v ∷ w ∷ vs))

-- the `match cond.get_op()`
match_op : AttrOp → Option PAttrValue → String → Actor → Bool → Bool
match_op eq none k actor for_allow = not for_allow
match_op eq (some (set_of vs)) k actor for_allow = not for_allow
match_op eq (some (atom s)) k actor for_allow = has_attribute_value actor k s
match_op ne none k actor for_allow = not for_allow
match_op ne (some (set_of vs)) k actor for_allow = not for_allow
match_op ne (some (atom s)) k actor for_allow = not (has_attribute_value actor k s)
match_op has none k actor for_allow = has_attribute_named actor k
match_op has (some v) k actor for_allow =
    if is_empty_pattr v
    then has_attribute_named actor k
    else has_attribute_values actor k (as_slice v)
match_op excludes none k actor for_allow = not for_allow
match_op excludes (some v) k actor for_allow = not (has_any_attribute_values actor k (as_slice v))

unfoldable pub match_condition_to_actor : ℕ → AttrExpr → Actor → Bool → Bool
unfolding pattr_of match_op
match_condition_to_actor now cond actor for_allow =
    if for_allow && is_some_and (get_attribute actor cond.key) (is_expired now)
    then false
    else match_op cond.op (pattr_of cond.value) cond.key actor for_allow

-- the loop over one list of conditions, which is skipped if the policy has none
unfoldable pub match_conds : ℕ → Option (List AttrExpr) → Actor → Bool → Bool
match_conds now none actor for_allow = true
match_conds now (some conds) actor for_allow =
    all (λ c. match_condition_to_actor now c actor for_allow) conds

unfoldable pub match_policy_conditions : ℕ → Actor → Actor → CPolicy → Bool → Bool
unfolding match_conds
match_policy_conditions now client server cpol for_allow =
    match_conds now cpol.client_conds client for_allow
    && match_conds now cpol.service_conds server for_allow

-- the `match scope.which()`; forward ICMP uses the request type, reverse the response type
port_matches : PacketDesc → ScopePort → Direction → Bool
port_matches r (port n) forward =
    if r.protocol == ipv6_icmp then r.source_port == n else r.dest_port == n
port_matches r (port n) reverse = if r.protocol == ipv6_icmp then false else r.source_port == n
port_matches r (port_range low high) forward =
    if r.protocol == ipv6_icmp
    then r.source_port == low
    else leb low r.dest_port && leb r.dest_port high
port_matches r (port_range low high) reverse =
    if r.protocol == ipv6_icmp
    then r.source_port == high
    else leb low r.source_port && leb r.source_port high
port_matches r not_in_schema want = false

is_reverse : Direction → Bool
is_reverse reverse = true
is_reverse forward = false

pub is_one_way : ScopeFlag → Bool
is_one_way udp_one_way = true
is_one_way no_flag = false
is_one_way unknown_flag = false

unfoldable pub scope_matches : PacketDesc → Direction → Scope → Bool
unfolding port_matches is_reverse is_one_way
scope_matches r want scope =
    if not (scope.protocol == r.protocol)
    then false
    else if not (port_matches r scope.ports want)
    then false
    else not ((r.protocol == udp) && is_reverse want && is_one_way scope.flag)

unfoldable pub policy_scope_matches : PacketDesc → CPolicy → Direction → Bool
policy_scope_matches r cpol want = any (scope_matches r want) cpol.scope

-- `maybe_direction` of `match_policies`
unfoldable pub hit_direction : ℕ → Bool → Actor → Actor → PacketDesc → CPolicy → Option Direction
hit_direction now allows src dst r cpol =
    if policy_scope_matches r cpol forward && provides dst cpol.service_id
    then (if match_policy_conditions now src dst cpol allows then some forward else none)
    else if policy_scope_matches r cpol reverse && provides src cpol.service_id
    then (if match_policy_conditions now dst src cpol allows then some reverse else none)
    else none

-- `allows != com_policy.get_allow()`
abbrev pub same_bool : Bool → Bool → Bool
same_bool true b = b
same_bool false b = not b

-- the loop of `match_policies`, at index `i`
unfoldable pub match_from : ℕ → ℕ → Bool → Actor → Actor → PacketDesc → List CPolicy → List Hit
match_from i now allows src dst r [] = []
match_from i now allows src dst r (cpol ∷ cpols) =
    let rest = match_from (suc i) now allows src dst r cpols in
    if same_bool allows cpol.allow
    then elim (hit_direction now allows src dst r cpol) [
      | none ↦ rest
      | some d ↦ record { match_idx = i; direction = d; signal = cpol.signal; route = none } ∷ rest
    ]
    else rest

unfoldable pub match_policies : ℕ → Bool → Actor → Actor → PacketDesc → List CPolicy → List Hit
unfolding match_from
match_policies = match_from 0

is_supported : ℕ → Bool
is_supported p = p == tcp || p == udp || p == ipv6_icmp

-- the two passes: denies, then allows
unfoldable pub decide : ℕ → Actor → Actor → PacketDesc → List CPolicy → PartialEvalResult
decide now src dst r cpols =
    let deny_hits = match_policies now false src dst r cpols in
    let allow_hits = match_policies now true src dst r cpols in
    if not (is_empty deny_hits)
    then deny (denied deny_hits)
    else if not (is_empty allow_hits)
    then allow_without_route allow_hits
    else deny (no_match no_matching_policy)

decide_root :
    ℕ → Actor → Actor → PacketDesc → Option (List CPolicy) → Result EvalError PartialEvalResult
decide_root now src dst r none = ok (deny (no_match no_com_policies))
decide_root now src dst r (some cpols) = ok (decide now src dst r cpols)

unfoldable pub eval_request :
    ℕ → Policy → Actor → Actor → PacketDesc → Result EvalError PartialEvalResult
unfolding decide_root is_supported
eval_request now policy src dst r =
    if not (is_supported r.protocol)
    then ok (deny (no_match unsupported_protocol))
    else elim policy.policy_rdr [
      | none ↦ ok (deny (no_match no_policy))
      | some (ok root) ↦ decide_root now src dst r root.com_policies
      | some (err e) ↦ err capnp_error
      | some panic ↦ panic
    ]

-- visa.rs; constraints and communication options are always `None`
pub record VisaProps : Type 0 where
  pub source_addr : IpAddr
  pub dest_addr : IpAddr
  pub protocol : ℕ
  pub source_port : ℕ
  pub dest_port : ℕ
  pub zpl : String

-- the `match request.protocol()`: the ports of the visa
visa_ports : PacketDesc → Direction → Result EvalError (ℕ × ℕ)
visa_ports r d =
    if r.protocol == tcp || r.protocol == udp
    then elim d [
      | forward ↦ ok (if ltb 1023 r.source_port then 0 else r.source_port, r.dest_port)
      | reverse ↦ ok (r.source_port, if ltb 1023 r.dest_port then 0 else r.dest_port)
    ]
    else if r.protocol == ipv6_icmp
    then ok (r.source_port, r.dest_port)
    else err (unsupported_protocol_error r.protocol)

-- `get_com_policies().unwrap().get(idx)`: an absent list reads as an empty one, and an index out
-- of range panics
matched_policy : PolicyRoot → ℕ → Result EvalError CPolicy
matched_policy root i = elim root.com_policies [
  | none ↦ panic
  | some cpols ↦ elim (get_elem? cpols i) [ none ↦ panic | some c ↦ ok c ]
]

visa_of : Hit → PacketDesc → CPolicy → Result EvalError VisaProps
unfolding visa_ports
visa_of hit r cpol = if not cpol.allow then err invalid_request else do
  (sp, dp) ← visa_ports r hit.direction
  ok (record {
    source_addr = r.source_addr;
    dest_addr = r.dest_addr;
    protocol = r.protocol;
    source_port = sp;
    dest_port = dp;
    zpl = cpol.zpl;
  })

unfoldable pub visa_info_for_hit : Policy → Hit → PacketDesc → Result EvalError VisaProps
unfolding matched_policy visa_of
visa_info_for_hit policy hit r = elim policy.policy_rdr [
  | none ↦ err empty_policy
  | some (ok root) ↦ do cpol ← matched_policy root hit.match_idx; visa_of hit r cpol
  | some (err e) ↦ err capnp_error
  | some panic ↦ panic
]
