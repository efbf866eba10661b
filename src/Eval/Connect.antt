-- ===== src/Eval/Connect.antt =====
-- `approve_connection` and `approve_connected` of libeval/src/eval.rs. `parse_ip` is
-- `str::parse::<IpAddr>`, and `hash_of` the text `hash:…` made of an actor's `DefaultHasher` hash.
pub mod Steps
pub mod Approved
pub mod Outcome
mod Tests
use Prim.Native.String
use zl_zpr_visaservice.Base.{
  ℕ, zero, suc, ◌+◌, ◌-◌, ◌*◌, ◌/◌, ◌%◌, ◌^◌, String, String-HasEq, ◌==◌, Bool, true, false, not,
  ◌&&◌, ◌||◌, List, [], ◌∷◌, ◌++◌, Option, none, some, any, all, filter, contains, is_empty,
  if◌then◌else◌, Result, ok, err, panic, ◌>>=◌, ltb, ℕ-HasEq,
}
use zl_zpr_visaservice.IpAddr.{IpAddr}
use zl_zpr_visaservice.Attribute.{
  Attribute, role_node, role_adapter, never_expires, builder, expires_in, with_value,
}
use zl_zpr_visaservice.Attribute.Key
use zl_zpr_visaservice.Actor
use zl_zpr_visaservice.Actor.{
  Actor, ActorError, attrs_iter, has_attribute_named, add_attribute, add_identity_key, set_services,
  is_node, services_iter,
}
use zl_zpr_visaservice.JoinPolicy.{AttrOp, eq, AttrExp, JFlags, no_flags, join_flags, JPolicy}
use zl_zpr_visaservice.Policy.{
  Policy, match_join_policies, service_ids, join_services, lookup_identity_keys,
}
use zl_zpr_visaservice.Eval.{EvalError, attribute_missing, same_bool}

is_eq_op : AttrOp → Bool
is_eq_op eq = true
is_eq_op _ = false

unfoldable pub pins_zpr_addr : AttrExp → Bool
unfolding is_eq_op
pins_zpr_addr exp =
    (exp.key == Key.zpr_addr)
    && is_eq_op exp.op
    && not (is_empty exp.value)
    && all (λ v. not (v == "")) exp.value

-- `usize::MAX`
abbrev pub usize_max : ℕ
usize_max = 2 ^ 64 - 1

digit : ℕ → String
digit d =
    if d == 0
    then "0"
    else if d == 1
    then "1"
    else if d == 2
    then "2"
    else if d == 3
    then "3"
    else if d == 4
    then "4"
    else if d == 5
    then "5"
    else if d == 6
    then "6"
    else if d == 7
    then "7"
    else if d == 8
    then "8"
    else "9"

-- the decimal digits; a number has fewer digits than its successor counts
to_decimal : ℕ → ℕ → String
to_decimal zero n = ""
to_decimal (suc fuel) n =
    let front = to_decimal fuel (n / 10) in
    if ltb n 10 then digit n else String.◌++◌ front (digit (n % 10))

-- `u64::to_string`
unfoldable pub to_string : ℕ → String
unfolding digit to_decimal
to_string n = to_decimal (suc n) n

-- `.unwrap()` of what a method of the actor returns
abbrev pub must : Result ActorError Actor → Result EvalError Actor
must (ok a) = ok a
must (err e) = panic
must panic = panic

-- the flags of the matched policies, `|=` one after the other
unfoldable pub flags_of : JFlags → List JPolicy → JFlags
flags_of f [] = f
flags_of f (jp ∷ jps) = flags_of (join_flags f jp.flags) jps

abbrev pub requested_addrs : List Attribute → List Attribute
requested_addrs = filter (λ x. x.key == Key.zpr_addr)

abbrev pub unauth_of : Option (List Attribute) → List Attribute
unauth_of none = []
unauth_of (some uc) = requested_addrs uc

abbrev pub pins : JPolicy → Bool
pins jp = any pins_zpr_addr jp.matches

unfoldable pub role_attr : ℕ → JFlags → Attribute
unfolding builder expires_in with_value
role_attr now flags =
    with_value (expires_in now (builder now Key.role) never_expires)
      (if flags.is_node then role_node else role_adapter)

unfoldable pub vinst_attr : ℕ → Policy → Attribute
unfolding builder expires_in with_value
vinst_attr now policy =
    with_value (expires_in now (builder now Key.vinst) never_expires) (to_string policy.vinst)

-- the loop over the policy's identity keys
unfoldable pub add_identity_keys : Actor → List String → Result EvalError Actor
add_identity_keys actor [] = ok actor
add_identity_keys actor (k ∷ ks) =
    let skip = add_identity_keys actor ks in
    let add = must (add_identity_key actor usize_max k) >>= (λ a. add_identity_keys a ks) in
    if has_attribute_named actor k then add else skip

module _ (parse_ip : String → Option IpAddr) (hash_of : Actor → String) where
  -- invalid claims are dropped
  unfoldable pub add_claims : Actor → List Attribute → Actor
  add_claims actor [] = actor
  add_claims actor (x ∷ xs) =
      add_claims
        (elim (add_attribute parse_ip actor x) [ ok a ↦ a | err e ↦ actor | panic ↦ actor ]) xs

  -- the last resort: an actor with no identity key yet
  unfoldable pub last_resort : ℕ → Actor → Result EvalError Actor
  last_resort now actor =
      if not (is_empty actor.identity_keys)
      then ok actor
      else if has_attribute_named actor Key.zpr_addr
      then must (add_identity_key actor usize_max Key.zpr_addr)
      else do
        a ←
            must (
              add_attribute parse_ip actor
                (with_value (builder now Key.actor_hash) (hash_of actor)))
        must (add_identity_key a usize_max Key.actor_hash)

  -- from the claims that are committed to the approved actor
  unfoldable pub finish_actor :
      ℕ → Policy → List Attribute → JFlags → List String → Result EvalError Actor
  finish_actor now policy final flags services = do
    a ← must (add_attribute parse_ip (add_claims Actor.new final) (role_attr now flags))
    b ← must (add_attribute parse_ip (set_services now a services) (vinst_attr now policy))
    c ← add_identity_keys b (lookup_identity_keys policy)
    last_resort now c

  -- with the authenticated claims at hand
  unfoldable pub approve_claims :
      ℕ → Policy → List Attribute → List Attribute → Result EvalError Actor
  approve_claims now policy auth unauth =
      let query = auth ++ unauth in
      let matching = match_join_policies now policy query in
      finish_actor now policy (if any pins matching then query else auth)
        (flags_of no_flags matching) (join_services now policy query)

  unfoldable pub approve_connection :
      ℕ → Policy → Option (List Attribute) → Option (List Attribute) → Result EvalError Actor
  approve_connection now policy none unauth = err attribute_missing
  approve_connection now policy (some auth) unauth =
      approve_claims now policy auth (unauth_of unauth)

-- with at least one matched policy
unfoldable pub covered : Actor → List JPolicy → Bool
covered actor matching =
    let flags = flags_of no_flags matching in
    if not (same_bool flags.is_node (is_node actor))
    then false
    else all (contains (service_ids matching)) (services_iter actor)

unfoldable pub approve_connected : ℕ → Policy → Actor → Result EvalError Bool
approve_connected now policy actor =
    let matching = match_join_policies now policy (attrs_iter actor) in
    ok (if is_empty matching then not (is_node actor) else covered actor matching)
