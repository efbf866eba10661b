-- ===== src/JoinPolicy.antt =====
-- libeval/src/joinpolicy.rs: the join policies, and when a list of attributes matches one.
-- `AttrExp` and `AttrOp` are the zpr crate's, with the fields and the variants that the code names.
pub mod Exactly
pub mod Matching
mod Tests
use zl_zpr_visaservice.Base.{
  ℕ, suc, String, String-HasEq, ℕ-HasEq, ◌==◌, Bool, ◌&&◌, ◌||◌, not, true, false, List, [], ◌∷◌,
  Option, none, some, length, all, is_empty, if◌then◌else◌, Map, lookup, insert,
}
use zl_zpr_visaservice.Attribute.{Attribute, is_expired, value_has_all, value_has_any}

pub data AttrOp : Type 0 where
  eq ne has excludes : AttrOp

pub record AttrExp : Type 0 where
  pub key : String
  pub op : AttrOp
  pub value : List String

-- `EnumSet<JFlag>`
pub record JFlags : Type 0 where
  pub is_node : Bool
  pub is_vs : Bool
  pub is_vs_dock : Bool

abbrev pub no_flags : JFlags
no_flags = record { is_node = false; is_vs = false; is_vs_dock = false }

-- `|=`
abbrev pub join_flags : JFlags → JFlags → JFlags
join_flags f g = record {
  is_node = f.is_node || g.is_node;
  is_vs = f.is_vs || g.is_vs;
  is_vs_dock = f.is_vs_dock || g.is_vs_dock;
}

pub record JPolicy : Type 0 where
  pub matches : List AttrExp
  pub flags : JFlags
  pub services : Option (List String)

-- `or_insert(0) += 1`
abbrev bump : Option ℕ → ℕ
bump none = 1
bump (some n) = suc n

-- `*m.entry(s).or_insert(0) += 1`, for each text in turn
tally : Map String ℕ → List String → Map String ℕ
tally m [] = m
tally m (s ∷ ss) = tally (insert s (bump (lookup s m)) m) ss

-- every entry of the first map is an entry of the second
abbrev has_entry : Map String ℕ → String × ℕ → Bool
has_entry n (k, v) = elim (lookup k n) [ none ↦ false | some w ↦ v == w ]

-- `HashMap == HashMap`: the same entries on both sides
same_map : Map String ℕ → Map String ℕ → Bool
same_map m n = all (has_entry n) m && all (has_entry m) n

unfoldable pub contains_exactly : AttrExp → List String → Bool
unfolding tally same_map
contains_exactly exp vals =
    if not (length vals == length exp.value)
    then false
    else same_map (tally [] vals) (tally [] exp.value)

first_is_empty : List String → Bool
first_is_empty [] = false
first_is_empty (v ∷ vs) = v == ""

-- `value.is_empty() || value[0].is_empty()`
unfoldable pub is_empty_value : AttrExp → Bool
unfolding first_is_empty
is_empty_value exp = is_empty exp.value || first_is_empty exp.value

-- the `match jp_exp.op` of the inner loop: false where the source returns false
admits_op : AttrOp → AttrExp → Attribute → Bool
admits_op eq exp a = contains_exactly exp a.value
admits_op ne exp a = not (contains_exactly exp a.value)
admits_op has exp a = is_empty_value exp || value_has_all a exp.value
admits_op excludes exp a = not (is_empty_value exp) && not (value_has_any a exp.value)

unfoldable pub admits : AttrExp → Attribute → Bool
unfolding admits_op
admits exp a = admits_op exp.op exp a

-- what one pass of the inner loop ends with
pub data Scan : Type 0 where
  rejected : Scan
  scanned : Bool → Scan

-- The loop over the attributes, `found` so far.
scan_attrs : ℕ → AttrExp → Bool → List Attribute → Scan
scan_attrs now exp found [] = scanned found
scan_attrs now exp found (a ∷ attrs) =
    let same = scan_attrs now exp true attrs in
    let other = scan_attrs now exp found attrs in
    if a.key == exp.key
    then (if is_expired now a then rejected else if admits exp a then same else rejected)
    else other

pub is_excludes : AttrOp → Bool
is_excludes excludes = true
is_excludes _ = false

-- An expression after its scan: only an empty EXCLUDES holds of an absent key.
settle : AttrExp → Scan → Bool
settle exp rejected = false
settle exp (scanned true) = true
settle exp (scanned false) = is_excludes exp.op && is_empty_value exp

unfoldable pub exp_matches : ℕ → List Attribute → AttrExp → Bool
unfolding scan_attrs settle is_excludes
exp_matches now attrs exp = settle exp (scan_attrs now exp false attrs)

-- `JPolicy::matches`
unfoldable pub policy_matches : ℕ → JPolicy → List Attribute → Bool
unfolding exp_matches
policy_matches now jp attrs = all (exp_matches now attrs) jp.matches
