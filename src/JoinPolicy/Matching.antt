-- ===== src/JoinPolicy/Matching.antt =====
-- `JPolicy::matches` read key by key, and over time.
use zl_zpr_visaservice.Base.{
  ℕ, String, String-HasEq, ◌==◌, ◌≡◌, refl, Bool, true, not, ◌&&◌, List, [], ◌∷◌, Option, none,
  some, all, if◌then◌else◌, arith, Bool-cases, inl, inr, eq_iff,
}
use zl_zpr_visaservice.Attribute.{Attribute, is_expired}
use zl_zpr_visaservice.JoinPolicy.{
  AttrExp, JPolicy, admits, is_excludes, is_empty_value, Scan, rejected, scanned, scan_attrs,
  settle, exp_matches, policy_matches,
}

-- The first attribute with a key.
abbrev pub find_attr : String → List Attribute → Option Attribute
find_attr k [] = none
find_attr k (a ∷ attrs) = if a.key == k then some a else find_attr k attrs

-- No two attributes have one key, as in the attributes of an actor.
abbrev pub DistinctKeys : List Attribute → Type 0
DistinctKeys [] = Unit
DistinctKeys (a ∷ attrs) = (find_attr a.key attrs ≡ none) × DistinctKeys attrs

-- What an expression asks of the attribute with its key: to be there, unexpired, with the right
-- values; or, for an empty EXCLUDES, to be absent.
abbrev pub holds_of : ℕ → AttrExp → Option Attribute → Bool
holds_of now exp none = is_excludes exp.op && is_empty_value exp
holds_of now exp (some a) = not (is_expired now a) && admits exp a

-- The scan passes attributes with other keys by.
scan_absent :
    (now : ℕ) (exp : AttrExp) (found : Bool) (attrs : List Attribute)
    → find_attr exp.key attrs ≡ none
    → scan_attrs now exp found attrs ≡ scanned found
unfolding scan_attrs
scan_absent now exp found [] h = refl
scan_absent now exp found (a ∷ attrs) h = ground (arith, scan_absent now exp found attrs)

exp_matches-find :
    (now : ℕ) (exp : AttrExp) (attrs : List Attribute)
    → DistinctKeys attrs
    → exp_matches now attrs exp ≡ holds_of now exp (find_attr exp.key attrs)
unfolding exp_matches
exp_matches-find now exp [] d = refl
exp_matches-find now exp (a ∷ attrs) d = elim (Bool-cases (a.key == exp.key)) [
  | inl same ↦
      let absent : find_attr exp.key attrs ≡ none = rw ((eq_iff a.key exp.key).0 same) at d.0 in
      ground (arith, scan_absent now exp true attrs absent)
  | inr other ↦ ground (arith, exp_matches-find now exp attrs d.1)
]

all_cong :
    (p q : AttrExp → Bool) (es : List AttrExp) → ((e : AttrExp) → p e ≡ q e) → all p es ≡ all q es
all_cong p q [] h = refl
all_cong p q (e ∷ es) h = cc (h e, all_cong p q es h)

-- With no key twice among the attributes, a join policy matches exactly when each of its
-- expressions holds of the attribute with its key.
pub policy_matches-find :
    (now : ℕ) (jp : JPolicy) (attrs : List Attribute)
    → DistinctKeys attrs
    → policy_matches now jp attrs
      ≡ all (λ exp. holds_of now exp (find_attr exp.key attrs)) jp.matches
unfolding policy_matches
policy_matches-find now jp attrs d = all_cong _ _ jp.matches (λ e. exp_matches-find now e attrs d)

settled : (s : Scan) (exp : AttrExp) → settle exp s ≡ true → (b : Bool) × (s ≡ scanned b)
unfolding settle
settled rejected exp h = absurd (cc)
settled (scanned b) exp h = (b, refl)
