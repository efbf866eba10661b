-- ===== src/Attribute.antt =====
-- libeval/src/attribute.rs: attributes, their keys, and their expiry. A `SystemTime` is a number of
-- nanoseconds, and what calls `SystemTime::now()` takes the reading as the argument `now`.
pub mod Key
pub mod Times
pub mod Equivalent
use Prim.Native.String
use zl_zpr_visaservice.Base.{
  ℕ, ◌+◌, ◌*◌, ◌^◌, String, String-HasEq, ◌==◌, Bool, ◌&&◌, true, false, List, [], ◌∷◌, Result, ok,
  err, ℕ-HasEq, length, contains, all, any, ltb,
}

-- `SOURCE_ZPR`
abbrev pub source_zpr : String
source_zpr = "zpr"

-- `ROLE_NODE` and `ROLE_ADAPTER`
abbrev pub role_node : String
role_node = "node"

abbrev pub role_adapter : String
role_adapter = "adapter"

-- `NEVER_EXPIRES`, a duration
abbrev pub never_expires : ℕ
never_expires = 60 * 60 * 60 * 24 * 365 * 100 * 10 ^ 9

pub data AttributeError : Type 0 where
  not_single_value : String → AttributeError

pub record Attribute : Type 0 where
  pub key : String
  pub value : List String
  pub expires_at : ℕ
  pub source : String

pub record AttributeBuilder : Type 0 where
  pub key : String
  pub expires_at : ℕ
  pub source : String

-- `Attribute::builder`, which is `AttributeBuilder::new`
unfoldable pub builder : ℕ → String → AttributeBuilder
builder now k = record { key = k; expires_at = now + never_expires; source = source_zpr }

-- `AttributeSource::builder`, which is `AttributeBuilder::new_from_source`
unfoldable pub new_from_source : ℕ → String → String → AttributeBuilder
new_from_source now k source = record { key = k; expires_at = now + never_expires; source = source }

unfoldable pub expires : AttributeBuilder → ℕ → AttributeBuilder
expires b at = record b { expires_at = at }

unfoldable pub expires_in : ℕ → AttributeBuilder → ℕ → AttributeBuilder
expires_in now b duration = record b { expires_at = now + duration }

unfoldable pub with_values : AttributeBuilder → List String → Attribute
with_values b vs = record { key = b.key; value = vs; expires_at = b.expires_at; source = b.source }

unfoldable pub with_value : AttributeBuilder → String → Attribute
unfolding with_values
with_value b v = with_values b (v ∷ [])

single_of : String → List String → Result AttributeError String
single_of k (v ∷ []) = ok v
single_of k _ = err (not_single_value k)

unfoldable pub get_single_value : Attribute → Result AttributeError String
unfolding single_of
get_single_value a = single_of a.key a.value

sole_is : String → List String → Bool
sole_is v (w ∷ []) = w == v
sole_is v _ = false

unfoldable pub is_single_value : Attribute → String → Bool
unfolding sole_is
is_single_value a v = sole_is v a.value

unfoldable pub is_expired : ℕ → Attribute → Bool
is_expired now a = ltb a.expires_at now

unfoldable pub value_has : Attribute → String → Bool
value_has a v = contains a.value v

unfoldable pub value_has_all : Attribute → List String → Bool
unfolding value_has
value_has_all a vs = all (value_has a) vs

unfoldable pub value_has_any : Attribute → List String → Bool
unfolding value_has
value_has_any a vs = any (value_has a) vs
