-- ===== src/Base/Sets.antt =====
-- `HashSet` as a list with no value twice, and the sorting of texts.
use Prim.Native.Nat.{Ordering}
use Prim.Native.String.{String, compare}
use mathlib.Core.Path.{◌≡◌, refl}
use mathlib.Core.Logic.{inl, inr}
use mathlib.Core.Bool.{Bool, true, false, ◌||◌, ◌&&◌, not}
use mathlib.Core.List.{List, [], ◌∷◌}
use native.Mathlib.Omega.{arith}
use zl_zpr_visaservice.Base.Tests.{HasEq, String-HasEq, ◌==◌, if◌then◌else◌, Bool-cases}
use zl_zpr_visaservice.Base.Lists.{contains, filter}

module _ {ℓ} {A : Type ℓ} ⦃e : HasEq A⦄ where
  -- adds a value that is not there yet
  unfoldable pub set_insert : A → List A → List A
  set_insert a xs = if contains xs a then xs else a ∷ xs

  -- `.collect()` into a set
  unfoldable pub to_set : List A → List A
  unfolding set_insert
  to_set [] = []
  to_set (x ∷ xs) = set_insert x (to_set xs)

  pub contains-set_insert :
      (a b : A) (xs : List A) → contains (set_insert a xs) b ≡ (a == b || contains xs b)
  unfolding set_insert
  contains-set_insert a b xs = elim (Bool-cases (contains xs a)) [
    | inl old ↦ elim (Bool-cases (a == b)) [
      | inl same ↦ rw (old, same) (rw (← (e.is_eq_iff a b).0 same) old)
      | inr other ↦ rw (old, other)
    ]
    | inr new ↦ rw new
  ]

  -- every value but one is kept
  pub contains-filter_ne :
      (a b : A) (xs : List A)
      → contains (filter (λ x. not (x == a)) xs) b ≡ (contains xs b && not (a == b))
  contains-filter_ne a b [] = refl
  contains-filter_ne a b (x ∷ xs) =
      ground (arith, contains-filter_ne a b xs, e.is_eq_iff x a, e.is_eq_iff x b, e.is_eq_iff a b)

  pub contains-to_set : (b : A) (xs : List A) → contains (to_set xs) b ≡ contains xs b
  unfolding to_set
  contains-to_set b [] = refl
  contains-to_set b (x ∷ xs) =
      ground (arith, contains-set_insert x b (to_set xs), contains-to_set b xs)

-- the order of `str`, by bytes
abbrev le_text : String → String → Bool
le_text s t = elim (compare s t) [ Ordering.gt ↦ false | _ ↦ true ]

sort_insert : String → List String → List String
sort_insert x [] = x ∷ []
sort_insert x (y ∷ ys) = if le_text x y then x ∷ y ∷ ys else y ∷ sort_insert x ys

-- `Vec::sort` on texts
unfoldable pub sort : List String → List String
unfolding sort_insert
sort [] = []
sort (x ∷ xs) = sort_insert x (sort xs)

contains-sort_insert :
    (x a : String) (xs : List String) → contains (sort_insert x xs) a ≡ (x == a || contains xs a)
unfolding sort_insert
contains-sort_insert x a [] = refl
contains-sort_insert x a (y ∷ ys) = ground (arith, contains-sort_insert x a ys)

pub contains-sort : (a : String) (xs : List String) → contains (sort xs) a ≡ contains xs a
unfolding sort
contains-sort a [] = refl
contains-sort a (x ∷ xs) = ground (arith, contains-sort_insert x a (sort xs), contains-sort a xs)
