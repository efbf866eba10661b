-- ===== src/Base/Lists.antt =====
-- Lists measured by native numbers and tested by Boolean functions, under the library's names.
use Prim.Native.Nat.{ℕ, zero, suc, ◌+◌}
use mathlib.Core.Path.{◌≡◌, refl, ap}
use mathlib.Core.Logic.{◌⊎◌, inl, inr}
use mathlib.Core.Bool.{Bool, true, false, ◌&&◌, ◌||◌}
use mathlib.Core.List.{List, [], ◌∷◌, ◌++◌}
use mathlib.Core.Option.{Option, none, some}
use native.Mathlib.Omega.{arith}
use zl_zpr_visaservice.Base.Tests.{HasEq, ◌==◌, if◌then◌else◌, Bool-cases}

module _ {ℓ} {A : Type ℓ} where
  abbrev pub length : List A → ℕ
  length [] = 0
  length (x ∷ xs) = suc (length xs)

  abbrev pub get_elem? : List A → ℕ → Option A
  get_elem? [] i = none
  get_elem? (x ∷ xs) zero = some x
  get_elem? (x ∷ xs) (suc i) = get_elem? xs i

  abbrev pub head? : List A → Option A
  head? [] = none
  head? (x ∷ xs) = some x

  abbrev pub take : ℕ → List A → List A
  take zero xs = []
  take (suc n) [] = []
  take (suc n) (x ∷ xs) = x ∷ take n xs

  abbrev pub is_empty : List A → Bool
  is_empty [] = true
  is_empty (x ∷ xs) = false

  abbrev pub any : (A → Bool) → List A → Bool
  any p [] = false
  any p (x ∷ xs) = p x || any p xs

  abbrev pub all : (A → Bool) → List A → Bool
  all p [] = true
  all p (x ∷ xs) = p x && all p xs

  abbrev pub filter : (A → Bool) → List A → List A
  filter p [] = []
  filter p (x ∷ xs) = if p x then x ∷ filter p xs else filter p xs

  -- A predicate at every item.
  abbrev pub All {κ} : (A → Type κ) → List A → Type κ
  All P [] = Unit
  All P (x ∷ xs) = P x × All P xs

  pub List-cases : (xs : List A) → (xs ≡ []) ⊎ ((x : A) × (rest : List A) × (xs ≡ x ∷ rest))
  List-cases [] = inl refl
  List-cases (x ∷ xs) = inr (x, xs, refl)

  pub length-append : (xs ys : List A) → length (xs ++ ys) ≡ length xs + length ys
  length-append [] ys = omega arith
  length-append (x ∷ xs) ys = omega (arith, length-append xs ys)

  pub All-append {κ} : (P : A → Type κ) (xs ys : List A) → All P xs → All P ys → All P (xs ++ ys)
  All-append P [] ys hx hy = hy
  All-append P (x ∷ xs) ys hx hy = (hx.0, All-append P xs ys hx.1 hy)

  -- An item that passes a test is found by it.
  pub any-get_elem? :
      (p : A → Bool) (xs : List A) (i : ℕ) (x : A)
      → get_elem? xs i ≡ some x
      → p x ≡ true
      → any p xs ≡ true
  any-get_elem? p [] i x h t = ground arith
  any-get_elem? p (y ∷ ys) zero x h t = ground arith
  any-get_elem? p (y ∷ ys) (suc i) x h t = ground (arith, any-get_elem? p ys i x h t)

  -- A test that holds of some item has an item that it holds of.
  pub any-eq-true :
      (p : A → Bool) (xs : List A)
      → any p xs ≡ true
      → (i : ℕ) × (x : A) × (get_elem? xs i ≡ some x) × (p x ≡ true)
  any-eq-true p [] h = ground arith
  any-eq-true p (y ∷ ys) h = elim (Bool-cases (p y)) [
    | inl t ↦ (0, y, refl, t)
    | inr f ↦ let (i, x, g, t) = any-eq-true p ys (ground arith) in (suc i, x, g, t)
  ]

  -- Tests that imply one another carry `all` along.
  pub all_mono :
      (p q : A → Bool) (xs : List A)
      → ((x : A) → p x ≡ true → q x ≡ true)
      → all p xs ≡ true
      → all q xs ≡ true
  all_mono p q [] h a = refl
  all_mono p q (x ∷ xs) h a = ground (arith, h x, all_mono p q xs h)

module _ {ℓ} {A : Type ℓ} ⦃e : HasEq A⦄ where
  abbrev pub contains : List A → A → Bool
  contains xs a = any (λ x. x == a) xs

  pub contains-append :
      (a : A) (xs ys : List A) → contains (xs ++ ys) a ≡ (contains xs a || contains ys a)
  contains-append a [] ys = refl
  contains-append a (x ∷ xs) ys = ground (arith, contains-append a xs ys)

  -- How often a value stands in a list.
  abbrev pub count : A → List A → ℕ
  count a [] = 0
  count a (x ∷ xs) = (if x == a then 1 else 0) + count a xs

-- An item stands in a list, at some place.
abbrev pub Among {ℓ} : {A : Type ℓ} → A → List A → Type ℓ
Among x xs = (i : ℕ) × (get_elem? xs i ≡ some x)

module _ {ℓ} {A : Type ℓ} where
  pub Among-head : (x : A) (xs : List A) → Among x (x ∷ xs)
  Among-head x xs = (0, refl)

  pub Among-tail : (x y : A) (xs : List A) → Among x xs → Among x (y ∷ xs)
  Among-tail x y xs m = (suc m.0, m.1)

  pub Among-cons : (x y : A) (xs : List A) → Among x (y ∷ xs) → (y ≡ x) ⊎ Among x xs
  Among-cons x y xs (zero, h) = inl (ground arith)
  Among-cons x y xs (suc i, h) = inr (i, h)

  -- What the filter keeps stood in the list, and passed the test.
  pub Among-filter :
      (p : A → Bool) (x : A) (xs : List A) → Among x (filter p xs) → Among x xs × (p x ≡ true)
  Among-filter p x [] m = absurd (ground (arith, m.1))
  Among-filter p x (y ∷ ys) m = elim (Bool-cases (p y)) [
    | inl t ↦ elim (Among-cons x y (filter p ys) (rw t at m)) [
      | inl same ↦ ((0, ap some same), rw same at t)
      | inr later ↦ let (a, q) = Among-filter p x ys later in (Among-tail x y ys a, q)
    ]
    | inr f ↦ let (a, q) = Among-filter p x ys (rw f at m) in (Among-tail x y ys a, q)
  ]

  pub filter-Among :
      (p : A → Bool) (x : A) (xs : List A) → Among x xs → p x ≡ true → Among x (filter p xs)
  filter-Among p x [] m t = absurd (ground (arith, m.1))
  filter-Among p x (y ∷ ys) m t = elim (Among-cons x y ys m) [
    | inl same ↦ rw (same, t) (0, refl)
    | inr later ↦
        let rest = filter-Among p x ys later t in
        elim (Bool-cases (p y)) [
          | inl keep ↦ rw keep (Among-tail x y (filter p ys) rest)
          | inr skip ↦ rw skip rest
        ]
  ]

  pub Among-append : (x : A) (xs ys : List A) → Among x (xs ++ ys) → Among x xs ⊎ Among x ys
  Among-append x [] ys m = inr m
  Among-append x (y ∷ xs) ys (zero, h) = inl (zero, h)
  Among-append x (y ∷ xs) ys (suc i, h) = elim (Among-append x xs ys (i, h)) [
    | inl left ↦ inl (Among-tail x y xs left)
    | inr right ↦ inr right
  ]
