-- ===== src/Base/Maps.antt =====
-- `HashMap`: an association list with one entry to a key. Where the program walks a map, it does
-- so in the order of the list, and what is proved holds for every order.
use mathlib.Core.Path.{◌≡◌, refl}
use mathlib.Core.Logic.{inl, inr}
use mathlib.Core.List.{List, [], ◌∷◌, map}
use mathlib.Core.Option.{Option, none, some}
use native.Mathlib.Omega.{arith}
use Prim.Native.Nat.{◌≤◌, ◌<◌}
use mathlib.Core.Bool.{true}
use zl_zpr_visaservice.Base.Lists.{All, length, contains}
use zl_zpr_visaservice.Base.Results.{is_some}
use zl_zpr_visaservice.Base.Tests.{HasEq, ◌==◌, if◌then◌else◌, Bool-cases}

abbrev pub Map {ℓ} : Type ℓ → Type ℓ → Type ℓ
Map K V = List (K × V)

module _ {ℓ} {K V : Type ℓ} ⦃e : HasEq K⦄ where
  -- `HashMap::get`
  unfoldable pub lookup : K → Map K V → Option V
  lookup q [] = none
  lookup q (entry ∷ rest) = if entry.0 == q then some entry.1 else lookup q rest

  -- `HashMap::insert`: replaces the value of a key that is there, or adds an entry
  unfoldable pub insert : K → V → Map K V → Map K V
  insert q v [] = (q, v) ∷ []
  insert q v (entry ∷ rest) =
      let kept = entry ∷ insert q v rest in if entry.0 == q then (q, v) ∷ rest else kept

  unfoldable pub remove : K → Map K V → Map K V
  remove k [] = []
  remove k ((j, w) ∷ m) = let rest = remove k m in if j == k then rest else (j, w) ∷ rest

  abbrev pub keys : Map K V → List K
  keys = map (λ p. p.0)

  abbrev pub values : Map K V → List V
  values = map (λ p. p.1)

  pub lookup-insert :
      (put q : K) (v : V) (m : Map K V)
      → lookup q (insert put v m) ≡ (if put == q then some v else lookup q m)
  unfolding lookup insert
  lookup-insert put q v [] = refl
  lookup-insert put q v (entry ∷ rest) = ground (
    arith,
    lookup-insert put q v rest,
    e.is_eq_iff entry.0 put,
    e.is_eq_iff entry.0 q,
    e.is_eq_iff put q,
  )

  pub contains-keys : (k : K) (m : Map K V) → contains (keys m) k ≡ is_some (lookup k m)
  unfolding lookup
  contains-keys k [] = refl
  contains-keys k ((j, v) ∷ m) = elim (Bool-cases (j == k)) [
    | inl same ↦ rw same refl
    | inr other ↦ rw other (contains-keys k m)
  ]

  pub length-remove-le : (k : K) (m : Map K V) → length (remove k m) ≤ length m
  unfolding remove
  length-remove-le k [] = omega arith
  length-remove-le k ((j, v) ∷ m) = ground (arith, length-remove-le k m)

  -- a key that is there leaves
  pub length-remove-lt :
      (k : K) (m : Map K V) → is_some (lookup k m) ≡ true → length (remove k m) < length m
  unfolding lookup remove
  length-remove-lt k [] h = absurd (cc h)
  length-remove-lt k ((j, v) ∷ m) h = elim (Bool-cases (j == k)) [
    | inl same ↦ rw same (omega (arith, length-remove-le k m))
    | inr other ↦ rw other (omega (arith, length-remove-lt k m (rw other at h)))
  ]

  -- what holds of every entry, holds of every entry after an insertion
  pub All-insert {κ} :
      (P : K × V → Type κ) (k : K) (v : V) (m : Map K V) → All P m → P (k, v) → All P (insert k v m)
  unfolding insert
  All-insert P k v [] h p = (p, tt)
  All-insert P k v ((j, w) ∷ m) h p = elim (Bool-cases (j == k)) [
    | inl same ↦ rw same (p, h.1)
    | inr other ↦ rw other (h.0, All-insert P k v m h.1 p)
  ]

  pub lookup-remove :
      (k j : K) (m : Map K V) → lookup j (remove k m) ≡ (if k == j then none else lookup j m)
  unfolding lookup remove
  lookup-remove k j [] = ground arith
  lookup-remove k j ((i, w) ∷ m) =
      ground (arith, e.is_eq_iff k j, e.is_eq_iff i k, e.is_eq_iff i j, lookup-remove k j m)

  -- No key has two entries.
  abbrev pub NoDupKeys : Map K V → Type ℓ
  NoDupKeys [] = Unit
  NoDupKeys ((k, v) ∷ m) = (lookup k m ≡ none) × NoDupKeys m

  pub insert-NoDupKeys : (k : K) (v : V) (m : Map K V) → NoDupKeys m → NoDupKeys (insert k v m)
  unfolding insert lookup
  insert-NoDupKeys k v [] h = (refl, tt)
  insert-NoDupKeys k v ((j, w) ∷ m) h = elim (Bool-cases (j == k)) [
    | inl same ↦ rw same (rw (← (e.is_eq_iff j k).0 same) h)
    | inr other ↦ rw other (
        rw (lookup-insert k j v m)
          (ground (arith, e.is_eq_iff j k, e.is_eq_iff k j, insert-NoDupKeys k v m)))
  ]

  pub remove-NoDupKeys : (k : K) (m : Map K V) → NoDupKeys m → NoDupKeys (remove k m)
  unfolding remove
  remove-NoDupKeys k [] h = h
  remove-NoDupKeys k ((j, w) ∷ m) h = elim (Bool-cases (j == k)) [
    | inl same ↦ rw same (remove-NoDupKeys k m h.1)
    | inr other ↦ rw other (
        rw (lookup-remove k j m)
          (ground (arith, e.is_eq_iff j k, e.is_eq_iff k j), remove-NoDupKeys k m h.1))
  ]

pub ruleset map_laws = (lookup-insert, lookup-remove)
