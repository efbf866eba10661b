-- ===== src/JoinPolicy/Exactly.antt =====
-- `contains_exactly` compares two lists of values as multisets.
use zl_zpr_visaservice.Base.{
  ℕ, zero, suc, ◌+◌, String, String-HasEq, ℕ-HasEq, ◌==◌, ◌≡◌, ◌↔◌, refl, sym, ap, ◌∙◌, true, List,
  [], ◌∷◌, Option, none, some, length, all, count, if◌then◌else◌, Map, lookup, insert,
  lookup-insert, NoDupKeys, insert-NoDupKeys, arith, Bool-cases, Option-cases, inl, inr, some_inj,
  eq_iff, and-eq-true, ◌<◌, beq_refl,
}
use native.Mathlib.Nat.{zero-add}
use zl_zpr_visaservice.JoinPolicy.{bump, AttrExp, tally, has_entry, same_map, contains_exactly}

-- A count as an entry of a tally: there is none for a text that does not occur.
abbrev plus : Option ℕ → ℕ → Option ℕ
plus o zero = o
plus none (suc n) = some (suc n)
plus (some v) (suc n) = some (v + suc n)

plus-bump : (o : Option ℕ) (n : ℕ) → plus (some (bump o)) n ≡ plus o (1 + n)
plus-bump none zero = refl
plus-bump none (suc n) = ground arith
plus-bump (some v) zero = ground arith
plus-bump (some v) (suc n) = ground arith

lookup-tally :
    (k : String) (ss : List String) (m : Map String ℕ)
    → lookup k (tally m ss) ≡ plus (lookup k m) (count k ss)
unfolding tally
lookup-tally k [] m = refl
lookup-tally k (s ∷ ss) m =
    let rest = lookup-tally k ss (insert s (bump (lookup s m)) m) in
    let here = lookup-insert s k (bump (lookup s m)) m in
    elim (Bool-cases (s == k)) [
      | inl same ↦
          let e = (eq_iff s k).0 same in
          rest ∙ rw (here, same) (rw e (plus-bump (lookup k m) (count k ss)))
      | inr other ↦ rest ∙ rw (here, other) (rw zero-add)
    ]

tally-NoDupKeys : (ss : List String) (m : Map String ℕ) → NoDupKeys m → NoDupKeys (tally m ss)
unfolding tally
tally-NoDupKeys [] m d = d
tally-NoDupKeys (s ∷ ss) m d = tally-NoDupKeys ss _ (insert-NoDupKeys s _ m d)

-- Every entry of `m` is one of `n`.
entries-lookup :
    (m n : Map String ℕ) (k : String) (v : ℕ)
    → all (has_entry n) m ≡ true
    → lookup k m ≡ some v
    → lookup k n ≡ some v
unfolding lookup
entries-lookup [] n k v h e = absurd (ground arith)
entries-lookup ((j, w) ∷ m) n k v h e = ground (arith, eq_iff j k, entries-lookup m n k v)

has_entry-lookup :
    (n : Map String ℕ) (k : String) (v : ℕ) → lookup k n ≡ some v → has_entry n (k, v) ≡ true
has_entry-lookup n k v e = ground arith

later_entry :
    (k j : String) (v w : ℕ) (m : Map String ℕ)
    → lookup k m ≡ none
    → lookup j m ≡ some w
    → lookup j ((k, v) ∷ m) ≡ some w
unfolding lookup
later_entry k j v w m absent e = elim (Bool-cases (k == j)) [
  | inl same ↦ absurd (cc (ap (λ t. lookup t m) ((eq_iff k j).0 same)))
  | inr other ↦ rw other e
]

lookup-entries :
    (m n : Map String ℕ)
    → NoDupKeys m
    → ((k : String) (v : ℕ) → lookup k m ≡ some v → lookup k n ≡ some v)
    → all (has_entry n) m ≡ true
unfolding lookup
lookup-entries [] n d h = refl
lookup-entries ((k, v) ∷ m) n d h =
    let first = has_entry-lookup n k v (h k v (rw (beq_refl k))) in
    let rest = lookup-entries m n d.1 (λ j w e. h j w (later_entry k j v w m d.0 e)) in
    ground (arith, first, rest)

-- Two tallies are the same map exactly when each text occurs as often on both sides.
same_map-tally :
    (xs ys : List String)
    → same_map (tally [] xs) (tally [] ys) ≡ true
    → (k : String) → plus none (count k xs) ≡ plus none (count k ys)
unfolding same_map lookup
same_map-tally xs ys h k =
    let (there, back) = and-eq-true _ _ h in
    let left = lookup-tally k xs [] in
    let right = lookup-tally k ys [] in
    elim (Option-cases (plus none (count k xs))) [
      | inr (v, e) ↦ e ∙ sym (entries-lookup _ _ k v there (left ∙ e)) ∙ right
      | inl absent ↦ elim (Option-cases (plus none (count k ys))) [
        | inl too ↦ absent ∙ sym too
        | inr (v, e) ↦ sym (left) ∙ entries-lookup _ _ k v back (right ∙ e) ∙ sym e
      ]
    ]

tally-same_map :
    (xs ys : List String)
    → ((k : String) → count k xs ≡ count k ys)
    → same_map (tally [] xs) (tally [] ys) ≡ true
unfolding same_map lookup
tally-same_map xs ys h =
    let agree =
      λ (k : String). lookup-tally k xs [] ∙ ap (plus none) (h k) ∙ sym (lookup-tally k ys []) in
    let there =
      lookup-entries (tally [] xs) (tally [] ys) (tally-NoDupKeys xs [] tt)
        (λ k v e. sym (agree k) ∙ e) in
    let back =
      lookup-entries (tally [] ys) (tally [] xs) (tally-NoDupKeys ys [] tt)
        (λ k v e. agree k ∙ e) in
    ground (arith, there, back)

plus-injective : (m n : ℕ) → plus none m ≡ plus none n → m ≡ n
plus-injective zero zero h = refl
plus-injective zero (suc n) h = cc
plus-injective (suc m) zero h = cc
plus-injective (suc m) (suc n) h = some_inj h

drop_one : String → List String → List String
drop_one x [] = []
drop_one x (y ∷ ys) = if y == x then ys else y ∷ drop_one x ys

count-drop_one :
    (x k : String) (ys : List String)
    → 0 < count x ys
    → count k ys ≡ (if x == k then 1 else 0) + count k (drop_one x ys)
unfolding drop_one
count-drop_one x k [] h = absurd (omega arith)
count-drop_one x k (y ∷ ys) h =
    ground (arith, eq_iff y x, eq_iff x k, eq_iff y k, count-drop_one x k ys)

length-drop_one :
    (x : String) (ys : List String) → 0 < count x ys → length ys ≡ suc (length (drop_one x ys))
unfolding drop_one
length-drop_one x [] h = absurd (omega arith)
length-drop_one x (y ∷ ys) h = ground (arith, length-drop_one x ys)

length_of_counts :
    (xs ys : List String) → ((k : String) → count k xs ≡ count k ys) → length xs ≡ length ys
length_of_counts [] [] h = refl
length_of_counts [] (y ∷ ys) h = absurd (ground (arith, h y, beq_refl y))
length_of_counts (x ∷ xs) ys h =
    let some_x : 0 < count x ys = ground (arith, h x, beq_refl x) in
    let rest =
      length_of_counts xs (drop_one x ys) (λ k. omega (arith, h k, count-drop_one x k ys some_x)) in
    omega (arith, rest, length-drop_one x ys some_x)

-- `contains_exactly` holds exactly when each text occurs in the values as often as in those of the
-- expression, whatever the order.
pub contains_exactly_iff :
    (exp : AttrExp) (vals : List String)
    → (contains_exactly exp vals ≡ true) ↔ ((k : String) → count k vals ≡ count k exp.value)
unfolding contains_exactly
contains_exactly_iff exp vals = (
  λ h k. plus-injective _ _ (same_map-tally vals exp.value (ground arith) k),
  λ h. ground (arith, length_of_counts vals exp.value h, tally-same_map vals exp.value h),
)
