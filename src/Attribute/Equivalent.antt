-- ===== src/Attribute/Equivalent.antt =====
-- libeval/src/attribute.rs: `attributes_equivalent`, which compares lists of attributes by their keys
-- and values, whatever their order and their expiry.
use Prim.Native.Nat.{Ordering}
use Prim.Native.String.{compare}
use zl_zpr_visaservice.Base.{
  String, String-HasEq, ◌==◌, ◌≡◌, refl, Bool, true, false, ◌&&◌, List, [], ◌∷◌, map, if◌then◌else◌,
  beq_refl,
}
use zl_zpr_visaservice.Attribute.{Attribute}

abbrev pub Entry : Type 0
Entry = String × List String

-- `Ord` of lists and pairs: by the first difference
abbrev pub cmp_texts : List String → List String → Ordering
cmp_texts [] [] = Ordering.eq
cmp_texts [] (w ∷ ws) = Ordering.lt
cmp_texts (v ∷ vs) [] = Ordering.gt
cmp_texts (v ∷ vs) (w ∷ ws) =
    let rest = cmp_texts vs ws in
    elim (compare v w) [
      | Ordering.lt ↦ Ordering.lt
      | Ordering.eq ↦ rest
      | Ordering.gt ↦ Ordering.gt
    ]

abbrev pub cmp_entries : Entry → Entry → Ordering
cmp_entries (k, vs) (l, ws) = elim (compare k l) [
  | Ordering.lt ↦ Ordering.lt
  | Ordering.eq ↦ cmp_texts vs ws
  | Ordering.gt ↦ Ordering.gt
]

abbrev pub is_gt : Ordering → Bool
is_gt o = elim o [ Ordering.gt ↦ true | _ ↦ false ]

abbrev pub sort_in : Entry → List Entry → List Entry
sort_in x [] = x ∷ []
sort_in x (y ∷ ys) = if is_gt (cmp_entries x y) then y ∷ sort_in x ys else x ∷ y ∷ ys

abbrev pub sort_entries : List Entry → List Entry
sort_entries [] = []
sort_entries (x ∷ xs) = sort_in x (sort_entries xs)

unfoldable pub normalize : List Attribute → List Entry
normalize attrs = sort_entries (map (λ at. (at.key, at.value)) attrs)

abbrev pub same_texts : List String → List String → Bool
same_texts [] [] = true
same_texts (v ∷ vs) (w ∷ ws) = v == w && same_texts vs ws
same_texts _ _ = false

abbrev pub same_entries : List Entry → List Entry → Bool
same_entries [] [] = true
same_entries (x ∷ xs) (y ∷ ys) = x.0 == y.0 && same_texts x.1 y.1 && same_entries xs ys
same_entries _ _ = false

unfoldable pub attributes_equivalent : List Attribute → List Attribute → Bool
unfolding normalize
attributes_equivalent a b = same_entries (normalize a) (normalize b)

same_texts_refl : (vs : List String) → same_texts vs vs ≡ true
same_texts_refl [] = refl
same_texts_refl (v ∷ vs) = rw (beq_refl v) (same_texts_refl vs)

same_entries_refl : (xs : List Entry) → same_entries xs xs ≡ true
same_entries_refl [] = refl
same_entries_refl (x ∷ xs) = rw (beq_refl x.0, same_texts_refl x.1) (same_entries_refl xs)

pub attributes_equivalent_refl : (attrs : List Attribute) → attributes_equivalent attrs attrs ≡ true
unfolding attributes_equivalent
attributes_equivalent_refl attrs = same_entries_refl (normalize attrs)
