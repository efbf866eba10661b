-- ===== src/DenyLog/Window.antt =====
-- The log against its abstract view: the denials of distinct keys, newest first, cut at the size.
use zl_zpr_visaservice.Base.{
  ℕ, zero, suc, ◌≤◌, String, String-HasEq, ℕ-HasEq, ◌==◌, ◌≡◌, refl, sym, ap, ◌∙◌, Bool, true, not,
  ◌&&◌, List, [], ◌∷◌, ◌++◌, Option, none, some, length, filter, take, all, if◌then◌else◌, ltb,
  arith, Bool-cases, Option-cases, inl, inr, eq_iff, length-append, all_mono,
}
use zl_zpr_visaservice.IpAddr.{IpAddr-HasEq, ip_beq_iff}
use zl_zpr_visaservice.DenyLog.{
  VsapiFiveTuple, DenyEntry, deny_log_size, position, remove_at, is_same, trim, rev,
}

-- two entries with one key
abbrev pub same_deny : DenyEntry → DenyEntry → Bool
same_deny e f =
    (e.source_addr == f.source_addr)
    && (e.dest_addr == f.dest_addr)
    && (e.protocol == f.protocol)
    && (e.dest_port == f.dest_port)
    && (e.deny_code == f.deny_code)

abbrev pub Distinct : List DenyEntry → Type 0
Distinct [] = Unit
Distinct (x ∷ xs) = (all (λ y. not (same_deny x y)) xs ≡ true) × Distinct xs

-- At most as many entries as the window has room for, and no key twice.
pub record IsValid (entries : List DenyEntry) : Type 0 where
  pub bounded : length entries ≤ deny_log_size
  pub distinct : Distinct entries

pub same_deny_trans :
    (ft : VsapiFiveTuple) (name : String) (x y : DenyEntry)
    → is_same ft name x ≡ true
    → is_same ft name y ≡ true
    → same_deny x y ≡ true
same_deny_trans ft name x y hx hy = ground (
  arith,
  ip_beq_iff x.source_addr y.source_addr,
  ip_beq_iff x.dest_addr y.dest_addr,
  ip_beq_iff x.source_addr ft.source_addr,
  ip_beq_iff y.source_addr ft.source_addr,
  ip_beq_iff x.dest_addr ft.dest_addr,
  ip_beq_iff y.dest_addr ft.dest_addr,
  eq_iff x.deny_code name,
  eq_iff y.deny_code name,
  eq_iff x.deny_code y.deny_code,
)

-- where nothing matches, the filter keeps all
pub filter_keeps :
    (p : DenyEntry → Bool) (xs : List DenyEntry)
    → all (λ y. not (p y)) xs ≡ true
    → filter (λ y. not (p y)) xs ≡ xs
filter_keeps p [] h = refl
filter_keeps p (x ∷ xs) h = ground (arith, filter_keeps p xs)

pub position-none :
    (p : DenyEntry → Bool) (xs : List DenyEntry)
    → position p xs ≡ none
    → all (λ y. not (p y)) xs ≡ true
unfolding position
position-none p [] h = refl
position-none p (x ∷ xs) h = ground (arith, position-none p xs)

pub filter-append :
    (p : DenyEntry → Bool) (xs ys : List DenyEntry)
    → filter p (xs ++ ys) ≡ filter p xs ++ filter p ys
filter-append p [] ys = refl
filter-append p (x ∷ xs) ys = ground (arith, filter-append p xs ys)

append_nil : (xs : List DenyEntry) → xs ++ [] ≡ xs
append_nil [] = refl
append_nil (x ∷ xs) = ap (◌∷◌ x) (append_nil xs)

filter-last :
    (p : DenyEntry → Bool) (x : DenyEntry) (xs : List DenyEntry)
    → rev xs ++ filter p (x ∷ []) ≡ rev (if p x then x ∷ xs else xs)
filter-last p x xs = elim (Bool-cases (p x)) [
  | inl keep ↦ rw keep refl
  | inr skip ↦ rw skip (append_nil (rev xs))
]

pub filter-rev :
    (p : DenyEntry → Bool) (xs : List DenyEntry) → filter p (rev xs) ≡ rev (filter p xs)
filter-rev p [] = refl
filter-rev p (x ∷ xs) =
    filter-append p (rev xs) (x ∷ [])
    ∙ ap (λ l. l ++ filter p (x ∷ [])) (filter-rev p xs)
    ∙ filter-last p x (filter p xs)

pub rev-snoc : (xs : List DenyEntry) (x : DenyEntry) → rev (xs ++ (x ∷ [])) ≡ x ∷ rev xs
rev-snoc [] x = refl
rev-snoc (y ∷ ys) x = ap (λ l. l ++ (y ∷ [])) (rev-snoc ys x)

pub length-rev : (xs : List DenyEntry) → length (rev xs) ≡ length xs
length-rev [] = refl
length-rev (x ∷ xs) = omega (arith, length-append (rev xs) (x ∷ []), length-rev xs)

abbrev nothing : List DenyEntry
nothing = []

take-nil : (n : ℕ) → take n [] ≡ nothing
take-nil zero = refl
take-nil (suc n) = refl

pub take-all : (n : ℕ) (xs : List DenyEntry) → length xs ≤ n → take n xs ≡ xs
take-all n [] h = take-nil n
take-all zero (x ∷ xs) h = absurd (omega arith)
take-all (suc n) (x ∷ xs) h = ap (◌∷◌ x) (take-all n xs (omega arith))

take-append : (n : ℕ) (xs ys : List DenyEntry) → n ≤ length xs → take n (xs ++ ys) ≡ take n xs
take-append zero xs ys h = refl
take-append (suc n) [] ys h = absurd (omega arith)
take-append (suc n) (x ∷ xs) ys h = ap (◌∷◌ x) (take-append n xs ys (omega arith))

-- Dropping the oldest entries keeps the newest.
pub rev-trim : (n : ℕ) (xs : List DenyEntry) → rev (trim n xs) ≡ take n (rev xs)
unfolding trim
rev-trim n [] = sym (take-nil n)
rev-trim n (x ∷ xs) = elim (Bool-cases (ltb n (length (x ∷ xs)))) [
  | inl long ↦
      rw long (
        rev-trim n xs ∙ sym (take-append n (rev xs) (x ∷ []) (ground (arith, length-rev xs, long))))
  | inr fits ↦ rw fits (sym (take-all n (rev (x ∷ xs)) (ground (arith, length-rev (x ∷ xs), fits))))
]

abbrev pub find_entry : (DenyEntry → Bool) → List DenyEntry → Option DenyEntry
find_entry p [] = none
find_entry p (x ∷ xs) = if p x then some x else find_entry p xs

pub position-find :
    (p : DenyEntry → Bool) (xs : List DenyEntry) → position p xs ≡ none → find_entry p xs ≡ none
unfolding position
position-find p [] h = refl
position-find p (x ∷ xs) h = ground (arith, position-find p xs)

-- The entry at a position, and the others: those that do not match.
pub record Found (p : DenyEntry → Bool) (i : ℕ) (xs : List DenyEntry) : Type 0 where
  pub entry : DenyEntry
  pub others : List DenyEntry
  pub removed : remove_at i xs ≡ some (entry, others)
  pub matched : p entry ≡ true
  pub first : find_entry p xs ≡ some entry
  pub unmatched : others ≡ filter (λ y. not (p y)) xs
  pub shorter : length xs ≡ suc (length others)

pub position-Found :
    (p : DenyEntry → Bool) (i : ℕ) (xs : List DenyEntry)
    → ((x y : DenyEntry) → p x ≡ true → p y ≡ true → same_deny x y ≡ true)
    → Distinct xs
    → position p xs ≡ some i
    → Found p i xs
unfolding position remove_at
position-Found p i [] same d h = absurd (cc h)
position-Found p i (x ∷ xs) same d h = elim (Bool-cases (p x)) [
  | inl hit ↦
      let zeroth : 0 ≡ i = ground (arith, hit, h) in
      let rest : filter (λ y. not (p y)) xs ≡ xs = filter_keeps p xs (
        all_mono (λ y. not (same_deny x y)) (λ y. not (p y)) xs
          (λ y n. ground (arith, same x y, hit, n)) d.0) in
      rw (← zeroth) (record {
        entry = x;
        others = xs;
        removed = refl;
        matched = hit;
        first = rw hit refl;
        unmatched = rw hit (sym rest);
        shorter = refl;
      })
  | inr miss ↦ elim (Option-cases (position p xs)) [
    | inl absent ↦ absurd (ground (arith, miss, absent, h))
    | inr (j, later) ↦
        let next : suc j ≡ i = ground (arith, miss, later, h) in
        let f = position-Found p j xs same d.1 later in
        rw (← next) (record {
          entry = f.entry;
          others = x ∷ f.others;
          removed = rw f.removed refl;
          matched = f.matched;
          first = rw miss f.first;
          unmatched = rw miss (ap (◌∷◌ x) f.unmatched);
          shorter = ap suc f.shorter;
        })
  ]
]
