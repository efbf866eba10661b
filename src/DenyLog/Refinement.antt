-- ===== src/DenyLog/Refinement.antt =====
-- `record_at_ms` keeps a list of distinct denials, newest first, cut at the size of the window.
use zl_zpr_visaservice.Base.{
  ℕ, suc, ◌≤◌, ◌<◌, String, String-HasEq, ℕ-HasEq, ◌≡◌, refl, sym, ap, ◌∙◌, Bool, true, not, List,
  [], ◌∷◌, ◌++◌, none, some, length, filter, take, all, ltb, arith, Bool-cases, Option-cases, inl,
  inr, eq_iff, length-append, head?, all_mono,
}
use zl_zpr_visaservice.IpAddr.{IpAddr-HasEq, ip_beq_iff}
use zl_zpr_visaservice.DenyLog.{
  DenyCode, VsapiFiveTuple, DenyEntry, deny_log_size, deny_code_name, position, is_same, trim,
  repeated, first_deny, record_at_ms, rev, is_since, recent,
}
use zl_zpr_visaservice.DenyLog.Window.{
  same_deny, Distinct, IsValid, same_deny_trans, position-none, filter-rev, filter_keeps, rev-snoc,
  length-rev, take-all, rev-trim, find_entry, position-find, Found, position-Found,
}

-- The entry that a denial leaves: the one with its key counted once more, or a first one.
abbrev pub newest : VsapiFiveTuple → DenyCode → ℕ → List DenyEntry → DenyEntry
newest ft code now entries = elim (find_entry (is_same ft (deny_code_name code)) entries) [
  | none ↦ first_deny ft (deny_code_name code) now
  | some e ↦ repeated now e
]

-- The view after a denial: its entry, then the others in their order, cut at the size.
abbrev pub noted : VsapiFiveTuple → DenyCode → DenyEntry → List DenyEntry → List DenyEntry
noted ft code entry view =
    take deny_log_size (entry ∷ filter (λ e. not (is_same ft (deny_code_name code) e)) view)

all-filter :
    (p q : DenyEntry → Bool) (xs : List DenyEntry) → all p xs ≡ true → all p (filter q xs) ≡ true
all-filter p q [] h = refl
all-filter p q (x ∷ xs) h = ground (arith, all-filter p q xs)

all-snoc :
    (p : DenyEntry → Bool) (xs : List DenyEntry) (z : DenyEntry)
    → all p xs ≡ true
    → p z ≡ true
    → all p (xs ++ (z ∷ [])) ≡ true
all-snoc p [] z h t = ground (arith, t)
all-snoc p (x ∷ xs) z h t = ground (arith, all-snoc p xs z)

Distinct-filter :
    (q : DenyEntry → Bool) (xs : List DenyEntry) → Distinct xs → Distinct (filter q xs)
Distinct-filter q [] d = tt
Distinct-filter q (x ∷ xs) d = elim (Bool-cases (q x)) [
  | inl keep ↦ rw keep (all-filter (λ y. not (same_deny x y)) q xs d.0, Distinct-filter q xs d.1)
  | inr skip ↦ rw skip (Distinct-filter q xs d.1)
]

Distinct-snoc :
    (xs : List DenyEntry) (z : DenyEntry)
    → Distinct xs
    → all (λ y. not (same_deny y z)) xs ≡ true
    → Distinct (xs ++ (z ∷ []))
Distinct-snoc [] z d h = (refl, tt)
Distinct-snoc (x ∷ xs) z d h = (
  all-snoc (λ y. not (same_deny x y)) xs z d.0 (ground (arith, h)),
  Distinct-snoc xs z d.1 (ground (arith, h)),
)

trim-Distinct : (n : ℕ) (xs : List DenyEntry) → Distinct xs → Distinct (trim n xs)
unfolding trim
trim-Distinct n [] d = tt
trim-Distinct n (x ∷ xs) d = elim (Bool-cases (ltb n (length (x ∷ xs)))) [
  | inl long ↦ rw long (trim-Distinct n xs d.1)
  | inr fits ↦ rw fits d
]

length-trim : (n : ℕ) (xs : List DenyEntry) → length (trim n xs) ≤ n
unfolding trim
length-trim n [] = omega arith
length-trim n (x ∷ xs) = ground (arith, length-trim n xs)

carried :
    (ft : VsapiFiveTuple) (name : String) (y z : DenyEntry)
    → is_same ft name z ≡ true
    → same_deny y z ≡ true
    → is_same ft name y ≡ true
carried ft name y z hz hy = ground (
  arith,
  ip_beq_iff y.source_addr z.source_addr,
  ip_beq_iff y.dest_addr z.dest_addr,
  ip_beq_iff z.source_addr ft.source_addr,
  ip_beq_iff z.dest_addr ft.dest_addr,
  ip_beq_iff y.source_addr ft.source_addr,
  ip_beq_iff y.dest_addr ft.dest_addr,
  eq_iff y.deny_code name,
  eq_iff z.deny_code name,
  eq_iff y.deny_code z.deny_code,
)

-- An entry with the denial's key differs from those without it.
apart :
    (ft : VsapiFiveTuple) (name : String) (z : DenyEntry) (xs : List DenyEntry)
    → is_same ft name z ≡ true
    → all (λ y. not (is_same ft name y)) xs ≡ true
    → all (λ y. not (same_deny y z)) xs ≡ true
apart ft name z xs h = all_mono _ _ xs (λ y n. ground (arith, carried ft name y z h, n))

first-same :
    (ft : VsapiFiveTuple) (name : String) (now : ℕ)
    → is_same ft name (first_deny ft name now) ≡ true
first-same ft name now = ground (
  arith,
  ip_beq_iff ft.source_addr ft.source_addr,
  ip_beq_iff ft.dest_addr ft.dest_addr,
  eq_iff name name,
)

kept_miss :
    (p : DenyEntry → Bool) (xs : List DenyEntry)
    → all (λ y. not (p y)) (filter (λ y. not (p y)) xs) ≡ true
kept_miss p [] = refl
kept_miss p (x ∷ xs) = ground (arith, kept_miss p xs)

-- a denial whose key is in the log
repeats :
    (ft : VsapiFiveTuple) (code : DenyCode) (now i : ℕ) (entries : List DenyEntry)
    → IsValid entries
    → (f : Found (is_same ft (deny_code_name code)) i entries)
    → IsValid (f.others ++ (repeated now f.entry ∷ []))
      × (rev (f.others ++ (repeated now f.entry ∷ []))
          ≡ noted ft code (repeated now f.entry) (rev entries))
repeats ft code now i entries v f =
    let q = λ (y : DenyEntry). not (is_same ft (deny_code_name code) y) in
    let z = repeated now f.entry in
    let others : f.others ≡ filter q entries = f.unmatched in
    let room : length (filter q entries) < deny_log_size =
      omega (arith, v.bounded, f.shorter, ap (λ l. length l) others) in
    (
      record {
        bounded = omega (arith, length-append f.others (z ∷ []), v.bounded, f.shorter);
        distinct = Distinct-snoc f.others z (rw others (Distinct-filter q entries v.distinct)) (
            apart ft (deny_code_name code) z f.others f.matched
              (rw others (kept_miss (is_same ft (deny_code_name code)) entries)));
      },
      rev-snoc f.others z
          ∙ rw (others, filter-rev q entries)
              (sym (
                take-all deny_log_size (z ∷ rev (filter q entries))
                  (omega (arith, length-rev (filter q entries), room)))),
    )

-- a denial with a new key
adds :
    (ft : VsapiFiveTuple) (code : DenyCode) (now : ℕ) (entries : List DenyEntry)
    → IsValid entries
    → all (λ y. not (is_same ft (deny_code_name code) y)) entries ≡ true
    → IsValid (trim deny_log_size (entries ++ (first_deny ft (deny_code_name code) now ∷ [])))
      × (rev (trim deny_log_size (entries ++ (first_deny ft (deny_code_name code) now ∷ [])))
          ≡ noted ft code (first_deny ft (deny_code_name code) now) (rev entries))
adds ft code now entries v absent =
    let q = λ (y : DenyEntry). not (is_same ft (deny_code_name code) y) in
    let z = first_deny ft (deny_code_name code) now in
    let grown = entries ++ (z ∷ []) in
    (
      record {
        bounded = length-trim deny_log_size grown;
        distinct = trim-Distinct deny_log_size grown (
            Distinct-snoc entries z v.distinct (
              apart ft (deny_code_name code) z entries (first-same ft (deny_code_name code) now)
                absent));
      },
      rev-trim deny_log_size grown
          ∙ ap (take deny_log_size) (
              rev-snoc entries z
              ∙ ap (◌∷◌ z) (
                  sym (
                    filter-rev q entries
                    ∙ ap rev (filter_keeps (is_same ft (deny_code_name code)) entries absent)))),
    )

find_entry-hit :
    (p : DenyEntry → Bool) (xs : List DenyEntry) (e : DenyEntry)
    → find_entry p xs ≡ some e
    → p e ≡ true
find_entry-hit p [] e h = absurd (cc h)
find_entry-hit p (x ∷ xs) e h = ground (arith, h, find_entry-hit p xs e)

newest-same :
    (ft : VsapiFiveTuple) (code : DenyCode) (now : ℕ) (entries : List DenyEntry)
    → (is_same ft (deny_code_name code) (newest ft code now entries) ≡ true)
      × ((newest ft code now entries).last_deny_ms ≡ now)
newest-same ft code now entries =
    elim (Option-cases (find_entry (is_same ft (deny_code_name code)) entries)) [
      | inl absent ↦ rw (absent, newest) (first-same ft (deny_code_name code) now, refl)
      | inr (e, found) ↦
          rw (found, newest)
            (find_entry-hit (is_same ft (deny_code_name code)) entries e found, refl)
    ]

-- A valid log is valid again after a denial, which is recorded without a panic; read newest first,
-- the log is the denial's entry, then the others in their order, cut at the size of the window.
pub record_at_ms_lem :
    (ft : VsapiFiveTuple) (code : DenyCode) (now : ℕ) (entries : List DenyEntry)
    → IsValid entries
    → (entries' : List DenyEntry) × (record_at_ms ft code now entries ≡ some entries')
      × IsValid entries'
      × (rev entries' ≡ noted ft code (newest ft code now entries) (rev entries))
unfolding record_at_ms
record_at_ms_lem ft code now entries v =
    let p = is_same ft (deny_code_name code) in
    elim (Option-cases (position p entries)) [
      | inl absent ↦
          let (valid, view) = adds ft code now entries v (position-none p entries absent) in
          (
            trim deny_log_size (entries ++ (first_deny ft (deny_code_name code) now ∷ [])),
            rw (absent, record_at_ms) refl,
            valid,
            rw (position-find p entries absent, newest) view,
          )
      | inr (i, at_i) ↦
          let f =
            position-Found p i entries (same_deny_trans ft (deny_code_name code)) v.distinct at_i in
          let (valid, view) = repeats ft code now i entries v f in
          (
            f.others ++ (repeated now f.entry ∷ []),
            rw (at_i, record_at_ms, f.removed) refl,
            valid,
            rw (f.first, newest) view,
          )
    ]

-- After a denial has been recorded in a valid log, a query that goes back no further than the denial
-- and has room for an answer has the denial's entry as its first answer, with the denial's key and time.
pub recent-record_at_ms :
    (ft : VsapiFiveTuple) (code : DenyCode) (now since limit : ℕ)
    (entries entries' : List DenyEntry)
    → IsValid entries
    → since ≤ now
    → record_at_ms ft code now entries ≡ some entries'
    → (e : DenyEntry) × (head? (recent (some since) (some (suc limit)) entries') ≡ some e)
      × (is_same ft (deny_code_name code) e ≡ true)
      × (e.last_deny_ms ≡ now)
unfolding recent
recent-record_at_ms ft code now since limit entries entries' v le h =
    let (found, r, valid, view) = record_at_ms_lem ft code now entries v in
    let same : found ≡ entries' = ground (arith, r, h) in
    let (key, time) = newest-same ft code now entries in
    let shown : is_since (some since) (newest ft code now entries) ≡ true =
      ground (arith, time, le) in
    (newest ft code now entries, rw (← same, view, shown) refl, key, time)
