-- ===== src/VisaReconciler/Writes.antt =====
-- The operations of the repository that a sweep calls, at one visa and from the point of view of another.
use zl_zpr_visaservice.Base.{
  ℕ, ℕ-HasEq, ◌==◌, ◌≡◌, refl, ap, ◌∙◌, Bool, true, false, [], ◌∷◌, none, some, arith, ltb, leb,
  lookup, lookup-insert, Map, NoDupKeys, Bool-cases, Option-cases, inl, inr, some_inj,
}
use zl_zpr_visaservice.IpAddr.{IpAddr-HasEq}
use zl_zpr_visaservice.VisaRepo.{
  VisaEntry, VisaStore, remaining_secs, if_live, live_entry, deny_entry, commit,
  record_allow_verdict, record_deny_verdict,
}
use zl_zpr_visaservice.VisaReconciler.{list_visa_metadata}

-- a write at one visa leaves the others
pub commit_other :
    (w : Bool) (j id : ℕ) (e : VisaEntry) (s : VisaStore)
    → (j == id) ≡ false
    → lookup id (commit w none j e s).1.visas ≡ lookup id s.visas
commit_other false j id e s h = refl
commit_other true j id e s h = elim (Option-cases (lookup j s.visas)) [
  | inl gone ↦ rw gone refl
  | inr (old, found) ↦ rw (found, lookup-insert j id e s.visas, h) refl
]

-- the verdicts about one visa leave the others
pub deny_other :
    (w : Bool) (now j id v : ℕ) (s : VisaStore)
    → (j == id) ≡ false
    → lookup id (record_deny_verdict w none now s j v).1.visas ≡ lookup id s.visas
unfolding record_deny_verdict
deny_other w now j id v s h = elim (Option-cases (live_entry now s j)) [
  | inl absent ↦ rw (record_deny_verdict, absent) refl
  | inr (e, live) ↦ elim (Bool-cases (leb v e.metadata.checked_vinst)) [
    | inl old ↦ rw (record_deny_verdict, live, old) refl
    | inr newer ↦ rw (record_deny_verdict, live, newer) (commit_other w j id (deny_entry v e) s h)
  ]
]

pub allow_other :
    (w : Bool) (now j id v : ℕ) (s : VisaStore)
    → (j == id) ≡ false
    → lookup id (record_allow_verdict w none now s j v).1.visas ≡ lookup id s.visas
unfolding record_allow_verdict
allow_other w now j id v s h = elim (Option-cases (live_entry now s j)) [
  | inl absent ↦ rw (record_allow_verdict, absent) refl
  | inr (e, live) ↦ elim (Bool-cases (leb v e.metadata.checked_vinst)) [
    | inl old ↦ rw (record_allow_verdict, live, old) refl
    | inr newer ↦ rw (record_allow_verdict, live, newer) (commit_other w j id _ s h)
  ]
]

pub lookup-listed :
    (now id : ℕ) (m : Map ℕ VisaEntry) (e : VisaEntry)
    → lookup id m ≡ some e
    → ltb 0 (remaining_secs now e.deadline) ≡ true
    → lookup id (list_visa_metadata now m) ≡ some e.metadata
unfolding lookup
lookup-listed now id [] e h live = absurd (cc h)
lookup-listed now id ((j, x) ∷ m) e h live = elim (Bool-cases (j == id)) [
  | inl same ↦ let is_e : x ≡ e = some_inj (rw same at h) in rw is_e (rw live (rw same refl))
  | inr other ↦ ground (arith, other, lookup-listed now id m e (rw other at h) live)
]

unlisted :
    (now id : ℕ) (m : Map ℕ VisaEntry)
    → lookup id m ≡ none
    → lookup id (list_visa_metadata now m) ≡ none
unfolding lookup
unlisted now id [] h = refl
unlisted now id ((j, x) ∷ m) h = ground (arith, h, unlisted now id m)

pub listed-NoDupKeys :
    (now : ℕ) (m : Map ℕ VisaEntry) → NoDupKeys m → NoDupKeys (list_visa_metadata now m)
listed-NoDupKeys now [] d = tt
listed-NoDupKeys now ((j, x) ∷ m) d = elim (Bool-cases (ltb 0 (remaining_secs now x.deadline))) [
  | inl live ↦ rw live (unlisted now j m d.0, listed-NoDupKeys now m d.1)
  | inr expired ↦ rw expired (listed-NoDupKeys now m d.1)
]

pub still_live_at :
    (now : ℕ) (s s1 : VisaStore) (id : ℕ) (e : VisaEntry)
    → lookup id s1.visas ≡ lookup id s.visas
    → live_entry now s id ≡ some e
    → live_entry now s1 id ≡ some e
unfolding live_entry
still_live_at now s s1 id e kept live = ap (if_live now) kept ∙ live
