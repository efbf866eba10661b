-- ===== src/NetMgr/Pool.antt =====
-- What the manager of the addresses needs of a pool, whatever its family.
use zl_zpr_visaservice.Base.{
  ℕ-HasEq, List, [], ◌∷◌, contains, filter, nat_beq_iff, arith, Bool-cases, inl, inr, refl, ℕ, ◌==◌,
  ◌≡◌, Bool, true, false, not, some, ok, if◌then◌else◌,
}
use zl_zpr_visaservice.IpAddr.{IpAddr, IpAddr-HasEq}
use zl_zpr_visaservice.NetMgr.{AddrAllocator, Addrs, mark}

-- the indices in use after one is marked, and after one is taken out
pub contains-mark :
    (h j : ℕ) (a : Addrs)
    → contains (mark h a).1.used j ≡ (if h == j then true else contains a.used j)
contains-mark h j a = elim (Bool-cases (contains a.used h)) [
  | inl t ↦ rw t (elim (Bool-cases (h == j)) [
    | inl same ↦ rw same (rw (← (nat_beq_iff h j).0 same) t)
    | inr other ↦ rw other refl
  ])
  | inr f ↦ rw f (ground arith)
]

pub contains-unmark :
    (h j : ℕ) (used : List ℕ)
    → contains (filter (λ i. not (i == h)) used) j ≡ (if h == j then false else contains used j)
contains-unmark h j [] = ground arith
contains-unmark h j (x ∷ xs) = ground (arith, contains-unmark h j xs)

-- what a call that answers with an address has done, where `in_use` tells the addresses handed out
pub record Allocated {S : Type 0} (alloc : AddrAllocator S) (in_use : S → IpAddr → Bool) (s s' : S)
    (a : IpAddr) : Type 0 where
  pub inside : alloc.holds s a ≡ true
  pub free : in_use s a ≡ false
  pub now_used : in_use s' a ≡ true

-- what a call that changes the use of one address has done
pub record Changed {S : Type 0} (alloc : AddrAllocator S) (in_use : S → IpAddr → Bool) (s s' : S)
    (a : IpAddr) (use_it : Bool) : Type 0 where
  pub inside : alloc.holds s a ≡ true
  pub before : in_use s a ≡ not use_it
  pub after : (b : IpAddr) → in_use s' b ≡ (if a == b then use_it else in_use s b)
  pub same_net : (b : IpAddr) → alloc.holds s' b ≡ alloc.holds s b

pub record IsPool {S : Type 0} (alloc : AddrAllocator S) (Good : S → Type 0)
    (in_use : S → IpAddr → Bool) : Type 0 where
  pub in_use_inside : (s : S) (a : IpAddr) → in_use s a ≡ true → alloc.holds s a ≡ true
  pub allocate_keeps : (s : S) → Good s → Good (alloc.allocate s).1
  pub allocate_same_net :
      (s : S) (b : IpAddr) → Good s → alloc.holds (alloc.allocate s).1 b ≡ alloc.holds s b
  pub allocate_frees_none :
      (s : S) (b : IpAddr) → Good s → in_use s b ≡ true → in_use (alloc.allocate s).1 b ≡ true
  pub allocated :
      (s s' : S) (a : IpAddr)
      → Good s
      → alloc.allocate s ≡ (some a, s')
      → Allocated alloc in_use s s' a
  pub taken :
      (s s' : S) (a : IpAddr)
      → Good s
      → alloc.take s a ≡ ok s'
      → Good s' × Changed alloc in_use s s' a true
  pub released :
      (s s' : S) (a : IpAddr)
      → Good s
      → alloc.release s a ≡ ok s'
      → Good s' × Changed alloc in_use s s' a false
  pub release_ok :
      (s : S) (a : IpAddr) → Good s → in_use s a ≡ true → (s' : S) × (alloc.release s a ≡ ok s')
