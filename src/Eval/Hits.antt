-- ===== src/Eval/Hits.antt =====
-- What `match_policies` collects: the hits of one pass, in policy order.
use zl_zpr_visaservice.Base.{
  none, ℕ, zero, suc, ◌+◌, ◌≡◌, ◌≤◌, refl, Bool, true, List, [], ◌∷◌, some, get_elem?, Among,
  Among-tail, Among-cons, arith, some_inj, Bool-cases, Option-cases, inl, inr,
}
use native.Mathlib.Nat.{zero-add}
use zl_zpr_visaservice.Actor.{Actor}
use zl_zpr_visaservice.Policy.{CPolicy}
use zl_zpr_visaservice.Eval.{
  PacketDesc, Direction, Hit, hit_direction, same_bool, match_from, match_policies,
}

-- The numbers of the hits rise strictly, from `n` on.
abbrev pub Rising : ℕ → List Hit → Type 0
Rising n [] = Unit
Rising n (h ∷ hs) = (n ≤ h.match_idx) × Rising (suc h.match_idx) hs

module _ (now : ℕ) (allows : Bool) (src dst : Actor) (r : PacketDesc) where
  -- `h` is the hit of policy number `k`, counted from `i`, in a pass over `cpols`
  pub record HitOf (i : ℕ) (cpols : List CPolicy) (h : Hit) : Type 0 where
    pub place : ℕ
    pub cpol : CPolicy
    pub found : get_elem? cpols place ≡ some cpol
    pub number : h.match_idx ≡ i + place
    pub effect : same_bool allows cpol.allow ≡ true
    pub way : hit_direction now allows src dst r cpol ≡ some h.direction
    pub signal : h.signal ≡ cpol.signal
    pub route : h.route ≡ none

  HitOf-later :
      (i : ℕ) (c : CPolicy) (cpols : List CPolicy) (h : Hit)
      → HitOf (suc i) cpols h
      → HitOf i (c ∷ cpols) h
  HitOf-later i c cpols h o = record {
    place = suc o.place;
    cpol = o.cpol;
    found = o.found;
    number = omega (arith, o.number);
    effect = o.effect;
    way = o.way;
    signal = o.signal;
    route = o.route;
  }

  match_from_sound :
      (i : ℕ) (cpols : List CPolicy) (h : Hit)
      → Among h (match_from i now allows src dst r cpols)
      → HitOf i cpols h
  unfolding match_from
  match_from_sound i [] h m = absurd (ground (arith, m.1))
  match_from_sound i (c ∷ cs) h m = elim (Bool-cases (same_bool allows c.allow)) [
    | inr no_effect ↦
        HitOf-later i c cs h (match_from_sound (suc i) cs h (rw (no_effect, match_from) at m))
    | inl effect ↦ elim (Option-cases (hit_direction now allows src dst r c)) [
      | inl miss ↦ HitOf-later i c cs h (match_from_sound (suc i) cs h (rw (effect, miss) at m))
      | inr (d, hit) ↦
          elim (Among-cons h _ (match_from (suc i) now allows src dst r cs)
            (rw (effect, hit) at m)) [
              | inl same ↦ record {
                place = 0;
                cpol = c;
                found = refl;
                number = ground arith;
                effect = effect;
                way = ground arith;
                signal = ground arith;
                route = ground arith;
              }
              | inr later ↦ HitOf-later i c cs h (match_from_sound (suc i) cs h later)
            ]
    ]
  ]

  match_from-tail :
      (i : ℕ) (c : CPolicy) (cs : List CPolicy) (h : Hit)
      → Among h (match_from (suc i) now allows src dst r cs)
      → Among h (match_from i now allows src dst r (c ∷ cs))
  unfolding match_from
  match_from-tail i c cs h m = elim (Bool-cases (same_bool allows c.allow)) [
    | inr no_effect ↦ rw (no_effect, match_from) m
    | inl effect ↦ elim (Option-cases (hit_direction now allows src dst r c)) [
      | inl miss ↦ rw (effect, miss) m
      | inr (d, hit) ↦ rw (effect, hit) (Among-tail h _ _ m)
    ]
  ]

  match_from_complete :
      (i k : ℕ) (cpols : List CPolicy) (c : CPolicy) (d : Direction)
      → get_elem? cpols k ≡ some c
      → same_bool allows c.allow ≡ true
      → hit_direction now allows src dst r c ≡ some d
      → Among
          (record { match_idx = i + k; direction = d; signal = c.signal; route = none })
          (match_from i now allows src dst r cpols)
  unfolding match_from
  match_from_complete i k [] c d g e h = absurd (ground arith)
  match_from_complete i zero (x ∷ xs) c d g e h = rw (some_inj g, e, h) (0, ground arith)
  match_from_complete i (suc k) (x ∷ xs) c d g e h =
      let shift : suc i + k ≡ i + suc k = omega arith in
      match_from-tail i x xs _ (rw shift at (match_from_complete (suc i) k xs c d g e h))

  -- A hit of the pass over all policies is the hit of some policy of the list.
  pub match_policies_sound :
      (cpols : List CPolicy) (h : Hit)
      → Among h (match_policies now allows src dst r cpols)
      → HitOf 0 cpols h
  unfolding match_policies
  match_policies_sound = match_from_sound 0

  -- Every policy of the list that hits is among the hits, under its own number.
  pub match_policies_complete :
      (k : ℕ) (cpols : List CPolicy) (c : CPolicy) (d : Direction)
      → get_elem? cpols k ≡ some c
      → same_bool allows c.allow ≡ true
      → hit_direction now allows src dst r c ≡ some d
      → Among
          (record { match_idx = k; direction = d; signal = c.signal; route = none })
          (match_policies now allows src dst r cpols)
  unfolding match_policies
  match_policies_complete k cpols c d g e h =
      rw zero-add at (match_from_complete 0 k cpols c d g e h)

  match_from-Rising :
      (i n : ℕ) (cpols : List CPolicy) → n ≤ i → Rising n (match_from i now allows src dst r cpols)
  unfolding match_from
  match_from-Rising i n [] le = tt
  match_from-Rising i n (c ∷ cs) le = elim (Bool-cases (same_bool allows c.allow)) [
    | inr no_effect ↦ rw (no_effect, match_from) (match_from-Rising (suc i) n cs (omega arith))
    | inl effect ↦ elim (Option-cases (hit_direction now allows src dst r c)) [
      | inl miss ↦ rw (effect, miss) (match_from-Rising (suc i) n cs (omega arith))
      | inr (d, hit) ↦ rw (effect, hit) (le, match_from-Rising (suc i) (suc i) cs (omega arith))
    ]
  ]

  -- The hits stand in policy order, and no policy hits twice.
  pub match_policies-Rising :
      (cpols : List CPolicy) → Rising 0 (match_policies now allows src dst r cpols)
  unfolding match_policies
  match_policies-Rising cpols = match_from-Rising 0 0 cpols (omega arith)

  -- What is the hit of some policy of the list is among the hits.
  pub HitOf-Among :
      (cpols : List CPolicy) (h : Hit)
      → HitOf 0 cpols h
      → Among h (match_policies now allows src dst r cpols)
  HitOf-Among cpols h o =
      let same : record {
        match_idx = o.place;
        direction = h.direction;
        signal = o.cpol.signal;
        route = none;
      }
          ≡ h =
        ground (arith, o.number, o.signal) in
      rw same at (match_policies_complete o.place cpols o.cpol h.direction o.found o.effect o.way)
