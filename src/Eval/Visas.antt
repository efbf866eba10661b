-- ===== src/Eval/Visas.antt =====
-- The visa that a hit is turned into.
use zl_zpr_visaservice.Base.{
  ℕ, ◌≡◌, ◌<◌, ◌⊎◌, inl, inr, refl, true, List, some, ok, get_elem?, Among, arith, Bool-cases, ltb,
  if◌then◌else◌, ◌==◌, ◌||◌, ℕ-HasEq, ◌∙◌,
}
use zl_zpr_visaservice.Actor.{Actor}
use zl_zpr_visaservice.Policy.{Policy, CPolicy}
use zl_zpr_visaservice.Eval.{
  PacketDesc, Direction, forward, reverse, Hit, allow_without_route, VisaProps, eval_request,
  visa_ports, visa_of, matched_policy, visa_info_for_hit, tcp, udp,
}
use zl_zpr_visaservice.Eval.Decision.{policies_of, Supported, eval_allow_sound}

-- A port of the visa covers a port of the packet: it is that port, or the wildcard 0 for a client
-- port above 1023.
abbrev pub CoversClient : ℕ → ℕ → Type 0
CoversClient v p = (v ≡ p) ⊎ ((v ≡ 0) × (1023 < p))

abbrev pub CoversPorts : Direction → ℕ → ℕ → PacketDesc → Type 0
CoversPorts forward source dest r = CoversClient source r.source_port × (dest ≡ r.dest_port)
CoversPorts reverse source dest r = CoversClient dest r.dest_port × (source ≡ r.source_port)

-- The visa is for the flow of the packet: its ends, its protocol, the port of the service, and a
-- client port that is the packet's or the wildcard.
pub record Covers (d : Direction) (v : VisaProps) (r : PacketDesc) : Type 0 where
  pub source : v.source_addr ≡ r.source_addr
  pub dest : v.dest_addr ≡ r.dest_addr
  pub protocol : v.protocol ≡ r.protocol
  pub ports : CoversPorts d v.source_port v.dest_port r

abbrev client_port : ℕ → ℕ
client_port p = if ltb 1023 p then 0 else p

client_port_covers : (p : ℕ) → CoversClient (client_port p) p
client_port_covers p = ground arith

visa_ports-ok :
    (r : PacketDesc) (d : Direction)
    → Supported r
    → (source dest : ℕ) × (visa_ports r d ≡ ok (source, dest)) × CoversPorts d source dest r
unfolding visa_ports
visa_ports-ok r forward s = elim (Bool-cases (r.protocol == tcp || r.protocol == udp)) [
  | inl client ↦ (client_port r.source_port, r.dest_port, rw client, (client_port_covers _, refl))
  | inr icmp ↦ (r.source_port, r.dest_port, rw icmp (ground arith), (inl refl, refl))
]
visa_ports-ok r reverse s = elim (Bool-cases (r.protocol == tcp || r.protocol == udp)) [
  | inl client ↦ (r.source_port, client_port r.dest_port, rw client, (client_port_covers _, refl))
  | inr icmp ↦ (r.source_port, r.dest_port, rw icmp (ground arith), (inl refl, refl))
]

visa_of-ok :
    (r : PacketDesc) (h : Hit) (c : CPolicy)
    → Supported r
    → c.allow ≡ true
    → (v : VisaProps) × (visa_of h r c ≡ ok v) × Covers h.direction v r × (v.zpl ≡ c.zpl)
unfolding visa_of
visa_of-ok r h c s a =
    let (source, dest, e, covers) = visa_ports-ok r h.direction s in
    (
      record {
        source_addr = r.source_addr;
        dest_addr = r.dest_addr;
        protocol = r.protocol;
        source_port = source;
        dest_port = dest;
        zpl = c.zpl;
      },
      rw (a, e),
      record { source = refl; dest = refl; protocol = refl; ports = covers },
      refl,
    )

loaded_root :
    (p : Policy) (h : Hit) (r : PacketDesc) (cpols : List CPolicy) (c : CPolicy)
    → policies_of p ≡ some cpols
    → get_elem? cpols h.match_idx ≡ some c
    → visa_info_for_hit p h r ≡ visa_of h r c
unfolding visa_info_for_hit matched_policy
loaded_root p h r cpols c l g = ground arith

-- Every hit that `eval_request` reports with an allow becomes a visa, without an error or a panic:
-- one that covers the packet in the direction of the hit, and carries the ZPL of the policy that
-- the hit names, which is an allow policy.
pub hit_yields_visa :
    (now : ℕ) (p : Policy) (src dst : Actor) (r : PacketDesc) (hs : List Hit) (h : Hit)
    → eval_request now p src dst r ≡ ok (allow_without_route hs)
    → Among h hs
    → (v : VisaProps) × (visa_info_for_hit p h r ≡ ok v)
      × Covers h.direction v r
      × (cpols : List CPolicy) × (c : CPolicy) × (policies_of p ≡ some cpols)
      × (get_elem? cpols h.match_idx ≡ some c)
      × (c.allow ≡ true)
      × (v.zpl ≡ c.zpl)
hit_yields_visa now p src dst r hs h e m =
    let q = eval_allow_sound now src dst r p hs e in
    let o = (q.exact h).0 m in
    let n : o.place ≡ h.match_idx = omega (arith, o.number) in
    let found : get_elem? q.cpols h.match_idx ≡ some o.cpol = rw n at o.found in
    let (v, made, covers, zpl) = visa_of-ok r h o.cpol q.supported o.effect in
    (
      v,
      loaded_root p h r q.cpols o.cpol q.loaded found ∙ made,
      covers,
      q.cpols,
      o.cpol,
      q.loaded,
      found,
      o.effect,
      zpl,
    )
