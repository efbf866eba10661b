-- ===== src/Eval/Scopes.antt =====
-- Scopes: which packets a policy is about, and the mirror of a packet.
use zl_zpr_visaservice.Base.{
  ◌≡◌, ◌≢◌, refl, Bool, false, not, ◌&&◌, List, [], ◌∷◌, arith, any, ℕ-HasEq, ◌==◌,
}
use zl_zpr_visaservice.Policy.{CPolicy, Scope, ScopePort, port}
use zl_zpr_visaservice.Eval.{
  PacketDesc, forward, reverse, port_matches, is_one_way, scope_matches, policy_scope_matches, udp,
  ipv6_icmp,
}

-- The packet that answers `r`.
abbrev pub swap_ends : PacketDesc → PacketDesc
swap_ends r = record {
  source_addr = r.dest_addr;
  dest_addr = r.source_addr;
  protocol = r.protocol;
  source_port = r.dest_port;
  dest_port = r.source_port;
}

-- A scope that lets replies through for the protocol of `r`.
abbrev pub two_way : PacketDesc → Scope → Bool
two_way r s = not ((r.protocol == udp) && is_one_way s.flag)

port-mirror :
    (r : PacketDesc) (p : ScopePort)
    → (r.protocol == ipv6_icmp) ≡ false
    → port_matches r p reverse ≡ port_matches (swap_ends r) p forward
unfolding port_matches
port-mirror r (port n) h = ground arith
port-mirror r p h = ground arith

scope-mirror :
    (r : PacketDesc) (s : Scope)
    → (r.protocol == ipv6_icmp) ≡ false
    → scope_matches r reverse s ≡ (scope_matches (swap_ends r) forward s && two_way r s)
unfolding scope_matches
scope-mirror r s h = ground (arith, port-mirror r s.ports h)

any_cong : (p q : Scope → Bool) (ss : List Scope) → ((s : Scope) → p s ≡ q s) → any p ss ≡ any q ss
any_cong p q [] h = refl
any_cong p q (s ∷ ss) h = cc (h s, any_cong p q ss h)

-- For TCP and UDP (and whatever is not ICMPv6), a packet is in a policy's scope in reverse exactly
-- when the packet that answers it is in a scope forward that is not a one-way UDP scope.
pub reverse_scope :
    (r : PacketDesc) (c : CPolicy)
    → r.protocol ≢ ipv6_icmp
    → policy_scope_matches r c reverse
      ≡ any (λ s. scope_matches (swap_ends r) forward s && two_way r s) c.scope
unfolding policy_scope_matches
reverse_scope r c h = any_cong _ _ c.scope (λ s. scope-mirror r s (ground arith))
