-- ===== src/IpAddr.antt =====
-- `std::net::IpAddr`: an address is its family and its bits as a number.
use zl_zpr_visaservice.Base.{ℕ, Bool, true, false, ◌≡◌, ◌↔◌, arith, HasEq, nat_beq}

pub data IpAddr : Type 0 where
  v4 : ℕ → IpAddr
  v6 : ℕ → IpAddr

abbrev pub ip_beq : IpAddr → IpAddr → Bool
ip_beq (v4 a) (v4 b) = nat_beq a b
ip_beq (v6 a) (v6 b) = nat_beq a b
ip_beq _ _ = false

pub ip_beq_iff : (a b : IpAddr) → (ip_beq a b ≡ true) ↔ (a ≡ b)
ip_beq_iff (v4 a) (v4 b) = ground arith
ip_beq_iff _ _ = ground arith

instance abbrev pub IpAddr-HasEq : HasEq IpAddr
IpAddr-HasEq = record { is_eq = ip_beq; is_eq_iff = ip_beq_iff }
