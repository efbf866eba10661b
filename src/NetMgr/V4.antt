-- ===== src/NetMgr/V4.antt =====
-- `Addr4Allocator` of vs/src/net_mgr.rs.
use zl_zpr_visaservice.Base.{
  ℕ, zero, suc, ◌-◌, ◌%◌, ◌^◌, ℕ-HasEq, Bool, true, false, not, [], Option, none, some, Result, err,
  if◌then◌else◌, ltb,
}
use zl_zpr_visaservice.IpAddr.{IpAddr, v4, v6}
use zl_zpr_visaservice.NetMgr.{
  Net, NetError, outside_net, unallocated, already_allocated, wrong_family, network_address, Addrs,
  mark, unmark, AddrAllocator,
}
use zl_zpr_visaservice.NetMgr.V6.{unless}

-- `IPV4_POINT_TO_POINT_PREFIX_LEN`
abbrev pub point_to_point : ℕ
point_to_point = 31

abbrev pub new_v4 : Net → Addrs
new_v4 net = record { net = net; rng = 0; used = [] }

unfoldable pub holds_v4 : Addrs → IpAddr → Bool
holds_v4 a (v4 addr) = a.net.holds addr
holds_v4 a (v6 addr) = false

-- `n.checked_sub(1)`
abbrev checked_pred : ℕ → Option ℕ
checked_pred zero = none
checked_pred (suc n) = some n

-- the host index; none of the network address of a net whose hosts leave it out
unfoldable pub index_v4 : Addrs → ℕ → Option ℕ
index_v4 a addr =
    if ltb a.net.prefix_len point_to_point
    then checked_pred (addr - a.net.network)
    else some (addr - a.net.network)

unfoldable pub release_v4 : Addrs → IpAddr → Result NetError Addrs
release_v4 a (v4 addr) =
    if not (a.net.holds addr) then err outside_net else elim (index_v4 a addr) [
      | none ↦ err network_address
      | some h ↦ unless unallocated (unmark h a)
    ]
release_v4 a (v6 addr) = err wrong_family

unfoldable pub take_v4 : Addrs → IpAddr → Result NetError Addrs
take_v4 a (v4 addr) = if not (a.net.holds addr) then err outside_net else elim (index_v4 a addr) [
  | none ↦ err network_address
  | some h ↦ unless already_allocated (mark h a)
]
take_v4 a (v6 addr) = err wrong_family

-- after one draw, new or not: its host if it has one, or what the other draws give
abbrev pub next_v4 : Bool → Option ℕ → Addrs → Option IpAddr × Addrs → Option IpAddr × Addrs
next_v4 false host a rest = rest
next_v4 true none a rest = rest
next_v4 true (some ip) a rest = (some (v4 ip), a)

module _ (draw : ℕ → ℕ) where
  -- up to so many draws, each masked to the host bits; the source's mask is (1u32 << (32 - prefix_len)) - 1,
  -- and a prefix of length 0, where that shift overflows, is outside the model
  unfoldable pub draws_v4 : ℕ → Addrs → Option IpAddr × Addrs
  draws_v4 zero a = (none, a)
  draws_v4 (suc n) a =
      let host = draw a.rng % 2 ^ (32 - a.net.prefix_len) in
      let m = mark host (record a { rng = suc a.rng }) in
      let rest = draws_v4 n m.1 in next_v4 m.0 (a.net.hosts_nth host) m.1 rest

  unfoldable pub allocate_v4 : Addrs → Option IpAddr × Addrs
  allocate_v4 a = draws_v4 10000 a

  abbrev pub pool_v4 : AddrAllocator Addrs
  pool_v4 = record {
    allocate = allocate_v4;
    release = release_v4;
    take = take_v4;
    holds = holds_v4;
  }
