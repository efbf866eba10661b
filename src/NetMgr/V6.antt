-- ===== src/NetMgr/V6.antt =====
-- `Addr6Allocator` of vs/src/net_mgr.rs.
pub mod IsPool
use zl_zpr_visaservice.Base.{
  ℕ, zero, suc, ◌+◌, ◌-◌, ◌%◌, ◌^◌, ℕ-HasEq, ◌==◌, Bool, true, false, not, List, [], Option, none,
  some, Result, ok, err, if◌then◌else◌,
}
use zl_zpr_visaservice.IpAddr.{IpAddr, v4, v6}
use zl_zpr_visaservice.NetMgr.{
  Net, NetError, outside_net, unallocated, already_allocated, wrong_family, Addrs, mark, unmark,
  AddrAllocator,
}

-- `none` is the panic on a network that is no /64
unfoldable pub new_v6 : Net → Option Addrs
new_v6 net =
    if not (net.prefix_len == 64) then none else some (record { net = net; rng = 0; used = [] })

unfoldable pub holds_v6 : Addrs → IpAddr → Bool
holds_v6 a (v6 addr) = a.net.holds addr
holds_v6 a (v4 addr) = false

-- the host index, `as u64`
abbrev pub index_v6 : Addrs → ℕ → ℕ
index_v6 a addr = (addr - a.net.network) % 2 ^ 64

-- the flag of the set operation decides
abbrev pub unless : NetError → Bool × Addrs → Result NetError Addrs
unless e (true, a) = ok a
unless e (false, a) = err e

unfoldable pub release_v6 : Addrs → IpAddr → Result NetError Addrs
release_v6 a (v6 addr) =
    if not (a.net.holds addr)
    then err outside_net
    else unless unallocated (unmark (index_v6 a addr) a)
release_v6 a (v4 addr) = err wrong_family

unfoldable pub take_v6 : Addrs → IpAddr → Result NetError Addrs
take_v6 a (v6 addr) =
    if not (a.net.holds addr)
    then err outside_net
    else unless already_allocated (mark (index_v6 a addr) a)
take_v6 a (v4 addr) = err wrong_family

-- after one draw, new or not: its host if it has one, or what the other draws give
abbrev pub next_v6 : Bool → Option ℕ → Addrs → Option IpAddr × Addrs → Option IpAddr × Addrs
next_v6 false host a rest = rest
next_v6 true none a rest = rest
next_v6 true (some ip) a rest = (some (v6 ip), a)

module _ (draw : ℕ → ℕ) where
  -- up to so many draws, each a number below 2^64
  unfoldable pub draws_v6 : ℕ → Addrs → Option IpAddr × Addrs
  draws_v6 zero a = (none, a)
  draws_v6 (suc n) a =
      let host = draw a.rng % 2 ^ 64 in
      let m = mark host (record a { rng = suc a.rng }) in
      let rest = draws_v6 n m.1 in next_v6 m.0 (a.net.hosts_nth host) m.1 rest

  unfoldable pub allocate_v6 : Addrs → Option IpAddr × Addrs
  allocate_v6 a = draws_v6 10000 a

  abbrev pub pool_v6 : AddrAllocator Addrs
  pool_v6 = record {
    allocate = allocate_v6;
    release = release_v6;
    take = take_v6;
    holds = holds_v6;
  }
