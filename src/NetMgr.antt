-- ===== src/NetMgr.antt =====
-- vs/src/net_mgr.rs: the pools that ZPR addresses are handed out from, and the AAA networks. A method
-- that takes `&mut self` returns the new state. The locks are not modelled: one is held for the whole
-- of each call of an allocator. `Net` stands for a network of the ipnet crate, by what its methods
-- answer; `draw i` is the i-th number that the random generator of a pool yields.
pub mod V6
pub mod V4
pub mod Pool
pub mod Laws
pub mod Aaa
mod Tests
use zl_zpr_visaservice.Base.{
  ℕ, zero, suc, ◌+◌, ◌-◌, ◌*◌, ◌/◌, ◌%◌, ◌^◌, ℕ-HasEq, ◌==◌, Bool, true, false, not, ◌&&◌, ◌||◌,
  List, [], ◌∷◌, Option, none, some, Result, ok, err, panic, contains, filter, if◌then◌else◌, ltb,
}
use zl_zpr_visaservice.IpAddr.{IpAddr, v4, v6}
use zl_zpr_visaservice.Actor.{Role, unknown, adapter, node}

pub record Net : Type 0 where
  pub network : ℕ
  pub prefix_len : ℕ
  pub holds : ℕ → Bool
  pub hosts_nth : ℕ → Option ℕ

-- `ServiceError::Internal`, by what its message reports
pub data NetError : Type 0 where
  outside_net unallocated already_allocated network_address wrong_family : NetError
  not_managed no_address : NetError

-- a pool: its network, how many numbers it has drawn, and the host indices in use
pub record Addrs : Type 0 where
  pub net : Net
  pub rng : ℕ
  pub used : List ℕ

-- `HashSet::insert` and `HashSet::remove`: the flag they answer with, and the new set
abbrev pub mark : ℕ → Addrs → Bool × Addrs
mark h a =
    (not (contains a.used h), record a { used = if contains a.used h then a.used else h ∷ a.used })

abbrev pub unmark : ℕ → Addrs → Bool × Addrs
unmark h a = (contains a.used h, record a { used = filter (λ j. not (j == h)) a.used })

-- the trait `AddrAllocator`; an error leaves the state as it was
pub record AddrAllocator (S : Type 0) : Type 0 where
  pub allocate : S → Option IpAddr × S
  pub release : S → IpAddr → Result NetError S
  pub take : S → IpAddr → Result NetError S
  pub holds : S → IpAddr → Bool

module _ {S : Type 0} (alloc : AddrAllocator S) where
  pub record NetMgr : Type 0 where
    pub node_addrs : S
    pub adapter_addrs : S

  abbrev pub drawn_for_node : NetMgr → Option IpAddr × S → Result NetError IpAddr × NetMgr
  drawn_for_node m (none, s) = (err no_address, record m { node_addrs = s })
  drawn_for_node m (some a, s) = (ok a, record m { node_addrs = s })

  abbrev pub drawn_for_adapter : NetMgr → Option IpAddr × S → Result NetError IpAddr × NetMgr
  drawn_for_adapter m (none, s) = (err no_address, record m { adapter_addrs = s })
  drawn_for_adapter m (some a, s) = (ok a, record m { adapter_addrs = s })

  unfoldable pub get_next_zpr_addr : NetMgr → Role → Result NetError IpAddr × NetMgr
  get_next_zpr_addr m adapter = drawn_for_adapter m (alloc.allocate m.adapter_addrs)
  get_next_zpr_addr m node = drawn_for_node m (alloc.allocate m.node_addrs)
  get_next_zpr_addr m unknown = (panic, m)

  abbrev pub with_node : NetMgr → Result NetError S → Result NetError NetMgr
  with_node m (ok s) = ok (record m { node_addrs = s })
  with_node m (err e) = err e
  with_node m panic = panic

  abbrev pub with_adapter : NetMgr → Result NetError S → Result NetError NetMgr
  with_adapter m (ok s) = ok (record m { adapter_addrs = s })
  with_adapter m (err e) = err e
  with_adapter m panic = panic

  unfoldable pub release_zpr_addr : NetMgr → IpAddr → Result NetError NetMgr
  release_zpr_addr m addr =
      if alloc.holds m.adapter_addrs addr
      then with_adapter m (alloc.release m.adapter_addrs addr)
      else if alloc.holds m.node_addrs addr
      then with_node m (alloc.release m.node_addrs addr)
      else err not_managed

  unfoldable pub take_zpr_addr : NetMgr → IpAddr → Result NetError NetMgr
  take_zpr_addr m addr =
      if alloc.holds m.adapter_addrs addr
      then with_adapter m (alloc.take m.adapter_addrs addr)
      else if alloc.holds m.node_addrs addr
      then with_node m (alloc.take m.node_addrs addr)
      else err not_managed

-- the networks of config.rs that addresses are handed out from
pub record NetConfig : Type 0 where
  pub adapter_v6 : Net
  pub node_v6 : Net
  pub adapter_v4 : Net
  pub node_v4 : Net

unfoldable pub is_managed_address : NetConfig → IpAddr → Bool
is_managed_address c (v4 a) = c.adapter_v4.holds a || c.node_v4.holds a
is_managed_address c (v6 a) = c.adapter_v6.holds a || c.node_v6.holds a

-- `zpr_net` is the whole address space of the ZPRnet
unfoldable pub is_zpr_addr : Net → IpAddr → Bool
is_zpr_addr zpr_net (v6 a) = zpr_net.holds a
is_zpr_addr zpr_net (v4 a) = false
