-- ===== src/NetMgr/Tests.antt =====
-- The pools at concrete networks.
use zl_zpr_visaservice.Base.{
  ℕ, ◌+◌, ◌^◌, ◌≤◌, ◌⊎◌, ◌≡◌, ℕ-HasEq, refl, true, false, ◌&&◌, [], ◌∷◌, none, some, ok, err,
  contains, arith, ltb, leb, if◌then◌else◌,
}
use zl_zpr_visaservice.IpAddr.{IpAddr, IpAddr-HasEq, v4, v6}
use zl_zpr_visaservice.Actor.{adapter}
use zl_zpr_visaservice.NetMgr.{
  Net, Addrs, NetMgr, get_next_zpr_addr, release_zpr_addr, take_zpr_addr, already_allocated,
}
use zl_zpr_visaservice.NetMgr.V6.{allocate_v6, draws_v6, pool_v6, take_v6, release_v6, holds_v6}
use zl_zpr_visaservice.NetMgr.V6.IsPool.{IsNet64, Good6, in_use_v6, pool_v6-IsPool}
use zl_zpr_visaservice.NetMgr.Pool.{IsPool}
use zl_zpr_visaservice.NetMgr.Laws.{get, take, release, IsGood, handed}
use zl_zpr_visaservice.NetMgr.Laws.Handed.{
  handed_not_again, get_next_zpr_addr-Fresh, Fresh, release_zpr_addr_ok, Freed,
}
use zl_zpr_visaservice.NetMgr.Aaa.{
  aaa_networks_apart, aaa_network_for_node, aaa_prefix, node_id_for_node,
}

-- a /64, as ipnet documents it
abbrev net64 : ℕ → Net
net64 base = record {
  network = base;
  prefix_len = 64;
  holds = λ a. leb base a && ltb a (base + 2 ^ 64);
  hosts_nth = λ i. if ltb i (2 ^ 64) then some (base + i) else none;
}

net64-IsNet64 : (base : ℕ) → IsNet64 (net64 base)
net64-IsNet64 base = record { holds_iff = λ a. ground arith; hosts = λ i h. ground (arith, h) }

abbrev pool_at : ℕ → Addrs
pool_at base = record { net = net64 base; rng = 0; used = [] }

-- every draw is 5
abbrev fives : ℕ → ℕ
fives i = 5

abbrev mgr : NetMgr (pool_v6 fives)
mgr = record { node_addrs = pool_at 0; adapter_addrs = pool_at (2 ^ 64) }

mgr-IsGood : IsGood (pool_v6 fives) Good6 in_use_v6 (pool_v6-IsPool fives) mgr
unfolding holds_v6
mgr-IsGood = record {
  adapters = net64-IsNet64 (2 ^ 64);
  nodes = net64-IsNet64 0;
  apart = λ a h. outside a h;
}
  where
    outside : (a : IpAddr) → holds_v6 (pool_at (2 ^ 64)) a ≡ true → holds_v6 (pool_at 0) a ≡ false
    outside (v6 a) h = ground (arith, h)
    outside (v4 a) h = refl

pool_v6-IsPool_example : IsPool (pool_v6 fives) Good6 in_use_v6
pool_v6-IsPool_example = pool_v6-IsPool fives

abbrev first : IpAddr
first = v6 (2 ^ 64 + 5)

abbrev mgr_after : NetMgr (pool_v6 fives)
mgr_after = record mgr { adapter_addrs = record (pool_at (2 ^ 64)) { rng = 1; used = 5 ∷ [] } }

code : Unit {0}
unfolding get_next_zpr_addr allocate_v6 draws_v6 take_zpr_addr take_v6 release_zpr_addr release_v6
    holds_v6
code = tt

first_given : get_next_zpr_addr (pool_v6 fives) mgr adapter ≡ (ok first, mgr_after)
unfolding code
first_given = refl

-- It cannot be taken then.
first_taken : take_zpr_addr (pool_v6 fives) mgr_after first ≡ err already_allocated
unfolding code
first_taken = refl

get_next_zpr_addr-Fresh_example :
    Fresh (pool_v6 fives) Good6 in_use_v6 (pool_v6-IsPool fives) mgr mgr_after first
get_next_zpr_addr-Fresh_example =
    get_next_zpr_addr-Fresh (pool_v6 fives) Good6 in_use_v6 (pool_v6-IsPool fives) mgr mgr_after
      adapter first mgr-IsGood first_given

mgr_after-IsGood : IsGood (pool_v6 fives) Good6 in_use_v6 (pool_v6-IsPool fives) mgr_after
mgr_after-IsGood =
    (get_next_zpr_addr-Fresh (pool_v6 fives) Good6 in_use_v6 (pool_v6-IsPool fives) mgr mgr_after
      adapter first mgr-IsGood first_given).good

handed_not_again_example :
    contains
      (handed
        (pool_v6 fives)
        Good6
        in_use_v6
        (pool_v6-IsPool fives)
        mgr_after
        (take (v6 7) ∷ get adapter ∷ take first ∷ release (v6 7) ∷ []))
      first
    ≡ false
handed_not_again_example =
    handed_not_again (pool_v6 fives) Good6 in_use_v6 (pool_v6-IsPool fives) mgr_after
      (take (v6 7) ∷ get adapter ∷ take first ∷ release (v6 7) ∷ []) first mgr_after-IsGood refl
      refl

release_zpr_addr_ok_example :
    (m' : NetMgr (pool_v6 fives)) × (release_zpr_addr (pool_v6 fives) mgr_after first ≡ ok m')
    × Freed (pool_v6 fives) Good6 in_use_v6 (pool_v6-IsPool fives) mgr_after m' first
release_zpr_addr_ok_example =
    release_zpr_addr_ok (pool_v6 fives) Good6 in_use_v6 (pool_v6-IsPool fives) mgr_after first
      mgr_after-IsGood refl

aaa_networks_apart_example :
    ((aaa_network_for_node (v6 1) + 2 ^ 40 ≤ aaa_network_for_node (v4 2))
      ⊎ (aaa_network_for_node (v4 2) + 2 ^ 40 ≤ aaa_network_for_node (v6 1)))
    × (aaa_prefix ≤ aaa_network_for_node (v6 1))
    × (aaa_network_for_node (v6 1) + 2 ^ 40 ≤ aaa_prefix + 2 ^ 64)
unfolding node_id_for_node
aaa_networks_apart_example = aaa_networks_apart (v6 1) (v4 2) (λ e. absurd (omega (arith, e)))
