-- ===== src/NetMgr/Aaa.antt =====
-- The AAA network of a node, of vs/src/net_mgr.rs.
use zl_zpr_visaservice.Base.{ℕ, ◌+◌, ◌*◌, ◌/◌, ◌%◌, ◌^◌, ◌≤◌, ◌<◌, ◌≡◌, ◌≢◌, ◌⊎◌, arith}
use zl_zpr_visaservice.IpAddr.{IpAddr, v4, v6}

-- `node_id_for_node`: the low 24 bits
unfoldable pub node_id_for_node : IpAddr → ℕ
node_id_for_node (v4 addr) = addr % 2 ^ 32 % 2 ^ 24
node_id_for_node (v6 addr) = addr % 2 ^ 32 % 2 ^ 24

-- the segments of `AAA_NET` above the node's, fd5a:5052:0:aaa
abbrev pub aaa_prefix : ℕ
aaa_prefix = 64858 * 2 ^ 112 + 20562 * 2 ^ 96 + 2730 * 2 ^ 64

abbrev pub node_aaa_prefix_len : ℕ
node_aaa_prefix_len = 88

-- the address of the network; its length is `node_aaa_prefix_len`
unfoldable pub aaa_network_for_node : IpAddr → ℕ
unfolding node_id_for_node
aaa_network_for_node node =
    let node_id = node_id_for_node node in
    let fourth = node_id / 2 ^ 8 % 2 ^ 16 in
    let fifth = node_id * 2 ^ 8 % 2 ^ 32 % 2 ^ 16 in aaa_prefix + fourth * 2 ^ 48 + fifth * 2 ^ 32

node_id-below : (node : IpAddr) → node_id_for_node node < 2 ^ 24
unfolding node_id_for_node
node_id-below (v4 a) = omega arith
node_id-below (v6 a) = omega arith

segments :
    (i : ℕ)
    → i < 2 ^ 24
    → i / 2 ^ 8 % 2 ^ 16 * 2 ^ 48 + i * 2 ^ 8 % 2 ^ 32 % 2 ^ 16 * 2 ^ 32 ≡ i * 2 ^ 40
segments i h = omega (arith, h)

aaa_network-node_id :
    (node : IpAddr) → aaa_network_for_node node ≡ aaa_prefix + node_id_for_node node * 2 ^ 40
unfolding aaa_network_for_node
aaa_network-node_id node = omega (arith, segments (node_id_for_node node) (node_id-below node))

-- The AAA networks of two nodes with different low 24 bits do not overlap: the addresses of the one lie
-- before those of the other; and each lies within the AAA network of the ZPRnet.
pub aaa_networks_apart :
    (a b : IpAddr)
    → node_id_for_node a ≢ node_id_for_node b
    → ((aaa_network_for_node a + 2 ^ 40 ≤ aaa_network_for_node b)
        ⊎ (aaa_network_for_node b + 2 ^ 40 ≤ aaa_network_for_node a))
      × (aaa_prefix ≤ aaa_network_for_node a)
      × (aaa_network_for_node a + 2 ^ 40 ≤ aaa_prefix + 2 ^ 64)
aaa_networks_apart a b h =
    let at_a = aaa_network-node_id a in
    let at_b = aaa_network-node_id b in
    (ground (arith, at_a, at_b, h), omega (arith, at_a), omega (arith, at_a, node_id-below a))
