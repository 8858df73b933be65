-- ===== src/Route/RtAttr.antt =====
-- The attributes of msh_route.h that `msh_route_compare` can look at.
use Prim.Native.Nat.{ℕ}

abbrev pub dst_ip : ℕ
dst_ip = 0x1

abbrev pub nexthop_ip : ℕ
nexthop_ip = 0x2

abbrev pub prefix_sz : ℕ
prefix_sz = 0x4

abbrev pub dest_seq_num : ℕ
dest_seq_num = 0x8

abbrev pub flags : ℕ
flags = 0x10

abbrev pub hop_count : ℕ
hop_count = 0x20

abbrev pub net_iface : ℕ
net_iface = 0x80

abbrev pub lifetime : ℕ
lifetime = 0x100

abbrev pub updated_cb : ℕ
updated_cb = 0x200

abbrev pub cb_data : ℕ
cb_data = 0x400
