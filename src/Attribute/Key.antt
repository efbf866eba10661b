-- ===== src/Attribute/Key.antt =====
-- The attribute keys of libeval/src/attribute.rs (`mod key`).
use zl_zpr_visaservice.Base.{String, List, [], ◌∷◌}

abbrev pub zpr_addr : String
zpr_addr = "zpr.addr"

abbrev pub connect_via : String
connect_via = "zpr.connect_via"

abbrev pub services : String
services = "zpr.services"

abbrev pub actor_hash : String
actor_hash = "zpr.actor_hash"

abbrev pub cn : String
cn = "device.zpr.adapter.cn"

abbrev pub device_authority : String
device_authority = "device.zpr.authority"

abbrev pub user_authority : String
user_authority = "user.zpr.authority"

abbrev pub config_id : String
config_id = "zpr.config_id"

abbrev pub role : String
role = "zpr.role"

abbrev pub vinst : String
vinst = "zpr.vinst"

-- `POLICY_STAMPED`
abbrev pub policy_stamped : List String
policy_stamped = role ∷ services ∷ vinst ∷ config_id ∷ []

abbrev pub link_cost : String
link_cost = "link.zpr.cost"
