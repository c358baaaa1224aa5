-- ===== src/Openflow/Enums/Switch.antt =====
-- openflow.h: the enumerations of ports, tables and the switch, each as its enumerators with their values.
use euthenia.Prelude.{ℕ, ◌^◌, List, [], ◌∷◌}
use Prim.Native.String.{String}

abbrev pub ofp_port_no : List (String × ℕ)
ofp_port_no =
    ("OFPP_MAX", 0xffffff00)
    ∷ ("OFPP_IN_PORT", 0xfffffff8)
    ∷ ("OFPP_TABLE", 0xfffffff9)
    ∷ ("OFPP_NORMAL", 0xfffffffa)
    ∷ ("OFPP_FLOOD", 0xfffffffb)
    ∷ ("OFPP_ALL", 0xfffffffc)
    ∷ ("OFPP_CONTROLLER", 0xfffffffd)
    ∷ ("OFPP_LOCAL", 0xfffffffe)
    ∷ ("OFPP_ANY", 0xffffffff)
    ∷ []

abbrev pub ofp_hello_elem_type : List (String × ℕ)
ofp_hello_elem_type = ("OFPHET_VERSIONBITMAP", 1) ∷ []

abbrev pub ofp_config_flags : List (String × ℕ)
ofp_config_flags =
    ("OFPC_FRAG_NORMAL", 0)
    ∷ ("OFPC_FRAG_DROP", 2 ^ 0)
    ∷ ("OFPC_FRAG_REASM", 2 ^ 1)
    ∷ ("OFPC_FRAG_MASK", 3)
    ∷ []

abbrev pub ofp_table_config : List (String × ℕ)
ofp_table_config = ("OFPTC_DEPRECATED_MASK", 3) ∷ []

abbrev pub ofp_table : List (String × ℕ)
ofp_table = ("OFPTT_MAX", 0xfe) ∷ ("OFPTT_ALL", 0xff) ∷ []

abbrev pub ofp_capabilities : List (String × ℕ)
ofp_capabilities =
    ("OFPC_FLOW_STATS", 2 ^ 0)
    ∷ ("OFPC_TABLE_STATS", 2 ^ 1)
    ∷ ("OFPC_PORT_STATS", 2 ^ 2)
    ∷ ("OFPC_GROUP_STATS", 2 ^ 3)
    ∷ ("OFPC_IP_REASM", 2 ^ 5)
    ∷ ("OFPC_QUEUE_STATS", 2 ^ 6)
    ∷ ("OFPC_PORT_BLOCKED", 2 ^ 8)
    ∷ []

abbrev pub ofp_port_config : List (String × ℕ)
ofp_port_config =
    ("OFPPC_PORT_DOWN", 2 ^ 0)
    ∷ ("OFPPC_NO_RECV", 2 ^ 2)
    ∷ ("OFPPC_NO_FWD", 2 ^ 5)
    ∷ ("OFPPC_NO_PACKET_IN", 2 ^ 6)
    ∷ []

abbrev pub ofp_port_state : List (String × ℕ)
ofp_port_state = ("OFPPS_LINK_DOWN", 2 ^ 0) ∷ ("OFPPS_BLOCKED", 2 ^ 1) ∷ ("OFPPS_LIVE", 2 ^ 2) ∷ []

abbrev pub ofp_port_features : List (String × ℕ)
ofp_port_features =
    ("OFPPF_10MB_HD", 2 ^ 0)
    ∷ ("OFPPF_10MB_FD", 2 ^ 1)
    ∷ ("OFPPF_100MB_HD", 2 ^ 2)
    ∷ ("OFPPF_100MB_FD", 2 ^ 3)
    ∷ ("OFPPF_1GB_HD", 2 ^ 4)
    ∷ ("OFPPF_1GB_FD", 2 ^ 5)
    ∷ ("OFPPF_10GB_FD", 2 ^ 6)
    ∷ ("OFPPF_40GB_FD", 2 ^ 7)
    ∷ ("OFPPF_100GB_FD", 2 ^ 8)
    ∷ ("OFPPF_1TB_FD", 2 ^ 9)
    ∷ ("OFPPF_OTHER", 2 ^ 10)
    ∷ ("OFPPF_COPPER", 2 ^ 11)
    ∷ ("OFPPF_FIBER", 2 ^ 12)
    ∷ ("OFPPF_AUTONEG", 2 ^ 13)
    ∷ ("OFPPF_PAUSE", 2 ^ 14)
    ∷ ("OFPPF_PAUSE_ASYM", 2 ^ 15)
    ∷ []

abbrev pub ofp_port_reason : List (String × ℕ)
ofp_port_reason = ("OFPPR_ADD", 0) ∷ ("OFPPR_DELETE", 1) ∷ ("OFPPR_MODIFY", 2) ∷ []
