-- ===== src/Openflow/Structs/Queues.antt =====
-- openflow.h: queues, roles and asynchronous messages.
use euthenia.Openflow.Layout.{CType, array, uint16, uint32, uint64, uint8, struct, ◌⨾◌, end}
use euthenia.Openflow.Structs.Ports.{ofp_header}

abbrev pub ofp_queue_prop_header : CType
ofp_queue_prop_header =
    struct (("property", uint16) ⨾ ("len", uint16) ⨾ ("pad", array uint8 4) ⨾ end)

abbrev pub ofp_queue_prop_min_rate : CType
ofp_queue_prop_min_rate =
    struct
      (("prop_header", ofp_queue_prop_header) ⨾ ("rate", uint16) ⨾ ("pad", array uint8 6) ⨾ end)

abbrev pub ofp_queue_prop_max_rate : CType
ofp_queue_prop_max_rate =
    struct
      (("prop_header", ofp_queue_prop_header) ⨾ ("rate", uint16) ⨾ ("pad", array uint8 6) ⨾ end)

abbrev pub ofp_queue_prop_experimenter : CType
ofp_queue_prop_experimenter = struct (
    ("prop_header", ofp_queue_prop_header)
    ⨾ ("experimenter", uint32)
    ⨾ ("pad", array uint8 4)
    ⨾ ("data", array uint8 0)
    ⨾ end)

abbrev pub ofp_packet_queue : CType
ofp_packet_queue = struct (
    ("queue_id", uint32)
    ⨾ ("port", uint32)
    ⨾ ("len", uint16)
    ⨾ ("pad", array uint8 6)
    ⨾ ("properties", array ofp_queue_prop_header 0)
    ⨾ end)

abbrev pub ofp_queue_get_config_request : CType
ofp_queue_get_config_request =
    struct (("header", ofp_header) ⨾ ("port", uint32) ⨾ ("pad", array uint8 4) ⨾ end)

abbrev pub ofp_queue_get_config_reply : CType
ofp_queue_get_config_reply = struct (
    ("header", ofp_header)
    ⨾ ("port", uint32)
    ⨾ ("pad", array uint8 4)
    ⨾ ("queues", array ofp_packet_queue 0)
    ⨾ end)

abbrev pub ofp_action_set_queue : CType
ofp_action_set_queue = struct (("type", uint16) ⨾ ("len", uint16) ⨾ ("queue_id", uint32) ⨾ end)

abbrev pub ofp_queue_stats_request : CType
ofp_queue_stats_request = struct (("port_no", uint32) ⨾ ("queue_id", uint32) ⨾ end)

abbrev pub ofp_queue_stats : CType
ofp_queue_stats = struct (
    ("port_no", uint32)
    ⨾ ("queue_id", uint32)
    ⨾ ("tx_bytes", uint64)
    ⨾ ("tx_packets", uint64)
    ⨾ ("tx_errors", uint64)
    ⨾ ("duration_sec", uint32)
    ⨾ ("duration_nsec", uint32)
    ⨾ end)

abbrev pub ofp_role_request : CType
ofp_role_request = struct (
    ("header", ofp_header)
    ⨾ ("role", uint32)
    ⨾ ("pad", array uint8 4)
    ⨾ ("generation_id", uint64)
    ⨾ end)

abbrev pub ofp_async_config : CType
ofp_async_config = struct (
    ("header", ofp_header)
    ⨾ ("packet_in_mask", array uint32 2)
    ⨾ ("port_status_mask", array uint32 2)
    ⨾ ("flow_removed_mask", array uint32 2)
    ⨾ end)
