-- ===== src/Openflow/Structs/Flow.antt =====
-- openflow.h: flow and group modification, packets in and out.
use euthenia.Openflow.Layout.{CType, array, uint16, uint32, uint64, uint8, struct, ◌⨾◌, end}
use euthenia.Openflow.Structs.Ports.{ofp_header}
use euthenia.Openflow.Structs.Match.{ofp_match}
use euthenia.Openflow.Structs.Actions.{ofp_action_header}

abbrev pub ofp_flow_mod : CType
ofp_flow_mod = struct (
    ("header", ofp_header)
    ⨾ ("cookie", uint64)
    ⨾ ("cookie_mask", uint64)
    ⨾ ("table_id", uint8)
    ⨾ ("command", uint8)
    ⨾ ("idle_timeout", uint16)
    ⨾ ("hard_timeout", uint16)
    ⨾ ("priority", uint16)
    ⨾ ("buffer_id", uint32)
    ⨾ ("out_port", uint32)
    ⨾ ("out_group", uint32)
    ⨾ ("flags", uint16)
    ⨾ ("pad", array uint8 2)
    ⨾ ("match", ofp_match)
    ⨾ end)

abbrev pub ofp_bucket : CType
ofp_bucket = struct (
    ("len", uint16)
    ⨾ ("weight", uint16)
    ⨾ ("watch_port", uint32)
    ⨾ ("watch_group", uint32)
    ⨾ ("pad", array uint8 4)
    ⨾ ("actions", array ofp_action_header 0)
    ⨾ end)

abbrev pub ofp_group_mod : CType
ofp_group_mod = struct (
    ("header", ofp_header)
    ⨾ ("command", uint16)
    ⨾ ("type", uint8)
    ⨾ ("pad", uint8)
    ⨾ ("group_id", uint32)
    ⨾ ("buckets", array ofp_bucket 0)
    ⨾ end)

abbrev pub ofp_packet_out : CType
ofp_packet_out = struct (
    ("header", ofp_header)
    ⨾ ("buffer_id", uint32)
    ⨾ ("in_port", uint32)
    ⨾ ("actions_len", uint16)
    ⨾ ("pad", array uint8 6)
    ⨾ ("actions", array ofp_action_header 0)
    ⨾ end)

abbrev pub ofp_packet_in : CType
ofp_packet_in = struct (
    ("header", ofp_header)
    ⨾ ("buffer_id", uint32)
    ⨾ ("total_len", uint16)
    ⨾ ("reason", uint8)
    ⨾ ("table_id", uint8)
    ⨾ ("cookie", uint64)
    ⨾ ("match", ofp_match)
    ⨾ end)

abbrev pub ofp_flow_removed : CType
ofp_flow_removed = struct (
    ("header", ofp_header)
    ⨾ ("cookie", uint64)
    ⨾ ("priority", uint16)
    ⨾ ("reason", uint8)
    ⨾ ("table_id", uint8)
    ⨾ ("duration_sec", uint32)
    ⨾ ("duration_nsec", uint32)
    ⨾ ("idle_timeout", uint16)
    ⨾ ("hard_timeout", uint16)
    ⨾ ("packet_count", uint64)
    ⨾ ("byte_count", uint64)
    ⨾ ("match", ofp_match)
    ⨾ end)
