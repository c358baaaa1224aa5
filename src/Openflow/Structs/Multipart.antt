-- ===== src/Openflow/Structs/Multipart.antt =====
-- openflow.h: multipart messages and flow statistics.
use euthenia.Openflow.Layout.{CType, array, uint16, uint32, uint64, uint8, struct, ◌⨾◌, end}
use euthenia.Openflow.Structs.Ports.{ofp_header}
use euthenia.Openflow.Structs.Match.{ofp_match}

abbrev pub ofp_multipart_request : CType
ofp_multipart_request = struct (
    ("header", ofp_header)
    ⨾ ("type", uint16)
    ⨾ ("flags", uint16)
    ⨾ ("pad", array uint8 4)
    ⨾ ("body", array uint8 0)
    ⨾ end)

abbrev pub ofp_multipart_reply : CType
ofp_multipart_reply = struct (
    ("header", ofp_header)
    ⨾ ("type", uint16)
    ⨾ ("flags", uint16)
    ⨾ ("pad", array uint8 4)
    ⨾ ("body", array uint8 0)
    ⨾ end)

abbrev pub ofp_desc : CType
ofp_desc = struct (
    ("mfr_desc", array uint8 256)
    ⨾ ("hw_desc", array uint8 256)
    ⨾ ("sw_desc", array uint8 256)
    ⨾ ("serial_num", array uint8 32)
    ⨾ ("dp_desc", array uint8 256)
    ⨾ end)

abbrev pub ofp_flow_stats_request : CType
ofp_flow_stats_request = struct (
    ("table_id", uint8)
    ⨾ ("pad", array uint8 3)
    ⨾ ("out_port", uint32)
    ⨾ ("out_group", uint32)
    ⨾ ("pad2", array uint8 4)
    ⨾ ("cookie", uint64)
    ⨾ ("cookie_mask", uint64)
    ⨾ ("match", ofp_match)
    ⨾ end)

abbrev pub ofp_flow_stats : CType
ofp_flow_stats = struct (
    ("length", uint16)
    ⨾ ("table_id", uint8)
    ⨾ ("pad", uint8)
    ⨾ ("duration_sec", uint32)
    ⨾ ("duration_nsec", uint32)
    ⨾ ("priority", uint16)
    ⨾ ("idle_timeout", uint16)
    ⨾ ("hard_timeout", uint16)
    ⨾ ("flags", uint16)
    ⨾ ("pad2", array uint8 4)
    ⨾ ("cookie", uint64)
    ⨾ ("packet_count", uint64)
    ⨾ ("byte_count", uint64)
    ⨾ ("match", ofp_match)
    ⨾ end)

abbrev pub ofp_aggregate_stats_request : CType
ofp_aggregate_stats_request = struct (
    ("table_id", uint8)
    ⨾ ("pad", array uint8 3)
    ⨾ ("out_port", uint32)
    ⨾ ("out_group", uint32)
    ⨾ ("pad2", array uint8 4)
    ⨾ ("cookie", uint64)
    ⨾ ("cookie_mask", uint64)
    ⨾ ("match", ofp_match)
    ⨾ end)

abbrev pub ofp_aggregate_stats_reply : CType
ofp_aggregate_stats_reply = struct (
    ("packet_count", uint64)
    ⨾ ("byte_count", uint64)
    ⨾ ("flow_count", uint32)
    ⨾ ("pad", array uint8 4)
    ⨾ end)
