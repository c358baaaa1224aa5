-- ===== src/Openflow/Structs/Stats.antt =====
-- openflow.h: port, group and meter statistics.
use euthenia.Openflow.Layout.{CType, array, uint16, uint32, uint64, uint8, struct, ◌⨾◌, end}
use euthenia.Openflow.Structs.Flow.{ofp_bucket}
use euthenia.Openflow.Structs.Meter.{ofp_meter_band_header}
use euthenia.Openflow.Structs.Ports.{ofp_header}

abbrev pub ofp_port_stats : CType
ofp_port_stats = struct (
    ("port_no", uint32)
    ⨾ ("pad", array uint8 4)
    ⨾ ("rx_packets", uint64)
    ⨾ ("tx_packets", uint64)
    ⨾ ("rx_bytes", uint64)
    ⨾ ("tx_bytes", uint64)
    ⨾ ("rx_dropped", uint64)
    ⨾ ("tx_dropped", uint64)
    ⨾ ("rx_errors", uint64)
    ⨾ ("tx_errors", uint64)
    ⨾ ("rx_frame_err", uint64)
    ⨾ ("rx_over_err", uint64)
    ⨾ ("rx_crc_err", uint64)
    ⨾ ("collisions", uint64)
    ⨾ ("duration_sec", uint32)
    ⨾ ("duration_nsec", uint32)
    ⨾ end)

abbrev pub ofp_group_stats_request : CType
ofp_group_stats_request = struct (("group_id", uint32) ⨾ ("pad", array uint8 4) ⨾ end)

abbrev pub ofp_bucket_counter : CType
ofp_bucket_counter = struct (("packet_count", uint64) ⨾ ("byte_count", uint64) ⨾ end)

abbrev pub ofp_group_stats : CType
ofp_group_stats = struct (
    ("length", uint16)
    ⨾ ("pad", array uint8 2)
    ⨾ ("group_id", uint32)
    ⨾ ("ref_count", uint32)
    ⨾ ("pad2", array uint8 4)
    ⨾ ("packet_count", uint64)
    ⨾ ("byte_count", uint64)
    ⨾ ("duration_sec", uint32)
    ⨾ ("duration_nsec", uint32)
    ⨾ ("bucket_stats", array ofp_bucket_counter 0)
    ⨾ end)

abbrev pub ofp_group_desc : CType
ofp_group_desc = struct (
    ("length", uint16)
    ⨾ ("type", uint8)
    ⨾ ("pad", uint8)
    ⨾ ("group_id", uint32)
    ⨾ ("buckets", array ofp_bucket 0)
    ⨾ end)

abbrev pub ofp_group_features : CType
ofp_group_features = struct (
    ("types", uint32)
    ⨾ ("capabilities", uint32)
    ⨾ ("max_groups", array uint32 4)
    ⨾ ("actions", array uint32 4)
    ⨾ end)

abbrev pub ofp_meter_multipart_request : CType
ofp_meter_multipart_request = struct (("meter_id", uint32) ⨾ ("pad", array uint8 4) ⨾ end)

abbrev pub ofp_meter_band_stats : CType
ofp_meter_band_stats = struct (("packet_band_count", uint64) ⨾ ("byte_band_count", uint64) ⨾ end)

abbrev pub ofp_meter_stats : CType
ofp_meter_stats = struct (
    ("meter_id", uint32)
    ⨾ ("len", uint16)
    ⨾ ("pad", array uint8 6)
    ⨾ ("flow_count", uint32)
    ⨾ ("packet_in_count", uint64)
    ⨾ ("byte_in_count", uint64)
    ⨾ ("duration_sec", uint32)
    ⨾ ("duration_nsec", uint32)
    ⨾ ("band_stats", array ofp_meter_band_stats 0)
    ⨾ end)

abbrev pub ofp_meter_config : CType
ofp_meter_config = struct (
    ("length", uint16)
    ⨾ ("flags", uint16)
    ⨾ ("meter_id", uint32)
    ⨾ ("bands", array ofp_meter_band_header 0)
    ⨾ end)

abbrev pub ofp_meter_features : CType
ofp_meter_features = struct (
    ("max_meter", uint32)
    ⨾ ("band_types", uint32)
    ⨾ ("capabilities", uint32)
    ⨾ ("max_bands", uint8)
    ⨾ ("max_color", uint8)
    ⨾ ("pad", array uint8 2)
    ⨾ end)

abbrev pub ofp_experimenter_multipart_header : CType
ofp_experimenter_multipart_header = struct (("experimenter", uint32) ⨾ ("exp_type", uint32) ⨾ end)

abbrev pub ofp_experimenter_header : CType
ofp_experimenter_header =
    struct (("header", ofp_header) ⨾ ("experimenter", uint32) ⨾ ("exp_type", uint32) ⨾ end)
