-- ===== src/Openflow/Structs/Meter.antt =====
-- openflow.h: meters and errors.
use euthenia.Openflow.Layout.{CType, array, uint16, uint32, uint8, struct, ◌⨾◌, end}
use euthenia.Openflow.Structs.Ports.{ofp_header}

abbrev pub ofp_meter_band_header : CType
ofp_meter_band_header =
    struct (("type", uint16) ⨾ ("len", uint16) ⨾ ("rate", uint32) ⨾ ("burst_size", uint32) ⨾ end)

abbrev pub ofp_meter_band_drop : CType
ofp_meter_band_drop = struct (
    ("type", uint16)
    ⨾ ("len", uint16)
    ⨾ ("rate", uint32)
    ⨾ ("burst_size", uint32)
    ⨾ ("pad", array uint8 4)
    ⨾ end)

abbrev pub ofp_meter_band_dscp_remark : CType
ofp_meter_band_dscp_remark = struct (
    ("type", uint16)
    ⨾ ("len", uint16)
    ⨾ ("rate", uint32)
    ⨾ ("burst_size", uint32)
    ⨾ ("prec_level", uint8)
    ⨾ ("pad", array uint8 3)
    ⨾ end)

abbrev pub ofp_meter_band_experimenter : CType
ofp_meter_band_experimenter = struct (
    ("type", uint16)
    ⨾ ("len", uint16)
    ⨾ ("rate", uint32)
    ⨾ ("burst_size", uint32)
    ⨾ ("experimenter", uint32)
    ⨾ end)

abbrev pub ofp_meter_mod : CType
ofp_meter_mod = struct (
    ("header", ofp_header)
    ⨾ ("command", uint16)
    ⨾ ("flags", uint16)
    ⨾ ("meter_id", uint32)
    ⨾ ("bands", array ofp_meter_band_header 0)
    ⨾ end)

abbrev pub ofp_error_msg : CType
ofp_error_msg =
    struct
      (("header", ofp_header) ⨾ ("type", uint16) ⨾ ("code", uint16) ⨾ ("data", array uint8 0) ⨾ end)

abbrev pub ofp_error_experimenter_msg : CType
ofp_error_experimenter_msg = struct (
    ("header", ofp_header)
    ⨾ ("type", uint16)
    ⨾ ("exp_type", uint16)
    ⨾ ("experimenter", uint32)
    ⨾ ("data", array uint8 0)
    ⨾ end)
