-- ===== src/Openflow/Structs/Match.antt =====
-- openflow.h: matches.
use euthenia.Openflow.Layout.{CType, array, uint16, uint32, uint8, struct, ◌⨾◌, end}

abbrev pub ofp_match : CType
ofp_match = struct (
    ("type", uint16)
    ⨾ ("length", uint16)
    ⨾ ("oxm_fields", array uint8 0)
    ⨾ ("pad", array uint8 4)
    ⨾ end)

abbrev pub ofp_oxm_experimenter_header : CType
ofp_oxm_experimenter_header = struct (("oxm_header", uint32) ⨾ ("experimenter", uint32) ⨾ end)
