-- ===== src/Openflow/Structs/Actions.antt =====
-- openflow.h: actions and instructions.
use euthenia.Openflow.Layout.{CType, array, uint16, uint32, uint64, uint8, struct, ◌⨾◌, end}

abbrev pub ofp_action_header : CType
ofp_action_header = struct (("type", uint16) ⨾ ("len", uint16) ⨾ ("pad", array uint8 4) ⨾ end)

abbrev pub ofp_action_output : CType
ofp_action_output = struct (
    ("type", uint16)
    ⨾ ("len", uint16)
    ⨾ ("port", uint32)
    ⨾ ("max_len", uint16)
    ⨾ ("pad", array uint8 6)
    ⨾ end)

abbrev pub ofp_action_mpls_ttl : CType
ofp_action_mpls_ttl =
    struct (("type", uint16) ⨾ ("len", uint16) ⨾ ("mpls_ttl", uint8) ⨾ ("pad", array uint8 3) ⨾ end)

abbrev pub ofp_action_push : CType
ofp_action_push =
    struct
      (("type", uint16) ⨾ ("len", uint16) ⨾ ("ethertype", uint16) ⨾ ("pad", array uint8 2) ⨾ end)

abbrev pub ofp_action_pop_mpls : CType
ofp_action_pop_mpls =
    struct
      (("type", uint16) ⨾ ("len", uint16) ⨾ ("ethertype", uint16) ⨾ ("pad", array uint8 2) ⨾ end)

abbrev pub ofp_action_group : CType
ofp_action_group = struct (("type", uint16) ⨾ ("len", uint16) ⨾ ("group_id", uint32) ⨾ end)

abbrev pub ofp_action_nw_ttl : CType
ofp_action_nw_ttl =
    struct (("type", uint16) ⨾ ("len", uint16) ⨾ ("nw_ttl", uint8) ⨾ ("pad", array uint8 3) ⨾ end)

abbrev pub ofp_action_set_field : CType
ofp_action_set_field = struct (("type", uint16) ⨾ ("len", uint16) ⨾ ("field", array uint8 4) ⨾ end)

abbrev pub ofp_action_experimenter_header : CType
ofp_action_experimenter_header =
    struct (("type", uint16) ⨾ ("len", uint16) ⨾ ("experimenter", uint32) ⨾ end)

abbrev pub ofp_instruction : CType
ofp_instruction = struct (("type", uint16) ⨾ ("len", uint16) ⨾ end)

abbrev pub ofp_instruction_goto_table : CType
ofp_instruction_goto_table =
    struct (("type", uint16) ⨾ ("len", uint16) ⨾ ("table_id", uint8) ⨾ ("pad", array uint8 3) ⨾ end)

abbrev pub ofp_instruction_write_metadata : CType
ofp_instruction_write_metadata = struct (
    ("type", uint16)
    ⨾ ("len", uint16)
    ⨾ ("pad", array uint8 4)
    ⨾ ("metadata", uint64)
    ⨾ ("metadata_mask", uint64)
    ⨾ end)

abbrev pub ofp_instruction_actions : CType
ofp_instruction_actions = struct (
    ("type", uint16)
    ⨾ ("len", uint16)
    ⨾ ("pad", array uint8 4)
    ⨾ ("actions", array ofp_action_header 0)
    ⨾ end)

abbrev pub ofp_instruction_meter : CType
ofp_instruction_meter = struct (("type", uint16) ⨾ ("len", uint16) ⨾ ("meter_id", uint32) ⨾ end)

abbrev pub ofp_instruction_experimenter : CType
ofp_instruction_experimenter =
    struct (("type", uint16) ⨾ ("len", uint16) ⨾ ("experimenter", uint32) ⨾ end)
