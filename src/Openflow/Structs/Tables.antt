-- ===== src/Openflow/Structs/Tables.antt =====
-- openflow.h: table features and statistics.
use euthenia.Openflow.Layout.{CType, array, uint16, uint32, uint64, uint8, struct, ◌⨾◌, end}
use euthenia.Openflow.Structs.Actions.{ofp_action_header, ofp_instruction}

abbrev pub ofp_table_feature_prop_header : CType
ofp_table_feature_prop_header = struct (("type", uint16) ⨾ ("length", uint16) ⨾ end)

abbrev pub ofp_table_feature_prop_instructions : CType
ofp_table_feature_prop_instructions =
    struct
      (("type", uint16) ⨾ ("length", uint16) ⨾ ("instruction_ids", array ofp_instruction 0) ⨾ end)

abbrev pub ofp_table_feature_prop_next_tables : CType
ofp_table_feature_prop_next_tables =
    struct (("type", uint16) ⨾ ("length", uint16) ⨾ ("next_table_ids", array uint8 0) ⨾ end)

abbrev pub ofp_table_feature_prop_actions : CType
ofp_table_feature_prop_actions =
    struct (("type", uint16) ⨾ ("length", uint16) ⨾ ("action_ids", array ofp_action_header 0) ⨾ end)

abbrev pub ofp_table_feature_prop_oxm : CType
ofp_table_feature_prop_oxm =
    struct (("type", uint16) ⨾ ("length", uint16) ⨾ ("oxm_ids", array uint32 0) ⨾ end)

abbrev pub ofp_table_feature_prop_experimenter : CType
ofp_table_feature_prop_experimenter = struct (
    ("type", uint16)
    ⨾ ("length", uint16)
    ⨾ ("experimenter", uint32)
    ⨾ ("exp_type", uint32)
    ⨾ ("experimenter_data", array uint32 0)
    ⨾ end)

abbrev pub ofp_table_features : CType
ofp_table_features = struct (
    ("length", uint16)
    ⨾ ("table_id", uint8)
    ⨾ ("pad", array uint8 5)
    ⨾ ("name", array uint8 32)
    ⨾ ("metadata_match", uint64)
    ⨾ ("metadata_write", uint64)
    ⨾ ("config", uint32)
    ⨾ ("max_entries", uint32)
    ⨾ ("properties", array ofp_table_feature_prop_header 0)
    ⨾ end)

abbrev pub ofp_table_stats : CType
ofp_table_stats = struct (
    ("table_id", uint8)
    ⨾ ("pad", array uint8 3)
    ⨾ ("active_count", uint32)
    ⨾ ("lookup_count", uint64)
    ⨾ ("matched_count", uint64)
    ⨾ end)

abbrev pub ofp_port_stats_request : CType
ofp_port_stats_request = struct (("port_no", uint32) ⨾ ("pad", array uint8 4) ⨾ end)
