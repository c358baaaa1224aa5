-- ===== src/Openflow/Enums/Errors.antt =====
-- openflow.h: the enumerations of errors, each as its enumerators with their values.
use euthenia.Prelude.{ℕ, List, [], ◌∷◌}
use Prim.Native.String.{String}

abbrev pub ofp_error_type : List (String × ℕ)
ofp_error_type =
    ("OFPET_HELLO_FAILED", 0)
    ∷ ("OFPET_BAD_REQUEST", 1)
    ∷ ("OFPET_BAD_ACTION", 2)
    ∷ ("OFPET_BAD_INSTRUCTION", 3)
    ∷ ("OFPET_BAD_MATCH", 4)
    ∷ ("OFPET_FLOW_MOD_FAILED", 5)
    ∷ ("OFPET_GROUP_MOD_FAILED", 6)
    ∷ ("OFPET_PORT_MOD_FAILED", 7)
    ∷ ("OFPET_TABLE_MOD_FAILED", 8)
    ∷ ("OFPET_QUEUE_OP_FAILED", 9)
    ∷ ("OFPET_SWITCH_CONFIG_FAILED", 10)
    ∷ ("OFPET_ROLE_REQUEST_FAILED", 11)
    ∷ ("OFPET_METER_MOD_FAILED", 12)
    ∷ ("OFPET_TABLE_FEATURES_FAILED", 13)
    ∷ ("OFPET_EXPERIMENTER", 0xffff)
    ∷ []

abbrev pub ofp_hello_failed_code : List (String × ℕ)
ofp_hello_failed_code = ("OFPHFC_INCOMPATIBLE", 0) ∷ ("OFPHFC_EPERM", 1) ∷ []

abbrev pub ofp_bad_request_code : List (String × ℕ)
ofp_bad_request_code =
    ("OFPBRC_BAD_VERSION", 0)
    ∷ ("OFPBRC_BAD_TYPE", 1)
    ∷ ("OFPBRC_BAD_MULTIPART", 2)
    ∷ ("OFPBRC_BAD_EXPERIMENTER", 3)
    ∷ ("OFPBRC_BAD_EXP_TYPE", 4)
    ∷ ("OFPBRC_EPERM", 5)
    ∷ ("OFPBRC_BAD_LEN", 6)
    ∷ ("OFPBRC_BUFFER_EMPTY", 7)
    ∷ ("OFPBRC_BUFFER_UNKNOWN", 8)
    ∷ ("OFPBRC_BAD_TABLE_ID", 9)
    ∷ ("OFPBRC_IS_SLAVE", 10)
    ∷ ("OFPBRC_BAD_PORT", 11)
    ∷ ("OFPBRC_BAD_PACKET", 12)
    ∷ ("OFPBRC_MULTIPART_BUFFER_OVERFLOW", 13)
    ∷ []

abbrev pub ofp_bad_action_code : List (String × ℕ)
ofp_bad_action_code =
    ("OFPBAC_BAD_TYPE", 0)
    ∷ ("OFPBAC_BAD_LEN", 1)
    ∷ ("OFPBAC_BAD_EXPERIMENTER", 2)
    ∷ ("OFPBAC_BAD_EXP_TYPE", 3)
    ∷ ("OFPBAC_BAD_OUT_PORT", 4)
    ∷ ("OFPBAC_BAD_ARGUMENT", 5)
    ∷ ("OFPBAC_EPERM", 6)
    ∷ ("OFPBAC_TOO_MANY", 7)
    ∷ ("OFPBAC_BAD_QUEUE", 8)
    ∷ ("OFPBAC_BAD_OUT_GROUP", 9)
    ∷ ("OFPBAC_MATCH_INCONSISTENT", 10)
    ∷ ("OFPBAC_UNSUPPORTED_ORDER", 11)
    ∷ ("OFPBAC_BAD_TAG", 12)
    ∷ ("OFPBAC_BAD_SET_TYPE", 13)
    ∷ ("OFPBAC_BAD_SET_LEN", 14)
    ∷ ("OFPBAC_BAD_SET_ARGUMENT", 15)
    ∷ []

abbrev pub ofp_bad_instruction_code : List (String × ℕ)
ofp_bad_instruction_code =
    ("OFPBIC_UNKNOWN_INST", 0)
    ∷ ("OFPBIC_UNSUP_INST", 1)
    ∷ ("OFPBIC_BAD_TABLE_ID", 2)
    ∷ ("OFPBIC_UNSUP_METADATA", 3)
    ∷ ("OFPBIC_UNSUP_METADATA_MASK", 4)
    ∷ ("OFPBIC_BAD_EXPERIMENTER", 5)
    ∷ ("OFPBIC_BAD_EXP_TYPE", 6)
    ∷ ("OFPBIC_BAD_LEN", 7)
    ∷ ("OFPBIC_EPERM", 8)
    ∷ []

abbrev pub ofp_bad_match_code : List (String × ℕ)
ofp_bad_match_code =
    ("OFPBMC_BAD_TYPE", 0)
    ∷ ("OFPBMC_BAD_LEN", 1)
    ∷ ("OFPBMC_BAD_TAG", 2)
    ∷ ("OFPBMC_BAD_DL_ADDR_MASK", 3)
    ∷ ("OFPBMC_BAD_NW_ADDR_MASK", 4)
    ∷ ("OFPBMC_BAD_WILDCARDS", 5)
    ∷ ("OFPBMC_BAD_FIELD", 6)
    ∷ ("OFPBMC_BAD_VALUE", 7)
    ∷ ("OFPBMC_BAD_MASK", 8)
    ∷ ("OFPBMC_BAD_PREREQ", 9)
    ∷ ("OFPBMC_DUP_FIELD", 10)
    ∷ ("OFPBMC_EPERM", 11)
    ∷ []

abbrev pub ofp_flow_mod_failed_code : List (String × ℕ)
ofp_flow_mod_failed_code =
    ("OFPFMFC_UNKNOWN", 0)
    ∷ ("OFPFMFC_TABLE_FULL", 1)
    ∷ ("OFPFMFC_BAD_TABLE_ID", 2)
    ∷ ("OFPFMFC_OVERLAP", 3)
    ∷ ("OFPFMFC_EPERM", 4)
    ∷ ("OFPFMFC_BAD_TIMEOUT", 5)
    ∷ ("OFPFMFC_BAD_COMMAND", 6)
    ∷ ("OFPFMFC_BAD_FLAGS", 7)
    ∷ []

abbrev pub ofp_group_mod_failed_code : List (String × ℕ)
ofp_group_mod_failed_code =
    ("OFPGMFC_GROUP_EXISTS", 0)
    ∷ ("OFPGMFC_INVALID_GROUP", 1)
    ∷ ("OFPGMFC_WEIGHT_UNSUPPORTED", 2)
    ∷ ("OFPGMFC_OUT_OF_GROUPS", 3)
    ∷ ("OFPGMFC_OUT_OF_BUCKETS", 4)
    ∷ ("OFPGMFC_CHAINING_UNSUPPORTED", 5)
    ∷ ("OFPGMFC_WATCH_UNSUPPORTED", 6)
    ∷ ("OFPGMFC_LOOP", 7)
    ∷ ("OFPGMFC_UNKNOWN_GROUP", 8)
    ∷ ("OFPGMFC_CHAINED_GROUP", 9)
    ∷ ("OFPGMFC_BAD_TYPE", 10)
    ∷ ("OFPGMFC_BAD_COMMAND", 11)
    ∷ ("OFPGMFC_BAD_BUCKET", 12)
    ∷ ("OFPGMFC_BAD_WATCH", 13)
    ∷ ("OFPGMFC_EPERM", 14)
    ∷ []

abbrev pub ofp_port_mod_failed_code : List (String × ℕ)
ofp_port_mod_failed_code =
    ("OFPPMFC_BAD_PORT", 0)
    ∷ ("OFPPMFC_BAD_HW_ADDR", 1)
    ∷ ("OFPPMFC_BAD_CONFIG", 2)
    ∷ ("OFPPMFC_BAD_ADVERTISE", 3)
    ∷ ("OFPPMFC_EPERM", 4)
    ∷ []

abbrev pub ofp_table_mod_failed_code : List (String × ℕ)
ofp_table_mod_failed_code =
    ("OFPTMFC_BAD_TABLE", 0) ∷ ("OFPTMFC_BAD_CONFIG", 1) ∷ ("OFPTMFC_EPERM", 2) ∷ []

abbrev pub ofp_queue_op_failed_code : List (String × ℕ)
ofp_queue_op_failed_code =
    ("OFPQOFC_BAD_PORT", 0) ∷ ("OFPQOFC_BAD_QUEUE", 1) ∷ ("OFPQOFC_EPERM", 2) ∷ []

abbrev pub ofp_switch_config_failed_code : List (String × ℕ)
ofp_switch_config_failed_code =
    ("OFPSCFC_BAD_FLAGS", 0) ∷ ("OFPSCFC_BAD_LEN", 1) ∷ ("OFPSCFC_EPERM", 2) ∷ []

abbrev pub ofp_role_request_failed_code : List (String × ℕ)
ofp_role_request_failed_code =
    ("OFPRRFC_STALE", 0) ∷ ("OFPRRFC_UNSUP", 1) ∷ ("OFPRRFC_BAD_ROLE", 2) ∷ []

abbrev pub ofp_meter_mod_failed_code : List (String × ℕ)
ofp_meter_mod_failed_code =
    ("OFPMMFC_UNKNOWN", 0)
    ∷ ("OFPMMFC_METER_EXISTS", 1)
    ∷ ("OFPMMFC_INVALID_METER", 2)
    ∷ ("OFPMMFC_UNKNOWN_METER", 3)
    ∷ ("OFPMMFC_BAD_COMMAND", 4)
    ∷ ("OFPMMFC_BAD_FLAGS", 5)
    ∷ ("OFPMMFC_BAD_RATE", 6)
    ∷ ("OFPMMFC_BAD_BURST", 7)
    ∷ ("OFPMMFC_BAD_BAND", 8)
    ∷ ("OFPMMFC_BAD_BAND_VALUE", 9)
    ∷ ("OFPMMFC_OUT_OF_METERS", 10)
    ∷ ("OFPMMFC_OUT_OF_BANDS", 11)
    ∷ []

abbrev pub ofp_table_features_failed_code : List (String × ℕ)
ofp_table_features_failed_code =
    ("OFPTFFC_BAD_TABLE", 0)
    ∷ ("OFPTFFC_BAD_METADATA", 1)
    ∷ ("OFPTFFC_BAD_TYPE", 2)
    ∷ ("OFPTFFC_BAD_LEN", 3)
    ∷ ("OFPTFFC_BAD_ARGUMENT", 4)
    ∷ ("OFPTFFC_EPERM", 5)
    ∷ []
