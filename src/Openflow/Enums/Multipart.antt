-- ===== src/Openflow/Enums/Multipart.antt =====
-- openflow.h: the enumerations of multipart messages, queues and roles, each as its enumerators with their values.
use euthenia.Prelude.{ℕ, ◌^◌, List, [], ◌∷◌}
use Prim.Native.String.{String}

abbrev pub ofp_multipart_type : List (String × ℕ)
ofp_multipart_type =
    ("OFPMP_DESC", 0)
    ∷ ("OFPMP_FLOW", 1)
    ∷ ("OFPMP_AGGREGATE", 2)
    ∷ ("OFPMP_TABLE", 3)
    ∷ ("OFPMP_PORT_STATS", 4)
    ∷ ("OFPMP_QUEUE", 5)
    ∷ ("OFPMP_GROUP", 6)
    ∷ ("OFPMP_GROUP_DESC", 7)
    ∷ ("OFPMP_GROUP_FEATURES", 8)
    ∷ ("OFPMP_METER", 9)
    ∷ ("OFPMP_METER_CONFIG", 10)
    ∷ ("OFPMP_METER_FEATURES", 11)
    ∷ ("OFPMP_TABLE_FEATURES", 12)
    ∷ ("OFPMP_PORT_DESC", 13)
    ∷ ("OFPMP_EXPERIMENTER", 0xffff)
    ∷ []

abbrev pub ofp_multipart_request_flags : List (String × ℕ)
ofp_multipart_request_flags = ("OFPMPF_REQ_MORE", 2 ^ 0) ∷ []

abbrev pub ofp_multipart_reply_flags : List (String × ℕ)
ofp_multipart_reply_flags = ("OFPMPF_REPLY_MORE", 2 ^ 0) ∷ []

abbrev pub ofp_table_feature_prop_type : List (String × ℕ)
ofp_table_feature_prop_type =
    ("OFPTFPT_INSTRUCTIONS", 0)
    ∷ ("OFPTFPT_INSTRUCTIONS_MISS", 1)
    ∷ ("OFPTFPT_NEXT_TABLES", 2)
    ∷ ("OFPTFPT_NEXT_TABLES_MISS", 3)
    ∷ ("OFPTFPT_WRITE_ACTIONS", 4)
    ∷ ("OFPTFPT_WRITE_ACTIONS_MISS", 5)
    ∷ ("OFPTFPT_APPLY_ACTIONS", 6)
    ∷ ("OFPTFPT_APPLY_ACTIONS_MISS", 7)
    ∷ ("OFPTFPT_MATCH", 8)
    ∷ ("OFPTFPT_WILDCARDS", 10)
    ∷ ("OFPTFPT_WRITE_SETFIELD", 12)
    ∷ ("OFPTFPT_WRITE_SETFIELD_MISS", 13)
    ∷ ("OFPTFPT_APPLY_SETFIELD", 14)
    ∷ ("OFPTFPT_APPLY_SETFIELD_MISS", 15)
    ∷ ("OFPTFPT_EXPERIMENTER", 0xfffe)
    ∷ ("OFPTFPT_EXPERIMENTER_MISS", 0xffff)
    ∷ []

abbrev pub ofp_group_capabilities : List (String × ℕ)
ofp_group_capabilities =
    ("OFPGFC_SELECT_WEIGHT", 2 ^ 0)
    ∷ ("OFPGFC_SELECT_LIVENESS", 2 ^ 1)
    ∷ ("OFPGFC_CHAINING", 2 ^ 2)
    ∷ ("OFPGFC_CHAINING_CHECKS", 2 ^ 3)
    ∷ []

abbrev pub ofp_queue_properties : List (String × ℕ)
ofp_queue_properties =
    ("OFPQT_MIN_RATE", 1) ∷ ("OFPQT_MAX_RATE", 2) ∷ ("OFPQT_EXPERIMENTER", 0xffff) ∷ []

abbrev pub ofp_controller_role : List (String × ℕ)
ofp_controller_role =
    ("OFPCR_ROLE_NOCHANGE", 0)
    ∷ ("OFPCR_ROLE_EQUAL", 1)
    ∷ ("OFPCR_ROLE_MASTER", 2)
    ∷ ("OFPCR_ROLE_SLAVE", 3)
    ∷ []
