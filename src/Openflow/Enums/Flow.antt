-- ===== src/Openflow/Enums/Flow.antt =====
-- openflow.h: the enumerations of matches, actions, instructions, flows, groups and meters, each as its enumerators with their values.
use euthenia.Prelude.{ℕ, ◌^◌, List, [], ◌∷◌}
use Prim.Native.String.{String}

abbrev pub ofp_match_type : List (String × ℕ)
ofp_match_type = ("OFPMT_STANDARD", 0) ∷ ("OFPMT_OXM", 1) ∷ []

abbrev pub ofp_oxm_class : List (String × ℕ)
ofp_oxm_class =
    ("OFPXMC_NXM_0", 0x0000)
    ∷ ("OFPXMC_NXM_1", 0x0001)
    ∷ ("OFPXMC_OPENFLOW_BASIC", 0x8000)
    ∷ ("OFPXMC_EXPERIMENTER", 0xffff)
    ∷ []

abbrev pub ofp_vlan_id : List (String × ℕ)
ofp_vlan_id = ("OFPVID_PRESENT", 0x1000) ∷ ("OFPVID_NONE", 0x0000) ∷ []

abbrev pub ofp_ipv6exthdr_flags : List (String × ℕ)
ofp_ipv6exthdr_flags =
    ("OFPIEH_NONEXT", 2 ^ 0)
    ∷ ("OFPIEH_ESP", 2 ^ 1)
    ∷ ("OFPIEH_AUTH", 2 ^ 2)
    ∷ ("OFPIEH_DEST", 2 ^ 3)
    ∷ ("OFPIEH_FRAG", 2 ^ 4)
    ∷ ("OFPIEH_ROUTER", 2 ^ 5)
    ∷ ("OFPIEH_HOP", 2 ^ 6)
    ∷ ("OFPIEH_UNREP", 2 ^ 7)
    ∷ ("OFPIEH_UNSEQ", 2 ^ 8)
    ∷ []

abbrev pub ofp_action_type : List (String × ℕ)
ofp_action_type =
    ("OFPAT_OUTPUT", 0)
    ∷ ("OFPAT_COPY_TTL_OUT", 11)
    ∷ ("OFPAT_COPY_TTL_IN", 12)
    ∷ ("OFPAT_SET_MPLS_TTL", 15)
    ∷ ("OFPAT_DEC_MPLS_TTL", 16)
    ∷ ("OFPAT_PUSH_VLAN", 17)
    ∷ ("OFPAT_POP_VLAN", 18)
    ∷ ("OFPAT_PUSH_MPLS", 19)
    ∷ ("OFPAT_POP_MPLS", 20)
    ∷ ("OFPAT_SET_QUEUE", 21)
    ∷ ("OFPAT_GROUP", 22)
    ∷ ("OFPAT_SET_NW_TTL", 23)
    ∷ ("OFPAT_DEC_NW_TTL", 24)
    ∷ ("OFPAT_SET_FIELD", 25)
    ∷ ("OFPAT_PUSH_PBB", 26)
    ∷ ("OFPAT_POP_PBB", 27)
    ∷ ("OFPAT_EXPERIMENTER", 0xffff)
    ∷ []

abbrev pub ofp_controller_max_len : List (String × ℕ)
ofp_controller_max_len = ("OFPCML_MAX", 0xffe5) ∷ ("OFPCML_NO_BUFFER", 0xffff) ∷ []

abbrev pub ofp_instruction_type : List (String × ℕ)
ofp_instruction_type =
    ("OFPIT_GOTO_TABLE", 1)
    ∷ ("OFPIT_WRITE_METADATA", 2)
    ∷ ("OFPIT_WRITE_ACTIONS", 3)
    ∷ ("OFPIT_APPLY_ACTIONS", 4)
    ∷ ("OFPIT_CLEAR_ACTIONS", 5)
    ∷ ("OFPIT_METER", 6)
    ∷ ("OFPIT_EXPERIMENTER", 0xffff)
    ∷ []

abbrev pub ofp_flow_mod_command : List (String × ℕ)
ofp_flow_mod_command =
    ("OFPFC_ADD", 0)
    ∷ ("OFPFC_MODIFY", 1)
    ∷ ("OFPFC_MODIFY_STRICT", 2)
    ∷ ("OFPFC_DELETE", 3)
    ∷ ("OFPFC_DELETE_STRICT", 4)
    ∷ []

abbrev pub ofp_flow_mod_flags : List (String × ℕ)
ofp_flow_mod_flags =
    ("OFPFF_SEND_FLOW_REM", 2 ^ 0)
    ∷ ("OFPFF_CHECK_OVERLAP", 2 ^ 1)
    ∷ ("OFPFF_RESET_COUNTS", 2 ^ 2)
    ∷ ("OFPFF_NO_PKT_COUNTS", 2 ^ 3)
    ∷ ("OFPFF_NO_BYT_COUNTS", 2 ^ 4)
    ∷ []

abbrev pub ofp_group : List (String × ℕ)
ofp_group = ("OFPG_MAX", 0xffffff00) ∷ ("OFPG_ALL", 0xfffffffc) ∷ ("OFPG_ANY", 0xffffffff) ∷ []

abbrev pub ofp_group_mod_command : List (String × ℕ)
ofp_group_mod_command = ("OFPGC_ADD", 0) ∷ ("OFPGC_MODIFY", 1) ∷ ("OFPGC_DELETE", 2) ∷ []

abbrev pub ofp_group_type : List (String × ℕ)
ofp_group_type =
    ("OFPGT_ALL", 0) ∷ ("OFPGT_SELECT", 1) ∷ ("OFPGT_INDIRECT", 2) ∷ ("OFPGT_FF", 3) ∷ []

abbrev pub ofp_packet_in_reason : List (String × ℕ)
ofp_packet_in_reason = ("OFPR_NO_MATCH", 0) ∷ ("OFPR_ACTION", 1) ∷ ("OFPR_INVALID_TTL", 2) ∷ []

abbrev pub ofp_flow_removed_reason : List (String × ℕ)
ofp_flow_removed_reason =
    ("OFPRR_IDLE_TIMEOUT", 0)
    ∷ ("OFPRR_HARD_TIMEOUT", 1)
    ∷ ("OFPRR_DELETE", 2)
    ∷ ("OFPRR_GROUP_DELETE", 3)
    ∷ []

abbrev pub ofp_meter : List (String × ℕ)
ofp_meter =
    ("OFPM_MAX", 0xffff0000)
    ∷ ("OFPM_SLOWPATH", 0xfffffffd)
    ∷ ("OFPM_CONTROLLER", 0xfffffffe)
    ∷ ("OFPM_ALL", 0xffffffff)
    ∷ []

abbrev pub ofp_meter_band_type : List (String × ℕ)
ofp_meter_band_type =
    ("OFPMBT_DROP", 1) ∷ ("OFPMBT_DSCP_REMARK", 2) ∷ ("OFPMBT_EXPERIMENTER", 0xffff) ∷ []

abbrev pub ofp_meter_mod_command : List (String × ℕ)
ofp_meter_mod_command = ("OFPMC_ADD", 0) ∷ ("OFPMC_MODIFY", 1) ∷ ("OFPMC_DELETE", 2) ∷ []

abbrev pub ofp_meter_flags : List (String × ℕ)
ofp_meter_flags =
    ("OFPMF_KBPS", 2 ^ 0)
    ∷ ("OFPMF_PKTPS", 2 ^ 1)
    ∷ ("OFPMF_BURST", 2 ^ 2)
    ∷ ("OFPMF_STATS", 2 ^ 3)
    ∷ []
