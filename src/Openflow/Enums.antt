-- ===== src/Openflow/Enums.antt =====
-- openflow.h: the enumerations, and where the messages carry their values.
pub mod Stored
pub mod Switch
pub mod Flow
pub mod Errors
pub mod Multipart
use euthenia.Prelude.{ℕ, List, Option, some}
use Prim.Native.String.{String}
use euthenia.Openflow.Layout.{member_size}
use Switch.{
  ofp_port_no, ofp_hello_elem_type, ofp_config_flags, ofp_table_config, ofp_table, ofp_capabilities,
  ofp_port_config, ofp_port_state, ofp_port_features, ofp_port_reason,
}
use Flow.{
  ofp_match_type, ofp_oxm_class, ofp_vlan_id, ofp_ipv6exthdr_flags, ofp_action_type,
  ofp_controller_max_len, ofp_instruction_type, ofp_flow_mod_command, ofp_flow_mod_flags, ofp_group,
  ofp_group_mod_command, ofp_group_type, ofp_packet_in_reason, ofp_flow_removed_reason, ofp_meter,
  ofp_meter_band_type, ofp_meter_mod_command, ofp_meter_flags,
}
use Errors.{
  ofp_error_type, ofp_hello_failed_code, ofp_bad_request_code, ofp_bad_action_code,
  ofp_bad_instruction_code, ofp_bad_match_code, ofp_flow_mod_failed_code, ofp_group_mod_failed_code,
  ofp_port_mod_failed_code, ofp_table_mod_failed_code, ofp_queue_op_failed_code,
  ofp_switch_config_failed_code, ofp_role_request_failed_code, ofp_meter_mod_failed_code,
  ofp_table_features_failed_code,
}
use Multipart.{
  ofp_multipart_type, ofp_multipart_request_flags, ofp_multipart_reply_flags,
  ofp_table_feature_prop_type, ofp_group_capabilities, ofp_queue_properties, ofp_controller_role,
}
use euthenia.Openflow.Structs.Ports.{
  ofp_hello_elem_header, ofp_port, ofp_port_status, ofp_switch_config, ofp_switch_features,
  ofp_table_mod,
}
use euthenia.Openflow.Structs.Flow.{ofp_flow_mod, ofp_flow_removed, ofp_group_mod, ofp_packet_in}
use euthenia.Openflow.Structs.Match.{ofp_match}
use euthenia.Openflow.Structs.Actions.{ofp_action_header, ofp_action_output, ofp_instruction}
use euthenia.Openflow.Structs.Meter.{ofp_error_msg, ofp_meter_band_header, ofp_meter_mod}
use euthenia.Openflow.Structs.Multipart.{ofp_multipart_reply, ofp_multipart_request}
use euthenia.Openflow.Structs.Tables.{ofp_table_feature_prop_header}
use euthenia.Openflow.Structs.Stats.{ofp_group_features}
use euthenia.Openflow.Structs.Queues.{ofp_queue_prop_header, ofp_role_request}

-- One member for each enumeration.
pub data OfpEnum : Type 0 where
  port_no : OfpEnum
  hello_elem_type : OfpEnum
  config_flags : OfpEnum
  table_config : OfpEnum
  table : OfpEnum
  capabilities : OfpEnum
  port_config : OfpEnum
  port_state : OfpEnum
  port_features : OfpEnum
  port_reason : OfpEnum
  match_type : OfpEnum
  oxm_class : OfpEnum
  vlan_id : OfpEnum
  ipv6exthdr_flags : OfpEnum
  action_type : OfpEnum
  controller_max_len : OfpEnum
  instruction_type : OfpEnum
  flow_mod_command : OfpEnum
  flow_mod_flags : OfpEnum
  group : OfpEnum
  group_mod_command : OfpEnum
  group_type : OfpEnum
  packet_in_reason : OfpEnum
  flow_removed_reason : OfpEnum
  meter : OfpEnum
  meter_band_type : OfpEnum
  meter_mod_command : OfpEnum
  meter_flags : OfpEnum
  error_type : OfpEnum
  hello_failed_code : OfpEnum
  bad_request_code : OfpEnum
  bad_action_code : OfpEnum
  bad_instruction_code : OfpEnum
  bad_match_code : OfpEnum
  flow_mod_failed_code : OfpEnum
  group_mod_failed_code : OfpEnum
  port_mod_failed_code : OfpEnum
  table_mod_failed_code : OfpEnum
  queue_op_failed_code : OfpEnum
  switch_config_failed_code : OfpEnum
  role_request_failed_code : OfpEnum
  meter_mod_failed_code : OfpEnum
  table_features_failed_code : OfpEnum
  multipart_type : OfpEnum
  multipart_request_flags : OfpEnum
  multipart_reply_flags : OfpEnum
  table_feature_prop_type : OfpEnum
  group_capabilities : OfpEnum
  queue_properties : OfpEnum
  controller_role : OfpEnum

unfoldable pub enumerators : OfpEnum → List (String × ℕ)
enumerators port_no = ofp_port_no
enumerators hello_elem_type = ofp_hello_elem_type
enumerators config_flags = ofp_config_flags
enumerators table_config = ofp_table_config
enumerators table = ofp_table
enumerators capabilities = ofp_capabilities
enumerators port_config = ofp_port_config
enumerators port_state = ofp_port_state
enumerators port_features = ofp_port_features
enumerators port_reason = ofp_port_reason
enumerators match_type = ofp_match_type
enumerators oxm_class = ofp_oxm_class
enumerators vlan_id = ofp_vlan_id
enumerators ipv6exthdr_flags = ofp_ipv6exthdr_flags
enumerators action_type = ofp_action_type
enumerators controller_max_len = ofp_controller_max_len
enumerators instruction_type = ofp_instruction_type
enumerators flow_mod_command = ofp_flow_mod_command
enumerators flow_mod_flags = ofp_flow_mod_flags
enumerators group = ofp_group
enumerators group_mod_command = ofp_group_mod_command
enumerators group_type = ofp_group_type
enumerators packet_in_reason = ofp_packet_in_reason
enumerators flow_removed_reason = ofp_flow_removed_reason
enumerators meter = ofp_meter
enumerators meter_band_type = ofp_meter_band_type
enumerators meter_mod_command = ofp_meter_mod_command
enumerators meter_flags = ofp_meter_flags
enumerators error_type = ofp_error_type
enumerators hello_failed_code = ofp_hello_failed_code
enumerators bad_request_code = ofp_bad_request_code
enumerators bad_action_code = ofp_bad_action_code
enumerators bad_instruction_code = ofp_bad_instruction_code
enumerators bad_match_code = ofp_bad_match_code
enumerators flow_mod_failed_code = ofp_flow_mod_failed_code
enumerators group_mod_failed_code = ofp_group_mod_failed_code
enumerators port_mod_failed_code = ofp_port_mod_failed_code
enumerators table_mod_failed_code = ofp_table_mod_failed_code
enumerators queue_op_failed_code = ofp_queue_op_failed_code
enumerators switch_config_failed_code = ofp_switch_config_failed_code
enumerators role_request_failed_code = ofp_role_request_failed_code
enumerators meter_mod_failed_code = ofp_meter_mod_failed_code
enumerators table_features_failed_code = ofp_table_features_failed_code
enumerators multipart_type = ofp_multipart_type
enumerators multipart_request_flags = ofp_multipart_request_flags
enumerators multipart_reply_flags = ofp_multipart_reply_flags
enumerators table_feature_prop_type = ofp_table_feature_prop_type
enumerators group_capabilities = ofp_group_capabilities
enumerators queue_properties = ofp_queue_properties
enumerators controller_role = ofp_controller_role

-- How many bytes the messages have for a value: those of the member that the comments name, of the code of an error, or
-- of the class or the field of a match.
unfoldable pub bytes_for : OfpEnum → Option ℕ
unfolding member_size
bytes_for port_no = member_size ofp_port "port_no"
bytes_for hello_elem_type = member_size ofp_hello_elem_header "type"
bytes_for config_flags = member_size ofp_switch_config "flags"
bytes_for table_config = member_size ofp_table_mod "config"
bytes_for table = member_size ofp_flow_mod "table_id"
bytes_for capabilities = member_size ofp_switch_features "capabilities"
bytes_for port_config = member_size ofp_port "config"
bytes_for port_state = member_size ofp_port "state"
bytes_for port_features = member_size ofp_port "curr"
bytes_for port_reason = member_size ofp_port_status "reason"
bytes_for match_type = member_size ofp_match "type"
bytes_for oxm_class = some 2
bytes_for vlan_id = some 2
bytes_for ipv6exthdr_flags = some 2
bytes_for action_type = member_size ofp_action_header "type"
bytes_for controller_max_len = member_size ofp_action_output "max_len"
bytes_for instruction_type = member_size ofp_instruction "type"
bytes_for flow_mod_command = member_size ofp_flow_mod "command"
bytes_for flow_mod_flags = member_size ofp_flow_mod "flags"
bytes_for group = member_size ofp_group_mod "group_id"
bytes_for group_mod_command = member_size ofp_group_mod "command"
bytes_for group_type = member_size ofp_group_mod "type"
bytes_for packet_in_reason = member_size ofp_packet_in "reason"
bytes_for flow_removed_reason = member_size ofp_flow_removed "reason"
bytes_for meter = member_size ofp_meter_mod "meter_id"
bytes_for meter_band_type = member_size ofp_meter_band_header "type"
bytes_for meter_mod_command = member_size ofp_meter_mod "command"
bytes_for meter_flags = member_size ofp_meter_mod "flags"
bytes_for error_type = member_size ofp_error_msg "type"
bytes_for hello_failed_code = member_size ofp_error_msg "code"
bytes_for bad_request_code = member_size ofp_error_msg "code"
bytes_for bad_action_code = member_size ofp_error_msg "code"
bytes_for bad_instruction_code = member_size ofp_error_msg "code"
bytes_for bad_match_code = member_size ofp_error_msg "code"
bytes_for flow_mod_failed_code = member_size ofp_error_msg "code"
bytes_for group_mod_failed_code = member_size ofp_error_msg "code"
bytes_for port_mod_failed_code = member_size ofp_error_msg "code"
bytes_for table_mod_failed_code = member_size ofp_error_msg "code"
bytes_for queue_op_failed_code = member_size ofp_error_msg "code"
bytes_for switch_config_failed_code = member_size ofp_error_msg "code"
bytes_for role_request_failed_code = member_size ofp_error_msg "code"
bytes_for meter_mod_failed_code = member_size ofp_error_msg "code"
bytes_for table_features_failed_code = member_size ofp_error_msg "code"
bytes_for multipart_type = member_size ofp_multipart_request "type"
bytes_for multipart_request_flags = member_size ofp_multipart_request "flags"
bytes_for multipart_reply_flags = member_size ofp_multipart_reply "flags"
bytes_for table_feature_prop_type = member_size ofp_table_feature_prop_header "type"
bytes_for group_capabilities = member_size ofp_group_features "capabilities"
bytes_for queue_properties = member_size ofp_queue_prop_header "property"
bytes_for controller_role = member_size ofp_role_request "role"
