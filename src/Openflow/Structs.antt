-- ===== src/Openflow/Structs.antt =====
-- The structures of openflow.h, named by the members of one type.
pub mod Ports
pub mod Match
pub mod Actions
pub mod Flow
pub mod Meter
pub mod Multipart
pub mod Tables
pub mod Stats
pub mod Queues
use euthenia.Openflow.Layout.{CType}
use Ports.{
  ofp_header, ofp_hello_elem_header, ofp_hello_elem_versionbitmap, ofp_hello, ofp_switch_config,
  ofp_table_mod, ofp_port, ofp_switch_features, ofp_port_status, ofp_port_mod,
}
use Match.{ofp_match, ofp_oxm_experimenter_header}
use Actions.{
  ofp_action_header, ofp_action_output, ofp_action_mpls_ttl, ofp_action_push, ofp_action_pop_mpls,
  ofp_action_group, ofp_action_nw_ttl, ofp_action_set_field, ofp_action_experimenter_header,
  ofp_instruction, ofp_instruction_goto_table, ofp_instruction_write_metadata,
  ofp_instruction_actions, ofp_instruction_meter, ofp_instruction_experimenter,
}
use Flow.{ofp_flow_mod, ofp_bucket, ofp_group_mod, ofp_packet_out, ofp_packet_in, ofp_flow_removed}
use Meter.{
  ofp_meter_band_header, ofp_meter_band_drop, ofp_meter_band_dscp_remark,
  ofp_meter_band_experimenter, ofp_meter_mod, ofp_error_msg, ofp_error_experimenter_msg,
}
use Multipart.{
  ofp_multipart_request, ofp_multipart_reply, ofp_desc, ofp_flow_stats_request, ofp_flow_stats,
  ofp_aggregate_stats_request, ofp_aggregate_stats_reply,
}
use Tables.{
  ofp_table_feature_prop_header, ofp_table_feature_prop_instructions,
  ofp_table_feature_prop_next_tables, ofp_table_feature_prop_actions, ofp_table_feature_prop_oxm,
  ofp_table_feature_prop_experimenter, ofp_table_features, ofp_table_stats, ofp_port_stats_request,
}
use Stats.{
  ofp_port_stats, ofp_group_stats_request, ofp_bucket_counter, ofp_group_stats, ofp_group_desc,
  ofp_group_features, ofp_meter_multipart_request, ofp_meter_band_stats, ofp_meter_stats,
  ofp_meter_config, ofp_meter_features, ofp_experimenter_multipart_header, ofp_experimenter_header,
}
use Queues.{
  ofp_queue_prop_header, ofp_queue_prop_min_rate, ofp_queue_prop_max_rate,
  ofp_queue_prop_experimenter, ofp_packet_queue, ofp_queue_get_config_request,
  ofp_queue_get_config_reply, ofp_action_set_queue, ofp_queue_stats_request, ofp_queue_stats,
  ofp_role_request, ofp_async_config,
}

-- One constructor for each structure of the header.
pub data OfpStruct : Type 0 where
  header hello_elem_header hello_elem_versionbitmap hello switch_config table_mod : OfpStruct
  port switch_features port_status port_mod match oxm_experimenter_header : OfpStruct
  action_header action_output action_mpls_ttl action_push action_pop_mpls : OfpStruct
  action_group action_nw_ttl action_set_field action_experimenter_header instruction : OfpStruct
  instruction_goto_table instruction_write_metadata instruction_actions : OfpStruct
  instruction_meter instruction_experimenter flow_mod bucket group_mod packet_out : OfpStruct
  packet_in flow_removed meter_band_header meter_band_drop meter_band_dscp_remark : OfpStruct
  meter_band_experimenter meter_mod error_msg error_experimenter_msg : OfpStruct
  multipart_request multipart_reply desc flow_stats_request flow_stats : OfpStruct
  aggregate_stats_request aggregate_stats_reply table_feature_prop_header : OfpStruct
  table_feature_prop_instructions table_feature_prop_next_tables : OfpStruct
  table_feature_prop_actions table_feature_prop_oxm table_feature_prop_experimenter : OfpStruct
  table_features table_stats port_stats_request port_stats group_stats_request : OfpStruct
  bucket_counter group_stats group_desc group_features meter_multipart_request : OfpStruct
  meter_band_stats meter_stats meter_config meter_features : OfpStruct
  experimenter_multipart_header experimenter_header queue_prop_header : OfpStruct
  queue_prop_min_rate queue_prop_max_rate queue_prop_experimenter packet_queue : OfpStruct
  queue_get_config_request queue_get_config_reply action_set_queue : OfpStruct
  queue_stats_request queue_stats role_request async_config : OfpStruct

unfoldable pub layout : OfpStruct → CType
layout header = ofp_header
layout hello_elem_header = ofp_hello_elem_header
layout hello_elem_versionbitmap = ofp_hello_elem_versionbitmap
layout hello = ofp_hello
layout switch_config = ofp_switch_config
layout table_mod = ofp_table_mod
layout port = ofp_port
layout switch_features = ofp_switch_features
layout port_status = ofp_port_status
layout port_mod = ofp_port_mod
layout match = ofp_match
layout oxm_experimenter_header = ofp_oxm_experimenter_header
layout action_header = ofp_action_header
layout action_output = ofp_action_output
layout action_mpls_ttl = ofp_action_mpls_ttl
layout action_push = ofp_action_push
layout action_pop_mpls = ofp_action_pop_mpls
layout action_group = ofp_action_group
layout action_nw_ttl = ofp_action_nw_ttl
layout action_set_field = ofp_action_set_field
layout action_experimenter_header = ofp_action_experimenter_header
layout instruction = ofp_instruction
layout instruction_goto_table = ofp_instruction_goto_table
layout instruction_write_metadata = ofp_instruction_write_metadata
layout instruction_actions = ofp_instruction_actions
layout instruction_meter = ofp_instruction_meter
layout instruction_experimenter = ofp_instruction_experimenter
layout flow_mod = ofp_flow_mod
layout bucket = ofp_bucket
layout group_mod = ofp_group_mod
layout packet_out = ofp_packet_out
layout packet_in = ofp_packet_in
layout flow_removed = ofp_flow_removed
layout meter_band_header = ofp_meter_band_header
layout meter_band_drop = ofp_meter_band_drop
layout meter_band_dscp_remark = ofp_meter_band_dscp_remark
layout meter_band_experimenter = ofp_meter_band_experimenter
layout meter_mod = ofp_meter_mod
layout error_msg = ofp_error_msg
layout error_experimenter_msg = ofp_error_experimenter_msg
layout multipart_request = ofp_multipart_request
layout multipart_reply = ofp_multipart_reply
layout desc = ofp_desc
layout flow_stats_request = ofp_flow_stats_request
layout flow_stats = ofp_flow_stats
layout aggregate_stats_request = ofp_aggregate_stats_request
layout aggregate_stats_reply = ofp_aggregate_stats_reply
layout table_feature_prop_header = ofp_table_feature_prop_header
layout table_feature_prop_instructions = ofp_table_feature_prop_instructions
layout table_feature_prop_next_tables = ofp_table_feature_prop_next_tables
layout table_feature_prop_actions = ofp_table_feature_prop_actions
layout table_feature_prop_oxm = ofp_table_feature_prop_oxm
layout table_feature_prop_experimenter = ofp_table_feature_prop_experimenter
layout table_features = ofp_table_features
layout table_stats = ofp_table_stats
layout port_stats_request = ofp_port_stats_request
layout port_stats = ofp_port_stats
layout group_stats_request = ofp_group_stats_request
layout bucket_counter = ofp_bucket_counter
layout group_stats = ofp_group_stats
layout group_desc = ofp_group_desc
layout group_features = ofp_group_features
layout meter_multipart_request = ofp_meter_multipart_request
layout meter_band_stats = ofp_meter_band_stats
layout meter_stats = ofp_meter_stats
layout meter_config = ofp_meter_config
layout meter_features = ofp_meter_features
layout experimenter_multipart_header = ofp_experimenter_multipart_header
layout experimenter_header = ofp_experimenter_header
layout queue_prop_header = ofp_queue_prop_header
layout queue_prop_min_rate = ofp_queue_prop_min_rate
layout queue_prop_max_rate = ofp_queue_prop_max_rate
layout queue_prop_experimenter = ofp_queue_prop_experimenter
layout packet_queue = ofp_packet_queue
layout queue_get_config_request = ofp_queue_get_config_request
layout queue_get_config_reply = ofp_queue_get_config_reply
layout action_set_queue = ofp_action_set_queue
layout queue_stats_request = ofp_queue_stats_request
layout queue_stats = ofp_queue_stats
layout role_request = ofp_role_request
layout async_config = ofp_async_config
