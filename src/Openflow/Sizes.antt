-- ===== src/Openflow/Sizes.antt =====
-- The build-time assertions of openflow.h, and the absence of hidden padding.
use euthenia.Prelude.{ℕ, ◌≡◌, refl}
use euthenia.Openflow.Layout.{size_of, wire_size}
use euthenia.Openflow.Structs.{OfpStruct, layout}
use euthenia.Openflow.Structs

-- The right sides of the header's `OFP_ASSERT(sizeof(...) == ...)` lines.
unfoldable pub asserted_size : OfpStruct → ℕ
asserted_size Structs.header = 8
asserted_size Structs.hello_elem_header = 4
asserted_size Structs.hello_elem_versionbitmap = 4
asserted_size Structs.hello = 8
asserted_size Structs.switch_config = 12
asserted_size Structs.table_mod = 16
asserted_size Structs.port = 64
asserted_size Structs.switch_features = 32
asserted_size Structs.port_status = 80
asserted_size Structs.port_mod = 40
asserted_size Structs.match = 8
asserted_size Structs.oxm_experimenter_header = 8
asserted_size Structs.action_header = 8
asserted_size Structs.action_output = 16
asserted_size Structs.action_mpls_ttl = 8
asserted_size Structs.action_push = 8
asserted_size Structs.action_pop_mpls = 8
asserted_size Structs.action_group = 8
asserted_size Structs.action_nw_ttl = 8
asserted_size Structs.action_set_field = 8
asserted_size Structs.action_experimenter_header = 8
asserted_size Structs.instruction = 4
asserted_size Structs.instruction_goto_table = 8
asserted_size Structs.instruction_write_metadata = 24
asserted_size Structs.instruction_actions = 8
asserted_size Structs.instruction_meter = 8
asserted_size Structs.instruction_experimenter = 8
asserted_size Structs.flow_mod = 56
asserted_size Structs.bucket = 16
asserted_size Structs.group_mod = 16
asserted_size Structs.packet_out = 24
asserted_size Structs.packet_in = 32
asserted_size Structs.flow_removed = 56
asserted_size Structs.meter_band_header = 12
asserted_size Structs.meter_band_drop = 16
asserted_size Structs.meter_band_dscp_remark = 16
asserted_size Structs.meter_band_experimenter = 16
asserted_size Structs.meter_mod = 16
asserted_size Structs.error_msg = 12
asserted_size Structs.error_experimenter_msg = 16
asserted_size Structs.multipart_request = 16
asserted_size Structs.multipart_reply = 16
asserted_size Structs.desc = 1056
asserted_size Structs.flow_stats_request = 40
asserted_size Structs.flow_stats = 56
asserted_size Structs.aggregate_stats_request = 40
asserted_size Structs.aggregate_stats_reply = 24
asserted_size Structs.table_feature_prop_header = 4
asserted_size Structs.table_feature_prop_instructions = 4
asserted_size Structs.table_feature_prop_next_tables = 4
asserted_size Structs.table_feature_prop_actions = 4
asserted_size Structs.table_feature_prop_oxm = 4
asserted_size Structs.table_feature_prop_experimenter = 12
asserted_size Structs.table_features = 64
asserted_size Structs.table_stats = 24
asserted_size Structs.port_stats_request = 8
asserted_size Structs.port_stats = 112
asserted_size Structs.group_stats_request = 8
asserted_size Structs.bucket_counter = 16
asserted_size Structs.group_stats = 40
asserted_size Structs.group_desc = 8
asserted_size Structs.group_features = 40
asserted_size Structs.meter_multipart_request = 8
asserted_size Structs.meter_band_stats = 16
asserted_size Structs.meter_stats = 40
asserted_size Structs.meter_config = 8
asserted_size Structs.meter_features = 16
asserted_size Structs.experimenter_multipart_header = 8
asserted_size Structs.experimenter_header = 16
asserted_size Structs.queue_prop_header = 8
asserted_size Structs.queue_prop_min_rate = 16
asserted_size Structs.queue_prop_max_rate = 16
asserted_size Structs.queue_prop_experimenter = 16
asserted_size Structs.packet_queue = 16
asserted_size Structs.queue_get_config_request = 16
asserted_size Structs.queue_get_config_reply = 16
asserted_size Structs.action_set_queue = 8
asserted_size Structs.queue_stats_request = 8
asserted_size Structs.queue_stats = 40
asserted_size Structs.role_request = 24
asserted_size Structs.async_config = 32

-- Every structure of the header has the size that its OFP_ASSERT line states, and no padding that its members do not
-- name: what lies in memory is what goes on the wire.
pub size_of-layout :
    (s : OfpStruct)
    → (size_of (layout s) ≡ asserted_size s) × (size_of (layout s) ≡ wire_size (layout s))
unfolding size_of wire_size layout asserted_size
size_of-layout Structs.header = (refl, refl)
size_of-layout _ = (refl, refl)
