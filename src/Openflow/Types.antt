-- ===== src/Openflow/Types.antt =====
-- openflow.h: the message types, and the constants that the program writes into its messages.
use euthenia.Prelude.{ℕ}

-- `enum ofp_type`
pub data OfpType : Type 0 where
  hello : OfpType
  error : OfpType
  echo_request : OfpType
  echo_reply : OfpType
  experimenter : OfpType
  features_request : OfpType
  features_reply : OfpType
  get_config_request : OfpType
  get_config_reply : OfpType
  set_config : OfpType
  packet_in : OfpType
  flow_removed : OfpType
  port_status : OfpType
  packet_out : OfpType
  flow_mod : OfpType
  group_mod : OfpType
  port_mod : OfpType
  table_mod : OfpType
  multipart_request : OfpType
  multipart_reply : OfpType
  barrier_request : OfpType
  barrier_reply : OfpType
  queue_get_config_request : OfpType
  queue_get_config_reply : OfpType
  role_request : OfpType
  role_reply : OfpType
  get_async_request : OfpType
  get_async_reply : OfpType
  set_async : OfpType
  meter_mod : OfpType

-- The value of the enumerator, which is the type byte of the header.
abbrev pub type_code : OfpType → ℕ
type_code hello = 0
type_code error = 1
type_code echo_request = 2
type_code echo_reply = 3
type_code experimenter = 4
type_code features_request = 5
type_code features_reply = 6
type_code get_config_request = 7
type_code get_config_reply = 8
type_code set_config = 9
type_code packet_in = 10
type_code flow_removed = 11
type_code port_status = 12
type_code packet_out = 13
type_code flow_mod = 14
type_code group_mod = 15
type_code port_mod = 16
type_code table_mod = 17
type_code multipart_request = 18
type_code multipart_reply = 19
type_code barrier_request = 20
type_code barrier_reply = 21
type_code queue_get_config_request = 22
type_code queue_get_config_reply = 23
type_code role_request = 24
type_code role_reply = 25
type_code get_async_request = 26
type_code get_async_reply = 27
type_code set_async = 28
type_code meter_mod = 29

abbrev pub ofp_version : ℕ
ofp_version = 0x04

abbrev pub ofp_no_buffer : ℕ
ofp_no_buffer = 0xffffffff

abbrev pub ofpp_any : ℕ
ofpp_any = 0xffffffff

abbrev pub ofpg_any : ℕ
ofpg_any = 0xffffffff

abbrev pub ofpcml_no_buffer : ℕ
ofpcml_no_buffer = 0xffff

abbrev pub ofpfc_add : ℕ
ofpfc_add = 0

abbrev pub ofpmt_oxm : ℕ
ofpmt_oxm = 1

abbrev pub ofpit_apply_actions : ℕ
ofpit_apply_actions = 4

abbrev pub ofpat_output : ℕ
ofpat_output = 0
