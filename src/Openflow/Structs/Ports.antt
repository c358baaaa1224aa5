-- ===== src/Openflow/Structs/Ports.antt =====
-- openflow.h: the header, hello elements, switch configuration and ports.
use euthenia.Openflow.Layout.{CType, array, uint16, uint32, uint64, uint8, struct, ◌⨾◌, end}

abbrev pub ofp_header : CType
ofp_header =
    struct (("version", uint8) ⨾ ("type", uint8) ⨾ ("length", uint16) ⨾ ("xid", uint32) ⨾ end)

abbrev pub ofp_hello_elem_header : CType
ofp_hello_elem_header = struct (("type", uint16) ⨾ ("length", uint16) ⨾ end)

abbrev pub ofp_hello_elem_versionbitmap : CType
ofp_hello_elem_versionbitmap =
    struct (("type", uint16) ⨾ ("length", uint16) ⨾ ("bitmaps", array uint32 0) ⨾ end)

abbrev pub ofp_hello : CType
ofp_hello = struct (("header", ofp_header) ⨾ ("elements", array ofp_hello_elem_header 0) ⨾ end)

abbrev pub ofp_switch_config : CType
ofp_switch_config =
    struct (("header", ofp_header) ⨾ ("flags", uint16) ⨾ ("miss_send_len", uint16) ⨾ end)

abbrev pub ofp_table_mod : CType
ofp_table_mod = struct (
    ("header", ofp_header)
    ⨾ ("table_id", uint8)
    ⨾ ("pad", array uint8 3)
    ⨾ ("config", uint32)
    ⨾ end)

abbrev pub ofp_port : CType
ofp_port = struct (
    ("port_no", uint32)
    ⨾ ("pad", array uint8 4)
    ⨾ ("hw_addr", array uint8 6)
    ⨾ ("pad2", array uint8 2)
    ⨾ ("name", array uint8 16)
    ⨾ ("config", uint32)
    ⨾ ("state", uint32)
    ⨾ ("curr", uint32)
    ⨾ ("advertised", uint32)
    ⨾ ("supported", uint32)
    ⨾ ("peer", uint32)
    ⨾ ("curr_speed", uint32)
    ⨾ ("max_speed", uint32)
    ⨾ end)

abbrev pub ofp_switch_features : CType
ofp_switch_features = struct (
    ("header", ofp_header)
    ⨾ ("datapath_id", uint64)
    ⨾ ("n_buffers", uint32)
    ⨾ ("n_tables", uint8)
    ⨾ ("auxiliary_id", uint8)
    ⨾ ("pad", array uint8 2)
    ⨾ ("capabilities", uint32)
    ⨾ ("reserved", uint32)
    ⨾ end)

abbrev pub ofp_port_status : CType
ofp_port_status =
    struct (
      ("header", ofp_header)
      ⨾ ("reason", uint8)
      ⨾ ("pad", array uint8 7)
      ⨾ ("desc", ofp_port)
      ⨾ end)

abbrev pub ofp_port_mod : CType
ofp_port_mod = struct (
    ("header", ofp_header)
    ⨾ ("port_no", uint32)
    ⨾ ("pad", array uint8 4)
    ⨾ ("hw_addr", array uint8 6)
    ⨾ ("pad2", array uint8 2)
    ⨾ ("config", uint32)
    ⨾ ("mask", uint32)
    ⨾ ("advertise", uint32)
    ⨾ ("pad3", array uint8 4)
    ⨾ end)
