-- ===== src/Migrator/FlowMod.antt =====
-- The wire format of a flow-mod, and what `prepare_switch` puts on the wire.
use euthenia.Prelude.{ℕ, ◌≡◌, refl, List, [], ◌∷◌, ◌++◌, arith}
use euthenia.Machine.Memory.{Memory, read, write}
use euthenia.Machine.Endian.{Endian, little, big, be, from_be, hton, load_word}
use euthenia.Openflow.Fields.{set_be, set_net-be, set_host, set_byte}
use euthenia.Openflow.Types.{
  type_code, flow_mod, ofp_version, ofp_no_buffer, ofpp_any, ofpg_any, ofpcml_no_buffer, ofpfc_add,
  ofpmt_oxm, ofpit_apply_actions, ofpat_output,
}
use euthenia.Openflow.Header.{header_length, IsFrame}
use euthenia.Dispatcher.{Message}
use euthenia.Migrator.{
  prepare_switch, fill_flow_mod, fill_match, fill_instruction, fill_action, cookie_switch,
}

-- A flow-mod with an empty match and one instruction, which applies one output action.
pub record Redirect : Type 0 where
  pub xid : ℕ
  pub cookie : ℕ
  pub cookie_mask : ℕ
  pub table_id : ℕ
  pub command : ℕ
  pub idle_timeout : ℕ
  pub hard_timeout : ℕ
  pub priority : ℕ
  pub buffer_id : ℕ
  pub out_port : ℕ
  pub out_group : ℕ
  pub flags : ℕ
  pub action_port : ℕ
  pub max_len : ℕ

-- Its bytes as the protocol lays them out: every number in network order, zeros as padding.
unfoldable pub encode : Redirect → Message
unfolding be
encode f =
    (ofp_version ∷ type_code flow_mod ∷ be 2 80)
    ++ (be 4 f.xid
        ++ (be 8 f.cookie
            ++ (be 8 f.cookie_mask
                ++ ((f.table_id ∷ f.command ∷ [])
                    ++ (be 2 f.idle_timeout
                        ++ (be 2 f.hard_timeout
                            ++ (be 2 f.priority
                                ++ (be 4 f.buffer_id
                                    ++ (be 4 f.out_port
                                        ++ (be 4 f.out_group
                                            ++ (be 2 f.flags
                                                ++ (zeros_2
                                                    ++ (be 2 ofpmt_oxm
                                                        ++ (be 2 4
                                                            ++ (zeros_4
                                                            ++ (be 2 ofpit_apply_actions
                                                            ++ (be 2 24
                                                            ++ (zeros_4
                                                            ++ (be 2 ofpat_output
                                                            ++ (be 2 16
                                                            ++ (be 4 f.action_port
                                                            ++ (be 2 f.max_len
                                                            ++ (zeros_2
                                                            ++ zeros_4)))))))))))))))))))))))
  where
    zeros_2 : List ℕ
    zeros_2 = 0 ∷ 0 ∷ []

    zeros_4 : List ℕ
    zeros_4 = 0 ∷ 0 ∷ 0 ∷ 0 ∷ []

-- Match every packet at priority 1 and send it, whole, to `port`.
abbrev pub redirect_to : ℕ → Redirect
redirect_to port = record {
  xid = 0x12345678;
  cookie = cookie_switch;
  cookie_mask = 0;
  table_id = 0;
  command = ofpfc_add;
  idle_timeout = 0;
  hard_timeout = 0;
  priority = 1;
  buffer_id = ofp_no_buffer;
  out_port = ofpp_any;
  out_group = ofpg_any;
  flags = 0;
  action_port = port;
  max_len = ofpcml_no_buffer;
}

-- On a host of either byte order, and whatever lay in the new buffer, `prepare_switch` makes the
-- encoding of the redirection: every byte of the message is set, and is set in network order.
pub prepare_switch-encode :
    (e : Endian) (buffer : Memory) (port : ℕ)
    → prepare_switch e buffer port ≡ encode (redirect_to port)
unfolding prepare_switch fill_flow_mod fill_match fill_instruction fill_action
prepare_switch-encode little buffer port =
    simp set_net-be
      (unfold read write set_be set_host set_byte header_length hton load_word encode in refl)
prepare_switch-encode big buffer port =
    simp set_net-be
      (unfold read write set_be set_host set_byte header_length hton load_word encode in refl)

-- The message is a whole frame of 80 bytes, so the switch reads it as one message.
pub prepare_switch-IsFrame :
    (e : Endian) (buffer : Memory) (port : ℕ) → IsFrame (prepare_switch e buffer port)
prepare_switch-IsFrame e buffer port = rw (prepare_switch-encode e buffer port) framed
  where
    framed : IsFrame (encode (redirect_to port))
    framed =
        unfold encode be from_be in
        record { bytes = omega arith; has_header = omega arith; counted = refl }
