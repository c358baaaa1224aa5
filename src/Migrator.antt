-- ===== src/Migrator.antt =====
-- PacketInMigrator.h: the flow-mod message that redirects the switch's packets to a port, and the
-- commands that write it to the switch's session.
pub mod FlowMod
use euthenia.Prelude.{ℕ, ◌+◌, List, []}
use euthenia.Machine.Memory.{Memory, read}
use euthenia.Machine.Endian.{Endian}
use euthenia.Openflow.Layout.{size_of}
use euthenia.Openflow.Structs.Ports.{ofp_header}
use euthenia.Openflow.Structs.Match.{ofp_match}
use euthenia.Openflow.Structs.Actions.{ofp_instruction_actions, ofp_action_output}
use euthenia.Openflow.Structs.Flow.{ofp_flow_mod}
use euthenia.Openflow.Types.{
  type_code, flow_mod, ofp_version, ofp_no_buffer, ofpp_any, ofpg_any, ofpcml_no_buffer, ofpfc_add,
  ofpmt_oxm, ofpit_apply_actions, ofpat_output,
}
use euthenia.Openflow.Fields.{set_host, set_net, set_byte}
use euthenia.Openflow.Header.{header_length}
use euthenia.Dispatcher.{Message}
use euthenia.Session.Writer.{Writer, write}

abbrev pub cookie_switch : ℕ
cookie_switch = 0x627

-- sizeof(ofp_flow_mod), sizeof(ofp_instruction_actions) and sizeof(ofp_action_output)
abbrev pub flow_mod_size : ℕ
flow_mod_size = 56

abbrev pub instruction_size : ℕ
instruction_size = 8

abbrev pub action_size : ℕ
action_size = 16

abbrev pub message_size : ℕ
message_size = flow_mod_size + instruction_size + action_size

module _ (e : Endian) where
  -- The assignments through `flow_mod`, up to `pad[1]`.
  unfoldable pub fill_flow_mod : Memory → Memory
  fill_flow_mod m =
      let m = set_host e ofp_header 0 "version" ofp_version m in
      let m = set_host e ofp_header 0 "type" (type_code flow_mod) m in
      let m = set_net e ofp_header 0 "xid" 0x12345678 m in
      let m = set_net e ofp_flow_mod 0 "cookie" cookie_switch m in
      let m = set_host e ofp_flow_mod 0 "cookie_mask" 0 m in
      let m = set_host e ofp_flow_mod 0 "table_id" 0 m in
      let m = set_host e ofp_flow_mod 0 "command" ofpfc_add m in
      let m = set_host e ofp_flow_mod 0 "idle_timeout" 0 m in
      let m = set_host e ofp_flow_mod 0 "hard_timeout" 0 m in
      let m = set_net e ofp_flow_mod 0 "priority" 1 m in
      let m = set_host e ofp_flow_mod 0 "buffer_id" ofp_no_buffer m in
      let m = set_host e ofp_flow_mod 0 "out_port" ofpp_any m in
      let m = set_host e ofp_flow_mod 0 "out_group" ofpg_any m in
      let m = set_host e ofp_flow_mod 0 "flags" 0 m in
      let m = set_byte ofp_flow_mod 0 "pad" 0 0 m in set_byte ofp_flow_mod 0 "pad" 1 0 m

  -- The assignments through `match`, which points at `flow_mod->match`.
  unfoldable pub fill_match : Memory → Memory
  fill_match m =
      let m = set_net e ofp_match 48 "type" ofpmt_oxm m in
      let m = set_net e ofp_match 48 "length" 4 m in
      let m = set_byte ofp_match 48 "pad" 0 0 m in
      let m = set_byte ofp_match 48 "pad" 1 0 m in
      let m = set_byte ofp_match 48 "pad" 2 0 m in set_byte ofp_match 48 "pad" 3 0 m

  unfoldable pub fill_instruction : Memory → Memory
  fill_instruction m =
      let m = set_net e ofp_instruction_actions flow_mod_size "type" ofpit_apply_actions m in
      let m =
        set_net e ofp_instruction_actions flow_mod_size "len" (instruction_size + action_size) m in
      let m = set_byte ofp_instruction_actions flow_mod_size "pad" 0 0 m in
      let m = set_byte ofp_instruction_actions flow_mod_size "pad" 1 0 m in
      let m = set_byte ofp_instruction_actions flow_mod_size "pad" 2 0 m in
      set_byte ofp_instruction_actions flow_mod_size "pad" 3 0 m

  unfoldable pub fill_action : ℕ → Memory → Memory
  fill_action port m =
      let base : ℕ = flow_mod_size + instruction_size in
      let m = set_net e ofp_action_output base "type" ofpat_output m in
      let m = set_net e ofp_action_output base "len" action_size m in
      let m = set_net e ofp_action_output base "port" port m in
      let m = set_host e ofp_action_output base "max_len" ofpcml_no_buffer m in
      let m = set_byte ofp_action_output base "pad" 0 0 m in
      let m = set_byte ofp_action_output base "pad" 1 0 m in
      let m = set_byte ofp_action_output base "pad" 2 0 m in
      let m = set_byte ofp_action_output base "pad" 3 0 m in
      let m = set_byte ofp_action_output base "pad" 4 0 m in
      set_byte ofp_action_output base "pad" 5 0 m

  -- `buffer` is what `new char[length]` returns, with whatever bytes lie there.
  unfoldable pub prepare_switch : (buffer : Memory) → (port : ℕ) → Message
  unfolding fill_flow_mod fill_match fill_instruction fill_action header_length
  prepare_switch buffer port =
      let m = fill_action port (fill_instruction (fill_match (fill_flow_mod buffer))) in
      let m = set_net e ofp_header 0 "length" message_size m in read m 0 (header_length e m)

  -- The body is commented out: an empty string.
  unfoldable pub prepare_drawback : Message
  prepare_drawback = []

  unfoldable pub switch_path : (buffer : Memory) → (port : ℕ) → Writer → Writer
  unfolding prepare_switch write
  switch_path buffer port session = write (prepare_switch buffer port) session

  unfoldable pub draw_back : Writer → Writer
  unfolding prepare_drawback write
  draw_back session = write prepare_drawback session
