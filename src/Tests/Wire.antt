-- ===== src/Tests/Wire.antt =====
-- openflow.h, the dispatcher and the migrator at concrete inputs.
use euthenia.Prelude.{◌≡◌, refl, some, [], ◌==◌, if◌then◌else◌, length, ok}
use euthenia.Machine.Memory.{read}
use euthenia.Machine.Endian.{little}
use euthenia.Openflow.Layout.{size_of, wire_size, offset_of}
use euthenia.Openflow.Structs.{layout}
use euthenia.Openflow.Structs
use euthenia.Openflow.Structs.Flow.{ofp_flow_mod}
use euthenia.Openflow.Sizes.{asserted_size, size_of-layout}
use euthenia.Openflow.Types.{packet_in, type_code}
use euthenia.Openflow.Header.{type_field}
use euthenia.Dispatcher.{call, on_message, set_callback_on_message}
use euthenia.Dispatcher.Routing.{target, on_message-target, on_message-set_callback}
use euthenia.Migrator.{prepare_switch}
use euthenia.Migrator.FlowMod.{encode, redirect_to, prepare_switch-encode}
use euthenia.Tests.Inputs.{packet, packet-IsFrame, stale, holding, collecting}

match_place : offset_of ofp_flow_mod "match" ≡ some 48
unfolding offset_of
match_place = refl

size_of-layout_example :
    (size_of (layout Structs.flow_mod) ≡ asserted_size Structs.flow_mod)
    × (size_of (layout Structs.flow_mod) ≡ wire_size (layout Structs.flow_mod))
size_of-layout_example = size_of-layout Structs.flow_mod

packet_held : read (holding packet) 0 (length packet) ≡ packet
unfolding read holding
packet_held = refl

on_message-target_example :
    on_message little collecting (holding packet) []
    ≡ target collecting (type_field packet) packet []
on_message-target_example =
    on_message-target little collecting (holding packet) packet [] packet-IsFrame packet_held

on_message-set_callback_example :
    on_message little
      (set_callback_on_message packet_in (some λ m log. ok log) collecting)
      (holding packet)
      []
    ≡ (if type_code packet_in == type_field packet
        then call (some λ m log. ok log) packet []
        else on_message little collecting (holding packet) [])
on_message-set_callback_example =
    on_message-set_callback little packet_in (some λ m log. ok log) collecting (holding packet)
      packet [] packet-IsFrame packet_held

prepare_switch-encode_example : prepare_switch little stale 3 ≡ encode (redirect_to 3)
prepare_switch-encode_example = prepare_switch-encode little stale 3
