-- ===== src/FlowGen/Frames.antt =====
-- header_defu.h: the Ethernet, IP and TCP headers of a generated packet, and their constructors.
-- A member that a constructor leaves out keeps what memory held.
use euthenia.Prelude.{ℕ, [], ◌∷◌}
use euthenia.Machine.Memory.{Memory, write}
use euthenia.Machine.Endian.{Endian}
use euthenia.Openflow.Layout.{CType, array, uint8, uint16, uint32, struct, ◌⨾◌, end}
use euthenia.Openflow.Fields.{set_host, set_net}

abbrev pub ether_type_ip : ℕ
ether_type_ip = 0x0800

abbrev pub th_ack : ℕ
th_ack = 0x10

abbrev pub sniff_ethernet : CType
sniff_ethernet =
    struct (
      ("ether_dhost", array uint8 6)
      ⨾ ("ether_shost", array uint8 6)
      ⨾ ("ether_type", uint16)
      ⨾ end)

-- `struct in_addr` of the system is one 32-bit word.
abbrev pub sniff_ip : CType
sniff_ip = struct (
    ("ip_vhl", uint8)
    ⨾ ("ip_tos", uint8)
    ⨾ ("ip_len", uint16)
    ⨾ ("ip_id", uint16)
    ⨾ ("ip_off", uint16)
    ⨾ ("ip_ttl", uint8)
    ⨾ ("ip_p", uint8)
    ⨾ ("ip_sum", uint16)
    ⨾ ("ip_src", uint32)
    ⨾ ("ip_dst", uint32)
    ⨾ end)

abbrev pub sniff_tcp : CType
sniff_tcp = struct (
    ("th_sport", uint16)
    ⨾ ("th_dport", uint16)
    ⨾ ("th_seq", uint32)
    ⨾ ("th_ack", uint32)
    ⨾ ("th_offx2", uint8)
    ⨾ ("th_flags", uint8)
    ⨾ ("th_win", uint16)
    ⨾ ("th_sum", uint16)
    ⨾ ("th_urp", uint16)
    ⨾ end)

module _ (e : Endian) where
  unfoldable pub new_ethernet : Memory → Memory
  unfolding write
  new_ethernet m =
      let m = write m 0 (0 ∷ 0 ∷ 0 ∷ 0 ∷ 0 ∷ 0 ∷ []) in
      let m = write m 6 (0 ∷ 0 ∷ 0 ∷ 0 ∷ 0 ∷ 0 ∷ []) in
      set_net e sniff_ethernet 0 "ether_type" ether_type_ip m

  -- `inet_aton` gives the four numbers of an address in the order of the text.
  unfoldable pub new_ip : Memory → Memory
  unfolding write
  new_ip m =
      let m = set_host e sniff_ip 0 "ip_vhl" 0x45 m in
      let m = set_host e sniff_ip 0 "ip_tos" 0x00 m in
      let m = set_host e sniff_ip 0 "ip_len" 20 m in
      let m = set_host e sniff_ip 0 "ip_id" 0 m in
      let m = set_host e sniff_ip 0 "ip_off" 0x0000 m in
      let m = set_host e sniff_ip 0 "ip_ttl" 64 m in
      let m = set_host e sniff_ip 0 "ip_p" 0x06 m in
      let m = write m 12 (10 ∷ 0 ∷ 0 ∷ 1 ∷ []) in write m 16 (10 ∷ 0 ∷ 0 ∷ 2 ∷ [])

  unfoldable pub new_tcp : Memory → Memory
  new_tcp m =
      let m = set_host e sniff_tcp 0 "th_offx2" 0x50 m in
      let m = set_host e sniff_tcp 0 "th_flags" th_ack m in
      let m = set_host e sniff_tcp 0 "th_sum" 0x00 m in set_host e sniff_tcp 0 "th_urp" 0x00 m
