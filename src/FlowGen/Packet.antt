-- ===== src/FlowGen/Packet.antt =====
-- What `make_pkt` puts in the buffer: `make_pkt` of FlowGen.cpp with the constructors of header_defu.h.
use euthenia.Prelude.{ℕ, ◌≡◌, refl, List, [], ◌∷◌, ◌++◌}
use euthenia.Machine.Memory.{read, write}
use euthenia.Machine.Endian.{
  Endian, little, big, be, from_be, le, from_le, store_word, store_word-hton,
}
use euthenia.Openflow.Fields.{set_be, set_net-be, set_host}
use euthenia.FlowGen.{Scratch, make_pkt, packet_buffer, ethernet_header, ip_header, FlowGen}
use euthenia.FlowGen.Frames.{new_ethernet, new_ip}

-- An Ethernet address: three fixed bytes, and the low three bytes of a counter.
unfoldable pub mac : (a b c : ℕ) → (counter : ℕ) → List ℕ
unfolding be
mac a b c counter = a ∷ b ∷ c ∷ be 3 counter

-- A packet begins with an Ethernet header for IP whose addresses carry the low 24 bits of the two
-- counters in network order, whatever the byte order of the host and the old content of memory.
pub make_pkt-ethernet :
    {W : Type 0} (e : Endian) (s : Scratch) (g : FlowGen W)
    → read (make_pkt e s g).0 0 14 ≡ mac 0 0 0x0c g.dst ++ (mac 0 2 0xb3 g.src ++ (8 ∷ 0 ∷ []))
unfolding make_pkt packet_buffer ethernet_header new_ethernet
make_pkt-ethernet little s g =
    simp (set_net-be, store_word-hton) (unfold read write set_be set_host be mac in refl)
make_pkt-ethernet big s g =
    simp (set_net-be, store_word-hton) (unfold read write set_be set_host be mac in refl)

-- What a receiver reads in the total length of the IP header: 1440 from a host that stores words in
-- network order, and 40965 from a host that stores them the other way round.
pub make_pkt-total_length :
    {W : Type 0} (s : Scratch) (g : FlowGen W)
    → (from_be (read (make_pkt big s g).0 16 2) ≡ 1440)
      × (from_be (read (make_pkt little s g).0 16 2) ≡ 40965)
unfolding make_pkt packet_buffer ip_header new_ip
make_pkt-total_length s g = (
  unfold read write set_host store_word be le from_be from_le in refl,
  unfold read write set_host store_word be le from_be from_le in refl,
)
