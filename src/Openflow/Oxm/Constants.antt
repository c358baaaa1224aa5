-- ===== src/Openflow/Oxm/Constants.antt =====
-- openflow.h: `enum oxm_ofb_match_fields` and the headers OXM_OF_* of its fields.
use euthenia.Prelude.{ℕ, ◌≡◌, refl, true, Option, none, some, ◌⊎◌, inl, inr}
use mathlib.Core.Option
use euthenia.Machine.Bits.{bit_or, bit_and}
use euthenia.Openflow.Oxm.{
  oxm_header, oxm_header_w, oxm_header_of, oxm_field, oxm_class, oxm_length, oxm_make_wild_header,
}

pub data OxmOfbMatchFields : Type 0 where
  in_port : OxmOfbMatchFields
  in_phy_port : OxmOfbMatchFields
  metadata : OxmOfbMatchFields
  eth_dst : OxmOfbMatchFields
  eth_src : OxmOfbMatchFields
  eth_type : OxmOfbMatchFields
  vlan_vid : OxmOfbMatchFields
  vlan_pcp : OxmOfbMatchFields
  ip_dscp : OxmOfbMatchFields
  ip_ecn : OxmOfbMatchFields
  ip_proto : OxmOfbMatchFields
  ipv4_src : OxmOfbMatchFields
  ipv4_dst : OxmOfbMatchFields
  tcp_src : OxmOfbMatchFields
  tcp_dst : OxmOfbMatchFields
  udp_src : OxmOfbMatchFields
  udp_dst : OxmOfbMatchFields
  sctp_src : OxmOfbMatchFields
  sctp_dst : OxmOfbMatchFields
  icmpv4_type : OxmOfbMatchFields
  icmpv4_code : OxmOfbMatchFields
  arp_op : OxmOfbMatchFields
  arp_spa : OxmOfbMatchFields
  arp_tpa : OxmOfbMatchFields
  arp_sha : OxmOfbMatchFields
  arp_tha : OxmOfbMatchFields
  ipv6_src : OxmOfbMatchFields
  ipv6_dst : OxmOfbMatchFields
  ipv6_flabel : OxmOfbMatchFields
  icmpv6_type : OxmOfbMatchFields
  icmpv6_code : OxmOfbMatchFields
  ipv6_nd_target : OxmOfbMatchFields
  ipv6_nd_sll : OxmOfbMatchFields
  ipv6_nd_tll : OxmOfbMatchFields
  mpls_label : OxmOfbMatchFields
  mpls_tc : OxmOfbMatchFields
  mpls_bos : OxmOfbMatchFields
  pbb_isid : OxmOfbMatchFields
  tunnel_id : OxmOfbMatchFields
  ipv6_exthdr : OxmOfbMatchFields

abbrev pub field_code : OxmOfbMatchFields → ℕ
field_code in_port = 0
field_code in_phy_port = 1
field_code metadata = 2
field_code eth_dst = 3
field_code eth_src = 4
field_code eth_type = 5
field_code vlan_vid = 6
field_code vlan_pcp = 7
field_code ip_dscp = 8
field_code ip_ecn = 9
field_code ip_proto = 10
field_code ipv4_src = 11
field_code ipv4_dst = 12
field_code tcp_src = 13
field_code tcp_dst = 14
field_code udp_src = 15
field_code udp_dst = 16
field_code sctp_src = 17
field_code sctp_dst = 18
field_code icmpv4_type = 19
field_code icmpv4_code = 20
field_code arp_op = 21
field_code arp_spa = 22
field_code arp_tpa = 23
field_code arp_sha = 24
field_code arp_tha = 25
field_code ipv6_src = 26
field_code ipv6_dst = 27
field_code ipv6_flabel = 28
field_code icmpv6_type = 29
field_code icmpv6_code = 30
field_code ipv6_nd_target = 31
field_code ipv6_nd_sll = 32
field_code ipv6_nd_tll = 33
field_code mpls_label = 34
field_code mpls_tc = 35
field_code mpls_bos = 36
field_code pbb_isid = 37
field_code tunnel_id = 38
field_code ipv6_exthdr = 39

-- OXM_OF_IN_PORT and its kin: the header of a field that is matched whole. OXM_OF_MPLS_BOS is written with
-- OFPXMT_OFB_MPLS_BOS, which no enumerator is called, so it stands for no header.
unfoldable pub oxm_of : OxmOfbMatchFields → Option ℕ
oxm_of in_port = some (oxm_header 0x8000 (field_code in_port) 4)
oxm_of in_phy_port = some (oxm_header 0x8000 (field_code in_phy_port) 4)
oxm_of metadata = some (oxm_header 0x8000 (field_code metadata) 8)
oxm_of eth_dst = some (oxm_header 0x8000 (field_code eth_dst) 6)
oxm_of eth_src = some (oxm_header 0x8000 (field_code eth_src) 6)
oxm_of eth_type = some (oxm_header 0x8000 (field_code eth_type) 2)
oxm_of vlan_vid = some (oxm_header 0x8000 (field_code vlan_vid) 2)
oxm_of vlan_pcp = some (oxm_header 0x8000 (field_code vlan_pcp) 1)
oxm_of ip_dscp = some (oxm_header 0x8000 (field_code ip_dscp) 1)
oxm_of ip_ecn = some (oxm_header 0x8000 (field_code ip_ecn) 1)
oxm_of ip_proto = some (oxm_header 0x8000 (field_code ip_proto) 1)
oxm_of ipv4_src = some (oxm_header 0x8000 (field_code ipv4_src) 4)
oxm_of ipv4_dst = some (oxm_header 0x8000 (field_code ipv4_dst) 4)
oxm_of tcp_src = some (oxm_header 0x8000 (field_code tcp_src) 2)
oxm_of tcp_dst = some (oxm_header 0x8000 (field_code tcp_dst) 2)
oxm_of udp_src = some (oxm_header 0x8000 (field_code udp_src) 2)
oxm_of udp_dst = some (oxm_header 0x8000 (field_code udp_dst) 2)
oxm_of sctp_src = some (oxm_header 0x8000 (field_code sctp_src) 2)
oxm_of sctp_dst = some (oxm_header 0x8000 (field_code sctp_dst) 2)
oxm_of icmpv4_type = some (oxm_header 0x8000 (field_code icmpv4_type) 1)
oxm_of icmpv4_code = some (oxm_header 0x8000 (field_code icmpv4_code) 1)
oxm_of arp_op = some (oxm_header 0x8000 (field_code arp_op) 2)
oxm_of arp_spa = some (oxm_header 0x8000 (field_code arp_spa) 4)
oxm_of arp_tpa = some (oxm_header 0x8000 (field_code arp_tpa) 4)
oxm_of arp_sha = some (oxm_header 0x8000 (field_code arp_sha) 6)
oxm_of arp_tha = some (oxm_header 0x8000 (field_code arp_tha) 6)
oxm_of ipv6_src = some (oxm_header 0x8000 (field_code ipv6_src) 16)
oxm_of ipv6_dst = some (oxm_header 0x8000 (field_code ipv6_dst) 16)
oxm_of ipv6_flabel = some (oxm_header 0x8000 (field_code ipv6_flabel) 4)
oxm_of icmpv6_type = some (oxm_header 0x8000 (field_code icmpv6_type) 1)
oxm_of icmpv6_code = some (oxm_header 0x8000 (field_code icmpv6_code) 1)
oxm_of ipv6_nd_target = some (oxm_header 0x8000 (field_code ipv6_nd_target) 16)
oxm_of ipv6_nd_sll = some (oxm_header 0x8000 (field_code ipv6_nd_sll) 6)
oxm_of ipv6_nd_tll = some (oxm_header 0x8000 (field_code ipv6_nd_tll) 6)
oxm_of mpls_label = some (oxm_header 0x8000 (field_code mpls_label) 4)
oxm_of mpls_tc = some (oxm_header 0x8000 (field_code mpls_tc) 1)
oxm_of mpls_bos = none
oxm_of pbb_isid = some (oxm_header 0x8000 (field_code pbb_isid) 3)
oxm_of tunnel_id = some (oxm_header 0x8000 (field_code tunnel_id) 8)
oxm_of ipv6_exthdr = some (oxm_header 0x8000 (field_code ipv6_exthdr) 2)

-- OXM_OF_METADATA_W and its kin: the header of a field with a mask, where the file has one.
unfoldable pub oxm_of_w : OxmOfbMatchFields → Option ℕ
oxm_of_w in_port = none
oxm_of_w in_phy_port = none
oxm_of_w metadata = some (oxm_header_w 0x8000 (field_code metadata) 8)
oxm_of_w eth_dst = some (oxm_header_w 0x8000 (field_code eth_dst) 6)
oxm_of_w eth_src = some (oxm_header_w 0x8000 (field_code eth_src) 6)
oxm_of_w eth_type = none
oxm_of_w vlan_vid = some (oxm_header_w 0x8000 (field_code vlan_vid) 2)
oxm_of_w vlan_pcp = none
oxm_of_w ip_dscp = none
oxm_of_w ip_ecn = none
oxm_of_w ip_proto = none
oxm_of_w ipv4_src = some (oxm_header_w 0x8000 (field_code ipv4_src) 4)
oxm_of_w ipv4_dst = some (oxm_header_w 0x8000 (field_code ipv4_dst) 4)
oxm_of_w tcp_src = none
oxm_of_w tcp_dst = none
oxm_of_w udp_src = none
oxm_of_w udp_dst = none
oxm_of_w sctp_src = none
oxm_of_w sctp_dst = none
oxm_of_w icmpv4_type = none
oxm_of_w icmpv4_code = none
oxm_of_w arp_op = none
oxm_of_w arp_spa = some (oxm_header_w 0x8000 (field_code arp_spa) 4)
oxm_of_w arp_tpa = some (oxm_header_w 0x8000 (field_code arp_tpa) 4)
oxm_of_w arp_sha = none
oxm_of_w arp_tha = none
oxm_of_w ipv6_src = some (oxm_header_w 0x8000 (field_code ipv6_src) 16)
oxm_of_w ipv6_dst = some (oxm_header_w 0x8000 (field_code ipv6_dst) 16)
oxm_of_w ipv6_flabel = none
oxm_of_w icmpv6_type = none
oxm_of_w icmpv6_code = none
oxm_of_w ipv6_nd_target = none
oxm_of_w ipv6_nd_sll = none
oxm_of_w ipv6_nd_tll = none
oxm_of_w mpls_label = none
oxm_of_w mpls_tc = none
oxm_of_w mpls_bos = none
oxm_of_w pbb_isid = some (oxm_header_w 0x8000 (field_code pbb_isid) 3)
oxm_of_w tunnel_id = some (oxm_header_w 0x8000 (field_code tunnel_id) 8)
oxm_of_w ipv6_exthdr = some (oxm_header_w 0x8000 (field_code ipv6_exthdr) 2)

-- Every header that the file names, as the int that it is, gives back the code of its field, but as its class the
-- class with the sign of an int, 0xffff8000 for 0x8000; and a header with a mask is what OXM_MAKE_WILD_HEADER makes
-- of the one without.
pub oxm_of-reads :
    (f : OxmOfbMatchFields)
    → (Option.map (oxm_field true) (oxm_of f) ≡ Option.map (λ _. field_code f) (oxm_of f))
      × (Option.map (oxm_class true) (oxm_of f) ≡ Option.map (λ _. 0xffff8000) (oxm_of f))
      × ((oxm_of_w f ≡ none) ⊎ (oxm_of_w f ≡ Option.map (oxm_make_wild_header true) (oxm_of f)))
unfolding oxm_of oxm_of_w oxm_header oxm_header_w oxm_header_of oxm_field oxm_class oxm_length
    oxm_make_wild_header bit_or bit_and
oxm_of-reads in_port = (refl, refl, inl refl)
oxm_of-reads in_phy_port = (refl, refl, inl refl)
oxm_of-reads metadata = (refl, refl, inr refl)
oxm_of-reads eth_dst = (refl, refl, inr refl)
oxm_of-reads eth_src = (refl, refl, inr refl)
oxm_of-reads eth_type = (refl, refl, inl refl)
oxm_of-reads vlan_vid = (refl, refl, inr refl)
oxm_of-reads vlan_pcp = (refl, refl, inl refl)
oxm_of-reads ip_dscp = (refl, refl, inl refl)
oxm_of-reads ip_ecn = (refl, refl, inl refl)
oxm_of-reads ip_proto = (refl, refl, inl refl)
oxm_of-reads ipv4_src = (refl, refl, inr refl)
oxm_of-reads ipv4_dst = (refl, refl, inr refl)
oxm_of-reads tcp_src = (refl, refl, inl refl)
oxm_of-reads tcp_dst = (refl, refl, inl refl)
oxm_of-reads udp_src = (refl, refl, inl refl)
oxm_of-reads udp_dst = (refl, refl, inl refl)
oxm_of-reads sctp_src = (refl, refl, inl refl)
oxm_of-reads sctp_dst = (refl, refl, inl refl)
oxm_of-reads icmpv4_type = (refl, refl, inl refl)
oxm_of-reads icmpv4_code = (refl, refl, inl refl)
oxm_of-reads arp_op = (refl, refl, inl refl)
oxm_of-reads arp_spa = (refl, refl, inr refl)
oxm_of-reads arp_tpa = (refl, refl, inr refl)
oxm_of-reads arp_sha = (refl, refl, inl refl)
oxm_of-reads arp_tha = (refl, refl, inl refl)
oxm_of-reads ipv6_src = (refl, refl, inr refl)
oxm_of-reads ipv6_dst = (refl, refl, inr refl)
oxm_of-reads ipv6_flabel = (refl, refl, inl refl)
oxm_of-reads icmpv6_type = (refl, refl, inl refl)
oxm_of-reads icmpv6_code = (refl, refl, inl refl)
oxm_of-reads ipv6_nd_target = (refl, refl, inl refl)
oxm_of-reads ipv6_nd_sll = (refl, refl, inl refl)
oxm_of-reads ipv6_nd_tll = (refl, refl, inl refl)
oxm_of-reads mpls_label = (refl, refl, inl refl)
oxm_of-reads mpls_tc = (refl, refl, inl refl)
oxm_of-reads mpls_bos = (refl, refl, inl refl)
oxm_of-reads pbb_isid = (refl, refl, inr refl)
oxm_of-reads tunnel_id = (refl, refl, inr refl)
oxm_of-reads ipv6_exthdr = (refl, refl, inr refl)
