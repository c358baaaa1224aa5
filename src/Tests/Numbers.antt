-- ===== src/Tests/Numbers.antt =====
-- The numbers that eproxy.cpp reads and the headers of openflow.h, at concrete values.
use euthenia.Prelude.{◌⊎◌, ◌≡◌, ◌+◌, ◌*◌, ◌^◌, true, none, arith}
use euthenia.Openflow.Oxm.{
  oxm_header_of, oxm_header_w, oxm_class, oxm_field, oxm_type, oxm_hasmask, oxm_length,
  oxm_make_wild_header,
}
use euthenia.Openflow.Oxm.Parts.{class_read, oxm_header-parts}
use euthenia.Openflow.Oxm.Constants.{eth_dst, field_code, oxm_of, oxm_of_w, oxm_of-reads}
use mathlib.Core.Option

-- OXM_OF_ETH_DST, as an int
oxm_header-parts_example :
    (oxm_class true (oxm_header_of 0x8000 3 0 6) ≡ class_read true 0x8000)
    × (oxm_field true (oxm_header_of 0x8000 3 0 6) ≡ 3)
    × (oxm_type true (oxm_header_of 0x8000 3 0 6) ≡ 0x8000 * 2 ^ 7 + 3)
    × (oxm_hasmask true (oxm_header_of 0x8000 3 0 6) ≡ 0)
    × (oxm_length (oxm_header_of 0x8000 3 0 6) ≡ 6)
    × (oxm_make_wild_header true (oxm_header_of 0x8000 3 0 6) ≡ oxm_header_w 0x8000 3 6)
oxm_header-parts_example =
    oxm_header-parts true 0x8000 3 0 6 (omega arith) (omega arith) (omega arith) (omega arith)

oxm_of-reads_example :
    (Option.map (oxm_field true) (oxm_of eth_dst)
      ≡ Option.map (λ _. field_code eth_dst) (oxm_of eth_dst))
    × (Option.map (oxm_class true) (oxm_of eth_dst) ≡ Option.map (λ _. 0xffff8000) (oxm_of eth_dst))
    × ((oxm_of_w eth_dst ≡ none)
        ⊎ (oxm_of_w eth_dst ≡ Option.map (oxm_make_wild_header true) (oxm_of eth_dst)))
oxm_of-reads_example = oxm_of-reads eth_dst
