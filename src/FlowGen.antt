-- ===== src/FlowGen.antt =====
-- FlowGen.h and FlowGen.cpp: packets sent in bursts at a rate, through a callback or through pcap.
pub mod Time
pub mod Frames
pub mod Packet
pub mod Burst
pub mod Sent
pub mod Ending
use euthenia.Prelude.{
  ℕ, zero, suc, ◌+◌, ◌-◌, ◌/◌, ◌%◌, ◌^◌, Bool, true, false, Option, none, some, List, [], ◌∷◌, ltb,
  ◌==◌, if◌then◌else◌, Result, ok, fault, division_by_zero, ◌>>=◌, not,
}
use euthenia.Prelude.Int.{ℤ, pos, ltb_ℤ}
use euthenia.Machine.Memory.{Memory, write, read, store}
use euthenia.Machine.Endian.{Endian, store_word, hton}
use euthenia.Openflow.Fields.{set_host}
use euthenia.Dispatcher.{Message, Callback}
use Time.{Timespec, nsec, timeval_subtract, timespec_add}
use Frames.{sniff_ip, new_ethernet, new_ip, new_tcp}

abbrev pub u32 : ℕ
u32 = 2 ^ 32

-- `src` and `dst` are the static variables of `make_pkt`. `pd` tells whether a device is open.
pub record FlowGen (W : Type 0) : Type 0 where
  pub is_run : Bool
  pub pd : Bool
  pub failed : ℕ
  pub fector : ℕ
  pub src : ℕ
  pub dst : ℕ
  pub on_message : Option (Callback W)

-- The constructor for a device; `none` is `exit(1)`, when pcap cannot open it.
unfoldable pub open_device : {W : Type 0} → (opened : Bool) → Option (FlowGen W)
open_device true = some (record {
  is_run = true;
  pd = true;
  failed = 0;
  fector = 1;
  src = u32 - 2;
  dst = 0;
  on_message = none;
})
open_device false = none

-- The constructor for a callback.
unfoldable pub for_callback : {W : Type 0} → Option (Callback W) → FlowGen W
for_callback f = record {
  is_run = true;
  pd = false;
  failed = 0;
  fector = 1;
  src = u32 - 2;
  dst = 0;
  on_message = f;
}

-- What memory holds where `make_pkt` puts its local headers and its new buffer.
pub record Scratch : Type 0 where
  pub eth : Memory
  pub ip : Memory
  pub tcp : Memory
  pub heap : Memory

-- sizeof(sniff_ethernet), sizeof(sniff_ip) and sizeof(sniff_tcp)
abbrev pub ethernet_size : ℕ
ethernet_size = 14

abbrev pub ip_size : ℕ
ip_size = 20

abbrev pub tcp_size : ℕ
tcp_size = 20

abbrev pub buffer_size : ℕ
buffer_size = ethernet_size + ip_size + tcp_size + 1400

-- The Ethernet header of `make_pkt`, for the values of its two counters. The counters go, in network
-- order, to bytes 2 to 5 of each address, whose byte 2 is overwritten afterwards.
unfoldable pub ethernet_header : Endian → (src dst : ℕ) → Memory → Memory
unfolding new_ethernet
ethernet_header e src dst m =
    let m = new_ethernet e m in
    let m = write m 8 (store_word e 4 (hton e 4 src)) in
    let m = write m 2 (store_word e 4 (hton e 4 dst)) in
    let m = store m 2 0x0c in let m = store m 6 0x00 in let m = store m 7 0x02 in store m 8 0xb3

-- `ip.ip_len` is assigned without `htons`.
unfoldable pub ip_header : Endian → Memory → Memory
unfolding new_ip
ip_header e m = set_host e sniff_ip 0 "ip_len" (ip_size + tcp_size + 1400) (new_ip e m)

-- The bytes of the new buffer, for the values of the counters.
unfoldable pub packet_buffer : Endian → Scratch → (src dst : ℕ) → Memory
unfolding ethernet_header ip_header new_tcp
packet_buffer e s src dst =
    let b = write s.heap 0 (read (ethernet_header e src dst s.eth) 0 ethernet_size) in
    let b = write b ethernet_size (read (ip_header e s.ip) 0 ip_size) in
    write b (ethernet_size + ip_size) (read (new_tcp e s.tcp) 0 tcp_size)

-- One transmission, by what the environment does: memory, and whether pcap fails.
pub record Attempt : Type 0 where
  pub scratch : Scratch
  pub pcap_fails : Bool

-- One round of the loop of `a_burst`: the two readings of the clock, and the transmissions.
pub record Round : Type 0 where
  pub sec_end : Timespec
  pub now : Timespec
  pub attempts : ℕ → Attempt

-- The generator, the counter that `pkt_sent` points to, and what the callback acts on.
pub record Sending (W : Type 0) : Type 0 where
  pub gen : FlowGen W
  pub pkt_sent : ℕ
  pub world : W

module _ {W : Type 0} (e : Endian) where
  -- `make_pkt`: the buffer, and the counters moved on.
  unfoldable pub make_pkt : Scratch → FlowGen W → Memory × FlowGen W
  unfolding packet_buffer
  make_pkt s g = (
    packet_buffer e s g.src g.dst,
    record g { src = (g.src + (u32 - 1)) % u32; dst = (g.dst + 1) % u32 },
  )

  unfoldable pub send_packet : Callback W → Memory → (pkt_len : ℕ) → W → Result W
  unfolding read
  send_packet f pkt_data pkt_len w = f (read pkt_data 0 pkt_len) w

  -- The three ways to send: the callback, else pcap, else none.
  unfoldable pub transmit :
      Option (Callback W) → (pcap_fails : Bool) → Memory → FlowGen W → W → Result (FlowGen W × W)
  unfolding send_packet
  transmit (some f) pcap_fails pkt g w = send_packet f pkt buffer_size w >>= λ w'. ok (g, w')
  transmit none pcap_fails pkt g w =
      if g.pd
      then ok ((if pcap_fails then record g { failed = (g.failed + 1) % u32 } else g), w)
      else ok (g, w)

  -- The body of the `for` loop.
  unfoldable pub send_one : Attempt → Sending W → Result (Sending W)
  unfolding make_pkt transmit
  send_one a s =
      let (pkt, g) = make_pkt a.scratch s.gen in
      transmit g.on_message a.pcap_fails pkt g s.world >>= λ t.
      ok (record { gen = t.0; pkt_sent = (s.pkt_sent + 1) % u32; world = t.1 })

  -- `for(i = 0; i < fector; ++i)`, with the rounds left.
  unfoldable pub send_from : (left i : ℕ) → (ℕ → Attempt) → Sending W → Result (Sending W)
  unfolding send_one
  send_from zero i attempts s = ok s
  send_from (suc left) i attempts s = send_one (attempts i) s >>= send_from left (suc i) attempts

  -- The `while` loop over the rounds that the environment grants: the state, and whether the loop has ended.
  -- Sleeping changes nothing, so only the second subtraction is left of it.
  unfoldable pub burst_loop :
      (nsleep : Timespec) (last_sec : ℕ)
      → List Round
      → (sec_beg deadline : Timespec) → Sending W
      → Result (Sending W × Bool)
  unfolding send_from timespec_add timeval_subtract
  burst_loop nsleep last_sec [] sec_beg deadline s = ok (s, not s.gen.is_run)
  burst_loop nsleep last_sec (r ∷ rs) sec_beg deadline s =
      let round = timeval_subtract r.sec_end sec_beg >>= λ d.
      let deadline' = timespec_add deadline nsleep in
      let rest = send_from s.gen.fector 0 r.attempts s >>= λ s'.
      timeval_subtract deadline' r.now >>= λ _.
      burst_loop nsleep last_sec rs d.y_after deadline' s' in
      if ltb_ℤ d.result.tv_sec (pos last_sec)
      then rest
      else ok (record s { gen = record s.gen { is_run = false } }, true) in
      if s.gen.is_run then round else ok (s, true)

  -- `begin` is the first reading of the clock.
  unfoldable pub a_burst :
      (packet_per_sec last_sec : ℕ)
      → (begin : Timespec) → List Round
      → Sending W
      → Result (Sending W × Bool)
  unfolding burst_loop
  a_burst packet_per_sec last_sec begin rounds s =
      let nsleep : Timespec = record { tv_sec = pos 0; tv_nsec = pos (nsec / packet_per_sec) } in
      if packet_per_sec == 0
      then fault division_by_zero
      else burst_loop nsleep last_sec rounds begin (timespec_add begin nsleep) s
