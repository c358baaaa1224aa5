-- ===== src/FlowGen/Sent.antt =====
-- What reaches the callback in a burst: `a_burst`, `make_pkt` and `send_packet` of FlowGen.cpp.
use euthenia.Prelude.{
  After-map, After, ℕ, ◌+◌, ◌/◌, ◌%◌, ◌≡◌, ◌<◌, refl, sym, ap, ◌∙◌, Bool, some, List, [], ◌∷◌, ◌++◌,
  length, arith, ok, take,
}
use euthenia.Machine.Memory.{read, length-read, take-read}
use euthenia.Machine.Endian.{Endian, be, le}
use euthenia.Dispatcher.{Message, Callback}
use euthenia.FlowGen.{
  FlowGen, Sending, Round, Attempt, Scratch, a_burst, send_one, transmit, send_packet, make_pkt,
  u32, buffer_size,
}
use euthenia.FlowGen.Time.{Timespec}
use euthenia.FlowGen.Packet.{mac, make_pkt-ethernet}
use euthenia.FlowGen.Burst.{Stopped, a_burst-keeps}

-- The callback that keeps what it is given, the last message first.
unfoldable pub collect : Callback (List Message)
collect message w = ok (message ∷ w)

-- Messages of a packet's size, the last first, to the destinations `first`, `first + 1` and so on.
unfoldable pub Numbered : (first : ℕ) → List Message → Type 0
unfolding mac
Numbered first [] = Unit
Numbered first (m ∷ ms) =
    (length m ≡ 1454) × (take 6 m ≡ mac 0 0 0x0c (first + length ms)) × Numbered first ms

-- From `s` on the messages `sent`: they reached the callback, and the counters stand right.
pub record Sent (first pkt_sent : ℕ) (before : List Message) (s : Sending (List Message))
    : Type 0 where
  pub sent : List Message
  pub to_collect : s.gen.on_message ≡ some collect
  pub world : s.world ≡ sent ++ before
  pub count : s.pkt_sent ≡ (pkt_sent + length sent) % u32
  pub next : s.gen.dst ≡ (first + length sent) % u32
  pub numbered : Numbered first sent

make_pkt-mac :
    (e : Endian) (s : Scratch) (g : FlowGen (List Message))
    → take 6 (read (make_pkt e s g).0 0 buffer_size) ≡ mac 0 0 0x0c g.dst
make_pkt-mac e s g =
    take-read (make_pkt e s g).0 0 6 buffer_size (omega arith)
    ∙ sym (take-read (make_pkt e s g).0 0 6 14 (omega arith))
    ∙ rw (make_pkt-ethernet e s g) (unfold mac in refl)

mac-mod : (a b c k : ℕ) → mac a b c (k % u32) ≡ mac a b c k
unfolding mac be le
mac-mod a b c k = ground (arith, low, middle, high)
  where
    low : k % u32 % 256 ≡ k % 256
    low = omega arith

    middle : k % u32 / 256 % 256 ≡ k / 256 % 256
    middle = omega arith

    high : k % u32 / 256 / 256 % 256 ≡ k / 256 / 256 % 256
    high = omega arith

module _ (e : Endian) (first pkt_sent : ℕ) (before : List Message) where
  send_one-collect :
      (a : Attempt) (s : Sending (List Message))
      → s.gen.on_message ≡ some collect
      → send_one e a s
        ≡ ok (record {
          gen = (make_pkt e a.scratch s.gen).1;
          pkt_sent = (s.pkt_sent + 1) % u32;
          world = read (make_pkt e a.scratch s.gen).0 0 buffer_size ∷ s.world;
        })
  unfolding send_one transmit send_packet collect make_pkt
  send_one-collect a s h = rw h refl

  send_one-Sent :
      (a : Attempt) (s : Sending (List Message))
      → Sent first pkt_sent before s
      → After (Sent first pkt_sent before) (send_one e a s)
  send_one-Sent a s h = rw (send_one-collect a s h.to_collect) (record {
    sent = read (make_pkt e a.scratch s.gen).0 0 buffer_size ∷ h.sent;
    to_collect = unfold make_pkt in h.to_collect;
    world = ap (◌∷◌ (read (make_pkt e a.scratch s.gen).0 0 buffer_size)) h.world;
    count = omega (arith, h.count);
    next = unfold make_pkt in omega (arith, h.next);
    numbered =
        unfold Numbered in
        (
          length-read (make_pkt e a.scratch s.gen).0 0 buffer_size,
          make_pkt-mac e a.scratch s.gen
              ∙ ap (mac 0 0 0x0c) h.next
              ∙ mac-mod 0 0 0x0c (first + length h.sent),
          h.numbered,
        );
  })

-- A burst through a callback hands it whole packets of 1454 bytes to successive destinations, and
-- the counter that `pkt_sent` points to and the destination's counter move on by as many, as long as
-- nothing in the clock's arithmetic overflows: at every rate above 0, whatever the clock and the memory do.
pub a_burst-Sent :
    (e : Endian) (packet_per_sec last_sec : ℕ) (begin : Timespec) (rounds : List Round)
    (s : Sending (List Message))
    → s.gen.on_message ≡ some collect
    → s.pkt_sent < u32
    → s.gen.dst < u32
    → After
        (λ (r : Sending (List Message) × Bool). Sent s.gen.dst s.pkt_sent s.world r.0)
        (a_burst e packet_per_sec last_sec begin rounds s)
a_burst-Sent e packet_per_sec last_sec begin rounds s callback count next =
    After-map (λ (r : Sending (List Message) × Bool). I r.0 × Stopped r)
      (λ (r : Sending (List Message) × Bool). I r.0) _
      (a_burst-keeps e I (send_one-Sent e s.gen.dst s.pkt_sent s.world)
        (λ s' h. record {
          sent = h.sent;
          to_collect = h.to_collect;
          world = h.world;
          count = h.count;
          next = h.next;
          numbered = h.numbered;
        })
        packet_per_sec last_sec begin rounds s nothing_yet)
      (λ r h. h.0)
  where
    I : Sending (List Message) → Type 0
    I = Sent s.gen.dst s.pkt_sent s.world

    nothing_yet : Sent s.gen.dst s.pkt_sent s.world s
    nothing_yet = record {
      sent = [];
      to_collect = callback;
      world = refl;
      count = omega arith;
      next = omega arith;
      numbered = unfold Numbered in tt;
    }
