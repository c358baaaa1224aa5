-- ===== src/Tester.antt =====
-- PacketInTester.h and PacketInTester.cpp: a tester that sends bursts of
-- new flows through a switch, and counts the packet-in messages that come back. Two threads share the
-- tester; here the messages of the io_service's thread come between the steps of the other, so the race on
-- `data` while it grows is not seen.
pub mod Handshake
pub mod Groups
pub mod Leaves
pub mod Rounds
pub mod Main
pub mod Severity
pub mod Start
use euthenia.Prelude.{
  ℕ, ◌+◌, ◌-◌, ◌/◌, ◌%◌, ◌^◌, Bool, true, false, Option, none, some, List, [], ◌∷◌, ◌++◌, length,
  modify, replicate, ltb, leb, ◌==◌, if◌then◌else◌, Result, ok, fault, out_of_bounds,
  division_by_zero, terminate, ◌>>=◌, not, ◌&&◌,
}
use mathlib.Core.Option.{map}
use euthenia.Machine.Memory.{Memory, read}
use euthenia.Machine.Endian.{Endian}
use euthenia.Openflow.Structs.Ports.{ofp_header}
use euthenia.Openflow.Types.{
  type_code, hello, features_request, features_reply, packet_in, ofp_version,
}
use euthenia.Openflow.Header.{header_size}
use euthenia.Openflow.Fields.{set_host, set_net}
use euthenia.Dispatcher.{Message, Dispatcher, empty, set_callback_on_message}
use euthenia.Session.{Reader, idle}
use euthenia.Session
use euthenia.Session.Connection.{Endpoint, unconnected, loopback, listen}
use euthenia.Session.Writer.{Writer}
use euthenia.Session.Writer
use euthenia.FlowGen.{FlowGen, Round, a_burst, open_device, u32}
use euthenia.FlowGen.Time.{Timespec}

pub record Group : Type 0 where
  pub time : ℕ
  pub sent_flow : ℕ
  pub sent_flow_per_sec : ℕ
  pub successed_flow : ℕ
  pub successed_pktin : ℕ
  pub avg_success_flow_per_sec : ℕ
  pub first_packet_time_stamp : ℕ
  pub last_packet_time_stamp : ℕ
  pub buffered_pkt : List ℕ
  pub running : Bool

abbrev pub new_group : Group
new_group = record {
  time = 0;
  sent_flow = 0;
  sent_flow_per_sec = 0;
  successed_flow = 0;
  successed_pktin = 0;
  avg_success_flow_per_sec = 0;
  first_packet_time_stamp = 0;
  last_packet_time_stamp = 0;
  buffered_pkt = [];
  running = true;
}

-- `tester_t` tells whether the pointer holds a thread.
pub record Tester : Type 0 where
  pub session : Writer
  pub flow_gen : FlowGen Unit
  pub xid : ℕ
  pub group_index : ℕ
  pub groups : List Group
  pub tester_t : Bool

-- The constructor; `groups` is `data(2048)`.
unfoldable pub new_tester : FlowGen Unit → Writer → Tester
new_tester flow_gen session = record {
  session = session;
  flow_gen = flow_gen;
  xid = 0;
  group_index = 0;
  groups = replicate 2048 new_group;
  tester_t = false;
}

-- `++XID` on 64 bits, of which `get_XID` returns 32.
unfoldable pub get_xid : Tester → ℕ × Tester
get_xid t = let xid = (t.xid + 1) % 2 ^ 64 in (xid % u32, record t { xid = xid })

module _ (e : Endian) where
  -- `hello` holds what the stack held.
  unfoldable pub send_hello : (hello : Memory) → Tester → Tester
  unfolding get_xid
  send_hello m t =
      let (xid, t) = get_xid t in
      let m = set_host e ofp_header 0 "type" (type_code hello) m in
      let m = set_host e ofp_header 0 "version" ofp_version m in
      let m = set_net e ofp_header 0 "length" header_size m in
      let m = set_net e ofp_header 0 "xid" xid m in
      record t { session = Writer.write (read m 0 header_size) t.session }

  -- The message that it answers is only logged.
  unfoldable pub send_feature_request : (feature_request : Memory) → Message → Tester → Tester
  unfolding get_xid
  send_feature_request m msg t =
      let (xid, t) = get_xid t in
      let m = set_host e ofp_header 0 "version" ofp_version m in
      let m = set_host e ofp_header 0 "type" (type_code features_request) m in
      let m = set_net e ofp_header 0 "length" header_size m in
      let m = set_net e ofp_header 0 "xid" xid m in
      record t { session = Writer.write (read m 0 header_size) t.session }

-- A group at a packet-in message; `now` is the clock's second.
unfoldable pub received : (now : ℕ) → Group → Group
received now g = record g {
  first_packet_time_stamp =
      if g.first_packet_time_stamp == 0 then now % u32 else g.first_packet_time_stamp;
  last_packet_time_stamp = now % u32;
  successed_pktin = (g.successed_pktin + 1) % u32;
}

unfoldable pub on_message : (now : ℕ) → Message → Tester → Result Tester
unfolding received
on_message now msg t =
    if ltb t.group_index (length t.groups)
    then ok (record t { groups = modify t.groups t.group_index (received now) })
    else fault out_of_bounds

-- The group with a new count, and whether a timer is set to count again.
unfoldable pub calculate_buffered_packet : Group → Group × Bool
calculate_buffered_packet g = (
  record g {
    buffered_pkt = g.buffered_pkt ++ ((g.sent_flow + u32 - g.successed_pktin) % u32) ∷ [];
  },
  g.running,
)

-- A new thread; the one that the pointer held before is destroyed, and is joinable.
unfoldable pub test : Message → Tester → Result Tester
test msg t = if t.tester_t then fault terminate else ok (record t { tester_t = true })

-- What the environment does in one round of `do_test`: the clock and the transmissions of its burst, and the
-- packet-in messages up to the next round, with their seconds.
pub record Trial : Type 0 where
  pub begin : Timespec
  pub rounds : List Round
  pub arrivals : List (ℕ × Message)

unfoldable pub receive : List (ℕ × Message) → Tester → Result Tester
unfolding on_message
receive [] t = ok t
receive ((now, msg) ∷ rest) t = on_message now msg t >>= receive rest

-- The group, the tester, and whether the round has ended.
pub record Outcome : Type 0 where
  pub group : Group
  pub tester : Tester
  pub ended : Bool

module _ (e : Endian) where
  -- What follows the burst, when it has ended.
  unfoldable pub close_group : (last_sec : ℕ) → Group → Tester → Result Outcome
  close_group last_sec group t =
      if last_sec == 0
      then fault division_by_zero
      else ok (record {
        group = record group { time = last_sec; sent_flow_per_sec = group.sent_flow / last_sec };
        tester = record t { group_index = (t.group_index + 1) % u32 };
        ended = true;
      })

  unfoldable pub group_test : Trial → Group → (last_sec packet_count : ℕ) → Tester → Result Outcome
  unfolding receive close_group
  group_test trial group last_sec packet_count t =
      a_burst e packet_count last_sec trial.begin trial.rounds
        (record { gen = t.flow_gen; pkt_sent = group.sent_flow; world = tt })
      >>= λ r. receive trial.arrivals (record t { flow_gen = r.0.gen }) >>= λ t'.
          let group' = record group { sent_flow = r.0.pkt_sent } in
          if r.1
          then close_group last_sec group' t'
          else ok (record { group = group'; tester = t'; ended = false })

  -- `for(i = start; i <= end; i += step)`, for the rounds that the environment grants: the tester, and whether
  -- the loop has ended. The local group dies after the copy of it is pushed.
  unfoldable pub do_test_from : (i : ℕ) → List Trial → Tester → Result (Tester × Bool)
  unfolding group_test
  do_test_from i [] t = ok (t, ltb 2000 i)
  do_test_from i (trial ∷ trials) t =
      let round = group_test trial new_group 5 i t >>= λ o.
      let pushed = record o.tester { groups = o.tester.groups ++ o.group ∷ [] } in
      let rest = do_test_from ((i + 100) % u32) trials pushed in
      if o.ended then rest else ok (o.tester, false) in
      if leb i 2000 then round else ok (t, true)

  unfoldable pub do_test : List Trial → Tester → Result (Tester × Bool)
  unfolding do_test_from
  do_test trials t = do_test_from 100 trials t
