-- ===== src/Tester/Handshake.antt =====
-- What the tester writes to the switch, and how it answers: `send_hello`, `send_feature_request` and the
-- dispatcher of UnitTest_PacketInTester.cpp.
use euthenia.Prelude.{
  suc, zero, List, [], ap, modify, true, fault, terminate, out_of_bounds, ltb, map, take, drop,
  ◌++◌, ℕ, ◌+◌, ◌%◌, ◌^◌, ◌<◌, ◌≡◌, refl, ◌∙◌, ◌∷◌, arith, length, Result, ok, ◌==◌, if◌then◌else◌,
}
use euthenia.Machine.Memory.{Memory, read, write}
use euthenia.Machine.Endian.{Endian, little, big, be, from_be}
use euthenia.Openflow.Types.{type_code, hello, features_request, ofp_version}
use euthenia.Openflow.Header.{IsFrame, type_field}
use euthenia.Openflow.Fields.{set_be, set_net-be, set_host}
use euthenia.Dispatcher.{Message, Dispatcher, find, assign, dispatch, set_callback_on_message}
use euthenia.Dispatcher
use euthenia.Dispatcher.Routing.{target, on_message-target}
use euthenia.Session.Writer.{Writer}
use euthenia.Session.Writer
use euthenia.FlowGen.{u32}
use euthenia.Tester.Main.{tester_dispatcher}
use euthenia.Tester.{
  Group, received, Tester, get_xid, send_hello, send_feature_request, on_message, test,
}

-- A message without a body as the protocol lays it out.
unfoldable pub bare : (type xid : ℕ) → Message
unfolding be
bare type xid = ofp_version ∷ type ∷ 0 ∷ 8 ∷ be 4 xid

bare-IsFrame : (type xid : ℕ) → type < 256 → IsFrame (bare type xid)
bare-IsFrame type xid h =
    unfold bare be from_be in
    record { bytes = omega arith; has_header = omega arith; counted = refl }

-- The tester's next state after it posts a message.
abbrev pub posting : Message → Tester → Tester
posting message t = record t {
  session = Writer.write message t.session;
  xid = (t.xid + 1) % 2 ^ 64;
}

-- On a host of either byte order, and whatever the stack held, `send_hello` posts one message, a hello
-- without a body, whole, with the next transaction id.
pub send_hello-bare :
    (e : Endian) (m : Memory) (t : Tester)
    → (let message = bare (type_code hello) ((t.xid + 1) % 2 ^ 64 % u32) in
        (send_hello e m t ≡ posting message t) × IsFrame message)
unfolding send_hello get_xid
send_hello-bare little m t = (
  simp set_net-be (unfold read write set_be set_host bare be in refl),
  bare-IsFrame _ _ (omega arith),
)
send_hello-bare big m t = (
  simp set_net-be (unfold read write set_be set_host bare be in refl),
  bare-IsFrame _ _ (omega arith),
)

send_feature_request-bare :
    (e : Endian) (m : Memory) (msg : Message) (t : Tester)
    → send_feature_request e m msg t
      ≡ posting (bare (type_code features_request) ((t.xid + 1) % 2 ^ 64 % u32)) t
unfolding send_feature_request get_xid
send_feature_request-bare little m msg t =
    simp set_net-be (unfold read write set_be set_host bare be in refl)
send_feature_request-bare big m msg t =
    simp set_net-be (unfold read write set_be set_host bare be in refl)

-- A group that has counted one packet-in message more, in the second `now`.
abbrev pub noted : (now : ℕ) → Group → Group
noted now g = record g {
  successed_pktin = (g.successed_pktin + 1) % 2 ^ 32;
  last_packet_time_stamp = now % 2 ^ 32;
  first_packet_time_stamp =
      if g.first_packet_time_stamp == 0 then now % 2 ^ 32 else g.first_packet_time_stamp;
}

-- The current group, the one at `group_index`, counts a message; there must be one.
abbrev counts : (now : ℕ) → Tester → Result Tester
counts now t =
    if ltb t.group_index (length t.groups)
    then ok (record t {
      groups =
          take t.group_index t.groups
          ++ (map (noted now) (take 1 (drop t.group_index t.groups))
              ++ drop (suc t.group_index) t.groups);
    })
    else fault out_of_bounds

-- What the tester does with a message of a type.
abbrev pub answer : (type now : ℕ) → Tester → Result Tester
answer type now t =
    if type == 0
    then ok (posting (bare 5 ((t.xid + 1) % 2 ^ 64 % u32)) t)
    else (if type == 6
        then (if t.tester_t then fault terminate else ok (record t { tester_t = true }))
        else (if type == 10 then counts now t else ok t))

modify-parts :
    (gs : List Group) (i : ℕ) (f : Group → Group)
    → modify gs i f ≡ take i gs ++ (map f (take 1 (drop i gs)) ++ drop (suc i) gs)
modify-parts [] zero f = refl
modify-parts [] (suc i) f = refl
modify-parts (g ∷ gs) zero f = refl
modify-parts (g ∷ gs) (suc i) f = ap (◌∷◌ g) (modify-parts gs i f)

on_message-counts : (now : ℕ) (msg : Message) (t : Tester) → on_message now msg t ≡ counts now t
unfolding on_message received
on_message-counts now msg t =
    ap
      (λ gs.
        if ltb t.group_index (length t.groups)
        then ok (record t { groups = gs })
        else fault out_of_bounds)
      (modify-parts t.groups t.group_index (noted now))

pub target-answer :
    (e : Endian) (now : ℕ) (stack : Memory) (type : ℕ) (msg : Message) (t : Tester)
    → target (tester_dispatcher e now stack) type msg t ≡ answer type now t
unfolding tester_dispatcher set_callback_on_message find assign dispatch test
target-answer e now stack type msg t =
    ground (arith, send_feature_request-bare e stack msg t, on_message-counts now msg t)

-- A hello is answered by one features request, whole and with the next transaction id; a features reply
-- starts the test, once: a second one ends the process; a packet-in message adds one to the count of the current
-- group, with its second noted as the last and, if there was none, as the first; every other message changes nothing.
pub on_message-answer :
    (e : Endian) (now : ℕ) (stack m : Memory) (bs : Message) (t : Tester)
    → IsFrame bs
    → read m 0 (length bs) ≡ bs
    → Dispatcher.on_message e (tester_dispatcher e now stack) m t ≡ answer (type_field bs) now t
on_message-answer e now stack m bs t frame held =
    on_message-target e (tester_dispatcher e now stack) m bs t frame held
    ∙ target-answer e now stack (type_field bs) bs t
