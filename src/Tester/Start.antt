-- ===== src/Tester/Start.antt =====
-- From the start of the tester to the start of its test: `main` of UnitTest_PacketInTester.cpp.
use euthenia.Prelude.{
  ℕ, Bool, ◌-◌, ◌<◌, ◌≡◌, refl, true, Option, some, List, [], ◌∷◌, ◌++◌, Result, ok, ◌>>=◌, length,
  concat, arith,
}
use mathlib.Core.Option.{map}
use euthenia.Machine.Memory.{Memory}
use euthenia.Machine.Endian.{Endian}
use euthenia.Openflow.Header.{header_size, IsFrame, type_field}
use euthenia.Dispatcher.{Message, Dispatcher}
use euthenia.Dispatcher.Routing.{target}
use euthenia.Session.{header, pump, start, read}
use euthenia.Session.Framing.{deliver, pump-frames}
use euthenia.Session.Connection.{Endpoint, any_v4, listen}
use euthenia.Session.Writer.{init, write}
use euthenia.FlowGen.{FlowGen, open_device, u32}
use euthenia.Tester.{Tester, new_tester, test}
use euthenia.Tester.Main.{tester_dispatcher, log_filter, Started, main}
use euthenia.Tester.Handshake.{bare, send_hello-bare, target-answer, posting}

-- The generator that `main` makes.
abbrev opened : FlowGen Unit
opened = record {
  is_run = true;
  pd = true;
  failed = 0;
  fector = 1;
  src = u32 - 2;
  dst = 0;
  on_message = Option.none;
}

main-started :
    (e : Endian) (device : List ℕ) (arguments : List (List ℕ)) (logs : ℕ → Bool)
    (accepts : Endpoint → Bool) (stack s_data : Memory)
    → log_filter arguments ≡ ok logs
    → accepts (record { host = any_v4; port = 9000 }) ≡ true
    → main e (device ∷ arguments) true accepts stack s_data
      ≡ ok (
          some (record {
            logs = logs;
            tester = posting (bare 0 1) (new_tester opened init);
            s_session = record { buffer = s_data; pending = header };
          }))
unfolding main open_device start read new_tester listen
main-started e device arguments logs accepts stack s_data filter met =
    rw (filter, met, (send_hello-bare e stack (new_tester opened init)).0) refl

-- The tester that greets, after the request for the features, and with its test started.
abbrev greeted : Tester
greeted = posting (bare 0 1) (new_tester opened init)

abbrev asked : Tester
asked = posting (bare 5 2) greeted

abbrev testing : Tester
testing = record asked { tester_t = true }

deliver_two :
    {W : Type 0} (d : Dispatcher W) (h f : Message) (w w1 w2 : W)
    → target d (type_field h) h w ≡ ok w1
    → target d (type_field f) f w1 ≡ ok w2
    → deliver d (h ∷ f ∷ []) w ≡ ok w2
deliver_two d h f w w1 w2 first second = rw (first, second) refl

asks :
    (e : Endian) (now : ℕ) (stack : Memory) (h : Message)
    → type_field h ≡ 0
    → target (tester_dispatcher e now stack) (type_field h) h greeted ≡ ok asked
unfolding new_tester
asks e now stack h th = rw (target-answer e now stack (type_field h) h greeted, th) refl

tests :
    (e : Endian) (now : ℕ) (stack : Memory) (f : Message)
    → type_field f ≡ 6
    → target (tester_dispatcher e now stack) (type_field f) f asked ≡ ok testing
unfolding new_tester test
tests e now stack f tf = rw (target-answer e now stack (type_field f) f asked, tf) refl

module _ (e : Endian) (now : ℕ) (stack : Memory) (fuel : ℕ) where
  -- The messages posted to the switch, and whether a test has been started, after the switch has sent `rx`.
  abbrev pub conversation : (rx : List ℕ) → Started → Result (List Message × Bool)
  conversation rx st =
      pump e (tester_dispatcher e now stack) fuel st.s_session st.tester rx >>= λ t.
      ok (t.1.session.posted, t.1.tester_t)

  -- Started with a device that opens and a switch that connects, the tester greets the switch. If the switch
  -- answers with a hello and then with a features reply, whatever else they say, the tester asks for the
  -- features between the two, with the next transaction id, and starts its test.
  pub main-conversation :
      (device : List ℕ) (arguments : List (List ℕ)) (logs : ℕ → Bool) (accepts : Endpoint → Bool)
      (stack' s_data : Memory) (h f : Message) (rest : List ℕ)
      → log_filter arguments ≡ ok logs
      → accepts (record { host = any_v4; port = 9000 }) ≡ true
      → IsFrame h
      → IsFrame f
      → type_field h ≡ 0
      → type_field f ≡ 6
      → length rest < header_size
      → 4 < fuel
      → (main e (device ∷ arguments) true accepts stack' s_data >>= λ started.
          ok (map (conversation (concat (h ∷ f ∷ []) ++ rest)) started))
        ≡ ok (some (ok (bare 0 1 ∷ bare 5 2 ∷ [], true)))
  main-conversation device arguments logs accepts stack' s_data h f rest filter met hf ff th tf
        short fueled =
      let d = tester_dispatcher e now stack in
      rw
        (
          main-started e device arguments logs accepts stack' s_data filter met,
          pump-frames e d fuel s_data greeted (h ∷ f ∷ []) rest (hf, (ff, tt)) short (omega arith),
          deliver_two d h f greeted asked testing (asks e now stack h th) (tests e now stack f tf),
        )
        (unfold new_tester write in refl)
