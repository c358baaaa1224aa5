-- ===== src/Tester/Main.antt =====
-- UnitTest_PacketInTester.cpp: the dispatcher of the tester, and `main`.
use euthenia.Prelude.{
  ℕ, Bool, true, not, Option, none, some, List, [], ◌∷◌, if◌then◌else◌, Result, ok, fault,
  signed_overflow, ◌>>=◌,
}
use euthenia.Prelude.Int.{ℤ, pos, ltb_ℤ}
use mathlib.Core.Option.{map}
use euthenia.Numerals.{atoi}
use euthenia.Machine.Memory.{Memory}
use euthenia.Machine.Endian.{Endian}
use euthenia.Openflow.Types.{hello, features_reply, packet_in}
use euthenia.Dispatcher.{Dispatcher, empty, set_callback_on_message}
use euthenia.Session.{Reader, idle}
use euthenia.Session
use euthenia.Session.Connection.{Endpoint, unconnected, loopback, listen}
use euthenia.Session.Writer
use euthenia.FlowGen.{FlowGen, open_device}
use euthenia.Tester.{Tester, new_tester, send_hello, send_feature_request, test, on_message}

-- Whether a line of the level is logged, after `boost_log_init`.
unfoldable pub boost_log_init : (severity : ℤ) → (level : ℕ) → Bool
boost_log_init severity level = not (ltb_ℤ (pos level) severity)

-- The number of `atoi`, given to `boost_log_init`. Where nothing is promised the conversion overflows.
unfoldable pub filter_from : Option ℤ → Result (ℕ → Bool)
unfolding boost_log_init
filter_from none = fault signed_overflow
filter_from (some severity) = ok (boost_log_init severity)

-- What is logged, by the arguments after the device: without a call of `boost_log_init`, everything.
unfoldable pub log_filter : (arguments : List (List ℕ)) → Result (ℕ → Bool)
unfolding filter_from atoi
log_filter (severity ∷ more ∷ others) = filter_from (atoi severity)
log_filter _ = ok λ level. true

-- What `main` has when it runs the io_service.
pub record Started : Type 0 where
  pub logs : ℕ → Bool
  pub tester : Tester
  pub s_session : Reader

module _ (e : Endian) where
  -- The dispatcher of `main`, for the second in which a message comes, and what the stack holds.
  unfoldable pub tester_dispatcher : (now : ℕ) (stack : Memory) → Dispatcher Tester
  unfolding send_feature_request test on_message
  tester_dispatcher now stack = set_callback_on_message packet_in (some (on_message now)) (
      set_callback_on_message features_reply (some test) (
        set_callback_on_message hello (some λ msg t. ok (send_feature_request e stack msg t))
          empty))

  -- `main` up to `io_service.run()`, for the arguments after the name of the program. `none` is a return, an exit, or an
  -- exception of `listen`, which nothing catches.
  unfoldable pub main :
      (arguments : List (List ℕ)) (opened : Bool) (accepts : Endpoint → Bool)
      (stack s_data : Memory)
      → Result (Option Started)
  unfolding send_hello new_tester open_device log_filter
  main [] opened accepts stack s_data = ok none
  main (device ∷ arguments) opened accepts stack s_data = log_filter arguments >>= λ logs.
      let started : FlowGen Unit → Started = λ generator. record {
        logs = logs;
        tester = send_hello e stack (new_tester generator Writer.init);
        s_session = Session.start (record { buffer = s_data; pending = idle });
      } in
      let listened = (listen accepts 9000 loopback unconnected).0 in
      ok (if listened then map started (open_device opened) else none)
