-- ===== src/Proxy.antt =====
-- eproxy.cpp: the proxy between a switch and its controller. `main` wires two sessions, their
-- dispatchers, the packet-in monitor and the migrator together, in both of its builds, with OVS_ASSIST and without.
pub mod Forwarding
pub mod Migration
pub mod Delivery
pub mod Events
pub mod Merges
pub mod Invariant
pub mod Moves
pub mod Steps
pub mod Runs
pub mod Severity
pub mod Drains
use euthenia.Prelude.{
  ℕ, Bool, true, false, not, ◌&&◌, ◌||◌, if◌then◌else◌, Option, none, some, List, ok, ◌>>=◌,
}
use euthenia.Prelude.Int.{ℤ, pos, ltb_ℤ}
use mathlib.Core.Option.{get_or}
use euthenia.Numerals.{stoi}
use euthenia.Machine.Memory.{Memory}
use euthenia.Machine.Endian.{Endian}
use euthenia.Openflow.Types.{packet_in}
use euthenia.Dispatcher.{
  Message, Callback, Dispatcher, empty, set_default_callback, set_callback_on_message,
}
use euthenia.Session.{Reader, idle}
use euthenia.Session
use euthenia.Session.Linked.{Linked, new_session, set_dispatcher}
use euthenia.Session.Linked
use euthenia.Session.Connection.{Endpoint, unconnected, loopback, listen, connect}
use euthenia.Session.Writer.{Writer}
use euthenia.Session.Writer
use euthenia.Migrator.{switch_path}
use euthenia.Monitor.{Monitor, Actions, set_trigger_action, set_follow_action, on_message, start}
use euthenia.Monitor

-- The writing sides of `s_session` and `c_session`.
pub record Net : Type 0 where
  pub switch : Writer
  pub controller : Writer

-- std::bind(&Session::write, c_session, _1) and std::bind(&Session::write, s_session, _1)
abbrev pub write_to_controller : Callback Net
write_to_controller message n = ok (record n { controller = Writer.write message n.controller })

abbrev pub write_to_switch : Callback Net
write_to_switch message n = ok (record n { switch = Writer.write message n.switch })

-- A callback that leaves the monitor alone.
abbrev pub beside : Callback Net → Callback (Monitor × Net)
beside f message (s, n) = f message n >>= λ n'. ok (s, n')

-- The port that `main` gives to the migrator, and the monitor's sample rate and threshold.
abbrev pub eproxy_data_path_port : ℕ
eproxy_data_path_port = 3

abbrev pub sample_rate : ℕ
sample_rate = 500

abbrev pub threshold : ℕ
threshold = 10

module _ (e : Endian) (heap : Memory) where
  -- `monitor` with its trigger action and its follow action. `heap` is what the migrator's new
  -- buffer happens to hold.
  unfoldable pub monitor_actions : Actions Net
  monitor_actions = set_follow_action (some write_to_controller) (
      set_trigger_action
        (some λ n. ok (record n { switch = switch_path e heap eproxy_data_path_port n.switch }))
        (record { action = none; follow = none }))

  unfoldable pub dispatcher_from_switch : Dispatcher (Monitor × Net)
  unfolding monitor_actions
  dispatcher_from_switch =
      set_callback_on_message packet_in (some (on_message monitor_actions))
        (set_default_callback (some (beside write_to_controller)) empty)

unfoldable pub dispatcher_from_controller : Dispatcher (Monitor × Net)
dispatcher_from_controller = set_default_callback (some (beside write_to_switch)) empty

-- Under OVS_ASSIST; else nothing is registered, and there is no session.
unfoldable pub dispatcher_from_ovs : (ovs_assist : Bool) → Dispatcher (Monitor × Net)
dispatcher_from_ovs ovs_assist =
    if ovs_assist then set_default_callback (some (beside write_to_controller)) empty else empty

-- The severity from the command line: 2 if there is none, and if `stoi` throws.
unfoldable pub severity_of : (argument : Option (List ℕ)) → ℤ
unfolding stoi
severity_of none = pos 2
severity_of (some text) = get_or (stoi text) (pos 2)

-- Whether a line of the level is logged, after `boost_log_init`.
unfoldable pub boost_log_init : (severity : ℤ) → (level : ℕ) → Bool
boost_log_init severity level = not (ltb_ℤ (pos level) severity)

pub record System : Type 0 where
  pub monitor : Monitor
  pub net : Net
  pub s_session : Linked (Monitor × Net)
  pub c_session : Linked (Monitor × Net)
  pub ovs_session : Option (Linked (Monitor × Net))

-- What lies in the `data_` of each session, and at which endpoints a peer is met.
pub record Outside : Type 0 where
  pub s_data : Memory
  pub c_data : Memory
  pub ovs_data : Memory
  pub connects : Endpoint → Bool
  pub accepts : Endpoint → Bool

-- `connect` and the calls of `listen` of `main`: whether all of them return.
unfoldable pub peers_met : (ovs_assist : Bool) → Outside → Bool
peers_met ovs_assist o =
    (connect o.connects 6633 "128.238.147.221" unconnected).0
    && (listen o.accepts 9000 loopback unconnected).0
    && (if ovs_assist then (listen o.accepts 9001 loopback unconnected).0 else true)

-- A session made, given its dispatcher, and started.
abbrev pub launch : Dispatcher (Monitor × Net) → Memory → Linked (Monitor × Net)
launch d contents = Linked.start (set_dispatcher d (new_session contents))

module _ (e : Endian) (heap : Memory) where
  -- The sessions and the monitor started.
  unfoldable pub launched : (ovs_assist : Bool) → Outside → System
  launched ovs_assist o = record {
    monitor = start (Monitor.init sample_rate threshold);
    net = record { switch = Writer.init; controller = Writer.init };
    s_session = launch (dispatcher_from_switch e heap) o.s_data;
    c_session = launch dispatcher_from_controller o.c_data;
    ovs_session = if ovs_assist then some (launch (dispatcher_from_ovs true) o.ovs_data) else none;
  }

  -- `main` up to `io_service.run()`: what is logged, and the system. `none` is an exception of `connect` or of
  -- `listen`, which `main` logs before it returns.
  unfoldable pub main :
      (ovs_assist : Bool) → (argument : Option (List ℕ)) → Outside → (ℕ → Bool) × Option System
  unfolding severity_of boost_log_init launched
  main ovs_assist argument o = (
    boost_log_init (severity_of argument),
    if peers_met ovs_assist o then some (launched ovs_assist o) else none,
  )
