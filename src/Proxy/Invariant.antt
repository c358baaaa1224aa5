-- ===== src/Proxy/Invariant.antt =====
-- What is true of the proxy whatever comes and in whatever order, as long as the peers send whole headers and the
-- writes do not overlap.
use euthenia.Prelude.{
  ℕ, ◌+◌, ◌≡◌, true, false, Option, none, some, List, [], ◌∷◌, ◌++◌, ◌==◌, if◌then◌else◌, arith,
  Bool-cases, inl, inr,
}
use euthenia.Machine.Memory.{Memory}
use euthenia.Machine.Endian.{Endian}
use euthenia.Openflow.Header.{type_field}
use euthenia.Openflow.Types.{type_code, packet_in}
use euthenia.Dispatcher.{Message}
use euthenia.Session.Linked.{Linked}
use euthenia.Session.Piecewise.{AsksFor, Received}
use euthenia.Session.Writer.Order.{Serial}
use euthenia.Monitor.{Monitor, add_counter}
use euthenia.Monitor.Budget.{Budget, add_counter-Budget}
use euthenia.Proxy.{
  Net, System, threshold, dispatcher_from_switch, dispatcher_from_controller, dispatcher_from_ovs,
}
use euthenia.Proxy.Events.{
  event, Event, switch_reads, controller_reads, ovs_reads, switch_io, controller_io, monitor_works,
}
use euthenia.Proxy.Forwarding.{count_packet_in, counted}
use euthenia.Proxy.Merges.{Sends}

-- The bytes that each session has received.
pub record Rx : Type 0 where
  pub switch : List ℕ
  pub controller : List ℕ
  pub ovs : List ℕ

abbrev pub grow : Event → Rx → Rx
grow (switch_reads error bytes) rx = record rx { switch = rx.switch ++ bytes }
grow (controller_reads error bytes) rx = record rx { controller = rx.controller ++ bytes }
grow (ovs_reads error bytes) rx = record rx { ovs = rx.ovs ++ bytes }
grow _ rx = rx

-- No read fails, and each brings what was asked for; no write is started before the last one of its session is
-- over, and none fails.
abbrev pub AsksOvs : Option (Linked (Monitor × Net)) → List ℕ → Type 0
AsksOvs none bytes = ⊥
AsksOvs (some r) bytes = AsksFor r.reader.pending bytes

abbrev pub Admits : Event → System → Type 0
Admits (switch_reads false bytes) s = AsksFor s.s_session.reader.pending bytes
Admits (controller_reads false bytes) s = AsksFor s.c_session.reader.pending bytes
Admits (ovs_reads false bytes) s = AsksOvs s.ovs_session bytes
Admits (switch_io io) s = Serial (event io ∷ []) s.net.switch
Admits (controller_io io) s = Serial (event io ∷ []) s.net.controller
Admits (monitor_works heap) s = Unit
Admits _ s = ⊥

abbrev pub ReceivedOvs : List ℕ → List Message → Option (Linked (Monitor × Net)) → Type 0
ReceivedOvs rx whole none = whole ≡ []
ReceivedOvs rx whole (some r) = Received rx whole r.reader

abbrev pub WiredOvs : Option (Linked (Monitor × Net)) → Type 0
WiredOvs none = Unit
WiredOvs (some r) = r.dispatcher ≡ some (dispatcher_from_ovs true)

-- Each session has the dispatcher that `main` gave it.
abbrev pub Wired : Endian → Memory → System → Type 0
Wired e heap s =
    (s.s_session.dispatcher ≡ some (dispatcher_from_switch e heap))
    × (s.c_session.dispatcher ≡ some dispatcher_from_controller)
    × WiredOvs s.ovs_session

-- The messages of each peer so far, the bytes of the next that `data_` holds, and where the messages have gone.
-- Each redirection is paid for by as many packet-in messages as the threshold.
pub record Inv (e : Endian) (heap : Memory) (rx : Rx) (s : System) : Type 0 where
  pub wired : Wired e heap s
  pub of_switch : List Message
  pub of_controller : List Message
  pub of_ovs : List Message
  pub redirects : ℕ
  pub from_switch : Received rx.switch of_switch s.s_session.reader
  pub from_controller : Received rx.controller of_controller s.c_session.reader
  pub from_ovs : ReceivedOvs rx.ovs of_ovs s.ovs_session
  pub sends : Sends of_switch of_ovs of_controller redirects s.net
  pub budget : Budget (count_packet_in of_switch) redirects s.monitor
  pub limit : s.monitor.thresh_hold ≡ threshold

count_packet_in-append :
    (fs : List Message) (f : Message)
    → count_packet_in (fs ++ f ∷ [])
      ≡ count_packet_in fs + (if type_code packet_in == type_field f then 1 else 0)
count_packet_in-append [] f = omega arith
count_packet_in-append (g ∷ fs) f = omega (arith, count_packet_in-append fs f)

pub counted-Budget :
    (fs : List Message) (f : Message) (runs : ℕ) (s : Monitor)
    → Budget (count_packet_in fs) runs s
    → Budget (count_packet_in (fs ++ f ∷ [])) runs (counted f s)
counted-Budget fs f runs s h = elim (Bool-cases (type_code packet_in == type_field f)) [
  | inl e ↦ rw (count_packet_in-append fs f, e) (add_counter-Budget (count_packet_in fs) runs s h)
  | inr e ↦ rw (count_packet_in-append fs f, e) (omega (arith, h))
]

pub counted-limit : (f : Message) (s : Monitor) → (counted f s).thresh_hold ≡ s.thresh_hold
unfolding add_counter
counted-limit f s = ground arith
