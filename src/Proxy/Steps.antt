-- ===== src/Proxy/Steps.antt =====
-- Every admitted step of the proxy keeps the invariant.
use euthenia.Prelude.{
  ℕ, suc, ◌≡◌, refl, ◌∙◌, true, false, Option, none, some, List, [], ◌∷◌, ◌++◌, ok, ◌>>=◌, Returns,
}
use euthenia.Machine.Memory.{Memory}
use euthenia.Machine.Endian.{Endian}
use euthenia.Session.Linked.{Linked, completes-set}
use euthenia.Session.Piecewise.{complete-Moved}
use euthenia.Session.Writer.Order.{written}
use euthenia.Monitor.{Monitor, clear}
use euthenia.Monitor.Budget.{clear-Cleared, Cleared, rests, acts}
use euthenia.Proxy.{
  Net, System, dispatcher_from_switch, dispatcher_from_controller, dispatcher_from_ovs,
  monitor_actions,
}
use euthenia.Proxy.Events.{
  Io, starts, sends, ends, fails, event, Event, switch_reads, controller_reads, ovs_reads,
  switch_io, controller_io, monitor_works, step, ovs_completes,
}
use euthenia.Proxy.Migration.{run_action-redirected}
use euthenia.Proxy.Merges.{Sends-redirection, Sends-switch_io, Sends-controller_io}
use euthenia.Proxy.Invariant.{Rx, grow, AsksOvs, Admits, Inv}
use euthenia.Proxy.Moves.{switch_moves, controller_moves, ovs_moves}

-- The io_service writes no message of its own.
event-written : (io : Io) → written (event io ∷ []) ≡ []
event-written starts = refl
event-written (sends i k) = refl
event-written (ends i) = refl
event-written (fails i) = refl

module _ (e : Endian) (heap : Memory) where
  ovs-Inv :
      (r : Option (Linked (Monitor × Net))) (bytes : List ℕ) (rx : Rx) (s : System)
      → s.ovs_session ≡ r
      → Inv e heap rx s
      → AsksOvs r bytes
      → Returns (Inv e heap (record rx { ovs = rx.ovs ++ bytes })) (ovs_completes e r false bytes s)
  unfolding ovs_completes
  ovs-Inv none bytes rx s same h asked = absurd asked
  ovs-Inv (some r) bytes rx s same h asked =
      let wired : r.dispatcher ≡ some (dispatcher_from_ovs true) = rw same at h.wired.2 in
      rw (completes-set (dispatcher_from_ovs true) e false bytes r (s.monitor, s.net) wired) (
        ovs_moves e heap rx s h r bytes h.of_ovs _ wired refl (
          complete-Moved e (dispatcher_from_ovs true) rx.ovs h.of_ovs bytes r.reader
            (s.monitor, s.net) (rw same at h.from_ovs) asked))

  monitor-Inv :
      (heap' : Memory) (rx : Rx) (s : System) (h : Inv e heap rx s)
      → Cleared (monitor_actions e heap') s.monitor s.net
      → Returns (Inv e heap rx) (
          clear (monitor_actions e heap') (s.monitor, s.net) >>= λ t.
          ok (record s { monitor = t.0; net = t.1 }))
  monitor-Inv heap' rx s h (rests m runs same paid) = rw runs (record {
    wired = h.wired;
    of_switch = h.of_switch;
    of_controller = h.of_controller;
    of_ovs = h.of_ovs;
    redirects = h.redirects;
    from_switch = h.from_switch;
    from_controller = h.from_controller;
    from_ovs = h.from_ovs;
    sends = h.sends;
    budget = paid _ h.redirects h.budget;
    limit = same ∙ h.limit;
  })
  monitor-Inv heap' rx s h (acts m runs same paid) =
      rw (runs, run_action-redirected e heap' s.net)
        (record {
          wired = h.wired;
          of_switch = h.of_switch;
          of_controller = h.of_controller;
          of_ovs = h.of_ovs;
          redirects = suc h.redirects;
          from_switch = h.from_switch;
          from_controller = h.from_controller;
          from_ovs = h.from_ovs;
          sends = Sends-redirection h.sends;
          budget = paid _ h.redirects h.budget;
          limit = same ∙ h.limit;
        })

  -- Every event that is admitted happens, and keeps the invariant.
  pub step-Inv :
      (ev : Event) (rx : Rx) (s : System)
      → Inv e heap rx s
      → Admits ev s
      → Returns (Inv e heap (grow ev rx)) (step e ev s)
  unfolding step
  step-Inv (switch_reads false bytes) rx s h asked =
      rw
        (completes-set (dispatcher_from_switch e heap) e false bytes s.s_session (s.monitor, s.net)
          h.wired.0)
        (switch_moves e heap rx s h bytes _ (
          complete-Moved e (dispatcher_from_switch e heap) rx.switch h.of_switch bytes
            s.s_session.reader (s.monitor, s.net) h.from_switch asked))
  step-Inv (controller_reads false bytes) rx s h asked =
      rw
        (completes-set dispatcher_from_controller e false bytes s.c_session (s.monitor, s.net)
          h.wired.1)
        (controller_moves e heap rx s h bytes _ (
          complete-Moved e dispatcher_from_controller rx.controller h.of_controller bytes
            s.c_session.reader (s.monitor, s.net) h.from_controller asked))
  step-Inv (ovs_reads false bytes) rx s h asked = ovs-Inv s.ovs_session bytes rx s refl h asked
  step-Inv (switch_io io) rx s h serial = record {
    wired = h.wired;
    of_switch = h.of_switch;
    of_controller = h.of_controller;
    of_ovs = h.of_ovs;
    redirects = h.redirects;
    from_switch = h.from_switch;
    from_controller = h.from_controller;
    from_ovs = h.from_ovs;
    sends = Sends-switch_io h.sends (event io) serial (event-written io);
    budget = h.budget;
    limit = h.limit;
  }
  step-Inv (controller_io io) rx s h serial = record {
    wired = h.wired;
    of_switch = h.of_switch;
    of_controller = h.of_controller;
    of_ovs = h.of_ovs;
    redirects = h.redirects;
    from_switch = h.from_switch;
    from_controller = h.from_controller;
    from_ovs = h.from_ovs;
    sends = Sends-controller_io h.sends (event io) serial (event-written io);
    budget = h.budget;
    limit = h.limit;
  }
  step-Inv (monitor_works heap') rx s h asked =
      monitor-Inv heap' rx s h (clear-Cleared (monitor_actions e heap') s.monitor s.net)
  step-Inv (switch_reads true bytes) rx s h asked = absurd asked
  step-Inv (controller_reads true bytes) rx s h asked = absurd asked
  step-Inv (ovs_reads true bytes) rx s h asked = absurd asked
