-- ===== src/Proxy/Moves.antt =====
-- A completed read of a session of the proxy keeps the invariant.
use euthenia.Prelude.{ℕ, ◌≡◌, ◌∙◌, true, some, List, [], ◌∷◌, ◌++◌, Result, ok, ◌>>=◌, Returns}
use euthenia.Machine.Memory.{Memory}
use euthenia.Machine.Endian.{Endian}
use euthenia.Dispatcher.{Message}
use euthenia.Session.{Reader}
use euthenia.Session.Linked.{Linked, put_back}
use euthenia.Session.Piecewise.{Moved, waits, passes}
use euthenia.Monitor.{Monitor}
use euthenia.Proxy.{
  Net, System, dispatcher_from_switch, dispatcher_from_controller, dispatcher_from_ovs,
}
use euthenia.Proxy.Forwarding.{target_from_switch, target_from_controller, target_from_ovs}
use euthenia.Proxy.Merges.{Sends-from_switch, Sends-from_controller, Sends-from_ovs}
use euthenia.Proxy.Invariant.{Rx, Inv, counted-Budget, counted-limit}

-- A session's move, and the next state made of it.
module _ (e : Endian) (heap : Memory) (rx : Rx) (s : System) (h : Inv e heap rx s) where
  pub switch_moves :
      (bytes : List ℕ) (done : Result (Reader × (Monitor × Net)))
      → Moved
          (dispatcher_from_switch e heap)
          (rx.switch ++ bytes)
          h.of_switch
          (s.monitor, s.net)
          done
      → Returns (Inv e heap (record rx { switch = rx.switch ++ bytes })) (
          done >>= (λ t. ok (put_back s.s_session t)) >>= λ t.
          ok (record s { s_session = t.0; monitor = t.1.0; net = t.1.1 }))
  switch_moves bytes done (waits r runs received) = rw runs (record {
    wired = h.wired;
    of_switch = h.of_switch;
    of_controller = h.of_controller;
    of_ovs = h.of_ovs;
    redirects = h.redirects;
    from_switch = received;
    from_controller = h.from_controller;
    from_ovs = h.from_ovs;
    sends = h.sends;
    budget = h.budget;
    limit = h.limit;
  })
  switch_moves bytes done (passes r f runs received) =
      rw (runs, target_from_switch e heap f s.monitor s.net)
        (record {
          wired = h.wired;
          of_switch = h.of_switch ++ f ∷ [];
          of_controller = h.of_controller;
          of_ovs = h.of_ovs;
          redirects = h.redirects;
          from_switch = received;
          from_controller = h.from_controller;
          from_ovs = h.from_ovs;
          sends = Sends-from_switch h.sends f;
          budget = counted-Budget h.of_switch f h.redirects s.monitor h.budget;
          limit = counted-limit f s.monitor ∙ h.limit;
        })

  pub controller_moves :
      (bytes : List ℕ) (done : Result (Reader × (Monitor × Net)))
      → Moved dispatcher_from_controller
          (rx.controller ++ bytes)
          h.of_controller
          (s.monitor, s.net)
          done
      → Returns (Inv e heap (record rx { controller = rx.controller ++ bytes })) (
          done >>= (λ t. ok (put_back s.c_session t)) >>= λ t.
          ok (record s { c_session = t.0; monitor = t.1.0; net = t.1.1 }))
  controller_moves bytes done (waits r runs received) = rw runs (record {
    wired = h.wired;
    of_switch = h.of_switch;
    of_controller = h.of_controller;
    of_ovs = h.of_ovs;
    redirects = h.redirects;
    from_switch = h.from_switch;
    from_controller = received;
    from_ovs = h.from_ovs;
    sends = h.sends;
    budget = h.budget;
    limit = h.limit;
  })
  controller_moves bytes done (passes r f runs received) =
      rw (runs, target_from_controller f s.monitor s.net)
        (record {
          wired = h.wired;
          of_switch = h.of_switch;
          of_controller = h.of_controller ++ f ∷ [];
          of_ovs = h.of_ovs;
          redirects = h.redirects;
          from_switch = h.from_switch;
          from_controller = received;
          from_ovs = h.from_ovs;
          sends = Sends-from_controller h.sends f;
          budget = h.budget;
          limit = h.limit;
        })

  pub ovs_moves :
      (r : Linked (Monitor × Net)) (bytes : List ℕ) (whole : List Message)
      (done : Result (Reader × (Monitor × Net)))
      → r.dispatcher ≡ some (dispatcher_from_ovs true)
      → whole ≡ h.of_ovs
      → Moved (dispatcher_from_ovs true) (rx.ovs ++ bytes) whole (s.monitor, s.net) done
      → Returns (Inv e heap (record rx { ovs = rx.ovs ++ bytes })) (
          done >>= (λ t. ok (put_back r t)) >>= λ t.
          ok (record s { ovs_session = some t.0; monitor = t.1.0; net = t.1.1 }))
  ovs_moves r bytes whole done linked same (waits r' runs received) = rw runs (record {
    wired = (h.wired.0, h.wired.1, linked);
    of_switch = h.of_switch;
    of_controller = h.of_controller;
    of_ovs = whole;
    redirects = h.redirects;
    from_switch = h.from_switch;
    from_controller = h.from_controller;
    from_ovs = received;
    sends = rw same h.sends;
    budget = h.budget;
    limit = h.limit;
  })
  ovs_moves r bytes whole done linked same (passes r' f runs received) =
      rw (runs, target_from_ovs f s.monitor s.net)
        (record {
          wired = (h.wired.0, h.wired.1, linked);
          of_switch = h.of_switch;
          of_controller = h.of_controller;
          of_ovs = whole ++ f ∷ [];
          redirects = h.redirects;
          from_switch = h.from_switch;
          from_controller = h.from_controller;
          from_ovs = received;
          sends = rw same (Sends-from_ovs h.sends f);
          budget = h.budget;
          limit = h.limit;
        })
