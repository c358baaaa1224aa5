-- ===== src/Proxy/Migration.antt =====
-- When the proxy redirects the switch, and with what.
use euthenia.Prelude.{
  ℕ, ◌<◌, ◌≡◌, refl, ◌∙◌, List, [], ◌∷◌, ◌++◌, append-nil, arith, leb, if◌then◌else◌, ok, ◌>>=◌,
  length,
}
use euthenia.Machine.Memory.{Memory}
use euthenia.Machine.Endian.{Endian}
use euthenia.Dispatcher.{Message}
use euthenia.Session.Writer.{Writer}
use euthenia.Session.Writer
use euthenia.Migrator.{switch_path}
use euthenia.Migrator.FlowMod.{encode, redirect_to, prepare_switch-encode}
use euthenia.Monitor.{Monitor, resetting, acting, testing, u32, works, clear, step, run, run_action}
use euthenia.Monitor.Windows.{follow_all, window, run-window, run-append}
use euthenia.Proxy.{Net, eproxy_data_path_port, monitor_actions}
use euthenia.Proxy.Forwarding.{post_all, post_all-write}

module _ (e : Endian) (heap : Memory) where
  follow_all-post :
      (ms : List Message) (n : Net)
      → follow_all (monitor_actions e heap) ms n
        ≡ ok (record n { controller = post_all ms n.controller })
  unfolding monitor_actions
  follow_all-post [] n = rw (append-nil n.controller.posted) refl
  follow_all-post (m ∷ ms) n =
      follow_all-post ms (record n { controller = Writer.write m n.controller })
      ∙ rw (post_all-write m ms n.controller) refl

  -- The redirection to the data path port, written to the switch.
  abbrev pub redirected : Net → Net
  redirected n = record n {
    switch = Writer.write (encode (redirect_to eproxy_data_path_port)) n.switch;
  }

  pub run_action-redirected :
      (n : Net) → run_action (monitor_actions e heap).action n ≡ ok (redirected n)
  unfolding monitor_actions switch_path
  run_action-redirected n = rw (prepare_switch-encode e heap eproxy_data_path_port)

  after_window :
      (s : Monitor) (n : Net) (k : ℕ)
      → (run
            (monitor_actions e heap)
            (works ∷ [])
            (record s { counter = k; worker = if leb s.thresh_hold k then acting else testing }, n)
          >>= λ t. ok t.1)
        ≡ ok (if leb s.thresh_hold k then redirected n else n)
  unfolding run step clear
  after_window s n k = ground (arith, run_action-redirected n)

  -- In a window of the monitor every packet-in message goes on to the controller, in order. Exactly if there
  -- were as many as the threshold, the next step of the monitor's thread posts one flow-mod to the switch, the
  -- encoding of the redirection to port 3; otherwise nothing is posted to the switch.
  pub window-redirects :
      (ms ns : List Message) (s : Monitor) (n : Net)
      → s.worker ≡ resetting
      → length (ms ++ ns) < u32
      → (run (monitor_actions e heap) (window (monitor_actions e heap) ms ns ++ works ∷ []) (s, n)
          >>= λ t. ok t.1)
        ≡ (let n' : Net = record n { controller = post_all (ms ++ ns) n.controller } in
            ok (if leb s.thresh_hold (length (ms ++ ns)) then redirected n' else n'))
  window-redirects ms ns s n here small =
      let a = monitor_actions e heap in
      rw
        (
          run-append a (window a ms ns) (works ∷ []) (s, n),
          run-window a ms ns s n here small,
          follow_all-post (ms ++ ns) n,
        )
        (after_window s (record n { controller = post_all (ms ++ ns) n.controller })
          (length (ms ++ ns)))
