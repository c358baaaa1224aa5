-- ===== src/Monitor/Budget.antt =====
-- How often a PKTINMonitor may act: each run of the action is paid for by messages of its own.
use euthenia.Prelude.{ℕ, suc, ◌+◌, ◌*◌, ◌≤◌, ◌≡◌, refl, leb, if◌then◌else◌, ok, ◌>>=◌, arith}
use euthenia.Monitor.{
  Monitor, Pc, absent, testing, resetting, sleeping, comparing, acting, finished, Actions, init,
  start, add_counter, clear, run_action,
}

-- The messages counted that no run of the action has used up, while the window is open.
abbrev live : Pc → ℕ → ℕ
live sleeping n = n
live comparing n = n
live _ n = 0

-- What the run that is due has used up.
abbrev due : Pc → ℕ → ℕ
due acting n = n
due _ n = 0

-- Out of `total` messages the action has run `runs` times.
abbrev pub Budget : (total runs : ℕ) → Monitor → Type 0
Budget total runs s =
    runs * s.thresh_hold + (due s.worker s.thresh_hold + live s.worker s.counter) ≤ total

pub init-Budget : (rate threshold : ℕ) → Budget 0 0 (start (init rate threshold))
unfolding start
init-Budget rate threshold = omega arith

pub add_counter-Budget :
    (total runs : ℕ) (s : Monitor) → Budget total runs s → Budget (total + 1) runs (add_counter s)
unfolding add_counter
add_counter-Budget total runs s h = ground arith

-- A step of the thread: it runs the action, or leaves all but the monitor alone.
pub data Cleared {W : Type 0} (a : Actions W) (s : Monitor) (w : W) : Type 0 where
  rests :
      (s' : Monitor)
      → clear a (s, w) ≡ ok (s', w)
      → s'.thresh_hold ≡ s.thresh_hold
      → ((total runs : ℕ) → Budget total runs s → Budget total runs s')
      → Cleared a s w
  acts :
      (s' : Monitor)
      → clear a (s, w) ≡ (run_action a.action w >>= λ w'. ok (s', w'))
      → s'.thresh_hold ≡ s.thresh_hold
      → ((total runs : ℕ) → Budget total runs s → Budget total (suc runs) s')
      → Cleared a s w

module _ {W : Type 0} (a : Actions W) (s : Monitor) (w : W) where
  clear_at-Cleared : (p : Pc) → s.worker ≡ p → Cleared a s w
  unfolding clear
  clear_at-Cleared absent here = rests s (rw here refl) refl (λ total runs h. h)
  clear_at-Cleared testing here =
      rests (record s { worker = if s.is_running then resetting else finished }) (rw here refl) refl
        (λ total runs h. ground (arith, here, h))
  clear_at-Cleared resetting here =
      rests (record s { counter = 0; worker = sleeping }) (rw here refl) refl
        (λ total runs h. ground (arith, here, h))
  clear_at-Cleared sleeping here =
      rests (record s { worker = comparing }) (rw here refl) refl
        (λ total runs h. ground (arith, here, h))
  clear_at-Cleared comparing here =
      rests (record s { worker = if leb s.thresh_hold s.counter then acting else testing })
        (rw here refl) refl (λ total runs h. ground (arith, here, h))
  clear_at-Cleared acting here =
      acts (record s { worker = testing }) (rw here refl) refl
        (λ total runs h. ground (arith, here, h))
  clear_at-Cleared finished here = rests s (rw here refl) refl (λ total runs h. h)

  pub clear-Cleared : Cleared a s w
  clear-Cleared = clear_at-Cleared s.worker refl
