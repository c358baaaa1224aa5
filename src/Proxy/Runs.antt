-- ===== src/Proxy/Runs.antt =====
-- Every run of the proxy from `main` on, with the reads, the writes and the thread in any order.
use euthenia.Prelude.{
  ℕ, ◌≡◌, refl, Bool, true, false, Option, none, some, List, [], ◌∷◌, Returns, Returns-After, After,
  if◌then◌else◌,
}
use euthenia.Machine.Memory.{Memory}
use euthenia.Machine.Endian.{Endian}
use mathlib.Core.Option.{some-injective, none-ne-some}
use euthenia.Session.{start, read}
use euthenia.Session.Linked
use euthenia.Session.Linked.{Linked, completes-set, set_dispatcher}
use euthenia.Session.Piecewise.{Received-start}
use euthenia.Monitor
use euthenia.Monitor.{Monitor, clear, run_action}
use euthenia.Monitor.Budget.{init-Budget}
use euthenia.Proxy.{launch, Net, System, Outside, launched, main, dispatcher_from_ovs}
use euthenia.Proxy.Events.{Event, step, run}
use euthenia.Proxy.Merges.{nil}
use euthenia.Proxy.Invariant.{WiredOvs, Rx, grow, Admits, ReceivedOvs, Inv}
use euthenia.Proxy.Steps.{step-Inv}

abbrev pub grow_all : List Event → Rx → Rx
grow_all [] rx = rx
grow_all (ev ∷ evs) rx = grow_all evs (grow ev rx)

-- Each event is admitted where it happens.
abbrev pub AdmitsAll : Endian → List Event → System → Type 0
AdmitsAll e [] s = Unit
AdmitsAll e (ev ∷ evs) s = Admits ev s × After (AdmitsAll e evs) (step e ev s)

module _ (e : Endian) (heap : Memory) where
  run-Inv :
      (evs : List Event) (rx : Rx) (s : System)
      → Inv e heap rx s
      → AdmitsAll e evs s
      → Returns (Inv e heap (grow_all evs rx)) (run e evs s)
  unfolding run
  run-Inv [] rx s h all = h
  run-Inv (ev ∷ evs) rx s h (now, later) =
      Returns-After (Inv e heap (grow ev rx)) (AdmitsAll e evs)
        (Inv e heap (grow_all evs (grow ev rx))) (step e ev s) (run e evs)
        (step-Inv e heap ev rx s h now) later λ t h' all. run-Inv evs (grow ev rx) t h' all

abbrev pub nothing_yet : Rx
nothing_yet = record { switch = []; controller = []; ovs = [] }

launched-Inv :
    (e : Endian) (heap : Memory) (ovs_assist : Bool) (o : Outside)
    → Inv e heap nothing_yet (launched e heap ovs_assist o)
unfolding launched Linked.start set_dispatcher start read
launched-Inv e heap ovs_assist o = record {
  wired = (refl, refl, wired ovs_assist);
  of_switch = [];
  of_controller = [];
  of_ovs = [];
  redirects = 0;
  from_switch = Received-start o.s_data;
  from_controller = Received-start o.c_data;
  from_ovs = ovs ovs_assist;
  sends = record {
    to_controller = [];
    to_switch = [];
    merged = nil;
    merged_switch = nil;
    controller = record { bytes = refl; single = tt };
    switch = record { bytes = refl; single = tt };
  };
  budget = init-Budget 500 10;
  limit = unfold Monitor.start in refl;
}
  where
    launched_ovs : Bool → Option (Linked (Monitor × Net))
    launched_ovs b = if b then some (launch (dispatcher_from_ovs true) o.ovs_data) else none

    wired : (b : Bool) → WiredOvs (launched_ovs b)
    wired true = refl
    wired false = tt

    ovs : (b : Bool) → ReceivedOvs [] [] (launched_ovs b)
    ovs true = Received-start o.ovs_data
    ovs false = refl

launched_when : {A : Type 0} (b : Bool) (x y : A) → (if b then some x else none) ≡ some y → x ≡ y
launched_when true x y h = some-injective x y h
launched_when false x y h = absurd (none-ne-some y h)

-- After `main`, in either build: as long as peers send headers that count themselves, no read or write fails, and
-- no write of a session is started before its last one is over, whatever comes, in whatever pieces and order,
-- nothing faults, and this is true at every moment. What each peer has sent is whole messages and the beginning of
-- one. What the controller's socket has taken and what waits to follow are the bytes of the switch's messages and
-- of the ovs's, in an order that keeps each of the two. Those to the switch are the controller's messages and
-- redirections to port 3, and ten packet-in messages of the switch have come for each redirection.
pub main-run :
    (e : Endian) (heap : Memory) (ovs_assist : Bool) (argument : Option (List ℕ)) (o : Outside)
    (s : System) (evs : List Event)
    → (main e heap ovs_assist argument o).1 ≡ some s
    → AdmitsAll e evs s
    → Returns (Inv e heap (grow_all evs nothing_yet)) (run e evs s)
unfolding main
main-run e heap ovs_assist argument o s evs runs all = run-Inv e heap evs nothing_yet s inv all
  where
    inv : Inv e heap nothing_yet s
    inv =
        rw (launched_when _ (launched e heap ovs_assist o) s runs) at
          (launched-Inv e heap ovs_assist o)
