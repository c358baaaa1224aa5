-- ===== src/Session/Linked.antt =====
-- Session.h and Session.cpp: a session with the dispatcher that `set_dispatcher` gives it.
use euthenia.Prelude.{
  ◌≡◌, ap, ℕ, Bool, Option, none, some, List, Result, ok, fault, out_of_bounds, ◌>>=◌,
}
use euthenia.Machine.Memory.{Memory}
use euthenia.Machine.Endian.{Endian}
use euthenia.Dispatcher.{Dispatcher}
use euthenia.Session.{Reader, idle, complete}
use euthenia.Session

-- `dispatcher_` points nowhere before `set_dispatcher`.
pub record Linked (W : Type 0) : Type 0 where
  pub reader : Reader
  pub dispatcher : Option (Dispatcher W)

module _ {W : Type 0} where
  -- The constructor; `data_` holds what the memory happens to hold.
  abbrev pub new_session : (contents : Memory) → Linked W
  new_session contents = record {
    reader = record { buffer = contents; pending = idle };
    dispatcher = none;
  }

  unfoldable pub set_dispatcher : Dispatcher W → Linked W → Linked W
  set_dispatcher d s = record s { dispatcher = some d }

  unfoldable pub start : Linked W → Linked W
  start s = record s { reader = Session.start s.reader }

  abbrev pub put_back : Linked W → Reader × W → Linked W × W
  put_back s (r, w) = (record s { reader = r }, w)

  -- The outstanding read completes, and the handler uses the dispatcher.
  unfoldable pub completes_with :
      Option (Dispatcher W)
      → Endian
      → (error : Bool) (bytes : List ℕ) → Linked W
      → W
      → Result (Linked W × W)
  unfolding complete
  completes_with none e error bytes s w = fault out_of_bounds
  completes_with (some d) e error bytes s w =
      complete e d error bytes s.reader w >>= λ t. ok (put_back s t)

  unfoldable pub completes :
      Endian → (error : Bool) (bytes : List ℕ) → Linked W → W → Result (Linked W × W)
  unfolding completes_with
  completes e error bytes s w = completes_with s.dispatcher e error bytes s w

  pub completes-set :
      (d : Dispatcher W) (e : Endian) (error : Bool) (bytes : List ℕ) (s : Linked W) (w : W)
      → s.dispatcher ≡ some d
      → completes e error bytes s w
        ≡ (complete e d error bytes s.reader w >>= λ t. ok (put_back s t))
  unfolding completes completes_with
  completes-set d e error bytes s w set = ap (λ d'. completes_with d' e error bytes s w) set
