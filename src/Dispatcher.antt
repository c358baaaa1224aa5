-- ===== src/Dispatcher.antt =====
-- Dispatcher.h: a table of callbacks by message type, and a default. A callback is a function of the
-- message and of the state `W` of whatever it is bound to; `none` stands for an empty
-- `std::function`. The log lines are left out: they change no state.
pub mod Routing
use euthenia.Prelude.{
  ℕ, Option, none, some, List, [], ◌∷◌, ◌==◌, if◌then◌else◌, Result, ok, fault, bad_function_call,
}
use euthenia.Machine.Memory.{Memory, read}
use euthenia.Machine.Endian.{Endian}
use euthenia.Openflow.Types.{OfpType, type_code}
use euthenia.Openflow.Header.{header_type, header_length}

-- The bytes of the `std::string` that a `shared_ptr` shares; no code changes one after making it.
abbrev pub Message : Type 0
Message = List ℕ

abbrev pub Callback : Type 0 → Type 0
Callback W = Message → W → Result W

-- `funs` is keyed by the number of the type: the cast to `ofp_type` does not check it.
pub record Dispatcher (W : Type 0) : Type 0 where
  pub funs : List (ℕ × Option (Callback W))
  pub default_callback : Option (Callback W)

module _ {W : Type 0} where
  -- A new Dispatcher.
  abbrev pub empty : Dispatcher W
  empty = record { funs = []; default_callback = none }

  -- `funs.find(type)`
  unfoldable pub find : List (ℕ × Option (Callback W)) → ℕ → Option (Option (Callback W))
  find [] t = none
  find ((k, f) ∷ rest) t = if k == t then some f else find rest t

  -- `funs[type] = f`
  unfoldable pub assign :
      List (ℕ × Option (Callback W)) → ℕ → Option (Callback W) → List (ℕ × Option (Callback W))
  assign [] t f = (t, f) ∷ []
  assign ((k, g) ∷ rest) t f = if k == t then (k, f) ∷ rest else (k, g) ∷ assign rest t f

  unfoldable pub set_callback_on_message :
      OfpType → Option (Callback W) → Dispatcher W → Dispatcher W
  unfolding assign
  set_callback_on_message type f d = record d { funs = assign d.funs (type_code type) f }

  unfoldable pub set_callback_on_error : Dispatcher W → Dispatcher W
  set_callback_on_error d = d

  unfoldable pub set_default_callback : Option (Callback W) → Dispatcher W → Dispatcher W
  set_default_callback callback d = record d { default_callback = callback }

  -- It logs a warning.
  abbrev pub on_error : W → Result W
  on_error w = ok w

  -- A call through a `std::function`; an empty one throws.
  abbrev pub call : Option (Callback W) → Callback W
  call none message w = fault bad_function_call
  call (some f) message w = f message w

  -- The branches of `onMessage`: what `find` gave, the default callback, the new message.
  unfoldable pub dispatch : Option (Option (Callback W)) → Option (Callback W) → Callback W
  dispatch (some f) default_callback new_message w = call f new_message w
  dispatch none (some f) new_message w = f new_message w
  dispatch none none new_message w = on_error w

  -- `onMessage`: `m` is the buffer that `message_ptr` points to.
  unfoldable pub on_message : Endian → Dispatcher W → Memory → W → Result W
  unfolding header_type header_length find dispatch
  on_message e d m w =
      let new_message = read m 0 (header_length e m) in
      dispatch (find d.funs (header_type m)) d.default_callback new_message w
