-- ===== src/Dispatcher/Routing.antt =====
-- Which callback a message reaches, and with what bytes.
use euthenia.Prelude.{
  ℕ, ◌≡◌, refl, ap, ◌∙◌, Option, some, List, [], ◌∷◌, ◌==◌, if◌then◌else◌, arith, length,
}
use euthenia.Machine.Memory.{Memory, read}
use euthenia.Machine.Endian.{Endian}
use euthenia.Openflow.Types.{OfpType, type_code}
use euthenia.Openflow.Header.{
  header_type, header_length, type_field, IsFrame, header_length-read, header_held,
  header_type-read,
}
use euthenia.Dispatcher.{
  Message, Callback, Dispatcher, find, assign, set_callback_on_message, call, dispatch, on_message,
}

module _ {W : Type 0} where
  -- Where the table sends a message of a type.
  abbrev pub target : Dispatcher W → ℕ → Callback W
  target d t = dispatch (find d.funs t) d.default_callback

  find-assign :
      (funs : List (ℕ × Option (Callback W))) (t u : ℕ) (f : Option (Callback W))
      → find (assign funs t f) u ≡ (if t == u then some f else find funs u)
  unfolding find assign
  find-assign [] t u f = refl
  find-assign ((k, g) ∷ rest) t u f = ground (arith, find-assign rest t u f)

  target-set_callback :
      (type : OfpType) (f : Option (Callback W)) (d : Dispatcher W) (t : ℕ) (msg : Message) (w : W)
      → target (set_callback_on_message type f d) t msg w
        ≡ (if type_code type == t then call f msg w else target d t msg w)
  unfolding set_callback_on_message dispatch
  target-set_callback type f d t msg w = ground (arith, find-assign d.funs (type_code type) t f)

  -- A whole message in the buffer reaches the callback for its type, with its bytes and no others.
  pub on_message-target :
      (e : Endian) (d : Dispatcher W) (m : Memory) (bs : List ℕ) (w : W)
      → IsFrame bs
      → read m 0 (length bs) ≡ bs
      → on_message e d m w ≡ target d (type_field bs) bs w
  unfolding on_message
  on_message-target e d m bs w frame held =
      ap (λ (n : ℕ). target d (header_type m) (read m 0 n) w) len
      ∙ ap (λ (xs : List ℕ). target d (header_type m) xs w) held
      ∙ ap (λ (t : ℕ). target d t bs w) kind
    where
      len : header_length e m ≡ length bs
      len =
          header_length-read e m bs frame.bytes (header_held m bs frame.has_header held)
            frame.has_header
          ∙ frame.counted

      kind : header_type m ≡ type_field bs
      kind = header_type-read m bs frame.has_header held

  -- After a registration messages of that type go to the new callback, all others where they went.
  pub on_message-set_callback :
      (e : Endian) (type : OfpType) (f : Option (Callback W)) (d : Dispatcher W) (m : Memory)
      (bs : List ℕ) (w : W)
      → IsFrame bs
      → read m 0 (length bs) ≡ bs
      → on_message e (set_callback_on_message type f d) m w
        ≡ (if type_code type == type_field bs then call f bs w else on_message e d m w)
  on_message-set_callback e type f d m bs w frame held =
      rw
        (
          on_message-target e (set_callback_on_message type f d) m bs w frame held,
          on_message-target e d m bs w frame held,
        )
        (target-set_callback type f d (type_field bs) bs w)
