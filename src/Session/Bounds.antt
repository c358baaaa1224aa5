-- ===== src/Session/Bounds.antt =====
-- What the length field of a header may be: with less than the size of a header the subtraction in
-- `handle_read_header` wraps, and the read that follows has no end.
use euthenia.Prelude.{
  ℕ, suc, ◌+◌, ◌-◌, ◌^◌, ◌≤◌, ◌<◌, ◌≡◌, refl, ◌∙◌, false, List, ◌++◌, arith, ltb, if◌then◌else◌, ok,
  fault, out_of_bounds, length,
}
use euthenia.Machine.Memory.{Memory, write}
use euthenia.Machine.Endian.{Endian}
use euthenia.Openflow.Header.{header_size, header_length}
use euthenia.Dispatcher.{Dispatcher}
use euthenia.Session.Rounds.{pump_round, header_round, after_header}
use euthenia.Session.{idle, header, body, max_length, body_length, handle_read_header, pump}

-- The read of a body stays within `data_` exactly when the length field of the header counts at least the header itself.
pub body_fits :
    (e : Endian) (m : Memory)
    → header_length e m < 2 ^ 16
    → (header_size ≤ header_length e m → header_size + body_length e m ≤ max_length)
      × (header_length e m < header_size → max_length < header_size + body_length e m)
unfolding body_length
body_fits e m small = (λ h. omega arith, λ h. omega arith)

module _ {W : Type 0} (e : Endian) (d : Dispatcher W) where
  -- After a header whose length field is below 8 no later byte is ever taken for a message: as long as
  -- `data_` has room the session waits, and on the first byte past its end it is written out of bounds.
  pub short_header :
      (fuel : ℕ) (m : Memory) (w : W) (h rest : List ℕ)
      → length h ≡ header_size
      → header_length e (write m 0 h) < header_size
      → length rest < 2 ^ 63
      → pump e d (suc (suc fuel)) (record { buffer = m; pending = header }) w (h ++ rest) ≡ (
          if ltb max_length (header_size + length rest)
          then fault out_of_bounds
          else ok (
            record { buffer = write m 0 h; pending = body (body_length e (write m 0 h)) },
            w,
            rest,
          ))
  short_header fuel m w h rest eight short room =
      pump_round e d (suc fuel) (record { buffer = m; pending = header }) w h rest eight
      ∙ rw (header_round e d m w h eight ∙ opened) stuck
    where
      n : ℕ
      n = body_length e (write m 0 h)

      big : (n ≡ 2 ^ 64 - header_size + header_length e (write m 0 h))
      big = unfold body_length in omega (arith, short)

      opened :
          handle_read_header e d false header_size
            (record { buffer = write m 0 h; pending = idle })
            w
          ≡ ok (record { buffer = write m 0 h; pending = body n }, w)
      opened = after_header e d (write m 0 h) w n refl ∙ ground (arith, big)

      stuck : pump e d (suc fuel) (record { buffer = write m 0 h; pending = body n }) w rest ≡ (
          if ltb max_length (header_size + length rest)
          then fault out_of_bounds
          else ok (record { buffer = write m 0 h; pending = body n }, w, rest))
      stuck = unfold pump in ground (arith, big)
