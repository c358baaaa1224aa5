-- ===== src/Session.antt =====
-- Session.h and Session.cpp: one TCP connection. `Reader` is the reading side, `data_` and the read
-- that is outstanding; the writing side is Session/Writer.antt. The socket is the environment: it
-- completes an outstanding read, with the bytes asked for or with an error.
pub mod Rounds
pub mod Framing
pub mod Bounds
pub mod Errors
pub mod Piecewise
pub mod Connection
pub mod Linked
pub mod Writer
use euthenia.Prelude.{
  ℕ, zero, suc, ◌+◌, ◌-◌, ◌%◌, ◌^◌, Bool, true, false, List, ◌==◌, ltb, leb, if◌then◌else◌, Result,
  ok, fault, out_of_bounds, ◌>>=◌, length, take, drop,
}
use euthenia.Machine.Memory.{Memory, write}
use euthenia.Machine.Endian.{Endian}
use euthenia.Openflow.Header.{header_size, header_length}
use euthenia.Dispatcher.{Dispatcher, on_message}

-- `enum { max_length = 102400 }`, the size of `data_`
abbrev pub max_length : ℕ
max_length = 102400

-- The outstanding `async_read`: none, that of `read`, or that of `handle_read_header` with its
-- number of bytes.
pub data Pending : Type 0 where
  idle : Pending
  header : Pending
  body : ℕ → Pending

pub record Reader : Type 0 where
  pub buffer : Memory
  pub pending : Pending

-- Where in `data_` the bytes of the outstanding read go, and how many `transfer_exactly` wants.
abbrev pub target_of : Pending → ℕ
target_of (body n) = header_size
target_of _ = 0

abbrev pub count_of : Pending → ℕ
count_of idle = 0
count_of header = header_size
count_of (body n) = n

unfoldable pub read : Reader → Reader
read r = record r { pending = header }

unfoldable pub start : Reader → Reader
unfolding read
start r = read r

-- `ntohs(header->length) - sizeof(ofp_header)` in the 64 bits of `size_t`
unfoldable pub body_length : Endian → Memory → ℕ
unfolding header_length
body_length e m = (header_length e m + 2 ^ 64 - header_size) % 2 ^ 64

module _ {W : Type 0} (e : Endian) (d : Dispatcher W) where
  -- `dispatcher_->onMessage(data_); read();`
  unfoldable pub pass_on : Reader → W → Result (Reader × W)
  unfolding on_message read
  pass_on r w = on_message e d r.buffer w >>= λ w'. ok (read r, w')

  -- The handler does not look at the error code, nor at the number of bytes transferred.
  unfoldable pub handle_read_header :
      (error : Bool) (bytes_transferred : ℕ) → Reader → W → Result (Reader × W)
  unfolding body_length pass_on
  handle_read_header error bytes_transferred r w =
      let n = body_length e r.buffer in
      if n == 0 then pass_on r w else ok (record r { pending = body n }, w)

  unfoldable pub handle_read :
      (error : Bool) (bytes_transferred : ℕ) → Reader → W → Result (Reader × W)
  unfolding pass_on
  handle_read false bytes_transferred r w = pass_on r w
  handle_read true bytes_transferred r w = ok (r, w)

  -- asio calls the handler of the read that has completed; nothing is outstanding then.
  unfoldable pub handle :
      Pending → (error : Bool) (bytes_transferred : ℕ) → Memory → W → Result (Reader × W)
  unfolding handle_read_header handle_read
  handle idle error n m w = ok (record { buffer = m; pending = idle }, w)
  handle header error n m w = handle_read_header error n (record { buffer = m; pending = idle }) w
  handle (body k) error n m w = handle_read error n (record { buffer = m; pending = idle }) w

  -- The outstanding read completes with `bytes`: all that it asked for, or with an error those that
  -- had come. Bytes past the end of `data_` are undefined behaviour.
  unfoldable pub complete : (error : Bool) → List ℕ → Reader → W → Result (Reader × W)
  unfolding handle
  complete error bytes r w =
      if ltb max_length (target_of r.pending + length bytes)
      then fault out_of_bounds
      else handle r.pending error (length bytes) (write r.buffer (target_of r.pending) bytes) w

  -- The reading side on the bytes `rx` that the peer has sent: reads complete as long as there are
  -- bytes enough, and the last one waits with what is left, which must fit in `data_` too. Every
  -- round but the last uses up bytes or ends idle, so `suc (length rx)` rounds are enough.
  unfoldable pub pump : ℕ → Reader → W → List ℕ → Result (Reader × W × List ℕ)
  unfolding complete
  pump zero r w rx = ok (r, w, rx)
  pump (suc rounds) r w rx =
      let n = count_of r.pending in
      let next = complete false (take n rx) r w >>= λ s. pump rounds s.0 s.1 (drop n rx) in
      if leb n (length rx)
      then next
      else if ltb max_length (target_of r.pending + length rx)
      then fault out_of_bounds
      else ok (r, w, rx)
