-- ===== src/Session/Rounds.antt =====
-- The rounds of `pump` in which the outstanding read completes.
use euthenia.Prelude.{
  ℕ, suc, ◌+◌, ◌≤◌, ◌≡◌, false, List, ◌++◌, ◌==◌, if◌then◌else◌, ok, ◌>>=◌, length, take-append,
  drop-append, length-append, arith,
}
use euthenia.Machine.Memory.{Memory, write}
use euthenia.Machine.Endian.{Endian}
use euthenia.Openflow.Header.{header_size}
use euthenia.Dispatcher.{Dispatcher}
use euthenia.Session.{
  Reader, idle, header, body, max_length, count_of, body_length, pass_on, handle_read_header,
  handle_read, handle, complete, pump,
}

module _ {W : Type 0} (e : Endian) (d : Dispatcher W) where
  -- A round in which the outstanding read completes.
  pub pump_round :
      (k : ℕ) (r : Reader) (w : W) (bytes rest : List ℕ)
      → length bytes ≡ count_of r.pending
      → pump e d (suc k) r w (bytes ++ rest)
        ≡ (complete e d false bytes r w >>= λ s. pump e d k s.0 s.1 rest)
  unfolding pump
  pump_round k r w bytes rest n =
      rw (← n, take-append bytes rest, drop-append bytes rest)
        (ground (arith, length-append bytes rest))

  pub header_round :
      (m : Memory) (w : W) (h : List ℕ)
      → length h ≡ header_size
      → complete e d false h (record { buffer = m; pending = header }) w
        ≡ handle_read_header e d false header_size
            (record { buffer = write m 0 h; pending = idle })
            w
  unfolding complete handle
  header_round m w h eight = ground arith

  pub body_round :
      (m : Memory) (w : W) (n : ℕ) (b : List ℕ)
      → header_size + length b ≤ max_length
      → complete e d false b (record { buffer = m; pending = body n }) w
        ≡ pass_on e d (record { buffer = write m header_size b; pending = idle }) w
  unfolding complete handle handle_read
  body_round m w n b fits = ground arith

  pub after_header :
      (m : Memory) (w : W) (n : ℕ)
      → body_length e m ≡ n
      → handle_read_header e d false header_size (record { buffer = m; pending = idle }) w ≡ (
          if n == 0
          then pass_on e d (record { buffer = m; pending = idle }) w
          else ok (record { buffer = m; pending = body n }, w))
  unfolding handle_read_header
  after_header m w n counted = rw counted
