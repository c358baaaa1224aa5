-- ===== src/Session/Connection.antt =====
-- Session.h and Session.cpp: how a session comes to its peer, by `listen` or by `connect`. What the sockets of the
-- system do with an endpoint is given from outside.
use euthenia.Prelude.{ℕ, ◌%◌, ◌^◌, Bool, false}
use Prim.Native.String.{String}

-- An address of this machine, any, or the one of a text.
pub data Host : Type 0 where
  any_v4 : Host
  from_string : String → Host

pub record Endpoint : Type 0 where
  pub host : Host
  pub port : ℕ

-- `ip_` and `port_`, which nothing reads, and whether the socket is open.
pub record Connection : Type 0 where
  pub ip : String
  pub port : ℕ
  pub is_open : Bool

abbrev pub unconnected : Connection
unconnected = record { ip = ""; port = 0; is_open = false }

-- A `uint16_t`.
abbrev pub to_u16 : ℕ → ℕ
to_u16 n = n % 2 ^ 16

-- The `ip` of `listen` where a caller gives none.
abbrev pub loopback : String
loopback = "127.0.0.1"

-- The first is false for an exception. The acceptor listens on every address of the machine, whatever `ip` is.
unfoldable pub listen :
    (accepts : Endpoint → Bool) → (port : ℕ) (ip : String) → Connection → Bool × Connection
listen accepts port ip c =
    let accepted = accepts (record { host = any_v4; port = to_u16 port }) in
    (accepted, record c { ip = ip; port = to_u16 port; is_open = accepted })

-- `connects` is false too where the text is no address.
unfoldable pub connect :
    (connects : Endpoint → Bool) → (port : ℕ) (ip : String) → Connection → Bool × Connection
connect connects port ip c =
    let connected = connects (record { host = from_string ip; port = to_u16 port }) in
    (connected, record c { ip = ip; port = to_u16 port; is_open = connected })
