-- ===== src/Socket/Windows.antt =====
-- lib/server/RspConnectionWin32.cpp: the other operations of the connection over a socket. Its
-- `rspConnect` is that of the other file, on the calls of Winsock.
use embdebug.Base.{ℕ, Bool, true, false, bit_and, Option, none, some}
use embdebug.Base.Int.{ℤ}
use embdebug.Socket.{Sockets, Socket, new_socket, with_os}
use embdebug.Socket

-- What `recv` gives: `SOCKET_ERROR`, 0, or a character.
pub data Received : Type 0 where
  socket_error ended : Received
  got : ℕ → Received

-- `start_up` and `clean_up` are `WSAStartup` and `WSACleanup`; `send` says whether it succeeds;
-- `set_blocking` is `ioctlsocket` with `FIONBIO`.
pub record Winsock (O : Type 0) : Type 0 where
  pub sockets : Sockets O
  pub start_up : O → O
  pub clean_up : O → O
  pub shutdown : ℕ → O → O
  pub send : ℕ → ℕ → O → Bool × O
  pub set_blocking : ℕ → Bool → O → O
  pub recv : ℕ → O → Received × O

module _ {O : Type 0} (sys : Winsock O) where
  -- The constructor.
  abbrev pub new_winsock : ℤ → Bool → O → Socket O
  new_winsock port_num write_port os = new_socket port_num write_port (sys.start_up os)

  unfoldable pub rsp_connect : Socket O → Bool × Socket O
  unfolding Socket.rsp_connect
  rsp_connect = Socket.rsp_connect sys.sockets (λ o. o)

  unfoldable pub rsp_close : Socket O → Socket O
  rsp_close s = elim s.client [
    | none ↦ s
    | some fd ↦ record s { client = none; os = sys.sockets.close fd (sys.shutdown fd s.os) }
  ]

  -- The destructor.
  abbrev pub destroy : Socket O → Socket O
  destroy s = let closed = rsp_close s in with_os closed (sys.clean_up closed.os)

  -- Behind `send`, which failed or not.
  abbrev pub after_send : Socket O → Bool × O → Bool × Socket O
  after_send s (false, o) = (false, rsp_close (with_os s o))
  after_send s (true, o) = (true, with_os s o)

  unfoldable pub put_rsp_char_raw : ℕ → Socket O → Bool × Socket O
  unfolding rsp_close
  put_rsp_char_raw c s = elim s.client [
    | none ↦ (false, s)
    | some fd ↦ after_send s (sys.send fd c s.os)
  ]

  -- The switch of `getRspCharRaw`, each branch of which returns; none is -1.
  abbrev pub after_recv : Socket O → Received × O → Option ℕ × Socket O
  after_recv s (socket_error, o) = (none, with_os s o)
  after_recv s (ended, o) = (none, with_os s o)
  after_recv s (got c, o) = (some (bit_and c 0xff), with_os s o)

  unfoldable pub get_rsp_char_raw : Bool → Socket O → Option ℕ × Socket O
  get_rsp_char_raw blocking s = elim s.client [
    | none ↦ (none, s)
    | some fd ↦ after_recv s (sys.recv fd (sys.set_blocking fd blocking s.os))
  ]
