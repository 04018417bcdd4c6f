-- ===== src/Socket/Unix.antt =====
-- lib/server/RspConnectionUnix.cpp: the other operations of the connection over a socket.
use embdebug.Base.{
  ℕ, zero, suc, Bool, true, false, ◌==◌, bit_and, if◌then◌else◌, Option, none, some,
}
use embdebug.Base.Outcome.{Outcome, ok, fault, no_fuel}
use embdebug.Socket.{Sockets, Socket, is_connected, with_os}
use embdebug.Socket
use embdebug.Stream.{Written, try_again, write_failed, wrote}

-- What `recv` gives: -1 with `errno` EAGAIN or EWOULDBLOCK, -1 with EINTR, -1 otherwise, 0, or a
-- character.
pub data Received : Type 0 where
  would_block interrupted recv_failed ended : Received
  got : ℕ → Received

-- `write` gives -1 with `errno` EAGAIN or EINTR, -1 otherwise, or a count, as for the streams.
pub record Unix (O : Type 0) : Type 0 where
  pub sockets : Sockets O
  pub write : ℕ → ℕ → O → Written × O
  pub recv : ℕ → Bool → O → Received × O
  pub ignore_sigpipe : O → O

module _ {O : Type 0} (sys : Unix O) where
  unfoldable pub rsp_connect : Socket O → Bool × Socket O
  unfolding Socket.rsp_connect
  rsp_connect = Socket.rsp_connect sys.sockets sys.ignore_sigpipe

  -- `rspClose`, which is the destructor too.
  unfoldable pub rsp_close : Socket O → Socket O
  rsp_close s = elim s.client [
    | none ↦ s
    | some fd ↦ record s { client = none; os = sys.sockets.close fd s.os }
  ]

  -- The switch of `putRspCharRaw`, in front of the next round.
  abbrev pub after_write : (O → Outcome (Bool × O)) → Written × O → Outcome (Bool × O)
  after_write again (try_again, o) = again o
  after_write again (write_failed, o) = ok (false, o)
  after_write again (wrote n, o) = if n == 0 then again o else ok (true, o)

  unfoldable pub write_loop : ℕ → ℕ → ℕ → O → Outcome (Bool × O)
  write_loop zero fd c o = fault no_fuel
  write_loop (suc fuel) fd c o = after_write (write_loop fuel fd c) (sys.write fd c o)

  abbrev pub resumed : {A : Type 0} → Socket O → Outcome (A × O) → Outcome (A × Socket O)
  resumed s (ok (a, o)) = ok (a, with_os s o)
  resumed s (fault x) = fault x

  unfoldable pub put_rsp_char_raw : ℕ → ℕ → Socket O → Outcome (Bool × Socket O)
  unfolding write_loop
  put_rsp_char_raw fuel c s = elim s.client [
    | none ↦ ok (false, s)
    | some fd ↦ resumed s (write_loop fuel fd c s.os)
  ]

  -- The switch of `getRspCharRaw`; none is -1. A read that blocks fails with EAGAIN as with any
  -- other error.
  abbrev pub after_recv : (O → Outcome (Option ℕ × O)) → Received × O → Outcome (Option ℕ × O)
  after_recv again (would_block, o) = ok (none, o)
  after_recv again (interrupted, o) = again o
  after_recv again (recv_failed, o) = ok (none, o)
  after_recv again (ended, o) = ok (none, o)
  after_recv again (got c, o) = ok (some (bit_and c 0xff), o)

  unfoldable pub recv_loop : ℕ → ℕ → Bool → O → Outcome (Option ℕ × O)
  recv_loop zero fd blocking o = fault no_fuel
  recv_loop (suc fuel) fd blocking o =
      after_recv (recv_loop fuel fd blocking) (sys.recv fd blocking o)

  unfoldable pub get_rsp_char_raw : ℕ → Bool → Socket O → Outcome (Option ℕ × Socket O)
  unfolding recv_loop
  get_rsp_char_raw fuel blocking s = elim s.client [
    | none ↦ ok (none, s)
    | some fd ↦ resumed s (recv_loop fuel fd blocking s.os)
  ]
