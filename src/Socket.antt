-- ===== src/Socket.antt =====
-- lib/server/RspConnection.h and RspConnectionUnix.cpp: the connection over a socket, and how it
-- gets a client. The calls of the operating system are parameters, on a state `O` of it; messages
-- are left out.
pub mod Unix
pub mod Windows
pub mod Opened
use embdebug.Base.{ℕ, ◌%◌, ◌^◌, Bool, true, false, Option, none, some, if◌then◌else◌}
use embdebug.Base.Int.{ℤ, pos, eq_ℤ, to_uint32}

-- `SO_REUSEADDR`, `SO_KEEPALIVE` and `TCP_NODELAY`.
pub data SocketOption : Type 0 where
  reuse_addr keep_alive no_delay : SocketOption

-- The calls that both systems have. A descriptor is none where the call fails; `bind` and `listen`
-- say whether they succeed. `write_port` makes the file `simulation_ready.txt`.
pub record Sockets (O : Type 0) : Type 0 where
  pub socket : O → Option ℕ × O
  pub set_option : ℕ → SocketOption → O → O
  pub bind : ℕ → ℕ → O → Bool × O
  pub listen : ℕ → O → Bool × O
  pub bound_port : ℕ → O → ℕ × O
  pub write_port : ℤ → O → O
  pub accept : ℕ → O → Option ℕ × O
  pub close : ℕ → O → O

-- An object of the class; the last four members are those of the base class.
pub record Socket (O : Type 0) : Type 0 where
  pub port_num : ℤ
  pub client : Option ℕ
  pub write_port : Bool
  pub os : O
  pub have_pending_break : Bool
  pub no_ack_mode : Bool
  pub get_char_buf : ℕ
  pub num_get_buf_chars : ℕ

abbrev pub is_some : {A : Type 0} → Option A → Bool
is_some none = false
is_some (some a) = true

module _ {O : Type 0} where
  -- The constructor. The character that would be held is not set; nothing reads it yet.
  abbrev pub new_socket : ℤ → Bool → O → Socket O
  new_socket port_num write_port os = record {
    port_num = port_num;
    client = none;
    write_port = write_port;
    os = os;
    have_pending_break = false;
    no_ack_mode = false;
    get_char_buf = 0;
    num_get_buf_chars = 0;
  }

  abbrev pub is_connected : Socket O → Bool
  is_connected s = is_some s.client

  abbrev pub with_os : Socket O → O → Socket O
  with_os s o = record s { os = o }

module _ {O : Type 0} (sys : Sockets O) where
  -- The port that the system chose, for port 0.
  unfoldable pub assigned : ℕ → Socket O → Socket O
  assigned tmp s =
      if eq_ℤ s.port_num (pos 0)
      then (let (port, o) = sys.bound_port tmp s.os in record s { port_num = pos port; os = o })
      else s

  unfoldable pub announced : Socket O → Socket O
  announced s = if s.write_port then with_os s (sys.write_port s.port_num s.os) else s

-- `settle` is what follows the `close` of the listening socket.
module _ {O : Type 0} (sys : Sockets O) (settle : O → O) where
  -- `rspConnect`, from its end: behind `accept`.
  unfoldable pub accepted : ℕ → Socket O → Option ℕ × O → Bool × Socket O
  accepted tmp s (none, o) = (true, record s { client = none; os = o })
  accepted tmp s (some fd, o) = (
    true,
    record s {
      client = some fd;
      no_ack_mode = false;
      os = settle (sys.close tmp (sys.set_option fd no_delay (sys.set_option fd keep_alive o)));
    },
  )

  -- Behind `listen`.
  unfoldable pub listening : ℕ → Socket O → Bool × O → Bool × Socket O
  unfolding accepted assigned announced
  listening tmp s (false, o) = (false, with_os s o)
  listening tmp s (true, o) =
      let ready = announced sys (assigned sys tmp (with_os s o)) in
      accepted tmp ready (sys.accept tmp ready.os)

  -- Behind `bind`.
  unfoldable pub bound : ℕ → Socket O → Bool × O → Bool × Socket O
  unfolding listening
  bound tmp s (false, o) = (false, with_os s o)
  bound tmp s (true, o) = listening tmp s (sys.listen tmp o)

  -- Behind `socket`. `htons` takes 16 bits of the number.
  unfoldable pub opened : Socket O → Option ℕ × O → Bool × Socket O
  unfolding bound
  opened s (none, o) = (false, with_os s o)
  opened s (some tmp, o) =
      bound tmp s (sys.bind tmp (to_uint32 s.port_num % 2 ^ 16) (sys.set_option tmp reuse_addr o))

  unfoldable pub rsp_connect : Socket O → Bool × Socket O
  unfolding opened
  rsp_connect s = opened s (sys.socket s.os)
