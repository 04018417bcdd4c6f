-- ===== src/Server/Wire.antt =====
-- lib/server/AbstractConnection.h: packets on a wire as the connection of the server. The routines
-- that connect and close are virtual; they are those of lib/server/StreamConnection.cpp, and its
-- streams are the script of the connection.
pub mod Answer
pub mod Memory
use embdebug.Base.{ℕ, Bool, false, Option, Bytes}
use embdebug.Base.Outcome.{Outcome, ok, fault}
use embdebug.Connection.Monad.{Conn}
use embdebug.Connection.{get_pkt, put_pkt, have_break, set_no_ack_mode}
use embdebug.Server.State.{Rsp, Clock, Env}
use embdebug.Target.Access.{Target}

-- An object of the class: the members of the base class, and whether it is connected.
pub record Link : Type 0 where
  pub conn : Conn
  pub connected : Bool

abbrev pub on_conn : {A : Type 0} → Bool → Outcome (A × Conn) → Outcome (A × Link)
on_conn connected (ok (a, c)) = ok (a, record { conn = c; connected = connected })
on_conn connected (fault x) = fault x

abbrev pub wire : ℕ → Rsp Link
wire size = record {
  is_connected = λ l. l.connected;
  rsp_connect = λ l. ok (false, l);
  rsp_close = λ l. record l { connected = false };
  get_pkt = λ l. on_conn l.connected (get_pkt size l.conn);
  put_pkt = λ pkt l. on_conn l.connected (put_pkt pkt l.conn);
  have_break = λ l. let (b, c) = have_break l.conn in (b, record l { conn = c });
  set_no_ack_mode = λ mode l. record l { conn = set_no_ack_mode mode l.conn };
}

-- A server that is built on it.
abbrev pub wired :
    {T C Duration Instant : Type 0} → Target T → Clock C Duration Instant → ℕ → ℕ → Env
wired {T} {C} {Duration} {Instant} cpu clock size fuel = record {
  T = T;
  R = Link;
  C = C;
  Duration = Duration;
  Instant = Instant;
  cpu = cpu;
  rsp = wire size;
  clock = clock;
  size = size;
  fuel = fuel;
}
