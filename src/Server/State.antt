-- ===== src/Server/State.antt =====
-- lib/server/GdbServer.h: what the server is built on, its members, and the sequencing of its
-- handlers. `Env` has the target, the connection and the clock, each with a state of its own.
use embdebug.Base.{ℕ, Bool, List, [], ◌∷◌, ◌++◌, Option, Bytes, ◌≡◌, refl}
use embdebug.Base.Outcome.{Outcome, ok, fault, Fault}
use embdebug.Cores.{CoreManager}
use embdebug.Ptid.{Ptid}
use embdebug.Server.Signals.{StopMode}
use embdebug.Target.Access.{Target, SyscallLocs}
use embdebug.Timeout.{Timeout}
use embdebug.Trace.{Flags}

-- The operations of lib/server/AbstractConnection.h that the server calls. `getPkt` gives an
-- empty packet, here none, after a communications failure.
pub record Rsp (R : Type 0) : Type 0 where
  pub is_connected : R → Bool
  pub rsp_connect : R → Outcome (Bool × R)
  pub rsp_close : R → R
  pub get_pkt : R → Outcome (Option Bytes × R)
  pub put_pkt : Bytes → R → Outcome (Option (Unit {0}) × R)
  pub have_break : R → Bool × R
  pub set_no_ack_mode : Bool → R → R

-- `now` is the system clock; `clock_text` is the local time of an instant as `strftime` writes it.
pub record Clock (C Duration Instant : Type 0) : Type 0 where
  pub now : C → Instant × C
  pub zero_duration : Duration
  pub seconds : ℕ → Duration
  pub plus : Instant → Duration → Instant
  pub after : Instant → Instant → Bool
  pub clock_text : Instant → Bytes

-- `size` is the packet size; `fuel` bounds the rounds of the loops that wait for the target, for a
-- NUL in its memory or for a request.
pub record Env : Type 1 where
  pub T : Type 0
  pub R : Type 0
  pub C : Type 0
  pub Duration : Type 0
  pub Instant : Type 0
  pub cpu : Target T
  pub rsp : Rsp R
  pub clock : Clock C Duration Instant
  pub size : ℕ
  pub fuel : ℕ

pub data KillBehaviour : Type 0 where
  reset_on_kill exit_on_kill : KillBehaviour

-- The members; `replies` is the history of the packets given to `putPkt`, the last one at the end.
pub record Server (e : Env) : Type 0 where
  pub pkt : Bytes
  pub num_regs : ℕ
  pub target : e.T
  pub link : e.R
  pub time : e.C
  pub replies : List Bytes
  pub flags : Flags
  pub timeout : Timeout e.Duration e.Instant
  pub kill_behaviour : KillBehaviour
  pub exit_server : Bool
  pub have_multi_proc : Bool
  pub stop_mode : StopMode
  pub ptid : Ptid
  pub next_process : ℕ
  pub handling_syscall : Bool
  pub have_syscall_arg_locs : Bool
  pub have_syscall_support : Bool
  pub syscall_locs : SyscallLocs
  pub kill_core_on_exit : Bool
  pub cores : CoreManager

-- A handler, or a part of one, with its result.
abbrev pub Act : Env → Type 0 → Type 0
Act e A = Server e → Outcome (A × Server e)

abbrev pub and_then :
    {e : Env} {A B : Type 0} → (A → Act e B) → Outcome (A × Server e) → Outcome (B × Server e)
and_then f (ok (a, s)) = f a s
and_then f (fault x) = fault x

infixl 5 ◌>>=◌ ◌>>◌
unfoldable pub ◌>>=◌ : {e : Env} {A B : Type 0} → Act e A → (A → Act e B) → Act e B
◌>>=◌ m f s = and_then f (m s)

unfoldable pub ◌>>◌ : {e : Env} {B : Type 0} → Act e (Unit {0}) → Act e B → Act e B
unfolding ◌>>=◌
m >> k = m >>= λ _. k

unfoldable pub ret : {e : Env} {A : Type 0} → A → Act e A
ret a s = ok (a, s)

unfoldable pub stop : {e : Env} {A : Type 0} → Fault → Act e A
stop x s = fault x

-- What may fail and needs no state.
unfoldable pub lift : {e : Env} {A : Type 0} → Outcome A → Act e A
lift (ok a) s = ok (a, s)
lift (fault x) s = fault x

-- Reading the state, and replacing it.
unfoldable pub get : {e : Env} → Act e (Server e)
get s = ok (s, s)

unfoldable pub modify : {e : Env} → (Server e → Server e) → Act e (Unit {0})
modify f s = ok (tt, f s)

-- A call of the target or of the connection.
unfoldable pub on_target : {e : Env} {A : Type 0} → (e.T → A × e.T) → Act e A
on_target f s = let (a, t) = f s.target in ok (a, record s { target = t })

unfoldable pub on_link : {e : Env} {A : Type 0} → (e.R → A × e.R) → Act e A
on_link f s = let (a, r) = f s.link in ok (a, record s { link = r })

-- A packet for `putPkt`, whose result no handler reads.
abbrev pub sent :
    {e : Env} → Bytes → Server e → Outcome (Option (Unit {0}) × e.R) → Outcome (Unit {0} × Server e)
sent reply s (ok (_, r)) = ok (tt, record s { link = r; replies = s.replies ++ (reply ∷ []) })
sent reply s (fault x) = fault x

unfoldable pub put : {e : Env} → Bytes → Act e (Unit {0})
put {e} reply s = sent reply s (e.rsp.put_pkt reply s.link)

pub put_lem :
    {e : Env} (s : Server e) (reply : Bytes) (x : Option (Unit {0})) (link : e.R)
    → e.rsp.put_pkt reply s.link ≡ ok (x, link)
    → put reply s ≡ ok (tt, record s { link = link; replies = s.replies ++ (reply ∷ []) })
unfolding put
put_lem s reply x link taken = rw taken refl

unfoldable pub close : {e : Env} → Act e (Unit {0})
close {e} s = ok (tt, record s { link = e.rsp.rsp_close s.link })
