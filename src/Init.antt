-- ===== src/Init.antt =====
-- lib/server/Init.cpp: the server on its connection.
pub mod Stdin
use embdebug.Base.{ℕ, Bool, if◌then◌else◌}
use embdebug.Base.Int.{ℤ}
use embdebug.Base.Outcome.{Outcome, ok, fault}
use embdebug.Server.Loop.{new_server, rsp_server}
use embdebug.Server.State.{Rsp, Clock, Env, Server, KillBehaviour}
use embdebug.Target.Access.{Target, SyscallLocs}
use embdebug.Timeout.{Timeout}
use embdebug.Trace.{Flags}

-- What `init` puts together: the target, the clock, and the two kinds of connection, with packets
-- of a size, each with the state that its constructor makes. `timeout` is that of a new server,
-- `locs` what was in the memory; `fuel` bounds the rounds of the loops.
pub record Parts : Type 1 where
  pub T : Type 0
  pub C : Type 0
  pub Duration : Type 0
  pub Instant : Type 0
  pub S : Type 0
  pub K : Type 0
  pub cpu : Target T
  pub clock : Clock C Duration Instant
  pub time : C
  pub stream : ℕ → Rsp S
  pub new_stream : S
  pub socket : ℕ → Rsp K
  pub new_socket : ℤ → Bool → K
  pub timeout : Timeout Duration Instant
  pub locs : SyscallLocs
  pub fuel : ℕ

-- A server with packets of a size on a connection.
abbrev pub env_of : {R : Type 0} (p : Parts) → (ℕ → Rsp R) → ℕ → Env
env_of {R} p rsp size = record {
  T = p.T;
  R = R;
  C = p.C;
  Duration = p.Duration;
  Instant = p.Instant;
  cpu = p.cpu;
  rsp = rsp size;
  clock = p.clock;
  size = size;
  fuel = p.fuel;
}

-- The value that a run returns.
abbrev pub value_of : {A B : Type 0} → Outcome (A × B) → Outcome A
value_of (ok (a, b)) = ok a
value_of (fault x) = fault x

module _ (p : Parts) where
  -- A new server and its main loop: whether it ends with `EXIT_SUCCESS`.
  unfoldable pub serve :
      {R : Type 0} → (ℕ → Rsp R) → R → KillBehaviour → ℕ → Flags → p.T → Outcome Bool
  unfolding new_server
  serve {R} rsp link kill_behaviour size flags target =
      let server : Server (env_of p rsp size) =
        new_server target link p.time flags kill_behaviour p.timeout p.locs in
      value_of (rsp_server p.fuel server)

  -- `init`.
  unfoldable pub init : p.T → Flags → Bool → ℤ → ℕ → Bool → Outcome Bool
  unfolding serve
  init target flags use_stream rsp_port size write_port =
      if use_stream
      then serve p.stream p.new_stream KillBehaviour.exit_on_kill size flags target
      else serve p.socket (p.new_socket rsp_port write_port) KillBehaviour.reset_on_kill size flags
          target
