-- ===== src/Server/Loop.antt =====
-- lib/server/GdbServer.cpp: the constructor of the server and its main loop, `rspServer`.
use embdebug.Base.{ℕ, zero, suc, Bool, true, false, not, [], none, some, if◌then◌else◌}
use embdebug.Base.Outcome.{Outcome, ok, fault, no_fuel}
use embdebug.Cores.{init}
use embdebug.Cores
use embdebug.Server.Dispatch.{handle_pkt, pid_default}
use embdebug.Server.Query.{tid_default}
use embdebug.Server.Signals.{StopMode}
use embdebug.Server.State.{
  Env, Server, KillBehaviour, Act, ◌>>=◌, ◌>>◌, ret, stop, get, modify, close,
}
use embdebug.Target.Access.{SyscallLocs}
use embdebug.Timeout.{Timeout}
use embdebug.Trace.{Flags}

module _ {e : Env} where
  -- The constructor, on the target, the connection, the clock, the flags and `killBehaviour`. The
  -- locations are what was in the memory.
  unfoldable pub new_server :
      e.T
      → e.R
      → e.C
      → Flags
      → KillBehaviour
      → Timeout e.Duration e.Instant
      → SyscallLocs
      → Server e
  unfolding init
  new_server target link time flags kill_behaviour timeout locs = record {
    pkt = [];
    num_regs = e.cpu.register_count target;
    target = target;
    link = link;
    time = time;
    replies = [];
    flags = flags;
    timeout = timeout;
    kill_behaviour = kill_behaviour;
    exit_server = false;
    have_multi_proc = false;
    stop_mode = StopMode.all_stop;
    ptid = record { pid = pid_default; tid = tid_default };
    next_process = 1;
    handling_syscall = false;
    have_syscall_arg_locs = false;
    have_syscall_support = false;
    syscall_locs = locs;
    kill_core_on_exit = false;
    cores = init (e.cpu.cpu_count target);
  }

  -- A call of the connection that may end the process.
  abbrev pub linked : {A : Type 0} → Server e → Outcome (A × e.R) → Outcome (A × Server e)
  linked s (ok (a, r)) = ok (a, record s { link = r })
  linked s (fault x) = fault x

  -- `rspClientRequest`.
  unfoldable pub rsp_client_request : Act e (Unit {0})
  unfolding handle_pkt close
  rsp_client_request = do
    received ← (λ s. linked s (e.rsp.get_pkt s.link))
    elim received [
      | none ↦ modify (λ s. record s { pkt = [] }) >> close
      | some text ↦ modify (λ s. record s { pkt = text }) >> handle_pkt
    ]

  -- The inner loop of `rspServer`: whether there is a connection.
  unfoldable pub connect : ℕ → Act e Bool
  unfolding Cores.reset
  connect zero = stop no_fuel
  connect (suc fuel) =
      let again = connect fuel in
      do
        s ← get
        if e.rsp.is_connected s.link then ret true else (do
          connected ← (λ s. linked s (e.rsp.rsp_connect s.link))
          if not connected
              then ret false
              else modify (λ s. record s { cores = Cores.reset s.cores }) >> again)

  -- `rspServer`: whether it ends with `EXIT_SUCCESS`.
  unfoldable pub rsp_server : ℕ → Act e Bool
  unfolding connect rsp_client_request
  rsp_server zero = stop no_fuel
  rsp_server (suc fuel) =
      let again = rsp_server fuel in
      do
        s ← get
        if s.exit_server then ret true else (do
          connected ← connect e.fuel
          if not connected then ret false else rsp_client_request >> again)
