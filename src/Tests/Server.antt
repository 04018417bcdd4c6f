-- ===== src/Tests/Server.antt =====
-- lib/server/GdbServer.cpp, the cores and their stop events, at two cores.
use embdebug.Base.{
  zero, suc, ℕ, ◌+◌, ◌*◌, List, none, Bytes, codes, length, ltb, false, ◌≡◌, refl, true, false, [],
  ◌∷◌, some, arith, replicate,
}
use embdebug.Base.Outcome.{ok}
use embdebug.Hex.{hex2ascii}
use embdebug.Hex.Text.{hex_text}
use embdebug.Server.Access.{rsp_read_mem}
use embdebug.Server.Loop.{new_server}
use embdebug.Base.Int.{pos}
use embdebug.Server.Signals.{StopMode}
use embdebug.Server.State.{Rsp, Clock, Env, KillBehaviour, Server, put}
use embdebug.Server.Range.{range_text}
use embdebug.Server.Memory.{rsp_read_mem-hex_text}
use embdebug.Target.Access.{Target, SyscallLocs, register}
use embdebug.Target.Enums.{ResumeRes, ResumeType, WaitRes}
use embdebug.Timeout.{no_timeout}
use embdebug.Cores.{
  CoreState, CoreManager, fresh_core, kill_core, init, kill_core_num, get_next_stop_event,
}
use embdebug.Cores.Live.{IsValid, kill_core_num-IsValid}
use embdebug.Cores.Stop.{get_next_stop_event_lem}

abbrev pub two_cores : CoreManager
two_cores = record { num_cores = 2; live_cores = 2; core_states = fresh_core ∷ fresh_core ∷ [] }

two_cores-IsValid : IsValid two_cores
two_cores-IsValid = record { size = refl; live = refl; small = omega arith }

kill_core_num-IsValid_example :
    ((kill_core_num 1 two_cores).0 ≡ true) × IsValid (kill_core_num 1 two_cores).1
kill_core_num-IsValid_example =
    kill_core_num-IsValid two_cores 1 fresh_core two_cores-IsValid (omega arith) refl refl

-- The second core is dead.
abbrev pub one_core_left : CoreManager
one_core_left = record {
  num_cores = 2;
  live_cores = 1;
  core_states = fresh_core ∷ kill_core fresh_core ∷ [];
}

pub one_core_left-IsValid : IsValid one_core_left
one_core_left-IsValid = record { size = refl; live = refl; small = omega arith }

-- The first core hit a breakpoint, the second made a system call.
abbrev stopped : ResumeRes → CoreState
stopped res = record {
  stop_reason = res;
  resume_type = ResumeType.continue;
  stop_reported = false;
  is_live = true;
}

abbrev two_stops : CoreManager
two_stops = record {
  num_cores = 2;
  live_cores = 2;
  core_states = stopped ResumeRes.interrupted ∷ stopped ResumeRes.syscall ∷ [];
}

get_next_stop_event_lem_example : get_next_stop_event two_stops ≡ some (1, ResumeRes.syscall)
get_next_stop_event_lem_example = get_next_stop_event_lem two_stops

-- The argument registers of a system call.
abbrev pub no_locs : SyscallLocs
no_locs = record {
  id = register 17;
  args = register 10 ∷ register 11 ∷ register 12 ∷ [];
  return_value = register 10;
}

-- The target goes on for as many rounds as its state says, and then its first core stops.
abbrev flat_wait : ℕ → (WaitRes × List ResumeRes) × ℕ
flat_wait zero = ((WaitRes.event_occurred, ResumeRes.interrupted ∷ ResumeRes.none ∷ []), 0)
flat_wait (suc t) = ((WaitRes.timeout, []), t)

-- The empty target with a register of 4 bytes, and memory that repeats one byte. The state counts
-- the reads, and the rounds left.
abbrev pub flat : Target ℕ
flat = record {
  terminate = λ t. (ResumeRes.success, t);
  reset = λ type t. (ResumeRes.success, 0);
  cycle_count = λ t. 100 * t;
  instr_count = λ t. t;
  register_count = λ t. 2;
  register_size = λ t. 4;
  syscall_arg_locs = λ t. (false, no_locs);
  read_register = λ reg t. ((4, reg), t);
  write_register = λ reg val t. (4, t);
  read = λ addr size t. ((size, replicate size 0xab), t + 1);
  write = λ addr bytes t. (length bytes, t);
  insert_matchpoint = λ addr type t. (false, t);
  remove_matchpoint = λ addr type t. (false, t);
  command = λ cmd t. ((false, []), t);
  time_stamp = λ t. (codes "0", t);
  cpu_count = λ t. 2;
  current_cpu = λ t. 0;
  set_current_cpu = λ index t. t;
  prepare = λ actions t. (true, t);
  resume = λ t. (true, t);
  wait = flat_wait;
  halt = λ t. (true, t);
  supports_target_xml = λ t. true;
  target_xml = λ name t. some (codes "<target></target>");
}

-- A connection that holds the packets to come, and takes what is sent.
abbrev pub feed : Rsp (List Bytes)
feed = record {
  is_connected = λ r. true;
  rsp_connect = λ r. ok (true, r);
  rsp_close = λ r. [];
  get_pkt = λ r. elim r [ [] ↦ ok (none, []) | p ∷ ps ↦ ok (some p, ps) ];
  put_pkt = λ reply r. ok (some tt, r);
  have_break = λ r. (false, r);
  set_no_ack_mode = λ on r. r;
}

-- The clock ticks when it is read.
abbrev pub ticks : Clock ℕ ℕ ℕ
ticks = record {
  now = λ c. (c, c + 1);
  zero_duration = 0;
  seconds = λ n. n;
  plus = λ at d. at + d;
  after = λ x y. ltb y x;
  clock_text = λ at. codes "2020-01-01 00:00:00";
}

abbrev pub flat_env : Env
flat_env = record {
  T = ℕ;
  R = List Bytes;
  C = ℕ;
  Duration = ℕ;
  Instant = ℕ;
  cpu = flat;
  rsp = feed;
  clock = ticks;
  size = 100;
  fuel = 10;
}

abbrev pub started : Server flat_env
started = record {
  pkt = [];
  num_regs = 2;
  target = 5;
  link = [];
  time = 0;
  replies = [];
  flags = [];
  timeout = no_timeout 0 0 0;
  kill_behaviour = KillBehaviour.reset_on_kill;
  exit_server = false;
  have_multi_proc = false;
  stop_mode = StopMode.all_stop;
  ptid = record { pid = pos 1; tid = pos 1 };
  next_process = 1;
  handling_syscall = false;
  have_syscall_arg_locs = false;
  have_syscall_support = false;
  syscall_locs = no_locs;
  kill_core_on_exit = false;
  cores = two_cores;
}

-- The constructor gives this state.
started_lem :
    new_server {e = flat_env} 5 [] 0 [] KillBehaviour.reset_on_kill (no_timeout 0 0 0) no_locs
    ≡ started
unfolding new_server init
started_lem = refl

abbrev pub asked : Bytes → Server flat_env
asked text = record started { pkt = text }

rsp_read_mem-hex_text_example :
    (rsp_read_mem (asked (range_text b'm' 0x1000 2 []))
      ≡ put
          (hex_text (0xab ∷ 0xab ∷ []))
          (record started { pkt = range_text b'm' 0x1000 2 []; target = 6 }))
    × (hex2ascii (hex_text (0xab ∷ 0xab ∷ [])) ≡ ok (0xab ∷ 0xab ∷ []))
rsp_read_mem-hex_text_example =
    rsp_read_mem-hex_text (asked (range_text b'm' 0x1000 2 [])) 0x1000 (0xab ∷ 0xab ∷ []) 6 refl
      (omega arith) (omega arith) (omega arith) (omega arith, (omega arith, tt)) refl
