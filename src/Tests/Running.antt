-- ===== src/Tests/Running.antt =====
-- The server on a wire, its settings, timeouts and kills, and the memory of packets, at concrete
-- inputs.
use embdebug.Base.{
  ◌≡◌, refl, false, true, List, [], ◌∷◌, ◌++◌, none, some, Bytes, codes, arith, ltb, if◌then◌else◌,
}
use embdebug.Base.Outcome.{ok}
use embdebug.Connection.Monad.{Conn}
use embdebug.Connection.Reads.{chars}
use embdebug.Connection.Writes.{escape, frame, sum_from}
use embdebug.Connection.{get_pkt, is_escaped}
use embdebug.Cores.{fresh_core}
use embdebug.Cores.Live.{count_live}
use embdebug.Escape.{rsp_unescape}
use embdebug.Hex.{hex2ascii}
use embdebug.Hex.Digit.{hex_digit}
use embdebug.Hex.Text.{hex_text}
use embdebug.Hex.Value.{val_text, digits_of}
use embdebug.Packet.Memory.{Memory}
use embdebug.Packet.Memory.Owned.{IsOwned}
use embdebug.Packet.Memory.Values.{Call, build_from, copy_of, move_to, destroy_of, run, run_values}
use embdebug.Packet.Memory.Values.Refines.{view, Refines}
use embdebug.Packet.Memory.Values.Runs.{run-Refines}
use embdebug.Server.Flags.{set_text, show_text, rsp_show_command-rsp_set_command}
use embdebug.Server.Kill.{kill_text}
use embdebug.Server.Kill.Loop.{ending, rsp_server_last_kill}
use embdebug.Server.Loop.{rsp_client_request, rsp_server}
use embdebug.Server.Output.{flag_word}
use embdebug.Server.Range.{range_text}
use embdebug.Server.Settings.{rsp_set_command, rsp_show_command}
use embdebug.Server.Shown.{shown}
use embdebug.Server.State.{put, ◌>>◌, Server, KillBehaviour}
use embdebug.Server.Wire.{wired}
use embdebug.Server.Wire.Memory.{rsp_client_request-get_pkt}
use embdebug.Tests.Server.{
  flat, flat_env, ticks, started, one_core_left, one_core_left-IsValid, no_locs,
}
use embdebug.Tests.Wire.{conn}
use embdebug.Strings.{is_in}
use embdebug.Timeout.{no_timeout, time_stamp, set_cycle_timeout}
use embdebug.Server.Timed.{poll-cycle_timeout}
use embdebug.Server.Run.{poll}
use embdebug.Server.Signals.{TargetSignal}
use embdebug.Trace.{trace_flags, is_flag, is_numeric_flag}
use embdebug.Trace.Flag.{IsSetTo}

-- The first core is the last one that is alive.
abbrev last_core : Server flat_env
last_core = record started { link = kill_text 1 ∷ []; cores = one_core_left }

rsp_server_last_kill_example :
    (after : Server flat_env) × (rsp_server 5 last_core
      ≡ ending KillBehaviour.reset_on_kill 4 after)
    × (after.replies ≡ [] ++ (codes "OK" ∷ []))
    × (after.link ≡ [])
    × (after.target ≡ 5)
    × (count_live after.cores.core_states ≡ 0)
rsp_server_last_kill_example =
    rsp_server_last_kill last_core 0 9 3 fresh_core (some tt) [] [] refl refl refl
      one_core_left-IsValid refl (omega arith) (omega arith) refl refl refl refl

abbrev traced : Server flat_env
traced = record started { flags = trace_flags }

rsp_show_command-rsp_set_command_example :
    (t : Server flat_env) × (rsp_set_command
        (set_text (codes "mem") (codes "On") (codes "x"))
        traced
      ≡ ok (tt, t))
    × (t.replies ≡ [] ++ (codes "OK" ∷ []))
    × IsSetTo trace_flags (codes "mem") true (codes "x") t.flags
    × (rsp_show_command (show_text (codes "mem")) t
        ≡ (put (b'O' ∷ hex_text (shown (codes "mem") true (codes "x"))) >> put (codes "OK")) t)
unfolding is_flag trace_flags is_numeric_flag flag_word is_in
rsp_show_command-rsp_set_command_example =
    rsp_show_command-rsp_set_command traced (codes "mem") (codes "On") (codes "x") true (some tt) []
      (refl, (refl, (refl, tt))) (refl, (refl, tt)) (refl, tt) refl refl refl refl
      ((omega arith, omega arith), ((omega arith, omega arith), ((omega arith, omega arith), tt)))
      ((omega arith, omega arith), tt) (omega arith) (omega arith)

-- Two bytes are asked for, and what the client reads then.
abbrev request : Bytes
request = range_text b'm' 0x1000 2 []

abbrev bytes : Bytes
bytes = 0xab ∷ 0xab ∷ []

abbrev on_wire : Server (wired flat ticks 100 10)
on_wire = record {
  pkt = [];
  num_regs = 2;
  target = 5;
  link = record { conn = conn false (frame request ++ (b'+' ∷ [])); connected = true };
  time = 0;
  replies = [];
  flags = [];
  timeout = no_timeout 0 0 0;
  kill_behaviour = KillBehaviour.reset_on_kill;
  exit_server = false;
  have_multi_proc = false;
  stop_mode = started.stop_mode;
  ptid = started.ptid;
  next_process = 1;
  handling_syscall = false;
  have_syscall_arg_locs = false;
  have_syscall_support = false;
  syscall_locs = no_locs;
  kill_core_on_exit = false;
  cores = started.cores;
}

abbrev client : Conn
client = conn false (b'+' ∷ frame (hex_text bytes))

rsp_client_request-get_pkt_example :
    (s' : Server (wired flat ticks 100 10)) × (rsp_client_request on_wire ≡ ok (tt, s'))
    × (s'.target ≡ 6)
    × (chars s'.link.conn ≡ [])
    × (s'.link.conn.sent ≡ [] ++ ((b'+' ∷ []) ++ frame (hex_text bytes)))
    × (text : Bytes) × (client' : Conn) × (get_pkt 100 client ≡ ok (some text, client'))
    × (hex2ascii (rsp_unescape text) ≡ ok bytes)
    × (chars client' ≡ [])
unfolding chars frame escape is_escaped sum_from hex_digit hex_text val_text digits_of
rsp_client_request-get_pkt_example =
    rsp_client_request-get_pkt on_wire client 0x1000 bytes [] [] [] 6 (omega arith) (omega arith)
      (omega arith) (omega arith) (omega arith, (omega arith, tt)) refl tt refl (omega arith) refl
      (omega arith)

-- No packet yet.
abbrev empty_memory : Memory
empty_memory = record { contents = λ a. none; next = 0; objects = [] }

empty_memory-IsOwned : IsOwned empty_memory
empty_memory-IsOwned = record { one = λ a. refl; fresh = λ a above. refl }

-- A reply is made and copied, the copy is moved over it, and both are destroyed.
abbrev reply_calls : List Call
reply_calls = build_from (codes "OK") ∷ copy_of 0 ∷ move_to 0 1 ∷ destroy_of 1 ∷ destroy_of 0 ∷ []

run-Refines_example :
    Refines (run 100 reply_calls empty_memory) (run_values 100 reply_calls (view empty_memory))
run-Refines_example = run-Refines 100 reply_calls empty_memory empty_memory-IsOwned

reply_values : run_values 100 reply_calls [] ≡ ok (none ∷ none ∷ [])
reply_values = refl

-- The limit is set to 300 cycles, at 100 cycles; now there are 500.
abbrev limited : Server flat_env
limited = record started { timeout = time_stamp 0 100 (set_cycle_timeout 0 300 (no_timeout 0 0 0)) }

poll-cycle_timeout_example :
    poll limited ≡ ok ((if ltb 300 400 then some TargetSignal.xcpu else none), limited)
poll-cycle_timeout_example =
    poll-cycle_timeout limited (no_timeout 0 0 0) 0 100 300 [] refl refl (omega arith) (omega arith)
