-- ===== src/Server/Monitor.antt =====
-- lib/server/GdbServer.cpp, `rspCommand`: the monitor commands.
use embdebug.Base.{
  ℕ, Bool, true, false, not, ◌||◌, List, [], ◌∷◌, ◌++◌, none, some, Bytes, codes, eq_bytes,
  if◌then◌else◌, drop,
}
use embdebug.Base.Decimal.{decimal_text}
use embdebug.Base.Outcome.{fatal_error}
use embdebug.Cores.{CoreManager}
use embdebug.Cores
use embdebug.Hex.{hex2ascii}
use embdebug.Packet.{create_rcmd_str, create_hex_str}
use embdebug.Server.Output.{help_lines, target_help, no_target_help, lines_from, scan_command}
use embdebug.Server.Scan.{c_string}
use embdebug.Server.Settings.{ask_target, rsp_set_command, rsp_show_command}
use embdebug.Server.State.{Env, Act, ◌>>=◌, ◌>>◌, ret, stop, lift, get, modify, on_target, put}
use embdebug.Strings.{starts_with}
use embdebug.SyscallReply.{skip_space}
use embdebug.Target.Enums.{ResumeRes, ResetType}
use embdebug.Timeout.{set_real_timeout, set_cycle_timeout}

abbrev pub is_success : ResumeRes → Bool
is_success ResumeRes.success = true
is_success _ = false

module _ {e : Env} where
  unfoldable pub put_lines : List Bytes → Act e (Unit {0})
  unfolding put create_rcmd_str c_string
  put_lines [] = ret tt
  put_lines (line ∷ lines) =
      let rest = put_lines lines in
      do packet ← lift (create_rcmd_str e.size (c_string line) true); put packet; rest

  unfoldable pub help_command : Act e (Unit {0})
  unfolding put_lines lines_from put
  help_command = do
    put_lines help_lines
    (success, text) ← on_target (e.cpu.command (codes "help"))
    if success
        then put_lines (target_help ∷ lines_from [] text)
        else put_lines (no_target_help ∷ [])
    put (codes "OK")

  -- All cores come back to life first.
  unfoldable pub reset_command : ResetType → Act e (Unit {0})
  unfolding put Cores.reset
  reset_command type = do
    modify (λ s. record s { cores = Cores.reset s.cores })
    res ← on_target (e.cpu.reset type)
    if not (is_success res) then stop fatal_error else put (codes "OK")

  -- A line for the client, and `OK`.
  unfoldable pub put_line : Bytes → Act e (Unit {0})
  unfolding put create_hex_str c_string
  put_line text = do
    packet ← lift (create_hex_str e.size (c_string (text ++ (10 ∷ []))))
    put packet
    put (codes "OK")

  unfoldable pub real_timestamp_command : Act e (Unit {0})
  unfolding put_line
  real_timestamp_command s =
      let (now, time) = e.clock.now s.time in
      put_line (e.clock.clock_text now) (record s { time = time })

  unfoldable pub timestamp_command : Act e (Unit {0})
  unfolding put_line
  timestamp_command = do text ← on_target e.cpu.time_stamp; put_line text

  unfoldable pub real_timeout_command : ℕ → Act e (Unit {0})
  unfolding put
  real_timeout_command timeout = do
    modify (λ s. record s {
      timeout = set_real_timeout e.clock.zero_duration (e.clock.seconds timeout) s.timeout;
    })
    put (codes "OK")

  unfoldable pub cycle_timeout_command : ℕ → Act e (Unit {0})
  unfolding put
  cycle_timeout_command timeout = do
    modify (λ s. record s { timeout = set_cycle_timeout e.clock.zero_duration timeout s.timeout })
    put (codes "OK")

  -- The rest of the chain of tests, from `real-timestamp` on. What `echo` writes is left out.
  unfoldable pub other_command : Bytes → Act e (Unit {0})
  unfolding real_timestamp_command timestamp_command put_line rsp_set_command rsp_show_command
      ask_target put starts_with skip_space decimal_text
  other_command cmd = do
    s ← get
    if eq_bytes cmd (codes "real-timestamp")
        then real_timestamp_command
        else if eq_bytes cmd (codes "timestamp")
        then timestamp_command
        else if eq_bytes cmd (codes "cyclecount")
        then put_line (decimal_text (e.cpu.cycle_count s.target))
        else if eq_bytes cmd (codes "instrcount")
        then put_line (decimal_text (e.cpu.instr_count s.target))
        else if starts_with cmd (codes "echo")
        then put (codes "OK")
        else if starts_with cmd (codes "set ")
        then rsp_set_command (skip_space (drop 4 cmd))
        else if starts_with cmd (codes "show ")
        then rsp_show_command (skip_space (drop 5 cmd))
        else ask_target cmd (codes "E01")

  -- `timeout` and `real-timeout`, then `cycle-timeout`.
  unfoldable pub timeout_command : Bytes → Act e (Unit {0})
  unfolding scan_command real_timeout_command cycle_timeout_command other_command
  timeout_command cmd = elim (scan_command (codes "timeout") cmd) [
    | some n ↦ real_timeout_command n
    | none ↦ elim (scan_command (codes "real-timeout") cmd) [
      | some n ↦ real_timeout_command n
      | none ↦ elim (scan_command (codes "cycle-timeout") cmd) [
        | some n ↦ cycle_timeout_command n
        | none ↦ other_command cmd
      ]
    ]
  ]

  -- The chain of tests. The first one holds for each prefix of `help`, the empty text too.
  unfoldable pub run_command : Bytes → Act e (Unit {0})
  unfolding help_command reset_command timeout_command starts_with
  run_command cmd =
      if starts_with (codes "help") cmd
      then help_command
      else if eq_bytes cmd (codes "reset") || eq_bytes cmd (codes "reset warm")
      then reset_command ResetType.warm
      else if eq_bytes cmd (codes "reset cold")
      then reset_command ResetType.cold
      else if eq_bytes cmd (codes "exit")
      then modify (λ s. record s { exit_server = true })
      else timeout_command cmd

  unfoldable pub rsp_command : Act e (Unit {0})
  unfolding run_command c_string hex2ascii
  rsp_command = do
    s ← get
    cmd ← lift (hex2ascii (c_string (drop 6 s.pkt)))
    run_command (c_string cmd)
