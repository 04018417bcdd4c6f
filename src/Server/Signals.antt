-- ===== src/Server/Signals.antt =====
-- lib/server/GdbServer.h and .cpp: the enumerations of the server, their output operators, and the
-- packet of `rspReportException`.
use embdebug.Base.{ℕ, ◌/◌, ◌%◌, bit_and, Bool, [], ◌∷◌, ◌++◌, Bytes, codes, get_or, if◌then◌else◌}
use embdebug.Base.Outcome.{Outcome, ok, ◌>>=◌}
use embdebug.Cores.{core_num2pid}
use embdebug.Hex.{hex_map, val2hex}

pub data TargetSignal : Type 0 where
  none int trap xcpu usr1 unknown : TargetSignal

pub data StopMode : Type 0 where
  non_stop all_stop : StopMode

pub data MatchpointType : Type 0 where
  bp_memory bp_hardware wp_write wp_read wp_access : MatchpointType

abbrev pub signal_number : TargetSignal → ℕ
signal_number TargetSignal.none = 0
signal_number TargetSignal.int = 2
signal_number TargetSignal.trap = 5
signal_number TargetSignal.xcpu = 24
signal_number TargetSignal.usr1 = 30
signal_number TargetSignal.unknown = 143

abbrev pub print_signal : TargetSignal → Bytes
print_signal TargetSignal.none = codes "SIGNONE"
print_signal TargetSignal.int = codes "SIGINT"
print_signal TargetSignal.trap = codes "SIGTRAP"
print_signal TargetSignal.usr1 = codes "SIGUSR1"
print_signal TargetSignal.xcpu = codes "SIGXCPU"
print_signal TargetSignal.unknown = codes "SIGUNKNOWN"

abbrev pub print_stop_mode : StopMode → Bytes
print_stop_mode StopMode.non_stop = codes "NON_STOP"
print_stop_mode StopMode.all_stop = codes "ALL_STOP"

abbrev pub print_matchpoint_type : MatchpointType → Bytes
print_matchpoint_type MatchpointType.bp_memory = codes "BP_MEMORY"
print_matchpoint_type MatchpointType.bp_hardware = codes "BP_HARDWARE"
print_matchpoint_type MatchpointType.wp_write = codes "WP_WRITE"
print_matchpoint_type MatchpointType.wp_read = codes "WP_READ"
print_matchpoint_type MatchpointType.wp_access = codes "WP_ACCESS"

-- The conversion `%02x` of a number below 256.
abbrev pub two_digits : ℕ → Bytes
two_digits n = get_or hex_map (n / 16) 0 ∷ get_or hex_map (n % 16) 0 ∷ []

-- The packet of `rspReportException` for the current core of the target. The conversion `%x` of an
-- `unsigned int` writes the text of `val2Hex`.
unfoldable pub exception_text : Bool → ℕ → TargetSignal → Outcome Bytes
exception_text have_multi_proc current_cpu sig = do
  pid ← val2hex (core_num2pid current_cpu)
  ok (
      if have_multi_proc
      then codes "T"
        ++ (two_digits (bit_and (signal_number sig) 0xff)
            ++ (codes "thread:p" ++ (pid ++ codes ".1;")))
      else codes "S" ++ two_digits (bit_and (signal_number sig) 0xff))
