-- ===== src/Driver.antt =====
-- tools/driver/Driver.cpp: what the command line asks for, the loading of the target, and `main`.
-- Messages are left out. The options are what cxxopts makes of the command line.
pub mod Load
pub mod Empty
pub mod Port
use embdebug.Base.{
  ℕ, ◌-◌, ◌%◌, ◌^◌, Bool, true, false, not, List, [], ◌∷◌, Option, none, some, Bytes, codes, ltb,
  ◌==◌, if◌then◌else◌, get_or, drop,
}
use embdebug.Base.Int.{ℤ, pos, negsuc}
use embdebug.Base.Outcome.{Outcome, ok, ◌>>=◌}
use embdebug.Trace.{Flags, stoi, set_flag_state, parse_arg}

-- Whether each of the options that take no value is there, and the values of the others.
pub record Options : Type 0 where
  pub help : Bool
  pub silent : Bool
  pub version : Bool
  pub from_stdin : Bool
  pub soname : Option Bytes
  pub bufsize : Option Bytes
  pub rsp_port : Option Bytes
  pub trace : List Bytes

-- What `main` has once it has read the options.
pub record Settings : Type 0 where
  pub flags : Flags
  pub soname : Bytes
  pub from_stdin : Bool
  pub port : ℕ
  pub size : ℕ

-- `main` returns from the reading, with `EXIT_SUCCESS` or not, or goes on.
pub data Verdict : Type 0 where
  finished : Bool → Verdict
  go_on : Settings → Verdict

-- The conversion of an `int` to a `size_t`.
abbrev pub to_size : ℤ → ℕ
to_size (pos n) = n % 2 ^ 64
to_size (negsuc n) = 2 ^ 64 - 1 - n

abbrev pub check_size : Option ℤ → Option ℕ
check_size none = none
check_size (some n) = some (to_size n)

-- `--bufsize`; none is an error.
unfoldable pub read_size : Option Bytes → Option ℕ
unfolding stoi
read_size none = some 10000
read_size (some token) = check_size (stoi token)

-- A port is from 0 to `UINT16_MAX`.
abbrev pub check_port : Option ℤ → Option ℕ
check_port none = none
check_port (some (negsuc n)) = none
check_port (some (pos n)) = if ltb 65535 n then none else some n

-- `--rsp-port`, with or without a colon in front.
unfoldable pub read_port : Option Bytes → Option ℕ
unfolding stoi
read_port none = some 0
read_port (some token) =
    check_port (stoi (if get_or token 0 0 == b':' then drop 1 token else token))

-- `--trace`, each time it is given; none is an error.
unfoldable pub read_trace : Flags → List Bytes → Outcome (Option Flags)
unfolding parse_arg
read_trace flags [] = ok (some flags)
read_trace flags (arg ∷ args) = do
  (parsed, after) ← parse_arg flags arg
  elim parsed [ true ↦ read_trace after args | false ↦ ok none ]

-- Behind the tests for `help`, `version` and `soname`.
unfoldable pub read_values : Options → Bytes → Flags → Option ℕ → Option ℕ → Outcome Verdict
unfolding read_trace
read_values o soname flags none port = ok (finished false)
read_values o soname flags (some size) none = ok (finished false)
read_values o soname flags (some size) (some port) = do
  traced ← read_trace flags o.trace
  elim traced [
    | none ↦ ok (finished false)
    | some after ↦ ok (
        go_on (record {
          flags = after;
          soname = soname;
          from_stdin = o.from_stdin;
          port = port;
          size = size;
        }))
  ]

-- The body of the `try`.
unfoldable pub read_options : Options → Flags → Outcome Verdict
unfolding read_values read_size read_port set_flag_state
read_options o flags = if o.help then ok (finished true) else (do
  after ← (if o.silent then set_flag_state flags (codes "silent") true else ok flags)
  if o.version then ok (finished true) else elim o.soname [
    | none ↦ ok (finished false)
    | some soname ↦ read_values o soname after (read_size o.bufsize) (read_port o.rsp_port)
  ])
