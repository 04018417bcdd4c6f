-- ===== src/Tests/Classes.antt =====
-- lib/server/TraceFlags.cpp, RspPacket.cpp and Timeout.cpp at concrete objects.
use embdebug.Base.{◌≡◌, ◌≤◌, refl, true, false, List, [], ◌∷◌, codes, arith, length, drop}
use embdebug.Base.Outcome.{ok, fault, assertion, Returns, ◌>>=◌}
use embdebug.Hex.{hex2ascii}
use embdebug.Packet.{buf_size, create_rcmd_str, create_hex_str}
use embdebug.Packet.Builder
use embdebug.Packet.Rcmd.{hex2ascii-create_rcmd_str, create_rcmd_str_high}
use embdebug.Trace.{trace_flags, parse_arg, is_flag, is_numeric_flag}
use embdebug.Trace.Flag.{TurnedOn, assignment, parse_arg-TurnedOn}

hex2ascii-create_rcmd_str_example :
    ((do packet ← create_rcmd_str buf_size (codes "OK") true; hex2ascii (drop 1 packet))
      ≡ ok (codes "OK"))
    × (create_hex_str buf_size (codes "OK") ≡ create_rcmd_str buf_size (codes "OK") true)
hex2ascii-create_rcmd_str_example =
    hex2ascii-create_rcmd_str buf_size (codes "OK") true (omega arith, (omega arith, tt))
      (omega arith) (omega arith)

create_rcmd_str_high_example :
    (do packet ← create_rcmd_str buf_size (200 ∷ codes "x") false; hex2ascii packet)
    ≡ fault assertion
create_rcmd_str_high_example =
    create_rcmd_str_high buf_size 200 (codes "x") (omega arith) (omega arith) (omega arith)
      (omega arith)

abbrev some_calls : List Builder.Call
some_calls = Builder.char b'm' ∷ Builder.string (codes "1,2") ∷ []

build-fits_example : length (Builder.build 3 [] some_calls) ≤ 3
build-fits_example = Builder.build-fits 3 [] some_calls (omega arith) (tt, (omega arith, tt))

rsp_is_flag : is_flag trace_flags (codes "rsp") ≡ true
unfolding is_flag trace_flags
rsp_is_flag = refl

rsp_plain : is_numeric_flag (codes "rsp") ≡ false
unfolding is_numeric_flag
rsp_plain = refl

parse_arg-TurnedOn_example :
    Returns
      (parse_arg trace_flags (assignment (codes "rsp") (codes "a=b")))
      (TurnedOn trace_flags (codes "rsp") (codes "a=b"))
parse_arg-TurnedOn_example =
    parse_arg-TurnedOn trace_flags (codes "rsp") (codes "a=b") (refl, (refl, (refl, tt)))
      rsp_is_flag rsp_plain
