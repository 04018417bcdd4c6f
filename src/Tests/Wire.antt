-- ===== src/Tests/Wire.antt =====
-- lib/server/AbstractConnection.cpp at concrete scripts.
use embdebug.Base.{
  ◌<◌, ◌≡◌, refl, Bool, true, false, [], ◌∷◌, ◌++◌, map, some, Bytes, codes, arith, length,
}
use embdebug.Base.Outcome.{ok}
use embdebug.Connection.Monad.{Conn, char, quiet}
use embdebug.Connection.{get_pkt, put_pkt, have_break, is_escaped}
use embdebug.Hex.{is_xdigit, hex_value}
use embdebug.Connection.Reads.{chars}
use embdebug.Connection.Writes.{escape, frame, wrote, sum_from}
use embdebug.Connection.Receive.{ack_of, get_pkt_frame}
use embdebug.Connection.Bounds.{Ends, get_pkt-Ends}
use embdebug.Connection.Overrun.{DeliversNothing, get_pkt_overrun}
use embdebug.Connection.Put.{put_pkt_no_ack, put_pkt_answers, repeated}
use embdebug.Connection.Break.{BreakSeen, have_break-BreakSeen}

-- A connection on which a text arrives.
abbrev pub conn : Bool → Bytes → Conn
conn no_ack text = record {
  arriving = quiet ∷ map char text;
  room = 100;
  sent = [];
  have_pending_break = false;
  no_ack_mode = no_ack;
  get_char_buf = 0;
  num_get_buf_chars = 0;
}

abbrev pkt : Bytes
pkt = codes "m}#"

abbrev wire : Conn
wire = conn false (codes "+" ++ (frame pkt ++ codes "x"))

get_pkt_frame_example :
    (d : Conn) × (get_pkt 20 (conn true (codes "$OK#9a+")) ≡ ok (some (codes "OK"), d))
    × (chars d ≡ codes "+")
    × (d.sent ≡ [] ++ ack_of true)
unfolding chars sum_from is_xdigit hex_value
get_pkt_frame_example =
    get_pkt_frame 20 (conn true (codes "$OK#9a+")) [] (codes "OK") b'9' b'a' (codes "+")
      (omega arith) tt ((refl, refl), ((refl, refl), tt)) refl refl refl (omega arith) refl

get_pkt-Ends_example : Ends (λ pkt _. length pkt < 4) (get_pkt 4 wire)
get_pkt-Ends_example = get_pkt-Ends 4 wire

put_pkt_no_ack_example : put_pkt pkt (conn true []) ≡ ok (some tt, wrote (frame pkt) (conn true []))
unfolding frame escape is_escaped
put_pkt_no_ack_example = put_pkt_no_ack pkt (conn true []) refl (omega arith)

have_break-BreakSeen_example :
    BreakSeen (conn true []) (have_break (conn true [])).0 (have_break (conn true [])).1
have_break-BreakSeen_example = have_break-BreakSeen (conn true [])

get_pkt_overrun_example : DeliversNothing (get_pkt 2 (conn false (codes "$abc#26$OK#9a")))
unfolding chars
get_pkt_overrun_example =
    get_pkt_overrun 2 (conn false (codes "$abc#26$OK#9a")) [] (codes "ab") (codes "c#26$OK#9a") refl
      tt ((refl, refl), ((refl, refl), tt)) refl

-- The first frame has a wrong checksum.
abbrev retried : Conn
retried = conn false (codes "$xy#00$OK#9a")

abbrev asked_again : Conn
asked_again = conn false (codes "-+z")

put_pkt_answers_example :
    (d : Conn) × (put_pkt pkt asked_again ≡ ok (some tt, d))
    × (chars d ≡ codes "z")
    × (d.sent ≡ [] ++ repeated 2 (frame pkt))
unfolding chars frame escape is_escaped
put_pkt_answers_example =
    put_pkt_answers pkt asked_again (codes "-") (codes "z") refl (omega arith) ((refl, refl), tt)
      refl
