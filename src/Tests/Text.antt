-- ===== src/Tests/Text.antt =====
-- lib/server/Utils.cpp, Ptid.cpp, VContActions.cpp and SyscallReplyPacket.h at concrete texts.
use embdebug.Base.{◌≤◌, ◌<◌, ◌≡◌, refl, true, false, [], ◌∷◌, ◌++◌, codes, arith, length, filter}
use embdebug.Base.Int.{pos, negsuc}
use embdebug.Base.Outcome.{ok, Returns, ◌>>=◌}
use embdebug.Hex.{is_hex_str, reg_val2hex, hex2reg_val, val2hex, hex2val}
use embdebug.Hex.Register.{hex2reg_val-reg_val2hex}
use embdebug.Hex.Value.{hex2val-val2hex}
use embdebug.Ptid.{Ptid, encode, decode, crystalize}
use embdebug.Ptid.Codec.{decode-encode}
use embdebug.Ptid.Crystal.{Crystallized, crystalize-Crystallized}
use embdebug.Strings.{split, find}
use embdebug.Strings.Split.{Tokens, split-Tokens}
use embdebug.VCont.{VContActions, parse, get_core_action, effects_multiple_cores}
use embdebug.VCont.Choice.{
  letter_of, applies, get_core_action-first, effects_multiple_cores-one_core,
}
use embdebug.SyscallReply.{accepted}
use embdebug.SyscallReply
use embdebug.Hex.Value.{val_text}
use embdebug.SyscallReply.RoundTrip.{failed, parse-reply_text}

hex2reg_val-reg_val2hex_example :
    (do buf ← reg_val2hex 0x1a2b 4 true; hex2reg_val buf 4 true) ≡ ok 0x1a2b
hex2reg_val-reg_val2hex_example =
    hex2reg_val-reg_val2hex 0x1a2b 4 true (omega arith) (omega arith) (omega arith) (omega arith)

hex2val-val2hex_example :
    Returns
      (val2hex 0x1a2b)
      λ text. (0 < length text) × (length text ≤ 8) × (hex2val text (length text) ≡ ok 0x1a2b)
hex2val-val2hex_example = hex2val-val2hex 0x1a2b (omega arith)

-- Thread 26 of process 1.
abbrev ptid : Ptid
ptid = record { pid = pos 1; tid = pos 26 }

abbrev any_ptid : Ptid
any_ptid = record { pid = pos 0; tid = pos 0 }

decode-encode_example :
    Returns (encode ptid) λ r. (r.0 ≡ true) × (decode r.1 any_ptid ≡ ok (true, ptid))
decode-encode_example =
    decode-encode ptid any_ptid
      (record { pid_field = omega arith; tid_field = omega arith; allowed = refl })

crystalize-Crystallized_example :
    Crystallized (pos 1) (pos 2) (pos 0) (pos 0) (crystalize (pos 1) (pos 2) any_ptid)
crystalize-Crystallized_example = crystalize-Crystallized (pos 1) (pos 2) any_ptid

split-Tokens_example : Tokens (codes ";") (codes ";c:p1;s") (split (codes ";c:p1;s") (codes ";"))
split-Tokens_example = split-Tokens (codes ";c:p1;s") (codes ";")

abbrev step_second : VContActions
step_second = record {
  valid = true;
  actions =
      record { text = codes "s:p2.1"; ptid = record { pid = pos 2; tid = pos 1 } }
      ∷ record { text = codes "c"; ptid = record { pid = negsuc 0; tid = negsuc 0 } }
      ∷ [];
}

parse_example : parse (codes "vCont;s:p2.1;c") ≡ ok step_second
unfolding parse split find decode is_hex_str hex2val
parse_example = refl

get_core_action-first_example :
    get_core_action 2 step_second ≡ ok (letter_of (filter (applies 2) step_second.actions))
get_core_action-first_example =
    get_core_action-first (codes "vCont;s:p2.1;c") step_second 2 parse_example

effects_multiple_cores-one_core_example : effects_multiple_cores step_second ≡ ok true
effects_multiple_cores-one_core_example =
    effects_multiple_cores-one_core (codes "vCont;s:p2.1;c") step_second parse_example refl

parse-reply_text_example :
    SyscallReply.parse (codes "F-1," ++ (val_text 2 ++ codes ",C")) (accepted (pos 0) false)
    ≡ accepted (negsuc 1) true
parse-reply_text_example = parse-reply_text (failed 1) true (accepted (pos 0) false) (omega arith)
