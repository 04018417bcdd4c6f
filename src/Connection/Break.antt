-- ===== src/Connection/Break.antt =====
-- lib/server/AbstractConnection.cpp, `haveBreak`: the input and the flag afterwards.
use embdebug.Base.{
  ◌≤◌, ◌≡◌, refl, Bool, true, false, not, ◌&&◌, [], ◌∷◌, List, arith, ◌==◌, if◌then◌else◌,
}
use embdebug.Connection.Monad.{Event, char, quiet, Conn}
use embdebug.Connection.Reads.{chars}
use embdebug.Connection.{have_break, break_char, next_char}

-- A break has arrived, and is the next character.
abbrev pub break_arrived : List Event → Bool
break_arrived (char x ∷ events) = x == break_char
break_arrived _ = false

-- What a call does, in terms of the characters that reads will deliver.
pub record BreakSeen (c : Conn) (seen : Bool) (d : Conn) : Type 0 where
  pub input : chars c ≡ (if seen && not c.have_pending_break then break_char ∷ chars d else chars d)
  pub no_pending : d.have_pending_break ≡ false
  pub seen_pending : c.have_pending_break ≡ true → seen ≡ true
  pub seen_next : c.num_get_buf_chars ≡ 0 → break_arrived c.arriving ≡ true → seen ≡ true
  pub sent_eq : d.sent ≡ c.sent
  pub one_held : c.num_get_buf_chars ≤ 1 → d.num_get_buf_chars ≤ 1

have_break_events :
    (events : List Event) (c : Conn)
    → c.arriving ≡ events
    → BreakSeen c (have_break c).0 (have_break c).1
unfolding have_break chars next_char
have_break_events [] c e = ground arith
have_break_events (char x ∷ events) c e = ground arith
have_break_events (quiet ∷ events) c e = ground arith

-- `haveBreak` returns true if a break is pending, and if no character is held and a break has
-- arrived as the next character of the script.
-- It takes a character from the input only where it returns true and no break was pending, and
-- then that character is the break. In every case no break is pending afterwards, nothing is sent,
-- and at most one character is held if at most one was.
pub have_break-BreakSeen : (c : Conn) → BreakSeen c (have_break c).0 (have_break c).1
have_break-BreakSeen c = have_break_events c.arriving c refl
