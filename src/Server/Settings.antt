-- ===== src/Server/Settings.antt =====
-- lib/server/GdbServer.cpp: the monitor commands `set` and `show`, `rspSetCommand` and
-- `rspShowCommand`.
use embdebug.Base.{
  Bool, true, not, List, [], ◌∷◌, ◌++◌, Option, none, some, Bytes, codes, eq_bytes, ◌==◌,
  if◌then◌else◌, length,
}
use embdebug.Base.Outcome.{Outcome, undefined}
use embdebug.Packet.{create_rcmd_str}
use embdebug.Server.Output.{flag_word}
use embdebug.Server.Scan.{c_string}
use embdebug.Server.State.{Env, Act, ◌>>=◌, ◌>>◌, ret, stop, lift, get, modify, on_target, put}
use embdebug.Strings.{split}
use embdebug.Trace.{Flags, is_flag, is_numeric_flag, flag, set_flag_state, flag_state, flag_val}
use embdebug.Trace.Dump.{on_off, dump}

-- `set debug` changes the flags: the name, the state and a value.
unfoldable pub assign_flag : Flags → Bytes → Bool → Option Bytes → Outcome Flags
unfolding set_flag_state flag is_numeric_flag
assign_flag flags name state none = set_flag_state flags name state
assign_flag flags name state (some val) = flag flags name state val (is_numeric_flag name)

-- What `show debug <flag>` writes.
unfoldable pub flag_text : Bytes → Bool → Bytes → Bytes
flag_text name state val =
    name
    ++ (codes ": "
        ++ (on_off state
            ++ ((if length val == 0
                  then []
                  else codes " (associated val = " ++ ((b'"' ∷ val) ++ (b'"' ∷ codes ")")))
                ++ (10 ∷ []))))

-- The state after a command; it is true without a token for it.
unfoldable pub state_word : Option Bytes → Option Bool
unfolding flag_word
state_word none = some true
state_word (some token) = flag_word token

module _ {e : Env} where
  -- A text for the client's console, as `CreateRcmdStr`, and `OK`.
  unfoldable pub put_output : Bytes → Act e (Unit {0})
  unfolding put create_rcmd_str
  put_output text = do
    packet ← lift (create_rcmd_str e.size text true)
    put packet
    put (codes "OK")

  -- A command for the target; a text if it fails.
  unfoldable pub ask_target : Bytes → Bytes → Act e (Unit {0})
  unfolding put_output put c_string
  ask_target cmd error = do
    (success, text) ← on_target (e.cpu.command cmd)
    if success then put_output (c_string text) else put error

  -- `set debug`.
  unfoldable pub set_debug : Bytes → Option Bytes → Option Bytes → Act e (Unit {0})
  unfolding is_flag state_word assign_flag put
  set_debug name word val = do
    s ← get
    state ← ret (state_word word)
    if not (is_flag s.flags name) then put (codes "E01") else elim state [
      | none ↦ put (codes "E02")
      | some on ↦ (do
        flags ← lift (assign_flag s.flags name on val)
        modify (λ s. record s { flags = flags })
        put (codes "OK"))
    ]

  unfoldable pub set_kill_core_on_exit : Option Bytes → Act e (Unit {0})
  unfolding state_word put
  set_kill_core_on_exit word = elim (state_word word) [
    | none ↦ put (codes "E02")
    | some on ↦ modify (λ s. record s { kill_core_on_exit = on }) >> put (codes "OK")
  ]

  -- Behind the test for `debug`. `tokens[0]` is undefined without tokens.
  unfoldable pub set_other : Bytes → List Bytes → Act e (Unit {0})
  unfolding set_kill_core_on_exit ask_target
  set_other cmd [] = stop undefined
  set_other cmd (key ∷ []) =
      if eq_bytes key (codes "kill-core-on-exit")
      then set_kill_core_on_exit none
      else ask_target (codes "set " ++ cmd) (codes "E04")
  set_other cmd (key ∷ word ∷ tokens) =
      if eq_bytes key (codes "kill-core-on-exit")
      then set_kill_core_on_exit (some word)
      else ask_target (codes "set " ++ cmd) (codes "E04")

  -- `rspSetCommand` on the tokens of the command.
  unfoldable pub set_tokens : Bytes → List Bytes → Act e (Unit {0})
  unfolding set_debug set_other
  set_tokens cmd (key ∷ name ∷ []) =
      if eq_bytes key (codes "debug")
      then set_debug name none none
      else set_other cmd (key ∷ name ∷ [])
  set_tokens cmd (key ∷ name ∷ word ∷ []) =
      if eq_bytes key (codes "debug")
      then set_debug name (some word) none
      else set_other cmd (key ∷ name ∷ word ∷ [])
  set_tokens cmd (key ∷ name ∷ word ∷ val ∷ []) =
      if eq_bytes key (codes "debug")
      then set_debug name (some word) (some val)
      else set_other cmd (key ∷ name ∷ word ∷ val ∷ [])
  set_tokens cmd tokens = set_other cmd tokens

  unfoldable pub rsp_set_command : Bytes → Act e (Unit {0})
  unfolding set_tokens split
  rsp_set_command cmd = set_tokens cmd (split cmd (codes " "))

  unfoldable pub show_flag : Bytes → Act e (Unit {0})
  unfolding is_flag flag_state flag_val flag_text put_output put c_string
  show_flag name = do
    s ← get
    if not (is_flag s.flags name) then put (codes "E01") else (do
      state ← lift (flag_state s.flags name)
      val ← lift (flag_val s.flags name)
      put_output (c_string (flag_text name state val)))

  unfoldable pub show_other : Bytes → List Bytes → Act e (Unit {0})
  unfolding ask_target put_output
  show_other cmd [] = stop undefined
  show_other cmd (key ∷ tokens) = do
    s ← get
    if eq_bytes key (codes "kill-core-on-exit")
        then put_output (codes "kill-core-on-exit: " ++ (on_off s.kill_core_on_exit ++ (10 ∷ [])))
        else ask_target (codes "show " ++ cmd) (codes "E04")

  -- `rspShowCommand` on the tokens of the command.
  unfoldable pub show_tokens : Bytes → List Bytes → Act e (Unit {0})
  unfolding show_flag show_other dump put_output c_string
  show_tokens cmd (key ∷ []) = do
    s ← get
    if eq_bytes key (codes "debug")
        then put_output (c_string (dump s.flags))
        else show_other cmd (key ∷ [])
  show_tokens cmd (key ∷ name ∷ []) =
      if eq_bytes key (codes "debug") then show_flag name else show_other cmd (key ∷ name ∷ [])
  show_tokens cmd tokens = show_other cmd tokens

  unfoldable pub rsp_show_command : Bytes → Act e (Unit {0})
  unfolding show_tokens split
  rsp_show_command cmd = show_tokens cmd (split cmd (codes " "))
