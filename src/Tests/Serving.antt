-- ===== src/Tests/Serving.antt =====
-- lib/server/GdbServer.cpp: the requests at a target with two cores.
use embdebug.Base.{
  some, Bool, ◌%◌, zero, suc, ℕ, ◌≡◌, refl, false, true, [], ◌∷◌, Bytes, codes, arith,
}
use embdebug.Base.Outcome.{ok, fault, assertion}
use embdebug.Hex.Value.{val2hex_lem, val_text, digits_of}
use embdebug.Hex.Text.{hex_text}
use embdebug.Hex.Digit.{hex_digit}
use embdebug.VCont.{VContActions, Action, get_core_action}
use embdebug.VCont
use embdebug.Base.Int.{negsuc}
use embdebug.Server.Resume.{action_type}
use embdebug.Server.Access.{rsp_write_mem}
use embdebug.Server.Answers.{Leads}
use embdebug.Server.Answers.Dispatch.{rsp_client_request-Leads}
use embdebug.Server.Assign.{assigned, types_of, Asks}
use embdebug.Server.Assign.Vcont.{rsp_vcont-assigned}
use embdebug.Server.Scan.{scan_range, find_char, c_string}
use embdebug.Server.Loop.{rsp_client_request}
use embdebug.Server.Pending.{rsp_syscall_request_unsupported}
use embdebug.Server.Registers.{rsp_report_exception}
use embdebug.Server.Resume.{rsp_vcont}
use embdebug.Server.Run.{do_core_actions}
use embdebug.Server.Signals.{TargetSignal, exception_text}
use embdebug.Server.State.{Server, ret, put, get, lift, modify, ◌>>=◌, ◌>>◌}
use embdebug.Server.Store.{store_bytes, rsp_write_mem-store_bytes}
use embdebug.Server.Syscall.{rsp_syscall_request, find_arg_locs}
use embdebug.Server.Threads.Listing.{Told, all_threads-alive}
use embdebug.Server.Threads.Reply.{all_threads}
use embdebug.Stream.{Os, Selected, wrote, Gives, get_rsp_char_raw, get_rsp_char_raw-Gives}
use embdebug.Strings.{starts_with, split, find}
use embdebug.Target.Enums.{ResumeType}
use embdebug.Tests.Server.{flat, flat_env, started, asked, one_core_left}

abbrev detach : Bytes
detach = codes "D"

rsp_client_request-Leads_example :
    Leads 1
      (record started { link = detach ∷ [] })
      (rsp_client_request (record started { link = detach ∷ [] }))
unfolding starts_with
rsp_client_request-Leads_example =
    rsp_client_request-Leads (record started { link = detach ∷ [] }) detach [] refl refl

abbrev write_two : Server flat_env
write_two = asked (codes "M1000,2:abcd")

rsp_write_mem-store_bytes_example :
    rsp_write_mem write_two
    ≡ put
        (codes "OK")
        (record write_two { target = store_bytes flat 0x1000 (0xab ∷ 0xcd ∷ []) write_two.target })
unfolding scan_range find_char hex_text hex_digit
rsp_write_mem-store_bytes_example =
    rsp_write_mem-store_bytes write_two 0x1000 (0xab ∷ 0xcd ∷ []) refl refl
      (omega arith, (omega arith, tt)) (omega arith)

-- The second core has exited, and exits kill cores; a client asks in the middle of a list.
abbrev exits_kill : Server flat_env
exits_kill = record started { cores = one_core_left; kill_core_on_exit = true; next_process = 2 }

all_threads-alive_example :
    Told exits_kill (codes "mp1.1" ∷ codes "l" ∷ []) [] (all_threads (ret tt) 1 exits_kill)
unfolding val_text digits_of hex_digit
all_threads-alive_example =
    all_threads-alive (ret tt) exits_kill [] refl (omega arith) (omega arith)
      (some tt, [], refl, (some tt, [], refl, refl))

-- The target times out as often as its state says, twice, and then a core stops.
abbrev rounds_left : ℕ → Server flat_env
rounds_left n = record started { target = n }

-- Both cores are told to go on; the second one is dead.
abbrev goes_on : Server flat_env
goes_on = record started { pkt = codes "vCont;c"; cores = one_core_left }

abbrev all_go_on : VContActions
all_go_on = record {
  valid = true;
  actions = record { text = codes "c"; ptid = record { pid = negsuc 0; tid = negsuc 0 } } ∷ [];
}

abbrev on : ℕ → ResumeType
on i = ResumeType.continue

all_on : Asks all_go_on 2 on
unfolding get_core_action action_type
all_on i below = (b'c', (refl, refl))

rsp_vcont-assigned_example :
    rsp_vcont goes_on
    ≡ do_core_actions (record goes_on {
      cores = record one_core_left { core_states = assigned on 0 one_core_left.core_states };
      target = (flat.prepare (types_of (assigned on 0 one_core_left.core_states)) goes_on.target).1;
    })
unfolding VCont.parse c_string split find
rsp_vcont-assigned_example = rsp_vcont-assigned goes_on all_go_on on refl refl refl all_on

-- The target gave no locations.
abbrev unsupported : Server flat_env
unsupported = record started { have_syscall_arg_locs = true }

abbrev after_trap : Server flat_env
after_trap = record unsupported { handling_syscall = true; replies = codes "S05" ∷ [] }

trap_text : exception_text false 0 TargetSignal.trap ≡ ok (codes "S05")
unfolding exception_text
trap_text = rw (val2hex_lem 1) refl

traps : rsp_syscall_request unsupported ≡ ok (tt, after_trap)
unfolding rsp_syscall_request find_arg_locs rsp_report_exception get put lift modify ◌>>=◌ ◌>>◌
traps = rw trap_text refl

rsp_syscall_request_unsupported_example :
    (rsp_report_exception TargetSignal.trap (record unsupported { handling_syscall = true })
      ≡ ok (tt, after_trap))
    × (rsp_syscall_request after_trap ≡ fault assertion)
rsp_syscall_request_unsupported_example =
    rsp_syscall_request_unsupported unsupported after_trap refl refl refl traps

-- The stream is interrupted as often as its state says.
abbrev shaky_select : Bool → ℕ → Selected × ℕ
shaky_select blocking zero = (Selected.ready, 0)
shaky_select blocking (suc o) = (Selected.interrupted, o)

abbrev shaky : Os ℕ
shaky = record { write = λ c o. (wrote 1, o); select = shaky_select; read = λ o. (some b'$', o) }

-- Three interrupts, and then a character.
get_rsp_char_raw-Gives_example : get_rsp_char_raw shaky 5 true 3 ≡ ok (some (b'$' % 256), 0)
get_rsp_char_raw-Gives_example =
    get_rsp_char_raw-Gives shaky 3 5 true 3 0 (some (b'$' % 256), 0) (refl, (refl, (refl, refl)))
      (Gives.character b'$' 0 refl refl) (omega arith)
