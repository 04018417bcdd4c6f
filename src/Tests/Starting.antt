-- ===== src/Tests/Starting.antt =====
-- The driver, the start of the server and the socket at concrete inputs.
use embdebug.Base.{
  ℕ, ◌+◌, ◌==◌, ◌≡◌, refl, false, true, List, [], ◌∷◌, some, Bytes, codes, arith, length, ltb,
  if◌then◌else◌, ◌^◌,
}
use embdebug.Base.Decimal.{decimal_text}
use embdebug.Base.Int.{pos}
use embdebug.Base.Outcome.{ok}
use embdebug.Driver.{Options, read_trace}
use embdebug.Driver.Load.{Platform, Loader, main}
use embdebug.Driver.Port.{port_text, Starts, main-Starts}
use embdebug.Init.{Parts, init}
use embdebug.Server.Kill.{kill_text}
use embdebug.Socket.{Sockets, new_socket, rsp_connect}
use embdebug.Socket.Opened.{Descriptors, Keeps, remove, left_open, rsp_connect-Keeps}
use embdebug.Tests.Server.{flat, feed, ticks, no_locs}
use embdebug.Timeout.{no_timeout}
use embdebug.Target.Access.{Target}
use embdebug.Init.Stdin.{init-last_kill}
use embdebug.Trace.{trace_flags}

-- A descriptor is the number of open ones, or one more than the listening one.
abbrev counted : Sockets (List ℕ)
counted = record {
  socket = λ o. (some (length o), length o ∷ o);
  set_option = λ fd x o. o;
  bind = λ fd port o. (true, o);
  listen = λ fd o. (true, o);
  bound_port = λ fd o. (4000, o);
  write_port = λ port o. o;
  accept = λ fd o. (some (fd + 1), (fd + 1) ∷ o);
  close = remove;
}

later_fresh : (fd c : ℕ) → some (fd + 1) ≡ some c → (c == fd) ≡ false
later_fresh fd c h = ground arith

counted_lem : Descriptors counted (λ o. o) (λ o. o)
counted_lem = record {
  of_socket = λ o. refl;
  of_accept = λ fd o. refl;
  fresh = λ fd c o h. later_fresh fd c h;
  of_close = λ fd o. refl;
  of_option = λ fd x o. refl;
  of_bind = λ fd port o. refl;
  of_listen = λ fd o. refl;
  of_bound_port = λ fd o. refl;
  of_write_port = λ port o. refl;
  of_settle = λ o. refl;
}

abbrev standard : List ℕ
standard = 2 ∷ 1 ∷ 0 ∷ []

rsp_connect-Keeps_example :
    ((rsp_connect counted (λ o. o) (new_socket (pos 0) true standard)).1.os
      ≡ left_open
          (some 3)
          (rsp_connect counted (λ o. o) (new_socket (pos 0) true standard)).1.client
          standard)
    × Keeps
        (new_socket (pos 0) true standard)
        (rsp_connect counted (λ o. o) (new_socket (pos 0) true standard))
rsp_connect-Keeps_example =
    rsp_connect-Keeps counted (λ o. o) (λ o. o) (new_socket (pos 0) true standard) counted_lem refl

-- The command line `--soname x --bufsize 2000 :1234`.
abbrev asked_for : Options
asked_for = record {
  help = false;
  silent = false;
  version = false;
  from_stdin = false;
  soname = some (codes "x");
  bufsize = some (decimal_text 2000);
  rsp_port = some (port_text true 1234);
  trace = [];
}

abbrev parts : Parts
parts = record {
  T = ℕ;
  C = ℕ;
  Duration = ℕ;
  Instant = ℕ;
  S = List Bytes;
  K = List Bytes;
  cpu = flat;
  clock = ticks;
  time = 0;
  stream = λ size. feed;
  new_stream = [];
  socket = λ size. feed;
  new_socket = λ port write_port. [];
  timeout = no_timeout 0 0 0;
  locs = no_locs;
  fuel = 10;
}

abbrev loader : Loader Bytes ℕ
loader = record {
  load = λ name. some name;
  api_version = λ handle. some 1;
  create_target = λ handle. some (λ flags. 5);
}

main-Starts_example : main parts loader Platform.other (some asked_for) ≡ (
    if ltb 1234 (2 ^ 16)
    then Starts parts loader Platform.other false (codes "x") trace_flags 1234 2000
    else ok false)
unfolding read_trace
main-Starts_example =
    main-Starts parts loader Platform.other asked_for (codes "x") trace_flags trace_flags true 1234
      2000 refl refl refl refl refl refl refl (omega arith) (omega arith)

-- A target with one core, on streams where the client kills it at once.
abbrev single : Target ℕ
single = record flat { cpu_count = λ t. 1 }

abbrev one_core : Parts
one_core = record parts { cpu = single; new_stream = kill_text 1 ∷ [] }

init-last_kill_example : init one_core 5 [] true (pos 0) 100 false ≡ ok true
init-last_kill_example =
    init-last_kill one_core 5 [] (pos 0) 100 8 false (some tt) [] [] refl refl refl refl refl
