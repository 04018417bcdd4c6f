-- ===== src/Init/Stdin.antt =====
-- lib/server/Init.cpp: a server on the standard streams ends with its only core.
use embdebug.Base.{
  ℕ, suc, ◌≡◌, refl, sym, get_elem?, replicate, ◌∙◌, ap, Bool, true, Option, some, codes, arith,
}
use embdebug.Base.Int.{ℤ}
use embdebug.Base.Outcome.{ok}
use embdebug.Cores.{init, fresh_core}
use embdebug.Cores
use embdebug.Cores.Live.{init-IsValid}
use embdebug.Init.{Parts, env_of, value_of, serve}
use embdebug.Init
use embdebug.Server.Kill.{kill_text}
use embdebug.Server.Kill.Loop.{rsp_server_last_kill}
use embdebug.Server.Loop.{new_server, rsp_server}
use embdebug.Server.State.{Server, KillBehaviour}
use embdebug.Trace.{Flags}

-- The target has one core, the streams are connected, the first packet that arrives is `vKill;1`,
-- and its answer can be put; the rounds of the loops are not bound to fewer than two. Then `init`
-- on the standard streams returns, with `EXIT_SUCCESS`.
pub init-last_kill :
    (p : Parts) (target : p.T) (flags : Flags) (port : ℤ) (size more : ℕ) (write_port : Bool)
    (x : Option (Unit {0})) (link link' : p.S)
    → p.fuel ≡ suc (suc more)
    → p.cpu.cpu_count target ≡ 1
    → (p.stream size).is_connected p.new_stream ≡ true
    → (p.stream size).get_pkt p.new_stream ≡ ok (some (kill_text 1), link)
    → (p.stream size).put_pkt (codes "OK") link ≡ ok (x, link')
    → Init.init p target flags true port size write_port ≡ ok true
unfolding Init.init serve new_server Cores.init
init-last_kill p target flags port size more write_port x link link' rounds one connected got sent =
    let s : Server (env_of p p.stream size) =
      new_server target p.new_stream p.time flags KillBehaviour.exit_on_kill p.timeout p.locs in
    let valid = init-IsValid (p.cpu.cpu_count target) (omega arith) in
    let (after, ends, _, _, _, _) =
      rsp_server_last_kill s 0 (suc more) more fresh_core x link link' rounds refl connected valid
        (sym valid.live ∙ one) (omega arith) (omega arith)
        (ap (λ n. get_elem? (replicate n fresh_core) 0) one) refl got sent in
    ap value_of (ap (λ n. rsp_server n s) rounds ∙ ends)
