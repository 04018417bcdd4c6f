-- ===== src/Server/Kill.antt =====
-- lib/server/GdbServer.cpp, `rspVKill`: the request to kill a core.
pub mod Loop
use embdebug.Base.{
  ℕ, zero, suc, ◌+◌, ◌-◌, ◌%◌, ◌^◌, ◌<◌, ◌≤◌, ◌≡◌, refl, ◌∙◌, ap, Bool, true, false, not, [], ◌∷◌,
  ◌++◌, Option, none, some, Bytes, codes, arith, leb, le→leb, ◌==◌, if◌then◌else◌, length,
  get_elem?, Bool-cases, inl, inr, All,
}
use embdebug.Base.Int.{to_int32, to_uint32, to_int32_small}
use embdebug.Base.Outcome.{Outcome, ok}
use embdebug.Cores.{CoreState, CoreManager, pid2core_num, kill_core_num}
use embdebug.Cores.Live.{IsValid, count_live, kill_core_num-IsValid, kill_core_num-count_live}
use embdebug.Hex.{is_hex_str, is_xdigit, hex2val}
use embdebug.Hex.Value.{val_text, val_text-All, val_text-is_hex_str, hex2val-val_text}
use embdebug.Server.Dispatch.{handle_pkt}
use embdebug.Server.Loop.{rsp_client_request, rsp_server, connect}
use embdebug.Server.Resume.{rsp_vkill, rsp_vpkt, kill_pid, killed}
use embdebug.Server.Scan.{c_string}
use embdebug.Server.State.{
  Env, Server, KillBehaviour, and_then, ◌>>=◌, ◌>>◌, get, ret, lift, modify, put, close,
}
use embdebug.Strings.{starts_with}

-- The request that names a process.
abbrev pub kill_text : ℕ → Bytes
kill_text pid = codes "vKill;" ++ val_text pid

c_string-xdigits : (s : Bytes) → All (λ c. is_xdigit c ≡ true) s → c_string s ≡ s
unfolding c_string is_xdigit
c_string-xdigits [] h = refl
c_string-xdigits (c ∷ s) h =
    let e : (c == 0) ≡ false = ground (arith, h.0) in rw (e, c_string-xdigits s h.1) refl

is_vkill :
    (rest : Bytes)
    → (starts_with (codes "vKill;" ++ rest) (codes "vCont") ≡ false)
      × (starts_with (codes "vKill;" ++ rest) (codes "vKill;") ≡ true)
unfolding starts_with
is_vkill rest = (
  ground arith,
  (let long : leb 6 (length (codes "vKill;" ++ rest)) ≡ true = le→leb 6 _ (omega arith) in
      rw long refl),
)

module _ {e : Env} where
  pub rsp_vkill_lem :
      (s : Server e) (n : ℕ)
      → s.pkt ≡ kill_text (n + 1)
      → n + 1 < 2 ^ 31
      → (kill_core_num n s.cores).0 ≡ true
      → rsp_vkill s ≡ killed (record s { cores = (kill_core_num n s.cores).1 })
  unfolding rsp_vkill ◌>>=◌ get ret lift kill_pid
  rsp_vkill_lem s n text small found =
      let pid = val_text (n + 1) in
      let whole : c_string pid ≡ pid = c_string-xdigits pid (val_text-All (n + 1)) in
      let back : pid2core_num (to_uint32 (to_int32 (n + 1))) ≡ n =
        ap (λ i. pid2core_num (to_uint32 i)) (to_int32_small (n + 1) small) ∙ omega arith in
      rw
        (
          text,
          whole,
          val_text-is_hex_str (n + 1) (omega arith),
          hex2val-val_text (n + 1) (omega arith),
          back,
          found,
        )
        refl

  pub handle_pkt_vkill :
      (s : Server e) (rest : Bytes) → s.pkt ≡ codes "vKill;" ++ rest → handle_pkt s ≡ rsp_vkill s
  unfolding handle_pkt ◌>>=◌ get ret rsp_vpkt
  handle_pkt_vkill s rest text = rw (text, (is_vkill rest).0, (is_vkill rest).1) refl

  -- The server once a request was answered with `OK` and the cores have changed.
  abbrev pub answered : Server e → Bytes → e.R → CoreManager → Server e
  answered s text link cores = record s {
    pkt = text;
    link = link;
    cores = cores;
    replies = s.replies ++ (codes "OK" ∷ []);
  }

  -- What follows where no core is left.
  abbrev pub ended : KillBehaviour → Server e → Server e
  ended KillBehaviour.reset_on_kill s = s
  ended KillBehaviour.exit_on_kill s = record s { exit_server = true }

  ended_lem :
      (b : KillBehaviour) (s : Server e)
      → (elim b as (λ b. Server e) [
        | KillBehaviour.reset_on_kill ↦ s
        | KillBehaviour.exit_on_kill ↦ record s { exit_server = true }
      ])
        ≡ ended b s
  ended_lem KillBehaviour.reset_on_kill s = refl
  ended_lem KillBehaviour.exit_on_kill s = refl

  -- The server behind an answered request to kill: with no core left the connection is closed.
  abbrev pub behind_kill : Server e → Server e
  behind_kill s =
      if s.cores.live_cores == 0
      then ended s.kill_behaviour (record s { link = e.rsp.rsp_close s.link })
      else s

  pub killed_lem :
      (s : Server e) (x : Option (Unit {0})) (link : e.R)
      → e.rsp.put_pkt (codes "OK") s.link ≡ ok (x, link)
      → killed s ≡ ok (tt, behind_kill (answered s s.pkt link s.cores))
  unfolding killed put close get ret modify ◌>>=◌ ◌>>◌
  killed_lem s x link sent = rw sent (elim (Bool-cases (s.cores.live_cores == 0)) [
    | inl z ↦ rw z (
        ap (λ t. ok (tt, t))
          (ended_lem s.kill_behaviour
            (record (answered s s.pkt link s.cores) { link = e.rsp.rsp_close link })))
    | inr z ↦ rw z refl
  ])

  pub request_lem :
      (s : Server e) (text : Bytes) (link : e.R)
      → e.rsp.get_pkt s.link ≡ ok (some text, link)
      → rsp_client_request s ≡ handle_pkt (record s { pkt = text; link = link })
  unfolding rsp_client_request ◌>>=◌ ◌>>◌ modify
  request_lem s text link got = rw got refl
