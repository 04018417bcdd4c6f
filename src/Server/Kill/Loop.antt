-- ===== src/Server/Kill/Loop.antt =====
-- lib/server/GdbServer.cpp, `rspServer`: the end of the main loop, when the last core is killed.
use embdebug.Base.{
  ℕ, suc, ◌+◌, ◌^◌, ◌<◌, ◌≡◌, refl, ◌∙◌, ap, Bool, true, false, not, [], ◌∷◌, ◌++◌, Option, some,
  codes, arith, ◌==◌, if◌then◌else◌, get_elem?,
}
use embdebug.Base.Outcome.{Outcome, ok}
use embdebug.Cores.{CoreState, kill_core_num}
use embdebug.Cores.Live.{IsValid, count_live, kill_core_num-IsValid, kill_core_num-count_live}
use embdebug.Hex.Value.{val_text}
use embdebug.Server.Loop.{rsp_client_request, rsp_server, connect}
use embdebug.Server.State.{Env, Server, KillBehaviour, and_then, ◌>>=◌, ◌>>◌, get, ret}
use embdebug.Server.Kill.{
  kill_text, rsp_vkill_lem, handle_pkt_vkill, answered, ended, behind_kill, killed_lem, request_lem,
}

if_false :
    {A B : Type 0} (b : Bool) (m k : A → B) (a : A) → b ≡ false → (if b then m else k) a ≡ k a
if_false b m k a h = rw h refl

module _ {e : Env} where
  connect_lem :
      (more : ℕ) (s : Server e)
      → e.rsp.is_connected s.link ≡ true
      → connect (suc more) s ≡ ok (true, s)
  unfolding connect ◌>>=◌ ◌>>◌ get ret
  connect_lem more s h = rw h refl

  round_lem :
      (fuel more : ℕ) (s t : Server e)
      → e.fuel ≡ suc more
      → s.exit_server ≡ false
      → e.rsp.is_connected s.link ≡ true
      → rsp_client_request s ≡ ok (tt, t)
      → rsp_server (suc fuel) s ≡ rsp_server fuel t
  unfolding rsp_server ◌>>=◌ ◌>>◌ get
  round_lem fuel more s t rounds running connected done =
      if_false s.exit_server (ret true) _ s running
      ∙ ap
          (and_then (λ (connected : Bool).
            if not connected then ret false else rsp_client_request >> rsp_server fuel))
          (ap (λ n. connect n s) rounds ∙ connect_lem more s connected)
      ∙ ap (and_then (λ _. rsp_server fuel)) done

  -- The server after the request.
  abbrev pub after_kill : Server e → ℕ → e.R → Server e
  after_kill s n link =
      behind_kill (answered s (kill_text (n + 1)) link (kill_core_num n s.cores).1)

  rsp_client_request_kill :
      (s : Server e) (n : ℕ) (x : Option (Unit {0})) (link link' : e.R)
      → e.rsp.get_pkt s.link ≡ ok (some (kill_text (n + 1)), link)
      → e.rsp.put_pkt (codes "OK") link ≡ ok (x, link')
      → n + 1 < 2 ^ 31
      → (kill_core_num n s.cores).0 ≡ true
      → rsp_client_request s ≡ ok (tt, after_kill s n link')
  rsp_client_request_kill s n x link link' got sent small found =
      let s₁ = record s { pkt = kill_text (n + 1); link = link } in
      request_lem s (kill_text (n + 1)) link got
      ∙ handle_pkt_vkill s₁ (val_text (n + 1)) refl
      ∙ rsp_vkill_lem s₁ n refl small found
      ∙ killed_lem (record s₁ { cores = (kill_core_num n s.cores).1 }) x link' sent

  stops_lem :
      (fuel : ℕ) (s : Server e) → s.exit_server ≡ true → rsp_server (suc fuel) s ≡ ok (true, s)
  unfolding rsp_server ◌>>=◌ get ret
  stops_lem fuel s h = rw h refl

  -- What the loop comes to, behind the last kill.
  abbrev pub ending : KillBehaviour → ℕ → Server e → Outcome (Bool × Server e)
  ending KillBehaviour.reset_on_kill fuel after = rsp_server fuel after
  ending KillBehaviour.exit_on_kill fuel after = ok (true, after)

  ending_lem :
      (b : KillBehaviour) (fuel : ℕ) (s : Server e)
      → rsp_server (suc fuel) (ended b s) ≡ ending b (suc fuel) (ended b s)
  ending_lem KillBehaviour.reset_on_kill fuel s = refl
  ending_lem KillBehaviour.exit_on_kill fuel s =
      stops_lem fuel (record s { exit_server = true }) refl

  -- Only the member for the end is another.
  abbrev SameBut : Server e → Server e → Type 0
  SameBut s t =
      (t.replies ≡ s.replies) × (t.link ≡ s.link) × (t.target ≡ s.target) × (t.cores ≡ s.cores)

  ended-SameBut : (b : KillBehaviour) (s : Server e) → SameBut s (ended b s)
  ended-SameBut KillBehaviour.reset_on_kill s = (refl, refl, refl, refl)
  ended-SameBut KillBehaviour.exit_on_kill s = (refl, refl, refl, refl)

  behind_kill_last :
      (s : Server e)
      → s.cores.live_cores ≡ 0
      → behind_kill s ≡ ended s.kill_behaviour (record s { link = e.rsp.rsp_close s.link })
  behind_kill_last s h =
      ap
        (λ n.
          if n == 0 then ended s.kill_behaviour (record s { link = e.rsp.rsp_close s.link }) else s)
        h

  -- The main loop of a connected server that is to go on, whose count of live cores is right, meets
  -- the request `vKill;<pid>` for its only live core, and can answer it. It answers `OK` and
  -- nothing else, that core is dead, the connection is closed, the target is as it was, neither
  -- reset nor stopped, and the loop ends with success if the server exits on a kill; if its
  -- behaviour is to reset, the loop goes on from there.
  pub rsp_server_last_kill :
      (s : Server e) (n more fuel : ℕ) (c : CoreState) (x : Option (Unit {0})) (link link' : e.R)
      → e.fuel ≡ suc more
      → s.exit_server ≡ false
      → e.rsp.is_connected s.link ≡ true
      → IsValid s.cores
      → count_live s.cores.core_states ≡ 1
      → n < s.cores.num_cores
      → n + 1 < 2 ^ 31
      → get_elem? s.cores.core_states n ≡ some c
      → c.is_live ≡ true
      → e.rsp.get_pkt s.link ≡ ok (some (kill_text (n + 1)), link)
      → e.rsp.put_pkt (codes "OK") link ≡ ok (x, link')
      → (after : Server e) × (rsp_server (suc (suc fuel)) s
          ≡ ending s.kill_behaviour (suc fuel) after)
        × (after.replies ≡ s.replies ++ (codes "OK" ∷ []))
        × (after.link ≡ e.rsp.rsp_close link')
        × (after.target ≡ s.target)
        × (count_live after.cores.core_states ≡ 0)
  rsp_server_last_kill s n more fuel c x link link' rounds running connected valid one inside small
        at alive got sent =
      let (found, valid') = kill_core_num-IsValid s.cores n c valid inside at alive in
      let cores = (kill_core_num n s.cores).1 in
      let fewer = kill_core_num-count_live s.cores n c inside at alive in
      let t = answered s (kill_text (n + 1)) link' cores in
      let closed = record t { link = e.rsp.rsp_close link' } in
      let (replies, closes, target, same) = ended-SameBut s.kill_behaviour closed in
      let zero_left : count_live cores.core_states ≡ 0 = omega arith in
      (
        ended s.kill_behaviour closed,
        round_lem (suc fuel) more s (after_kill s n link') rounds running connected
              (rsp_client_request_kill s n x link link' got sent small found)
            ∙ ap (rsp_server (suc fuel)) (behind_kill_last t (valid'.live ∙ zero_left))
            ∙ ending_lem s.kill_behaviour fuel closed,
        replies,
        closes,
        target,
        ap (λ m. count_live m.core_states) same ∙ zero_left,
      )
