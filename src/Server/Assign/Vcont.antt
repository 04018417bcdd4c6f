-- ===== src/Server/Assign/Vcont.antt =====
-- lib/server/GdbServer.cpp, `rspVCont`: what each core is told to do, and the target with it.
use embdebug.Base.{
  ap₂, codes, ℕ, suc, ◌+◌, ◌≤◌, ◌≡◌, refl, sym, ◌∙◌, ap, true, List, [], ◌∷◌, ◌++◌, append_assoc,
  append-nil, Option, none, some, arith, ==_refl, length, length-append,
}
use embdebug.Base.Outcome.{ok}
use embdebug.Cores.{update, CoreState, set_resume_type, core_num2pid, core_at, update_core}
use embdebug.Server.Answers.{IsSized}
use embdebug.Server.Resume.{
  core_actions, assign_core, run_actions, rsp_vcont, action_type, live_type,
}
use embdebug.Server.Run.{do_core_actions}
use embdebug.Server.Scan.{c_string}
use embdebug.Server.State.{
  Env, Server, Act, and_then, put, ◌>>=◌, ◌>>◌, get, lift, ret, modify, on_target,
}
use embdebug.Target.Enums.{ResumeType}
use embdebug.VCont.{VContActions, get_core_action}
use embdebug.VCont
use embdebug.Server.Assign.{
  update-append, told, live_type-told, set_resume_type-told, assigned, assigned_states,
  assigned_types, types_of, Asks, core_at-append, length-assigned,
}

module _ {e : Env} where
  abbrev with_cores : Server e → ℕ → ℕ → List CoreState → Server e
  with_cores s n live states = record s {
    cores = record { num_cores = n; live_cores = live; core_states = states };
  }

  assign_core_lem :
      (i : ℕ) (types : List ResumeType) (more : List ResumeType → Act e (Option (List ResumeType)))
      (asked : ResumeType) (s : Server e) (c : CoreState)
      → core_at i s.cores ≡ ok c
      → assign_core i types more (some asked) s
        ≡ more
            (types ++ (live_type c asked ∷ []))
            (record s { cores = update_core i (set_resume_type (live_type c asked)) s.cores })
  unfolding assign_core ◌>>=◌ ◌>>◌ get lift modify
  assign_core_lem i types more asked s c at = rw at refl

  core_actions_step :
      (actions : VContActions) (left i : ℕ) (types : List ResumeType) (s : Server e) (c : CoreState)
      (ch : ℕ) (asked : ResumeType)
      → get_core_action (core_num2pid i) actions ≡ ok ch
      → action_type ch ≡ some asked
      → core_at i s.cores ≡ ok c
      → core_actions actions (suc left) i types s
        ≡ core_actions actions left
            (i + 1)
            (types ++ (live_type c asked ∷ []))
            (record s { cores = update_core i (set_resume_type (live_type c asked)) s.cores })
  unfolding core_actions ◌>>=◌ lift
  core_actions_step actions left i types s c ch asked action type at =
      let more = core_actions actions left (i + 1) in
      rw action
        (ap (λ o. assign_core i types more o s) type ∙ assign_core_lem i types more asked s c at)

  core_actions_lem :
      (actions : VContActions) (asked : ℕ → ResumeType) (n live : ℕ) (s : Server e)
      (pre suf : List CoreState) (types : List ResumeType)
      → length pre + length suf ≤ n
      → Asks actions n asked
      → core_actions actions (length suf) (length pre) types (with_cores s n live (pre ++ suf))
        ≡ ok (
          some (types ++ types_of (assigned asked (length pre) suf)),
          with_cores s n live (pre ++ assigned asked (length pre) suf),
        )
  unfolding core_actions ret
  core_actions_lem actions asked n live s pre [] types size asks =
      ap (λ t. ok (some t, with_cores s n live (pre ++ []))) (sym (append-nil types))
  core_actions_lem actions asked n live s pre (c ∷ suf) types size asks =
      let (ch, (action, asked_type)) = asks (length pre) (omega arith) in
      let now = told (asked (length pre)) c in
      let done = pre ++ (now ∷ []) in
      let behind : length pre + 1 ≡ length done = sym (length-append pre (now ∷ [])) in
      let one = types ++ (now.resume_type ∷ []) in
      let moved : pre ++ (now ∷ suf) ≡ done ++ suf = simp append_assoc in
      let at = core_at-append pre suf c n live (omega arith) in
      let step =
        core_actions_step actions (length suf) (length pre) types
          (with_cores s n live (pre ++ (c ∷ suf))) c ch (asked (length pre)) action asked_type at in
      let changed =
        update-append pre suf c (set_resume_type (live_type c (asked (length pre))))
        ∙ ap (λ d. pre ++ (d ∷ suf)) (set_resume_type-told (asked (length pre)) c) in
      let type = live_type-told (asked (length pre)) c in
      let rest =
        core_actions_lem actions asked n live s done suf one (omega (arith, size, behind)) asks in
      let last_types = assigned_types asked pre suf types now behind in
      let last_states = assigned_states asked pre suf now behind in
      step
      ∙ ap
          (λ ty. core_actions actions (length suf) (length pre + 1) (types ++ (ty ∷ [])) (
            with_cores s n live (
              update (length pre) (set_resume_type (live_type c (asked (length pre))))
                (pre ++ (c ∷ suf)))))
          type
      ∙ ap₂ (λ i states. core_actions actions (length suf) i one (with_cores s n live states))
          behind (changed ∙ moved)
      ∙ rest
      ∙ ap₂ (λ types states. ok (some types, with_cores s n live states)) last_types last_states

  vcont_valid :
      (s : Server e) (actions : VContActions)
      → VCont.parse (c_string s.pkt) ≡ ok actions
      → actions.valid ≡ true
      → rsp_vcont s
        ≡ and_then
            (λ types. elim types as (λ o. Act e (Unit {0})) [
              | none ↦ put (codes "E01")
              | some types ↦ run_actions types
            ])
            (core_actions actions s.cores.num_cores 0 [] s)
  unfolding rsp_vcont ◌>>=◌ get lift
  vcont_valid s actions parsed valid = rw parsed (rw valid refl)

  run_actions_lem :
      (s : Server e) (types : List ResumeType)
      → length types ≡ s.cores.num_cores
      → run_actions types s
        ≡ do_core_actions (record s { target = (e.cpu.prepare types s.target).1 })
  unfolding run_actions ◌>>=◌ ◌>>◌ get lift on_target
  run_actions_lem s types size = rw (size, ==_refl s.cores.num_cores) refl

  -- There is an element for each core, the packet is a valid list of actions, and each core has an
  -- action in it, which is none, to continue or to step. Then `rspVCont` notes for each core what
  -- it does, which is nothing for a dead one, has the target prepare just these actions, in the
  -- order of the cores, and goes on with `doCoreActions`.
  pub rsp_vcont-assigned :
      (s : Server e) (actions : VContActions) (asked : ℕ → ResumeType)
      → IsSized s.cores
      → VCont.parse (c_string s.pkt) ≡ ok actions
      → actions.valid ≡ true
      → Asks actions s.cores.num_cores asked
      → rsp_vcont s
        ≡ do_core_actions (record s {
          cores = record s.cores { core_states = assigned asked 0 s.cores.core_states };
          target = (e.cpu.prepare (types_of (assigned asked 0 s.cores.core_states)) s.target).1;
        })
  rsp_vcont-assigned s actions asked size parsed valid asks =
      let states = s.cores.core_states in
      let types = types_of (assigned asked 0 states) in
      let t = with_cores s s.cores.num_cores s.cores.live_cores (assigned asked 0 states) in
      let cores : core_actions actions (length states) 0 [] s ≡ ok (some types, t) =
        core_actions_lem actions asked s.cores.num_cores s.cores.live_cores s [] states []
          (omega (arith, size)) asks in
      let rounds : core_actions actions s.cores.num_cores 0 [] s ≡ ok (some types, t) =
        ap (λ n. core_actions actions n 0 [] s) (sym size) ∙ cores in
      vcont_valid s actions parsed valid
      ∙ ap
          (and_then (λ types. elim types as (λ o. Act e (Unit {0})) [
            | none ↦ put (codes "E01")
            | some types ↦ run_actions types
          ]))
          rounds
      ∙ run_actions_lem t types (length-assigned asked 0 states ∙ size)
