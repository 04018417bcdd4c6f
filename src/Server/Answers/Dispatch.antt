-- ===== src/Server/Answers/Dispatch.antt =====
-- lib/server/GdbServer.cpp: `rspClientRequest` answers each request with one packet, but `qRcmd`.
use embdebug.Base.{
  ℕ, ◌≡◌, refl, Bool-cases, inl, inr, ==_iff, subst, sym, false, not, ◌||◌, Option, none, some,
  Bytes, codes, ◌==◌, get_elem?, eq_bytes, arith,
}
use embdebug.Base.Outcome.{ok, fatal_error, assertion}
use embdebug.Server.Answers.{
  Step, Leads, Leads-trans, Puts, Puts-bind, Puts-first, Puts-last, Puts-get, Puts-put, Puts-ret,
  Puts-stop, Puts-lift, Puts-option, Puts-close, Puts-modify_other, Puts-if, puts_rules,
}
use embdebug.Server.Answers.Data.{
  rsp_report_exception-Puts, rsp_read_all_regs-Puts, rsp_write_all_regs-Puts, rsp_read_reg-Puts,
  rsp_write_reg-Puts, rsp_read_mem-Puts, rsp_write_mem-Puts, rsp_write_mem_bin-Puts,
}
use embdebug.Server.Answers.Query.{rsp_query-Leads}
use embdebug.Server.Answers.Resume.{rsp_syscall_reply-Puts, rsp_continue-Puts, rsp_vpkt-Puts}
use embdebug.Server.Dispatch.{
  stop_reply, rsp_stop_reason, set_thread, pkt_char, rsp_select, set_stop_mode, rsp_set,
  rsp_remove_matchpoint, rsp_insert_matchpoint, dispatch_data, dispatch, handle_pkt,
}
use embdebug.Server.Loop.{rsp_client_request}
use embdebug.Server.Monitor.{rsp_command}
use embdebug.Server.Signals.{TargetSignal}
use embdebug.Server.State.{Env, Server, Act, and_then, modify, get, ◌>>=◌, ◌>>◌, ret, stop}
use embdebug.Strings.{starts_with}
use embdebug.Target.Enums.{ResumeRes}

module _ {e : Env} where
  stop_reply-Puts : (res : ResumeRes) → Puts 1 (stop_reply {e = e} res)
  unfolding stop_reply
  stop_reply-Puts ResumeRes.interrupted = rsp_report_exception-Puts _
  stop_reply-Puts ResumeRes.none = Puts-stop 1 fatal_error
  stop_reply-Puts ResumeRes.success = Puts-stop 1 fatal_error
  stop_reply-Puts ResumeRes.failure = Puts-stop 1 fatal_error
  stop_reply-Puts ResumeRes.timeout = Puts-stop 1 fatal_error
  stop_reply-Puts ResumeRes.syscall = Puts-stop 1 fatal_error
  stop_reply-Puts ResumeRes.stepped = Puts-stop 1 fatal_error
  stop_reply-Puts ResumeRes.lockstep = Puts-stop 1 fatal_error

  rsp_stop_reason-Puts : Puts 1 (rsp_stop_reason {e = e})
  unfolding rsp_stop_reason
  rsp_stop_reason-Puts =
      Puts-bind Puts-get (λ s. Puts-bind (Puts-lift _) (λ core. stop_reply-Puts core.stop_reason))

  set_thread-Puts : Puts 1 (set_thread {e = e})
  unfolding set_thread
  set_thread-Puts = Puts-bind Puts-get (λ s. Puts-bind (Puts-lift _) (λ (chosen, ptid).
      Puts-first (Puts-modify_other _ (λ s. refl) (λ s. refl) (λ s. refl)) (
        Puts-if (not chosen) (Puts-put _)
          (Puts-first (Puts-modify_other _ (λ s. refl) (λ s. refl) (λ s. refl)) (Puts-put _)))))

  pkt_char-Puts : (n : ℕ) → Puts 0 (pkt_char {e = e} n)
  unfolding pkt_char
  pkt_char-Puts n =
      Puts-bind Puts-get
        (λ s. Puts-option (get_elem? s.pkt n) (Puts-stop 0 assertion) (λ c. Puts-ret c))

  rsp_select-Puts : Puts 1 (rsp_select {e = e})
  unfolding rsp_select
  rsp_select-Puts = search (puts_rules, pkt_char-Puts, set_thread-Puts)

  set_stop_mode-Puts : (digit : ℕ) → Puts 1 (set_stop_mode {e = e} digit)
  unfolding set_stop_mode
  set_stop_mode-Puts digit =
      Puts-if (digit == b'0')
        (Puts-first (Puts-modify_other _ (λ s. refl) (λ s. refl) (λ s. refl)) (Puts-put _))
        (Puts-if (digit == b'1')
          (Puts-first (Puts-modify_other _ (λ s. refl) (λ s. refl) (λ s. refl)) (Puts-put _))
          (Puts-put _))

  rsp_set-Puts : Puts 1 (rsp_set {e = e})
  unfolding rsp_set
  rsp_set-Puts = Puts-bind Puts-get (λ s.
      Puts-if (starts_with s.pkt (codes "QNonStop:"))
        (Puts-bind (pkt_char-Puts 9) set_stop_mode-Puts)
        (Puts-if (eq_bytes s.pkt (codes "QStartNoAckMode"))
          (Puts-first (Puts-modify_other _ (λ s. refl) (λ s. refl) (λ s. refl)) (Puts-put _))
          (Puts-put _)))

  dispatch_data-Puts : (c : ℕ) → Puts 1 (dispatch_data {e = e} c)
  unfolding dispatch_data rsp_remove_matchpoint rsp_insert_matchpoint
  dispatch_data-Puts c = Puts-if (c == b'g') rsp_read_all_regs-Puts (
      Puts-if (c == b'G') rsp_write_all_regs-Puts (
        Puts-if (c == b'm') rsp_read_mem-Puts (
          Puts-if (c == b'M') rsp_write_mem-Puts (
            Puts-if (c == b'p') rsp_read_reg-Puts (
              Puts-if (c == b'P') rsp_write_reg-Puts (
                Puts-if (c == b'X') rsp_write_mem_bin-Puts (
                  Puts-if (c == b'z') (Puts-put _)
                    (Puts-if (c == b'Z') (Puts-put _) (Puts-put _)))))))))

  dispatch_other-Leads : (c : ℕ) (s : Server e) → (c == b'q') ≡ false → Leads 1 s (dispatch c s)
  unfolding dispatch
  dispatch_other-Leads c s h = rw h (
      (Puts-if (c == b'!' || c == b'T') (Puts-put (codes "OK")) (
          Puts-if (c == b'?') rsp_stop_reason-Puts (
            Puts-if (c == b'A') (Puts-put (codes "E01")) (
              Puts-if (c == b'F') rsp_syscall_reply-Puts (
                Puts-if (c == b'c' || c == b'C' || c == b's' || c == b'S') rsp_continue-Puts (
                  Puts-if (c == b'D') (Puts-last (Puts-put (codes "OK")) Puts-close) (
                    Puts-if (c == b'H') rsp_select-Puts (
                      Puts-if (c == b'i' || c == b'I') (rsp_report_exception-Puts TargetSignal.trap)
                        (Puts-if (c == b'Q') rsp_set-Puts
                          (Puts-if (c == b'v') rsp_vpkt-Puts (dispatch_data-Puts c))))))))))).leads
        s)

  dispatch-Leads :
      (c : ℕ) (s : Server e) → starts_with s.pkt (codes "qRcmd,") ≡ false → Leads 1 s (dispatch c s)
  unfolding dispatch
  dispatch-Leads c s other = elim (Bool-cases (c == b'q')) [
    | inl h ↦
        subst (λ c. Leads 1 s (dispatch c s)) (sym ((==_iff c b'q').0 h))
          (rsp_query-Leads rsp_command s other)
    | inr h ↦ dispatch_other-Leads c s h
  ]

  at_first-Leads :
      (s : Server e) (o : Option ℕ)
      → starts_with s.pkt (codes "qRcmd,") ≡ false
      → Leads 1 s (
          and_then dispatch
            ((elim o as (λ o. Act e ℕ) [ none ↦ stop assertion | some c ↦ ret c ]) s))
  unfolding stop ret
  at_first-Leads s none other = tt
  at_first-Leads s (some c) other = dispatch-Leads c s other

  handle_pkt-Leads :
      (s : Server e) → starts_with s.pkt (codes "qRcmd,") ≡ false → Leads 1 s (handle_pkt s)
  unfolding handle_pkt pkt_char ◌>>=◌ get
  handle_pkt-Leads s other = at_first-Leads s (get_elem? s.pkt 0) other

  -- `getPkt` gives a packet that does not start with `qRcmd,`. If `rspClientRequest` returns, then
  -- it has put one packet, and the server has as many cores and registers as before; where the list
  -- of the cores had an element for each, it still has.
  pub rsp_client_request-Leads :
      (s : Server e) (text : Bytes) (link : e.R)
      → e.rsp.get_pkt s.link ≡ ok (some text, link)
      → starts_with text (codes "qRcmd,") ≡ false
      → Leads 1 s (rsp_client_request s)
  unfolding rsp_client_request ◌>>=◌ ◌>>◌ modify
  rsp_client_request-Leads s text link received other =
      let t = record s { link = link; pkt = text } in
      let same : Step 0 s t = record {
        count = omega arith;
        num_cores = refl;
        num_regs = refl;
        sized = λ h. h;
      } in
      rw received (
        subst (λ k. Leads k s (handle_pkt t)) (omega arith)
          (Leads-trans 0 1 s t (handle_pkt t) same (handle_pkt-Leads t other)))
