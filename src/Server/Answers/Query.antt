-- ===== src/Server/Answers/Query.antt =====
-- lib/server/GdbServer.cpp: each `q` request, but `qRcmd`, puts one packet.
use embdebug.Base.{◌≡◌, refl, false, [], Bytes, codes, eq_bytes, ltb}
use embdebug.Ptid.{Ptid}
use embdebug.Server.Answers.{
  Leads, Puts, Puts-bind, Puts-first, Puts-get, Puts-put, Puts-lift, Puts-ret, Puts-option,
  Puts-modify_other, Puts-if, puts_rules,
}
use embdebug.Server.Query.{
  put_ptid, rsp_write_next_thread_info, rsp_supported, rsp_xfer, rsp_query, xfer_operands,
}
use embdebug.Server.State.{Env, Server, Act, get, ◌>>=◌}
use embdebug.Strings.{starts_with, split_view}

module _ {e : Env} where
  put_ptid-Puts : (front : Bytes) (ptid : Ptid) → Puts 1 (put_ptid {e = e} front ptid)
  unfolding put_ptid
  put_ptid-Puts front ptid = search puts_rules

  rsp_write_next_thread_info-Puts : Puts 1 (rsp_write_next_thread_info {e = e})
  unfolding rsp_write_next_thread_info
  rsp_write_next_thread_info-Puts = Puts-bind Puts-get (λ s.
      Puts-bind (Puts-lift _) (λ (core_num, next).
        Puts-first (Puts-modify_other _ (λ s. refl) (λ s. refl) (λ s. refl)) (
          Puts-if (ltb core_num s.cores.num_cores) (put_ptid-Puts (codes "m") _)
            (Puts-put (codes "l")))))

  rsp_supported-Puts : Puts 1 (rsp_supported {e = e})
  unfolding rsp_supported
  rsp_supported-Puts = Puts-bind Puts-get (λ s. Puts-bind (Puts-ret _) (λ multi_proc.
      Puts-first (Puts-modify_other _ (λ s. refl) (λ s. refl) (λ s. refl)) (search puts_rules)))

  rsp_xfer-Puts : Puts 1 (rsp_xfer {e = e})
  unfolding rsp_xfer
  rsp_xfer-Puts = Puts-bind Puts-get (λ s.
      Puts-option (xfer_operands (split_view s.pkt b':')) (Puts-put _) (λ (name, (start, len)).
        Puts-option (e.cpu.target_xml name s.target) (Puts-put _) (λ file. Puts-put _)))

  -- From a state whose packet is no `qRcmd`.
  pub rsp_query-Leads :
      (command : Act e (Unit {0})) (s : Server e)
      → starts_with s.pkt (codes "qRcmd,") ≡ false
      → Leads 1 s (rsp_query command s)
  unfolding rsp_query ◌>>=◌ get
  rsp_query-Leads command s h = rw h (
      (Puts-if (eq_bytes s.pkt (codes "qC")) (put_ptid-Puts (codes "QC") s.ptid) (
          Puts-if (eq_bytes s.pkt (codes "qfThreadInfo"))
            (Puts-first (Puts-modify_other _ (λ s. refl) (λ s. refl) (λ s. refl))
              rsp_write_next_thread_info-Puts)
            (Puts-if (eq_bytes s.pkt (codes "qsThreadInfo")) rsp_write_next_thread_info-Puts (
              Puts-if (starts_with s.pkt (codes "qL")) (Puts-put (codes "qM001")) (
                Puts-if (starts_with s.pkt (codes "qSupported")) rsp_supported-Puts (
                  Puts-if (starts_with s.pkt (codes "qSymbol:")) (Puts-put (codes "OK")) (
                    Puts-if (starts_with s.pkt (codes "qThreadExtraInfo,"))
                      (Puts-put (codes "52756e6e61626c65"))
                      (Puts-if (starts_with s.pkt (codes "qXfer:features:read:")) rsp_xfer-Puts
                        (Puts-put []))))))))).leads
        s)
