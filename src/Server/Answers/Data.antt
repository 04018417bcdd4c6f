-- ===== src/Server/Answers/Data.antt =====
-- lib/server/GdbServer.cpp: each request for registers or memory puts one packet.
use embdebug.Base.{ℕ, zero, suc, [], ◌∷◌, Bytes}
use embdebug.Base.Outcome.{undefined}
use embdebug.Server.Access.{
  hex_bytes, read_mem, write_bytes, write_mem, write_bin, rsp_read_mem, rsp_write_mem,
  rsp_write_mem_bin,
}
use embdebug.Server.Answers.{
  Puts, Puts-bind, Puts-get, Puts-put, Puts-stop, Puts-option, puts_rules,
}
use embdebug.Server.Registers.{
  rsp_report_exception, read_regs, rsp_read_all_regs, write_regs, rsp_write_all_regs, read_reg,
  rsp_read_reg, write_reg, rsp_write_reg,
}
use embdebug.Server.Scan.{scan_number, scan_assignment, c_string, scan_range, find_char}
use embdebug.Server.Signals.{TargetSignal}
use embdebug.Server.State.{Env}

module _ {e : Env} where
  pub rsp_report_exception-Puts : (sig : TargetSignal) → Puts 1 (rsp_report_exception {e = e} sig)
  unfolding rsp_report_exception
  rsp_report_exception-Puts sig = search puts_rules

  read_regs-Puts : (left reg : ℕ) (response : Bytes) → Puts 0 (read_regs {e = e} left reg response)
  unfolding read_regs
  read_regs-Puts zero reg response = search puts_rules
  read_regs-Puts (suc left) reg response = search (puts_rules, read_regs-Puts left)

  pub rsp_read_all_regs-Puts : Puts 1 (rsp_read_all_regs {e = e})
  unfolding rsp_read_all_regs
  rsp_read_all_regs-Puts = search (puts_rules, read_regs-Puts)

  write_regs-Puts :
      (left reg byte_size : ℕ) (text : Bytes) → Puts 0 (write_regs {e = e} left reg byte_size text)
  unfolding write_regs
  write_regs-Puts zero reg byte_size text = search puts_rules
  write_regs-Puts (suc left) reg byte_size text = search (puts_rules, write_regs-Puts left)

  pub rsp_write_all_regs-Puts : Puts 1 (rsp_write_all_regs {e = e})
  unfolding rsp_write_all_regs
  rsp_write_all_regs-Puts = search (puts_rules, write_regs-Puts)

  pub rsp_read_reg-Puts : Puts 1 (rsp_read_reg {e = e})
  unfolding rsp_read_reg read_reg
  rsp_read_reg-Puts =
      Puts-bind Puts-get
        (λ s. Puts-option (scan_number b'p' s.pkt) (Puts-put _) (λ reg. search puts_rules))

  pub rsp_write_reg-Puts : Puts 1 (rsp_write_reg {e = e})
  unfolding rsp_write_reg write_reg
  rsp_write_reg-Puts = Puts-bind Puts-get (λ s.
      Puts-option (scan_assignment (c_string s.pkt)) (Puts-put _)
        (λ (reg, text). search puts_rules))

  hex_bytes-Puts : (buf response : Bytes) → Puts 0 (hex_bytes {e = e} response buf)
  unfolding hex_bytes
  hex_bytes-Puts [] response = search puts_rules
  hex_bytes-Puts (b ∷ buf) response = search (puts_rules, hex_bytes-Puts buf)

  pub rsp_read_mem-Puts : Puts 1 (rsp_read_mem {e = e})
  unfolding rsp_read_mem read_mem
  rsp_read_mem-Puts = Puts-bind Puts-get (λ s.
      Puts-option (scan_range b'm' s.pkt) (Puts-put _)
        (λ (addr, len). search (puts_rules, hex_bytes-Puts)))

  write_bytes-Puts : (left addr : ℕ) (text : Bytes) → Puts 0 (write_bytes {e = e} left addr text)
  unfolding write_bytes
  write_bytes-Puts zero addr text = search puts_rules
  write_bytes-Puts (suc left) addr text = search (puts_rules, write_bytes-Puts left)

  pub rsp_write_mem-Puts : Puts 1 (rsp_write_mem {e = e})
  unfolding rsp_write_mem write_mem
  rsp_write_mem-Puts = Puts-bind Puts-get (λ s.
      Puts-option (scan_range b'M' s.pkt) (Puts-put _) (λ (addr, len).
        Puts-option (find_char b':' s.pkt) (Puts-stop 1 undefined)
          (λ text. search (puts_rules, write_bytes-Puts))))

  pub rsp_write_mem_bin-Puts : Puts 1 (rsp_write_mem_bin {e = e})
  unfolding rsp_write_mem_bin write_bin
  rsp_write_mem_bin-Puts = Puts-bind Puts-get (λ s.
      Puts-option (scan_range b'X' s.pkt) (Puts-put _) (λ (addr, len).
        Puts-option (find_char b':' s.pkt) (Puts-stop 1 undefined) (λ text. search puts_rules)))
