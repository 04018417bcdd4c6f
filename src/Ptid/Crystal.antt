-- ===== src/Ptid/Crystal.antt =====
-- lib/server/Ptid.cpp, `crystalize`.
use embdebug.Base.{◌≡◌, Bool, true, false, if◌then◌else◌, arith}
use embdebug.Base.Int.{ℤ, pos, negsuc, eq_ℤ, is_positive}
use embdebug.Ptid.{Ptid, ptid_any, crystalize}

abbrev is_negative : ℤ → Bool
is_negative (pos n) = false
is_negative (negsuc n) = true

-- What a call makes of a process and a thread, given the defaults.
pub record Crystallized (dp dt pid tid : ℤ) (r : Bool × Ptid) : Type 0 where
  pub fails_pid : is_negative pid ≡ true → r.0 ≡ false
  pub fails_tid : is_negative tid ≡ true → r.0 ≡ false
  pub succeeds : is_negative pid ≡ false → is_negative tid ≡ false → r.0 ≡ true
  pub unchanged : r.0 ≡ false → r.1 ≡ record { pid = pid; tid = tid }
  pub pid_is : r.0 ≡ true → r.1.pid ≡ (if eq_ℤ pid ptid_any then dp else pid)
  pub tid_is : r.0 ≡ true → r.1.tid ≡ (if eq_ℤ tid ptid_any then dt else tid)
  pub specific :
      is_positive dp ≡ true
      → is_positive dt ≡ true
      → r.0 ≡ true
      → (is_positive r.1.pid ≡ true) × (is_positive r.1.tid ≡ true)

crystalize_fields :
    (dp dt pid tid : ℤ)
    → Crystallized dp dt pid tid (crystalize dp dt (record { pid = pid; tid = tid }))
unfolding crystalize
crystalize_fields dp dt (pos a) (pos b) = ground arith
crystalize_fields dp dt (pos a) (negsuc b) = ground arith
crystalize_fields dp dt (negsuc a) _ = ground arith

-- `crystalize` succeeds exactly when neither the process nor the thread is negative. On success
-- each `ANY` becomes its default and the other values stay, so that with positive defaults both
-- are positive; on failure the identifier is unchanged.
pub crystalize-Crystallized :
    (dp dt : ℤ) (p : Ptid) → Crystallized dp dt p.pid p.tid (crystalize dp dt p)
crystalize-Crystallized dp dt p = crystalize_fields dp dt p.pid p.tid
