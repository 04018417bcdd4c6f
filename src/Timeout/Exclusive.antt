-- ===== src/Timeout/Exclusive.antt =====
-- lib/server/Timeout.cpp: sequences of operations on one object.
use embdebug.Base.{ℕ, ◌≡◌, refl, List, [], ◌∷◌}
use embdebug.Timeout.{
  TimeoutType, off, real, cycle, Timeout, clear_timeout, set_real_timeout, set_cycle_timeout,
  time_stamp,
}

-- The operations that change an object.
pub data Call (Duration Instant : Type 0) : Type 0 where
  clear : Call Duration Instant
  set_real : Duration → Call Duration Instant
  set_cycles : ℕ → Call Duration Instant
  stamp : Instant → ℕ → Call Duration Instant

abbrev pub perform :
    {Duration Instant : Type 0}
    → Duration
    → Timeout Duration Instant
    → Call Duration Instant
    → Timeout Duration Instant
perform z t clear = clear_timeout z t
perform z t (set_real limit) = set_real_timeout z limit t
perform z t (set_cycles limit) = set_cycle_timeout z limit t
perform z t (stamp now cycles) = time_stamp now cycles t

abbrev pub run :
    {Duration Instant : Type 0}
    → Duration
    → Timeout Duration Instant
    → List (Call Duration Instant)
    → Timeout Duration Instant
run z t [] = t
run z t (c ∷ calls) = run z (perform z t c) calls

-- The limits that are not in use are zero, for each type of timeout.
abbrev pub Unused : {Duration : Type 0} → Duration → TimeoutType → Duration → ℕ → Type 0
Unused z off limit cycles = (limit ≡ z) × (cycles ≡ 0)
Unused z real limit cycles = cycles ≡ 0
Unused z cycle limit cycles = limit ≡ z

abbrev pub IsValid : {Duration Instant : Type 0} → Duration → Timeout Duration Instant → Type 0
IsValid z t = Unused z t.timeout_type t.real_timeout t.cycle_timeout

-- The limits that are not in use are zero after every sequence of operations on an object of
-- which this holds.
pub run-IsValid :
    {Duration Instant : Type 0} (z : Duration) (t : Timeout Duration Instant)
    (calls : List (Call Duration Instant))
    → IsValid z t
    → IsValid z (run z t calls)
run-IsValid z t [] h = h
run-IsValid z t (clear ∷ calls) h = run-IsValid z (clear_timeout z t) calls (refl, refl)
run-IsValid z t (set_real limit ∷ calls) h = run-IsValid z (set_real_timeout z limit t) calls refl
run-IsValid z t (set_cycles limit ∷ calls) h =
    run-IsValid z (set_cycle_timeout z limit t) calls refl
run-IsValid z t (stamp now cycles ∷ calls) h = run-IsValid z (time_stamp now cycles t) calls h
