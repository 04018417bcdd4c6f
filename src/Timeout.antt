-- ===== src/Timeout.antt =====
-- lib/server/Timeout.cpp and Timeout.h: timeouts by the wall clock or by the target's cycle
-- counter. The durations and instants of `std::chrono` are parameters, with the zero duration,
-- the sum and the order; the readings of the clock and of the cycle counter are arguments.
pub mod Exclusive
use embdebug.Base.{ℕ, ◌+◌, ◌%◌, ◌^◌, Bool, true, false, ltb}

pub data TimeoutType : Type 0 where
  off real cycle : TimeoutType

-- An object of the class.
pub record Timeout (Duration Instant : Type 0) : Type 0 where
  pub timeout_type : TimeoutType
  pub real_timeout : Duration
  pub cycle_timeout : ℕ
  pub real_stamp : Instant
  pub cycle_stamp : ℕ

abbrev is_off : TimeoutType → Bool
is_off off = true
is_off _ = false

abbrev is_real : TimeoutType → Bool
is_real real = true
is_real _ = false

abbrev is_cycle : TimeoutType → Bool
is_cycle cycle = true
is_cycle _ = false

module _ {Duration Instant : Type 0} (zero_duration : Duration) where
  -- The three constructors; the stamps are what was in the memory.
  abbrev pub no_timeout : Instant → ℕ → Timeout Duration Instant
  no_timeout real_stamp cycle_stamp = record {
    timeout_type = off;
    real_timeout = zero_duration;
    cycle_timeout = 0;
    real_stamp = real_stamp;
    cycle_stamp = cycle_stamp;
  }

  abbrev pub of_real : Duration → Instant → ℕ → Timeout Duration Instant
  of_real limit real_stamp cycle_stamp = record {
    timeout_type = real;
    real_timeout = limit;
    cycle_timeout = 0;
    real_stamp = real_stamp;
    cycle_stamp = cycle_stamp;
  }

  abbrev pub of_cycles : ℕ → Instant → ℕ → Timeout Duration Instant
  of_cycles limit real_stamp cycle_stamp = record {
    timeout_type = cycle;
    real_timeout = zero_duration;
    cycle_timeout = limit;
    real_stamp = real_stamp;
    cycle_stamp = cycle_stamp;
  }

  abbrev pub clear_timeout : Timeout Duration Instant → Timeout Duration Instant
  clear_timeout t = record {
    timeout_type = off;
    real_timeout = zero_duration;
    cycle_timeout = 0;
    real_stamp = t.real_stamp;
    cycle_stamp = t.cycle_stamp;
  }

  abbrev pub set_real_timeout : Duration → Timeout Duration Instant → Timeout Duration Instant
  set_real_timeout limit t = record {
    timeout_type = real;
    real_timeout = limit;
    cycle_timeout = 0;
    real_stamp = t.real_stamp;
    cycle_stamp = t.cycle_stamp;
  }

  abbrev pub set_cycle_timeout : ℕ → Timeout Duration Instant → Timeout Duration Instant
  set_cycle_timeout limit t = record {
    timeout_type = cycle;
    real_timeout = zero_duration;
    cycle_timeout = limit;
    real_stamp = t.real_stamp;
    cycle_stamp = t.cycle_stamp;
  }

-- The switch of `timedOut`, on its two comparisons.
abbrev expired : TimeoutType → Bool → Bool → Bool
expired off by_clock by_cycles = false
expired real by_clock by_cycles = by_clock
expired cycle by_clock by_cycles = by_cycles

module _ {Duration Instant : Type 0} where
  abbrev pub have_timeout : Timeout Duration Instant → Bool
  have_timeout t = elim (is_off t.timeout_type) [ true ↦ false | false ↦ true ]

  abbrev pub is_real_timeout : Timeout Duration Instant → Bool
  is_real_timeout t = is_real t.timeout_type

  abbrev pub is_cycle_timeout : Timeout Duration Instant → Bool
  is_cycle_timeout t = is_cycle t.timeout_type

  -- `timeStamp`, at a reading of the clock and of the target's cycle counter.
  abbrev pub time_stamp : Instant → ℕ → Timeout Duration Instant → Timeout Duration Instant
  time_stamp now cycles t = record {
    timeout_type = t.timeout_type;
    real_timeout = t.real_timeout;
    cycle_timeout = t.cycle_timeout;
    real_stamp = now;
    cycle_stamp = cycles;
  }

  -- `timedOut`, at such readings.
  abbrev pub timed_out :
      (Instant → Duration → Instant)
      → (Instant → Instant → Bool)
      → Instant
      → ℕ
      → Timeout Duration Instant
      → Bool
  timed_out plus after now cycles t =
      expired t.timeout_type (after now (plus t.real_stamp t.real_timeout))
        (ltb ((t.cycle_stamp + t.cycle_timeout) % 2 ^ 64) cycles)
