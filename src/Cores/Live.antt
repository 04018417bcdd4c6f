-- ===== src/Cores/Live.antt =====
-- lib/server/GdbServer.cpp, class `CoreManager`: the count of live cores.
use embdebug.Base.{
  ℕ, zero, suc, ◌+◌, ◌-◌, ◌%◌, ◌^◌, ◌<◌, ◌≤◌, ◌≡◌, ◌∙◌, refl, true, false, List, [], ◌∷◌, some,
  arith, lt→ltb, if◌then◌else◌, length, replicate, get_elem?, set, length-replicate, length-set,
}
use embdebug.Cores.{
  CoreState, CoreManager, fresh_core, init, reset, kill_core, kill_core_num, update,
}

abbrev pub count_live : List CoreState → ℕ
count_live [] = 0
count_live (c ∷ cores) = (if c.is_live then 1 else 0) + count_live cores

-- The count of live cores is right.
pub record IsValid (m : CoreManager) : Type 0 where
  pub size : length m.core_states ≡ m.num_cores
  pub live : m.live_cores ≡ count_live m.core_states
  pub small : m.num_cores < 2 ^ 32

count_live-fresh : (n : ℕ) → count_live (replicate n fresh_core) ≡ n
count_live-fresh zero = refl
count_live-fresh (suc n) = omega (arith, count_live-fresh n)

pub init-IsValid : (n : ℕ) → n < 2 ^ 32 → IsValid (init n)
unfolding init
init-IsValid n h = record {
  size = length-replicate n fresh_core;
  live = omega (arith, count_live-fresh n);
  small = h;
}

-- `reset` makes the count right, also where it was wrong before.
pub reset-IsValid : (m : CoreManager) → m.num_cores < 2 ^ 32 → IsValid (reset m)
unfolding reset
reset-IsValid m h = record {
  size = length-replicate m.num_cores fresh_core;
  live = omega (arith, count_live-fresh m.num_cores);
  small = h;
}

count_live-le : (cores : List CoreState) → count_live cores ≤ length cores
count_live-le [] = omega arith
count_live-le (c ∷ cores) = ground (arith, count_live-le cores)

count_live-kill :
    (cores : List CoreState) (n : ℕ) (c : CoreState)
    → get_elem? cores n ≡ some c
    → count_live (set cores n (kill_core c)) + (if c.is_live then 1 else 0) ≡ count_live cores
count_live-kill [] n c e = cc
count_live-kill (x ∷ cores) zero c e = ground arith
count_live-kill (x ∷ cores) (suc n) c e = omega (arith, count_live-kill cores n c e)

pub update_in_range :
    (cores : List CoreState) (n : ℕ) (c : CoreState) (f : CoreState → CoreState)
    → get_elem? cores n ≡ some c
    → update n f cores ≡ set cores n (f c)
unfolding update
update_in_range cores n c f e = rw (e, update) refl

-- Killing a core that is live succeeds, and keeps the count right.
pub kill_core_num-IsValid :
    (m : CoreManager) (n : ℕ) (c : CoreState)
    → IsValid m
    → n < m.num_cores
    → get_elem? m.core_states n ≡ some c
    → c.is_live ≡ true
    → ((kill_core_num n m).0 ≡ true) × IsValid (kill_core_num n m).1
unfolding kill_core_num
kill_core_num-IsValid m n c v h at alive =
    rw (lt→ltb n m.num_cores h, update_in_range m.core_states n c kill_core at)
      (
        refl,
        record {
          size = length-set m.core_states n (kill_core c) ∙ v.size;
          live = count (count_live-kill m.core_states n c at);
          small = v.small;
        },
      )
  where
    count :
        count_live (set m.core_states n (kill_core c)) + (if c.is_live then 1 else 0)
          ≡ count_live m.core_states
        → (m.live_cores + 2 ^ 32 - 1) % 2 ^ 32 ≡ count_live (set m.core_states n (kill_core c))
    count e =
        let e' : count_live (set m.core_states n (kill_core c)) + 1 ≡ count_live m.core_states =
          rw alive at e in
        omega (arith, v.live, v.size, v.small, count_live-le m.core_states)

-- A live core that is killed is one less to count.
pub kill_core_num-count_live :
    (m : CoreManager) (n : ℕ) (c : CoreState)
    → n < m.num_cores
    → get_elem? m.core_states n ≡ some c
    → c.is_live ≡ true
    → count_live (kill_core_num n m).1.core_states + 1 ≡ count_live m.core_states
unfolding kill_core_num
kill_core_num-count_live m n c h at alive =
    rw (lt→ltb n m.num_cores h, update_in_range m.core_states n c kill_core at)
      (let e = count_live-kill m.core_states n c at in rw alive at e)

-- A number that is no core's changes nothing.
pub kill_core_num_out : (m : CoreManager) (n : ℕ) → m.num_cores ≤ n → kill_core_num n m ≡ (false, m)
unfolding kill_core_num
kill_core_num_out m n h = ground arith
