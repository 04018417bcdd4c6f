-- ===== src/Server/Answers.antt =====
-- How the handlers of lib/server/GdbServer.cpp change the server: how many packets they put, and
-- what stays. The rules follow the sequencing of the handlers; the files below apply them.
pub mod Data
pub mod Shape
pub mod Branches
pub mod Actions
pub mod Resume
pub mod Run
pub mod Query
pub mod Dispatch
use embdebug.Base.{
  ℕ, zero, suc, ◌+◌, ◌≡◌, refl, sym, ◌∙◌, ap, subst, Bool, true, false, List, [], ◌∷◌, ◌++◌, Option,
  none, some, Bytes, arith, length, length-append, if◌then◌else◌,
}
use embdebug.Base.Outcome.{Outcome, ok, fault, Fault}
use embdebug.Cores.{CoreManager}
use embdebug.Server.State.{
  Env, Server, Act, and_then, ◌>>=◌, ◌>>◌, ret, stop, lift, get, modify, on_target, on_link, sent,
  put, close,
}

-- The manager has an element for each core.
abbrev pub IsSized : CoreManager → Type 0
IsSized m = length m.core_states ≡ m.num_cores

module _ {e : Env} where
  -- From state `s` to state `t`, `n` packets are put, and the shape of the server stays.
  pub record Step (n : ℕ) (s t : Server e) : Type 0 where
    pub count : length t.replies ≡ n + length s.replies
    pub num_cores : t.cores.num_cores ≡ s.cores.num_cores
    pub num_regs : t.num_regs ≡ s.num_regs
    pub sized : IsSized s.cores → IsSized t.cores

  -- The same where the run ends with a state; a run that ends the process leads anywhere.
  abbrev pub Leads : {A : Type 0} → ℕ → Server e → Outcome (A × Server e) → Type 0
  Leads n s (ok (a, t)) = Step n s t
  Leads n s (fault x) = Unit

  -- A handler that puts `n` packets.
  pub record Puts {A : Type 0} (n : ℕ) (m : Act e A) : Type 0 where
    pub leads : (s : Server e) → Leads n s (m s)

  pub Step-refl : (s : Server e) → Step 0 s s
  Step-refl s = record { count = omega arith; num_cores = refl; num_regs = refl; sized = λ h. h }

  pub Step-trans : (n k : ℕ) (s t u : Server e) → Step n s t → Step k t u → Step (n + k) s u
  Step-trans n k s t u p q = record {
    count = omega (arith, p.count, q.count);
    num_cores = q.num_cores ∙ p.num_cores;
    num_regs = q.num_regs ∙ p.num_regs;
    sized = λ h. q.sized (p.sized h);
  }

  pub Leads-trans :
      {A : Type 0} (n k : ℕ) (s t : Server e) (r : Outcome (A × Server e))
      → Step n s t
      → Leads k t r
      → Leads (n + k) s r
  Leads-trans n k s t (ok (a, u)) p q = Step-trans n k s t u p q
  Leads-trans n k s t (fault x) p q = tt

  Leads-and_then :
      {A B : Type 0} (n k : ℕ) (s : Server e) (f : A → Act e B) (r : Outcome (A × Server e))
      → Leads n s r
      → ((a : A) (t : Server e) → Leads k t (f a t))
      → Leads (n + k) s (and_then f r)
  Leads-and_then n k s f (ok (a, t)) p q = Leads-trans n k s t (f a t) p (q a t)
  Leads-and_then n k s f (fault x) p q = tt

  -- The first part puts nothing.
  pub Puts-bind :
      {A B : Type 0} {n : ℕ} {m : Act e A} {f : A → Act e B}
      → Puts 0 m
      → ((a : A) → Puts n (f a))
      → Puts n (m >>= f)
  unfolding ◌>>=◌
  Puts-bind {n = n} {m = m} {f = f} p q = record {
    leads = λ s.
        subst (λ k. Leads k s ((m >>= f) s)) (omega arith)
          (Leads-and_then 0 n s f (m s) (p.leads s) (λ a. (q a).leads));
  }

  -- Two parts that both put packets.
  pub Puts-then :
      {B : Type 0} {n k : ℕ} {m : Act e (Unit {0})} {f : Act e B}
      → Puts n m
      → Puts k f
      → Puts (n + k) (m >> f)
  unfolding ◌>>◌ ◌>>=◌
  Puts-then {n = n} {k = k} {m = m} {f = f} p q = record {
    leads = λ s. Leads-and_then n k s (λ a. f) (m s) (p.leads s) (λ a. q.leads);
  }

  -- One of two parts puts packets.
  pub Puts-first :
      {B : Type 0} {n : ℕ} {m : Act e (Unit {0})} {f : Act e B}
      → Puts 0 m
      → Puts n f
      → Puts n (m >> f)
  Puts-first {n = n} {m = m} {f = f} p q =
      subst (λ k. Puts k (m >> f)) (omega arith) (Puts-then p q)

  pub Puts-last :
      {B : Type 0} {n : ℕ} {m : Act e (Unit {0})} {f : Act e B}
      → Puts n m
      → Puts 0 f
      → Puts n (m >> f)
  Puts-last {n = n} {m = m} {f = f} p q = subst (λ k. Puts k (m >> f)) (omega arith) (Puts-then p q)

  pub Puts-ret : {A : Type 0} (a : A) → Puts 0 (ret {e = e} a)
  unfolding ret
  Puts-ret a = record { leads = Step-refl }

  pub Puts-stop : {A : Type 0} (n : ℕ) (x : Fault) → Puts n (stop {e = e} {A = A} x)
  unfolding stop
  Puts-stop n x = record { leads = λ s. tt }

  pub Puts-lift : {A : Type 0} (o : Outcome A) → Puts 0 (lift {e = e} o)
  unfolding lift
  Puts-lift (ok a) = record { leads = Step-refl }
  Puts-lift (fault x) = record { leads = λ s. tt }

  pub Puts-get : Puts 0 (get {e = e})
  unfolding get
  Puts-get = record { leads = Step-refl }

  pub Puts-on_target : {A : Type 0} (f : e.T → A × e.T) → Puts 0 (on_target {e = e} f)
  unfolding on_target
  Puts-on_target f = record {
    leads = λ s. record { count = omega arith; num_cores = refl; num_regs = refl; sized = λ h. h };
  }

  pub Puts-on_link : {A : Type 0} (f : e.R → A × e.R) → Puts 0 (on_link {e = e} f)
  unfolding on_link
  Puts-on_link f = record {
    leads = λ s. record { count = omega arith; num_cores = refl; num_regs = refl; sized = λ h. h };
  }

  pub Puts-modify :
      (f : Server e → Server e) → ((s : Server e) → Step 0 s (f s)) → Puts 0 (modify f)
  unfolding modify
  Puts-modify f p = record { leads = p }

  -- A change that leaves the packets and the cores alone.
  pub Puts-modify_other :
      (f : Server e → Server e)
      → ((s : Server e) → (f s).replies ≡ s.replies)
      → ((s : Server e) → (f s).cores ≡ s.cores)
      → ((s : Server e) → (f s).num_regs ≡ s.num_regs)
      → Puts 0 (modify f)
  Puts-modify_other f same_replies same_cores same_regs = Puts-modify f (λ s. record {
    count = ap length (same_replies s) ∙ omega arith;
    num_cores = ap (λ m. m.num_cores) (same_cores s);
    num_regs = same_regs s;
    sized = subst IsSized (sym (same_cores s));
  })

  Leads-sent :
      (reply : Bytes) (s : Server e) (r : Outcome (Option (Unit {0}) × e.R))
      → Leads 1 s (sent reply s r)
  Leads-sent reply s (fault x) = tt
  Leads-sent reply s (ok (a, link)) = record {
    count = let last = length-append s.replies (reply ∷ []) in omega (arith, last);
    num_cores = refl;
    num_regs = refl;
    sized = λ h. h;
  }

  pub Puts-put : (reply : Bytes) → Puts 1 (put {e = e} reply)
  unfolding put
  Puts-put reply = record { leads = λ s. Leads-sent reply s (e.rsp.put_pkt reply s.link) }

  pub Puts-close : Puts 0 (close {e = e})
  unfolding close
  Puts-close = record {
    leads = λ s. record { count = omega arith; num_cores = refl; num_regs = refl; sized = λ h. h };
  }

  pub Puts-if :
      {A : Type 0} {n : ℕ} {x y : Act e A} (b : Bool)
      → Puts n x
      → Puts n y
      → Puts n (if b then x else y)
  Puts-if true p q = p
  Puts-if false p q = q

  pub Leads-if :
      {A : Type 0} (n : ℕ) (x y : Act e A) (s : Server e) (b : Bool)
      → Leads n s (x s)
      → Leads n s (y s)
      → Leads n s ((if b then x else y) s)
  Leads-if n x y s true p q = p
  Leads-if n x y s false p q = q

  pub Puts-option :
      {A B : Type 0} {n : ℕ} {x : Act e B} {f : A → Act e B} (o : Option A)
      → Puts n x
      → ((a : A) → Puts n (f a))
      → Puts n (elim o as (λ o. Act e B) [ none ↦ x | some a ↦ f a ])
  Puts-option none p q = p
  Puts-option (some a) p q = q a

-- Following the sequencing of a handler.
pub ruleset puts_rules = (
  Puts-bind, Puts-first, Puts-last, Puts-ret, Puts-stop, Puts-lift, Puts-get, Puts-on_target,
  Puts-on_link, Puts-put, Puts-close, Puts-if, Puts-option, Puts-modify_other,
)
