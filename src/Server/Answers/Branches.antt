-- ===== src/Server/Answers/Branches.antt =====
-- Parts of the handlers of lib/server/GdbServer.cpp that tell by their result how many packets they
-- put.
use embdebug.Base.{ℕ, ◌+◌, ◌≡◌, sym, subst, Option, none, some, arith}
use embdebug.Base.Outcome.{Outcome, ok, fault, Fault}
use embdebug.Server.Answers.{Step, Step-refl, Step-trans, Leads, Leads-trans, Puts}
use embdebug.Server.State.{Env, Server, Act, and_then, ◌>>=◌, ◌>>◌, ret, stop}
use embdebug.Target.Enums.{WaitRes}

module _ {e : Env} where
  -- `Leads` with the number of packets for each result.
  abbrev pub LeadsBy : {A : Type 0} → (A → ℕ) → Server e → Outcome (A × Server e) → Type 0
  LeadsBy n s (ok (a, t)) = Step (n a) s t
  LeadsBy n s (fault x) = Unit

  pub record PutsBy {A : Type 0} (n : A → ℕ) (m : Act e A) : Type 0 where
    pub leads : (s : Server e) → LeadsBy n s (m s)

  Leads-and_then_by :
      {A B : Type 0} (n left : A → ℕ) (k : ℕ) (s : Server e) (f : A → Act e B)
      (r : Outcome (A × Server e))
      → LeadsBy n s r
      → ((a : A) → n a + left a ≡ k)
      → ((a : A) → Puts (left a) (f a))
      → Leads k s (and_then f r)
  Leads-and_then_by n left k s f (ok (a, t)) p total q =
      subst (λ k. Leads k s (f a t)) (total a)
        (Leads-trans (n a) (left a) s t (f a t) p ((q a).leads t))
  Leads-and_then_by n left k s f (fault x) p total q = tt

  -- What comes behind puts the rest of `k` packets.
  pub Puts-rest :
      {A B : Type 0} {m : Act e A} {f : A → Act e B} (n left : A → ℕ) (k : ℕ)
      → PutsBy n m
      → ((a : A) → n a + left a ≡ k)
      → ((a : A) → Puts (left a) (f a))
      → Puts k (m >>= f)
  unfolding ◌>>=◌
  Puts-rest {m = m} {f = f} n left k p total q = record {
    leads = λ s. Leads-and_then_by n left k s f (m s) (p.leads s) total q;
  }

  pub PutsBy-ret : {A : Type 0} (n : A → ℕ) (a : A) → n a ≡ 0 → PutsBy n (ret {e = e} a)
  unfolding ret
  PutsBy-ret n a h = record { leads = λ s. subst (λ k. Step k s s) (sym h) (Step-refl s) }

  pub PutsBy-stop : {A : Type 0} (n : A → ℕ) (x : Fault) → PutsBy n (stop {e = e} x)
  unfolding stop
  PutsBy-stop n x = record { leads = λ s. tt }

  LeadsBy-and_then-ret :
      {A B : Type 0} (n : B → ℕ) (k : ℕ) (b : B) (s : Server e) (r : Outcome (A × Server e))
      → n b ≡ k
      → Leads k s r
      → LeadsBy n s (and_then (λ a. ret b) r)
  unfolding ret
  LeadsBy-and_then-ret n k b s (ok (a, t)) h p = subst (λ k. Step k s t) (sym h) p
  LeadsBy-and_then-ret n k b s (fault x) h p = tt

  pub PutsBy-then_ret :
      {B : Type 0} {m : Act e (Unit {0})} (n : B → ℕ) (k : ℕ) (b : B)
      → n b ≡ k
      → Puts k m
      → PutsBy n (m >> ret b)
  unfolding ◌>>◌ ◌>>=◌
  PutsBy-then_ret {m = m} n k b h p = record {
    leads = λ s. LeadsBy-and_then-ret n k b s (m s) h (p.leads s);
  }

  LeadsBy-trans :
      {A : Type 0} (n : A → ℕ) (s t : Server e) (r : Outcome (A × Server e))
      → Step 0 s t
      → LeadsBy n t r
      → LeadsBy n s r
  LeadsBy-trans n s t (ok (a, u)) p q =
      subst (λ k. Step k s u) (omega arith) (Step-trans 0 (n a) s t u p q)
  LeadsBy-trans n s t (fault x) p q = tt

  LeadsBy-and_then :
      {A B : Type 0} (n : B → ℕ) (s : Server e) (f : A → Act e B) (r : Outcome (A × Server e))
      → Leads 0 s r
      → ((a : A) → PutsBy n (f a))
      → LeadsBy n s (and_then f r)
  LeadsBy-and_then n s f (ok (a, t)) p q = LeadsBy-trans n s t (f a t) p ((q a).leads t)
  LeadsBy-and_then n s f (fault x) p q = tt

  -- A part in front that puts nothing.
  pub PutsBy-bind :
      {A B : Type 0} {n : B → ℕ} {m : Act e A} {f : A → Act e B}
      → Puts 0 m
      → ((a : A) → PutsBy n (f a))
      → PutsBy n (m >>= f)
  unfolding ◌>>=◌
  PutsBy-bind {n = n} {m = m} {f = f} p q = record {
    leads = λ s. LeadsBy-and_then n s f (m s) (p.leads s) q;
  }

  pub PutsBy-first :
      {B : Type 0} {n : B → ℕ} {m : Act e (Unit {0})} {f : Act e B}
      → Puts 0 m
      → PutsBy n f
      → PutsBy n (m >> f)
  unfolding ◌>>◌
  PutsBy-first p q = PutsBy-bind p (λ a. q)

  pub PutsBy-option :
      {A B : Type 0} {n : B → ℕ} {x : Act e B} {f : A → Act e B} (o : Option A)
      → PutsBy n x
      → ((a : A) → PutsBy n (f a))
      → PutsBy n (elim o as (λ o. Act e B) [ none ↦ x | some a ↦ f a ])
  PutsBy-option none p q = p
  PutsBy-option (some a) p q = q a

  pub PutsBy-wait :
      {B : Type 0} {n : B → ℕ} {x y z : Act e B} (res : WaitRes)
      → PutsBy n x
      → PutsBy n y
      → PutsBy n z
      → PutsBy n (elim res as (λ res. Act e B) [
        | WaitRes.event_occurred ↦ x
        | WaitRes.error ↦ y
        | WaitRes.timeout ↦ z
      ])
  PutsBy-wait WaitRes.event_occurred p q r = p
  PutsBy-wait WaitRes.error p q r = q
  PutsBy-wait WaitRes.timeout p q r = r
