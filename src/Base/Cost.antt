-- ===== src/Base/Cost.antt =====
-- How much an action raises a measure of the state, at most and whatever its outcome.
use Prim.Native.Nat.{ℕ, ◌+◌, ◌≤◌}
use Prim.Native.String.{String}
use native.Mathlib.Omega.{arith}
use mathlib.Core.Bool.{Bool, true, false}
use mathlib.Core.Option.{Option, none, some}
use garage_s3_operator.Base.Equality.{if◌then◌else◌}
use garage_s3_operator.Base.Effects.{
  Error, Outcome, returns, fails, panics, Action, pure, fail, lift, deref, handle, ◌>>=◌,
  wrap_error, resume,
}
use garage_s3_operator.Base.Ensures.{OnReturn, OnReturn-any, Always, Always-wrap_error}

module _ {S : Type 0} (measure : S → ℕ) where
  pub record Costs (n : ℕ) {A : Type 0} (m : Action S A) : Type 0 where
    pub after : (s : S) → Always (λ t. measure t ≤ n + measure s) (m s)

add_costs : (a b x y z : ℕ) → y ≤ a + x → z ≤ b + y → z ≤ (a + b) + x
add_costs a b x y z p q = omega arith

module _ {S : Type 0} {measure : S → ℕ} where
  pub Costs-pure : {n : ℕ} {A : Type 0} {a : A} → Costs measure n (pure a)
  Costs-pure = record { after = λ s. omega arith }

  pub Costs-fail : {n : ℕ} {A : Type 0} {e : Error} → Costs measure n {A = A} (fail e)
  Costs-fail = record { after = λ s. omega arith }

  pub Costs-lift : {n : ℕ} {A : Type 0} {r : Outcome A} → Costs measure n (lift r)
  Costs-lift = record { after = λ s. omega arith }

  pub Costs-deref : {n : ℕ} {A : Type 0} (o : Option A) → Costs measure n (deref o)
  Costs-deref none = record { after = λ s. omega arith }
  Costs-deref (some a) = record { after = λ s. omega arith }

  Costs-resume :
      (a b : ℕ) {A B : Type 0} (Q : A → Type 0) (f : A → Action S B) (h : Error → Action S B)
      (x : Outcome A × S) (s : S)
      → Always (λ t. measure t ≤ a + measure s) x
      → OnReturn (λ r _. Q r) x
      → ((r : A) → Q r → Costs measure b (f r))
      → ((e : Error) → Costs measure b (h e))
      → Always (λ t. measure t ≤ (a + b) + measure s) (resume f h x)
  Costs-resume a b Q f h (returns r, t) s p q k l =
      add_costs a b (measure s) (measure t) (measure (f r t).1) p ((k r q).after t)
  Costs-resume a b Q f h (fails e, t) s p q k l =
      add_costs a b (measure s) (measure t) (measure (h e t).1) p ((l e).after t)
  Costs-resume a b Q f h (panics, t) s p q k l = omega arith

  -- The rule for a call of cost `a` before handlers of cost `b`.
  pub Costs-handle :
      (a b : ℕ) {A B : Type 0} {m : Action S A} {f : A → Action S B} {h : Error → Action S B}
      → Costs measure a m
      → ((r : A) → Costs measure b (f r))
      → ((e : Error) → Costs measure b (h e))
      → Costs measure (a + b) (handle m f h)
  Costs-handle a b {m = m} {f = f} {h = h} p k l = record {
    after = λ s.
        Costs-resume a b (λ _. Unit {0}) f h (m s) s (p.after s) (OnReturn-any (m s)) (λ r _. k r)
          l;
  }

  pub Costs-bind :
      (a b : ℕ) {A B : Type 0} {m : Action S A} {f : A → Action S B}
      → Costs measure a m
      → ((r : A) → Costs measure b (f r))
      → Costs measure (a + b) (m >>= f)
  Costs-bind a b p k = Costs-handle a b p k λ e. Costs-fail

  -- The rule for a bind where what follows has the cost for the values that `m` returns.
  pub Costs-bind_on :
      (a b : ℕ) {A B : Type 0} (Q : A → Type 0) {m : Action S A} {f : A → Action S B}
      → Costs measure a m
      → ((s : S) → OnReturn (λ r _. Q r) (m s))
      → ((r : A) → Q r → Costs measure b (f r))
      → Costs measure (a + b) (m >>= f)
  Costs-bind_on a b Q {m = m} {f = f} p q k = record {
    after = λ s. Costs-resume a b Q f fail (m s) s (p.after s) (q s) k λ e. Costs-fail;
  }

  pub Costs-wrap_error :
      {a : ℕ} {A : Type 0} (text : String) {m : Action S A}
      → Costs measure a m
      → Costs measure a (wrap_error text m)
  Costs-wrap_error {a} text {m} p = record {
    after = λ s. Always-wrap_error (λ t. measure t ≤ a + measure s) text m s (p.after s);
  }

  pub Costs-if :
      {a : ℕ} {A : Type 0} (b : Bool) {x y : Action S A}
      → Costs measure a x
      → Costs measure a y
      → Costs measure a (if b then x else y)
  Costs-if true p q = p
  Costs-if false p q = q

  pub Costs-option :
      {n : ℕ} {A B : Type 0} (o : Option A) {x : Action S B} {f : A → Action S B}
      → Costs measure n x
      → ((a : A) → Costs measure n (f a))
      → Costs measure n (elim o as (λ _. Action S B) [ none ↦ x | some a ↦ f a ])
  Costs-option none p q = p
  Costs-option (some a) p q = q a

  pub Costs-weaken :
      (a b : ℕ) {A : Type 0} {m : Action S A} → a ≤ b → Costs measure a m → Costs measure b m
  Costs-weaken a b {m = m} less p = record {
    after = λ s. let q : measure (m s).1 ≤ a + measure s = p.after s in omega arith;
  }
