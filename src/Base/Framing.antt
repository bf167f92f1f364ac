-- ===== src/Base/Framing.antt =====
-- Actions that take a state only to related ones, whatever their outcome.
use Prim.Native.String.{String}
use mathlib.Core.Bool.{Bool, true, false}
use mathlib.Core.Option.{Option, none, some}
use garage_s3_operator.Base.Equality.{if◌then◌else◌}
use garage_s3_operator.Base.Effects.{
  Error, Outcome, returns, fails, panics, Action, pure, fail, lift, deref, handle, ◌>>=◌,
  wrap_error, resume,
}
use garage_s3_operator.Base.Ensures.{OnReturn, Always}

-- A relation between an earlier and a later state, reflexive and transitive.
pub record Preorder (S : Type 0) : Type 1 where
  pub later : S → S → Type 0
  pub same : (s : S) → later s s
  pub chain : {s t u : S} → later s t → later t u → later s u

module _ {S : Type 0} (R : Preorder S) where
  pub record Keeps {A : Type 0} (m : Action S A) : Type 0 where
    pub after : (s : S) → Always (R.later s) (m s)

module _ {S : Type 0} {R : Preorder S} where
  pub Keeps-pure : {A : Type 0} {a : A} → Keeps R (pure a)
  Keeps-pure = record { after = λ s. R.same s }

  pub Keeps-fail : {A : Type 0} {e : Error} → Keeps R {A = A} (fail e)
  Keeps-fail = record { after = λ s. R.same s }

  pub Keeps-lift : {A : Type 0} {r : Outcome A} → Keeps R (lift r)
  Keeps-lift = record { after = λ s. R.same s }

  pub Keeps-deref : {A : Type 0} (o : Option A) → Keeps R (deref o)
  Keeps-deref none = record { after = λ s. R.same s }
  Keeps-deref (some a) = record { after = λ s. R.same s }

  Keeps-resume :
      {A B : Type 0} (f : A → Action S B) (h : Error → Action S B) (x : Outcome A × S) (s : S)
      → Always (R.later s) x
      → ((a : A) → Keeps R (f a))
      → ((e : Error) → Keeps R (h e))
      → Always (R.later s) (resume f h x)
  Keeps-resume f h (returns a, t) s q k l = R.chain q ((k a).after t)
  Keeps-resume f h (fails e, t) s q k l = R.chain q ((l e).after t)
  Keeps-resume f h (panics, t) s q k l = q

  pub Keeps-handle :
      {A B : Type 0} {m : Action S A} {f : A → Action S B} {h : Error → Action S B}
      → Keeps R m
      → ((a : A) → Keeps R (f a))
      → ((e : Error) → Keeps R (h e))
      → Keeps R (handle m f h)
  Keeps-handle {A} {B} {m} {f} {h} q k l = record {
    after = λ s. Keeps-resume f h (m s) s (q.after s) k l;
  }

  pub Keeps-bind :
      {A B : Type 0} {m : Action S A} {f : A → Action S B}
      → Keeps R m
      → ((a : A) → Keeps R (f a))
      → Keeps R (m >>= f)
  Keeps-bind q k = Keeps-handle q k λ e. Keeps-fail

  pub Keeps-wrap_error :
      {A : Type 0} (text : String) {m : Action S A} → Keeps R m → Keeps R (wrap_error text m)
  Keeps-wrap_error text q = Keeps-handle q (λ a. Keeps-pure) λ e. Keeps-fail

  pub Keeps-if :
      {A : Type 0} (b : Bool) {x y : Action S A}
      → Keeps R x
      → Keeps R y
      → Keeps R (if b then x else y)
  Keeps-if true p q = p
  Keeps-if false p q = q

  pub Keeps-option :
      {A B : Type 0} (o : Option A) {x : Action S B} {f : A → Action S B}
      → Keeps R x
      → ((a : A) → Keeps R (f a))
      → Keeps R (elim o as (λ _. Action S B) [ none ↦ x | some a ↦ f a ])
  Keeps-option none p q = p
  Keeps-option (some a) p q = q a

  Keeps-resume_on :
      {A B : Type 0} (Q : A → Type 0) (f : A → Action S B) (x : Outcome A × S) (s : S)
      → Always (R.later s) x
      → OnReturn (λ a _. Q a) x
      → ((a : A) → Q a → Keeps R (f a))
      → Always (R.later s) (resume f fail x)
  Keeps-resume_on Q f (returns a, t) s q r k = R.chain q ((k a r).after t)
  Keeps-resume_on Q f (fails e, t) s q r k = q
  Keeps-resume_on Q f (panics, t) s q r k = q

  -- The rule for a bind where what follows keeps the relation for the values that `m` returns.
  pub Keeps-bind_on :
      {A B : Type 0} (Q : A → Type 0) {m : Action S A} {f : A → Action S B}
      → Keeps R m
      → ((s : S) → OnReturn (λ a _. Q a) (m s))
      → ((a : A) → Q a → Keeps R (f a))
      → Keeps R (m >>= f)
  Keeps-bind_on Q {m} {f} q r k = record {
    after = λ s. Keeps-resume_on Q f (m s) s (q.after s) (r s) k;
  }
