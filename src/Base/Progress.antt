-- ===== src/Base/Progress.antt =====
-- Total correctness: an action that returns, with what holds then.
use mathlib.Core.Path.{◌≡◌, refl}
use garage_s3_operator.Base.Effects.{Outcome, returns, fails, panics, Action, fail, ◌>>=◌, resume}
use garage_s3_operator.Base.Ensures.{OnReturn}

module _ {S A : Type 0} where
  -- The action returns, and `Q` holds of the value and the state.
  abbrev pub Yields : (A → S → Type 0) → Outcome A × S → Type 0
  Yields Q (returns a, s) = Q a s
  Yields Q (fails e, s) = ⊥
  Yields Q (panics, s) = ⊥

  pub Yields-with :
      (Q R : A → S → Type 0) (x : Outcome A × S)
      → Yields Q x
      → OnReturn R x
      → Yields (λ a s. Q a s × R a s) x
  Yields-with Q R (returns a, s) p q = (p, q)
  Yields-with Q R (fails e, s) p q = elim p [ ]
  Yields-with Q R (panics, s) p q = elim p [ ]

  pub Yields-mono :
      (Q R : A → S → Type 0) (x : Outcome A × S)
      → Yields Q x
      → ((a : A) (s : S) → Q a s → R a s)
      → Yields R x
  Yields-mono Q R (returns a, s) h k = k a s h
  Yields-mono Q R (fails e, s) h k = elim h [ ]
  Yields-mono Q R (panics, s) h k = elim h [ ]

  -- The state after the action is the one that the action leaves.
  pub Yields-state :
      (Q : A → S → Type 0) (x : Outcome A × S) → Yields Q x → Yields (λ _ s. s ≡ x.1) x
  Yields-state Q (returns a, s) h = refl
  Yields-state Q (fails e, s) h = h
  Yields-state Q (panics, s) h = h

module _ {S A B : Type 0} (Q : A → S → Type 0) (R : B → S → Type 0) where
  Yields-resume :
      (f : A → Action S B) (x : Outcome A × S)
      → Yields Q x
      → ((a : A) (t : S) → Q a t → Yields R (f a t))
      → Yields R (resume f fail x)
  Yields-resume f (returns a, s) q k = k a s q
  Yields-resume f (fails e, s) q k = elim q [ ]
  Yields-resume f (panics, s) q k = elim q [ ]

  pub Yields-bind :
      (m : Action S A) (f : A → Action S B) (s : S)
      → Yields Q (m s)
      → ((a : A) (t : S) → Q a t → Yields R (f a t))
      → Yields R ((m >>= f) s)
  Yields-bind m f s = Yields-resume f (m s)
