-- ===== src/Platform/Lifting.antt =====
-- From what a call ensures on its own part of the world to what it ensures on the whole.
use garage_s3_operator.Base.{
  Calmly, ◌≡◌, refl, Outcome, returns, fails, panics, Action, OnReturn, Safely, Yields, Always,
  ◌>>◌, pure, Yields-bind, Yields-with, Yields-state, OnReturn-both, OnReturn-of_Always, subst, sym,
  ap, ◌∙◌,
}
use garage_s3_operator.Platform.{Platform, World, on_kube, on_garage}

module _ (P : Platform) {A : Type 0} (w : World P) where
  kube_outcome : (x : Outcome A × P.Kube) → Outcome A × World P
  kube_outcome (r, k) = (r, record { kube = k; garage = w.garage })

  OnReturn-kube_outcome :
      (Q : A → P.Kube → Type 0) (x : Outcome A × P.Kube)
      → OnReturn Q x
      → OnReturn (λ a t. Q a t.kube × (t.garage ≡ w.garage)) (kube_outcome x)
  unfolding kube_outcome
  OnReturn-kube_outcome Q (returns a, k) q = (q, refl)
  OnReturn-kube_outcome Q (fails e, k) q = tt
  OnReturn-kube_outcome Q (panics, k) q = tt

  -- A call of the Kubernetes client leaves Garage alone.
  pub OnReturn-on_kube :
      (Q : A → P.Kube → Type 0) (m : Action P.Kube A)
      → OnReturn Q (m w.kube)
      → OnReturn (λ a t. Q a t.kube × (t.garage ≡ w.garage)) (on_kube {P = P} m w)
  unfolding kube_outcome
  OnReturn-on_kube Q m q = OnReturn-kube_outcome Q (m w.kube) q

  Safely-kube_outcome :
      (Q : A → Type 0) (x : Outcome A × P.Kube)
      → Safely (λ a _. Q a) x
      → Safely (λ a _. Q a) (kube_outcome x)
  unfolding kube_outcome
  Safely-kube_outcome Q (returns a, k) q = q
  Safely-kube_outcome Q (fails e, k) q = tt
  Safely-kube_outcome Q (panics, k) q = q

  -- A call of the Kubernetes client that does not panic, by what it returns.
  pub Safely-of_kube :
      (Q : A → Type 0) (m : Action P.Kube A)
      → Safely (λ a _. Q a) (m w.kube)
      → Safely (λ a _. Q a) (on_kube {P = P} m w)
  unfolding kube_outcome
  Safely-of_kube Q m q = Safely-kube_outcome Q (m w.kube) q

  pub Safely-on_kube :
      (m : Action P.Kube A)
      → Safely (λ _ _. Unit {0}) (m w.kube)
      → Safely (λ _ _. Unit {0}) (on_kube {P = P} m w)
  Safely-on_kube m q = Safely-of_kube (λ _. Unit {0}) m q

  Yields-kube_outcome :
      (Q : A → P.Kube → Type 0) (x : Outcome A × P.Kube)
      → Yields Q x
      → Yields (λ a t. Q a t.kube × (t.garage ≡ w.garage)) (kube_outcome x)
  unfolding kube_outcome
  Yields-kube_outcome Q (returns a, k) q = (q, refl)
  Yields-kube_outcome Q (fails e, k) q = q
  Yields-kube_outcome Q (panics, k) q = q

  -- A call of the Kubernetes client that returns.
  pub Yields-on_kube :
      (Q : A → P.Kube → Type 0) (m : Action P.Kube A)
      → Yields Q (m w.kube)
      → Yields (λ a t. Q a t.kube × (t.garage ≡ w.garage)) (on_kube {P = P} m w)
  unfolding kube_outcome
  Yields-on_kube Q m q = Yields-kube_outcome Q (m w.kube) q

  garage_outcome : (x : Outcome A × P.Garage) → Outcome A × World P
  garage_outcome (r, g) = (r, record { kube = w.kube; garage = g })

  OnReturn-garage_outcome :
      (Q : A → P.Garage → Type 0) (x : Outcome A × P.Garage)
      → OnReturn Q x
      → OnReturn (λ a t. Q a t.garage × (t.kube ≡ w.kube)) (garage_outcome x)
  unfolding garage_outcome
  OnReturn-garage_outcome Q (returns a, g) q = (q, refl)
  OnReturn-garage_outcome Q (fails e, g) q = tt
  OnReturn-garage_outcome Q (panics, g) q = tt

  -- A request to Garage leaves Kubernetes alone.
  pub OnReturn-on_garage :
      (Q : A → P.Garage → Type 0) (m : Action P.Garage A)
      → OnReturn Q (m w.garage)
      → OnReturn (λ a t. Q a t.garage × (t.kube ≡ w.kube)) (on_garage {P = P} m w)
  unfolding garage_outcome
  OnReturn-on_garage Q m q = OnReturn-garage_outcome Q (m w.garage) q

module _ (P : Platform) {A : Type 0} (w : World P) where
  Safely-garage_outcome :
      (Q : A → Type 0) (x : Outcome A × P.Garage)
      → Safely (λ a _. Q a) x
      → Safely (λ a _. Q a) (garage_outcome P w x)
  unfolding garage_outcome
  Safely-garage_outcome Q (returns a, g) q = q
  Safely-garage_outcome Q (fails e, g) q = tt
  Safely-garage_outcome Q (panics, g) q = q

  -- A request to Garage that does not panic, by what it returns.
  pub Safely-of_garage :
      (Q : A → Type 0) (m : Action P.Garage A)
      → Safely (λ a _. Q a) (m w.garage)
      → Safely (λ a _. Q a) (on_garage {P = P} m w)
  unfolding garage_outcome
  Safely-of_garage Q m q = Safely-garage_outcome Q (m w.garage) q

-- What leaves Kubernetes alone and returns, before an update that returns.
module _ (P : Platform) {A : Type 0} (G : P.Garage → Type 0) where
  pub Yields-before_update :
      (m : Action (World P) (Unit {0})) (update : Action P.Kube A) (w : World P)
      → Yields (λ _ _. Unit {0}) (m w)
      → OnReturn (λ _ t. G t.garage) (m w)
      → Always (λ t. t.kube ≡ w.kube) (m w)
      → Yields (λ _ _. Unit {0}) (update w.kube)
      → Yields
          (λ _ t. G t.garage × (t.kube ≡ (update w.kube).1))
          ((m >> (on_kube {P = P} update >> pure tt)) w)
  Yields-before_update m update w returned held same takes =
      Yields-bind _ _ m _ w
        (Yields-with _ _ (m w) returned
          (OnReturn-both _ _ (m w) held (OnReturn-of_Always (λ t. t.kube ≡ w.kube) (m w) same)))
        λ _ t (_, (here, kept)).
          Yields-bind _ _ (on_kube {P = P} update) _ t
            (Yields-on_kube P t _ update (
              Yields-state _ (update t.kube)
                (subst (λ k. Yields (λ _ _. Unit {0}) (update k)) (sym kept) takes)))
            λ b u (left, still). (subst G (sym still) here, left ∙ ap (λ k. (update k).1) kept)

-- A call of the Kubernetes client that never panics.
pub Calmly-on_kube :
    (P : Platform) {A : Type 0} (m : Action P.Kube A) → Calmly m → Calmly (on_kube {P = P} m)
Calmly-on_kube P m h = record { after = λ w. Safely-on_kube P w m (h.after w.kube) }

-- A request to Garage that never panics.
pub Calmly-on_garage :
    (P : Platform) {A : Type 0} (m : Action P.Garage A) → Calmly m → Calmly (on_garage {P = P} m)
Calmly-on_garage P m h = record {
  after = λ w. Safely-of_garage P w (λ _. Unit {0}) m (h.after w.garage);
}
