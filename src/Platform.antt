-- ===== src/Platform.antt =====
-- What the operator calls and does not implement, as one parameter: the Kubernetes client, the
-- Garage admin SDK, and helper functions of libraries on objects. The children state what these
-- promise; nothing here is a definition of their code.
mod Kubernetes
mod GarageSdk
mod Libraries
pub mod Lifting
pub mod Laws
pub use Kubernetes.*
pub use GarageSdk.*
pub use Libraries.*
use garage_s3_operator.Base.{Outcome, Action, Option}

-- `Kube` and `Garage` are the states of the API server and of the Garage clusters as this process
-- meets them: what other actors will do in between calls is part of a state.
pub record Platform : Type 1 where
  pub Kube : Type 0
  pub Garage : Type 0
  pub client : Client Kube
  pub sdk : Sdk Garage
  pub accessors : Accessors
  pub util : Util

pub record World (P : Platform) : Type 0 where
  pub kube : P.Kube
  pub garage : P.Garage

module _ {P : Platform} where
  -- A call of the Kubernetes client, and one of the Garage SDK.
  abbrev pub on_kube : {A : Type 0} → Action P.Kube A → Action (World P) A
  on_kube m w = let (r, k) = m w.kube in (r, record { kube = k; garage = w.garage })

  abbrev pub on_garage : {A : Type 0} → Action P.Garage A → Action (World P) A
  on_garage m w = let (r, g) = m w.garage in (r, record { kube = w.kube; garage = g })
