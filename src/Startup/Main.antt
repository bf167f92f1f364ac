-- ===== src/Startup/Main.antt =====
-- `main`, after its options are made.
use garage_s3_operator.Base.{ℕ, String, Outcome, returns, fails, panics, Action}
use garage_s3_operator.Platform.{Platform}
use garage_s3_operator.Startup.Options.{Flags, ManagerOptions, manager_options}
use garage_s3_operator.Startup.Controllers.{
  Controller, bucket_controller, key_controller, permission_controller,
}

-- controller-runtime, on a state `S` of the process: managers are of the type `Manager`.
-- `new_manager` stands for `ctrl.NewManager` on `ctrl.GetConfigOrDie()`, which exits with code 1
-- itself if there is no configuration.
pub record Runtime (P : Platform) (S Manager FilterProvider : Type 0) : Type 0 where
  pub with_authentication_and_authorization : FilterProvider
  pub new_manager : ManagerOptions FilterProvider → Action S Manager
  pub complete : Manager → Controller P → Action S (Unit {0})
  pub add_healthz_check : Manager → String → Action S (Unit {0})
  pub add_readyz_check : Manager → String → Action S (Unit {0})
  pub start : Manager → Action S (Unit {0})

-- How the process ends.
pub data Exit : Type 0 where
  exit : ℕ → Exit
  crash : Exit

module _ {S A : Type 0} where
  abbrev pub continue : (A → S → Exit × S) → Outcome A × S → Exit × S
  continue k (returns a, s) = k a s
  continue k (fails e, s) = (exit 1, s)
  continue k (panics, s) = (crash, s)

  -- `if err := m; err != nil { os.Exit(1) }`, and what follows.
  abbrev pub or_exit : Action S A → (A → S → Exit × S) → S → Exit × S
  or_exit m k s = continue k (m s)

module _ {P : Platform} {S Manager FilterProvider : Type 0}
    (runtime : Runtime P S Manager FilterProvider) where
  open runtime use {
    with_authentication_and_authorization, new_manager, complete, add_healthz_check,
    add_readyz_check, start,
  }

  unfoldable pub main : Flags → S → Exit × S
  main flags =
      or_exit (new_manager (manager_options with_authentication_and_authorization flags)) λ mgr.
        or_exit (complete mgr (bucket_controller P)) λ _.
          or_exit (complete mgr (key_controller P)) λ _.
            or_exit (complete mgr (permission_controller P)) λ _.
              or_exit (add_healthz_check mgr "healthz") λ _.
                or_exit (add_readyz_check mgr "readyz") λ _. or_exit (start mgr) λ _ s. (exit 0, s)
