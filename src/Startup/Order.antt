-- ===== src/Startup/Order.antt =====
-- The order of the calls that `main` makes, and how the process ends, for any answers of
-- controller-runtime.
use garage_s3_operator.Base.{
  String, ◌≡◌, refl, sym, ◌∙◌, Outcome, returns, fails, panics, Error, List, [], ◌∷◌, ◌++◌,
}
use mathlib.Core.List.{append_assoc, append-nil}
use garage_s3_operator.Platform.{Platform}
use garage_s3_operator.Startup.Options.{Flags, ManagerOptions, manager_options}
use garage_s3_operator.Startup.Controllers.{
  Controller, bucket_controller, key_controller, permission_controller,
}
use garage_s3_operator.Startup.Main.{Runtime, Exit, exit, crash, or_exit, continue, main}

module _ (P : Platform) (FilterProvider : Type 0) where
  -- The calls of controller-runtime.
  pub data Call : Type 0 where
    make_manager : ManagerOptions FilterProvider → Call
    register : Controller P → Call
    healthz_check readyz_check : String → Call
    start_manager : Call

  -- What controller-runtime answers to a call, after the calls of a list.
  abbrev pub Answers : Type 0
  Answers = List Call → Call → Outcome (Unit {0})

  module _ (auth : FilterProvider) (answers : Answers) where
    abbrev record_call : Call → List Call → Outcome (Unit {0}) × List Call
    record_call c log = (answers log c, log ++ (c ∷ []))

    -- A controller-runtime that writes down the calls.
    abbrev pub recorder : Runtime P (List Call) (Unit {0}) FilterProvider
    recorder = record {
      with_authentication_and_authorization = auth;
      new_manager = λ options. record_call (make_manager options);
      complete = λ mgr c. record_call (register c);
      add_healthz_check = λ mgr name. record_call (healthz_check name);
      add_readyz_check = λ mgr name. record_call (readyz_check name);
      start = λ mgr. record_call start_manager;
    }

    -- The calls of a list are made in order after those of `log`, up to the first that does not
    -- return: an error ends the process with code 1, a panic crashes it, and code 0 needs them all.
    pub data Ran : List Call → List Call → Exit → List Call → Type 0 where
      finished : {log : List Call} → Ran log [] (exit 0) log
      refused :
          {log : List Call} {c : Call} {rest : List Call} (e : Error)
          → answers log c ≡ fails e
          → Ran log (c ∷ rest) (exit 1) (log ++ (c ∷ []))
      crashed :
          {log : List Call} {c : Call} {rest : List Call}
          → answers log c ≡ panics
          → Ran log (c ∷ rest) crash (log ++ (c ∷ []))
      went :
          {log : List Call} {c : Call} {rest final : List Call} {e : Exit}
          → answers log c ≡ returns tt
          → Ran (log ++ (c ∷ [])) rest e final
          → Ran log (c ∷ rest) e final

    abbrev Runs : List Call → List Call → Exit × List Call → Type 0
    Runs log calls (e, final) = Ran log calls e final

    Runs-or_exit :
        (c : Call) (rest : List Call) (k : Unit {0} → List Call → Exit × List Call)
        (log : List Call)
        → Runs (log ++ (c ∷ [])) rest (k tt (log ++ (c ∷ [])))
        → Runs log (c ∷ rest) (or_exit (record_call c) k log)
    Runs-or_exit c rest k log h = split (answers log c) refl
      where
        split :
            (o : Outcome (Unit {0}))
            → answers log c ≡ o
            → Runs log (c ∷ rest) (continue k (o, log ++ (c ∷ [])))
        split (returns tt) e = went e h
        split (fails x) e = refused x e
        split panics e = crashed e

    -- The calls of `main`, in order.
    unfoldable pub plan : Flags → List Call
    plan flags =
        make_manager (manager_options auth flags)
        ∷ register (bucket_controller P)
        ∷ register (key_controller P)
        ∷ register (permission_controller P)
        ∷ healthz_check "healthz"
        ∷ readyz_check "readyz"
        ∷ start_manager
        ∷ []

    -- Whatever controller-runtime answers, `main` makes the calls of its plan in order: the manager,
    -- the three controllers, the two checks, the start. The first call that gives an error ends the
    -- process with code 1, a panic crashes it, no later call is made, and code 0 needs them all.
    pub main-Ran :
        (flags : Flags) → Ran [] (plan flags) (main recorder flags []).0 (main recorder flags []).1
    unfolding main plan
    main-Ran flags = Runs-or_exit _ _ _ _ (
        Runs-or_exit _ _ _ _ (
          Runs-or_exit _ _ _ _ (
            Runs-or_exit _ _ _ _
              (Runs-or_exit _ _ _ _ (Runs-or_exit _ _ _ _ (Runs-or_exit _ _ _ _ finished))))))

    Ran-complete :
        {log calls final : List Call} {e : Exit}
        → Ran log calls e final
        → e ≡ exit 0
        → final ≡ log ++ calls
    Ran-complete finished h = sym (append-nil _)
    Ran-complete (refused e x) h = cc
    Ran-complete (crashed x) h = cc
    Ran-complete (went {log} {c} {rest} x r) h = Ran-complete r h ∙ append_assoc log (c ∷ []) rest

    -- If the process ends with code 0, `main` has made all the calls of its plan.
    pub main_complete :
        (flags : Flags)
        → (main recorder flags []).0 ≡ exit 0
        → (main recorder flags []).1 ≡ plan flags
    main_complete flags h = Ran-complete (main-Ran flags) h
