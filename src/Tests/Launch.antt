-- ===== src/Tests/Launch.antt =====
-- Start-ups of the process at concrete flags and answers.
use garage_s3_operator.Base.{
  ◌≡◌, ◌↔◌, refl, if◌then◌else◌, true, some, [], ◌∷◌, returns, fails, external, String,
}
use garage_s3_operator.Startup.Options.{Flags, CommandLine, parse_flags, ServerTls, manager_options}
use garage_s3_operator.Startup.Main.{exit, main}
use garage_s3_operator.Startup.Servers.{configure, manager_options_lem}
use garage_s3_operator.Startup.Order.{
  Answers, readyz_check, recorder, plan, Ran, main-Ran, main_complete,
}
use garage_s3_operator.Tests.Memory.{memory}

-- No flag is given.
abbrev no_flags : CommandLine
no_flags = record { string_var = λ n d. d; bool_var = λ n d. d }

abbrev flags : Flags
flags = parse_flags no_flags

abbrev tls : ServerTls
tls = record { next_protos = "h2" ∷ [] }

abbrev auth : String
auth = "auth"

-- Everything is answered, or all but the ready check.
abbrev all_well : Answers memory String
all_well log c = returns tt

abbrev not_ready : Answers memory String
not_ready log (readyz_check name) = fails (external "taken")
not_ready log c = returns tt

main_run : (main (recorder memory String auth not_ready) flags []).0 ≡ exit 1
unfolding main
main_run = refl

main-Ran_example :
    Ran memory String auth not_ready []
      (plan memory String auth not_ready flags)
      (main (recorder memory String auth not_ready) flags []).0
      (main (recorder memory String auth not_ready) flags []).1
main-Ran_example = main-Ran memory String auth not_ready flags

main_complete_example :
    (main (recorder memory String auth all_well) flags []).1
    ≡ plan memory String auth all_well flags
unfolding main
main_complete_example = main_complete memory String auth all_well flags refl

manager_options_lem_example :
    ((configure (manager_options auth flags).metrics.tls_opts tls).next_protos
      ≡ (if flags.enable_http2 then tls.next_protos else "http/1.1" ∷ []))
    × ((configure (manager_options auth flags).webhook_server.tls_opts tls).next_protos
        ≡ (if flags.enable_http2 then tls.next_protos else "http/1.1" ∷ []))
    × (((manager_options auth flags).metrics.filter_provider ≡ some auth)
        ↔ ((manager_options auth flags).metrics.secure_serving ≡ true))
manager_options_lem_example = manager_options_lem auth flags tls
