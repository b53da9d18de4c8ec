-- ===== src/Tests/Processes.antt =====
-- Examples of the processes around the services: the application, the log files and the command line.
use kd.Base.{
  ℕ, ◌+◌, ◌≡◌, refl, inl, false, some, List, [], ◌∷◌, ◌++◌, map, reverse, length, Text, lit, pos,
  to_string, ok, arith,
}
use kd.Api.{status_ok, no_entry, no_profile, Status, unknown}
use kd.Application.{
  Application, new_application, Event, signal, main_thread, spurious_wake, step, run, main_steps,
  stopped, blocked, about_to_block,
}
use kd.Application.Shutdown.{stopped_orderly, signal_stops, signal_lost}
use kd.Log.DailySink.{DailySink, new_daily_sink}
use kd.Log.DailySink.Days.{line_for, sink_all, messages_by_day}
use kd.Services.Config.{serialize_entry}
use kd.Services.Config.Publish.{publish_config, versioned}
use kd.GrpcCli.{Services, printed, cli_main, shown_entry}
use kd.GrpcCli.EndToEnd.{config_service, publish_command, get_command, commanded, config_round_trip}
use kd.Tests.Encoding.{toy_json, toy_laws}
use kd.Tests.Serving.{configs}

abbrev hooks : List ℕ
hooks = 1 ∷ 2 ∷ []

-- A wake-up for no reason, a signal while the thread is blocked, and a second one.
abbrev events : List Event
events =
    main_thread ∷ main_thread ∷ spurious_wake ∷ main_thread ∷ main_thread ∷ signal ∷ main_thread
    ∷ signal ∷ main_thread ∷ main_thread ∷ main_thread ∷ []

stopped_orderly_example :
    ((run events (new_application hooks)).g_running ≡ false)
    × ((run events (new_application hooks)).executed ≡ reverse hooks)
unfolding new_application step
stopped_orderly_example = stopped_orderly events hooks refl

abbrev waiting : Application
waiting = record (new_application hooks) { phase = blocked }

signal_stops_example :
    ((run (signal ∷ main_steps (length waiting.shutdown_hooks + 2)) waiting).phase ≡ stopped)
    × ((run (signal ∷ main_steps (length waiting.shutdown_hooks + 2)) waiting).executed
        ≡ waiting.executed ++ reverse waiting.shutdown_hooks)
signal_stops_example = signal_stops waiting (inl refl)

abbrev unlucky : Application
unlucky = record (new_application hooks) { phase = about_to_block }

signal_lost_example :
    run (signal ∷ main_steps 6) unlucky ≡ record unlucky { g_running = false; phase = blocked }
signal_lost_example = signal_lost 5 unlucky refl

abbrev sink : DailySink
sink = new_daily_sink (lit "logs") (lit "user_service") 0 0 (some (lit "%v"))

abbrev messages : List (Text × Text)
messages =
    (lit "2024-01-01", lit "a") ∷ (lit "2024-01-01", lit "b") ∷ (lit "2024-01-02", lit "c") ∷ []

messages_by_day_example :
    (sink_all (lit "%+") messages sink).lines ≡ [] ++ map (line_for sink) messages
unfolding new_daily_sink
messages_by_day_example = messages_by_day (lit "%+") (lit "%v") messages sink refl tt

abbrev no_services : Services
no_services = record {
  get_config = λ target metadata request. (status_ok, no_entry);
  batch_get_config = λ target metadata request. (status_ok, []);
  publish_config = λ target metadata request. (status_ok, pos 0);
  watch_config = λ target metadata request. (status_ok, []);
  get_user = λ target metadata request. (status_ok, no_profile);
  create_user = λ target metadata request. (status_ok, no_profile);
  create_room = λ target metadata request. (status_ok, []);
  join_room = λ target metadata request. (status_ok, false);
}

abbrev unhandled : Text → Status
unhandled what = record { code = unknown; message = what }

config_round_trip_example :
    (cli_main toy_json
        (λ t. ok t)
        (config_service toy_json unhandled 5 no_services configs)
        (publish_command (lit "ns") (lit "k") (lit "v"))
      ≡ ok (printed (lit "published version=" ++ to_string (pos 7))))
    × (cli_main toy_json
          (λ t. ok t)
          (config_service toy_json unhandled 5 no_services
            (publish_config toy_json (commanded (lit "ns") (lit "k") (lit "v")) configs).1)
          (get_command (lit "ns") (lit "k"))
        ≡ ok (
            printed (
              shown_entry toy_json
                (λ t. ok t)
                no_services
                (versioned (commanded (lit "ns") (lit "k") (lit "v")) 7))))
unfolding publish_config serialize_entry lit
config_round_trip_example =
    config_round_trip toy_json toy_laws unhandled (λ t. ok t) no_services 5 (lit "ns") (lit "k")
      (lit "v")
      (shown_entry toy_json (λ t. ok t) no_services
        (versioned (commanded (lit "ns") (lit "k") (lit "v")) 7))
      configs refl refl (ground arith) (λ e. absurd (cc e)) refl refl
