-- ===== src/Tests/Outputs.antt =====
-- internal/alert and internal/dashboard: an alert to a line and to a webhook, and a dashboard that
-- records an event.
use ghost_guard.Prelude.{
  ◌≡◌, refl, Option, List, [], ◌∷◌, true, false, any, is_some, length, some, ◌++◌, arith,
}
use ghost_guard.Prelude.Int.{pos, ℤ}
use ghost_guard.Model.{Alert, InterceptionEvent}
use ghost_guard.Alert.{send, alert_all, decision_alert}
use ghost_guard.Alert.Laws.{deliveries, alert_all-deliveries}
use ghost_guard.Policy.Engine.{default_decision}
use ghost_guard.Dashboard.{new_dashboard, subscribe}
use ghost_guard.Dashboard.Counters.{Shows}
use ghost_guard.Dashboard.Totals.{
  all_tool_calls, all_decisions, anomaly_count, record_all, record_all-new_dashboard-Shows,
}
use ghost_guard.Dashboard.Clients.{
  Happening, recorded, joined, reads, left, happen_all, waiting, received, KeepsUp,
  happen_all-subscribe,
}
use ghost_guard.Dashboard.Pages.{no_stream, serve_path}
use ghost_guard.Tests.World.{runtime, outside, sinks, event, dashboard}

abbrev denial : Alert ghost_guard.Prelude.Int.ℤ
denial = decision_alert runtime pos (default_decision (pos 3))

alert_all-deliveries_example :
    ((alert_all outside sinks denial).0 ≡ deliveries outside denial sinks)
    × (is_some (alert_all outside sinks denial).1
        ≡ any (λ sink. is_some (send outside sink denial).1) sinks)
alert_all-deliveries_example = alert_all-deliveries outside denial sinks

record_all-new_dashboard-Shows_example :
    Shows
      (length (event "shell" ∷ []))
      (all_tool_calls (event "shell" ∷ []))
      (anomaly_count (event "shell" ∷ []))
      (all_decisions (event "shell" ∷ []))
      (record_all pos (event "shell" ∷ []) (new_dashboard (pos 0))).metrics
record_all-new_dashboard-Shows_example =
    record_all-new_dashboard-Shows pos (pos 0) (event "shell" ∷ [])

-- Between two readings of client 0 another one joins, and after the second it leaves.
abbrev happenings : List (Happening ℤ)
happenings =
    recorded (pos 1) (event "shell")
    ∷ reads 0
    ∷ joined 1
    ∷ recorded (pos 2) (event "ping")
    ∷ recorded (pos 3) (event "shell")
    ∷ reads 0
    ∷ left 1
    ∷ []

happenings-KeepsUp : KeepsUp 0 0 happenings
happenings-KeepsUp = (omega arith, (refl, (omega arith, (omega arith, (refl, tt)))))

happen_all-subscribe_example :
    (rest : List (InterceptionEvent ℤ)) × (waiting 0
        (happen_all happenings (subscribe 0 dashboard)).clients
      ≡ some rest)
    × (received 0 happenings (subscribe 0 dashboard) ++ rest
        ≡ event "shell" ∷ event "ping" ∷ event "shell" ∷ [])
happen_all-subscribe_example = happen_all-subscribe 0 happenings dashboard happenings-KeepsUp

-- A writer that cannot flush gets no stream of events, and makes no client.
stream_test : serve_path runtime.decimal false 7 "/events" dashboard ≡ (dashboard, no_stream)
unfolding serve_path
stream_test = refl
