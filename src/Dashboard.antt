-- ===== src/Dashboard.antt =====
-- internal/dashboard/dashboard.go: the counters, the clients of the event stream, and the pages. A
-- method that changes `*Dashboard` returns the new record. The two mutexes make each call a step.
pub mod Counters
pub mod Totals
pub mod Clients
pub mod Pages
use ghost_guard.Prelude.{
  ℕ, String, Bool, true, false, Option, none, some, List, [], ◌∷◌, ◌++◌, map, if◌then◌else◌, ◌&◌,
  ◌==◌, ◌||◌, length, ltb, eqb,
}
use ghost_guard.Prelude.Int.{ℤ, pos, add64, wrap64}
use ghost_guard.Dict.{Dict, get_or, insert, lookup}
use ghost_guard.Model.{
  InterceptionEvent, ToolCall, PolicyDecision, Action, allow, deny, log, action_string,
}

pub record Metrics : Type 0 where
  pub total_requests : ℤ  -- int64, as all counters
  pub total_tool_calls : ℤ
  pub denied_calls : ℤ
  pub allowed_calls : ℤ
  pub anomalies_detected : ℤ
  pub tool_counts : Dict ℤ
  pub policy_decisions : Dict ℤ
  pub last_activity : ℤ
  pub start_time : ℤ

-- A client of the stream: the channel's identity, and the events in its buffer, the oldest first.
pub record Client (F : Type 0) : Type 0 where
  pub channel : ℕ
  pub buffer : List (InterceptionEvent F)

pub record Dashboard (F : Type 0) : Type 0 where
  pub metrics : Metrics
  pub clients : List (Client F)

unfoldable pub new_dashboard : {F : Type 0} → ℤ → Dashboard F
new_dashboard now = record {
  metrics = record {
    total_requests = pos 0;
    total_tool_calls = pos 0;
    denied_calls = pos 0;
    allowed_calls = pos 0;
    anomalies_detected = pos 0;
    tool_counts = [];
    policy_decisions = [];
    last_activity = pos 0;
    start_time = now;
  };
  clients = [];
}

-- `int64(len(l))`
unfoldable pub len64 {ℓ} : {A : Type ℓ} → List A → ℤ
len64 l = wrap64 (pos (length l))

-- `m[key]++`
unfoldable pub increment : String → Dict ℤ → Dict ℤ
increment key m = insert key (add64 (get_or (pos 0) key m) (pos 1)) m

unfoldable pub count_tools : {F : Type 0} → List (ToolCall F) → Dict ℤ → Dict ℤ
count_tools [] m = m
count_tools (tc ∷ tcs) m = count_tools tcs (increment tc.name m)

-- A round of the loop over the decisions.
unfoldable pub count_decision : Action → Metrics → Metrics
count_decision deny m = record m {
  policy_decisions = increment (action_string deny) m.policy_decisions;
  denied_calls = add64 m.denied_calls (pos 1);
}
count_decision allow m = record m {
  policy_decisions = increment (action_string allow) m.policy_decisions;
  allowed_calls = add64 m.allowed_calls (pos 1);
}
count_decision log m = record m {
  policy_decisions = increment (action_string log) m.policy_decisions;
}

unfoldable pub count_decisions : List PolicyDecision → Metrics → Metrics
count_decisions [] m = m
count_decisions (d ∷ ds) m = count_decisions ds (count_decision d.action m)

-- `make(chan model.InterceptionEvent, 100)`
abbrev pub capacity : ℕ
capacity = 100

module _ {F : Type 0} where
  -- `select { case ch <- *event: default: }`
  unfoldable pub offer : InterceptionEvent F → Client F → Client F
  offer event c =
      if ltb (length c.buffer) capacity then record c { buffer = c.buffer ++ event ∷ [] } else c

  unfoldable pub record_metrics : ℤ → InterceptionEvent F → Metrics → Metrics
  record_metrics now event m = count_decisions event.decisions (record m {
    total_requests = add64 m.total_requests (pos 1);
    total_tool_calls = add64 m.total_tool_calls (len64 event.tool_calls);
    anomalies_detected = add64 m.anomalies_detected (len64 event.anomalies);
    last_activity = now;
    tool_counts = count_tools event.tool_calls m.tool_counts;
  })

  -- RecordEvent
  unfoldable pub record_event : ℤ → InterceptionEvent F → Dashboard F → Dashboard F
  record_event now event d = record {
    metrics = record_metrics now event d.metrics;
    clients = map (offer event) d.clients;
  }

  -- GetMetrics: a copy, so that a later change of the dashboard does not reach it.
  abbrev pub get_metrics : Dashboard F → Metrics
  get_metrics d = d.metrics

  -- handleSSE: what it does to the clients when it begins and when it ends.
  unfoldable pub subscribe : ℕ → Dashboard F → Dashboard F
  subscribe channel d = record d { clients = record { channel = channel; buffer = [] } ∷ d.clients }

  unfoldable pub without : ℕ → List (Client F) → List (Client F)
  without channel [] = []
  without channel (c ∷ cs) =
      let rest = without channel cs in if eqb c.channel channel then rest else c ∷ rest

  unfoldable pub unsubscribe : ℕ → Dashboard F → Dashboard F
  unfolding without
  unsubscribe channel d = record d { clients = without channel d.clients }

  abbrev pub drop_first : List (InterceptionEvent F) → List (InterceptionEvent F)
  drop_first [] = []
  drop_first (e ∷ es) = es

  -- `event := <-eventCh`, in a round of its loop: the oldest event leaves the buffer.
  unfoldable pub receive_from : ℕ → List (Client F) → List (Client F)
  receive_from channel cs =
      map (λ c. if eqb c.channel channel then record c { buffer = drop_first c.buffer } else c) cs

  unfoldable pub receive : ℕ → Dashboard F → Dashboard F
  unfolding receive_from
  receive channel d = record d { clients = receive_from channel d.clients }

-- The pages that ServeHTTP tells apart.
pub data Page : Type 0 where
  metrics_page prometheus_page events_page health_page index_page not_found : Page

unfoldable pub route : String → Page
route path =
    if path == "/metrics"
    then metrics_page
    else if path == "/prometheus"
    then prometheus_page
    else if path == "/events"
    then events_page
    else if path == "/health"
    then health_page
    else if path == "/" || path == "/index.html"
    then index_page
    else not_found

-- The lines of handlePrometheus; `decimal` is formatInt64.
module _ (decimal : ℤ → String) where
  abbrev pub counter_lines : String → String → ℤ → List String
  counter_lines name help n =
      ("# HELP " & name & " " & help)
      ∷ ("# TYPE " & name & " counter")
      ∷ (name & " " & decimal n)
      ∷ []

  unfoldable pub labelled_lines : String → String → String → Dict ℤ → List String
  labelled_lines name help label [] = []
  labelled_lines name help label ((key, n) ∷ m) =
      ("# HELP " & name & " " & help)
      ∷ ("# TYPE " & name & " counter")
      ∷ (name & "{" & label & "=\"" & key & "\"} " & decimal n)
      ∷ labelled_lines name help label m

  unfoldable pub prometheus_lines : Metrics → List String
  unfolding labelled_lines
  prometheus_lines m =
      counter_lines "ghostguard_requests_total" "Total number of requests" m.total_requests
      ++ (counter_lines "ghostguard_tool_calls_total" "Total number of tool calls"
            m.total_tool_calls
          ++ (counter_lines "ghostguard_denied_total" "Total number of denied calls" m.denied_calls
              ++ (counter_lines "ghostguard_allowed_total" "Total number of allowed calls"
                    m.allowed_calls
                  ++ (counter_lines "ghostguard_anomalies_total"
                        "Total number of anomalies detected" m.anomalies_detected
                      ++ (labelled_lines "ghostguard_tool_calls_by_name" "Tool calls by tool name"
                            "tool" m.tool_counts
                          ++ labelled_lines "ghostguard_policy_decisions_total"
                              "Policy decisions by action" "action" m.policy_decisions)))))
