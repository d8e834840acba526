-- ===== src/Audit.antt =====
-- internal/audit/logger.go: the audit log, as the entries that have been written, the oldest first.
-- `write` says what the encoder answers for an entry: nothing, or the text of an error.
use ghost_guard.Prelude.{String, Option, none, some, List, [], ◌∷◌, ◌++◌, ◌&◌}
use ghost_guard.Prelude.Int.{ℤ}
use ghost_guard.Model.{InterceptionEvent, Alert, PolicyDecision, action_string, severity_string}
use ghost_guard.Runtime.{Runtime}

pub record LogEntry (F : Type 0) : Type 0 where
  pub timestamp : String
  pub level : String
  pub event : Option (InterceptionEvent F)
  pub alert : Option (Alert F)
  pub message : String

pub record Logger (F : Type 0) : Type 0 where
  pub written : List (LogEntry F)
  pub write : LogEntry F → Option String

-- The result of a method: the logger, and the text of its error.
abbrev pub Logged : Type 0 → Type 0
Logged F = Logger F × Option String

unfoldable pub encode : {F : Type 0} → LogEntry F → Logger F → Logged F
encode entry l = elim (l.write entry) [
  | none ↦ (record l { written = l.written ++ entry ∷ [] }, none)
  | some e ↦ (l, some e)
]

-- NewLogger
unfoldable pub new_logger : {F : Type 0} → (LogEntry F → Option String) → Logger F
new_logger write = record { written = []; write = write }

module _ {F : Type 0} (rt : Runtime F) where
  unfoldable pub event_entry : ℤ → InterceptionEvent F → LogEntry F
  event_entry now event = record {
    timestamp = rt.rfc3339_nano now;
    level = "info";
    event = some event;
    alert = none;
    message = "intercepted " & event.method & " " & event.path & " on " & event.host;
  }

  unfoldable pub log_event : ℤ → InterceptionEvent F → Logger F → Logged F
  unfolding encode event_entry
  log_event now event l = encode (event_entry now event) l

  unfoldable pub alert_entry : ℤ → Alert F → LogEntry F
  unfolding severity_string
  alert_entry now alert = record {
    timestamp = rt.rfc3339_nano now;
    level = severity_string alert.severity;
    event = none;
    alert = some alert;
    message = alert.message;
  }

  unfoldable pub log_alert : ℤ → Alert F → Logger F → Logged F
  unfolding encode alert_entry
  log_alert now alert l = encode (alert_entry now alert) l

  unfoldable pub decision_entry : ℤ → PolicyDecision → LogEntry F
  unfolding action_string
  decision_entry now d = record {
    timestamp = rt.rfc3339_nano now;
    level = action_string d.action;
    event = none;
    alert = none;
    message = "policy " & d.policy_name & ": " & action_string d.action & " - " & d.reason;
  }

  unfoldable pub log_decision : ℤ → PolicyDecision → Logger F → Logged F
  unfolding encode decision_entry
  log_decision now d l = encode (decision_entry now d) l

  unfoldable pub message_entry : ℤ → String → String → LogEntry F
  message_entry now level msg = record {
    timestamp = rt.rfc3339_nano now;
    level = level;
    event = none;
    alert = none;
    message = msg;
  }

  -- Every caller drops the error.
  unfoldable pub log_message : ℤ → String → String → Logger F → Logger F
  unfolding encode message_entry
  log_message now level msg l = (encode (message_entry now level msg) l).0
