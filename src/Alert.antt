-- ===== src/Alert.antt =====
-- internal/alert: the alerts, and the sinks that they are sent to. A call returns the deliveries
-- that it makes, in their order, beside its error; what the world answers to a delivery is the
-- record `Outside`.
pub mod Laws
use ghost_guard.Prelude.{
  ℕ, String, Bool, true, false, Option, none, some, List, [], ◌∷◌, ◌++◌, if◌then◌else◌, ◌&◌,
}
use ghost_guard.Prelude.Int.{ℤ, pos, ◌-ℤ◌, wrap64, leb_ℤ}
use ghost_guard.Model.{
  Alert, Anomaly, PolicyDecision, Action, allow, deny, log, Severity, info, warning, critical,
  severity_string, anomaly_string,
}
use ghost_guard.Runtime.{Runtime}

-- StdoutSink, WebhookSink and SlackSink, with their fields.
pub data Sink : Type 0 where
  stdout_sink : Sink
  webhook_sink : (url : String) → Sink
  slack_sink : (webhook_url channel : String) → Sink

-- slackMessage, slackBlock and slackText
pub record SlackText : Type 0 where
  pub kind : String  -- Type
  pub text : String

pub record SlackBlock : Type 0 where
  pub kind : String  -- Type
  pub text : SlackText

pub record SlackMessage : Type 0 where
  pub channel : String
  pub text : String
  pub blocks : List SlackBlock

pub data SendError : Type 0 where
  marshaling sending writing : SendError
  status : ℤ → String → SendError

-- http.Client.Post: an error, or a status and a body.
pub data PostResult : Type 0 where
  failed : PostResult
  answered : ℤ → String → PostResult

pub record Outside (F : Type 0) : Type 0 where
  pub marshal_alert : Alert F → Option String
  pub marshal_slack : SlackMessage → Option String
  pub post : String → String → PostResult
  pub write_ok : String → Bool

-- What a sink hands to the world: a line to the writer, or a payload to a URL.
pub data Delivery : Type 0 where
  printed : String → Delivery
  posted : (url payload : String) → Delivery

-- `resp.StatusCode >= 300`
unfoldable pub check_post : PostResult → Option SendError
check_post failed = some sending
check_post (answered code body) = if leb_ℤ (pos 300) code then some (status code body) else none

-- `if err != nil { lastErr = err }`
abbrev pub or_last : Option SendError → Option SendError → Option SendError
or_last none last = last
or_last (some e) last = some e

module _ {F : Type 0} where
  unfoldable pub slack_message : String → Alert F → SlackMessage
  unfolding severity_string
  slack_message channel alert = record {
    channel = channel;
    text = "[" & severity_string alert.severity & "] " & alert.title & ": " & alert.message;
    blocks =
        record {
          kind = "section";
          text = record {
            kind = "mrkdwn";
            text =
                "*"
                & alert.title
                & "*\n"
                & alert.message
                & "\nSeverity: "
                & severity_string alert.severity
                & " | Source: "
                & alert.source;
          };
        }
        ∷ [];
  }

  module _ (o : Outside F) where
    -- `HTTPClient.Post` and what follows it
    unfoldable pub post_to : String → Option String → List Delivery × Option SendError
    unfolding check_post
    post_to url none = ([], some marshaling)
    post_to url (some payload) = (posted url payload ∷ [], check_post (o.post url payload))

    unfoldable pub print_line : Severity → Option String → List Delivery × Option SendError
    unfolding severity_string
    print_line severity none = ([], some marshaling)
    print_line severity (some text) =
        let line = "[ALERT][" & severity_string severity & "] " & text & "\n" in
        (printed line ∷ [], if o.write_ok line then none else some writing)

    -- Send
    unfoldable pub send : Sink → Alert F → List Delivery × Option SendError
    unfolding post_to print_line slack_message
    send stdout_sink alert = print_line alert.severity (o.marshal_alert alert)
    send (webhook_sink url) alert = post_to url (o.marshal_alert alert)
    send (slack_sink url channel) alert =
        post_to url (o.marshal_slack (slack_message channel alert))

    -- The loop of `Alert`, with `lastErr`.
    unfoldable pub alert_from :
        List Sink → Alert F → Option SendError → List Delivery × Option SendError
    unfolding send
    alert_from [] alert last = ([], last)
    alert_from (sink ∷ sinks) alert last =
        let (sent, e) = send sink alert in
        let (later, last') = alert_from sinks alert (or_last e last) in (sent ++ later, last')

    unfoldable pub alert_all : List Sink → Alert F → List Delivery × Option SendError
    unfolding alert_from
    alert_all sinks alert = alert_from sinks alert none

-- time.Now().UnixNano(): the int64 of the nanoseconds since 1970
unfoldable pub unix_nano : ℤ → ℤ
unfolding ◌-ℤ◌ wrap64
unix_nano t = wrap64 (t -ℤ pos 62135596800000000000)

module _ {F : Type 0} (rt : Runtime F) where
  unfoldable pub severity_of : Anomaly F → Severity
  severity_of a =
      if rt.lt (rt.mul a.threshold (rt.of_int (pos 2))) a.score then critical else warning

  -- The alert of AlertAnomaly; `at` gives its two readings of the clock.
  unfoldable pub anomaly_alert : (ℕ → ℤ) → Anomaly F → Alert F
  unfolding severity_of unix_nano anomaly_string
  anomaly_alert at a = record {
    id = "anomaly-" & rt.decimal (unix_nano (at 0));
    severity = severity_of a;
    source = "detector";
    title = "Anomaly: " & anomaly_string a.kind;
    message = a.description;
    anomaly = some a;
    decision = none;
    timestamp = at 1;
    metadata = none;
  }

  unfoldable pub decision_alert : (ℕ → ℤ) → PolicyDecision → Alert F
  unfolding unix_nano
  decision_alert at d = record {
    id = "policy-deny-" & rt.decimal (unix_nano (at 0));
    severity = warning;
    source = "policy";
    title = "Policy Deny: " & d.policy_name;
    message = d.reason;
    anomaly = none;
    decision = some d;
    timestamp = at 1;
    metadata = none;
  }

  module _ (o : Outside F) where
    unfoldable pub alert_anomaly :
        List Sink → (ℕ → ℤ) → Anomaly F → List Delivery × Option SendError
    unfolding alert_all anomaly_alert
    alert_anomaly sinks at a = alert_all o sinks (anomaly_alert at a)

    unfoldable pub alert_decision :
        List Sink → (ℕ → ℤ) → PolicyDecision → List Delivery × Option SendError
    unfolding alert_all decision_alert
    alert_decision sinks at d = elim d.action [
      | deny ↦ alert_all o sinks (decision_alert at d)
      | _ ↦ ([], none)
    ]
