-- ===== src/Model.antt =====
-- internal/model/event.go: the data that the components exchange. `F` is the type of `float64`.
-- An instant (time.Time) is the number of nanoseconds since Go's zero time. A nil slice and an
-- empty one are both `[]`; a nil map is `none`.
use ghost_guard.Prelude.{String, Bool, Option, List}
use ghost_guard.Prelude.Int.{ℤ}
use ghost_guard.Dict.{Dict}

-- A value that `encoding/json` decodes into `interface{}`; `obj` is `map[string]interface{}`.
mutual
  pub data Json (F : Type 0) : Type 0 where
    null : Json F
    bool : Bool → Json F
    num : F → Json F
    str : String → Json F
    arr : Items F → Json F
    obj : Fields F → Json F

  pub data Items (F : Type 0) : Type 0 where
    nil : Items F
    cons : Json F → Items F → Items F

  pub data Fields (F : Type 0) : Type 0 where
    end : Fields F
    field : String → Json F → Fields F → Fields F

-- map[string]interface{}
abbrev pub Args : Type 0 → Type 0
Args F = Option (Fields F)

pub record ToolCall (F : Type 0) : Type 0 where
  pub id : String
  pub name : String
  pub arguments : Args F
  pub raw_args : String

pub record ToolResult : Type 0 where
  pub tool_call_id : String
  pub content : String
  pub is_error : Bool

-- DecisionAction
pub data Action : Type 0 where
  allow deny log : Action

-- The string that an action is.
unfoldable pub action_string : Action → String
action_string allow = "allow"
action_string deny = "deny"
action_string log = "log"

pub record PolicyDecision : Type 0 where
  pub action : Action
  pub policy_name : String
  pub reason : String
  pub timestamp : ℤ

pub data AnomalyType : Type 0 where
  high_rate high_entropy unknown_tool suspicious_seq : AnomalyType

unfoldable pub anomaly_string : AnomalyType → String
anomaly_string high_rate = "high_rate"
anomaly_string high_entropy = "high_entropy"
anomaly_string unknown_tool = "unknown_tool"
anomaly_string suspicious_seq = "suspicious_sequence"

pub record Anomaly (F : Type 0) : Type 0 where
  pub kind : AnomalyType  -- Type
  pub tool_call : ToolCall F
  pub score : F
  pub threshold : F
  pub description : String
  pub timestamp : ℤ
  pub details : Option String  -- json.RawMessage

pub data Severity : Type 0 where
  info warning critical : Severity

unfoldable pub severity_string : Severity → String
severity_string info = "info"
severity_string warning = "warning"
severity_string critical = "critical"

pub record Alert (F : Type 0) : Type 0 where
  pub id : String
  pub severity : Severity
  pub source : String
  pub title : String
  pub message : String
  pub anomaly : Option (Anomaly F)
  pub decision : Option PolicyDecision
  pub timestamp : ℤ
  pub metadata : Option (Dict String)

pub record InterceptionEvent (F : Type 0) : Type 0 where
  pub id : String
  pub method : String
  pub path : String
  pub host : String
  pub tool_calls : List (ToolCall F)
  pub tool_results : List ToolResult
  pub decisions : List PolicyDecision
  pub anomalies : List (Anomaly F)
  pub alerts : List (Alert F)
  pub request_size : ℤ  -- int
  pub response_size : ℤ  -- int
  pub duration : ℤ
  pub timestamp : ℤ
  pub upstream_status : ℤ  -- int
