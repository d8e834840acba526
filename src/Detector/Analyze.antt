-- ===== src/Detector/Analyze.antt =====
-- internal/detector/detector.go: the four checks of a tool call. A method that changes `*Detector`
-- returns the new record; `at i` is the reading of the clock that the check numbered `i` takes, and
-- `order i` the order of its `i`th `range` over a map.
pub mod Tools
pub mod Sequence
pub mod Checks
use ghost_guard.Prelude.{
  ℕ, String, Bool, true, false, not, ◌&&◌, Option, none, some, List, [], ◌∷◌, ◌++◌, ◌==◌, ◌&◌,
  if◌then◌else◌, length, drop, any,
}
use ghost_guard.Prelude.Int.{ℤ, pos, ltb_ℤ}
use ghost_guard.Dict.{Dict, lookup, insert, get_or}
use ghost_guard.Model.{
  Json, num, str, obj, end, field, ToolCall, Anomaly, AnomalyType, high_rate, high_entropy,
  unknown_tool, suspicious_seq,
}
use ghost_guard.Runtime.{Runtime}
use ghost_guard.Detector.Window.{SlidingWindow, new_sliding_window, record_call}
use ghost_guard.Detector.Baseline.{Baseline, new_baseline, update, z_score}
use ghost_guard.Detector.Entropy.{shannon_entropy, suspicious_entropy_level}
use ghost_guard.Detector.Persist.{BaselineData, ReadFile, new_persistent_baseline}

pub record DetectorConfig (F : Type 0) : Type 0 where
  pub rate_threshold : F
  pub entropy_threshold : F
  pub window_interval : ℤ
  pub window_max_age : ℤ
  pub max_prev_tools : ℤ  -- int
  pub baseline_path : String

pub record Detector (F : Type 0) : Type 0 where
  pub rate_baseline : Baseline F
  pub window : SlidingWindow
  pub known_tools : Dict Bool
  pub previous_tools : List String
  pub config : DetectorConfig F

-- dangerousSequences
unfoldable pub dangerous_sequences : Dict (List String)
dangerous_sequences =
    ("exec", "read_file" ∷ "get_config" ∷ "list_files" ∷ [])
    ∷ ("file_write", "read_file" ∷ "list_files" ∷ [])
    ∷ ("shell", "read_file" ∷ "get_config" ∷ [])
    ∷ ("bash", "read_file" ∷ "get_config" ∷ [])
    ∷ ("http_request", "read_file" ∷ [])
    ∷ []

-- The two loops of `checkSuspiciousSequence`: the first earlier tool that is among the dangerous ones.
unfoldable pub find_dangerous : List String → List String → Option String
find_dangerous dangerous [] = none
find_dangerous dangerous (p ∷ prev) =
    if any (λ dp. p == dp) dangerous then some p else find_dangerous dangerous prev

-- The tool that makes a call of `name` suspicious.
unfoldable pub suspicious_prev : String → List String → Option String
suspicious_prev name prev = elim (lookup name dangerous_sequences) [
  | none ↦ none
  | some dangerous ↦ find_dangerous dangerous prev
]

-- `append(d.previousTools, name)`, cut at the front when it is too long
unfoldable pub push_tool : ℤ → String → List String → List String
push_tool max name prev =
    let longer = prev ++ name ∷ [] in
    if ltb_ℤ max (pos (length longer)) then drop 1 longer else longer

abbrev pub to_list {ℓ} : {A : Type ℓ} → Option A → List A
to_list none = []
to_list (some a) = a ∷ []

module _ {F : Type 0} where
  unfoldable pub record_tool : ToolCall F → Detector F → Detector F
  unfolding push_tool
  record_tool tc d = record d {
    known_tools = insert tc.name true d.known_tools;
    previous_tools = push_tool d.config.max_prev_tools tc.name d.previous_tools;
  }

module _ {F : Type 0} (rt : Runtime F) where
  open rt use {of_int, tenths, lt, fixed, sprint_args, rfc3339, marshal}

  unfoldable pub default_config : DetectorConfig F
  default_config = record {
    rate_threshold = tenths (pos 30);
    entropy_threshold = tenths (pos 40);
    window_interval = pos 60000000000;
    window_max_age = pos 300000000000;
    max_prev_tools = pos 10;
    baseline_path = "";
  }

  -- NewDetector; `file` is what reading config.BaselinePath gives.
  unfoldable pub new_detector :
      (String → Option (BaselineData F)) → ℤ → ReadFile → DetectorConfig F → Detector F
  unfolding new_persistent_baseline new_baseline new_sliding_window
  new_detector parse now file config = record {
    rate_baseline =
        if config.baseline_path == ""
        then new_baseline rt
        else elim (new_persistent_baseline rt parse now file) [
          | none ↦ new_baseline rt
          | some b ↦ b
        ];
    window = new_sliding_window config.window_interval config.window_max_age;
    known_tools = [];
    previous_tools = [];
    config = config;
  }

  -- json.Marshal of the details of a rate anomaly
  abbrev rate_details : ℤ → F → F → Option String
  rate_details count zscore mean = marshal (
      obj (
        field "count" (num (of_int count))
          (field "zscore" (num zscore) (field "mean" (num mean) end))))

  unfoldable pub check_rate : (ℕ → ℤ) → ToolCall F → Detector F → Detector F × Option (Anomaly F)
  unfolding record_call update z_score
  check_rate at tc d =
      let (window, count) = record_call rfc3339 (at 0) tc.name d.window in
      let baseline = update rt (at 1) (of_int count) d.rate_baseline in
      let zscore = z_score rt (of_int count) baseline in
      let d' = record d { window = window; rate_baseline = baseline } in
      if ltb_ℤ baseline.count (pos 10)
      then (d', none)
      else if lt d.config.rate_threshold zscore
      then (
        d',
        some (record {
          kind = high_rate;
          tool_call = tc;
          score = zscore;
          threshold = d.config.rate_threshold;
          description =
              "unusual call rate for tool '"
              & tc.name
              & "': "
              & fixed 1 zscore
              & "σ above baseline";
          timestamp = at 2;
          details = rate_details count zscore baseline.mean;
        }),
      )
      else (d', none)

  module _ (order : ℕ → List ℤ → List ℤ) where
    unfoldable pub check_entropy : (ℕ → ℤ) → ToolCall F → Detector F → Option (Anomaly F)
    unfolding shannon_entropy suspicious_entropy_level
    check_entropy at tc d =
        let args = sprint_args tc.arguments in
        let entropy = shannon_entropy rt (order 0) args in
        if lt d.config.entropy_threshold entropy
        then some (record {
          kind = high_entropy;
          tool_call = tc;
          score = entropy;
          threshold = d.config.entropy_threshold;
          description =
              "high entropy in arguments for tool '"
              & tc.name
              & "': "
              & fixed 2 entropy
              & " (possible exfiltration)";
          timestamp = at 3;
          details = marshal (
              obj (
                field "entropy" (num entropy)
                  (field "level" (str (suspicious_entropy_level rt (order 1) args)) end)));
        })
        else none

  unfoldable pub check_unknown_tool : (ℕ → ℤ) → ToolCall F → Detector F → Option (Anomaly F)
  unfolding get_or lookup
  check_unknown_tool at tc d =
      let known = get_or false tc.name d.known_tools in
      if not known && ltb_ℤ (pos 5) d.rate_baseline.count
      then some (record {
        kind = unknown_tool;
        tool_call = tc;
        score = tenths (pos 10);
        threshold = tenths (pos 0);
        description = "unknown tool detected: '" & tc.name & "'";
        timestamp = at 4;
        details = none;
      })
      else none

  unfoldable pub check_suspicious_sequence : (ℕ → ℤ) → ToolCall F → Detector F → Option (Anomaly F)
  unfolding suspicious_prev
  check_suspicious_sequence at tc d = elim (suspicious_prev tc.name d.previous_tools) [
    | none ↦ none
    | some p ↦ some (record {
      kind = suspicious_seq;
      tool_call = tc;
      score = tenths (pos 10);
      threshold = tenths (pos 0);
      description = "suspicious sequence: '" & tc.name & "' after '" & p & "'";
      timestamp = at 5;
      details = none;
    })
  ]

  unfoldable pub analyze :
      (ℕ → List ℤ → List ℤ) → (ℕ → ℤ) → ToolCall F → Detector F → Detector F × List (Anomaly F)
  unfolding check_rate check_entropy check_unknown_tool check_suspicious_sequence record_tool
  analyze order at tc d =
      let (d1, rate) = check_rate at tc d in
      (
        record_tool tc d1,
        to_list rate
            ++ (to_list (check_entropy order at tc d1)
                ++ (to_list (check_unknown_tool at tc d1)
                    ++ to_list (check_suspicious_sequence at tc d1))),
      )
