-- ===== src/Dashboard/Counters.antt =====
-- The counters against the events that were recorded. They are of 64 bits: each is `wrap64` of what
-- it has counted.
use mathlib.Core.List.{append_assoc, append-nil}
use ghost_guard.Prelude.{
  ℕ, ◌+◌, String, Bool, ◌≡◌, refl, sym, ◌∙◌, ap, List, [], ◌∷◌, ◌++◌, arith, ◌==◌, eq_iff,
  if◌then◌else◌, length, length-append, count_if, count_if-append, Bool-cases, inl, inr,
}
use ghost_guard.Prelude.Int.{ℤ, pos, add64, wrap64, add64-wrap64, add64-wrap64_one}
use ghost_guard.Dict.{Dict, get_or}
use ghost_guard.Dict.Laws.{get_or-insert}
use native.Mathlib.Nat.{add-zero, add_assoc}
use ghost_guard.Model.{
  InterceptionEvent, ToolCall, PolicyDecision, Action, allow, deny, log, action_string,
}
use ghost_guard.Dashboard.{
  Metrics, len64, increment, count_tools, count_decision, count_decisions, record_metrics,
}

abbrev pub is_action : Action → PolicyDecision → Bool
is_action a d = action_string d.action == action_string a

abbrev pub is_tool : {F : Type 0} → String → ToolCall F → Bool
is_tool name tc = tc.name == name

abbrev pub wrapped : ℕ → ℤ
wrapped n = wrap64 (pos n)

abbrev pub entry : String → Dict ℤ → ℤ
entry key m = get_or (pos 0) key m

entry-increment :
    (key j : String) (m : Dict ℤ) (n : ℕ)
    → entry j m ≡ wrapped n
    → entry j (increment key m) ≡ wrapped (n + (if key == j then 1 else 0))
unfolding increment
entry-increment key j m n h =
    get_or-insert (pos 0) (add64 (entry key m) (pos 1)) key j m ∙ elim (Bool-cases (key == j)) [
      | inl same ↦
          let e : entry key m ≡ wrapped n = rw ((eq_iff key j).0 same) h in
          rw same (ap (λ z. add64 z (pos 1)) e ∙ add64-wrap64_one n)
      | inr other ↦ rw (other, add-zero) h
    ]

entry-count_tools :
    {F : Type 0} (name : String) (tcs : List (ToolCall F)) (m : Dict ℤ) (n : ℕ)
    → entry name m ≡ wrapped n
    → entry name (count_tools tcs m) ≡ wrapped (n + count_if (is_tool name) tcs)
unfolding count_tools
entry-count_tools name [] m n h = h ∙ ap wrapped (sym (add-zero n))
entry-count_tools name (tc ∷ tcs) m n h =
    entry-count_tools name tcs (increment tc.name m) (n + (if tc.name == name then 1 else 0))
      (entry-increment tc.name name m n h)
    ∙ ap wrapped (add_assoc n (if tc.name == name then 1 else 0) (count_if (is_tool name) tcs))

add-count : (a : ℤ) (n k : ℕ) → a ≡ wrapped n → add64 a (wrapped k) ≡ wrapped (n + k)
add-count a n k h = ap (λ z. add64 z (wrapped k)) h ∙ add64-wrap64 n k

-- What `n` recorded events, with these tool calls, `k` anomalies and these decisions, are to show.
pub record Shows {F : Type 0} (n : ℕ) (tcs : List (ToolCall F)) (k : ℕ) (ds : List PolicyDecision)
    (m : Metrics) : Type 0 where
  pub requests : m.total_requests ≡ wrapped n
  pub tool_calls : m.total_tool_calls ≡ wrapped (length tcs)
  pub anomalies : m.anomalies_detected ≡ wrapped k
  pub denied : m.denied_calls ≡ wrapped (count_if (is_action deny) ds)
  pub allowed : m.allowed_calls ≡ wrapped (count_if (is_action allow) ds)
  pub tools : (name : String) → entry name m.tool_counts ≡ wrapped (count_if (is_tool name) tcs)
  pub decisions :
      (a : Action)
      → entry (action_string a) m.policy_decisions ≡ wrapped (count_if (is_action a) ds)

count_if-snoc :
    {A : Type 0} (p : A → Bool) (xs : List A) (x : A)
    → count_if p (xs ++ x ∷ []) ≡ count_if p xs + (if p x then 1 else 0)
count_if-snoc p xs x = omega (arith, count_if-append {0} p xs (x ∷ []))

-- A counter that goes up when the decision is one of `a`.
counter_step :
    (a : Action) (d : PolicyDecision) (ds : List PolicyDecision) (z : ℤ)
    → z ≡ wrapped (count_if (is_action a) ds)
    → (if is_action a d then add64 z (pos 1) else z)
      ≡ wrapped (count_if (is_action a) (ds ++ d ∷ []))
counter_step a d ds z h = elim (Bool-cases (is_action a d)) [
  | inl up ↦
      rw (up, count_if-snoc (is_action a) ds d, up)
        (ap (λ y. add64 y (pos 1)) h ∙ add64-wrap64_one (count_if (is_action a) ds))
  | inr same ↦ rw (same, count_if-snoc (is_action a) ds d, same, add-zero) h
]

decision_step :
    (a : Action) (d : PolicyDecision) (ds : List PolicyDecision) (m : Dict ℤ)
    → entry (action_string a) m ≡ wrapped (count_if (is_action a) ds)
    → entry (action_string a) (increment (action_string d.action) m)
      ≡ wrapped (count_if (is_action a) (ds ++ d ∷ []))
decision_step a d ds m h =
    entry-increment (action_string d.action) (action_string a) m (count_if (is_action a) ds) h
    ∙ ap wrapped (sym (count_if-snoc (is_action a) ds d))

-- The round of the loop, field by field.
record Round (a : Action) (m m' : Metrics) : Type 0 where
  denied : m'.denied_calls ≡ (
      if action_string a == action_string deny
      then add64 m.denied_calls (pos 1)
      else m.denied_calls)
  allowed : m'.allowed_calls ≡ (
      if action_string a == action_string allow
      then add64 m.allowed_calls (pos 1)
      else m.allowed_calls)
  decisions : m'.policy_decisions ≡ increment (action_string a) m.policy_decisions
  requests : m'.total_requests ≡ m.total_requests
  tool_calls : m'.total_tool_calls ≡ m.total_tool_calls
  anomalies : m'.anomalies_detected ≡ m.anomalies_detected
  tools : m'.tool_counts ≡ m.tool_counts

count_decision-Round : (a : Action) (m : Metrics) → Round a m (count_decision a m)
unfolding count_decision action_string
count_decision-Round allow m = record {
  denied = refl;
  allowed = refl;
  decisions = refl;
  requests = refl;
  tool_calls = refl;
  anomalies = refl;
  tools = refl;
}
count_decision-Round deny m = record {
  denied = refl;
  allowed = refl;
  decisions = refl;
  requests = refl;
  tool_calls = refl;
  anomalies = refl;
  tools = refl;
}
count_decision-Round log m = record {
  denied = refl;
  allowed = refl;
  decisions = refl;
  requests = refl;
  tool_calls = refl;
  anomalies = refl;
  tools = refl;
}

module _ {F : Type 0} (n : ℕ) (tcs : List (ToolCall F)) (k : ℕ) where
  count_decision-Shows :
      (d : PolicyDecision) (ds : List PolicyDecision) (m : Metrics)
      → Shows n tcs k ds m
      → Shows n tcs k (ds ++ d ∷ []) (count_decision d.action m)
  count_decision-Shows d ds m s =
      let r = count_decision-Round d.action m in
      record {
        requests = r.requests ∙ s.requests;
        tool_calls = r.tool_calls ∙ s.tool_calls;
        anomalies = r.anomalies ∙ s.anomalies;
        denied = r.denied ∙ counter_step deny d ds m.denied_calls s.denied;
        allowed = r.allowed ∙ counter_step allow d ds m.allowed_calls s.allowed;
        tools = λ name. ap (entry name) r.tools ∙ s.tools name;
        decisions = λ a.
            ap (entry (action_string a)) r.decisions
            ∙ decision_step a d ds m.policy_decisions (s.decisions a);
      }

  count_decisions-Shows :
      (ds' ds : List PolicyDecision) (m : Metrics)
      → Shows n tcs k ds m
      → Shows n tcs k (ds ++ ds') (count_decisions ds' m)
  unfolding count_decisions
  count_decisions-Shows [] ds m s = rw (append-nil ds) s
  count_decisions-Shows (d ∷ ds') ds m s = rw (← append_assoc ds (d ∷ []) ds') (
      count_decisions-Shows ds' (ds ++ d ∷ []) (count_decision d.action m)
        (count_decision-Shows d ds m s))

pub record_metrics-Shows :
    {F : Type 0} (now : ℤ) (e : InterceptionEvent F) (n : ℕ) (tcs : List (ToolCall F)) (k : ℕ)
    (ds : List PolicyDecision) (m : Metrics)
    → Shows n tcs k ds m
    → Shows
        (n + 1)
        (tcs ++ e.tool_calls)
        (k + length e.anomalies)
        (ds ++ e.decisions)
        (record_metrics now e m)
unfolding record_metrics len64
record_metrics-Shows now e n tcs k ds m s =
    let m' : Metrics = record m {
      total_requests = add64 m.total_requests (pos 1);
      total_tool_calls = add64 m.total_tool_calls (len64 e.tool_calls);
      anomalies_detected = add64 m.anomalies_detected (len64 e.anomalies);
      last_activity = now;
      tool_counts = count_tools e.tool_calls m.tool_counts;
    } in
    let s' : Shows (n + 1) (tcs ++ e.tool_calls) (k + length e.anomalies) ds m' = record {
      requests = ap (λ z. add64 z (pos 1)) s.requests ∙ add64-wrap64_one n;
      tool_calls =
          add-count m.total_tool_calls (length tcs) (length e.tool_calls) s.tool_calls
          ∙ ap wrapped (sym (length-append tcs e.tool_calls));
      anomalies = add-count m.anomalies_detected k (length e.anomalies) s.anomalies;
      denied = s.denied;
      allowed = s.allowed;
      tools = λ name.
          entry-count_tools name e.tool_calls m.tool_counts (count_if (is_tool name) tcs)
            (s.tools name)
          ∙ ap wrapped (sym (count_if-append (is_tool name) tcs e.tool_calls));
      decisions = s.decisions;
    } in
    count_decisions-Shows (n + 1) (tcs ++ e.tool_calls) (k + length e.anomalies) e.decisions ds m'
      s'
